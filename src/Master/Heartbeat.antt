-- ===== src/Master/Heartbeat.antt =====
-- HeartbeatMaster of app/servers/query_master_udp.py, with the registry of games that it writes to. An
-- operation gives the state, the datagrams that it sends, and whether it ends with an exception.
use kirov_server_emulator.Master.Registry.{
  GameSessionRegistry, register_game, text_at, unregister_game,
}
use kirov_server_emulator.Prelude.{
  Bool, List, Option, [], drop, false, if◌then◌else◌, length, list_eq, ltb, nat_eq, none, option_eq,
  pair_eq, some, true, ℕ, ◌%◌, ◌++◌, ◌+◌, ◌/◌, ◌==◌, ◌∷◌,
}
use kirov_server_emulator.Master.HeartbeatBody.{parse_heartbeat_body}
use kirov_server_emulator.Prelude.Dict.{Dict, get, put, remove}
use kirov_server_emulator.Prelude.Text.{Text, codes}
use kirov_server_emulator.Prelude.Words.{Bytes, be32, byte_at, pack_u16, pack_u32, ◌>>=◌}
pub mod Answers
pub mod Changes
pub mod Listed
pub mod Registering

pub record HeartbeatSession : Type 0 where
  pub host_ip : Text
  pub host_port : ℕ
  pub info : Dict Text Text
  pub last_keepalive : Bool

pub record HeartbeatMaster : Type 0 where
  pub transport : Bool
  pub game_sessions : Dict ℕ HeartbeatSession
  pub registry : GameSessionRegistry

-- HeartbeatMaster(), and connection_made; the registry is that of the process
abbrev pub new_master : GameSessionRegistry → HeartbeatMaster
new_master registry = record { transport = false; game_sessions = []; registry = registry }

abbrev pub transport_made : HeartbeatMaster → HeartbeatMaster
transport_made m = record m { transport = true }

pub record Step : Type 0 where
  pub after : HeartbeatMaster
  pub sent_datagrams : List (Bytes × (Text × ℕ))
  pub failed : Bool

abbrev pub nothing_sent : HeartbeatMaster → Step
nothing_sent m = record { after = m; sent_datagrams = []; failed = false }

abbrev pub exception : HeartbeatMaster → Step
exception m = record { after = m; sent_datagrams = []; failed = true }

-- _send
abbrev pub send_datagram : HeartbeatMaster → Bytes → Text × ℕ → Step
send_datagram m data_ addr = record {
  after = m;
  sent_datagrams = if m.transport then (data_, addr) ∷ [] else [];
  failed = false;
}

abbrev pub try_send : HeartbeatMaster → Option Bytes → Text × ℕ → Step
try_send m none addr = exception m
try_send m (some data_) addr = send_datagram m data_ addr

abbrev pub hex_digit : ℕ → ℕ
hex_digit n = if ltb n 10 then 48 + n else 55 + n

-- base64.b16encode
unfoldable pub b16encode : Bytes → Bytes
b16encode [] = []
b16encode (b ∷ bs) = hex_digit (b / 16) ∷ hex_digit (b % 16) ∷ b16encode bs

unfoldable pub handle_available : HeartbeatMaster → Text × ℕ → Step
handle_available m addr = send_datagram m (0xFE ∷ 0xFD ∷ 9 ∷ 0 ∷ 0 ∷ 0 ∷ 0 ∷ []) addr

unfoldable pub handle_challenge_response : HeartbeatMaster → Text × ℕ → ℕ → Step
handle_challenge_response m addr client_id =
    try_send m (do id ← pack_u32 client_id; some (0xFE ∷ 0xFD ∷ 0x0A ∷ id)) addr

abbrev pub kept_alive : HeartbeatMaster → ℕ → Option HeartbeatSession → HeartbeatMaster
kept_alive m client_id none = m
kept_alive m client_id (some s) = record m {
  game_sessions = put m.game_sessions client_id (record s { last_keepalive = true });
}

unfoldable pub handle_keepalive : HeartbeatMaster → ℕ → Step
unfolding get put
handle_keepalive m client_id = nothing_sent (kept_alive m client_id (get m.game_sessions client_id))

abbrev pub removed : HeartbeatMaster → ℕ → HeartbeatMaster
removed m client_id = record m {
  game_sessions = remove m.game_sessions client_id;
  registry = unregister_game m.registry client_id;
}

abbrev pub session_stored : HeartbeatMaster → Text × ℕ → ℕ → Dict Text Text → HeartbeatMaster
session_stored m (ip, port) client_id info = record m {
  game_sessions =
      put m.game_sessions client_id
        (record { host_ip = ip; host_port = port; info = info; last_keepalive = false });
}

module _ (inet_aton : Text → Option Bytes) where
  unfoldable pub challenge_bytes : Text × ℕ → ℕ → Option Bytes
  unfolding b16encode
  challenge_bytes (ip, port) client_id = do
    ip_bytes ← inet_aton ip
    port_bytes ← pack_u16 port
    id ← pack_u32 client_id
    some (
        0xFE ∷ 0xFD ∷ 1 ∷ id
        ++ (codes "CHALLENGE" ++ (b16encode (0 ∷ ip_bytes ++ port_bytes) ++ 0 ∷ [])))

  unfoldable pub send_challenge : HeartbeatMaster → Text × ℕ → ℕ → Step
  unfolding challenge_bytes
  send_challenge m addr client_id = try_send m (challenge_bytes addr client_id) addr

  abbrev pub registered :
      HeartbeatMaster → Text × ℕ → ℕ → Dict Text Text → Option GameSessionRegistry → Step
  registered m addr client_id info none = exception m
  registered m addr client_id info (some registry) =
      let m' = record m { registry = registry } in
      if text_at (get info (codes "publicip")) [] == codes "0"
      then send_challenge m' addr client_id
      else nothing_sent m'

  module _ (inet_ntoa : Bytes → Text) where
    unfoldable pub handle_info : HeartbeatMaster → Text × ℕ → ℕ → Dict Text Text → Step
    unfolding get put remove unregister_game register_game send_challenge
    handle_info m addr client_id info =
        let m' = session_stored m addr client_id info in
        if text_at (get info (codes "statechanged")) (codes "0") == codes "2"
        then nothing_sent (removed m client_id)
        else registered m' addr client_id info
            (register_game inet_ntoa m'.registry client_id addr.0 addr.1 info)

    module _ (utf8_decode : Bytes → Text) (show_players : List (Dict Text Text) → Text) where
      unfoldable pub handle_heartbeat : HeartbeatMaster → Bytes → Text × ℕ → ℕ → Step
      handle_heartbeat m body addr client_id =
          handle_info m addr client_id (parse_heartbeat_body utf8_decode show_players body)

      unfoldable pub dispatch : HeartbeatMaster → ℕ → Bytes → Text × ℕ → ℕ → Step
      unfolding handle_available handle_heartbeat handle_challenge_response handle_keepalive
      dispatch m msg_id body addr client_id =
          if msg_id == 9
          then handle_available m addr
          else if msg_id == 3
          then handle_heartbeat m body addr client_id
          else if msg_id == 1
          then handle_challenge_response m addr client_id
          else if msg_id == 8
          then handle_keepalive m client_id
          else nothing_sent m

      -- datagram_received
      unfoldable pub receive_heartbeat : HeartbeatMaster → Bytes → Text × ℕ → Step
      unfolding dispatch
      receive_heartbeat m data_ addr =
          if ltb (length data_) 5
          then nothing_sent m
          else dispatch m (byte_at data_ 0) (drop 5 data_) addr
              (be32 (byte_at data_ 1) (byte_at data_ 2) (byte_at data_ 3) (byte_at data_ 4))
