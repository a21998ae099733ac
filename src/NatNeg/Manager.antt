-- ===== src/NatNeg/Manager.antt =====
-- `NatNegSessionManager` of app/servers/sessions.py. Its lock makes each method one step. An
-- endpoint is the pair of its address and port; times are milliseconds.
use kirov_server_emulator.Prelude.Dict.{Dict, get, put, remove}
use kirov_server_emulator.Prelude.Text.{Text}
use kirov_server_emulator.Relay.Types.{PairAttemptInfo}
use kirov_server_emulator.NatNeg.Header.{NatNegClientIndex, NatNegPortType, guest, host}
use kirov_server_emulator.Prelude.Words.{◌>>=◌}
use kirov_server_emulator.Prelude.{
  Bool, List, Option, [], false, if◌then◌else◌, length, list_eq, ltb, nat_eq, none, not, option_eq,
  pair_eq, some, true, ℕ, ◌&&◌, ◌+◌, ◌∷◌,
}
use kirov_server_emulator.NatNeg.Client.{
  is_ready, public_ip, NatNegClient, NatNegClientConnection, NatNegSession, add_connection,
  get_best_connection, new_client, new_session,
}
pub mod Registering
pub mod Scheduling
pub mod Acknowledging
pub mod Expiry
pub mod Pairs

pub record NatNegSessionManager : Type 0 where
  pub sessions : Dict ℕ NatNegSession
  pub client_endpoints : Dict (Text × ℕ) (ℕ × NatNegClientIndex)
  pub host_session_counter : Dict (Option Text) ℕ
  pub pair_attempts : Dict (Option Text × Option Text) PairAttemptInfo
  pub on_session_ready : Bool

abbrev pub session_timeout : ℕ
session_timeout = 30000

unfoldable pub new_manager : NatNegSessionManager
new_manager = record {
  sessions = [];
  client_endpoints = [];
  host_session_counter = [];
  pair_attempts = [];
  on_session_ready = false;
}

-- A callback is set; what it does is `on_session_ready` of the server.
unfoldable pub set_on_session_ready : NatNegSessionManager → NatNegSessionManager
set_on_session_ready m = record m { on_session_ready = true }

-- The arguments of `register_client`.
pub record Registration : Type 0 where
  pub session_id : ℕ
  pub client_index : NatNegClientIndex
  pub port_type : NatNegPortType
  pub public_ip : Text
  pub public_port : ℕ
  pub local_ip : Text
  pub local_port : ℕ
  pub game_name : Text

abbrev pub connection_of : Registration → NatNegClientConnection
connection_of a = record {
  public_ip = a.public_ip;
  public_port = a.public_port;
  local_ip = a.local_ip;
  local_port = a.local_port;
  port_type = a.port_type;
}

abbrev pub session_or_new : Option NatNegSession → Registration → ℕ → NatNegSession
session_or_new none a now = new_session a.session_id a.game_name now
session_or_new (some s) a now = s

abbrev pub client_or_new : Option NatNegClient → Registration → NatNegClient
client_or_new none a = new_client a.session_id a.client_index a.game_name
client_or_new (some c) a = c

-- The session with the connection added to the client of the role.
unfoldable pub with_role : NatNegSession → Registration → NatNegClientIndex → NatNegSession
with_role s a host = record s {
  host = some (add_connection (client_or_new s.host a) (connection_of a));
}
with_role s a guest = record s {
  guest = some (add_connection (client_or_new s.guest a) (connection_of a));
}

unfoldable pub with_connection : NatNegSession → Registration → NatNegSession
unfolding with_role
with_connection s a = with_role s a a.client_index

abbrev pub host_ip_of : NatNegSession → Option Text
host_ip_of s = elim s.host [ none ↦ none | some h ↦ public_ip h ]

abbrev count_of : Option ℕ → ℕ
count_of none = 0
count_of (some n) = n

-- The end of `register_client`: the state, the session, and whether the callback is scheduled.
unfoldable pub settle :
    NatNegSessionManager → ℕ → NatNegSession → NatNegSessionManager × NatNegSession × Bool
settle m sid s =
    if is_ready s && not s.connect_sent
    then (let n = count_of (get m.host_session_counter (host_ip_of s)) + 1 in
        let s' = record s { session_order = n; connect_sent = true } in
        (
          record m {
            sessions = put m.sessions sid s';
            host_session_counter = put m.host_session_counter (host_ip_of s) n;
          },
          s',
          m.on_session_ready,
        ))
    else (record m { sessions = put m.sessions sid s }, s, false)

unfoldable pub register_client :
    NatNegSessionManager → Registration → ℕ → NatNegSessionManager × NatNegSession × Bool
unfolding with_connection settle
register_client m a now =
    settle
      (record m {
        client_endpoints =
            put m.client_endpoints (a.public_ip, a.public_port) (a.session_id, a.client_index);
      })
      a.session_id (with_connection (session_or_new (get m.sessions a.session_id) a now) a)

unfoldable pub get_session : NatNegSessionManager → ℕ → Option NatNegSession
get_session m sid = get m.sessions sid

abbrev paired_with :
    NatNegClientIndex → Option NatNegSession → Option (NatNegSession × NatNegClientIndex)
paired_with i none = none
paired_with i (some s) = some (s, i)

unfoldable pub get_session_by_endpoint :
    NatNegSessionManager → Text → ℕ → Option (NatNegSession × NatNegClientIndex)
get_session_by_endpoint m ip port = do
  (sid, i) ← get m.client_endpoints (ip, port)
  paired_with i (get m.sessions sid)

abbrev pub acked : Option NatNegClient → Bool
acked none = false
acked (some c) = c.connect_acked

abbrev pub ack : Option NatNegClient → Option NatNegClient
ack none = none
ack (some c) = some (record c { connect_acked = true })

unfoldable pub acknowledge : NatNegSession → NatNegClientIndex → NatNegSession
acknowledge s host = record s { host = ack s.host }
acknowledge s guest = record s { guest = ack s.guest }

unfoldable pub complete : NatNegSession → NatNegSession
complete s = if acked s.host && acked s.guest then record s { completed = true } else s

unfoldable pub mark_connect_acked :
    NatNegSessionManager → ℕ → NatNegClientIndex → NatNegSessionManager
unfolding acknowledge complete
mark_connect_acked m sid i = elim (get m.sessions sid) [
  | none ↦ m
  | some s ↦ record m { sessions = put m.sessions sid (complete (acknowledge s i)) }
]

-- The endpoint of the best connection of a client is popped. Without a connection its address and
-- port are None, which no endpoint has.
abbrev pub drop_endpoint :
    Dict (Text × ℕ) (ℕ × NatNegClientIndex)
    → Option NatNegClient
    → Dict (Text × ℕ) (ℕ × NatNegClientIndex)
drop_endpoint d none = d
drop_endpoint d (some c) = elim (get_best_connection c) [
  | none ↦ d
  | some conn ↦ remove d (conn.public_ip, conn.public_port)
]

-- A session is popped, with the endpoints of its clients.
unfoldable pub remove_session : NatNegSessionManager → ℕ → NatNegSessionManager
remove_session m sid = elim (get m.sessions sid) [
  | none ↦ m
  | some s ↦ record m {
    sessions = remove m.sessions sid;
    client_endpoints = drop_endpoint (drop_endpoint m.client_endpoints s.host) s.guest;
  }
]

unfoldable pub is_expired : NatNegSession → ℕ → Bool
is_expired s now = ltb (s.created_at + session_timeout) now && not s.completed

unfoldable pub expired_ids : Dict ℕ NatNegSession → ℕ → List ℕ
unfolding is_expired
expired_ids [] now = []
expired_ids ((sid, s) ∷ d) now =
    let rest = expired_ids d now in if is_expired s now then sid ∷ rest else rest

unfoldable pub remove_sessions : NatNegSessionManager → List ℕ → NatNegSessionManager
unfolding remove_session
remove_sessions m [] = m
remove_sessions m (sid ∷ sids) = remove_sessions (remove_session m sid) sids

unfoldable pub cleanup_expired_sessions : NatNegSessionManager → ℕ → NatNegSessionManager
unfolding expired_ids remove_sessions
cleanup_expired_sessions m now = remove_sessions m (expired_ids m.sessions now)

unfoldable pub get_session_count : NatNegSessionManager → ℕ
get_session_count m = length m.sessions

unfoldable pub get_client_count : NatNegSessionManager → ℕ
get_client_count m = length m.client_endpoints
