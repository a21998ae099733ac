-- ===== src/Master/Heartbeat/Changes.antt =====
-- What a datagram can change in the state of HeartbeatMaster.

use kirov_server_emulator.Master.Registry.{GameSessionRegistry, register_game, text_at}
use kirov_server_emulator.Prelude.Dict.{Dict, get}
use kirov_server_emulator.Prelude.{
  Option, Option-cases, inl, inr, list_eq, nat_eq, none, option_eq, pair_eq, refl, some, ℕ, ◌==◌,
  ◌≡◌, List, [], drop, length, ltb, subst, sym, in_both,
}
use kirov_server_emulator.Master.Heartbeat.{
  HeartbeatMaster, Step, handle_keepalive, try_send, registered, send_challenge, session_stored,
  handle_info, HeartbeatSession, challenge_bytes, dispatch, handle_available,
  handle_challenge_response, handle_heartbeat, kept_alive, receive_heartbeat, removed,
}
use kirov_server_emulator.Prelude.Text.{Text, codes}
use kirov_server_emulator.Prelude.Words.{Bytes, be32, byte_at}

-- The client id in a datagram.
abbrev pub id_of : Bytes → ℕ
id_of data_ = be32 (byte_at data_ 1) (byte_at data_ 2) (byte_at data_ 3) (byte_at data_ 4)

-- The changes that a datagram of the client with this id can make.
pub data Change (inet_ntoa : Bytes → Text) (m : HeartbeatMaster) (id : ℕ)
    : HeartbeatMaster → Type 0 where
  unchanged : Change inet_ntoa m id m
  kept :
      (s : HeartbeatSession)
      → get m.game_sessions id ≡ some s
      → Change inet_ntoa m id (kept_alive m id (some s))
  exited : Change inet_ntoa m id (removed m id)
  stored :
      (addr : Text × ℕ) (info : Dict Text Text)
      → Change inet_ntoa m id (session_stored m addr id info)
  listed :
      (addr : Text × ℕ) (info : Dict Text Text) (r' : GameSessionRegistry)
      → register_game inet_ntoa m.registry id addr.0 addr.1 info ≡ some r'
      → Change inet_ntoa m id (record (session_stored m addr id info) { registry = r' })

module _ (inet_aton : Text → Option Bytes) (inet_ntoa : Bytes → Text) where
  try_send-after :
      (m : HeartbeatMaster) (o : Option Bytes) (addr : Text × ℕ) → (try_send m o addr).after ≡ m
  try_send-after m none addr = refl
  try_send-after m (some data_) addr = refl

  handle_keepalive-Change :
      (m : HeartbeatMaster) (id : ℕ) → Change inet_ntoa m id (handle_keepalive m id).after
  unfolding handle_keepalive
  handle_keepalive-Change m id = elim (Option-cases (get m.game_sessions id)) [
    | inl missing ↦ rw missing unchanged
    | inr (s, found) ↦ rw found (kept s found)
  ]

  registered-Change :
      (m : HeartbeatMaster) (addr : Text × ℕ) (id : ℕ) (info : Dict Text Text)
      (o : Option GameSessionRegistry)
      → register_game inet_ntoa m.registry id addr.0 addr.1 info ≡ o
      → Change inet_ntoa m id
          (registered inet_aton (session_stored m addr id info) addr id info o).after
  unfolding send_challenge
  registered-Change m addr id info none h = stored addr info
  registered-Change m addr id info (some r') h =
      in_both (λ (st : Step). Change inet_ntoa m id st.after)
        (text_at (get info (codes "publicip")) [] == codes "0") _ _
        (subst (Change inet_ntoa m id)
          (sym (try_send-after _ (challenge_bytes inet_aton addr id) addr)) (listed addr info r' h))
        (listed addr info r' h)

  handle_info-Change :
      (m : HeartbeatMaster) (addr : Text × ℕ) (id : ℕ) (info : Dict Text Text)
      → Change inet_ntoa m id (handle_info inet_aton inet_ntoa m addr id info).after
  unfolding handle_info
  handle_info-Change m addr id info =
      in_both (λ (st : Step). Change inet_ntoa m id st.after)
        (text_at (get info (codes "statechanged")) (codes "0") == codes "2") _ _ exited
        (registered-Change m addr id info _ refl)

  module _ (utf8_decode : Bytes → Text) (show_players : List (Dict Text Text) → Text) where
    dispatch-Change :
        (m : HeartbeatMaster) (msg_id : ℕ) (body : Bytes) (addr : Text × ℕ) (id : ℕ)
        → Change inet_ntoa m id
            (dispatch inet_aton inet_ntoa utf8_decode show_players m msg_id body addr id).after
    unfolding dispatch handle_available handle_challenge_response handle_heartbeat
    dispatch-Change m msg_id body addr id =
        let P : Step → Type 0 = λ st. Change inet_ntoa m id st.after in
        in_both P (msg_id == 9) _ _ unchanged (
          in_both P (msg_id == 3) _ _ (handle_info-Change m addr id _) (
            in_both P (msg_id == 1) _ _
              (subst (Change inet_ntoa m id) (sym (try_send-after m _ addr)) unchanged)
              (in_both P (msg_id == 8) _ _ (handle_keepalive-Change m id) unchanged)))

    pub receive_heartbeat-Change :
        (m : HeartbeatMaster) (data_ : Bytes) (addr : Text × ℕ)
        → Change inet_ntoa m
            (id_of data_)
            (receive_heartbeat inet_aton inet_ntoa utf8_decode show_players m data_ addr).after
    unfolding receive_heartbeat
    receive_heartbeat-Change m data_ addr =
        in_both (λ (st : Step). Change inet_ntoa m (id_of data_) st.after) (ltb (length data_) 5) _
          _ unchanged (dispatch-Change m (byte_at data_ 0) (drop 5 data_) addr (id_of data_))
