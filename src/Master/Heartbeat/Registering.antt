-- ===== src/Master/Heartbeat/Registering.antt =====
-- From the datagram of a heartbeat to the game in the registry.

use kirov_server_emulator.Master.Registry.Address.{le32, signed_le32, signed_le32-text}
use kirov_server_emulator.Master.Registry.Heartbeats.{game_of, register_game_lem}
use kirov_server_emulator.NatNeg.Client.{public_port}
use kirov_server_emulator.Prelude.Dict.{Dict, get}
use kirov_server_emulator.Prelude.{
  All, List, Option, [], false, list_eq, nat_eq, option_eq, pair_eq, refl, some, ℕ, ◌++◌, ◌==◌, ◌∷◌,
  ◌≡◌, Bool, ap, arith, if◌then◌else◌, length, le→ltb_false, suc, ◌<◌, ◌∙◌,
}
use kirov_server_emulator.Master.Heartbeat.{
  HeartbeatMaster, dispatch, handle_heartbeat, handle_info, nothing_sent, receive_heartbeat,
  session_stored, Step,
}
use kirov_server_emulator.Master.HeartbeatBody.RoundTrip.{
  IsPair, all_put, body_bytes, parse_heartbeat_body-body_bytes,
}
use kirov_server_emulator.Master.Registry.{
  GameSessionRegistry, register_game, text_at, get_game, int_or,
}
use kirov_server_emulator.Prelude.Text.{Text, codes, int_of}
use kirov_server_emulator.Prelude.Words.{Bytes, be32-bytes32, bytes32, IsBytes}

-- Message 3, the client id, and the pairs.
unfoldable pub heartbeat_bytes : (Text → Bytes) → ℕ → List (Text × Text) → Bytes
heartbeat_bytes enc id ps = 3 ∷ bytes32 id ++ body_bytes enc ps

module _ (inet_aton : Text → Option Bytes) (inet_ntoa : Bytes → Text) where
  handle_info-listed :
      (m : HeartbeatMaster) (addr : Text × ℕ) (id : ℕ) (info : Dict Text Text)
      (r' : GameSessionRegistry) (s : Text)
      → (text_at (get info (codes "statechanged")) (codes "0") == codes "2") ≡ false
      → get info (codes "publicip") ≡ some s
      → (s == codes "0") ≡ false
      → register_game inet_ntoa m.registry id addr.0 addr.1 info ≡ some r'
      → handle_info inet_aton inet_ntoa m addr id info
        ≡ nothing_sent (record (session_stored m addr id info) { registry = r' })
  unfolding handle_info
  handle_info-listed m addr id info r' s going told other made = rw (going, made, told, other) refl

  receive_heartbeat-handle_info :
      (enc : Text → Bytes) (dec : Bytes → Text) (show_players : List (Dict Text Text) → Text)
      → ((s : Text) → dec (enc s) ≡ s)
      → (m : HeartbeatMaster) (addr : Text × ℕ) (id : ℕ) (ps : List (Text × Text))
      → All (IsPair enc) ps
      → receive_heartbeat inet_aton inet_ntoa dec show_players m (heartbeat_bytes enc id ps) addr
        ≡ handle_info inet_aton inet_ntoa m addr id (all_put [] ps)
  unfolding receive_heartbeat dispatch handle_heartbeat heartbeat_bytes
  receive_heartbeat-handle_info enc dec show_players inverse m addr id ps pairs =
      rw
        (
          be32-bytes32 id,
          parse_heartbeat_body-body_bytes enc dec inverse show_players ps pairs,
          le→ltb_false (suc (suc (suc (suc (suc (length (body_bytes enc ps))))))) 5 (omega arith),
        )
        refl

  -- A heartbeat in the documented layout registers its game: the datagram is answered by nothing, and
  -- the registry lists under the client id the game with the address that the heartbeat sends as a
  -- signed little-endian integer, with the ports that it sends or, where one is missing, the port of the
  -- source or the public one, and with all pairs as its fields; no other game changes. The heartbeat
  -- does not say that the host exits, its address is not 0.0.0.0, its ports are numbers, no key is
  -- empty, no key or value has a zero byte, and UTF-8 is decoded as it was encoded.
  pub receive_heartbeat_registers :
      (enc : Text → Bytes) (dec : Bytes → Text) (show_players : List (Dict Text Text) → Text)
      → ((s : Text) → dec (enc s) ≡ s)
      → (m : HeartbeatMaster) (source : Text) (port id : ℕ) (ps : List (Text × Text))
        (public_port private_port : Bool × ℕ) (s : Text) (a b c d : ℕ)
      → let info = all_put [] ps in
        All (IsPair enc) ps
        → (text_at (get info (codes "statechanged")) (codes "0") == codes "2") ≡ false
        → get info (codes "publicip") ≡ some s
        → IsBytes (a ∷ b ∷ c ∷ d ∷ [])
        → 0 < le32 a b c d
        → int_of s ≡ some (signed_le32 a b c d)
        → int_or (get info (codes "hostport")) (false, port) ≡ some public_port
        → int_or (get info (codes "localport")) public_port ≡ some private_port
        → let game =
            game_of (inet_ntoa (a ∷ b ∷ c ∷ d ∷ [])) public_port private_port source port info in
          let st =
            receive_heartbeat inet_aton inet_ntoa dec show_players m
              (heartbeat_bytes enc id ps)
              (source, port) in
          (st.sent_datagrams ≡ [])
          × (st.failed ≡ false)
          × ((j : ℕ)
              → get_game st.after.registry j
                ≡ (if id == j then some game else get_game m.registry j))
  receive_heartbeat_registers enc dec show_players inverse m source port id ps public_port
        private_port s a b c d pairs going told bytes positive reads e1 e2 =
      let info = all_put [] ps in
      let (r', made, seen) =
        register_game_lem inet_ntoa m.registry id source port info public_port private_port s a b c
          d told bytes positive reads e1 e2 in
      let done_ =
        receive_heartbeat-handle_info enc dec show_players inverse m (source, port) id ps pairs
        ∙ handle_info-listed m (source, port) id info r' s going told
            (signed_le32-text s a b c d positive reads) made in
      (
        ap (λ (st : Step). st.sent_datagrams) done_,
        ap (λ (st : Step). st.failed) done_,
        λ j. ap (λ (st : Step). get_game st.after.registry j) done_ ∙ seen j,
      )
