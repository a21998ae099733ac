-- ===== src/Master/Heartbeat/Listed.antt =====
-- The registry and the sessions of heartbeats, over any datagrams.

use kirov_server_emulator.Master.Heartbeat.Changes.{
  Change, exited, id_of, kept, listed, stored, unchanged, receive_heartbeat-Change,
}
use kirov_server_emulator.Master.Registry.Heartbeats.{register_game-put}
use kirov_server_emulator.Master.Registry.{
  GameSessionRegistry, get_game, register_game, unregister_game,
}
use kirov_server_emulator.Prelude.Dict.{Dict, get, get-put, has, get-remove, put}
use kirov_server_emulator.Prelude.{
  Option, false, inl, inr, list_eq, nat_eq, option_eq, pair_eq, refl, some, true, ℕ, ◌==◌, ◌≡◌,
  List, [], sym, Bool-cases, ap, arith, is_some, nat_beq_iff, ◌∙◌, ◌∷◌, in_both,
}
use kirov_server_emulator.Master.Heartbeat.{HeartbeatMaster, receive_heartbeat}
use kirov_server_emulator.Prelude.Text.{Text}
use kirov_server_emulator.Prelude.Words.{Bytes}

-- Nothing of another client is changed.
abbrev pub Keeps : HeartbeatMaster → ℕ → HeartbeatMaster → Type 0
Keeps m id m' =
    (j : ℕ)
    → (id == j) ≡ false
    → (get_game m'.registry j ≡ get_game m.registry j)
      × (get m'.game_sessions j ≡ get m.game_sessions j)

-- Every game in the registry has a session.
abbrev pub HasSessions : HeartbeatMaster → Type 0
HasSessions m = (j : ℕ) → has m.registry.sessions j ≡ true → has m.game_sessions j ≡ true

register_game-other :
    (inet_ntoa : Bytes → Text) (r r' : GameSessionRegistry) (id : ℕ) (source : Text) (port : ℕ)
    (info : Dict Text Text) (j : ℕ)
    → register_game inet_ntoa r id source port info ≡ some r'
    → (id == j) ≡ false
    → get_game r' j ≡ get_game r j
unfolding get_game
register_game-other inet_ntoa r r' id source port info j h other =
    let (game, put_there) = register_game-put inet_ntoa r r' id source port info h in
    rw (put_there, get-put r.sessions id game j, other) refl

unregister_game-other :
    (r : GameSessionRegistry) (id j : ℕ)
    → (id == j) ≡ false
    → get_game (unregister_game r id) j ≡ get_game r j
unfolding get_game unregister_game
unregister_game-other r id j other =
    in_both (λ (r' : GameSessionRegistry). get r'.sessions j ≡ get r.sessions j) (has r.sessions id)
      _ r (rw (get-remove r.sessions id j, other) refl) refl

Change-Keeps :
    (inet_ntoa : Bytes → Text) (m : HeartbeatMaster) (id : ℕ) (m' : HeartbeatMaster)
    → Change inet_ntoa m id m'
    → Keeps m id m'
Change-Keeps inet_ntoa m id _ unchanged j other = (refl, refl)
Change-Keeps inet_ntoa m id _ (kept s found) j other =
    (refl, rw (get-put m.game_sessions id (record s { last_keepalive = true }) j, other) refl)
Change-Keeps inet_ntoa m id _ exited j other =
    (unregister_game-other m.registry id j other, rw (get-remove m.game_sessions id j, other) refl)
Change-Keeps inet_ntoa m id _ (stored addr info) j other =
    (refl, rw (get-put m.game_sessions id _ j, other) refl)
Change-Keeps inet_ntoa m id _ (listed addr info r' h) j other = (
  register_game-other inet_ntoa m.registry r' id addr.0 addr.1 info j h other,
  rw (get-put m.game_sessions id _ j, other) refl,
)

has-put {ℓ} :
    {V : Type ℓ} (d : Dict ℕ V) (k : ℕ) (v : V) (j : ℕ)
    → ((k == j) ≡ false → has d j ≡ true)
    → has (put d k v) j ≡ true
has-put d k v j h = elim (Bool-cases (k == j)) [
  | inl same ↦ rw (get-put d k v j, same) refl
  | inr other ↦ rw (get-put d k v j, other) (h other)
]

unregister_game-same :
    (r : GameSessionRegistry) (id j : ℕ)
    → (id == j) ≡ true
    → has (unregister_game r id).sessions j ≡ false
unfolding unregister_game
unregister_game-same r id j same = elim (Bool-cases (has r.sessions id)) [
  | inl there ↦ rw (there, get-remove r.sessions id j, same) refl
  | inr gone ↦ rw (gone, ← (nat_beq_iff id j).0 same) gone
]

Change-HasSessions :
    (inet_ntoa : Bytes → Text) (m : HeartbeatMaster) (id : ℕ) (m' : HeartbeatMaster)
    → Change inet_ntoa m id m'
    → HasSessions m
    → HasSessions m'
unfolding get_game
Change-HasSessions inet_ntoa m id _ unchanged all j h = all j h
Change-HasSessions inet_ntoa m id _ (kept s found) all j h =
    has-put m.game_sessions id (record s { last_keepalive = true }) j (λ other. all j h)
Change-HasSessions inet_ntoa m id _ exited all j h = elim (Bool-cases (id == j)) [
  | inl same ↦ absurd (ground (arith, unregister_game-same m.registry id j same, h))
  | inr other ↦
      rw (get-remove m.game_sessions id j, other)
        (all j (sym (ap is_some (unregister_game-other m.registry id j other)) ∙ h))
]
Change-HasSessions inet_ntoa m id _ (stored addr info) all j h =
    has-put m.game_sessions id _ j (λ other. all j h)
Change-HasSessions inet_ntoa m id _ (listed addr info r' e) all j h =
    has-put m.game_sessions id _ j (λ other. all j (
      sym (ap is_some (register_game-other inet_ntoa m.registry r' id addr.0 addr.1 info j e other))
      ∙ h))

module _ (inet_aton : Text → Option Bytes) (inet_ntoa : Bytes → Text) (utf8_decode : Bytes → Text)
    (show_players : List (Dict Text Text) → Text) where
  -- The master after these datagrams, in order.
  unfoldable pub receive_all : HeartbeatMaster → List (Bytes × (Text × ℕ)) → HeartbeatMaster
  unfolding receive_heartbeat
  receive_all m [] = m
  receive_all m ((data_, addr) ∷ rest) =
      receive_all
        (receive_heartbeat inet_aton inet_ntoa utf8_decode show_players m data_ addr).after rest

  -- Whatever datagrams arrive at a master where every game of the registry has a session, such as one
  -- that starts with an empty registry, every game that the registry lists afterwards has a session.
  pub receive_all-HasSessions :
      (events : List (Bytes × (Text × ℕ))) (m : HeartbeatMaster)
      → HasSessions m
      → HasSessions (receive_all m events)
  unfolding receive_all
  receive_all-HasSessions [] m h = h
  receive_all-HasSessions ((data_, addr) ∷ rest) m h = receive_all-HasSessions rest _ (
      Change-HasSessions inet_ntoa m (id_of data_) _
        (receive_heartbeat-Change inet_aton inet_ntoa utf8_decode show_players m data_ addr) h)

  -- A datagram, of whatever kind and from whatever address, leaves every game and every session
  -- alone that does not have the client id in its bytes 1 to 4.
  pub receive_heartbeat-Keeps :
      (m : HeartbeatMaster) (data_ : Bytes) (addr : Text × ℕ)
      → Keeps m
          (id_of data_)
          (receive_heartbeat inet_aton inet_ntoa utf8_decode show_players m data_ addr).after
  receive_heartbeat-Keeps m data_ addr =
      Change-Keeps inet_ntoa m (id_of data_) _
        (receive_heartbeat-Change inet_aton inet_ntoa utf8_decode show_players m data_ addr)
