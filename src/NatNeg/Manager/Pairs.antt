-- ===== src/NatNeg/Manager/Pairs.antt =====
-- The pair tracking of `NatNegSessionManager`, with the relay server that it allocates from.
use kirov_server_emulator.Relay.Server.{Effect, RelayServer, allocate_route}
use kirov_server_emulator.Prelude.Text.{Text}
use kirov_server_emulator.NatNeg.Manager.{NatNegSessionManager}
use kirov_server_emulator.Relay.Types.{
  PairAttemptInfo, RelayRoute, increment, is_stale_pair, new_pair,
}
use kirov_server_emulator.Prelude.Dict.{Dict, get, put, remove}
use kirov_server_emulator.Prelude.{
  List, Option, [], if◌then◌else◌, length, list_eq, nat_eq, none, option_eq, pair_eq, some, ℕ, ◌∷◌,
}
pub mod Laws
pub mod Stale

-- A host's and a guest's address.
abbrev pub Pair : Type 0
Pair = Option Text × Option Text

abbrev pub pair_or_new : Option PairAttemptInfo → ℕ → PairAttemptInfo
pair_or_new none now = new_pair now
pair_or_new (some i) now = i

unfoldable pub get_pair_attempt :
    NatNegSessionManager → Pair → ℕ → NatNegSessionManager × PairAttemptInfo
get_pair_attempt m pair now =
    let info = (increment (pair_or_new (get m.pair_attempts pair) now) now).0 in
    (record m { pair_attempts = put m.pair_attempts pair info }, info)

unfoldable pub update_pair_relay_ports : NatNegSessionManager → Pair → ℕ × ℕ → NatNegSessionManager
update_pair_relay_ports m pair ports = elim (get m.pair_attempts pair) [
  | none ↦ m
  | some i ↦ record m {
    pair_attempts = put m.pair_attempts pair (record i { relay_ports = some ports });
  }
]

abbrev pub Allocated : Type 0
Allocated = NatNegSessionManager × RelayServer × Option (ℕ × ℕ) × List Effect

-- The ports of a route that `allocate_route` returned are stored with the pair.
unfoldable pub store_ports :
    NatNegSessionManager
    → Pair
    → PairAttemptInfo
    → RelayServer × Option RelayRoute × List Effect
    → Allocated
store_ports m pair i (relay, none, effects) = (m, relay, none, effects)
store_ports m pair i (relay, some r, effects) =
    let ports = some (r.port_a, r.port_b) in
    (
      record m { pair_attempts = put m.pair_attempts pair (record i { relay_ports = ports }) },
      relay,
      ports,
      effects,
    )

unfoldable pub allocate_for :
    (ℕ → Option ℕ)
    → NatNegSessionManager
    → Pair
    → RelayServer
    → ℕ
    → PairAttemptInfo
    → Option (ℕ × ℕ)
    → Allocated
unfolding store_ports
allocate_for bind m pair relay now i (some ports) = (m, relay, some ports, [])
allocate_for bind m pair relay now i none = store_ports m pair i (allocate_route bind relay now)

unfoldable pub allocate_pair_relay_if_missing :
    (ℕ → Option ℕ) → NatNegSessionManager → Pair → RelayServer → ℕ → Allocated
unfolding allocate_for
allocate_pair_relay_if_missing bind m pair relay now = elim (get m.pair_attempts pair) [
  | none ↦ (m, relay, none, [])
  | some i ↦ allocate_for bind m pair relay now i i.relay_ports
]

unfoldable pub get_pair_info : NatNegSessionManager → Pair → Option PairAttemptInfo
get_pair_info m pair = get m.pair_attempts pair

unfoldable pub stale_pairs : Dict Pair PairAttemptInfo → ℕ → ℕ → List (Pair × PairAttemptInfo)
stale_pairs [] ttl now = []
stale_pairs ((pair, i) ∷ d) ttl now =
    let rest = stale_pairs d ttl now in if is_stale_pair i ttl now then (pair, i) ∷ rest else rest

remove_pairs : Dict Pair PairAttemptInfo → List (Pair × PairAttemptInfo) → Dict Pair PairAttemptInfo
remove_pairs d [] = d
remove_pairs d ((pair, i) ∷ ps) = remove_pairs (remove d pair) ps

released_of : List (Pair × PairAttemptInfo) → List (Pair × (ℕ × ℕ))
released_of [] = []
released_of ((pair, i) ∷ ps) =
    let rest = released_of ps in
    elim i.relay_ports [ none ↦ rest | some ports ↦ (pair, ports) ∷ rest ]

unfoldable pub cleanup_stale_pairs :
    NatNegSessionManager → ℕ → ℕ → NatNegSessionManager × List (Pair × (ℕ × ℕ))
unfolding remove_pairs released_of stale_pairs
cleanup_stale_pairs m ttl now =
    let stale = stale_pairs m.pair_attempts ttl now in
    (record m { pair_attempts = remove_pairs m.pair_attempts stale }, released_of stale)

unfoldable pub get_pair_count : NatNegSessionManager → ℕ
get_pair_count m = length m.pair_attempts
