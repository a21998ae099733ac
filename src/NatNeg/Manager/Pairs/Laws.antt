-- ===== src/NatNeg/Manager/Pairs/Laws.antt =====
-- The attempts of a pair and its relay ports.

use kirov_server_emulator.Relay.Server.Invariant.{IsConsistent}
use kirov_server_emulator.Relay.Server.Allocation.{allocate_route-IsConsistent, allocate_route-none}
use kirov_server_emulator.NatNeg.Manager.{NatNegSessionManager}
use kirov_server_emulator.Prelude.Dict.{Dict, get, get-put, has, put}
use kirov_server_emulator.Relay.Server.{RelayServer, allocate_route}
use kirov_server_emulator.Relay.Types.{PairAttemptInfo, increment, RelayRoute}
use kirov_server_emulator.NatNeg.Manager.Pairs.{
  Pair, allocate_for, allocate_pair_relay_if_missing, get_pair_attempt, pair_or_new, store_ports,
}
use kirov_server_emulator.Prelude.{
  ==_refl, Option, [], if◌then◌else◌, list_eq, nat_eq, none, option_eq, pair_eq, refl, some, ℕ, ◌+◌,
  ◌==◌, ◌∙◌, ◌≡◌, Option-cases, inl, inr,
}

-- An attempt of a pair is counted, from one for a new pair; other pairs are as before.
-- The pair keeps its ports, and its last activity is the time of the attempt.
pub get_pair_attempt_counts :
    (m : NatNegSessionManager) (pair : Pair) (now : ℕ) (other : Pair)
    → let (m', info) = get_pair_attempt m pair now in
      (get m'.pair_attempts other
        ≡ (if pair == other then some info else get m.pair_attempts other))
      × (info.attempt_count ≡ (pair_or_new (get m.pair_attempts pair) now).attempt_count + 1)
      × (info.relay_ports ≡ (pair_or_new (get m.pair_attempts pair) now).relay_ports)
      × (info.last_activity ≡ now)
unfolding get_pair_attempt increment
get_pair_attempt_counts m pair now other = (get-put m.pair_attempts pair _ other, refl, refl, refl)

get-put_same :
    (d : Dict Pair PairAttemptInfo) (k : Pair) (i : PairAttemptInfo) → get (put d k i) k ≡ some i
get-put_same d k i = get-put d k i k ∙ rw (==_refl {A = Pair} k) refl

-- The four ways of `allocate_pair_relay_if_missing`.
pub data AllocationCase (bind : ℕ → Option ℕ) (m : NatNegSessionManager) (pair : Pair)
    (relay : RelayServer) (now : ℕ) : Type 0 where
  unknown :
      allocate_pair_relay_if_missing bind m pair relay now ≡ (m, relay, none, [])
      → AllocationCase bind m pair relay now
  kept :
      (i : PairAttemptInfo) (ports : ℕ × ℕ)
      → get m.pair_attempts pair ≡ some i
      → i.relay_ports ≡ some ports
      → allocate_pair_relay_if_missing bind m pair relay now ≡ (m, relay, some ports, [])
      → AllocationCase bind m pair relay now
  failed :
      (allocate_route bind relay now).1 ≡ none
      → allocate_pair_relay_if_missing bind m pair relay now
        ≡ (m, (allocate_route bind relay now).0, none, (allocate_route bind relay now).2)
      → AllocationCase bind m pair relay now
  stored :
      (i : PairAttemptInfo) (r : RelayRoute)
      → allocate_pair_relay_if_missing bind m pair relay now ≡ (
        record m {
          pair_attempts =
              put m.pair_attempts pair (record i { relay_ports = some (r.port_a, r.port_b) });
        },
        (allocate_route bind relay now).0,
        some (r.port_a, r.port_b),
        (allocate_route bind relay now).2,
      )
      → AllocationCase bind m pair relay now

module _ (bind : ℕ → Option ℕ) (m : NatNegSessionManager) (pair : Pair) (relay : RelayServer)
    (now : ℕ) where
  allocate_unknown :
      get m.pair_attempts pair ≡ none
      → allocate_pair_relay_if_missing bind m pair relay now ≡ (m, relay, none, [])
  unfolding allocate_pair_relay_if_missing
  allocate_unknown missing = rw (allocate_pair_relay_if_missing, missing) refl

  pub allocate_kept :
      (i : PairAttemptInfo) (ports : ℕ × ℕ)
      → get m.pair_attempts pair ≡ some i
      → i.relay_ports ≡ some ports
      → allocate_pair_relay_if_missing bind m pair relay now ≡ (m, relay, some ports, [])
  unfolding allocate_pair_relay_if_missing allocate_for
  allocate_kept i ports found given = rw (allocate_pair_relay_if_missing, found, given) refl

  allocate_missing :
      (i : PairAttemptInfo)
      → get m.pair_attempts pair ≡ some i
      → i.relay_ports ≡ none
      → allocate_pair_relay_if_missing bind m pair relay now
        ≡ store_ports m pair i (allocate_route bind relay now)
  unfolding allocate_pair_relay_if_missing allocate_for
  allocate_missing i found given = rw (allocate_pair_relay_if_missing, found, given) refl

  pub allocate_case : AllocationCase bind m pair relay now
  unfolding store_ports
  allocate_case = elim (Option-cases (get m.pair_attempts pair)) [
    | inl missing ↦ unknown (allocate_unknown missing)
    | inr (i, found) ↦ elim (Option-cases i.relay_ports) [
      | inr (ports, given) ↦ kept i ports found given (allocate_kept i ports found given)
      | inl free ↦ elim (Option-cases (allocate_route bind relay now).1) [
        | inl e ↦ failed e (allocate_missing i found free ∙ rw (store_ports, e) refl)
        | inr (r, e) ↦ stored i r (allocate_missing i found free ∙ rw (store_ports, e) refl)
      ]
    ]
  ]

-- Once ports were given to a pair, a second request returns the same ports: it changes nothing in
-- the manager and in the relay server, and nothing is sent or closed.
pub allocate_pair_relay_if_missing_twice :
    (bind : ℕ → Option ℕ) (m : NatNegSessionManager) (pair : Pair) (relay : RelayServer)
    (now later : ℕ) (ports : ℕ × ℕ)
    → let (m', relay', given, effects) = allocate_pair_relay_if_missing bind m pair relay now in
      given ≡ some ports
      → allocate_pair_relay_if_missing bind m' pair relay' later ≡ (m', relay', some ports, [])
allocate_pair_relay_if_missing_twice bind m pair relay now later ports h =
    elim (allocate_case bind m pair relay now) [
      | unknown e ↦ cc
      | failed _ e ↦ cc
      | kept i given found has e ↦
          let same : some given ≡ some ports = cc in
          rw e (allocate_kept bind m pair relay later i ports found (has ∙ same))
      | stored i r e ↦
          let same : some (r.port_a, r.port_b) ≡ some ports = cc in
          let i' = record i { relay_ports = some (r.port_a, r.port_b) } in
          rw e (
            allocate_kept bind (record m { pair_attempts = put m.pair_attempts pair i' }) pair
              (allocate_route bind relay now).0 later i' ports
              (get-put_same m.pair_attempts pair i') same)
    ]

-- If a pair is given no ports and the relay server is consistent, neither the manager nor the relay
-- server has changed.
pub allocate_pair_relay_if_missing-none :
    (bind : ℕ → Option ℕ) (m : NatNegSessionManager) (pair : Pair) (relay : RelayServer) (now : ℕ)
    → IsConsistent relay
    → let (m', relay', given, effects) = allocate_pair_relay_if_missing bind m pair relay now in
      given ≡ none → (m' ≡ m) × (relay' ≡ relay)
allocate_pair_relay_if_missing-none bind m pair relay now c h =
    elim (allocate_case bind m pair relay now) [
      | unknown e ↦ rw e (refl, refl)
      | failed none_returned e ↦ rw e (refl, allocate_route-none bind relay now c none_returned)
      | kept i given found has e ↦ cc
      | stored i r e ↦ cc
    ]

-- A consistent relay server stays consistent.
pub allocate_pair_relay_if_missing-IsConsistent :
    (bind : ℕ → Option ℕ) (m : NatNegSessionManager) (pair : Pair) (relay : RelayServer) (now : ℕ)
    → IsConsistent relay
    → IsConsistent (allocate_pair_relay_if_missing bind m pair relay now).1
allocate_pair_relay_if_missing-IsConsistent bind m pair relay now c =
    elim (allocate_case bind m pair relay now) [
      | unknown e ↦ rw e c
      | failed _ e ↦ rw e (allocate_route-IsConsistent bind relay now c)
      | kept i given found has e ↦ rw e c
      | stored i r e ↦ rw e (allocate_route-IsConsistent bind relay now c)
    ]
