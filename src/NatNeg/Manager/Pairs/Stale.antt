-- ===== src/NatNeg/Manager/Pairs/Stale.antt =====
-- The ports of a pair after the relay server has released its route: the route times out after two
-- minutes without a datagram, the pair after five minutes without an attempt.

use kirov_server_emulator.NatNeg.Manager.Pairs.Laws.{allocate_kept}
use kirov_server_emulator.NatNeg.Manager.Pairs.{Pair, allocate_pair_relay_if_missing}
use kirov_server_emulator.Relay.Server.{
  RelayServer, cleanup_stale_routes, find_route, serves, get_route_by_port, second,
}
use kirov_server_emulator.Relay.Server.Routes.{
  find_route_found, get-find_route, Keyed, serves_apart,
}
use kirov_server_emulator.Relay.Server.Invariant.{IsConsistent, cleanup_stale_routes-IsConsistent}
use kirov_server_emulator.Prelude.{
  Bool-cases, Option, Option-cases, false, inl, inr, list_eq, nat_eq, none, option_eq, pair_eq,
  some, sym, true, ℕ, ◌∙◌, ◌≡◌, [], ap, arith, pair_beq_iff, ◌==◌,
}
use kirov_server_emulator.Relay.Types.{RelayRoute, is_stale, PairAttemptInfo}
use kirov_server_emulator.Prelude.Dict.{get, All-get}
use kirov_server_emulator.NatNeg.Manager.{NatNegSessionManager}
use kirov_server_emulator.Relay.Server.Cleanup.{get-cleanup_stale_routes, live}

live-some :
    (timeout now : ℕ) (o : Option RelayRoute) (r : RelayRoute)
    → live timeout now o ≡ some r
    → (o ≡ some r) × (is_stale r timeout now ≡ false)
live-some timeout now none r h = cc
live-some timeout now (some w) r h = (ground arith, ground arith)

module _ (s : RelayServer) (c : IsConsistent s) (now port : ℕ) where
  -- A route that the port finds after the cleanup stood there before, and is not stale.
  found_live :
      (k : ℕ × ℕ) (r : RelayRoute)
      → find_route (cleanup_stale_routes s now).0.routes port ≡ some (k, r)
      → (get s.routes k ≡ some r)
        × (is_stale r s.session_timeout now ≡ false)
        × (serves r port ≡ true)
  found_live k r found =
      let s' = (cleanup_stale_routes s now).0 in
      let c' = cleanup_stale_routes-IsConsistent s now c in
      let start = s'.port_pool.port_start in
      let end = s'.port_pool.port_end in
      let (own, serving) = find_route_found start end s'.routes port k r c'.keyed found in
      let here = get-find_route start end s'.routes port k r c'.keyed found in
      let was =
        live-some s.session_timeout now (get s.routes k) r
          (sym (get-cleanup_stale_routes s now k c) ∙ here) in
      (was.0, was.1, serving)

  released :
      (k : ℕ × ℕ) (r : RelayRoute)
      → find_route s.routes port ≡ some (k, r)
      → is_stale r s.session_timeout now ≡ true
      → find_route (cleanup_stale_routes s now).0.routes port ≡ none
  released k r found stale =
      elim (Option-cases (find_route (cleanup_stale_routes s now).0.routes port)) [
        | inl gone ↦ gone
        | inr ((j, w), still) ↦
            let start = s.port_pool.port_start in
            let end = s.port_pool.port_end in
            let (there, fresh, serving) = found_live j w still in
            let (own, hit) = find_route_found start end s.routes port k r c.keyed found in
            let stored = get-find_route start end s.routes port k r c.keyed found in
            let owned = All-get (Keyed start end) s.routes j w c.keyed there in
            elim (Bool-cases (k == j)) [
              | inl same ↦
                  let key : k ≡ j = (pair_beq_iff k j).0 same in
                  let route : ◌≡◌ {A = Option RelayRoute} (some r) (some w) =
                    sym stored ∙ ap (get s.routes) key ∙ there in
                  ground (arith, route)
              | inr other ↦
                  ground (arith, serves_apart start end j k w r port owned own other serving)
            ]
      ]

-- On a consistent relay server, let a pair have the ports `a` and `b`, and let `a` find a route
-- that is stale at `now`. Then, after the relay's cleanup at `now`, no route has the port `a` any
-- more, and yet the pair is given the same two ports again, without an allocation.
pub allocate_pair_relay_if_missing_stale :
    (bind : ℕ → Option ℕ) (m : NatNegSessionManager) (pair : Pair) (relay : RelayServer)
    (now later a b : ℕ) (i : PairAttemptInfo) (r : RelayRoute)
    → IsConsistent relay
    → get m.pair_attempts pair ≡ some i
    → i.relay_ports ≡ some (a, b)
    → get_route_by_port relay a ≡ some r
    → is_stale r relay.session_timeout now ≡ true
    → let relay' = (cleanup_stale_routes relay now).0 in
      (get_route_by_port relay' a ≡ none)
      × (allocate_pair_relay_if_missing bind m pair relay' later ≡ (m, relay', some (a, b), []))
unfolding get_route_by_port
allocate_pair_relay_if_missing_stale bind m pair relay now later a b i r c known given found stale =
    (
      elim (Option-cases (find_route relay.routes a)) [
        | inl missing ↦ cc
        | inr ((k, w), here) ↦
            let same : ◌≡◌ {A = Option RelayRoute} (some w) (some r) =
              sym (ap second here) ∙ found in
            ap second (released relay c now a k w here (ground (arith, same)))
      ],
      allocate_kept bind m pair (cleanup_stale_routes relay now).0 later i (a, b) known given,
    )
