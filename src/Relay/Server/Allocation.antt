-- ===== src/Relay/Server/Allocation.antt =====
-- `allocate_route`, on every outcome of the pool and of the two sockets.

use kirov_server_emulator.Relay.Types.{new_route, RelayRoute}
use kirov_server_emulator.Relay.PortPool.{allocate_pair}
use kirov_server_emulator.Relay.Server.Invariant.{IsConsistent, started-IsConsistent}
use kirov_server_emulator.Relay.Server.Routes.{get_not_found, finds, find_route-put_new}
use kirov_server_emulator.Prelude.Dict.{get, get-put, put, remove-put_new}
use kirov_server_emulator.Relay.PortPool.Laws.{allocate_pair_sound, release_pair-allocate_pair}
use kirov_server_emulator.Relay.Server.{
  RelayServer, close, give_up, route_key, start_port_listener, allocate_route, allocate_with,
  start_listeners, start_second, Effect, get_route_by_port, get_transport,
}
use kirov_server_emulator.Prelude.{
  ==_refl, Option, [], arith, list_eq, min, nat_eq, none, pair_eq, some, ℕ, ◌∷◌, ◌≡◌, Option-cases,
  inl, inr, refl, ◌⊎◌, List, false, subst, sym, ◌∙◌,
}

module _ (bind : ℕ → Option ℕ) (s : RelayServer) (r : RelayRoute) (a b : ℕ) where
  start_listeners_unbound : bind a ≡ none → start_listeners bind s r a b ≡ give_up s [] a b
  unfolding start_listeners
  start_listeners_unbound p = rw (p, start_listeners)

  start_listeners_half :
      (t : ℕ)
      → bind a ≡ some t
      → bind b ≡ none
      → start_listeners bind s r a b ≡ give_up (start_port_listener s a b t) (a ∷ []) a b
  unfolding start_listeners
  start_listeners_half t p q = rw (p, start_listeners, q, start_second)

module _ (s : RelayServer) (c : IsConsistent s) (a b : ℕ)
    (found : (allocate_pair s.port_pool).1 ≡ some (a, b)) where
  unused : get s.transports a ≡ none
  unused = ground (arith, c.listening a, (allocate_pair_sound s.port_pool c.ordered a b found).3)

  unhandled : get s.protocols a ≡ none
  unhandled = ground (arith, c.handled a, (allocate_pair_sound s.port_pool c.ordered a b found).3)

  unrouted : get s.routes (route_key a b) ≡ none
  unrouted =
      let sound = allocate_pair_sound s.port_pool c.ordered a b found in
      let lower : min a b ≡ a = ground (arith, sound.1) in
      get_not_found s.port_pool.port_start s.port_pool.port_end s.routes (route_key a b) c.keyed
        (rw lower (ground (arith, c.owned a, sound.3)))

  -- The server with the pair and its route, before any socket is bound.
  abbrev pub reserved : ℕ → RelayServer
  reserved now = record s {
    port_pool = (allocate_pair s.port_pool).0;
    routes = put s.routes (route_key a b) (new_route a b now);
  }

  give_up-reserved : (now : ℕ) → give_up (reserved now) [] a b ≡ (s, none, [])
  unfolding give_up
  give_up-reserved now = rw (
    release_pair-allocate_pair s.port_pool c.ordered a b found,
    remove-put_new s.routes (route_key a b) (new_route a b now) unrouted,
  )

  give_up-started :
      (now t : ℕ)
      → give_up (start_port_listener (reserved now) a b t) (a ∷ []) a b ≡ (s, none, close t ∷ [])
  unfolding give_up start_port_listener
  give_up-started now t = rw (
    release_pair-allocate_pair s.port_pool c.ordered a b found,
    remove-put_new s.routes (route_key a b) (new_route a b now) unrouted,
    remove-put_new s.transports a t unused,
    remove-put_new s.protocols a (a, b) unhandled,
    get-put s.transports a t a,
    ==_refl a,
  )

  -- The server with both listeners.
  abbrev pub started : ℕ → ℕ → ℕ → RelayServer
  started now t u = start_port_listener (start_port_listener (reserved now) a b t) b a u

  allocate_route_bound :
      (bind : ℕ → Option ℕ) (now t u : ℕ)
      → bind a ≡ some t
      → bind b ≡ some u
      → allocate_route bind s now ≡ (started now t u, some (new_route a b now), [])
  unfolding allocate_route
  allocate_route_bound bind now t u p q =
      rw (found, allocate_with, start_listeners, p, start_second, q)

  allocate_route-reserved :
      (bind : ℕ → Option ℕ) (now : ℕ)
      → allocate_route bind s now ≡ start_listeners bind (reserved now) (new_route a b now) a b
  unfolding allocate_route
  allocate_route-reserved bind now = rw (found, allocate_with)

  allocate_route_first :
      (bind : ℕ → Option ℕ) (now : ℕ)
      → bind a ≡ none
      → ((allocate_route bind s now).1 ≡ none) × ((allocate_route bind s now).0 ≡ s)
  allocate_route_first bind now p =
      rw
        (
          allocate_route-reserved bind now,
          start_listeners_unbound bind (reserved now) (new_route a b now) a b p,
          give_up-reserved now,
        )
        (refl, refl)

  allocate_route_second :
      (bind : ℕ → Option ℕ) (now t : ℕ)
      → bind a ≡ some t
      → bind b ≡ none
      → ((allocate_route bind s now).1 ≡ none) × ((allocate_route bind s now).0 ≡ s)
  allocate_route_second bind now t p q =
      rw
        (
          allocate_route-reserved bind now,
          start_listeners_half bind (reserved now) (new_route a b now) a b t p q,
          give_up-started now t,
        )
        (refl, refl)

  started_serves :
      (now t u : ℕ)
      → let r = new_route a b now in
        let s' = started now t u in
        (finds s.routes a ≡ false)
        × (finds s.routes b ≡ false)
        × (get_route_by_port s' a ≡ some r)
        × (get_route_by_port s' b ≡ some r)
        × (get_transport s' a ≡ some t)
        × (get_transport s' b ≡ some u)
  unfolding start_port_listener get_route_by_port get_transport new_route
  started_serves now t u =
      let sound = allocate_pair_sound s.port_pool c.ordered a b found in
      let no_a : finds s.routes a ≡ false = ground (arith, c.owned a, sound.3) in
      let no_b : finds s.routes b ≡ false = ground (arith, c.owned b, sound.4) in
      let r = new_route a b now in
      (
        no_a,
        no_b,
        rw (find_route-put_new s.routes (route_key a b) r a no_a (ground arith)),
        rw (find_route-put_new s.routes (route_key a b) r b no_b (ground arith)),
        rw (get-put (put s.transports a t) b u a, get-put s.transports a t a)
            (ground (arith, sound.1)),
        rw (get-put (put s.transports a t) b u b) (ground arith),
      )

allocate_route_exhausted :
    (bind : ℕ → Option ℕ) (s : RelayServer) (now : ℕ)
    → (allocate_pair s.port_pool).1 ≡ none
    → ((allocate_route bind s now).1 ≡ none) × ((allocate_route bind s now).0 ≡ s)
unfolding allocate_route allocate_pair
allocate_route_exhausted bind s now e = ground (arith, e)

-- The outcomes of `allocate_route`: it fails and leaves the server as it was, or the pool has a
-- pair and both sockets are bound.
abbrev pub AllocationOutcome :
    (bind : ℕ → Option ℕ) (s : RelayServer) (now : ℕ) → IsConsistent s → Type 0
AllocationOutcome bind s now c =
    (((allocate_route bind s now).1 ≡ none) × ((allocate_route bind s now).0 ≡ s))
    ⊎ ((a : ℕ) × (b : ℕ) × (t : ℕ) × (u : ℕ) × (found : (allocate_pair s.port_pool).1 ≡ some (a, b))
        × (bind a ≡ some t)
        × (bind b ≡ some u)
        × (allocate_route bind s now
            ≡ (started s c a b found now t u, some (new_route a b now), [])))

pub allocate_route_outcome :
    (bind : ℕ → Option ℕ) (s : RelayServer) (now : ℕ) (c : IsConsistent s)
    → AllocationOutcome bind s now c
allocate_route_outcome bind s now c = elim (Option-cases (allocate_pair s.port_pool).1) [
  | inl e ↦ inl (allocate_route_exhausted bind s now e)
  | inr ((a, b), e) ↦ elim (Option-cases (bind a)) [
    | inl p ↦ inl (allocate_route_first s c a b e bind now p)
    | inr (t, p) ↦ elim (Option-cases (bind b)) [
      | inl q ↦ inl (allocate_route_second s c a b e bind now t p q)
      | inr (u, q) ↦ inr (a, b, t, u, e, p, q, allocate_route_bound s c a b e bind now t u p q)
    ]
  ]
]

-- Whatever the sockets do, `allocate_route` keeps a consistent server consistent.
pub allocate_route-IsConsistent :
    (bind : ℕ → Option ℕ) (s : RelayServer) (now : ℕ)
    → IsConsistent s
    → IsConsistent (allocate_route bind s now).0
allocate_route-IsConsistent bind s now c = elim (allocate_route_outcome bind s now c) [
  | inl (_, same) ↦ subst IsConsistent (sym same) c
  | inr (a, b, t, u, found, p, q, e) ↦
      subst (λ (x : RelayServer × Option RelayRoute × List Effect). IsConsistent x.0) (sym e)
        (started-IsConsistent s c a b found now t u)
]

-- If `allocate_route` returns no route, because the pool is exhausted or because one of the two
-- sockets raised OSError, a consistent server is exactly as it was before.
pub allocate_route-none :
    (bind : ℕ → Option ℕ) (s : RelayServer) (now : ℕ)
    → IsConsistent s
    → (allocate_route bind s now).1 ≡ none
    → (allocate_route bind s now).0 ≡ s
allocate_route-none bind s now c h = elim (allocate_route_outcome bind s now c) [
  | inl (_, same) ↦ same
  | inr (a, b, t, u, found, p, q, e) ↦ cc
]

-- If `allocate_route` returns a route on a consistent server, no port of the route served another
-- route before, each of its ports finds the route afterwards, and each has the socket that was
-- bound for it.
pub allocate_route-some :
    (bind : ℕ → Option ℕ) (s : RelayServer) (now : ℕ) (r : RelayRoute)
    → IsConsistent s
    → (allocate_route bind s now).1 ≡ some r
    → let s' = (allocate_route bind s now).0 in
      (finds s.routes r.port_a ≡ false)
      × (finds s.routes r.port_b ≡ false)
      × (get_route_by_port s' r.port_a ≡ some r)
      × (get_route_by_port s' r.port_b ≡ some r)
      × (get_transport s' r.port_a ≡ bind r.port_a)
      × (get_transport s' r.port_b ≡ bind r.port_b)
unfolding new_route
allocate_route-some bind s now r c h = elim (allocate_route_outcome bind s now c) [
  | inl (failed, _) ↦ cc
  | inr (a, b, t, u, found, p, q, e) ↦
      let same : new_route a b now ≡ r = cc in
      let ports = started_serves s c a b found now t u in
      rw (← same, e) (ports.0, ports.1, ports.2, ports.3, ports.4 ∙ sym p, ports.5 ∙ sym q)
]
