-- ===== src/Relay/Server/Invariant.antt =====
-- The relay server owns exactly the ports that its routes serve, and every operation keeps it so.

use kirov_server_emulator.Relay.Server.Routes.{Keyed, finds, finds-put, finds-remove}
use kirov_server_emulator.Relay.Types.{new_route, RelayRoute, is_stale}
use kirov_server_emulator.Relay.Server.{
  RelayServer, find_route, new_server, route_key, start_port_listener, cleanup_stale_routes,
  release_all, release_route, stale_routes,
}
use kirov_server_emulator.Prelude.Dict.{
  get, has, put, All-put, get-put, All-remove, Dict, Distinct, Distinct-put, Distinct-remove,
  get-remove, remove,
}
use kirov_server_emulator.Prelude.Text.{Text}
use kirov_server_emulator.Relay.PortPool.Laws.{
  allocate_pair-Found, allocate_pair_sound, allocated-allocate_pair,
}
use kirov_server_emulator.Prelude.{
  All, arith, contains, list_eq, nat_eq, pair_eq, some, ℕ, ◌+◌, ◌<◌, ◌≡◌, add, contains-add,
  Bool-cases, List, [], contains-discard, discard, inl, inr, ◌∷◌,
}
use kirov_server_emulator.Relay.PortPool.{
  PortPool, allocate_pair, is_allocated, new_pool, ok, release_pair,
}

pub record IsConsistent (s : RelayServer) : Type 0 where
  pub ordered : s.port_pool.port_start < s.port_pool.port_end
  pub keyed : All (Keyed s.port_pool.port_start s.port_pool.port_end) s.routes
  pub distinct : Distinct s.routes
  pub owned : (port : ℕ) → is_allocated s.port_pool port ≡ finds s.routes port
  pub listening : (port : ℕ) → has s.transports port ≡ is_allocated s.port_pool port
  pub handled : (port : ℕ) → has s.protocols port ≡ is_allocated s.port_pool port

-- `stop` and a new server hold nothing.
pub new_server-IsConsistent :
    (host : Text) (start end timeout : ℕ) (pool : PortPool)
    → new_pool start end ≡ ok pool
    → IsConsistent (new_server host pool timeout)
unfolding new_server new_pool find_route get is_allocated contains
new_server-IsConsistent host start end timeout pool e = record {
  ordered = ground arith;
  keyed = tt;
  distinct = tt;
  owned = λ port. ground arith;
  listening = λ port. ground arith;
  handled = λ port. ground arith;
}

module _ (s : RelayServer) (c : IsConsistent s) (a b : ℕ)
    (found : (allocate_pair s.port_pool).1 ≡ some (a, b)) where
  new_pair-Keyed :
      (now : ℕ)
      → Keyed s.port_pool.port_start s.port_pool.port_end (route_key a b, new_route a b now)
  unfolding new_route
  new_pair-Keyed now =
      let (i, lt, ea, eb, f) = allocate_pair-Found s.port_pool c.ordered a b found in
      let sound = allocate_pair_sound s.port_pool c.ordered a b found in
      (i, ea, eb, sound.2, ground (arith, eb))

  pub next_port : b ≡ a + 1
  next_port = (allocate_pair_sound s.port_pool c.ordered a b found).1

  -- Taking in the pair, its route and its two listeners keeps the server consistent.
  pub started-IsConsistent :
      (now t u : ℕ)
      → IsConsistent (
          start_port_listener
            (start_port_listener
              (record s {
                port_pool = (allocate_pair s.port_pool).0;
                routes = put s.routes (route_key a b) (new_route a b now);
              })
              a
              b
              t)
            b
            a
            u)
  unfolding start_port_listener is_allocated new_route
  started-IsConsistent now t u =
      let kr = new_pair-Keyed now in
      rw (allocated-allocate_pair s.port_pool c.ordered a b found) (record {
        ordered = c.ordered;
        keyed = All-put _ s.routes (route_key a b) (new_route a b now) c.keyed kr;
        distinct = Distinct-put s.routes (route_key a b) (new_route a b now) c.distinct;
        owned = λ port. ground (
          arith,
          contains-add (add s.port_pool.allocated a) b port,
          contains-add s.port_pool.allocated a port,
          finds-put s.port_pool.port_start s.port_pool.port_end s.routes (route_key a b)
              (new_route a b now) port c.keyed kr,
          c.owned port,
        );
        listening = λ port. ground (
          arith,
          contains-add (add s.port_pool.allocated a) b port,
          contains-add s.port_pool.allocated a port,
          get-put (put s.transports a t) b u port,
          get-put s.transports a t port,
          c.listening port,
        );
        handled = λ port. ground (
          arith,
          contains-add (add s.port_pool.allocated a) b port,
          contains-add s.port_pool.allocated a port,
          get-put (put s.protocols a (a, b)) b (b, a) port,
          get-put s.protocols a (a, b) port,
          c.handled port,
        );
      })

abbrev pub KeyedRoute : RelayServer → RelayRoute → Type 0
KeyedRoute s r = Keyed s.port_pool.port_start s.port_pool.port_end (route_key r.port_a r.port_b, r)

-- Releasing a route keeps the server consistent, also where the route is not there any more.
pub release_route-IsConsistent :
    (s : RelayServer) (r : RelayRoute)
    → IsConsistent s
    → KeyedRoute s r
    → IsConsistent (release_route s r).0
unfolding release_route release_pair is_allocated
release_route-IsConsistent s r c kr = record {
  ordered = c.ordered;
  keyed = All-remove _ s.routes (route_key r.port_a r.port_b) c.keyed;
  distinct = Distinct-remove s.routes (route_key r.port_a r.port_b) c.distinct;
  owned = λ port. ground (
    arith,
    contains-discard (discard s.port_pool.allocated r.port_a) r.port_b port,
    contains-discard s.port_pool.allocated r.port_a port,
    finds-remove s.port_pool.port_start s.port_pool.port_end s.routes (route_key r.port_a r.port_b)
        r port c.keyed kr,
    c.owned port,
  );
  listening = λ port. ground (
    arith,
    contains-discard (discard s.port_pool.allocated r.port_a) r.port_b port,
    contains-discard s.port_pool.allocated r.port_a port,
    get-remove (remove s.transports r.port_a) r.port_b port,
    get-remove s.transports r.port_a port,
    c.listening port,
  );
  handled = λ port. ground (
    arith,
    contains-discard (discard s.port_pool.allocated r.port_a) r.port_b port,
    contains-discard s.port_pool.allocated r.port_a port,
    get-remove (remove s.protocols r.port_a) r.port_b port,
    get-remove s.protocols r.port_a port,
    c.handled port,
  );
}

release_all-IsConsistent :
    (s : RelayServer) (rs : List RelayRoute)
    → IsConsistent s
    → All (KeyedRoute s) rs
    → IsConsistent (release_all s rs).0
unfolding release_all
release_all-IsConsistent s [] c h = c
release_all-IsConsistent s (r ∷ rs) c h =
    release_all-IsConsistent (release_route s r).0 rs (release_route-IsConsistent s r c h.0)
      (unfold release_route release_pair in h.1)

key_of_route :
    (start end : ℕ) (k : ℕ × ℕ) (r : RelayRoute)
    → Keyed start end (k, r)
    → Keyed start end (route_key r.port_a r.port_b, r)
key_of_route start end k r (i, a, b, le, e) = (i, a, b, le, ground arith)

stale_routes-Keyed :
    (start end : ℕ) (d : Dict (ℕ × ℕ) RelayRoute) (timeout now : ℕ)
    → All (Keyed start end) d
    → All (λ r. Keyed start end (route_key r.port_a r.port_b, r)) (stale_routes d timeout now)
unfolding stale_routes
stale_routes-Keyed start end [] timeout now h = tt
stale_routes-Keyed start end ((k, r) ∷ d) timeout now h =
    let rest = stale_routes-Keyed start end d timeout now h.1 in
    let kr = key_of_route start end k r h.0 in
    elim (Bool-cases (is_stale r timeout now)) [
      | inl old ↦ rw old (kr, rest)
      | inr new ↦ rw new rest
    ]

-- The cleanup keeps a consistent server consistent.
pub cleanup_stale_routes-IsConsistent :
    (s : RelayServer) (now : ℕ) → IsConsistent s → IsConsistent (cleanup_stale_routes s now).0
unfolding cleanup_stale_routes
cleanup_stale_routes-IsConsistent s now c =
    release_all-IsConsistent s (stale_routes s.routes s.session_timeout now) c (
      stale_routes-Keyed s.port_pool.port_start s.port_pool.port_end s.routes s.session_timeout now
        c.keyed)
