-- ===== src/Relay/Reachable.antt =====
-- The relay as a state machine: everything that the loop, the tasks and the sockets of
-- app/servers/relay_server.py do to it, in any order, until it is stopped.
use kirov_server_emulator.Relay.Server.Routes.{Keyed, serves_apart}
use kirov_server_emulator.Relay.Server.Cleanup.{get_route_by_port-Keyed}
use kirov_server_emulator.Relay.Server.Allocation.{allocate_route-IsConsistent}
use kirov_server_emulator.Relay.Datagram.Laws.{datagram_received-IsConsistent}
use kirov_server_emulator.Prelude.Words.{Bytes}
use kirov_server_emulator.Relay.Server.Invariant.{
  IsConsistent, cleanup_stale_routes-IsConsistent, new_server-IsConsistent,
  release_route-IsConsistent,
}
use kirov_server_emulator.Relay.Types.{RelayRoute}
use kirov_server_emulator.Prelude.Dict.{All-get, get}
use kirov_server_emulator.Prelude.Text.{Text}
use kirov_server_emulator.Relay.PortPool.{PortPool, is_allocated, new_pool, ok}
use kirov_server_emulator.Prelude.{
  Bool-cases, Option, inl, inr, is_some, list_eq, nat_eq, option_eq, pair_beq_iff, pair_eq, some,
  sym, true, ℕ, ◌==◌, ◌∙◌, ◌≡◌, ap, arith, none, refl,
}
use kirov_server_emulator.Relay.Server.{
  RelayServer, allocate_route, cleanup_stale_routes, get_route_by_port, get_transport, new_server,
  release_route, serves, find_route, second,
}
use kirov_server_emulator.Relay.Datagram.{datagram_received, RelayPortProtocol}

-- The servers that a new one can become.
pub data Reachable : RelayServer → Type 0 where
  starts :
      (name : Text) (start end timeout : ℕ) (pool : PortPool)
      → new_pool start end ≡ ok pool
      → Reachable (new_server name pool timeout)
  allocates :
      (bind : ℕ → Option ℕ) (s : RelayServer) (now : ℕ)
      → Reachable s
      → Reachable (allocate_route bind s now).0
  receives :
      (s : RelayServer) (p : RelayPortProtocol) (packet : Bytes) (addr : Text × ℕ) (now : ℕ)
      → Reachable s
      → Reachable (datagram_received s p packet addr now).0
  releases :
      (s : RelayServer) (port : ℕ) (r : RelayRoute)
      → get_route_by_port s port ≡ some r
      → Reachable s
      → Reachable (release_route s r).0
  cleans : (s : RelayServer) (now : ℕ) → Reachable s → Reachable (cleanup_stale_routes s now).0

pub Reachable-IsConsistent : (s : RelayServer) → Reachable s → IsConsistent s
Reachable-IsConsistent _ (starts name start end timeout pool e) =
    new_server-IsConsistent name start end timeout pool e
Reachable-IsConsistent _ (allocates bind s now h) =
    allocate_route-IsConsistent bind s now (Reachable-IsConsistent s h)
Reachable-IsConsistent _ (receives s p packet addr now h) =
    datagram_received-IsConsistent s p packet addr now (Reachable-IsConsistent s h)
Reachable-IsConsistent _ (releases s port r found h) =
    let c = Reachable-IsConsistent s h in
    release_route-IsConsistent s r c (get_route_by_port-Keyed s port r c found)
Reachable-IsConsistent _ (cleans s now h) =
    cleanup_stale_routes-IsConsistent s now (Reachable-IsConsistent s h)

some_injective : {r w : RelayRoute} → ◌≡◌ {A = Option RelayRoute} (some r) (some w) → r ≡ w
some_injective e = cc

finds_second : (o : Option ((ℕ × ℕ) × RelayRoute)) → is_some o ≡ is_some (second o)
finds_second none = refl
finds_second (some (k, r)) = refl

-- Take any server that a new one can become by allocating routes, with any outcome of the sockets,
-- by receiving any datagrams, by releasing routes and by cleaning up, in any order. Two of its
-- routes that have a port in common are the same route; and a port has a socket exactly when it is
-- allocated, which is exactly when it finds a route.
pub Reachable-ports :
    (s : RelayServer) (port : ℕ)
    → Reachable s
    → ((k j : ℕ × ℕ) (r w : RelayRoute)
        → get s.routes k ≡ some r
        → get s.routes j ≡ some w
        → serves r port ≡ true
        → serves w port ≡ true
        → (k ≡ j) × (r ≡ w))
      × (is_some (get_transport s port) ≡ is_allocated s.port_pool port)
      × (is_allocated s.port_pool port ≡ is_some (get_route_by_port s port))
unfolding get_transport get_route_by_port
Reachable-ports s port h =
    let c = Reachable-IsConsistent s h in
    let start = s.port_pool.port_start in
    let end = s.port_pool.port_end in
    (
      λ k j r w kr jw sr sw.
          let one = All-get (Keyed start end) s.routes k r c.keyed kr in
          let two = All-get (Keyed start end) s.routes j w c.keyed jw in
          elim (Bool-cases (j == k)) [
            | inl same ↦
                let keys : k ≡ j = sym ((pair_beq_iff j k).0 same) in
                (keys, some_injective (sym kr ∙ ap (get s.routes) keys ∙ jw))
            | inr other ↦
                let apart = serves_apart start end k j r w port one two other sr in
                absurd (ground (arith, sw, apart))
          ],
      c.listening port,
      c.owned port ∙ finds_second (find_route s.routes port),
    )
