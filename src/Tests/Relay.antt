-- ===== src/Tests/Relay.antt =====
-- The relay at concrete inputs: two pairs of ports, one route, two players.

use kirov_server_emulator.Relay.Reachable.{Reachable-ports, allocates, cleans, receives, starts}
use kirov_server_emulator.Relay.Datagram.{datagram_received}
use kirov_server_emulator.Relay.Datagram.{RelayPortProtocol}
use kirov_server_emulator.Relay.Types.{RelayEndpoint, RelayRoute, new_route}
use kirov_server_emulator.Relay.Server.Allocation.{
  allocate_route-IsConsistent, allocate_route-none, allocate_route-some,
}
use kirov_server_emulator.Prelude.Dict.{get, put}
use kirov_server_emulator.Relay.Datagram.Delivery.{
  datagram_received_delivers, datagram_received_intruder, with_slot,
}
use kirov_server_emulator.Relay.Server.Invariant.{IsConsistent, new_server-IsConsistent}
use kirov_server_emulator.Relay.Server.Routes.{finds}
use kirov_server_emulator.Prelude.Text.{Text, codes}
use kirov_server_emulator.Relay.PortPool.{PortPool, allocate_pair, is_allocated, new_pool}
use kirov_server_emulator.Relay.Server.{
  RelayServer, allocate_route, cleanup_stale_routes, find_route, get_route_by_port, get_transport,
  new_server, sendto, serves,
}
use kirov_server_emulator.Prelude.{
  Option, [], ap, arith, false, if◌then◌else◌, list_eq, nat_eq, none, option_eq, pair_eq, refl,
  some, ℕ, ◌+◌, ◌==◌, ◌∷◌, ◌≡◌, contains, pair_beq, is_some, true,
}

abbrev pool : PortPool
pool = record { port_start = 40000; port_end = 40003; allocated = [] }

abbrev pub relay : RelayServer
relay = new_server (codes "10.0.0.1") pool 120000

pub relay-IsConsistent : IsConsistent relay
unfolding new_pool
relay-IsConsistent = new_server-IsConsistent (codes "10.0.0.1") 40000 40003 120000 pool refl

-- Every port can be bound.
abbrev pub bind : ℕ → Option ℕ
bind port = some (port + 1)

-- No port above 40000 can be bound.
abbrev bind_first : ℕ → Option ℕ
bind_first port = if port == 40000 then some 7 else none

abbrev pub route : RelayRoute
route = new_route 40000 40001 5

abbrev pub busy : RelayServer
busy = (allocate_route bind relay 5).0

pub busy-IsConsistent : IsConsistent busy
busy-IsConsistent = allocate_route-IsConsistent bind relay 5 relay-IsConsistent

pub busy_route : get busy.routes (40000, 40001) ≡ some route
unfolding allocate_route get new_server new_route allocate_pair contains put pair_beq
busy_route = refl

allocate_route-some_example :
    (finds relay.routes route.port_a ≡ false)
    × (finds relay.routes route.port_b ≡ false)
    × (get_route_by_port busy route.port_a ≡ some route)
    × (get_route_by_port busy route.port_b ≡ some route)
    × (get_transport busy route.port_a ≡ bind route.port_a)
    × (get_transport busy route.port_b ≡ bind route.port_b)
unfolding allocate_route new_server new_route allocate_pair contains
allocate_route-some_example = allocate_route-some bind relay 5 route relay-IsConsistent refl

allocate_route-none_example : (allocate_route bind_first relay 5).0 ≡ relay
unfolding allocate_route new_server allocate_pair contains
allocate_route-none_example = allocate_route-none bind_first relay 5 relay-IsConsistent refl

abbrev listener : RelayPortProtocol
listener = record { port = 40000; peer_port = 40001 }

abbrev player : Text → RelayEndpoint
player ip = record { ip = ip; port = 6000 }

-- The second player has sent a packet.
abbrev joined : RelayRoute
joined = record route { client_b = some (player (codes "2.2.2.2")) }

abbrev joined_server : RelayServer
joined_server = record relay {
  routes = ((40000, 40001), joined) ∷ [];
  transports = (40000, 7) ∷ (40001, 8) ∷ [];
}

datagram_received_delivers_example :
    datagram_received joined_server listener (1 ∷ 2 ∷ []) (codes "1.1.1.1", 6000) 9 ≡ (
      record joined_server {
        routes =
            put joined_server.routes
              (40000, 40001)
              (record (with_slot joined 40000 (player (codes "1.1.1.1"))) {
                last_activity = 9;
                packets_forwarded = joined.packets_forwarded + 1;
                bytes_forwarded = joined.bytes_forwarded + 2;
              });
      },
      sendto 8 (1 ∷ 2 ∷ []) (codes "2.2.2.2", 6000) ∷ [],
    )
unfolding find_route new_route get_transport get
datagram_received_delivers_example =
    datagram_received_delivers joined_server listener (1 ∷ 2 ∷ []) (codes "1.1.1.1") 6000 9
      (40000, 40001) joined refl (player (codes "2.2.2.2")) 8 tt refl refl

datagram_received_intruder_example :
    datagram_received joined_server
      (record { port = 40001; peer_port = 40000 })
      (1 ∷ 2 ∷ [])
      (codes "3.3.3.3", 6000)
      9
    ≡ (joined_server, [])
unfolding find_route new_route
datagram_received_intruder_example =
    datagram_received_intruder joined_server (record { port = 40001; peer_port = 40000 })
      (1 ∷ 2 ∷ []) (codes "3.3.3.3") 6000 9 (40000, 40001) joined refl (player (codes "2.2.2.2"))
      refl (λ e. ground (arith, ap (λ (c : RelayEndpoint). c.ip) e))

-- A route is allocated, a packet comes in, and the cleanup runs.
Reachable-ports_example :
    let s =
      (cleanup_stale_routes
        (datagram_received busy listener (1 ∷ 2 ∷ []) (codes "1.1.1.1", 6000) 9).0
        20).0 in
    ((k j : ℕ × ℕ) (r w : RelayRoute)
      → get s.routes k ≡ some r
      → get s.routes j ≡ some w
      → serves r 40000 ≡ true
      → serves w 40000 ≡ true
      → (k ≡ j) × (r ≡ w))
    × (is_some (get_transport s 40000) ≡ is_allocated s.port_pool 40000)
    × (is_allocated s.port_pool 40000 ≡ is_some (get_route_by_port s 40000))
unfolding new_pool
Reachable-ports_example =
    Reachable-ports
      (cleanup_stale_routes
        (datagram_received busy listener (1 ∷ 2 ∷ []) (codes "1.1.1.1", 6000) 9).0 20).0
      40000
      (cleans (datagram_received busy listener (1 ∷ 2 ∷ []) (codes "1.1.1.1", 6000) 9).0 20 (
        receives busy listener (1 ∷ 2 ∷ []) (codes "1.1.1.1", 6000) 9
          (allocates bind relay 5 (starts (codes "10.0.0.1") 40000 40003 120000 pool refl))))
