-- ===== src/Relay/Datagram.antt =====
-- `RelayPortProtocol` of app/servers/relay_server.py. The route is an object of the dictionary, so
-- what the handler assigns to its fields is written back under its key.
use kirov_server_emulator.Prelude.Text.{Text}
use kirov_server_emulator.Prelude.Dict.{put}
use kirov_server_emulator.Prelude.Words.{Bytes}
use kirov_server_emulator.Relay.Types.{
  RelayEndpoint, as_tuple, endpoint_eq, update_activity, RelayRoute,
}
use kirov_server_emulator.Relay.Server.{Effect, find_route, get_transport, sendto, RelayServer}
use kirov_server_emulator.Prelude.{
  List, Option, [], if◌then◌else◌, length, list_eq, nat_eq, none, pair_eq, some, ℕ, ◌+◌, ◌==◌, ◌∷◌,
}
pub mod Laws
pub mod Delivery

-- RelayPortProtocol(relay_server, port, peer_port)
pub record RelayPortProtocol : Type 0 where
  pub port : ℕ
  pub peer_port : ℕ

-- A slot takes its first sender, and afterwards that sender only. `none` is a dropped packet.
unfoldable pub register : Option RelayEndpoint → RelayEndpoint → Option RelayEndpoint
register none e = some e
register (some c) e = if endpoint_eq c e then some c else none

abbrev into_a : RelayRoute → Option RelayEndpoint → Option (RelayRoute × Option RelayEndpoint)
into_a r none = none
into_a r (some c) = some (record r { client_a = some c }, r.client_b)

abbrev into_b : RelayRoute → Option RelayEndpoint → Option (RelayRoute × Option RelayEndpoint)
into_b r none = none
into_b r (some c) = some (record r { client_b = some c }, r.client_a)

-- The route with the sender in the slot of the port, and the endpoint on the other side.
unfoldable pub admit : RelayRoute → ℕ → RelayEndpoint → Option (RelayRoute × Option RelayEndpoint)
unfolding register
admit r port e =
    if port == r.port_a then into_a r (register r.client_a e) else into_b r (register r.client_b e)

-- The counters of a route after one packet.
unfoldable pub count_packet : RelayRoute → Bytes → RelayRoute
count_packet r packet = record r {
  packets_forwarded = r.packets_forwarded + 1;
  bytes_forwarded = r.bytes_forwarded + length packet;
}

unfoldable pub send_to_peer :
    RelayRoute → Option RelayEndpoint → Option ℕ → Bytes → RelayRoute × List Effect
unfolding count_packet
send_to_peer r none t packet = (r, [])
send_to_peer r (some peer) none packet = (r, [])
send_to_peer r (some peer) (some t) packet =
    (count_packet r packet, sendto t packet (as_tuple peer) ∷ [])

-- The end of the handler, for a packet that was not dropped.
unfoldable pub forward :
    RelayServer
    → ℕ × ℕ
    → ℕ
    → Bytes
    → ℕ
    → RelayRoute
    → Option RelayEndpoint
    → RelayServer × List Effect
unfolding send_to_peer
forward s key peer_port packet now r peer =
    let (r', sent) = send_to_peer (update_activity r now) peer (get_transport s peer_port) packet in
    (record s { routes = put s.routes key r' }, sent)

unfoldable pub handle_found :
    RelayServer
    → RelayPortProtocol
    → Bytes
    → Text × ℕ
    → ℕ
    → Option ((ℕ × ℕ) × RelayRoute)
    → RelayServer × List Effect
unfolding forward admit
handle_found s p packet addr now none = (s, [])
handle_found s p packet (ip, port) now (some (key, r)) =
    elim (admit r p.port (record { ip = ip; port = port })) [
      | none ↦ (s, [])
      | some (r', peer) ↦ forward s key p.peer_port packet now r' peer
    ]

unfoldable pub datagram_received :
    RelayServer → RelayPortProtocol → Bytes → Text × ℕ → ℕ → RelayServer × List Effect
unfolding handle_found
datagram_received s p packet addr now =
    handle_found s p packet addr now (find_route s.routes p.port)
