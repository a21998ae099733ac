-- ===== src/Relay/Datagram/Delivery.antt =====
-- Which packets are sent on, to whom, and what is counted.

use kirov_server_emulator.Relay.Datagram.Laws.{admitted, dropped}
use kirov_server_emulator.Prelude.Text.{Text}
use kirov_server_emulator.Relay.Types.{
  RelayEndpoint, RelayRoute, endpoint_eq, as_tuple, update_activity,
}
use kirov_server_emulator.Relay.Datagram.{
  RelayPortProtocol, admit, datagram_received, forward, register, send_to_peer, count_packet,
}
use kirov_server_emulator.Prelude.Words.{Bytes}
use kirov_server_emulator.Prelude.Dict.{put}
use kirov_server_emulator.Prelude.{
  Bool-cases, Option, [], arith, if◌then◌else◌, inl, inr, length, list_beq_iff, list_eq, nat_eq,
  none, pair_eq, refl, some, true, ℕ, ◌+◌, ◌==◌, ◌↔◌, ◌∷◌, ◌≡◌, ◌≢◌,
}
use kirov_server_emulator.Relay.Server.{RelayServer, find_route, get_transport, sendto}

-- The slot of the port on which a packet comes in, and the slot on the other side.
abbrev pub slot : RelayRoute → ℕ → Option RelayEndpoint
slot r port = if port == r.port_a then r.client_a else r.client_b

abbrev pub other_slot : RelayRoute → ℕ → Option RelayEndpoint
other_slot r port = if port == r.port_a then r.client_b else r.client_a

abbrev pub with_slot : RelayRoute → ℕ → RelayEndpoint → RelayRoute
with_slot r port e = record r {
  client_a = if port == r.port_a then some e else r.client_a;
  client_b = if port == r.port_a then r.client_b else some e;
}

-- The sender may use the slot: it is free, or it is the sender's.
abbrev pub IsWelcome : Option RelayEndpoint → RelayEndpoint → Type 0
IsWelcome none e = Unit
IsWelcome (some c) e = c ≡ e

pub endpoint_eq_iff : (a b : RelayEndpoint) → (endpoint_eq a b ≡ true) ↔ (a ≡ b)
unfolding endpoint_eq
endpoint_eq_iff a b = ground (arith, list_beq_iff a.ip b.ip)

register_welcome :
    (o : Option RelayEndpoint) (e : RelayEndpoint) → IsWelcome o e → register o e ≡ some e
unfolding register
register_welcome none e w = refl
register_welcome (some c) e w = rw ((endpoint_eq_iff c e).1 w, w)

register_intruder : (c e : RelayEndpoint) → c ≢ e → register (some c) e ≡ none
unfolding register
register_intruder c e ne = ground (arith, endpoint_eq_iff c e)

admit_welcome :
    (r : RelayRoute) (port : ℕ) (e : RelayEndpoint)
    → IsWelcome (slot r port) e
    → admit r port e ≡ some (with_slot r port e, other_slot r port)
unfolding admit
admit_welcome r port e w = elim (Bool-cases (port == r.port_a)) [
  | inl hit ↦ let w' = rw hit at w in rw (hit, register_welcome r.client_a e w')
  | inr miss ↦ let w' = rw miss at w in rw (miss, register_welcome r.client_b e w')
]

admit_intruder :
    (r : RelayRoute) (port : ℕ) (c e : RelayEndpoint)
    → slot r port ≡ some c
    → c ≢ e
    → admit r port e ≡ none
unfolding admit
admit_intruder r port c e h ne = ground (arith, register_intruder c e ne)

module _ (s : RelayServer) (p : RelayPortProtocol) (packet : Bytes) (ip : Text) (port now : ℕ)
    (k : ℕ × ℕ) (r : RelayRoute) (found : find_route s.routes p.port ≡ some (k, r)) where
  -- Let the port find a route with a registered client. A packet from anyone else is dropped: nothing
  -- is sent, and the server, its activity times and its counters included, stays as it was.
  pub datagram_received_intruder :
      (c : RelayEndpoint)
      → slot r p.port ≡ some c
      → c ≢ record { ip = ip; port = port }
      → datagram_received s p packet (ip, port) now ≡ (s, [])
  datagram_received_intruder c h ne =
      dropped s p packet ip port now k r found
        (admit_intruder r p.port c (record { ip = ip; port = port }) h ne)

  received_welcome :
      IsWelcome (slot r p.port) (record { ip = ip; port = port })
      → datagram_received s p packet (ip, port) now
        ≡ forward s k p.peer_port packet now
            (with_slot r p.port (record { ip = ip; port = port }))
            (other_slot r p.port)
  received_welcome w =
      admitted s p packet ip port now k r found _ _
        (admit_welcome r p.port (record { ip = ip; port = port }) w)

  -- Let the port find a route. A packet of a welcome sender (the slot of the port is free or the
  -- sender's), with the other client known and a socket on the other port, is
  -- sent unchanged from that socket to the other client and to nobody else; the route has the
  -- sender registered, its activity renewed, and one packet and the packet's bytes counted.
  pub datagram_received_delivers :
      (peer : RelayEndpoint) (t : ℕ)
      → IsWelcome (slot r p.port) (record { ip = ip; port = port })
      → other_slot r p.port ≡ some peer
      → get_transport s p.peer_port ≡ some t
      → datagram_received s p packet (ip, port) now ≡ (
        record s {
          routes = put s.routes k (record (with_slot r p.port (record { ip = ip; port = port })) {
            last_activity = now;
            packets_forwarded = r.packets_forwarded + 1;
            bytes_forwarded = r.bytes_forwarded + length packet;
          });
        },
        sendto t packet (peer.ip, peer.port) ∷ [],
      )
  unfolding forward update_activity count_packet as_tuple
  datagram_received_delivers peer t w o g = rw (received_welcome w) (rw (o, g, send_to_peer))

  -- Before the other client is known a packet registers its sender and is not sent on.
  pub datagram_received_waits :
      IsWelcome (slot r p.port) (record { ip = ip; port = port })
      → other_slot r p.port ≡ none
      → datagram_received s p packet (ip, port) now ≡ (
        record s {
          routes = put s.routes k (record (with_slot r p.port (record { ip = ip; port = port })) {
            last_activity = now;
          });
        },
        [],
      )
  unfolding forward update_activity
  datagram_received_waits w o = rw (received_welcome w) (rw (o, send_to_peer))
