-- ===== src/Relay/Datagram/Laws.antt =====
-- What a relay port does with a packet.

use kirov_server_emulator.Relay.Server.Invariant.{IsConsistent}
use kirov_server_emulator.Prelude.Dict.{All-put, Distinct-put, get, get-put, put}
use kirov_server_emulator.Relay.Server.Routes.{
  Keyed, find_route_found, finds-put, finds_of_get, get-find_route,
}
use kirov_server_emulator.Prelude.Text.{Text}
use kirov_server_emulator.Prelude.Words.{Bytes}
use kirov_server_emulator.Relay.Datagram.{
  RelayPortProtocol, admit, forward, handle_found, datagram_received, register, send_to_peer,
}
use kirov_server_emulator.Relay.Types.{RelayEndpoint, RelayRoute, update_activity}
use kirov_server_emulator.Relay.Server.{RelayServer, find_route, get_transport}
use kirov_server_emulator.Prelude.{
  Option, [], list_eq, nat_eq, none, pair_eq, some, ℕ, ◌≡◌, arith, Bool-cases, Option-cases, ap,
  inl, inr, pair_beq_iff, refl, subst, sym, ◌==◌,
}

module _ (s : RelayServer) (p : RelayPortProtocol) (packet : Bytes) (ip : Text) (port now : ℕ)
    (k : ℕ × ℕ) (r : RelayRoute) (found : find_route s.routes p.port ≡ some (k, r)) where
  abbrev sender : RelayEndpoint
  sender = record { ip = ip; port = port }

  -- A packet that is not admitted changes nothing and is not sent on.
  pub dropped : admit r p.port sender ≡ none → datagram_received s p packet (ip, port) now ≡ (s, [])
  unfolding datagram_received
  dropped e = rw (found, handle_found, e)

  pub admitted :
      (r' : RelayRoute) (peer : Option RelayEndpoint)
      → admit r p.port sender ≡ some (r', peer)
      → datagram_received s p packet (ip, port) now ≡ forward s k p.peer_port packet now r' peer
  unfolding datagram_received
  admitted r' peer e = rw (found, handle_found, e)

-- Both slots of `r'` hold what they held in `r`, if anything; the ports stay.
pub record Extends (r r' : RelayRoute) : Type 0 where
  pub port_a : r'.port_a ≡ r.port_a
  pub port_b : r'.port_b ≡ r.port_b
  pub client_a : (e : RelayEndpoint) → r.client_a ≡ some e → r'.client_a ≡ some e
  pub client_b : (e : RelayEndpoint) → r.client_b ≡ some e → r'.client_b ≡ some e

Extends-refl : (r : RelayRoute) → Extends r r
Extends-refl r = record { port_a = refl; port_b = refl; client_a = λ e q. q; client_b = λ e q. q }

admit-Extends :
    (r r' : RelayRoute) (port : ℕ) (e : RelayEndpoint) (peer : Option RelayEndpoint)
    → admit r port e ≡ some (r', peer)
    → Extends r r'
unfolding admit register
admit-Extends r r' port e peer h = record {
  port_a = ground arith;
  port_b = ground arith;
  client_a = λ c q. ground arith;
  client_b = λ c q. ground arith;
}

-- The route that `forward` writes back.
abbrev forwarded : RelayServer → ℕ → Bytes → ℕ → RelayRoute → Option RelayEndpoint → RelayRoute
forwarded s peer_port packet now r peer =
    (send_to_peer (update_activity r now) peer (get_transport s peer_port) packet).0

forwarded-Extends :
    (s : RelayServer) (peer_port : ℕ) (packet : Bytes) (now : ℕ) (r r' : RelayRoute)
    (peer : Option RelayEndpoint)
    → Extends r r'
    → Extends r (forwarded s peer_port packet now r' peer)
unfolding send_to_peer update_activity
forwarded-Extends s peer_port packet now r r' peer x = record {
  port_a = ground (arith, x.port_a);
  port_b = ground (arith, x.port_b);
  client_a = λ c q. ground (arith, x.client_a c q);
  client_b = λ c q. ground (arith, x.client_b c q);
}

-- What a packet does to the dictionary: nothing, or one route is extended in its place.
pub data Effected (s s' : RelayServer) : Type 0 where
  unchanged : s' ≡ s → Effected s s'
  extended :
      (k : ℕ × ℕ) (r r' : RelayRoute)
      → get s.routes k ≡ some r
      → Keyed s.port_pool.port_start s.port_pool.port_end (k, r)
      → Extends r r'
      → s' ≡ record s { routes = put s.routes k r' }
      → Effected s s'

pub datagram_received-Effected :
    (s : RelayServer) (p : RelayPortProtocol) (packet : Bytes) (addr : Text × ℕ) (now : ℕ)
    → IsConsistent s
    → Effected s (datagram_received s p packet addr now).0
unfolding datagram_received forward
datagram_received-Effected s p packet (ip, port) now c =
    elim (Option-cases (find_route s.routes p.port)) [
      | inl e ↦ unchanged (rw (e, handle_found) refl)
      | inr ((k, r), e) ↦ elim (Option-cases (admit r p.port (record { ip = ip; port = port }))) [
        | inl q ↦ unchanged (rw (e, handle_found, q) refl)
        | inr ((r', peer), q) ↦
            let start = s.port_pool.port_start in
            let end = s.port_pool.port_end in
            extended k r (forwarded s p.peer_port packet now r' peer)
              (get-find_route start end s.routes p.port k r c.keyed e)
              (find_route_found start end s.routes p.port k r c.keyed e).0
              (forwarded-Extends s p.peer_port packet now r r' peer
                (admit-Extends r r' p.port (record { ip = ip; port = port }) peer q))
              (rw (e, handle_found, q) refl)
      ]
    ]

Keyed-Extends :
    (start end : ℕ) (k : ℕ × ℕ) (r r' : RelayRoute)
    → Keyed start end (k, r)
    → Extends r r'
    → Keyed start end (k, r')
Keyed-Extends start end k r r' (i, a, b, le, e) x = (
  i,
  omega (arith, x.port_a),
  omega (arith, x.port_a, x.port_b),
  omega (arith, x.port_b),
  ground (arith, e, x.port_a, x.port_b),
)

Effected-IsConsistent : (s s' : RelayServer) → Effected s s' → IsConsistent s → IsConsistent s'
Effected-IsConsistent s s' (unchanged e) c = subst IsConsistent (sym e) c
Effected-IsConsistent s s' (extended k r r' g kr x e) c =
    let start = s.port_pool.port_start in
    let end = s.port_pool.port_end in
    let kr' = Keyed-Extends start end k r r' kr x in
    subst IsConsistent (sym e) (record {
      ordered = c.ordered;
      keyed = All-put _ s.routes k r' c.keyed kr';
      distinct = Distinct-put s.routes k r' c.distinct;
      owned = λ port. ground (
        arith,
        c.owned port,
        finds-put start end s.routes k r' port c.keyed kr',
        finds_of_get s.routes k r port g,
        x.port_a,
        x.port_b,
      );
      listening = c.listening;
      handled = c.handled;
    })

-- No packet, from whomever, breaks the consistency of the server.
pub datagram_received-IsConsistent :
    (s : RelayServer) (p : RelayPortProtocol) (packet : Bytes) (addr : Text × ℕ) (now : ℕ)
    → IsConsistent s
    → IsConsistent (datagram_received s p packet addr now).0
datagram_received-IsConsistent s p packet addr now c =
    Effected-IsConsistent s _ (datagram_received-Effected s p packet addr now c) c

Effected-keeps :
    (s s' : RelayServer) (j : ℕ × ℕ) (w : RelayRoute)
    → Effected s s'
    → get s.routes j ≡ some w
    → (w' : RelayRoute) × (get s'.routes j ≡ some w') × Extends w w'
Effected-keeps s s' j w (unchanged e) h = (w, rw e h, Extends-refl w)
Effected-keeps s s' j w (extended k r r' g kr x e) h = elim (Bool-cases (k == j)) [
  | inl hit ↦
      let same : k ≡ j = (pair_beq_iff k j).0 hit in
      let own : r ≡ w = ground (arith, g, h, ap (get s.routes) same) in
      (r', rw (e, get-put s.routes k r' j, hit) refl, subst (λ v. Extends v r') own x)
  | inr miss ↦ (w, rw (e, get-put s.routes k r' j, miss) h, Extends-refl w)
]

-- No packet takes a route away or puts another sender into a slot that is taken: whatever arrives
-- on a consistent server, every route keeps its ports and its registered clients.
pub datagram_received_keeps :
    (s : RelayServer) (p : RelayPortProtocol) (packet : Bytes) (addr : Text × ℕ) (now : ℕ)
    (j : ℕ × ℕ) (w : RelayRoute)
    → IsConsistent s
    → get s.routes j ≡ some w
    → (w' : RelayRoute) × (get (datagram_received s p packet addr now).0.routes j ≡ some w')
      × Extends w w'
datagram_received_keeps s p packet addr now j w c =
    Effected-keeps s _ j w (datagram_received-Effected s p packet addr now c)
