-- ===== src/NatNeg/Server/Invariant.antt =====
-- What the NAT negotiation server does to the relay server that it shares keeps it consistent.

use kirov_server_emulator.Relay.Server.Cleanup.{get_route_by_port-Keyed}
use kirov_server_emulator.NatNeg.Manager.{cleanup_expired_sessions}
use kirov_server_emulator.NatNeg.Manager.Pairs.Laws.{allocate_pair_relay_if_missing-IsConsistent}
use kirov_server_emulator.Relay.Server.{RelayServer, get_route_by_port}
use kirov_server_emulator.Relay.Server.Invariant.{IsConsistent, release_route-IsConsistent}
use kirov_server_emulator.NatNeg.Client.{NatNegClient, NatNegSession, public_ip}
use kirov_server_emulator.Prelude.{
  List, Option, Option-cases, [], arith, inl, inr, list_eq, nat_eq, none, option_eq, pair_eq, refl,
  some, ℕ, ◌∷◌, ◌≡◌, subst,
}
use kirov_server_emulator.NatNeg.Server.{
  NatNegServer, cleanup_round, connect_clients, on_session_ready, ready_clients, release_stale,
  send_connect_relay, send_relay_ports, release_expired, release_if_stale,
}
use kirov_server_emulator.Relay.Types.{RelayRoute}
use kirov_server_emulator.NatNeg.Manager.Pairs.{
  Allocated, Pair, get_pair_attempt, cleanup_stale_pairs,
}

abbrev pub IsRelayConsistent : Option RelayServer → Type 0
IsRelayConsistent none = Unit
IsRelayConsistent (some relay) = IsConsistent relay

relay-send_relay_ports :
    (s : NatNegServer) (sid : ℕ) (h g : NatNegClient) (r : Allocated)
    → (send_relay_ports s sid h g r).0.relay_server ≡ some r.1
unfolding send_relay_ports
relay-send_relay_ports s sid h g (m, relay, none, effects) = refl
relay-send_relay_ports s sid h g (m, relay, some ports, effects) = refl

send_connect_relay-consistent :
    (bind : ℕ → Option ℕ) (s : NatNegServer) (sid : ℕ) (h g : NatNegClient) (now : ℕ)
    → IsRelayConsistent s.relay_server
    → IsRelayConsistent (send_connect_relay bind s sid h g now).0.relay_server
unfolding send_connect_relay
send_connect_relay-consistent bind s sid h g now c = elim (Option-cases s.relay_server) [
  | inl missing ↦ rw (send_connect_relay, missing) c
  | inr (relay, there) ↦
      let ok : IsConsistent relay = subst IsRelayConsistent there c in
      rw (send_connect_relay, there, relay-send_relay_ports)
        (allocate_pair_relay_if_missing-IsConsistent bind s.session_manager
          (public_ip h, public_ip g) relay now ok)
]

connect_clients-consistent :
    (bind : ℕ → Option ℕ) (s : NatNegServer) (sid : ℕ) (h g : NatNegClient) (now : ℕ)
    → IsRelayConsistent s.relay_server
    → IsRelayConsistent (connect_clients bind s sid h g now).0.relay_server
unfolding connect_clients
connect_clients-consistent bind s sid h g now c =
    let pair = get_pair_attempt s.session_manager (public_ip h, public_ip g) now in
    ground (
      arith,
      send_connect_relay-consistent bind (record s { session_manager = pair.0 }) sid h g now c,
    )

ready_clients-consistent :
    (bind : ℕ → Option ℕ) (s : NatNegServer) (sid : ℕ) (h g : Option NatNegClient) (now : ℕ)
    → IsRelayConsistent s.relay_server
    → IsRelayConsistent (ready_clients bind s sid h g now).0.relay_server
unfolding ready_clients
ready_clients-consistent bind s sid (some h) (some g) now c =
    connect_clients-consistent bind s sid h g now c
ready_clients-consistent bind s sid none g now c = c
ready_clients-consistent bind s sid (some h) none now c = c

-- Sending CONNECT, whatever the attempt and whatever the sockets do, keeps the relay server of the
-- NAT negotiation consistent.
pub on_session_ready-IsConsistent :
    (bind : ℕ → Option ℕ) (s : NatNegServer) (session : NatNegSession) (now : ℕ)
    → IsRelayConsistent s.relay_server
    → IsRelayConsistent (on_session_ready bind s session now).0.relay_server
unfolding on_session_ready
on_session_ready-IsConsistent bind s session now c =
    ready_clients-consistent bind s session.session_id session.host session.guest now c

release_if_stale-IsConsistent :
    (relay : RelayServer) (o : Option RelayRoute) (port now : ℕ)
    → IsConsistent relay
    → get_route_by_port relay port ≡ o
    → IsConsistent (release_if_stale relay o now).0
unfolding release_if_stale get_route_by_port
release_if_stale-IsConsistent relay none port now c e = c
release_if_stale-IsConsistent relay (some r) port now c e =
    ground (arith, release_route-IsConsistent relay r c (get_route_by_port-Keyed relay port r c e))

release_stale-IsConsistent :
    (relay : RelayServer) (ps : List (Pair × (ℕ × ℕ))) (now : ℕ)
    → IsConsistent relay
    → IsConsistent (release_stale relay ps now).0
unfolding release_stale
release_stale-IsConsistent relay [] now c = c
release_stale-IsConsistent relay ((pair, (a, b)) ∷ ps) now c =
    release_stale-IsConsistent (release_if_stale relay (get_route_by_port relay a) now).0 ps now
      (release_if_stale-IsConsistent relay (get_route_by_port relay a) a now c refl)

release_expired-consistent :
    (s : NatNegServer) (o : Option RelayServer) (ps : List (Pair × (ℕ × ℕ))) (now : ℕ)
    → s.relay_server ≡ o
    → IsRelayConsistent o
    → IsRelayConsistent (release_expired s o ps now).0.relay_server
unfolding release_expired
release_expired-consistent s none ps now e c = rw e tt
release_expired-consistent s (some relay) ps now e c = release_stale-IsConsistent relay ps now c

-- A round of the cleanup loop keeps the relay server consistent.
pub cleanup_round-IsConsistent :
    (s : NatNegServer) (now : ℕ)
    → IsRelayConsistent s.relay_server
    → IsRelayConsistent (cleanup_round s now).0.relay_server
unfolding cleanup_round
cleanup_round-IsConsistent s now c =
    let m = cleanup_expired_sessions s.session_manager now in
    let cleaned = cleanup_stale_pairs m s.pair_ttl now in
    release_expired-consistent (record s { session_manager = cleaned.0 }) s.relay_server cleaned.1
      now refl c
