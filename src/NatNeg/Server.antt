-- ===== src/NatNeg/Server.antt =====
-- app/servers/natneg_server.py. A handler is a task of its own; what it sends are the datagrams
-- that it returns. An exception ends the task, and the datagrams before it have been sent.
use kirov_server_emulator.Prelude.Dict.{get}
use kirov_server_emulator.Prelude.Words.{Bytes, ◌>>=◌}
use kirov_server_emulator.Relay.Types.{is_stale, RelayRoute}
use kirov_server_emulator.Prelude.Text.{Text, codes}
use kirov_server_emulator.NatNeg.Packets.{NatNegInitPacket}
use kirov_server_emulator.NatNeg.Manager.Pairs.{
  Allocated, Pair, allocate_pair_relay_if_missing, cleanup_stale_pairs, get_pair_attempt,
}
use kirov_server_emulator.Relay.Server.{Effect, RelayServer, get_route_by_port, release_route}
use kirov_server_emulator.NatNeg.Protocol.{
  build_address_reply_packet, build_connect_packet, build_init_ack_packet, build_report_ack_packet,
  is_natneg_packet, parse_init_packet, parse_natneg_packet,
}
use kirov_server_emulator.Prelude.{
  Bool, List, Option, [], false, if◌then◌else◌, is_some, list_eq, nat_eq, none, not, option_eq,
  pair_eq, some, true, ℕ, ◌&&◌, ◌++◌, ◌==◌, ◌∷◌,
}
use kirov_server_emulator.NatNeg.Header.{
  NatNegHeader, address_check, connect_ack, guest, host, init, nn1, port_value, report, same_type,
}
use kirov_server_emulator.NatNeg.Manager.{
  NatNegSessionManager, Registration, cleanup_expired_sessions, mark_connect_acked, register_client,
  session_timeout,
}
use kirov_server_emulator.NatNeg.Client.{
  NatNegClient, NatNegSession, local_ip, local_port, public_ip, public_port,
}
pub mod Fallback
pub mod Silent
pub mod Invariant
pub mod Requests

pub data Datagram : Type 0 where
  to : Bytes → Text × ℕ → Datagram

-- `transport` holds the address of the bound socket, `relay_server` the optional relay.
pub record NatNegServer : Type 0 where
  pub transport : Option Text
  pub session_manager : NatNegSessionManager
  pub relay_server : Option RelayServer
  pub pair_ttl : ℕ

-- The work that a datagram starts.
pub data Task : Type 0 where
  handle_init : Bytes → Text × ℕ → Task
  handle_connect_ack : NatNegHeader → Task
  handle_report : NatNegHeader → Bytes → Text × ℕ → Task
  handle_address_check : Bytes → Text × ℕ → Task

unfoldable pub task_for : Bytes → Text × ℕ → NatNegHeader → Option Task
task_for packet addr h =
    if same_type h.record_type init
    then some (handle_init packet addr)
    else if same_type h.record_type connect_ack
    then some (handle_connect_ack h)
    else if same_type h.record_type report
    then some (handle_report h packet addr)
    else if same_type h.record_type address_check
    then some (handle_address_check packet addr)
    else none

unfoldable pub datagram_received : Bytes → Text × ℕ → Option Task
unfolding task_for
datagram_received packet addr =
    if not (is_natneg_packet packet)
    then none
    else (do (h, payload) ← parse_natneg_packet packet; task_for packet addr h)

-- `_send_to`; a packet that could not be built is an exception before it.
abbrev pub send_to : NatNegServer → Option Bytes → Text × ℕ → List Datagram
send_to s none addr = []
send_to s (some packet) addr = if is_some s.transport then to packet addr ∷ [] else []

abbrev pub registration : NatNegInitPacket → Text × ℕ → Registration
registration p (ip, port) = record {
  session_id = p.header.session_id;
  client_index = p.header.client_index;
  port_type = p.header.port_type;
  public_ip = ip;
  public_port = port;
  local_ip = p.local_ip;
  local_port = p.local_port;
  game_name = p.game_name;
}

-- The new server, the datagrams, and the session whose callback is scheduled.
abbrev pub Handled : Type 0
Handled = NatNegServer × List Datagram × Option ℕ

abbrev pub scheduled : ℕ → Bool → Option ℕ
scheduled sid true = some sid
scheduled sid false = none

unfoldable pub register_init : NatNegServer → NatNegInitPacket → Text × ℕ → ℕ → Handled
register_init s p addr now =
    let h = p.header in
    let (m, session, ready) = register_client s.session_manager (registration p addr) now in
    (
      record s { session_manager = m },
      send_to s (build_init_ack_packet h.session_id h.port_type h.client_index) addr,
      scheduled h.session_id ready,
    )

unfoldable pub run_task : NatNegServer → Task → ℕ → Handled
unfolding register_init
run_task s (handle_init packet addr) now = elim (parse_init_packet packet) [
  | none ↦ (s, [], none)
  | some p ↦ register_init s p addr now
]
run_task s (handle_connect_ack h) now = (
  record s { session_manager = mark_connect_acked s.session_manager h.session_id h.client_index },
  [],
  none,
)
run_task s (handle_report h packet addr) now =
    (s, send_to s (build_report_ack_packet h.session_id h.port_type h.client_index) addr, none)
run_task s (handle_address_check packet (ip, port)) now =
    (s, send_to s (build_address_reply_packet packet ip port) (ip, port), none)

-- `build_connect_packet` with an address and a port that may be None, which raises.
abbrev pub build_connect : ℕ → Option Text → Option ℕ → Option Bytes
build_connect sid none port = none
build_connect sid (some ip) none = none
build_connect sid (some ip) (some port) = build_connect_packet sid ip port true true

-- `_send_connect_to_client`
unfoldable pub send_connect_to_client : NatNegServer → NatNegClient → Bytes → List Datagram
send_connect_to_client s c packet = elim (get c.connections (port_value nn1)) [
  | none ↦ []
  | some conn ↦ send_to s (some packet) (conn.public_ip, conn.public_port)
]

-- Both packets are built before either is sent: first to the guest, then to the host.
unfoldable pub send_connects :
    NatNegServer → NatNegClient → NatNegClient → Option Bytes → Option Bytes → List Datagram
unfolding send_connect_to_client
send_connects s h g (some to_guest) (some to_host) =
    send_connect_to_client s g to_guest ++ send_connect_to_client s h to_host
send_connects s h g _ _ = []

-- `_send_connect_fallback_wan`, and the mode "wan" of `_on_session_ready`
unfoldable pub send_wan : NatNegServer → ℕ → NatNegClient → NatNegClient → List Datagram
unfolding send_connects
send_wan s sid h g =
    send_connects s h g (build_connect sid (public_ip h) (public_port h))
      (build_connect sid (public_ip g) (public_port g))

-- The mode "lan".
unfoldable pub send_lan : NatNegServer → ℕ → NatNegClient → NatNegClient → List Datagram
unfolding send_connects
send_lan s sid h g =
    send_connects s h g (build_connect sid (local_ip h) (local_port h))
      (build_connect sid (local_ip g) (local_port g))

-- The address of the relay, or the bound address of this server in place of 0.0.0.0.
unfoldable pub relay_host : NatNegServer → RelayServer → Text
relay_host s relay = elim s.transport [
  | none ↦ relay.host
  | some bound ↦
      if (relay.host == codes "0.0.0.0") && not (bound == codes "0.0.0.0")
      then bound
      else relay.host
]

-- The state after `_on_session_ready`, its datagrams, and the effects on the relay's sockets.
abbrev pub Sent : Type 0
Sent = NatNegServer × List Datagram × List Effect

unfoldable pub send_relay_ports : NatNegServer → ℕ → NatNegClient → NatNegClient → Allocated → Sent
unfolding send_connects relay_host send_wan
send_relay_ports s sid h g (m, relay, none, effects) =
    let s' = record s { session_manager = m; relay_server = some relay } in
    (s', send_wan s' sid h g, effects)
send_relay_ports s sid h g (m, relay, some (port_a, port_b), effects) =
    let s' = record s { session_manager = m; relay_server = some relay } in
    let ip = some (relay_host s relay) in
    (
      s',
      send_connects s' h g (build_connect sid ip (some port_a))
          (build_connect sid ip (some port_b)),
      effects,
    )

-- `_send_connect_relay`
unfoldable pub send_connect_relay :
    (ℕ → Option ℕ) → NatNegServer → ℕ → NatNegClient → NatNegClient → ℕ → Sent
unfolding send_relay_ports send_wan
send_connect_relay bind s sid h g now = elim s.relay_server [
  | none ↦ (s, send_wan s sid h g, [])
  | some relay ↦
      send_relay_ports s sid h g
        (allocate_pair_relay_if_missing bind s.session_manager (public_ip h, public_ip g) relay now)
]

unfoldable pub connect_clients :
    (ℕ → Option ℕ) → NatNegServer → ℕ → NatNegClient → NatNegClient → ℕ → Sent
unfolding send_connect_relay send_wan send_lan
connect_clients bind s sid h g now =
    let (m, info) = get_pair_attempt s.session_manager (public_ip h, public_ip g) now in
    let s' = record s { session_manager = m } in
    if info.attempt_count == 1
    then (s', send_wan s' sid h g, [])
    else if info.attempt_count == 2
    then (s', send_lan s' sid h g, [])
    else send_connect_relay bind s' sid h g now

unfoldable pub ready_clients :
    (ℕ → Option ℕ) → NatNegServer → ℕ → Option NatNegClient → Option NatNegClient → ℕ → Sent
unfolding connect_clients
ready_clients bind s sid (some h) (some g) now = connect_clients bind s sid h g now
ready_clients bind s sid _ _ now = (s, [], [])

-- `_on_session_ready`, at the state that the session object has when the callback runs
unfoldable pub on_session_ready : (ℕ → Option ℕ) → NatNegServer → NatNegSession → ℕ → Sent
unfolding ready_clients
on_session_ready bind s session now =
    ready_clients bind s session.session_id session.host session.guest now

unfoldable pub release_if_stale : RelayServer → Option RelayRoute → ℕ → RelayServer × List Effect
release_if_stale relay none now = (relay, [])
release_if_stale relay (some r) now =
    if is_stale r relay.session_timeout now then release_route relay r else (relay, [])

-- The end of a round of `_cleanup_loop`: stale routes of expired pairs are released.
unfoldable pub release_stale : RelayServer → List (Pair × (ℕ × ℕ)) → ℕ → RelayServer × List Effect
unfolding release_if_stale
release_stale relay [] now = (relay, [])
release_stale relay ((pair, (port_a, port_b)) ∷ ps) now =
    let (relay', closed) = release_if_stale relay (get_route_by_port relay port_a) now in
    let (relay'', more) = release_stale relay' ps now in (relay'', closed ++ more)

unfoldable pub release_expired :
    NatNegServer → Option RelayServer → List (Pair × (ℕ × ℕ)) → ℕ → NatNegServer × List Effect
unfolding release_stale
release_expired s none released now = (s, [])
release_expired s (some relay) released now =
    let (relay', closed) = release_stale relay released now in
    (record s { relay_server = some relay' }, closed)

-- One round of `_cleanup_loop`.
unfoldable pub cleanup_round : NatNegServer → ℕ → NatNegServer × List Effect
unfolding release_expired
cleanup_round s now =
    let m = cleanup_expired_sessions s.session_manager now in
    let (m', released) = cleanup_stale_pairs m s.pair_ttl now in
    release_expired (record s { session_manager = m' }) s.relay_server released now
