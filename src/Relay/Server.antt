-- ===== src/Relay/Server.antt =====
-- app/servers/relay_server.py. A transport is a handle that the operating system gives; the calls
-- on transports are the effects that an operation returns. `bind port` is the outcome of
-- `create_datagram_endpoint` at a port: a handle, or `none` for OSError.
pub mod Routes
pub mod Cleanup
pub mod Allocation
pub mod Invariant
use kirov_server_emulator.Prelude.{
  ℕ, Bool, ◌||◌, Option, none, some, List, [], ◌∷◌, ◌++◌, if◌then◌else◌, ◌==◌, min, max, length,
  list_eq, nat_eq, pair_eq,
}
use kirov_server_emulator.Prelude.Text.{Text}
use kirov_server_emulator.Prelude.Words.{Bytes}
use kirov_server_emulator.Prelude.Dict.{Dict, get, put, remove}
use kirov_server_emulator.Relay.Types.{RelayRoute, new_route, is_stale}
use kirov_server_emulator.Relay.PortPool.{PortPool, allocate_pair, release_pair}

pub data Effect : Type 0 where
  sendto : ℕ → Bytes → Text × ℕ → Effect
  close : ℕ → Effect

pub record RelayServer : Type 0 where
  pub host : Text
  pub port_pool : PortPool
  pub session_timeout : ℕ
  pub routes : Dict (ℕ × ℕ) RelayRoute
  pub transports : Dict ℕ ℕ
  pub protocols : Dict ℕ (ℕ × ℕ)

-- RelayServer(host=…, port_pool=…, session_timeout=…)
unfoldable pub new_server : Text → PortPool → ℕ → RelayServer
new_server host pool timeout = record {
  host = host;
  port_pool = pool;
  session_timeout = timeout;
  routes = [];
  transports = [];
  protocols = [];
}

abbrev pub route_key : ℕ → ℕ → ℕ × ℕ
route_key a b = (min a b, max a b)

-- `_start_port_listener`, where the socket could be bound. A protocol object is its two ports.
unfoldable pub start_port_listener : RelayServer → ℕ → ℕ → ℕ → RelayServer
start_port_listener s port peer transport = record s {
  transports = put s.transports port transport;
  protocols = put s.protocols port (port, peer);
}

abbrev closing : Option ℕ → List Effect
closing none = []
closing (some t) = close t ∷ []

-- The transport and the protocol of a port are popped, and the transport closed.
unfoldable pub close_port : RelayServer → ℕ → RelayServer × List Effect
close_port s port = (
  record s { transports = remove s.transports port; protocols = remove s.protocols port },
  closing (get s.transports port),
)

unfoldable pub close_ports : RelayServer → List ℕ → RelayServer × List Effect
unfolding close_port
close_ports s [] = (s, [])
close_ports s (port ∷ ports) =
    let (s', closed) = close_port s port in
    let (s'', more) = close_ports s' ports in (s'', closed ++ more)

-- The handler of OSError: what was started is closed, the ports and the route are given back.
unfoldable pub give_up :
    RelayServer → List ℕ → ℕ → ℕ → RelayServer × Option RelayRoute × List Effect
unfolding close_ports
give_up s started a b =
    let (s', closed) = close_ports s started in
    (
      record s' {
        port_pool = release_pair s'.port_pool (a, b);
        routes = remove s'.routes (route_key a b);
      },
      none,
      closed,
    )

unfoldable pub start_second :
    (ℕ → Option ℕ)
    → RelayServer
    → RelayRoute
    → ℕ
    → ℕ
    → RelayServer × Option RelayRoute × List Effect
unfolding give_up start_port_listener
start_second bind s route a b = elim (bind b) [
  | none ↦ give_up s (a ∷ []) a b
  | some t ↦ (start_port_listener s b a t, some route, [])
]

unfoldable pub start_listeners :
    (ℕ → Option ℕ)
    → RelayServer
    → RelayRoute
    → ℕ
    → ℕ
    → RelayServer × Option RelayRoute × List Effect
unfolding give_up start_port_listener start_second
start_listeners bind s route a b = elim (bind a) [
  | none ↦ give_up s [] a b
  | some t ↦ start_second bind (start_port_listener s a b t) route a b
]

unfoldable pub allocate_with :
    (ℕ → Option ℕ)
    → RelayServer
    → ℕ
    → PortPool × Option (ℕ × ℕ)
    → RelayServer × Option RelayRoute × List Effect
unfolding start_listeners
allocate_with bind s now (pool, none) = (record s { port_pool = pool }, none, [])
allocate_with bind s now (pool, some (a, b)) =
    let route = new_route a b now in
    start_listeners bind
      (record s { port_pool = pool; routes = put s.routes (route_key a b) route }) route a b

unfoldable pub allocate_route :
    (ℕ → Option ℕ) → RelayServer → ℕ → RelayServer × Option RelayRoute × List Effect
unfolding allocate_with
allocate_route bind s now = allocate_with bind s now (allocate_pair s.port_pool)

unfoldable pub release_route : RelayServer → RelayRoute → RelayServer × List Effect
unfolding close_ports
release_route s route =
    let (s', closed) = close_ports s (route.port_a ∷ route.port_b ∷ []) in
    (
      record s' {
        port_pool = release_pair s'.port_pool (route.port_a, route.port_b);
        routes = remove s'.routes (route_key route.port_a route.port_b);
      },
      closed,
    )

abbrev pub serves : RelayRoute → ℕ → Bool
serves r port = (r.port_a == port) || (r.port_b == port)

-- The first route of the dictionary that has the port, with its key.
unfoldable pub find_route : Dict (ℕ × ℕ) RelayRoute → ℕ → Option ((ℕ × ℕ) × RelayRoute)
find_route [] port = none
find_route ((k, r) ∷ d) port = if serves r port then some (k, r) else find_route d port

abbrev pub second {ℓ κ} : {A : Type ℓ} {B : Type κ} → Option (A × B) → Option B
second none = none
second (some (a, b)) = some b

unfoldable pub get_route_by_port : RelayServer → ℕ → Option RelayRoute
get_route_by_port s port = second (find_route s.routes port)

unfoldable pub get_transport : RelayServer → ℕ → Option ℕ
get_transport s port = get s.transports port

-- The routes in the order of the dictionary that are stale.
unfoldable pub stale_routes : Dict (ℕ × ℕ) RelayRoute → ℕ → ℕ → List RelayRoute
stale_routes [] timeout now = []
stale_routes ((k, r) ∷ d) timeout now =
    let rest = stale_routes d timeout now in if is_stale r timeout now then r ∷ rest else rest

unfoldable pub release_all : RelayServer → List RelayRoute → RelayServer × List Effect
release_all s [] = (s, [])
release_all s (r ∷ rs) =
    let (s', closed) = release_route s r in
    let (s'', more) = release_all s' rs in (s'', closed ++ more)

-- `_cleanup_stale_routes`, with no other task between the collection and the releases
unfoldable pub cleanup_stale_routes : RelayServer → ℕ → RelayServer × List Effect
unfolding release_all
cleanup_stale_routes s now = release_all s (stale_routes s.routes s.session_timeout now)

unfoldable pub active_route_count : RelayServer → ℕ
active_route_count s = length s.routes

close_all : Dict ℕ ℕ → List Effect
close_all [] = []
close_all ((port, t) ∷ d) = close t ∷ close_all d

-- `stop`, behind the cancelled cleanup task
unfoldable pub stop : RelayServer → RelayServer × List Effect
unfolding close_all
stop s = (record s { transports = []; protocols = []; routes = [] }, close_all s.transports)
