-- ===== src/NatNeg/Client.antt =====
-- The clients and sessions of app/models/natneg_types.py.
use kirov_server_emulator.Prelude.Text.{Text, join, split}
use kirov_server_emulator.Prelude.Dict.{Dict, get, has, put}
use kirov_server_emulator.NatNeg.Header.{
  NatNegClientIndex, NatNegPortType, gp, nn1, nn2, nn3, port_value,
}
use kirov_server_emulator.Prelude.{
  Bool, List, Option, [], false, if◌then◌else◌, leb, length, list_eq, nat_eq, none, not, option_eq,
  pair_eq, some, take, true, ℕ, ◌&&◌, ◌==◌, ◌∷◌,
}
pub mod Laws

pub record NatNegClientConnection : Type 0 where
  pub public_ip : Text
  pub public_port : ℕ
  pub local_ip : Text
  pub local_port : ℕ
  pub port_type : NatNegPortType

-- The keys of `connections` are the integers of the port types.
pub record NatNegClient : Type 0 where
  pub session_id : ℕ
  pub client_index : NatNegClientIndex
  pub game_name : Text
  pub connections : Dict ℕ NatNegClientConnection
  pub init_received : Bool
  pub connect_acked : Bool

-- NatNegClient(session_id=…, client_index=…, game_name=…)
unfoldable pub new_client : ℕ → NatNegClientIndex → Text → NatNegClient
new_client session_id client_index game_name = record {
  session_id = session_id;
  client_index = client_index;
  game_name = game_name;
  connections = [];
  init_received = false;
  connect_acked = false;
}

unfoldable pub add_connection : NatNegClient → NatNegClientConnection → NatNegClient
add_connection c conn = record c {
  connections = put c.connections (port_value conn.port_type) conn;
  init_received = true;
}

-- The connection of a port type, if it has a local port.
abbrev pub with_local_port : Option NatNegClientConnection → Option NatNegClientConnection
with_local_port none = none
with_local_port (some conn) = if conn.local_port == 0 then none else some conn

-- The loop over the port types, in their order of preference.
unfoldable pub first_with_port :
    Dict ℕ NatNegClientConnection → List NatNegPortType → Option NatNegClientConnection
first_with_port d [] = none
first_with_port d (t ∷ ts) =
    let rest = first_with_port d ts in
    elim (with_local_port (get d (port_value t))) [ none ↦ rest | some conn ↦ some conn ]

-- next(iter(connections.values()))
abbrev pub any_connection : Dict ℕ NatNegClientConnection → Option NatNegClientConnection
any_connection [] = none
any_connection ((k, conn) ∷ d) = some conn

unfoldable pub best_of : Dict ℕ NatNegClientConnection → Option NatNegClientConnection
unfolding first_with_port
best_of d = elim (first_with_port d (nn3 ∷ nn2 ∷ nn1 ∷ gp ∷ [])) [
  | some conn ↦ some conn
  | none ↦ any_connection d
]

unfoldable pub get_best_connection : NatNegClient → Option NatNegClientConnection
unfolding best_of
get_best_connection c = best_of c.connections

-- The properties `public_ip`, `public_port`, `local_ip` and `local_port`.
abbrev pub field {ℓ} : {A : Type ℓ} → (NatNegClientConnection → A) → NatNegClient → Option A
field f c = elim (get_best_connection c) [ none ↦ none | some conn ↦ some (f conn) ]

unfoldable pub public_ip : NatNegClient → Option Text
public_ip = field (λ conn. conn.public_ip)

unfoldable pub public_port : NatNegClient → Option ℕ
public_port = field (λ conn. conn.public_port)

unfoldable pub local_ip : NatNegClient → Option Text
local_ip = field (λ conn. conn.local_ip)

unfoldable pub local_port : NatNegClient → Option ℕ
local_port = field (λ conn. conn.local_port)

-- _get_subnet
unfoldable pub get_subnet : Text → Text
get_subnet ip =
    let parts = split b'.' ip in if leb 3 (length parts) then join b'.' (take 3 parts) else ip

pub record NatNegSession : Type 0 where
  pub session_id : ℕ
  pub game_name : Text
  pub host : Option NatNegClient
  pub guest : Option NatNegClient
  pub created_at : ℕ
  pub connect_sent : Bool
  pub completed : Bool
  pub session_order : ℕ

-- NatNegSession(session_id=…, game_name=…, created_at=…)
unfoldable pub new_session : ℕ → Text → ℕ → NatNegSession
new_session session_id game_name now = record {
  session_id = session_id;
  game_name = game_name;
  host = none;
  guest = none;
  created_at = now;
  connect_sent = false;
  completed = false;
  session_order = 0;
}

-- The best connection has a local port.
abbrev pub has_port : Option NatNegClientConnection → Bool
has_port none = false
has_port (some conn) = not (conn.local_port == 0)

unfoldable pub clients_ready : NatNegClient → NatNegClient → Bool
clients_ready h g =
    if not (h.init_received && g.init_received)
    then false
    else if not (has h.connections (port_value nn3))
    then false
    else if not (has g.connections (port_value nn3))
    then false
    else has_port (get_best_connection h) && has_port (get_best_connection g)

unfoldable pub ready_of : Option NatNegClient → Option NatNegClient → Bool
unfolding clients_ready
ready_of (some h) (some g) = clients_ready h g
ready_of _ _ = false

unfoldable pub is_ready : NatNegSession → Bool
unfolding ready_of
is_ready s = ready_of s.host s.guest

-- Neither is None or empty, and the subnets are the same.
abbrev same_subnet : Option Text → Option Text → Bool
same_subnet (some a) (some b) =
    not (length a == 0) && not (length b == 0) && (get_subnet a == get_subnet b)
same_subnet _ _ = false

same_lan_of : Option NatNegClient → Option NatNegClient → Bool
same_lan_of (some h) (some g) = same_subnet (public_ip h) (public_ip g)
same_lan_of _ _ = false

unfoldable pub are_same_lan : NatNegSession → Bool
unfolding same_lan_of
are_same_lan s = same_lan_of s.host s.guest
