-- ===== src/NatNeg/Client/Laws.antt =====
-- Which connection is the best one, and when a session is ready.

use kirov_server_emulator.Prelude.Dict.{Dict, get, has, put}
use kirov_server_emulator.NatNeg.Header.{NatNegPortType, port_value, gp, nn1, nn2, nn3}
use kirov_server_emulator.Prelude.{
  [], arith, list_eq, nat_eq, none, option_eq, pair_eq, refl, some, ℕ, ◌↔◌, ◌∷◌, ◌≡◌, ◌≢◌, All,
  List, Option, Option-cases, inl, inr, true,
}
use kirov_server_emulator.NatNeg.Client.{
  NatNegClient, NatNegClientConnection, best_of, get_best_connection, any_connection, clients_ready,
  first_with_port, has_port, with_local_port, NatNegSession, add_connection, is_ready,
}

-- A connection of the client that has a local port.
abbrev pub HasLocalPort : NatNegClient → NatNegPortType → Type 0
HasLocalPort c t =
    (conn : NatNegClientConnection) × (get c.connections (port_value t) ≡ some conn)
    × (conn.local_port ≢ 0)

-- The best connection of a client exists exactly when it has a connection at all.
pub get_best_connection-none :
    (c : NatNegClient) → (get_best_connection c ≡ none) ↔ (c.connections ≡ [])
unfolding get_best_connection
get_best_connection-none c = (empty c.connections, λ e. rw e (unfold best_of get in refl))
  where
    empty : (d : Dict ℕ NatNegClientConnection) → best_of d ≡ none → d ≡ []
    empty [] e = refl
    empty ((k, conn) ∷ d) e = ground arith

has_port_sound :
    (o : Option NatNegClientConnection)
    → has_port o ≡ true
    → (conn : NatNegClientConnection) × (o ≡ some conn) × (conn.local_port ≢ 0)
has_port_sound none h = cc
has_port_sound (some conn) h = (conn, refl, ground arith)

best_has_port :
    (c : NatNegClient) (t : NatNegPortType)
    → HasLocalPort c t
    → has_port (get_best_connection c) ≡ true
unfolding get_best_connection
best_has_port c gp (conn, found, p) = ground (arith, found)
best_has_port c nn1 (conn, found, p) = ground (arith, found)
best_has_port c nn2 (conn, found, p) = ground (arith, found)
best_has_port c nn3 (conn, found, p) = ground (arith, found)

-- If some port type has a connection with a local port, the best connection has a local port.
pub get_best_connection_local_port :
    (c : NatNegClient) (t : NatNegPortType)
    → HasLocalPort c t
    → (conn : NatNegClientConnection) × (get_best_connection c ≡ some conn) × (conn.local_port ≢ 0)
get_best_connection_local_port c t h = has_port_sound (get_best_connection c) (best_has_port c t h)

-- Every connection stands under its port type.
abbrev pub IsKeyed : Dict ℕ NatNegClientConnection → Type 0
IsKeyed = All (λ (e : ℕ × NatNegClientConnection). e.0 ≡ port_value e.1.port_type)

with_local_port_sound :
    (o : Option NatNegClientConnection) (x : NatNegClientConnection)
    → with_local_port o ≡ some x
    → (conn : NatNegClientConnection) × (o ≡ some conn) × (conn.local_port ≢ 0)
with_local_port_sound none x e = cc
with_local_port_sound (some conn) x e = (conn, refl, ground arith)

first_with_port_found :
    (c : NatNegClient) (ts : List NatNegPortType) (conn : NatNegClientConnection)
    → first_with_port c.connections ts ≡ some conn
    → (t : NatNegPortType) × HasLocalPort c t
unfolding first_with_port
first_with_port_found c [] conn e = cc
first_with_port_found c (t ∷ ts) conn e =
    elim (Option-cases (with_local_port (get c.connections (port_value t)))) [
      | inl missed ↦ first_with_port_found c ts conn (ground (arith, missed))
      | inr (x, hit) ↦ (t, with_local_port_sound (get c.connections (port_value t)) x hit)
    ]

head_connection :
    (c : NatNegClient) (d : Dict ℕ NatNegClientConnection) (conn : NatNegClientConnection)
    → c.connections ≡ d
    → IsKeyed d
    → any_connection d ≡ some conn
    → conn.local_port ≢ 0
    → HasLocalPort c conn.port_type
head_connection c [] conn e k found p = cc
head_connection c ((j, x) ∷ d) conn e k found p =
    let same : x ≡ conn = cc in (conn, rw (e, ← same) (unfold get in ground (arith, k.0, same)), p)

has_port_found :
    (c : NatNegClient)
    → IsKeyed c.connections
    → has_port (get_best_connection c) ≡ true
    → (t : NatNegPortType) × HasLocalPort c t
unfolding get_best_connection
has_port_found c k h =
    elim (Option-cases (first_with_port c.connections (nn3 ∷ nn2 ∷ nn1 ∷ gp ∷ []))) [
      | inr (conn, e) ↦ first_with_port_found c (nn3 ∷ nn2 ∷ nn1 ∷ gp ∷ []) conn e
      | inl e ↦
          let (conn, found, p) =
            has_port_sound (any_connection c.connections) (ground (arith, e)) in
          (conn.port_type, head_connection c c.connections conn refl k found p)
    ]

-- The client has registered, its last port type included, and some connection has a local port.
pub record IsRegistered (c : NatNegClient) : Type 0 where
  pub init_received : c.init_received ≡ true
  pub last_port_type : has c.connections (port_value nn3) ≡ true
  pub playable : (t : NatNegPortType) × HasLocalPort c t

-- A session with well-kept clients is ready exactly when both are registered.
pub clients_ready_iff :
    (h g : NatNegClient)
    → IsKeyed h.connections
    → IsKeyed g.connections
    → (clients_ready h g ≡ true) ↔ (IsRegistered h × IsRegistered g)
unfolding clients_ready
clients_ready_iff h g kh kg = (
  λ e. (
    record {
      init_received = ground arith;
      last_port_type = ground arith;
      playable = has_port_found h kh (ground arith);
    },
    record {
      init_received = ground arith;
      last_port_type = ground arith;
      playable = has_port_found g kg (ground arith);
    },
  ),
  λ (rh, rg).
      let ph = best_has_port h rh.playable.0 rh.playable.1 in
      let pg = best_has_port g rg.playable.0 rg.playable.1 in
      rw (ph, pg, rh.init_received, rg.init_received, rh.last_port_type, rg.last_port_type),
)

-- A session is ready as soon as each client has sent INIT for port type 3 alone, with a local port:
-- the other three port types are not waited for.
is_ready_last_only :
    (s : NatNegSession) (h g : NatNegClient) (x y : NatNegClientConnection)
    → h.connections ≡ []
    → g.connections ≡ []
    → x.port_type ≡ nn3
    → y.port_type ≡ nn3
    → x.local_port ≢ 0
    → y.local_port ≢ 0
    → is_ready (record s { host = some (add_connection h x); guest = some (add_connection g y) })
      ≡ true
unfolding is_ready add_connection get_best_connection put get
is_ready_last_only s h g x y eh eg tx ty px py = rw (eh, eg, tx, ty) (ground arith)
