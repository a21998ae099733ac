-- ===== src/NatNeg/Manager/Registering.antt =====
-- `register_client`: what it stores, and that the callback of a session is scheduled once.

use kirov_server_emulator.NatNeg.Server.{scheduled}
use kirov_server_emulator.Prelude.Text.{Text}
use kirov_server_emulator.Prelude.Dict.{get, get-put, Dict, put}
use kirov_server_emulator.NatNeg.Header.{NatNegClientIndex, guest, host}
use kirov_server_emulator.Prelude.{
  Bool-cases, Option, arith, if◌then◌else◌, inl, inr, list_eq, nat_eq, not, option_eq, pair_eq,
  refl, some, ℕ, ◌&&◌, ◌==◌, ◌≡◌, ==_refl, ap, ◌∙◌,
}
use kirov_server_emulator.NatNeg.Client.{NatNegClient, NatNegSession, add_connection, is_ready}
use kirov_server_emulator.NatNeg.Manager.{
  NatNegSessionManager, Registration, client_or_new, connection_of, register_client, session_or_new,
  settle, with_connection, with_role,
}

-- The role that the registration does not name.
abbrev pub other_role : NatNegSession → NatNegClientIndex → Option NatNegClient
other_role s host = s.guest
other_role s guest = s.host

abbrev pub role : NatNegSession → NatNegClientIndex → Option NatNegClient
role s host = s.host
role s guest = s.guest

settle_roles :
    (m : NatNegSessionManager) (sid : ℕ) (s : NatNegSession) (i : NatNegClientIndex)
    → (role (settle m sid s).1 i ≡ role s i) × (other_role (settle m sid s).1 i ≡ other_role s i)
unfolding settle
settle_roles m sid s host = ground arith
settle_roles m sid s guest = ground arith

client_endpoints-settle :
    (m : NatNegSessionManager) (sid : ℕ) (s : NatNegSession)
    → (settle m sid s).0.client_endpoints ≡ m.client_endpoints
unfolding settle
client_endpoints-settle m sid s = ground arith

pub get-settle :
    (m : NatNegSessionManager) (sid : ℕ) (s : NatNegSession) (j : ℕ)
    → get (settle m sid s).0.sessions j
      ≡ (if sid == j then some (settle m sid s).1 else get m.sessions j)
unfolding settle
get-settle m sid s j = elim (Bool-cases (is_ready s && not s.connect_sent)) [
  | inl go ↦ rw go (get-put m.sessions sid _ j)
  | inr stay ↦ rw stay (get-put m.sessions sid s j)
]

with_connection_roles :
    (s : NatNegSession) (a : Registration)
    → (role (with_connection s a) a.client_index
        ≡ some (add_connection (client_or_new (role s a.client_index) a) (connection_of a)))
      × (other_role (with_connection s a) a.client_index ≡ other_role s a.client_index)
unfolding with_connection
with_connection_roles s a = by_role a.client_index
  where
    by_role :
        (i : NatNegClientIndex)
        → (role (with_role s a i) i
            ≡ some (add_connection (client_or_new (role s i) a) (connection_of a)))
          × (other_role (with_role s a i) i ≡ other_role s i)
    by_role host = (refl, refl)
    by_role guest = (refl, refl)

-- After `register_client` the session of the cookie is the returned one, and every other session is
-- as before. The client of the role, new if need be, has the connection under its port type and is
-- marked as received; the client of the other role is as before; and the endpoint leads to the
-- session and the role.
pub register_client_lem :
    (m : NatNegSessionManager) (a : Registration) (now : ℕ)
    → let before = session_or_new (get m.sessions a.session_id) a now in
      let (m', s, scheduled) = register_client m a now in
      ((j : ℕ) → get m'.sessions j ≡ (if a.session_id == j then some s else get m.sessions j))
      × (role s a.client_index
          ≡ some (add_connection (client_or_new (role before a.client_index) a) (connection_of a)))
      × (other_role s a.client_index ≡ other_role before a.client_index)
      × (get m'.client_endpoints (a.public_ip, a.public_port) ≡ some (a.session_id, a.client_index))
unfolding register_client
register_client_lem m a now =
    let s = with_connection (session_or_new (get m.sessions a.session_id) a now) a in
    let m' = record m {
      client_endpoints =
          put m.client_endpoints (a.public_ip, a.public_port) (a.session_id, a.client_index);
    } in
    let settled = settle_roles m' a.session_id s a.client_index in
    let added = with_connection_roles (session_or_new (get m.sessions a.session_id) a now) a in
    (
      λ j. get-settle m' a.session_id s j,
      settled.0 ∙ added.0,
      settled.1 ∙ added.1,
      ap (λ (d : Dict (Text × ℕ) (ℕ × NatNegClientIndex)). get d (a.public_ip, a.public_port))
            (client_endpoints-settle m' a.session_id s)
          ∙ get-put m.client_endpoints (a.public_ip, a.public_port) (a.session_id, a.client_index)
              (a.public_ip, a.public_port)
          ∙ rw (==_refl {A = Text × ℕ} (a.public_ip, a.public_port)),
    )
