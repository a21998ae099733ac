-- ===== src/NatNeg/Manager/Expiry.antt =====
-- The removal of sessions, and what it leaves of their endpoints.

use kirov_server_emulator.NatNeg.Header.{NatNegClientIndex}
use kirov_server_emulator.Prelude.Text.{Text}
use kirov_server_emulator.Prelude.Dict.{Dict, Distinct, get, get-remove}
use kirov_server_emulator.NatNeg.Client.{NatNegSession, NatNegClient, get_best_connection}
use kirov_server_emulator.NatNeg.Manager.{
  NatNegSessionManager, cleanup_expired_sessions, expired_ids, is_expired, remove_session,
  remove_sessions, drop_endpoint,
}
use kirov_server_emulator.Prelude.{
  Bool-cases, List, Option, Option-cases, [], ap, arith, contains, false, if◌then◌else◌, inl, inr,
  list_eq, nat_eq, none, option_eq, pair_eq, refl, some, sym, ℕ, ◌==◌, ◌∙◌, ◌∷◌, ◌≡◌, option_beq,
  ◌||◌,
}

get-remove_session :
    (m : NatNegSessionManager) (sid j : ℕ)
    → get (remove_session m sid).sessions j ≡ (if sid == j then none else get m.sessions j)
unfolding remove_session
get-remove_session m sid j = elim (Option-cases (get m.sessions sid)) [
  | inl missing ↦ elim (Bool-cases (sid == j)) [
    | inl hit ↦
        let same : sid ≡ j = ground (arith, hit) in
        rw (remove_session, missing, hit) (ap (get m.sessions) (sym same) ∙ missing)
    | inr miss ↦ rw (remove_session, missing, miss) refl
  ]
  | inr (s, found) ↦ rw (remove_session, found) (get-remove m.sessions sid j)
]

get-remove_sessions :
    (m : NatNegSessionManager) (sids : List ℕ) (j : ℕ)
    → get (remove_sessions m sids).sessions j ≡ (if contains sids j then none else get m.sessions j)
unfolding remove_sessions contains
get-remove_sessions m [] j = refl
get-remove_sessions m (sid ∷ sids) j =
    ground (arith, get-remove_sessions (remove_session m sid) sids j, get-remove_session m sid j)

-- What a clean-up keeps of a session.
abbrev pub unexpired : ℕ → Option NatNegSession → Option NatNegSession
unexpired now none = none
unexpired now (some s) = if is_expired s now then none else some s

expired_ids_absent :
    (d : Dict ℕ NatNegSession) (now j : ℕ) → get d j ≡ none → contains (expired_ids d now) j ≡ false
unfolding expired_ids contains get
expired_ids_absent [] now j h = refl
expired_ids_absent ((sid, s) ∷ d) now j h = ground (arith, expired_ids_absent d now j)

keep_unexpired :
    (d : Dict ℕ NatNegSession) (now j : ℕ)
    → Distinct d
    → (if contains (expired_ids d now) j then none else get d j) ≡ unexpired now (get d j)
unfolding expired_ids contains get
keep_unexpired [] now j h = refl
keep_unexpired ((sid, s) ∷ d) now j h =
    ground
      (arith, keep_unexpired d now j h.1, expired_ids_absent d now j, expired_ids_absent d now sid)

-- A clean-up removes exactly the sessions that are older than 30 seconds and not completed; it
-- changes no other session.
pub get-cleanup_expired_sessions :
    (m : NatNegSessionManager) (now : ℕ)
    → Distinct m.sessions
    → (j : ℕ) → get (cleanup_expired_sessions m now).sessions j ≡ unexpired now (get m.sessions j)
unfolding cleanup_expired_sessions
get-cleanup_expired_sessions m now d j =
    get-remove_sessions m (expired_ids m.sessions now) j ∙ keep_unexpired m.sessions now j d

-- The address of the best connection of a client.
abbrev pub best_endpoint : Option NatNegClient → Option (Text × ℕ)
best_endpoint none = none
best_endpoint (some c) = elim (get_best_connection c) [
  | none ↦ none
  | some conn ↦ some (conn.public_ip, conn.public_port)
]

get-drop_endpoint :
    (d : Dict (Text × ℕ) (ℕ × NatNegClientIndex)) (o : Option NatNegClient) (e : Text × ℕ)
    → get (drop_endpoint d o) e ≡ (if best_endpoint o == some e then none else get d e)
unfolding option_beq
get-drop_endpoint d none e = refl
get-drop_endpoint d (some c) e = elim (Option-cases (get_best_connection c)) [
  | inl missing ↦ rw (drop_endpoint, best_endpoint, missing) refl
  | inr (conn, best) ↦
      rw (drop_endpoint, best_endpoint, best) (get-remove d (conn.public_ip, conn.public_port) e)
]

-- Removing a session forgets the endpoint of the best connection of its host and of its guest, and
-- keeps every other endpoint, those of their other connections included.
pub get-remove_session_endpoints :
    (m : NatNegSessionManager) (sid : ℕ) (s : NatNegSession) (e : Text × ℕ)
    → get m.sessions sid ≡ some s
    → get (remove_session m sid).client_endpoints e ≡ (
        if (best_endpoint s.guest == some e) || (best_endpoint s.host == some e)
        then none
        else get m.client_endpoints e)
unfolding remove_session
get-remove_session_endpoints m sid s e found =
    rw (remove_session, found)
      (get-drop_endpoint (drop_endpoint m.client_endpoints s.host) s.guest e
        ∙ ground (arith, get-drop_endpoint m.client_endpoints s.host e))
