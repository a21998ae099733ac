-- ===== src/NatNeg/Manager/Scheduling.antt =====
-- How often `register_client` schedules the callback of a session.

use kirov_server_emulator.NatNeg.Header.{NatNegClientIndex, guest, host}
use kirov_server_emulator.Prelude.Dict.{get, get-put, put}
use kirov_server_emulator.NatNeg.Manager.Registering.{get-settle}
use kirov_server_emulator.NatNeg.Client.{NatNegSession, new_session}
use kirov_server_emulator.NatNeg.Manager.{
  NatNegSessionManager, Registration, acknowledge, complete, mark_connect_acked, register_client,
  session_or_new, settle, with_connection, with_role,
}
use kirov_server_emulator.Prelude.{
  ==_refl, Bool, Bool-cases, List, Option, Option-cases, [], ap, arith, false, if◌then◌else◌, inl,
  inr, list_eq, nat_eq, none, option_eq, pair_eq, refl, some, sym, true, ℕ, ◌&&◌, ◌+◌, ◌==◌, ◌∙◌,
  ◌∷◌, ◌≡◌, ◌≤◌,
}

-- CONNECT has been sent, or is about to be.
abbrev pub sent_flag : Option NatNegSession → Bool
sent_flag none = false
sent_flag (some s) = s.connect_sent

abbrev pub sent : NatNegSessionManager → ℕ → Bool
sent m sid = sent_flag (get m.sessions sid)

settle_sent :
    (m : NatNegSessionManager) (sid : ℕ) (s : NatNegSession)
    → ((settle m sid s).2 ≡ true
        → (s.connect_sent ≡ false) × ((settle m sid s).1.connect_sent ≡ true))
      × (s.connect_sent ≡ true → (settle m sid s).1.connect_sent ≡ true)
unfolding settle
settle_sent m sid s = (λ e. (ground arith, ground arith), λ e. ground arith)

connect_sent-with_connection :
    (s : NatNegSession) (a : Registration) → (with_connection s a).connect_sent ≡ s.connect_sent
unfolding with_connection
connect_sent-with_connection s a = by_role a.client_index
  where
    by_role : (i : NatNegClientIndex) → (with_role s a i).connect_sent ≡ s.connect_sent
    by_role host = refl
    by_role guest = refl

sent-session_or_new :
    (o : Option NatNegSession) (a : Registration) (now : ℕ)
    → (session_or_new o a now).connect_sent ≡ sent_flag o
unfolding new_session
sent-session_or_new none a now = refl
sent-session_or_new (some s) a now = refl

-- A registration that schedules the callback finds the session unsent and leaves it sent.
register_client-sent :
    (m : NatNegSessionManager) (a : Registration) (now : ℕ)
    → ((register_client m a now).2 ≡ true
        → (sent m a.session_id ≡ false) × (sent (register_client m a now).0 a.session_id ≡ true))
      × ((j : ℕ) → sent m j ≡ true → sent (register_client m a now).0 j ≡ true)
unfolding register_client
register_client-sent m a now =
    let before = session_or_new (get m.sessions a.session_id) a now in
    let s = with_connection before a in
    let m' = record m {
      client_endpoints =
          put m.client_endpoints (a.public_ip, a.public_port) (a.session_id, a.client_index);
    } in
    let flag = settle_sent m' a.session_id s in
    let kept = connect_sent-with_connection before a in
    let old = sent-session_or_new (get m.sessions a.session_id) a now in
    (
      λ e.
          let (p, q) = flag.0 e in
          (
            sym old ∙ sym kept ∙ p,
            rw (get-settle m' a.session_id s a.session_id, ==_refl a.session_id) q,
          ),
      λ j e. elim (Bool-cases (a.session_id == j)) [
        | inl hit ↦
            let same : a.session_id ≡ j = ground (arith, hit) in
            let was = kept ∙ old ∙ ap (sent m) same ∙ e in
            rw (get-settle m' a.session_id s j, hit) (flag.1 was)
        | inr miss ↦ rw (get-settle m' a.session_id s j, miss) e
      ],
    )

-- What clients make the manager do between two clean-ups.
pub data Event : Type 0 where
  registers : Registration → ℕ → Event
  acks : ℕ → NatNegClientIndex → Event

abbrev is_scheduled : ℕ → ℕ → Bool → ℕ
is_scheduled sid j scheduled = if (sid == j) && scheduled then 1 else 0

-- How often the callback of a session is scheduled.
unfoldable pub schedules : ℕ → NatNegSessionManager → List Event → ℕ
schedules sid m [] = 0
schedules sid m (registers a now ∷ es) =
    let (m', s, scheduled) = register_client m a now in
    is_scheduled sid a.session_id scheduled + schedules sid m' es
schedules sid m (acks j i ∷ es) = schedules sid (mark_connect_acked m j i) es

connect_sent-acknowledge :
    (s : NatNegSession) (i : NatNegClientIndex)
    → (complete (acknowledge s i)).connect_sent ≡ s.connect_sent
unfolding complete acknowledge
connect_sent-acknowledge s host = ground arith
connect_sent-acknowledge s guest = ground arith

sent-mark_connect_acked :
    (m : NatNegSessionManager) (j : ℕ) (i : NatNegClientIndex) (sid : ℕ)
    → sent (mark_connect_acked m j i) sid ≡ sent m sid
unfolding mark_connect_acked
sent-mark_connect_acked m j i sid = elim (Option-cases (get m.sessions j)) [
  | inl missing ↦ rw (mark_connect_acked, missing) refl
  | inr (s, found) ↦
      rw (mark_connect_acked, found, get-put m.sessions j (complete (acknowledge s i)) sid)
        (elim (Bool-cases (j == sid)) [
          | inl hit ↦
              let same : j ≡ sid = ground (arith, hit) in
              rw hit (
                connect_sent-acknowledge s i
                ∙ sym (ap sent_flag (ap (get m.sessions) (sym same) ∙ found)))
          | inr miss ↦ rw miss refl
        ])
]

schedules-sent :
    (sid : ℕ) (m : NatNegSessionManager) (es : List Event)
    → sent m sid ≡ true
    → schedules sid m es ≡ 0
unfolding schedules
schedules-sent sid m [] h = refl
schedules-sent sid m (registers a now ∷ es) h = ground (
  arith,
  schedules-sent sid (register_client m a now).0 es ((register_client-sent m a now).1 sid h),
  (register_client-sent m a now).0,
)
schedules-sent sid m (acks j i ∷ es) h =
    schedules-sent sid (mark_connect_acked m j i) es (sent-mark_connect_acked m j i sid ∙ h)

-- Whatever clients register and acknowledge, in any order, from any state of the manager: the
-- callback that sends CONNECT is scheduled at most once for a session.
pub schedules_once : (sid : ℕ) (m : NatNegSessionManager) (es : List Event) → schedules sid m es ≤ 1
unfolding schedules
schedules_once sid m [] = omega arith
schedules_once sid m (registers a now ∷ es) =
    elim (Bool-cases ((sid == a.session_id) && (register_client m a now).2)) [
      | inl go ↦ ground (
        arith,
        schedules-sent sid (register_client m a now).0 es,
        (register_client-sent m a now).0,
      )
      | inr stay ↦ ground (arith, schedules_once sid (register_client m a now).0 es)
    ]
schedules_once sid m (acks j i ∷ es) = schedules_once sid (mark_connect_acked m j i) es
