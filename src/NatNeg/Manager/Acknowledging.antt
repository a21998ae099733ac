-- ===== src/NatNeg/Manager/Acknowledging.antt =====
-- `mark_connect_acked`.

use kirov_server_emulator.Prelude.Dict.{Dict, get, get-put, put, put-put}
use kirov_server_emulator.NatNeg.Client.{NatNegSession, NatNegClient}
use kirov_server_emulator.NatNeg.Manager.{
  NatNegSessionManager, acknowledge, complete, mark_connect_acked, get_session,
}
use kirov_server_emulator.Prelude.{
  ==_refl, Option-cases, arith, inl, inr, list_eq, nat_eq, option_eq, pair_eq, refl, some, ℕ, ◌∙◌,
  ◌≡◌, ap, none, sym, true,
}
use kirov_server_emulator.NatNeg.Header.{NatNegClientIndex, guest, host}

complete-acknowledge_both :
    (s : NatNegSession)
    → complete (acknowledge (complete (acknowledge s host)) guest)
      ≡ complete (acknowledge (complete (acknowledge s guest)) host)
unfolding complete acknowledge
complete-acknowledge_both s = elim (Option-cases s.host) [
  | inl hn ↦ elim (Option-cases s.guest) [
    | inl gn ↦ ground (arith, hn, gn)
    | inr (g, gs) ↦ ground (arith, hn, gs)
  ]
  | inr (h, hs) ↦ elim (Option-cases s.guest) [
    | inl gn ↦ ground (arith, hs, gn)
    | inr (g, gs) ↦ ground (arith, hs, gs)
  ]
]

mark_connect_acked_found :
    (m : NatNegSessionManager) (sid : ℕ) (i : NatNegClientIndex) (s : NatNegSession)
    → get m.sessions sid ≡ some s
    → mark_connect_acked m sid i
      ≡ record m { sessions = put m.sessions sid (complete (acknowledge s i)) }
unfolding mark_connect_acked
mark_connect_acked_found m sid i s found = rw (mark_connect_acked, found) refl

get-put_same : (d : Dict ℕ NatNegSession) (k : ℕ) (s : NatNegSession) → get (put d k s) k ≡ some s
get-put_same d k s = get-put d k s k ∙ rw (==_refl k) refl

mark_connect_acked_missing :
    (m : NatNegSessionManager) (sid : ℕ) (i : NatNegClientIndex)
    → get m.sessions sid ≡ none
    → mark_connect_acked m sid i ≡ m
unfolding mark_connect_acked
mark_connect_acked_missing m sid i missing = rw (mark_connect_acked, missing) refl

-- Both acknowledgements, on a session that is there.
mark_connect_acked_two :
    (m : NatNegSessionManager) (sid : ℕ) (i j : NatNegClientIndex) (s : NatNegSession)
    → get m.sessions sid ≡ some s
    → mark_connect_acked (mark_connect_acked m sid i) sid j ≡ record m {
      sessions = put m.sessions sid (complete (acknowledge (complete (acknowledge s i)) j));
    }
mark_connect_acked_two m sid i j s found =
    let first = complete (acknowledge s i) in
    let m' = record m { sessions = put m.sessions sid first } in
    ap (λ x. mark_connect_acked x sid j) (mark_connect_acked_found m sid i s found)
    ∙ mark_connect_acked_found m' sid j first (get-put_same m.sessions sid first)
    ∙ ap (λ d. record m { sessions = d })
        (put-put m.sessions sid first (complete (acknowledge first j)))

-- The acknowledgements of host and guest have the same result in either order.
pub mark_connect_acked_comm :
    (m : NatNegSessionManager) (sid : ℕ)
    → mark_connect_acked (mark_connect_acked m sid host) sid guest
      ≡ mark_connect_acked (mark_connect_acked m sid guest) sid host
mark_connect_acked_comm m sid = elim (Option-cases (get m.sessions sid)) [
  | inl missing ↦
      let gone = λ (i : NatNegClientIndex). mark_connect_acked_missing m sid i missing in
      ap (λ x. mark_connect_acked x sid guest) (gone host)
      ∙ gone guest
      ∙ sym (gone host)
      ∙ sym (ap (λ x. mark_connect_acked x sid host) (gone guest))
  | inr (s, found) ↦
      mark_connect_acked_two m sid host guest s found
      ∙ ap (λ x. record m { sessions = put m.sessions sid x }) (complete-acknowledge_both s)
      ∙ sym (mark_connect_acked_two m sid guest host s found)
]

completed-both :
    (s : NatNegSession) (h g : NatNegClient)
    → s.host ≡ some h
    → s.guest ≡ some g
    → (complete (acknowledge (complete (acknowledge s host)) guest)).completed ≡ true
unfolding complete acknowledge
completed-both s h g hs gs = ground (arith, hs, gs)

-- Once the host and the guest of a session have both acknowledged, the session is completed.
pub mark_connect_acked_completes :
    (m : NatNegSessionManager) (sid : ℕ) (s : NatNegSession) (h g : NatNegClient)
    → get m.sessions sid ≡ some s
    → s.host ≡ some h
    → s.guest ≡ some g
    → (s' : NatNegSession) × (get_session
          (mark_connect_acked (mark_connect_acked m sid host) sid guest)
          sid
        ≡ some s')
      × (s'.completed ≡ true)
unfolding get_session
mark_connect_acked_completes m sid s h g found hs gs =
    let s' = complete (acknowledge (complete (acknowledge s host)) guest) in
    (
      s',
      ap (λ (x : NatNegSessionManager). get x.sessions sid)
            (mark_connect_acked_two m sid host guest s found)
          ∙ get-put_same m.sessions sid s',
      completed-both s h g hs gs,
    )
