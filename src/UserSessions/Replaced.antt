-- ===== src/UserSessions/Replaced.antt =====
-- A second connection of a persona whose first connection ends.
use kirov_server_emulator.Prelude.Dict.{get, get-put, get-remove, put, remove}
use kirov_server_emulator.Prelude.{
  ==_refl, Bool, Option, [], false, list_eq, nat_eq, none, option_eq, pair_eq, refl, some, true, ℕ,
  ◌==◌, ◌∷◌, ◌≡◌,
}
use kirov_server_emulator.Relay.Server.{second}
use kirov_server_emulator.UserSessions.{
  SessionManager, get_user_by_persona_id, is_user_online, register_user, send_to_persona,
  send_to_user, unregister_user,
}
use kirov_server_emulator.Prelude.Text.{Text}

-- When a persona has logged in again on a second connection and the first one ends, the persona is
-- offline and cannot be written to, although the second connection is still active. The two
-- connections have different session keys, and the persona is not 0.
pub unregister_user_replaced :
    (persona_of : ℕ → Option ℕ) (has_transport : ℕ → Bool) (m : SessionManager) (old new : Text)
    (p q i : ℕ) (message : Text)
    → (old == new) ≡ false
    → (new == old) ≡ false
    → persona_of p ≡ some i
    → persona_of q ≡ some i
    → (i == 0) ≡ false
    → let m' =
        unregister_user persona_of
          (register_user persona_of (register_user persona_of m old p) new q)
          old in
      (get_user_by_persona_id m' i ≡ none)
      × (is_user_online m' i ≡ false)
      × (send_to_persona has_transport m' i message ≡ (false, []))
      × (send_to_user m' new message ≡ (true, (q, message) ∷ []))
unfolding unregister_user register_user get_user_by_persona_id is_user_online send_to_persona
    send_to_user
unregister_user_replaced persona_of has_transport m old new p q i message apart apart' first second
      positive =
    let found : get (put (put m.active_users old p) new q) old ≡ some p =
      rw
        (
          get-put (put m.active_users old p) new q old,
          apart',
          get-put m.active_users old p old,
          ==_refl old,
        )
        refl in
    let gone : get (remove (put (put m.users_by_persona i p) i q) i) i ≡ none =
      rw (get-remove (put (put m.users_by_persona i p) i q) i i, ==_refl i) refl in
    let kept : get (remove (put (put m.active_users old p) new q) old) new ≡ some q =
      rw
        (
          get-remove (put (put m.active_users old p) new q) old new,
          apart,
          get-put (put m.active_users old p) new q new,
          ==_refl new,
        )
        refl in
    (
      rw (found, first, second, positive) gone,
      rw (found, first, second, positive, gone) refl,
      rw (found, first, second, positive, gone) refl,
      rw (found, kept) refl,
    )
