-- ===== src/Tests/UserSessions.antt =====
-- The user sessions at concrete inputs.
use kirov_server_emulator.UserSessions.Replaced.{unregister_user_replaced}
use kirov_server_emulator.Prelude.{
  list_beq, Option, [], false, list_eq, nat_eq, none, option_eq, pair_eq, refl, some, true, ℕ, ◌∷◌,
  ◌≡◌,
}
use kirov_server_emulator.UserSessions.{
  register_user, get_user_by_persona_id, is_user_online, send_to_persona, send_to_user,
  unregister_user,
}
use kirov_server_emulator.Prelude.Text.{codes}

abbrev same_persona : ℕ → Option ℕ
same_persona p = some 5

unregister_user_replaced_example :
    let before =
      register_user same_persona
        (register_user same_persona
          (record { active_users = []; users_by_persona = [] })
          (codes "a")
          1)
        (codes "b")
        2 in
    let m' = unregister_user same_persona before (codes "a") in
    (get_user_by_persona_id m' 5 ≡ none)
    × (is_user_online m' 5 ≡ false)
    × (send_to_persona (λ p. true) m' 5 (codes "hi") ≡ (false, []))
    × (send_to_user m' (codes "b") (codes "hi") ≡ (true, (2, codes "hi") ∷ []))
unfolding list_beq
unregister_user_replaced_example =
    unregister_user_replaced same_persona (λ p. true)
      (record { active_users = []; users_by_persona = [] }) (codes "a") (codes "b") 1 2 5
      (codes "hi") refl refl refl refl refl
