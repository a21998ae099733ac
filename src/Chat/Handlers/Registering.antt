-- ===== src/Chat/Handlers/Registering.antt =====
-- What the commands that a client registers with do to the state: PASS, NICK, USER and CDKEY keep
-- every property that the steps of a command keep.
use kirov_server_emulator.Chat.Handlers.Steps.{IsKept}
use kirov_server_emulator.Prelude.Text.{Text}
use kirov_server_emulator.Chat.Handlers.Quiet.{need_more_params-Ends}
use kirov_server_emulator.Chat.Sending.States.{
  Ends, if-Ends, if_cases-Ends, send_message-Ends, send_numeric-Ends, send_numerics-Ends, seq-Ends,
}
use kirov_server_emulator.Chat.Handlers.Registration.{
  Environment, authenticate, handle_cdkey, handle_nick, handle_pass, handle_user, in_use,
  ping_message, register_user, send_welcome, set_nickname, welcome_if_registered, with_username,
}
use kirov_server_emulator.Prelude.{
  List, [], arith, length, list_eq, ltb, nat_eq, not, option_eq, pair_eq, refl, ℕ, ◌&&◌, ◌||◌, ◌∷◌,
  ◌≡◌,
}
use kirov_server_emulator.Prelude.Strings.{truthy, is_set}
use kirov_server_emulator.Chat.Types.{
  ChatServer, IrcUser, nickname_of, user_of, is_registered, set_user,
}

module _ {ℓ} {P : ChatServer → Type ℓ} {s0 : ChatServer} {c : ℕ} (laws : IsKept P s0 c) where
  open laws use {start, assign, rename, enter_channel, leave_channel}

  pub assign_user :
      (s : ChatServer) (u : IrcUser) → u.nickname ≡ nickname_of s c → P s → P (set_user s c u)
  unfolding set_user
  assign_user s u same h = assign s (record (s.connections c) { user = u }) same h

  pub handle_pass-Ends : (ps : List Text) → Ends P (handle_pass s0 c ps)
  unfolding handle_pass
  handle_pass-Ends [] = need_more_params-Ends s0 c _ start
  handle_pass-Ends (token ∷ rest) = record { holds = assign_user s0 _ refl start }

  welcome_if_registered-Ends :
      (env : Environment) (s : ChatServer) → P s → Ends P (welcome_if_registered env s c)
  unfolding welcome_if_registered send_welcome authenticate
  welcome_if_registered-Ends env s h =
      if-Ends (is_registered (user_of s c) && not (user_of s c).authenticated)
        (seq-Ends (send_numerics-Ends s c _ h) λ t k. record { holds = assign_user t _ refl k })
        (record { holds = h })

  pub handle_nick-Ends : (env : Environment) (ps : List Text) → Ends P (handle_nick env s0 c ps)
  unfolding handle_nick
  handle_nick-Ends env [] = send_numeric-Ends s0 c _ _ start
  handle_nick-Ends env (n ∷ rest) =
      if_cases-Ends (not (truthy n) || ltb 30 (length n)) (λ bad. send_numeric-Ends s0 c _ _ start)
        λ good.
          if_cases-Ends (in_use s0 c n) (λ taken. send_numeric-Ends s0 c _ _ start)
            λ free.
              welcome_if_registered-Ends env (set_nickname s0 c n)
                (rename n (ground (arith, good)) free)

  register_user-Ends :
      (env : Environment) (username realname : Text)
      → Ends P (register_user env s0 c username realname)
  unfolding register_user with_username
  register_user-Ends env username realname =
      if-Ends (is_set (user_of s0 c).username) (send_numeric-Ends s0 c _ _ start)
        (welcome_if_registered-Ends env _ (assign_user s0 _ refl start))

  pub handle_user-Ends : (env : Environment) (ps : List Text) → Ends P (handle_user env s0 c ps)
  unfolding handle_user
  handle_user-Ends env [] = need_more_params-Ends s0 c _ start
  handle_user-Ends env (a ∷ []) = need_more_params-Ends s0 c _ start
  handle_user-Ends env (a ∷ b ∷ []) = need_more_params-Ends s0 c _ start
  handle_user-Ends env (a ∷ b ∷ d ∷ []) = need_more_params-Ends s0 c _ start
  handle_user-Ends env (a ∷ b ∷ d ∷ e ∷ rest) = register_user-Ends env a e

  pub handle_cdkey-Ends : (ps : List Text) → Ends P (handle_cdkey s0 c ps)
  unfolding handle_cdkey
  handle_cdkey-Ends [] = need_more_params-Ends s0 c _ start
  handle_cdkey-Ends (hash ∷ rest) =
      seq-Ends (send_numeric-Ends _ c _ _ (assign_user s0 _ refl start))
        λ t k. send_message-Ends t c ping_message k
