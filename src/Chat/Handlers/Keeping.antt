-- ===== src/Chat/Handlers/Keeping.antt =====
-- What a command does to the state, one step at a time: a property that each of these steps keeps is
-- kept by every command.
use kirov_server_emulator.Chat.Handlers.Registering.{
  assign_user, handle_cdkey-Ends, handle_nick-Ends, handle_pass-Ends, handle_user-Ends,
}
use kirov_server_emulator.Chat.Handlers.Steps.{Grown, IsKept}
use kirov_server_emulator.Chat.Channels.{join_channel, part_channel, channel_or_new, enter}
use kirov_server_emulator.Chat.Message.{IrcMessage}
use kirov_server_emulator.Chat.Handlers.Keys.{
  check_keys, handle_setckey, set_keys, store_keys, strip_backslash,
}
use kirov_server_emulator.Prelude.Text.{Text, codes, split}
use kirov_server_emulator.Chat.Sending.{broadcast_to_channel, done, seq}
use kirov_server_emulator.Chat.Handlers.Dispatch.{
  Command, cmd_cdkey, cmd_crypt, cmd_getckey, cmd_join, cmd_mode, cmd_names, cmd_nick, cmd_notice,
  cmd_part, cmd_pass, cmd_ping, cmd_pong, cmd_privmsg, cmd_quit, cmd_setckey, cmd_topic,
  cmd_unknown, cmd_user, cmd_usrip, cmd_utm, cmd_who, handle, run_command,
}
use kirov_server_emulator.Chat.Handlers.Queries.{disconnect, handle_pong, handle_quit}
use kirov_server_emulator.Chat.Handlers.Quiet.{
  handle_crypt-Ends, handle_getckey-Ends, handle_names-Ends, handle_notice-Ends, handle_ping-Ends,
  handle_privmsg-Ends, handle_usrip-Ends, handle_utm-Ends, handle_who-Ends, need_more_params-Ends,
  quit_each-Ends, send_names-Ends,
}
use kirov_server_emulator.Chat.Handlers.Modes.{channel_mode, handle_mode, set_modes, user_mode}
use kirov_server_emulator.Chat.Sending.States.{
  Ends, broadcast_to_channel-Ends, if-Ends, if_cases-Ends, match-Ends, send_numeric-Ends,
  send_numerics-Ends, seq-Ends, seq-Ends_of,
}
use kirov_server_emulator.Chat.Handlers.Registration.{Environment}
use kirov_server_emulator.Chat.Handlers.Membership.{
  announce_join, handle_join, handle_part, handle_topic, join_each, join_one, not_operator,
  set_topic, topic_of,
}
use kirov_server_emulator.Prelude.{
  List, [], arith, contains, false, list_eq, nat_eq, not, option_beq_iff, option_eq, pair_eq, refl,
  some, subst, sym, true, ℕ, ◌&&◌, ◌==◌, ◌∙◌, ◌∷◌, ◌≡◌,
}
use kirov_server_emulator.Prelude.Strings.{starts_with}
use kirov_server_emulator.Prelude.Dict.{get, get-put, has}
use kirov_server_emulator.Chat.Types.{
  ChatServer, IrcChannel, nickname_of, user_of, is_operator, is_private_name, set_channel,
  set_client, set_user,
}

join_channel-nickname :
    (s : ChatServer) (c : ℕ) (name : Text) → nickname_of (join_channel s c name) c ≡ nickname_of s c
unfolding join_channel set_user set_client set_channel
join_channel-nickname s c name = ground arith

join_channel-has :
    (s : ChatServer) (c : ℕ) (name other : Text)
    → has s.irc_channels other ≡ true
    → has (join_channel s c name).irc_channels other ≡ true
unfolding join_channel set_user set_client set_channel
join_channel-has s c name other there =
    let ch = enter (channel_or_new (get s.irc_channels name) name) (nickname_of s c) in
    ground (arith, get-put s.irc_channels name ch other, there)

module _ {ℓ} {P : ChatServer → Type ℓ} {s0 : ChatServer} {c : ℕ} (laws : IsKept P s0 c) where
  open laws use {start, assign, rename, enter_channel, leave_channel}

  -- The property, with the nickname of the client unchanged and no channel removed.
  Named : ChatServer → Type ℓ
  Named s = P s × (nickname_of s c ≡ nickname_of s0 c) × Grown s0 s

  join_one-Ends : (s : ChatServer) (name : Text) → Named s → Ends Named (join_one s c name)
  unfolding join_one announce_join Named
  join_one-Ends s name h =
      let entered = enter_channel s name h.1 h.2 h.0 in
      let same = join_channel-nickname s c name ∙ h.1 in
      let grown : Grown s0 (join_channel s c name) =
        λ other there. join_channel-has s c name other (h.2 other there) in
      if-Ends (starts_with (codes "#") name)
        (seq-Ends
          (broadcast_to_channel-Ends (join_channel s c name) c name _ false (entered, same, grown))
          λ t k. send_names-Ends t c name k)
        (send_numeric-Ends s c _ _ h)

  join_each-Ends : (s : ChatServer) (names : List Text) → Named s → Ends Named (join_each s c names)
  unfolding join_each
  join_each-Ends s [] h = record { holds = h }
  join_each-Ends s (name ∷ names) h =
      seq-Ends (join_one-Ends s name h) λ t k. join_each-Ends t names k

  handle_join-Ends : (ps : List Text) → Ends P (handle_join s0 c ps)
  unfolding handle_join Named
  handle_join-Ends [] = need_more_params-Ends s0 c _ start
  handle_join-Ends (names ∷ rest) = record {
    holds = (join_each-Ends s0 (split 44 names) (start, refl, λ other there. there)).holds.0;
  }

  part_named-Ends :
      (name : Text) (m : IrcMessage)
      → Ends P (seq (broadcast_to_channel s0 c name m false) (λ t. done (part_channel t c name)))
  unfolding Named
  part_named-Ends name m =
      seq-Ends_of (λ s h. h.0)
        (broadcast_to_channel-Ends {P = Named} s0 c name m false
          (start, refl, λ other there. there))
        λ t k. record { holds = leave_channel t name k.1 k.0 }

  handle_part-Ends : (ps : List Text) → Ends P (handle_part s0 c ps)
  unfolding handle_part
  handle_part-Ends [] = need_more_params-Ends s0 c _ start
  handle_part-Ends (name ∷ rest) =
      if-Ends (contains (user_of s0 c).channels name) (part_named-Ends name _)
        (send_numeric-Ends s0 c _ _ start)

  topic_of-Ends :
      (name : Text) (ch : IrcChannel) (ps : List Text)
      → get s0.irc_channels name ≡ some ch
      → Ends P (topic_of s0 c name ch ps)
  unfolding topic_of set_topic not_operator
  topic_of-Ends name ch [] found = send_numerics-Ends s0 c _ start
  topic_of-Ends name ch (t ∷ rest) found =
      if_cases-Ends (is_operator ch (nickname_of s0 c))
        (λ allowed. broadcast_to_channel-Ends _ c name _ false (laws.topic name ch t found allowed))
        λ refused. send_numeric-Ends s0 c _ _ start

  handle_topic-Ends : (ps : List Text) → Ends P (handle_topic s0 c ps)
  unfolding handle_topic
  handle_topic-Ends [] = need_more_params-Ends s0 c _ start
  handle_topic-Ends (name ∷ rest) =
      match-Ends (get s0.irc_channels name) (send_numerics-Ends s0 c _ start)
        λ ch found. topic_of-Ends name ch rest found

  channel_mode-Ends :
      (name : Text) (ch : IrcChannel) (ps : List Text)
      → get s0.irc_channels name ≡ some ch
      → Ends P (channel_mode s0 c name ch ps)
  unfolding channel_mode set_modes not_operator
  channel_mode-Ends name ch [] found = send_numeric-Ends s0 c _ _ start
  channel_mode-Ends name ch (changes ∷ params) found =
      if_cases-Ends (not (is_private_name name) && not (is_operator ch (nickname_of s0 c)))
        (λ refused. send_numeric-Ends s0 c _ _ start)
        λ allowed. record { holds = laws.modes name ch _ found (ground (arith, allowed)) }

  user_mode-Ends : (ps : List Text) → Ends P (user_mode s0 c ps)
  unfolding user_mode
  user_mode-Ends [] = send_numeric-Ends s0 c _ _ start
  user_mode-Ends (change ∷ rest) = record { holds = assign_user laws s0 _ refl start }

  handle_mode-Ends : (ps : List Text) → Ends P (handle_mode s0 c ps)
  unfolding handle_mode
  handle_mode-Ends [] = need_more_params-Ends s0 c _ start
  handle_mode-Ends (target ∷ rest) =
      if-Ends (starts_with (codes "#") target)
        (match-Ends (get s0.irc_channels target) (send_numerics-Ends s0 c _ start)
          λ ch found. channel_mode-Ends target ch rest found)
        (user_mode-Ends rest)

  check_keys-Ends :
      (name target k : Text) (ch : IrcChannel)
      → get s0.irc_channels name ≡ some ch
      → Ends P (check_keys s0 c name target k ch)
  unfolding check_keys set_keys
  check_keys-Ends name target k ch found =
      if_cases-Ends (not (some target == nickname_of s0 c))
        (λ foreign. send_numeric-Ends s0 c _ _ start)
        λ own.
          if_cases-Ends (not (contains ch.users (nickname_of s0 c)))
            (λ outside. send_numeric-Ends s0 c _ _ start)
            λ inside.
              let self : nickname_of s0 c ≡ some target =
                sym ((option_beq_iff (some target) (nickname_of s0 c)).0 (ground (arith, own))) in
              let kept = laws.keys name ch (strip_backslash k) found (ground (arith, inside)) in
              broadcast_to_channel-Ends _ c name _ false (
                subst (λ n. P (set_channel s0 (store_keys ch n (strip_backslash k)) name)) self
                  kept)

  handle_setckey-Ends : (ps : List Text) → Ends P (handle_setckey s0 c ps)
  unfolding handle_setckey
  handle_setckey-Ends [] = need_more_params-Ends s0 c _ start
  handle_setckey-Ends (a ∷ []) = need_more_params-Ends s0 c _ start
  handle_setckey-Ends (a ∷ b ∷ []) = need_more_params-Ends s0 c _ start
  handle_setckey-Ends (name ∷ target ∷ k ∷ rest) =
      match-Ends (get s0.irc_channels name) (send_numerics-Ends s0 c _ start)
        λ ch found. check_keys-Ends name target k ch found

  handle_pong-Ends : (env : Environment) → Ends P (handle_pong env s0 c)
  unfolding handle_pong
  handle_pong-Ends env = record { holds = assign s0 _ refl start }

  handle_quit-Ends : (ps : List Text) → Ends P (handle_quit s0 c ps)
  unfolding handle_quit disconnect
  handle_quit-Ends ps =
      seq-Ends (quit_each-Ends s0 c _ _ start) λ t k. record { holds = assign t _ refl k }

  run_command-Ends :
      (env : Environment) (command : Command) (text : Text) (ps : List Text)
      → Ends P (run_command env s0 c command text ps)
  unfolding run_command
  run_command-Ends env cmd_nick text ps = handle_nick-Ends laws env ps
  run_command-Ends env cmd_user text ps = handle_user-Ends laws env ps
  run_command-Ends env cmd_pass text ps = handle_pass-Ends laws ps
  run_command-Ends env cmd_join text ps = handle_join-Ends ps
  run_command-Ends env cmd_part text ps = handle_part-Ends ps
  run_command-Ends env cmd_topic text ps = handle_topic-Ends ps
  run_command-Ends env cmd_names text ps = handle_names-Ends s0 c ps start
  run_command-Ends env cmd_mode text ps = handle_mode-Ends ps
  run_command-Ends env cmd_privmsg text ps = handle_privmsg-Ends s0 c ps start
  run_command-Ends env cmd_notice text ps = handle_notice-Ends s0 c ps start
  run_command-Ends env cmd_ping text ps = handle_ping-Ends s0 c ps start
  run_command-Ends env cmd_pong text ps = handle_pong-Ends env
  run_command-Ends env cmd_quit text ps = handle_quit-Ends ps
  run_command-Ends env cmd_crypt text ps = handle_crypt-Ends env s0 c ps start
  run_command-Ends env cmd_cdkey text ps = handle_cdkey-Ends laws ps
  run_command-Ends env cmd_getckey text ps = handle_getckey-Ends s0 c ps start
  run_command-Ends env cmd_setckey text ps = handle_setckey-Ends ps
  run_command-Ends env cmd_utm text ps = handle_utm-Ends s0 c ps start
  run_command-Ends env cmd_usrip text ps = handle_usrip-Ends s0 c start
  run_command-Ends env cmd_who text ps = handle_who-Ends env s0 c ps start
  run_command-Ends env cmd_unknown text ps = send_numeric-Ends s0 c _ _ start

  pub handle-keeps : (env : Environment) (m : IrcMessage) → P (handle env s0 c m).0
  unfolding handle
  handle-keeps env m = (run_command-Ends env _ _ m.params).holds
