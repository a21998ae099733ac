-- ===== src/Chat/Handlers/Authority.antt =====
-- What a command of one client can change of a channel.
use kirov_server_emulator.Chat.Sending.{after}
use kirov_server_emulator.Chat.Message.{IrcMessage}
use kirov_server_emulator.Chat.Handlers.Dispatch.{handle}
use kirov_server_emulator.Chat.Handlers.Steps.{IsKept}
use kirov_server_emulator.Chat.Handlers.Keeping.{handle-keeps}
use kirov_server_emulator.Chat.Handlers.Registration.{set_nickname, Environment}
use kirov_server_emulator.Chat.Handlers.Keys.{store_keys}
use kirov_server_emulator.Prelude.Text.{Text}
use kirov_server_emulator.Prelude.Dict.{get, get-put, get-remove, has}
use kirov_server_emulator.Prelude.{
  Bool-cases, Option, Option-cases, ap, arith, inl, inr, list_beq_iff, list_eq, nat_eq, option_eq,
  pair_eq, some, subst, sym, true, ℕ, ◌==◌, ◌∙◌, ◌≡◌, length, ◌&&◌, ◌||◌,
}
use kirov_server_emulator.Chat.Channels.{
  channel_or_new, enter, join_channel, keep_or_delete, leave, part_channel,
}
use kirov_server_emulator.Chat.Types.{
  ChatServer, IrcChannel, nickname_of, is_operator, is_private, is_private_name, set_channel,
  set_client, set_user,
}
use kirov_server_emulator.Chat.Handlers.Respecting.{
  Respects, same_Respects, enter-Respects, leave-Respects, store_keys-Respects, topic-Respects,
  modes-Respects,
}

-- The channel, where it is still listed, respects the old one.
abbrev StillRespects : Text → Option Text → IrcChannel → ChatServer → Type 0
StillRespects name nickname old s =
    (new : IrcChannel) → get s.irc_channels name ≡ some new → Respects name nickname old new

module _ (name : Text) (nickname : Option Text) (old : IrcChannel) where
  -- One channel of the list is replaced.
  put-StillRespects :
      (s : ChatServer) (other : Text) (ch : IrcChannel)
      → ((name ≡ other) → Respects name nickname old ch)
      → StillRespects name nickname old s
      → StillRespects name nickname old (set_channel s ch other)
  unfolding set_channel
  put-StillRespects s other ch changed kept new found = elim (Bool-cases (other == name)) [
    | inl same ↦
        let e : ch ≡ new = ground (arith, get-put s.irc_channels other ch name, found, same) in
        subst (Respects name nickname old) e (changed (sym ((list_beq_iff other name).0 same)))
    | inr apart ↦ kept new (ground (arith, get-put s.irc_channels other ch name, found, apart))
  ]

  join_channel-StillRespects :
      (s : ChatServer) (c : ℕ) (other : Text)
      → nickname_of s c ≡ nickname
      → has s.irc_channels name ≡ true
      → StillRespects name nickname old s
      → StillRespects name nickname old (join_channel s c other)
  unfolding join_channel set_user set_client
  join_channel-StillRespects s c other same there kept =
      let ch = enter (channel_or_new (get s.irc_channels other) other) (nickname_of s c) in
      put-StillRespects s other ch
        (λ e. elim (Option-cases (get s.irc_channels other)) [
          | inl missing ↦ absurd (ground (arith, missing, there, ap (get s.irc_channels) e))
          | inr (mid, found) ↦
              rw (found, same)
                (enter-Respects name nickname old mid
                  (kept mid (ap (get s.irc_channels) e ∙ found)))
        ])
        kept

  keep_or_delete-StillRespects :
      (s : ChatServer) (ch : IrcChannel) (other : Text)
      → ((name ≡ other) → Respects name nickname old ch)
      → StillRespects name nickname old s
      → StillRespects name nickname old (keep_or_delete s ch other)
  unfolding keep_or_delete
  keep_or_delete-StillRespects s ch other changed kept =
      elim (Bool-cases ((length ch.users == 0) && is_private ch)) [
        | inl deleted ↦
            rw (keep_or_delete, deleted)
              λ new found. kept new (ground (arith, get-remove s.irc_channels other name, found))
        | inr stays ↦ rw (keep_or_delete, stays) (put-StillRespects s other ch changed kept)
      ]

  part_channel-StillRespects :
      (s : ChatServer) (c : ℕ) (other : Text)
      → nickname_of s c ≡ nickname
      → StillRespects name nickname old s
      → StillRespects name nickname old (part_channel s c other)
  unfolding part_channel set_user set_client
  part_channel-StillRespects s c other same kept = elim (Option-cases (get s.irc_channels other)) [
    | inl missing ↦ rw (part_channel, missing) kept
    | inr (mid, found) ↦
        rw (part_channel, found)
          (keep_or_delete-StillRespects s (leave mid (nickname_of s c)) other
            (λ e.
              rw same (
                leave-Respects name nickname old mid
                  (kept mid (ap (get s.irc_channels) e ∙ found))))
            kept)
  ]

set_nickname-StillRespects :
    (name : Text) (nickname : Option Text) (old : IrcChannel) (s : ChatServer) (c : ℕ) (n : Text)
    → StillRespects name nickname old s
    → StillRespects name nickname old (set_nickname s c n)
unfolding set_nickname set_user set_client
set_nickname-StillRespects name nickname old s c n kept = kept

module _ (s : ChatServer) (c : ℕ) (name : Text) (old : IrcChannel)
    (listed : get s.irc_channels name ≡ some old) where
  self_of :
      (other : Text) (ch : IrcChannel)
      → get s.irc_channels other ≡ some ch
      → name ≡ other
      → ch ≡ old
  self_of other ch found e = ground (arith, found, listed, ap (get s.irc_channels) e)

  Still : ChatServer → Type 0
  Still t = StillRespects name (nickname_of s c) old t

  Still-start : Still s
  unfolding Still
  Still-start new found =
      subst (Respects name (nickname_of s c) old) (ground (arith, found, listed))
        (same_Respects name (nickname_of s c) old)

  Still-IsKept : IsKept Still s c
  unfolding Still set_client
  Still-IsKept =
      let nickname = nickname_of s c in
      let same = same_Respects name nickname old in
      record {
        start = Still-start;
        assign = λ t client e kept. kept;
        rename = λ n good free. set_nickname-StillRespects name nickname old s c n Still-start;
        enter_channel = λ t other e grown kept.
            join_channel-StillRespects name nickname old t c other e
              (grown name (ground (arith, listed))) kept;
        leave_channel =
            λ t other e kept. part_channel-StillRespects name nickname old t c other e kept;
        topic = λ other ch t found allowed.
            put-StillRespects name nickname old s other _
              (λ e.
                let self = sym (self_of other ch found e) in
                let right = subst (λ x. is_operator x nickname ≡ true) (sym self) allowed in
                subst (λ x. Respects name nickname old (record x { topic = some t })) self
                  (topic-Respects name nickname old t right))
              Still-start;
        modes = λ other ch m found allowed.
            put-StillRespects name nickname old s other _
              (λ e.
                let self = sym (self_of other ch found e) in
                let right : (is_private_name name || is_operator old nickname) ≡ true =
                  ground (arith, allowed, self, e) in
                subst (λ x. Respects name nickname old (record x { modes = m })) self
                  (modes-Respects name nickname old m right))
              Still-start;
        keys = λ other ch k found member.
            put-StillRespects name nickname old s other _
              (λ e.
                subst (λ x. Respects name nickname old (store_keys x nickname k))
                  (sym (self_of other ch found e)) (store_keys-Respects name nickname old k))
              Still-start;
      }

-- Take a channel that is listed, and any command of any client. If the channel is still listed
-- afterwards, then everybody but the client is a member exactly if he was one, is an operator
-- exactly if he was one, and has the statistics that he had; the topic has changed only if the
-- client was an operator; and so have the modes, unless the channel is a game lobby.
pub handle-Respects :
    (env : Environment) (s : ChatServer) (c : ℕ) (m : IrcMessage) (name : Text)
    (old new : IrcChannel)
    → get s.irc_channels name ≡ some old
    → get (handle env s c m).0.irc_channels name ≡ some new
    → Respects name (nickname_of s c) old new
unfolding Still
handle-Respects env s c m name old new before after =
    handle-keeps (Still-IsKept s c name old before) env m new after
