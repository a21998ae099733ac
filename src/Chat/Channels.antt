-- ===== src/Chat/Channels.antt =====
-- `join_channel` and `part_channel` of app/models/peerchat_state.py.
pub mod Refinement
use kirov_server_emulator.Prelude.Text.{Text}
use kirov_server_emulator.Prelude.{
  Option, [], add, discard, if◌then◌else◌, length, list_eq, nat_eq, none, option_eq, pair_eq, some,
  ℕ, ◌&&◌, ◌==◌,
}
use kirov_server_emulator.Prelude.Dict.{get, has, put, remove}
use kirov_server_emulator.Chat.Types.{
  ChatServer, IrcChannel, nickname_of, user_of, is_private, new_channel, set_channel, set_user,
}

abbrev pub channel_or_new : Option IrcChannel → Text → IrcChannel
channel_or_new none name = new_channel name
channel_or_new (some ch) name = ch

-- A nickname enters a channel; whoever is alone in it becomes operator.
unfoldable pub enter : IrcChannel → Option Text → IrcChannel
enter ch nickname =
    let users = add ch.users nickname in
    record ch {
      users = users;
      operators = if length users == 1 then add ch.operators nickname else ch.operators;
      user_stats =
          if has ch.user_stats nickname then ch.user_stats else put ch.user_stats nickname [];
    }

unfoldable pub join_channel : ChatServer → ℕ → Text → ChatServer
unfolding enter new_channel
join_channel s c name =
    let ch = enter (channel_or_new (get s.irc_channels name) name) (nickname_of s c) in
    let u = user_of s c in
    set_user (set_channel s ch name) c (record u { channels = add u.channels name })

unfoldable pub leave : IrcChannel → Option Text → IrcChannel
leave ch nickname = record ch {
  users = discard ch.users nickname;
  operators = discard ch.operators nickname;
  user_stats = remove ch.user_stats nickname;
}

-- An empty private channel is deleted.
unfoldable pub keep_or_delete : ChatServer → IrcChannel → Text → ChatServer
unfolding is_private
keep_or_delete s ch name =
    if (length ch.users == 0) && is_private ch
    then record s { irc_channels = remove s.irc_channels name }
    else set_channel s ch name

unfoldable pub part_channel : ChatServer → ℕ → Text → ChatServer
unfolding leave keep_or_delete
part_channel s c name = elim (get s.irc_channels name) [
  | none ↦ s
  | some ch ↦
      let u = user_of s c in
      set_user (keep_or_delete s (leave ch (nickname_of s c)) name) c
        (record u { channels = discard u.channels name })
]
