-- ===== src/Chat/Invariant/Membership.antt =====
-- Joining, parting and the end of a connection keep the chat server well-formed.
use kirov_server_emulator.Chat.Channels.Refinement.{keep_or_delete-connections}
use kirov_server_emulator.Prelude.Strings.{is_set}
use kirov_server_emulator.Chat.Connection.{cleanup_client, forget, part_all}
use kirov_server_emulator.Prelude.Dict.{All-get, All-remove, get, get-remove}
use kirov_server_emulator.Prelude.Text.{Text}
use kirov_server_emulator.Chat.Invariant.{
  IsWellFormed, set_channel-IsWellFormed, set_user-IsWellFormed,
}
use kirov_server_emulator.Chat.Invariant.Channels.{
  IsListed, IsSound, channel_or_new-IsSound, enter-IsListed, leave-IsSound,
}
use kirov_server_emulator.Chat.Channels.{
  channel_or_new, enter, join_channel, keep_or_delete, leave, part_channel,
}
use kirov_server_emulator.Prelude.{
  Bool-cases, List, Option, Option-cases, [], arith, inl, inr, length, list_eq, nat_eq, none,
  option_eq, pair_eq, refl, some, ℕ, ◌&&◌, ◌==◌, ◌∷◌, add, ap, discard, sym,
}
use kirov_server_emulator.Chat.Types.{
  ChatServer, IrcChannel, nickname_of, is_private, set_channel, set_user, user_of,
}

pub join_channel-IsWellFormed :
    (s : ChatServer) (c : ℕ) (name : Text) → IsWellFormed s → IsWellFormed (join_channel s c name)
unfolding join_channel set_user set_channel
join_channel-IsWellFormed s c name w =
    let nickname = nickname_of s c in
    let old = channel_or_new (get s.irc_channels name) name in
    let sound = channel_or_new-IsSound s.irc_channels name w.channels in
    let listed = enter-IsListed name old nickname sound in
    let kept = set_channel-IsWellFormed s (enter old nickname) name listed w in
    let u = user_of s c in
    set_user-IsWellFormed (set_channel s (enter old nickname) name) c
      (record u { channels = add u.channels name }) refl kept

keep_or_delete-IsWellFormed :
    (s : ChatServer) (ch : IrcChannel) (name : Text)
    → IsSound name ch
    → IsWellFormed s
    → IsWellFormed (keep_or_delete s ch name)
unfolding keep_or_delete is_private
keep_or_delete-IsWellFormed s ch name sound w =
    elim (Bool-cases ((length ch.users == 0) && is_private ch)) [
      | inl deleted ↦ rw deleted (record {
        channels = All-remove IsListed s.irc_channels name w.channels;
        clients = w.clients;
      })
      | inr kept ↦ rw kept (
          set_channel-IsWellFormed s ch name (sound, λ private. ground (arith, kept, sound.named))
            w)
    ]

pub part_channel-IsWellFormed :
    (s : ChatServer) (c : ℕ) (name : Text) → IsWellFormed s → IsWellFormed (part_channel s c name)
unfolding part_channel
part_channel-IsWellFormed s c name w = elim (Option-cases (get s.irc_channels name)) [
  | inl missing ↦ rw (part_channel, missing) w
  | inr (ch, found) ↦
      let gone = leave ch (nickname_of s c) in
      let sound = (All-get IsListed s.irc_channels name ch w.channels found).0 in
      let kept =
        keep_or_delete-IsWellFormed s gone name (leave-IsSound name ch (nickname_of s c) sound) w in
      let u = user_of s c in
      let same =
        ap (λ conns. (conns c).user.nickname) (sym (keep_or_delete-connections s gone name)) in
      rw (part_channel, found)
        (set_user-IsWellFormed (keep_or_delete s gone name) c
          (record u { channels = discard u.channels name }) same kept)
]

pub part_all-IsWellFormed :
    (s : ChatServer) (c : ℕ) (names : List Text)
    → IsWellFormed s
    → IsWellFormed (part_all s c names)
unfolding part_all
part_all-IsWellFormed s c [] w = w
part_all-IsWellFormed s c (name ∷ names) w =
    part_all-IsWellFormed (part_channel s c name) c names (part_channel-IsWellFormed s c name w)

forget-IsWellFormed :
    (s : ChatServer) (n : Option Text) → IsWellFormed s → IsWellFormed (forget s n)
forget-IsWellFormed s none w = w
forget-IsWellFormed s (some n) w = record {
  channels = w.channels;
  clients = λ m c found. w.clients m c (ground (arith, get-remove s.irc_clients n m, found));
}

pub cleanup_client-IsWellFormed :
    (s : ChatServer) (c : ℕ) → IsWellFormed s → IsWellFormed (cleanup_client s c)
unfolding cleanup_client
cleanup_client-IsWellFormed s c w = elim (Bool-cases (is_set (nickname_of s c))) [
  | inl named ↦
      rw named (
        forget-IsWellFormed _ (nickname_of s c)
          (part_all-IsWellFormed s c (user_of s c).channels w))
  | inr nameless ↦ rw nameless w
]
