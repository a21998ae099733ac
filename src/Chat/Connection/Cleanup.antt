-- ===== src/Chat/Connection/Cleanup.antt =====
-- What `cleanup_client` removes, and what it removes of another client.
use kirov_server_emulator.Prelude.Dict.{get, get-remove}
use kirov_server_emulator.Prelude.Text.{Text}
use kirov_server_emulator.Chat.Connection.{cleanup_client, part_all, forget}
use kirov_server_emulator.Chat.Channels.Refinement.{
  is_member, is_member-part_channel, nicknames-part_channel,
}
use kirov_server_emulator.Chat.Channels.{keep_or_delete, part_channel}
use kirov_server_emulator.Prelude.{
  List, Option, [], ap, arith, contains, false, if◌then◌else◌, list_eq, nat_eq, none, option_eq,
  pair_eq, refl, some, true, ℕ, ◌&&◌, ◌==◌, ◌∙◌, ◌∷◌, ◌≡◌,
}
use kirov_server_emulator.Prelude.Strings.{truthy}
use kirov_server_emulator.Chat.Types.{
  ChatServer, nickname_of, user_of, set_channel, set_client, set_user,
}

part_channel-clients :
    (s : ChatServer) (c : ℕ) (name : Text) → (part_channel s c name).irc_clients ≡ s.irc_clients
unfolding part_channel set_user set_client keep_or_delete set_channel
part_channel-clients s c name = ground arith

part_all-clients :
    (s : ChatServer) (c : ℕ) (names : List Text) → (part_all s c names).irc_clients ≡ s.irc_clients
unfolding part_all
part_all-clients s c [] = refl
part_all-clients s c (name ∷ names) =
    part_all-clients (part_channel s c name) c names ∙ part_channel-clients s c name

part_all-members :
    (s : ChatServer) (c : ℕ) (names : List Text) (other : Text) (m : Option Text)
    → is_member (part_all s c names) other m
      ≡ (if contains names other && (nickname_of s c == m) then false else is_member s other m)
unfolding part_all contains
part_all-members s c [] other m = refl
part_all-members s c (name ∷ names) other m =
    let t = part_channel s c name in
    let same = ap (λ f. f c) (nicknames-part_channel s c name) in
    ground
      (arith, part_all-members t c names other m, is_member-part_channel s c name other m, same)

cleanup_named :
    (s : ChatServer) (c : ℕ) (n : Text)
    → nickname_of s c ≡ some n
    → truthy n ≡ true
    → cleanup_client s c ≡ forget (part_all s c (user_of s c).channels) (some n)
unfolding cleanup_client
cleanup_named s c n named set_ = rw (named, set_) refl

-- The cleanup of a client with a nickname takes this nickname out of the list of clients and out of
-- every channel that the client has joined, and changes no other entry and no other membership.
pub cleanup_client_removes :
    (s : ChatServer) (c : ℕ) (n : Text)
    → nickname_of s c ≡ some n
    → truthy n ≡ true
    → let t = cleanup_client s c in
      ((m : Text) → get t.irc_clients m ≡ (if n == m then none else get s.irc_clients m))
      × ((name : Text) (m : Option Text)
          → is_member t name m ≡ (
              if contains (user_of s c).channels name && (some n == m)
              then false
              else is_member s name m))
unfolding is_member
cleanup_client_removes s c n named set_ =
    let names = (user_of s c).channels in
    rw (cleanup_named s c n named set_) (
      λ m.
          get-remove (part_all s c names).irc_clients n m
          ∙ ap (λ d. if n == m then none else get d m) (part_all-clients s c names),
      λ name m.
          part_all-members s c names name m
          ∙ ap (λ x. if contains names name && (x == m) then false else is_member s name m) named,
    )
