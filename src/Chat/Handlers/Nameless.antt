-- ===== src/Chat/Handlers/Nameless.antt =====
-- Channels with a member that has no nickname.

use kirov_server_emulator.Prelude.Strings.{starts_with}
use kirov_server_emulator.Chat.Channels.Refinement.{nicknames-join_channel}
use kirov_server_emulator.Chat.Sending.{Outcome, broadcast_to_channel, raises, seq}
use kirov_server_emulator.Chat.Types.{
  ChatServer, IrcChannel, is_operator, nickname_of, set_channel, set_client, set_user,
}
use kirov_server_emulator.Prelude.Text.{Text, Free, codes, split-Free}
use kirov_server_emulator.Chat.Channels.{enter, join_channel}
use kirov_server_emulator.Prelude.Dict.{get, get-put}
use kirov_server_emulator.Chat.Handlers.Membership.{
  announce_join, names_of, send_names, send_names_of, handle_join, handle_names, join_each,
  join_one,
}
use kirov_server_emulator.Prelude.{
  option_beq, ==_refl, Bool-cases, List, Option, [], add, arith, contains, false, inl, inr, length,
  list_eq, nat_eq, none, option_eq, pair_eq, refl, some, true, ℕ, ◌==◌, ◌∷◌, ◌≡◌, ap, contains-add,
  ◌∙◌,
}

-- The channel is listed, and None is a member of it without being an operator.
abbrev HasNameless : ChatServer → Text → Type 0
HasNameless s name =
    (ch : IrcChannel) × (get s.irc_channels name ≡ some ch)
    × (contains ch.users none ≡ true)
    × (is_operator ch none ≡ false)

names_of-none :
    (ch : IrcChannel) (ns : List (Option Text))
    → contains ns none ≡ true
    → is_operator ch none ≡ false
    → names_of ch ns ≡ none
unfolding names_of contains option_beq
names_of-none ch [] h plain = absurd (ground (arith, h))
names_of-none ch (none ∷ ns) h plain = rw (names_of, plain) refl
names_of-none ch (some n ∷ ns) h plain =
    let rest : names_of ch ns ≡ none = names_of-none ch ns (ground (arith, h)) plain in
    elim (Bool-cases (is_operator ch (some n))) [
      | inl op ↦ rw (names_of, op, rest) refl
      | inr not_op ↦ rw (names_of, not_op, rest) refl
    ]

send_names-nameless :
    (s : ChatServer) (c : ℕ) (name : Text) → HasNameless s name → send_names s c name ≡ raises s
unfolding send_names send_names_of
send_names-nameless s c name (ch, found, member, plain) =
    rw (send_names, found, send_names_of, names_of-none ch ch.users member plain) refl

announce_join-nameless :
    (s : ChatServer) (c : ℕ) (name : Text)
    → HasNameless s name
    → ((announce_join s c name).state ≡ s) × ((announce_join s c name).raised ≡ true)
unfolding announce_join broadcast_to_channel seq
announce_join-nameless s c name (ch, found, member, plain) =
    rw
      (
        announce_join,
        broadcast_to_channel,
        found,
        send_names-nameless s c name (ch, found, member, plain),
      )
      (refl, refl)

-- With None and a nickname among them, the members are not one.
two_members :
    (ns : List (Option Text)) (k : Text)
    → contains ns none ≡ true
    → contains ns (some k) ≡ true
    → (length ns == 1) ≡ false
unfolding contains option_beq
two_members [] k h j = absurd (ground (arith, h))
two_members (none ∷ []) k h j = absurd (ground (arith, j))
two_members (some n ∷ []) k h j = absurd (ground (arith, h))
two_members (m ∷ n ∷ ns) k h j = ground arith

contains-add_self : (ns : List (Option Text)) (m : Option Text) → contains (add ns m) m ≡ true
contains-add_self ns m = ground (arith, contains-add ns m m, ==_refl m)

get-join_channel :
    (s : ChatServer) (c : ℕ) (name : Text) (ch : IrcChannel)
    → get s.irc_channels name ≡ some ch
    → get (join_channel s c name).irc_channels name ≡ some (enter ch (nickname_of s c))
unfolding join_channel set_channel set_user set_client
get-join_channel s c name ch found =
    rw (found, get-put s.irc_channels name (enter ch (nickname_of s c)) name, ==_refl name) refl

-- Whoever joins, None is a member afterwards and no operator, if None and a nickname are members then.
enter-nameless :
    (ch : IrcChannel) (m : Option Text) (k : Text)
    → is_operator ch none ≡ false
    → contains (add ch.users m) none ≡ true
    → contains (add ch.users m) (some k) ≡ true
    → (contains (enter ch m).users none ≡ true) × (is_operator (enter ch m) none ≡ false)
unfolding enter is_operator
enter-nameless ch m k plain nameless named =
    (nameless, rw (two_members (add ch.users m) k nameless named) plain)

module _ (s : ChatServer) (c : ℕ) (name k : Text) (ch : IrcChannel)
    (found : get s.irc_channels name ≡ some ch) (plain : is_operator ch none ≡ false) where
  join_channel-HasNameless :
      (m : Option Text)
      → nickname_of s c ≡ m
      → contains (add ch.users m) none ≡ true
      → contains (add ch.users m) (some k) ≡ true
      → HasNameless (join_channel s c name) name
  join_channel-HasNameless m e nameless named =
      let (member, still_plain) = enter-nameless ch m k plain nameless named in
      (
        enter ch m,
        get-join_channel s c name ch found ∙ ap (λ x. some (enter ch x)) e,
        member,
        still_plain,
      )

  -- A client without a nickname joins a channel with a named member.
  join_without_nickname :
      nickname_of s c ≡ none
      → contains ch.users (some k) ≡ true
      → HasNameless (join_channel s c name) name
  join_without_nickname e named =
      join_channel-HasNameless none e (contains-add_self ch.users none)
        (ground (arith, contains-add ch.users none (some k), named))

-- A client with a nickname joins a channel with such a member.
join_with_nickname :
    (s : ChatServer) (c : ℕ) (name n : Text)
    → HasNameless s name
    → nickname_of s c ≡ some n
    → HasNameless (join_channel s c name) name
join_with_nickname s c name n (ch, found, member, plain) e =
    join_channel-HasNameless s c name n ch found plain (some n) e
      (ground (arith, contains-add ch.users (some n) none, member))
      (contains-add_self ch.users (some n))

join_one-announce_join :
    (s : ChatServer) (c : ℕ) (name : Text)
    → starts_with (codes "#") name ≡ true
    → join_one s c name ≡ announce_join (join_channel s c name) c name
unfolding join_one
join_one-announce_join s c name hash = rw (join_one, hash) refl

-- What raises is not followed by anything.
seq_raised : (o : Outcome) (k : ChatServer → Outcome) → o.raised ≡ true → seq o k ≡ o
unfolding seq
seq_raised o k h = rw (seq, h) refl

handle_join-announce_join :
    (s : ChatServer) (c : ℕ) (name : Text)
    → starts_with (codes "#") name ≡ true
    → Free 44 name
    → HasNameless (join_channel s c name) name
    → ((handle_join s c (name ∷ [])).state ≡ join_channel s c name)
      × ((handle_join s c (name ∷ [])).raised ≡ true)
unfolding handle_join join_each
handle_join-announce_join s c name hash one h =
    let t = join_channel s c name in
    let (same, stops) = announce_join-nameless t c name h in
    let e = join_one-announce_join s c name hash in
    let all : handle_join s c (name ∷ []) ≡ announce_join t c name =
      rw (handle_join, split-Free 44 name one)
        (seq_raised (join_one s c name) _ (ap (λ (o : Outcome). o.raised) e ∙ stops) ∙ e) in
    (ap (λ (o : Outcome). o.state) all ∙ same, ap (λ (o : Outcome). o.raised) all ∙ stops)

-- A client that has sent no NICK can join a listed channel where somebody is a member under a nickname
-- and None is not an operator: None is a member afterwards. In that state NAMES of any client raises
-- and sends nothing, and JOIN of any client with a nickname raises, on this channel, whose name begins
-- with `#` and has no comma.
pub handle_join-nameless :
    (s : ChatServer) (c d : ℕ) (name k n : Text) (ch : IrcChannel)
    → starts_with (codes "#") name ≡ true
    → Free 44 name
    → get s.irc_channels name ≡ some ch
    → contains ch.users (some k) ≡ true
    → is_operator ch none ≡ false
    → nickname_of s c ≡ none
    → nickname_of s d ≡ some n
    → let joined = (handle_join s c (name ∷ [])).state in
      (get joined.irc_channels name ≡ some (enter ch none))
      × (contains (enter ch none).users none ≡ true)
      × ((e : ℕ) → handle_names joined e (name ∷ []) ≡ raises joined)
      × ((handle_join joined d (name ∷ [])).raised ≡ true)
unfolding handle_names
handle_join-nameless s c d name k n ch hash one found named plain e f =
    let t = join_channel s c name in
    let h : HasNameless t name = join_without_nickname s c name k ch found plain e named in
    let (same, _) = handle_join-announce_join s c name hash one h in
    let f' : nickname_of t d ≡ some n = ap (λ g. g d) (nicknames-join_channel s c name) ∙ f in
    rw same (
      get-join_channel s c name ch found ∙ ap (λ x. some (enter ch x)) e,
      (enter-nameless ch none k plain (contains-add_self ch.users none)
          (ground (arith, contains-add ch.users none (some k), named))).0,
      λ x. send_names-nameless t x name h,
      (handle_join-announce_join t d name hash one (join_with_nickname t d name n h f')).1,
    )
