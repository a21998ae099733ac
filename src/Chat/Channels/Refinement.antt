-- ===== src/Chat/Channels/Refinement.antt =====
-- Joining and parting as changes of a relation between channels and nicknames.
use kirov_server_emulator.Prelude.Text.{Text}
use kirov_server_emulator.Chat.Channels.{
  enter, join_channel, channel_or_new, keep_or_delete, leave, part_channel,
}
use kirov_server_emulator.Prelude.Dict.{get, Dict, get-put, get-remove, put, remove}
use kirov_server_emulator.Prelude.{
  Bool, Bool-cases, List, Option, [], contains, if◌then◌else◌, inl, inr, list_eq, nat_eq, none,
  option_eq, pair_eq, some, true, ℕ, ◌&&◌, ◌==◌, ◌≡◌, Option-cases, add, ap, arith, contains-add,
  contains-discard, false, length, list_beq_iff, refl, subst, ◌∙◌, ◌∷◌, not, ◌||◌,
}
use mathlib.Core.Path.{fun_ext}
use kirov_server_emulator.Chat.Types.{
  ChatServer, IrcChannel, nickname_of, set_channel, set_client, set_user, is_private, new_channel,
}

abbrev users_of : Option IrcChannel → List (Option Text)
users_of none = []
users_of (some ch) = ch.users

-- The nickname is a member of the channel; a channel that is not listed has no members.
unfoldable pub is_member : ChatServer → Text → Option Text → Bool
unfolding contains
is_member s name n = contains (users_of (get s.irc_channels name)) n

abbrev pub Relation : Type 0
Relation = Text → Option Text → Bool

-- A relation, changed at one pair.
abbrev pub update : Relation → Text → Option Text → Bool → Relation
update r name n b other m = if (name == other) && (n == m) then b else r other m

users_of-put :
    (d : Dict Text IrcChannel) (name : Text) (ch : IrcChannel) (other : Text)
    → users_of (get (put d name ch) other)
      ≡ (if name == other then ch.users else users_of (get d other))
users_of-put d name ch other = ground (arith, get-put d name ch other)

users_of-remove :
    (d : Dict Text IrcChannel) (name other : Text)
    → users_of (get (remove d name) other) ≡ (if name == other then [] else users_of (get d other))
users_of-remove d name other = ground (arith, get-remove d name other)

enter-users :
    (o : Option IrcChannel) (name : Text) (n : Option Text)
    → (enter (channel_or_new o name) n).users ≡ add (users_of o) n
unfolding enter new_channel
enter-users none name n = refl
enter-users (some ch) name n = refl

or_if : (b x : Bool) → (b || x) ≡ (if b then true else x)
or_if true x = refl
or_if false x = refl

and_if : (b x : Bool) → (not b && x) ≡ (if b then false else x)
and_if true x = refl
and_if false x = refl

contains_missing :
    (d : Dict Text IrcChannel) (name other : Text) (b : Bool) (m : Option Text)
    → get d name ≡ none
    → contains (users_of (get d other)) m
      ≡ (if (name == other) && b then false else contains (users_of (get d other)) m)
unfolding contains
contains_missing d name other b m missing = elim (Bool-cases (name == other)) [
  | inl same ↦
      let gone : get d other ≡ none =
        subst (λ x. get d x ≡ none) ((list_beq_iff name other).0 same) missing in
      rw (same, gone) (ground arith)
  | inr apart ↦ rw apart refl
]

-- A channel is put in place of another one, which has the same members but at one nickname.
contains-put :
    (d : Dict Text IrcChannel) (name other : Text) (ch : IrcChannel) (n m : Option Text) (b : Bool)
    → contains ch.users m ≡ (if n == m then b else contains (users_of (get d name)) m)
    → contains (users_of (get (put d name ch) other)) m
      ≡ (if (name == other) && (n == m) then b else contains (users_of (get d other)) m)
contains-put d name other ch n m b h = elim (Bool-cases (name == other)) [
  | inl same ↦
      let e : name ≡ other = (list_beq_iff name other).0 same in
      rw (users_of-put, same)
        (h ∙ ap (λ x. if n == m then b else contains (users_of (get d x)) m) e)
  | inr apart ↦ rw (users_of-put, apart) refl
]

-- A channel without members is removed.
contains-remove :
    (d : Dict Text IrcChannel) (name other : Text) (n m : Option Text)
    → ((n == m) ≡ false → contains (users_of (get d name)) m ≡ false)
    → contains (users_of (get (remove d name) other)) m
      ≡ (if (name == other) && (n == m) then false else contains (users_of (get d other)) m)
unfolding contains
contains-remove d name other n m h = elim (Bool-cases (name == other)) [
  | inl same ↦
      let e : name ≡ other = (list_beq_iff name other).0 same in
      let h' : (n == m) ≡ false → contains (users_of (get d other)) m ≡ false =
        subst (λ x. (n == m) ≡ false → contains (users_of (get d x)) m ≡ false) e h in
      rw (users_of-remove, same) (ground (arith, h'))
  | inr apart ↦ rw (users_of-remove, apart) refl
]

pub is_member-join_channel :
    (s : ChatServer) (c : ℕ) (name other : Text) (m : Option Text)
    → is_member (join_channel s c name) other m
      ≡ update (is_member s) name (nickname_of s c) true other m
unfolding is_member join_channel set_user set_client set_channel
is_member-join_channel s c name other m =
    let n = nickname_of s c in
    let old = users_of (get s.irc_channels name) in
    contains-put s.irc_channels name other (enter (channel_or_new (get s.irc_channels name) name) n)
      n m true
      (rw (enter-users (get s.irc_channels name) name n)
        (contains-add old n m ∙ or_if (n == m) (contains old m)))

empty_users :
    (xs : List (Option Text)) (m : Option Text) → (length xs == 0) ≡ true → contains xs m ≡ false
unfolding contains
empty_users [] m h = refl
empty_users (x ∷ xs) m h = absurd (ground (arith, h))

keep_or_delete_members :
    (s : ChatServer) (ch : IrcChannel) (name other : Text) (n m : Option Text)
    → contains ch.users m
      ≡ (if n == m then false else contains (users_of (get s.irc_channels name)) m)
    → is_member (keep_or_delete s ch name) other m ≡ update (is_member s) name n false other m
unfolding is_member keep_or_delete set_channel
keep_or_delete_members s ch name other n m h =
    elim (Bool-cases ((length ch.users == 0) && is_private ch)) [
      | inl deleted ↦
          rw (keep_or_delete, deleted)
            (contains-remove s.irc_channels name other n m
              λ apart. ground (arith, h, apart, empty_users ch.users m, deleted))
      | inr kept ↦ rw (keep_or_delete, kept) (contains-put s.irc_channels name other ch n m false h)
    ]

pub keep_or_delete-connections :
    (s : ChatServer) (ch : IrcChannel) (name : Text)
    → (keep_or_delete s ch name).connections ≡ s.connections
unfolding keep_or_delete set_channel
keep_or_delete-connections s ch name = ground arith

pub is_member-part_channel :
    (s : ChatServer) (c : ℕ) (name other : Text) (m : Option Text)
    → is_member (part_channel s c name) other m
      ≡ update (is_member s) name (nickname_of s c) false other m
unfolding is_member part_channel set_user set_client leave
is_member-part_channel s c name other m = elim (Option-cases (get s.irc_channels name)) [
  | inl missing ↦
      rw (part_channel, missing)
        (contains_missing s.irc_channels name other (nickname_of s c == m) m missing)
  | inr (ch, found) ↦
      rw (part_channel, found)
        (keep_or_delete_members s (leave ch (nickname_of s c)) name other (nickname_of s c) m (
          rw found (
            contains-discard ch.users (nickname_of s c) m
            ∙ and_if (nickname_of s c == m) (contains ch.users m))))
]

-- A client enters or leaves a channel.
pub data Move : Type 0 where
  joins : ℕ → Text → Move
  parts : ℕ → Text → Move

unfoldable pub run : List Move → ChatServer → ChatServer
run [] s = s
run (joins c name ∷ moves) s = run moves (join_channel s c name)
run (parts c name ∷ moves) s = run moves (part_channel s c name)

-- The same moves, on a relation.
unfoldable pub replay : (ℕ → Option Text) → List Move → Relation → Relation
replay nick [] r = r
replay nick (joins c name ∷ moves) r = replay nick moves (update r name (nick c) true)
replay nick (parts c name ∷ moves) r = replay nick moves (update r name (nick c) false)

pub nicknames-join_channel :
    (s : ChatServer) (c : ℕ) (name : Text) → nickname_of (join_channel s c name) ≡ nickname_of s
unfolding join_channel set_user set_client set_channel
nicknames-join_channel s c name = fun_ext λ d. ground arith

pub nicknames-part_channel :
    (s : ChatServer) (c : ℕ) (name : Text) → nickname_of (part_channel s c name) ≡ nickname_of s
unfolding part_channel set_user set_client
nicknames-part_channel s c name = fun_ext λ d. elim (Option-cases (get s.irc_channels name)) [
  | inl missing ↦ rw (part_channel, missing) refl
  | inr (ch, found) ↦
      rw (part_channel, found)
        (ground (
          arith,
          ap (λ f. (f d).user.nickname)
              (keep_or_delete-connections s (leave ch (nickname_of s c)) name),
        ))
]

-- Whatever clients enter and leave which channels, in whatever order: who is a member of which
-- channel afterwards is what the relation says when the same pairs are entered into it and taken
-- out of it. The relation knows nothing of the creation of channels, of operators and statistics,
-- or of the deletion of empty game lobbies.
pub run_refines :
    (moves : List Move) (s : ChatServer)
    → is_member (run moves s) ≡ replay (nickname_of s) moves (is_member s)
unfolding run replay
run_refines [] s = refl
run_refines (joins c name ∷ moves) s =
    let changed : is_member (join_channel s c name)
        ≡ update (is_member s) name (nickname_of s c) true =
      fun_ext λ other. fun_ext λ m. is_member-join_channel s c name other m in
    run_refines moves (join_channel s c name)
    ∙ ap (λ nick. replay nick moves (is_member (join_channel s c name)))
        (nicknames-join_channel s c name)
    ∙ ap (replay (nickname_of s) moves) changed
run_refines (parts c name ∷ moves) s =
    let changed : is_member (part_channel s c name)
        ≡ update (is_member s) name (nickname_of s c) false =
      fun_ext λ other. fun_ext λ m. is_member-part_channel s c name other m in
    run_refines moves (part_channel s c name)
    ∙ ap (λ nick. replay nick moves (is_member (part_channel s c name)))
        (nicknames-part_channel s c name)
    ∙ ap (replay (nickname_of s) moves) changed
