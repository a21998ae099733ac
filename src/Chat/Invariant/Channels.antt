-- ===== src/Chat/Invariant/Channels.antt =====
-- What `join_channel` and `part_channel` keep of a channel.
use kirov_server_emulator.Prelude.Text.{Text}
use kirov_server_emulator.Chat.Channels.{channel_or_new, enter, leave}
use kirov_server_emulator.Prelude.Dict.{All-get, Dict, get, get-put, get-remove, has}
use kirov_server_emulator.Prelude.{
  All, List, Option, Option-cases, [], add, arith, contains, contains-add, contains-discard, false,
  inl, inr, length, list_eq, nat_eq, option_beq_iff, option_eq, pair_eq, refl, true, ◌==◌, ◌∷◌, ◌≡◌,
  length-append,
}
use kirov_server_emulator.Chat.Types.{IrcChannel, is_private_name, new_channel}

-- Operators are members, every member has statistics and nobody else, and the channel has its name.
pub record IsSound (name : Text) (ch : IrcChannel) : Type 0 where
  pub named : ch.name ≡ name
  pub operators_in : (n : Option Text) → contains ch.operators n ≡ true → contains ch.users n ≡ true
  pub counted : (n : Option Text) → has ch.user_stats n ≡ contains ch.users n

-- A private channel in the list has a member.
abbrev pub IsListed : Text × IrcChannel → Type 0
IsListed (name, ch) =
    IsSound name ch × (is_private_name name ≡ true → (length ch.users == 0) ≡ false)

pub new_channel-IsSound : (name : Text) → IsSound name (new_channel name)
unfolding new_channel contains get
new_channel-IsSound name = record {
  named = refl;
  operators_in = λ n h. ground arith;
  counted = λ n. refl;
}

pub channel_or_new-IsSound :
    (d : Dict Text IrcChannel) (name : Text)
    → All IsListed d
    → IsSound name (channel_or_new (get d name) name)
channel_or_new-IsSound d name listed = elim (Option-cases (get d name)) [
  | inl missing ↦ rw missing (new_channel-IsSound name)
  | inr (ch, found) ↦ rw found (All-get IsListed d name ch listed found).0
]

occupied : (xs : List (Option Text)) (n : Option Text) → (length (add xs n) == 0) ≡ false
unfolding add contains
occupied [] n = refl
occupied (x ∷ xs) n = ground (arith, length-append (x ∷ xs) (n ∷ []))

pub enter-IsListed :
    (name : Text) (ch : IrcChannel) (n : Option Text)
    → IsSound name ch
    → IsListed (name, enter ch n)
unfolding enter
enter-IsListed name ch n sound = (
  record {
    named = sound.named;
    operators_in = λ m h.
        ground
          (arith, contains-add ch.users n m, contains-add ch.operators n m, sound.operators_in m);
    counted = λ m. ground (
      arith,
      contains-add ch.users n m,
      sound.counted m,
      sound.counted n,
      get-put ch.user_stats n [] m,
      option_beq_iff n m,
    );
  },
  λ private. occupied ch.users n,
)

pub leave-IsSound :
    (name : Text) (ch : IrcChannel) (n : Option Text) → IsSound name ch → IsSound name (leave ch n)
unfolding leave
leave-IsSound name ch n sound = record {
  named = sound.named;
  operators_in = λ m h. ground (
    arith,
    contains-discard ch.users n m,
    contains-discard ch.operators n m,
    sound.operators_in m,
  );
  counted = λ m.
      ground (arith, contains-discard ch.users n m, sound.counted m, get-remove ch.user_stats n m);
}
