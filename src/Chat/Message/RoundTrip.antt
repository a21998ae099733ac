-- ===== src/Chat/Message/RoundTrip.antt =====
-- A message that is printed and parsed again.
use kirov_server_emulator.Chat.Message.{
  mark_last, parse_body, parse_parts, trailing, wire_params, IrcMessage, parse, parse_prefixed,
  serialize,
}
use kirov_server_emulator.Prelude.{
  All, List, Option, [], ap, arith, false, list_eq, nat_beq, nat_eq, none, option_eq, pair_eq, refl,
  some, sym, true, ℕ, ◌++◌, ◌∙◌, ◌∷◌, ◌≡◌,
}
use kirov_server_emulator.Prelude.Text.{Free, Text, codes, join}
use mathlib.Core.List.{append_assoc, append-nil}
use kirov_server_emulator.Prelude.Strings.{
  truthy, starts_with, is_whitespace, split_words, words, split_trailing, push_front,
  split_once-Free,
}

-- A text without white space.
abbrev pub IsWord : Text → Type 0
IsWord w = (truthy w ≡ true) × All (λ c. is_whitespace c ≡ false) w

-- A word that is no trailing parameter.
abbrev pub IsMiddle : Text → Type 0
IsMiddle w = IsWord w × (starts_with (codes ":") w ≡ false)

abbrev pub IsPrefix : Option Text → Type 0
IsPrefix none = Unit
IsPrefix (some p) = (truthy p ≡ true) × Free 32 p

-- The words, each behind a space.
unfoldable pub spaced : List Text → Text
spaced [] = []
spaced (w ∷ ws) = 32 ∷ w ++ spaced ws

join-spaced : (w : Text) (ws : List Text) → join 32 (w ∷ ws) ≡ w ++ spaced ws
unfolding join spaced
join-spaced w [] = sym (append-nil w)
join-spaced w (v ∷ ws) = ap (λ x. w ++ 32 ∷ x) (join-spaced v ws)

spaced-append : (ws vs : List Text) → spaced (ws ++ vs) ≡ spaced ws ++ spaced vs
unfolding spaced
spaced-append [] vs = refl
spaced-append (w ∷ ws) vs =
    ap (λ x. 32 ∷ w ++ x) (spaced-append ws vs)
    ∙ ap (◌∷◌ 32) (sym (append_assoc w (spaced ws) (spaced vs)))

Word-Free : (w : Text) → All (λ c. is_whitespace c ≡ false) w → Free 32 w
Word-Free [] h = tt
Word-Free (c ∷ w) h = (ground (arith, h.0), Word-Free w h.1)

abbrev prepend : Text → Option (Text × Text) → Option (Text × Text)
prepend w none = none
prepend w (some (a, b)) = some (w ++ a, b)

push-prepend :
    (c : ℕ) (w : Text) (o : Option (Text × Text)) → push_front c (prepend w o) ≡ prepend (c ∷ w) o
push-prepend c w none = refl
push-prepend c w (some (a, b)) = refl

prepend_nil : (o : Option (Text × Text)) → prepend [] o ≡ o
prepend_nil none = refl
prepend_nil (some (a, b)) = refl

split_trailing_skip :
    (c : ℕ) (s : Text)
    → nat_beq c 32 ≡ false
    → split_trailing (c ∷ s) ≡ push_front c (split_trailing s)
unfolding split_trailing
split_trailing_skip c [] h = refl
split_trailing_skip c (d ∷ s) h = rw h refl

split_trailing_word :
    (w x : Text) → Free 32 w → split_trailing (w ++ x) ≡ prepend w (split_trailing x)
split_trailing_word [] x h = sym (prepend_nil (split_trailing x))
split_trailing_word (c ∷ w) x h =
    split_trailing_skip c (w ++ x) h.0
    ∙ ap (push_front c) (split_trailing_word w x h.1)
    ∙ push-prepend c w (split_trailing x)

split_trailing_space :
    (c : ℕ) (s : Text)
    → nat_beq 58 c ≡ false
    → split_trailing (32 ∷ c ∷ s) ≡ push_front 32 (split_trailing (c ∷ s))
unfolding split_trailing
split_trailing_space c s h = ground (arith, h)

split_trailing-spaced :
    (ms : List Text) (last : Text)
    → All IsMiddle ms
    → split_trailing (spaced ms ++ 32 ∷ 58 ∷ last) ≡ some (spaced ms, last)
unfolding spaced split_trailing starts_with
split_trailing-spaced [] last h = refl
split_trailing-spaced ([] ∷ ms) last h = absurd (ground (arith, h.0.0.0))
split_trailing-spaced ((c ∷ w) ∷ ms) last h =
    let end = 32 ∷ 58 ∷ last in
    let colon : nat_beq 58 c ≡ false = ground (arith, h.0.1) in
    ap (λ x. split_trailing (32 ∷ x)) (append_assoc (c ∷ w) (spaced ms) end)
    ∙ split_trailing_space c (w ++ (spaced ms ++ end)) colon
    ∙ ap (push_front 32)
        (split_trailing_word (c ∷ w) (spaced ms ++ end) (Word-Free (c ∷ w) h.0.0.1))
    ∙ ap (λ o. push_front 32 (prepend (c ∷ w) o)) (split_trailing-spaced ms last h.1)

split_words-append :
    (w x : Text)
    → All (λ c. is_whitespace c ≡ false) w
    → split_words (w ++ x) ≡ (w ++ (split_words x).0, (split_words x).1)
unfolding split_words
split_words-append [] x h = refl
split_words-append (c ∷ w) x h = rw (h.0, split_words-append w x h.1) refl

split_words-spaced : (ms : List Text) → All IsWord ms → split_words (spaced ms) ≡ ([], ms)
unfolding split_words spaced
split_words-spaced [] h = refl
split_words-spaced ([] ∷ ms) h = absurd (ground (arith, h.0.0))
split_words-spaced ((c ∷ w) ∷ ms) h =
    rw (split_words-append (c ∷ w) (spaced ms) h.0.1, split_words-spaced ms h.1, append-nil w) refl

words-spaced :
    (w : Text) (ms : List Text) → IsWord w → All IsWord ms → words (w ++ spaced ms) ≡ w ∷ ms
unfolding words
words-spaced [] ms h k = absurd (ground (arith, h.0))
words-spaced (c ∷ w) ms h k =
    rw (split_words-append (c ∷ w) (spaced ms) h.1, split_words-spaced ms k, append-nil w) refl

mark_last-append :
    (q : Text) (qs : List Text) (last : Text)
    → mark_last q (qs ++ last ∷ []) ≡ (q ∷ qs) ++ trailing last ∷ []
unfolding mark_last
mark_last-append q [] last = refl
mark_last-append q (r ∷ qs) last = ap (◌∷◌ q) (mark_last-append r qs last)

wire_params-append :
    (command p : Text) (ms : List Text) (last : Text)
    → wire_params command (p ∷ (ms ++ last ∷ [])) ≡ (p ∷ ms) ++ trailing last ∷ []
unfolding wire_params mark_last
wire_params-append command p [] last = refl
wire_params-append command p (q ∷ ms) last = ap (◌∷◌ p) (mark_last-append q ms last)

-- What stands behind the prefix.
body : Text → List Text → Text → Text
body command ms last = command ++ (spaced ms ++ 32 ∷ 58 ∷ last)

split_trailing-body :
    (command : Text) (ms : List Text) (last : Text)
    → IsMiddle command
    → All IsMiddle ms
    → split_trailing (body command ms last) ≡ some (command ++ spaced ms, last)
unfolding body
split_trailing-body command ms last h k =
    split_trailing_word command (spaced ms ++ 32 ∷ 58 ∷ last) (Word-Free command h.0.1)
    ∙ ap (prepend command) (split_trailing-spaced ms last k)

All-Word : (ms : List Text) → All IsMiddle ms → All IsWord ms
All-Word [] h = tt
All-Word (m ∷ ms) h = (h.0.0, All-Word ms h.1)

parse_body-body :
    (prefix : Option Text) (command : Text) (ms : List Text) (last : Text)
    → IsMiddle command
    → All IsMiddle ms
    → parse_body prefix (body command ms last)
      ≡ record { command = command; params = ms ++ last ∷ []; prefix = prefix }
unfolding parse_body parse_parts
parse_body-body prefix command ms last h k =
    rw
      (
        parse_body,
        split_trailing-body command ms last h k,
        words-spaced command ms h.0 (All-Word ms k),
      )
      refl

last_spaced : (last : Text) → spaced (trailing last ∷ []) ≡ 32 ∷ 58 ∷ last
unfolding spaced
last_spaced last = ap (λ x. 32 ∷ 58 ∷ x) (append-nil last)

wire_body :
    (command p : Text) (ms : List Text) (last : Text)
    → join 32 (command ∷ wire_params command (p ∷ (ms ++ last ∷ []))) ≡ body command (p ∷ ms) last
unfolding body
wire_body command p ms last =
    ap (λ x. join 32 (command ∷ x)) (wire_params-append command p ms last)
    ∙ join-spaced command ((p ∷ ms) ++ trailing last ∷ [])
    ∙ ap (λ x. command ++ x)
        (spaced-append (p ∷ ms) (trailing last ∷ [])
          ∙ ap (λ x. spaced (p ∷ ms) ++ x) (last_spaced last))

parse-plain :
    (command rest : Text)
    → starts_with (codes ":") command ≡ false
    → truthy command ≡ true
    → parse (command ++ rest) ≡ some (parse_body none (command ++ rest))
unfolding parse starts_with
parse-plain [] rest h t = absurd (ground (arith, t))
parse-plain (c ∷ command) rest h t =
    let colon : nat_beq c 58 ≡ false = ground (arith, h) in rw colon refl

parse-prefixed : (p x : Text) → Free 32 p → parse (58 ∷ p ++ 32 ∷ x) ≡ some (parse_body (some p) x)
unfolding parse parse_prefixed
parse-prefixed p x h = rw (split_once-Free 32 p x h) refl

join-prefix :
    (p : Text) (command : Text) (rest : List Text)
    → join 32 (trailing p ∷ command ∷ rest) ≡ 58 ∷ p ++ 32 ∷ join 32 (command ∷ rest)
unfolding join
join-prefix p command rest = refl

-- Take a message of a command and two or more parameters. If the command and all parameters but the
-- last one are words that do not begin with a colon, and the prefix is absent or is not empty and
-- holds no space, then the message is parsed back from its line exactly as it was, whatever the
-- last parameter is.
pub parse-serialize :
    (prefix : Option Text) (command p : Text) (ms : List Text) (last : Text)
    → IsPrefix prefix
    → IsMiddle command
    → All IsMiddle (p ∷ ms)
    → let m : IrcMessage = record {
      command = command;
      params = p ∷ (ms ++ last ∷ []);
      prefix = prefix;
    } in
      parse (serialize m) ≡ some m
unfolding serialize body
parse-serialize none command p ms last hp hc hm =
    ap parse (wire_body command p ms last)
    ∙ parse-plain command (spaced (p ∷ ms) ++ 32 ∷ 58 ∷ last) hc.1 hc.0.0
    ∙ ap some (parse_body-body none command (p ∷ ms) last hc hm)
parse-serialize (some q) command p ms last hp hc hm = rw hp.0 (
    ap parse (join-prefix q command (wire_params command (p ∷ (ms ++ last ∷ []))))
    ∙ ap (λ x. parse (58 ∷ q ++ 32 ∷ x)) (wire_body command p ms last)
    ∙ parse-prefixed q (body command (p ∷ ms) last) hp.1
    ∙ ap some (parse_body-body (some q) command (p ∷ ms) last hc hm))
