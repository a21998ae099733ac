-- ===== src/Prelude/Strings.antt =====
-- More of the operations on `str`: words, prefixes, one split, and the truth of optional texts.
use mathlib.Core.Path.{refl, ◌≡◌}
use Prim.Native.Nat.{ℕ, ◌-◌}
use kirov_server_emulator.Prelude.Tests.{if◌then◌else◌, leb, nat_beq, nat_beq_iff}
use mathlib.Core.Option.{Option, none, some}
use mathlib.Core.Bool.{Bool, false, true, ◌&&◌, ◌||◌}
use mathlib.Core.List.{List, [], map, ◌∷◌, ◌++◌}
use kirov_server_emulator.Prelude.Text.{Text, codes, Free}

-- str.isspace() of one character
abbrev pub is_whitespace : ℕ → Bool
is_whitespace c =
    nat_beq c 32
    || (leb 9 c && leb c 13)
    || (leb 28 c && leb c 31)
    || nat_beq c 133
    || nat_beq c 160
    || nat_beq c 5760
    || (leb 8192 c && leb c 8202)
    || (leb 8232 c && leb c 8233)
    || nat_beq c 8239
    || nat_beq c 8287
    || nat_beq c 12288

abbrev pub cons_word : Text → List Text → List Text
cons_word [] ws = ws
cons_word (c ∷ w) ws = (c ∷ w) ∷ ws

-- The characters up to the first white space, and the words behind them.
unfoldable pub split_words : Text → Text × List Text
split_words [] = ([], [])
split_words (c ∷ s) =
    let (w, ws) = split_words s in if is_whitespace c then ([], cons_word w ws) else (c ∷ w, ws)

-- s.split()
unfoldable pub words : Text → List Text
unfolding split_words
words s = let (w, ws) = split_words s in cons_word w ws

unfoldable pub skip_whitespace : Text → Text
skip_whitespace [] = []
skip_whitespace (c ∷ s) = let rest = skip_whitespace s in if is_whitespace c then rest else c ∷ s

abbrev pub keep_end : ℕ → Text → Text
keep_end c [] = if is_whitespace c then [] else c ∷ []
keep_end c (d ∷ s) = c ∷ d ∷ s

unfoldable pub skip_end : Text → Text
skip_end [] = []
skip_end (c ∷ s) = keep_end c (skip_end s)

-- s.strip()
unfoldable pub strip : Text → Text
unfolding skip_whitespace skip_end
strip s = skip_end (skip_whitespace s)

-- s.startswith(p)
unfoldable pub starts_with : Text → Text → Bool
starts_with [] s = true
starts_with (c ∷ p) [] = false
starts_with (c ∷ p) (d ∷ s) = nat_beq c d && starts_with p s

abbrev pub push_front : ℕ → Option (Text × Text) → Option (Text × Text)
push_front c none = none
push_front c (some (a, b)) = some (c ∷ a, b)

-- s.split(sep, 1), for a separator of one character; `none` where it does not occur
unfoldable pub split_once : ℕ → Text → Option (Text × Text)
split_once sep [] = none
split_once sep (c ∷ s) =
    let rest = split_once sep s in if nat_beq c sep then some ([], s) else push_front c rest

-- s.split(" :", 1), in the same way
unfoldable pub split_trailing : Text → Option (Text × Text)
split_trailing [] = none
split_trailing (c ∷ []) = none
split_trailing (c ∷ d ∷ s) =
    let rest = split_trailing (d ∷ s) in
    if nat_beq c 32 && nat_beq d 58 then some ([], s) else push_front c rest

-- s.upper(), on ASCII text
abbrev pub upper_char : ℕ → ℕ
upper_char c = if leb 97 c && leb c 122 then c - 32 else c

unfoldable pub upper : Text → Text
upper = map upper_char

-- bool(s), for a text and for an optional text
abbrev pub truthy : Text → Bool
truthy [] = false
truthy (c ∷ s) = true

abbrev pub is_set : Option Text → Bool
is_set none = false
is_set (some s) = truthy s

abbrev pub text_or : Text → Text → Text
text_or [] d = d
text_or (c ∷ s) d = c ∷ s

-- s or d
abbrev pub or_else : Option Text → Text → Text
or_else none d = d
or_else (some s) d = text_or s d

-- str(s), as in an f-string
abbrev pub shown : Option Text → Text
shown none = codes "None"
shown (some s) = s

pub split_once-Free :
    (sep : ℕ) (p s : Text) → Free sep p → split_once sep (p ++ sep ∷ s) ≡ some (p, s)
unfolding split_once
split_once-Free sep [] s h = rw ((nat_beq_iff sep sep).1 refl)
split_once-Free sep (c ∷ p) s h = rw (h.0, split_once-Free sep p s h.1)
