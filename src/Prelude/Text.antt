-- ===== src/Prelude/Text.antt =====
-- The operations on `str` that the program uses, on texts as lists of code points.
use Prim.Native.Char.{code}
use Prim.Native.String.{String}
use Prim.Native.Nat.{ℕ, zero, suc, ◌+◌, ◌-◌, ◌*◌, ◌/◌, ◌%◌}
use mathlib.Core.Path.{◌≡◌, refl, ap, ◌∙◌}
use mathlib.Core.Bool.{Bool, true, false, ◌&&◌, ◌||◌}
use mathlib.Core.List.{List, [], ◌∷◌, ◌++◌}
use mathlib.Core.Option.{Option, none, some}
use kirov_server_emulator.Prelude.Tests.{leb, ltb, nat_beq, nat_beq_iff, if◌then◌else◌}
use kirov_server_emulator.Prelude.Lists.{All}

abbrev pub Text : Type 0
Text = List ℕ

abbrev pub codes : String → Text
codes String.[] = []
codes (String.◌∷◌ c s) = code c ∷ codes s

-- The first part goes in front of the parts that were found behind it.
abbrev push_char : ℕ → List Text → List Text
push_char c [] = (c ∷ []) ∷ []
push_char c (p ∷ ps) = (c ∷ p) ∷ ps

-- s.split(sep), for a separator of one character
unfoldable pub split : ℕ → Text → List Text
split sep [] = [] ∷ []
split sep (c ∷ s) = let rest = split sep s in if nat_beq c sep then [] ∷ rest else push_char c rest

-- sep.join(parts), for a separator of one character
unfoldable pub join : ℕ → List Text → Text
join sep [] = []
join sep (p ∷ []) = p
join sep (p ∷ q ∷ ps) = p ++ sep ∷ join sep (q ∷ ps)

-- The part holds no separator.
abbrev pub Free : ℕ → Text → Type 0
Free sep = All (λ c. nat_beq c sep ≡ false)

pub split-Free : (sep : ℕ) (p : Text) → Free sep p → split sep p ≡ p ∷ []
unfolding split
split-Free sep [] h = refl
split-Free sep (c ∷ p) h = rw (h.0, split-Free sep p h.1)

pub split-append : (sep : ℕ) (p s : Text) → Free sep p → split sep (p ++ sep ∷ s) ≡ p ∷ split sep s
unfolding split
split-append sep [] s h = rw ((nat_beq_iff sep sep).1 refl)
split-append sep (c ∷ p) s h = rw (h.0, split-append sep p s h.1)

-- Splitting a joined text gives the parts back.
pub split-join :
    (sep : ℕ) (p : Text) (ps : List Text)
    → All (Free sep) (p ∷ ps)
    → split sep (join sep (p ∷ ps)) ≡ p ∷ ps
unfolding join
split-join sep p [] h = split-Free sep p h.0
split-join sep p (q ∷ ps) h =
    split-append sep p (join sep (q ∷ ps)) h.0 ∙ ap (◌∷◌ p) (split-join sep q ps h.1)

-- str(n)
decimal_fuel : ℕ → ℕ → Text → Text
decimal_fuel zero n out = out
decimal_fuel (suc f) n out =
    let rest = decimal_fuel f (n / 10) ((48 + n % 10) ∷ out) in
    if ltb n 10 then (48 + n) ∷ out else rest

unfoldable pub decimal : ℕ → Text
unfolding decimal_fuel
decimal n = decimal_fuel (suc n) n []

-- The characters that `int` strips off.
abbrev is_space : ℕ → Bool
is_space c = nat_beq c 32 || (leb 9 c && leb c 13) || (leb 28 c && leb c 31)

lstrip : Text → Text
lstrip [] = []
lstrip (c ∷ s) = let rest = lstrip s in if is_space c then rest else c ∷ s

abbrev drop_space : ℕ → Text → Text
drop_space c [] = if is_space c then [] else c ∷ []
drop_space c (d ∷ s) = c ∷ d ∷ s

rstrip : Text → Text
rstrip [] = []
rstrip (c ∷ s) = drop_space c (rstrip s)

abbrev is_digit : ℕ → Bool
is_digit c = leb 48 c && leb c 57

-- The digits of `int`, with single underscores between them.
digits_value : ℕ → Bool → Text → Option ℕ
digits_value acc after_digit [] = if after_digit then some acc else none
digits_value acc after_digit (c ∷ s) =
    let rest = digits_value (if is_digit c then acc * 10 + (c - 48) else acc) (is_digit c) s in
    if is_digit c || (nat_beq c b'_' && after_digit) then rest else none

-- An integer with its sign: `true` for a minus sign.
abbrev negate : Option ℕ → Option (Bool × ℕ)
negate none = none
negate (some n) = some (true, n)

abbrev plain : Option ℕ → Option (Bool × ℕ)
plain none = none
plain (some n) = some (false, n)

signed : Text → Option (Bool × ℕ)
unfolding digits_value
signed [] = none
signed (c ∷ s) =
    if nat_beq c b'-'
    then negate (digits_value 0 false s)
    else if nat_beq c b'+'
    then plain (digits_value 0 false s)
    else plain (digits_value 0 false (c ∷ s))

-- int(s), on ASCII text; `none` is ValueError
unfoldable pub int_of : Text → Option (Bool × ℕ)
unfolding lstrip rstrip signed
int_of s = signed (rstrip (lstrip s))

int_of_tests :
    (int_of (codes " -1_0 ") ≡ some (true, 10))
    × (int_of (codes "1__0") ≡ none)
    × (int_of (codes "") ≡ none)
    × (int_of (decimal 65535) ≡ some (false, 65535))
unfolding int_of decimal
int_of_tests = (refl, refl, refl, refl)
