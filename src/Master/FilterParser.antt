-- ===== src/Master/FilterParser.antt =====
-- parse_filter_string of app/servers/query_master_parsing.py, with its two regular expressions written
-- out; `\w` is that of ASCII. `is_float` says whether float() accepts a text.
use kirov_server_emulator.NatNeg.Client.{field}
use kirov_server_emulator.Master.Filters.{Condition}
use kirov_server_emulator.Prelude.Strings.{skip_whitespace, strip, truthy}
use kirov_server_emulator.Prelude.{
  Bool, List, Option, [], contains, false, if◌then◌else◌, leb, length, list_eq, nat_beq, nat_eq,
  none, option_eq, pair_eq, some, suc, true, zero, ℕ, ◌&&◌, ◌++◌, ◌<◌, ◌==◌, ◌||◌, ◌∷◌,
}
use kirov_server_emulator.Prelude.Text.{Text, codes, int_of}
pub mod OneLine
pub mod Operators

-- A value of a filter: int, float or str. A float is held by its text.
pub data FilterValue : Type 0 where
  int_value : Bool × ℕ → FilterValue
  float_value : Text → FilterValue
  str_value : Text → FilterValue

abbrev pub is_word : ℕ → Bool
is_word c =
    (leb 48 c && leb c 57) || (leb 65 c && leb c 90) || nat_beq c b'_' || (leb 97 c && leb c 122)

-- The rest of the text behind a prefix.
unfoldable pub behind : Text → Text → Option Text
behind [] s = some s
behind (p ∷ ps) [] = none
behind (p ∷ ps) (c ∷ s) = let rest = behind ps s in if nat_beq p c then rest else none

unfoldable pub first_found : List Text → Text → Option (Text × Text)
unfolding behind
first_found [] s = none
first_found (p ∷ ps) s = elim (behind p s) [ some rest ↦ some (p, rest) | none ↦ first_found ps s ]

abbrev pub opened : Text → Option (Text × Text) → Option (Text × Text)
opened op none = none
opened op (some (p, rest)) = some (op, rest)

abbrev pub after_operator : Option (Text × Text) → Option (Text × Text)
after_operator none = none
after_operator (some (op, rest)) = opened op (first_found (codes "(" ∷ []) (skip_whitespace rest))

-- A match of `\)\s*(AND|OR)\s*\(` at this place: the operator, and what is behind the match.
unfoldable pub separator_at : Text → Option (Text × Text)
unfolding first_found skip_whitespace
separator_at [] = none
separator_at (c ∷ s) =
    if nat_beq c b')'
    then after_operator (first_found (codes "AND" ∷ codes "OR" ∷ []) (skip_whitespace s))
    else none

abbrev pub push_token : ℕ → Text × List (Text × Text) → Text × List (Text × Text)
push_token c (first, others) = (c ∷ first, others)

abbrev pub new_token : Text → Text × List (Text × Text) → Text × List (Text × Text)
new_token op (first, others) = ([], (op, first) ∷ others)

-- re.split by this separator: the first token, then each operator with the token behind it. A step takes
-- at least one character, so the length of the text is enough steps.
unfoldable pub split_filter : ℕ → Text → Text × List (Text × Text)
unfolding separator_at
split_filter zero s = (s, [])
split_filter (suc steps) [] = ([], [])
split_filter (suc steps) (c ∷ s) = elim (separator_at (c ∷ s)) [
  | none ↦ push_token c (split_filter steps s)
  | some (op, rest) ↦ new_token op (split_filter steps rest)
]

-- The word at the start of a text.
unfoldable pub take_word : Text → Text × Text
take_word [] = ([], [])
take_word (c ∷ s) = let (w, rest) = take_word s in if is_word c then (c ∷ w, rest) else ([], c ∷ s)

-- `!=|==|=|<|>|<=|>=`, tried in this order
abbrev pub operators : List Text
operators =
    codes "!=" ∷ codes "==" ∷ codes "=" ∷ codes "<" ∷ codes ">" ∷ codes "<=" ∷ codes ">=" ∷ []

abbrev pub skip_quote : Text → Text
skip_quote [] = []
skip_quote (c ∷ s) = if nat_beq c 39 then s else c ∷ s

-- `\)?$`, which also matches before a newline that ends the text
abbrev at_end : Text → Bool
at_end [] = true
at_end (c ∷ []) = nat_beq c b')'
at_end (c ∷ d ∷ []) = nat_beq c b')' && nat_beq d 10
at_end (c ∷ d ∷ e ∷ s) = false

-- `'?\s*\)?$`
abbrev pub is_closing : Text → Bool
is_closing s = at_end (skip_whitespace (skip_quote s))

abbrev pub push_char : ℕ → Option Text → Option Text
push_char c none = none
push_char c (some v) = some (c ∷ v)

-- `(.*?)` in front of it: the shortest value. `.` is any character but a newline.
unfoldable pub shortest_value : Text → Option Text
unfolding skip_whitespace
shortest_value [] = some []
shortest_value (c ∷ s) =
    let rest = shortest_value s in
    if is_closing (c ∷ s) then some [] else if nat_beq c 10 then none else push_char c rest

-- `\s*'?(.*?)'?\s*\)?$`: what matches at all matches with all white space and the quote taken.
abbrev pub value_behind : Text → Option Text
value_behind s = shortest_value (skip_quote (skip_whitespace s))

abbrev pub or_later : Text → Option Text → Option (Text × Text) → Option (Text × Text)
or_later op none later = later
or_later op (some value) later = some (op, value)

-- The first operator that stands here with a value behind it that matches, and this value.
unfoldable pub find_operator : List Text → Text → Option (Text × Text)
unfolding behind shortest_value skip_whitespace
find_operator [] s = none
find_operator (op ∷ ops) s =
    let later = find_operator ops s in
    elim (behind op s) [ none ↦ later | some rest ↦ or_later op (value_behind rest) later ]

abbrev pub with_key : Text → Option (Text × Text) → Option (Text × Text × Text)
with_key key none = none
with_key key (some (op, value)) = some (key, op, value)

-- `\w+\s*(operator)` at this place, with a value behind it.
unfoldable pub word_operator : Text → Option (Text × Text × Text)
unfolding take_word find_operator skip_whitespace
word_operator s =
    let (key, rest) = take_word s in
    if truthy key then with_key key (find_operator operators (skip_whitespace rest)) else none

-- The first place where it matches: the name, the operator and the value.
unfoldable pub search_operator : Text → Option (Text × Text × Text)
unfolding word_operator
search_operator [] = none
search_operator (c ∷ s) = elim (word_operator (c ∷ s)) [
  | some found_ ↦ some found_
  | none ↦ search_operator s
]

-- s.lstrip(c) and s.rstrip(c)
unfoldable pub lstrip_char : ℕ → Text → Text
lstrip_char b [] = []
lstrip_char b (c ∷ s) = let rest = lstrip_char b s in if nat_beq c b then rest else c ∷ s

abbrev pub keep_unless : ℕ → ℕ → Text → Text
keep_unless b c [] = if nat_beq c b then [] else c ∷ []
keep_unless b c (d ∷ s) = c ∷ d ∷ s

unfoldable pub rstrip_char : ℕ → Text → Text
rstrip_char b [] = []
rstrip_char b (c ∷ s) = keep_unless b c (rstrip_char b s)

module _ (is_float : Text → Bool) where
  abbrev int_or_text : Text → Option (Bool × ℕ) → FilterValue
  int_or_text value none = str_value (rstrip_char 39 (lstrip_char 39 value))
  int_or_text value (some n) = int_value n

  -- The value as a number, or without its quotes.
  abbrev pub parsed_value : Text → FilterValue
  parsed_value value =
      if contains value b'.'
      then (if is_float value then float_value value else int_or_text value none)
      else int_or_text value (int_of value)

  abbrev pub condition_of : Option Text → Option (Text × Text × Text) → List (Condition FilterValue)
  condition_of logic none = []
  condition_of logic (some (key, op, value)) =
      record { field = key; operator = op; value = parsed_value value; logic = logic } ∷ []

  -- The condition of one token, where there is one.
  unfoldable pub token_condition : Option Text → Text → List (Condition FilterValue)
  unfolding search_operator shortest_value rstrip_char lstrip_char strip contains skip_whitespace
      int_of
  token_condition logic token =
      condition_of logic (search_operator (rstrip_char b')' (lstrip_char b'(' (strip token))))

  unfoldable pub later_conditions : List (Text × Text) → List (Condition FilterValue)
  unfolding token_condition
  later_conditions [] = []
  later_conditions ((op, token) ∷ tokens) =
      token_condition (some op) token ++ later_conditions tokens

  unfoldable pub parse_filter_string : Text → List (Condition FilterValue)
  unfolding token_condition later_conditions split_filter strip
  parse_filter_string filter_str =
      let s = strip filter_str in
      let (first, others) = split_filter (length s) s in
      if truthy filter_str then token_condition none first ++ later_conditions others else []
