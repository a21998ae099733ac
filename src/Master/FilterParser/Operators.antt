-- ===== src/Master/FilterParser/Operators.antt =====
-- The operators that a parsed filter can have.
use kirov_server_emulator.Master.FilterParser.OneLine.{
  OneLine, behind-OneLine, lstrip_char-OneLine, rstrip_char-OneLine, shortest_value-some,
  skip_quote-OneLine, skip_whitespace-OneLine, split_filter-OneLine, strip-OneLine,
  take_word-OneLine,
}
use kirov_server_emulator.Prelude.Strings.{skip_whitespace, strip, truthy}
use kirov_server_emulator.Master.Filters.{Condition}
use kirov_server_emulator.Master.FilterParser.{
  behind, condition_of, later_conditions, operators, parse_filter_string, search_operator,
  token_condition, word_operator, lstrip_char, rstrip_char, take_word, with_key, FilterValue,
  split_filter, find_operator,
}
use kirov_server_emulator.Prelude.{
  All, Bool-cases, List, Option-cases, [], arith, contains, inl, inr, list_eq, nat_beq, nat_eq,
  none, option_eq, pair_eq, refl, some, sym, true, ℕ, ◌∷◌, ◌≡◌, ◌++◌, ◌∙◌, ==_refl, Bool, Option,
  ap, subst, length, All-append, IfSome, in_both,
}
use kirov_server_emulator.Prelude.Text.{Text, codes}

-- The operators that are tried before `<` and `>` have matched.
abbrev pub reached : List Text
reached = codes "!=" ∷ codes "==" ∷ codes "=" ∷ codes "<" ∷ codes ">" ∷ []

abbrev pub IsReached : Text → Type 0
IsReached op = contains reached op ≡ true

-- A longer text does not begin where a shorter beginning of it does not.
behind_longer : (c : ℕ) (s : Text) → behind (c ∷ []) s ≡ none → behind (c ∷ b'=' ∷ []) s ≡ none
unfolding behind
behind_longer c [] h = refl
behind_longer c (d ∷ s) h = elim (Bool-cases (nat_beq c d)) [
  | inl same ↦ absurd (ground (arith, h, same))
  | inr other ↦ rw other refl
]

find_operator_skips :
    (p : Text) (ps : List Text) (s : Text)
    → behind p s ≡ none
    → find_operator (p ∷ ps) s ≡ find_operator ps s
unfolding find_operator
find_operator_skips p ps s h = rw (find_operator, h) refl

-- In one line an operator that stands here is taken, whatever is behind it.
find_operator_takes :
    (p : Text) (ps : List Text) (s r : Text)
    → OneLine s
    → behind p s ≡ some r
    → (v : Text) × (find_operator (p ∷ ps) s ≡ some (p, v))
unfolding find_operator
find_operator_takes p ps s r h e =
    let r-OneLine : OneLine r = subst (IfSome OneLine) e (behind-OneLine p s h) in
    let (v, found_) =
      shortest_value-some _ (skip_quote-OneLine _ (skip_whitespace-OneLine r r-OneLine)) in
    (v, rw (find_operator, e, found_) refl)

find_operator-none :
    (p : Text) (ps : List Text) (s : Text)
    → OneLine s
    → find_operator (p ∷ ps) s ≡ none
    → (behind p s ≡ none) × (find_operator ps s ≡ none)
find_operator-none p ps s one h = elim (Option-cases (behind p s)) [
  | inl missed ↦ (missed, sym (find_operator_skips p ps s missed) ∙ h)
  | inr (r, hit) ↦ absurd (ground (arith, h, (find_operator_takes p ps s r one hit).1))
]

abbrev text_found : Option (Text × Text) → Text
text_found none = []
text_found (some (p, rest)) = p

-- Texts that cannot come first are not found.
find_operator-append :
    (ps qs : List Text) (s : Text)
    → OneLine s
    → (find_operator ps s ≡ none → find_operator qs s ≡ none)
    → (op v : Text) → find_operator (ps ++ qs) s ≡ some (op, v)
    → contains ps op ≡ true
unfolding find_operator contains
find_operator-append [] qs s one h op v e = absurd (ground (arith, h refl, e))
find_operator-append (p ∷ ps) qs s one h op v e = elim (Option-cases (behind p s)) [
  | inl missed ↦
      (let later =
          find_operator-append ps qs s one (λ k. h (find_operator_skips p ps s missed ∙ k)) op v
            (sym (find_operator_skips p (ps ++ qs) s missed) ∙ e) in
        ground (arith, later))
  | inr (r, hit) ↦
      (let taken = (find_operator_takes p (ps ++ qs) s r one hit).1 in
        let same : p ≡ op = ap text_found (sym taken ∙ e) in rw (same, ==_refl op) refl)
]

-- `<=` and `>=` stand behind their first characters, so they are not found in one line.
find_operator-operators :
    (s op v : Text) → OneLine s → find_operator operators s ≡ some (op, v) → IsReached op
unfolding find_operator
find_operator-operators s op v one =
    find_operator-append reached (codes "<=" ∷ codes ">=" ∷ []) s one
      (λ h.
        let (_, h1) =
          find_operator-none (codes "!=") (codes "==" ∷ codes "=" ∷ codes "<" ∷ codes ">" ∷ []) s
            one h in
        let (_, h2) =
          find_operator-none (codes "==") (codes "=" ∷ codes "<" ∷ codes ">" ∷ []) s one h1 in
        let (_, h3) = find_operator-none (codes "=") (codes "<" ∷ codes ">" ∷ []) s one h2 in
        let (below, h4) = find_operator-none (codes "<") (codes ">" ∷ []) s one h3 in
        let (above, _) = find_operator-none (codes ">") [] s one h4 in
        find_operator_skips (codes "<=") (codes ">=" ∷ []) s (behind_longer b'<' s below)
        ∙ find_operator_skips (codes ">=") [] s (behind_longer b'>' s above))
      op v

abbrev pub AllReached : {V : Type 0} → List (Condition V) → Type 0
AllReached = All (λ f. IsReached f.operator)

abbrev IsFound : Option (Text × Text × Text) → Type 0
IsFound o = (key op rest : Text) → o ≡ some (key, op, rest) → IsReached op

abbrev operator_of : Option (Text × Text × Text) → Text
operator_of none = []
operator_of (some (key, op, rest)) = op

with_key-IsFound :
    (key : Text) (s : Text) (o : Option (Text × Text))
    → OneLine s
    → find_operator operators s ≡ o
    → IsFound (with_key key o)
with_key-IsFound key s none one h key' op v e = cc
with_key-IsFound key s (some (p, w)) one h key' op v e =
    let same : p ≡ op = ap operator_of e in
    subst IsReached same (find_operator-operators s p w one h)

word_operator-IsFound : (s : Text) → OneLine s → IsFound (word_operator s)
unfolding word_operator
word_operator-IsFound s one =
    let (key, rest) = take_word s in
    in_both IsFound (truthy key) _ _
      (with_key-IsFound key (skip_whitespace rest) _
        (skip_whitespace-OneLine rest (take_word-OneLine s one)) refl)
      (λ k op v e. cc)

search_operator-IsFound : (s : Text) → OneLine s → IsFound (search_operator s)
unfolding search_operator
search_operator-IsFound [] one = λ key op v h. cc
search_operator-IsFound (c ∷ s) one = elim (Option-cases (word_operator (c ∷ s))) [
  | inl missed ↦ rw (search_operator, missed) (search_operator-IsFound s one.1)
  | inr (found_, hit) ↦
      rw (search_operator, hit) (subst IsFound hit (word_operator-IsFound (c ∷ s) one))
]

module _ (is_float : Text → Bool) where
  condition_of-AllReached :
      (logic : Option Text) (o : Option (Text × Text × Text))
      → IsFound o
      → AllReached (condition_of is_float logic o)
  condition_of-AllReached logic none h = _
  condition_of-AllReached logic (some (key, op, v)) h = (h key op v refl, _)

  token_condition-AllReached :
      (logic : Option Text) (token : Text)
      → OneLine token
      → AllReached (token_condition is_float logic token)
  unfolding token_condition
  token_condition-AllReached logic token one = condition_of-AllReached logic _ (
      search_operator-IsFound (rstrip_char b')' (lstrip_char b'(' (strip token)))
        (rstrip_char-OneLine b')' _ (lstrip_char-OneLine b'(' _ (strip-OneLine token one))))

  later_conditions-AllReached :
      (tokens : List (Text × Text))
      → All (λ p. OneLine p.1) tokens
      → AllReached (later_conditions is_float tokens)
  unfolding later_conditions
  later_conditions-AllReached [] one = _
  later_conditions-AllReached ((op, token) ∷ tokens) one =
      All-append (λ f. IsReached f.operator) _ _ (token_condition-AllReached (some op) token one.0)
        (later_conditions-AllReached tokens one.1)

  -- No condition that is parsed from a filter without a newline has the operator `<=` or `>=`: each
  -- operator is one of `!=`, `==`, `=`, `<` and `>`.
  pub parse_filter_string-AllReached :
      (filter_str : Text)
      → OneLine filter_str
      → AllReached (parse_filter_string is_float filter_str)
  unfolding parse_filter_string
  parse_filter_string-AllReached [] one = _
  parse_filter_string-AllReached (c ∷ s) one =
      let t = strip (c ∷ s) in
      let (first, others) = split_filter (length t) t in
      let tokens = split_filter-OneLine (length t) t (strip-OneLine (c ∷ s) one) in
      All-append {A = Condition FilterValue} (λ f. IsReached f.operator)
        (token_condition is_float none first) (later_conditions is_float others)
        (token_condition-AllReached none first tokens.0)
        (later_conditions-AllReached others tokens.1)
