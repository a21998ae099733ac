-- ===== src/Master/FilterParser/OneLine.antt =====
-- What the steps of the parser take from a text of one line is of one line.
use kirov_server_emulator.Prelude.Strings.{
  is_whitespace, keep_end, skip_end, skip_whitespace, strip,
}
use kirov_server_emulator.Prelude.Text.{Free, Text, codes}
use kirov_server_emulator.Prelude.{
  All, IfSome, List, Option, Option-cases, [], false, in_both, inl, inr, list_eq, nat_beq, nat_eq,
  none, option_eq, pair_eq, refl, some, subst, suc, zero, ℕ, ◌∷◌, ◌≡◌,
}
use kirov_server_emulator.Master.FilterParser.{
  behind, after_operator, first_found, is_closing, is_word, keep_unless, lstrip_char, new_token,
  opened, push_char, push_token, rstrip_char, separator_at, shortest_value, skip_quote,
  split_filter, take_word,
}

-- The text has no newline.
abbrev pub OneLine : Text → Type 0
OneLine = Free 10

pub behind-OneLine : (p s : Text) → OneLine s → IfSome OneLine (behind p s)
unfolding behind
behind-OneLine [] s h = h
behind-OneLine (p ∷ ps) [] h = _
behind-OneLine (p ∷ ps) (c ∷ s) h =
    in_both (IfSome OneLine) (nat_beq p c) _ _ (behind-OneLine ps s h.1) _

pub skip_whitespace-OneLine : (s : Text) → OneLine s → OneLine (skip_whitespace s)
unfolding skip_whitespace
skip_whitespace-OneLine [] h = h
skip_whitespace-OneLine (c ∷ s) h =
    in_both OneLine (is_whitespace c) _ _ (skip_whitespace-OneLine s h.1) h

pub skip_quote-OneLine : (s : Text) → OneLine s → OneLine (skip_quote s)
skip_quote-OneLine [] h = h
skip_quote-OneLine (c ∷ s) h = in_both OneLine (nat_beq c 39) _ _ h.1 h

keep_end-OneLine : (c : ℕ) (s : Text) → nat_beq c 10 ≡ false → OneLine s → OneLine (keep_end c s)
keep_end-OneLine c [] h k = in_both OneLine (is_whitespace c) _ _ _ (h, _)
keep_end-OneLine c (d ∷ s) h k = (h, k)

skip_end-OneLine : (s : Text) → OneLine s → OneLine (skip_end s)
unfolding skip_end
skip_end-OneLine [] h = h
skip_end-OneLine (c ∷ s) h = keep_end-OneLine c (skip_end s) h.0 (skip_end-OneLine s h.1)

pub strip-OneLine : (s : Text) → OneLine s → OneLine (strip s)
unfolding strip
strip-OneLine s h = skip_end-OneLine (skip_whitespace s) (skip_whitespace-OneLine s h)

pub lstrip_char-OneLine : (b : ℕ) (s : Text) → OneLine s → OneLine (lstrip_char b s)
unfolding lstrip_char
lstrip_char-OneLine b [] h = h
lstrip_char-OneLine b (c ∷ s) h = in_both OneLine (nat_beq c b) _ _ (lstrip_char-OneLine b s h.1) h

keep_unless-OneLine :
    (b c : ℕ) (s : Text) → nat_beq c 10 ≡ false → OneLine s → OneLine (keep_unless b c s)
keep_unless-OneLine b c [] h k = in_both OneLine (nat_beq c b) _ _ _ (h, _)
keep_unless-OneLine b c (d ∷ s) h k = (h, k)

pub rstrip_char-OneLine : (b : ℕ) (s : Text) → OneLine s → OneLine (rstrip_char b s)
unfolding rstrip_char
rstrip_char-OneLine b [] h = h
rstrip_char-OneLine b (c ∷ s) h =
    keep_unless-OneLine b c (rstrip_char b s) h.0 (rstrip_char-OneLine b s h.1)

pub take_word-OneLine : (s : Text) → OneLine s → OneLine (take_word s).1
unfolding take_word
take_word-OneLine [] h = h
take_word-OneLine (c ∷ s) h =
    in_both (λ (p : Text × Text). OneLine p.1) (is_word c) _ _ (take_word-OneLine s h.1) h

-- What is behind an operator, and each token behind it.
abbrev Later : Option (Text × Text) → Type 0
Later = IfSome (λ p. OneLine p.1)

first_found-OneLine : (ps : List Text) (s : Text) → OneLine s → Later (first_found ps s)
unfolding first_found
first_found-OneLine [] s h = _
first_found-OneLine (p ∷ ps) s h = elim (Option-cases (behind p s)) [
  | inl missed ↦ rw (first_found, missed) (first_found-OneLine ps s h)
  | inr (r, hit) ↦ rw (first_found, hit) (subst (IfSome OneLine) hit (behind-OneLine p s h))
]

opened-OneLine : (op : Text) (o : Option (Text × Text)) → Later o → Later (opened op o)
opened-OneLine op none h = h
opened-OneLine op (some (p, rest)) h = h

after_operator-OneLine : (o : Option (Text × Text)) → Later o → Later (after_operator o)
after_operator-OneLine none h = h
after_operator-OneLine (some (op, rest)) h =
    opened-OneLine op _ (first_found-OneLine _ _ (skip_whitespace-OneLine rest h))

abbrev words_between : List Text
words_between = codes "AND" ∷ codes "OR" ∷ []

separator_at-OneLine : (s : Text) → OneLine s → Later (separator_at s)
unfolding separator_at
separator_at-OneLine [] h = _
separator_at-OneLine (c ∷ s) h =
    in_both Later (nat_beq c b')') _ _
      (after_operator-OneLine (first_found words_between (skip_whitespace s))
        (first_found-OneLine words_between _ (skip_whitespace-OneLine s h.1)))
      _

-- All tokens are of one line.
abbrev pub OneLineTokens : Text × List (Text × Text) → Type 0
OneLineTokens (first, others) = OneLine first × All (λ p. OneLine p.1) others

push_token-OneLine :
    (c : ℕ) (ts : Text × List (Text × Text))
    → nat_beq c 10 ≡ false
    → OneLineTokens ts
    → OneLineTokens (push_token c ts)
push_token-OneLine c (first, others) h k = ((h, k.0), k.1)

new_token-OneLine :
    (op : Text) (ts : Text × List (Text × Text))
    → OneLineTokens ts
    → OneLineTokens (new_token op ts)
new_token-OneLine op (first, others) k = (_, (k.0, k.1))

pub split_filter-OneLine : (steps : ℕ) (s : Text) → OneLine s → OneLineTokens (split_filter steps s)
unfolding split_filter
split_filter-OneLine zero s h = (h, _)
split_filter-OneLine (suc steps) [] h = (_, _)
split_filter-OneLine (suc steps) (c ∷ s) h = elim (Option-cases (separator_at (c ∷ s))) [
  | inl no_separator ↦
      rw (split_filter, no_separator)
        (push_token-OneLine c _ h.0 (split_filter-OneLine steps s h.1))
  | inr ((op, rest), found_) ↦
      rw (split_filter, found_)
        (new_token-OneLine op _
          (split_filter-OneLine steps rest (subst Later found_ (separator_at-OneLine (c ∷ s) h))))
]

push_char-some :
    (c : ℕ) (o : Option Text) → (v : Text) × (o ≡ some v) → (v : Text) × (push_char c o ≡ some v)
push_char-some c none (v, e) = cc
push_char-some c (some w) h = (c ∷ w, refl)

-- In one line there is always a value that matches.
pub shortest_value-some : (s : Text) → OneLine s → (v : Text) × (shortest_value s ≡ some v)
unfolding shortest_value
shortest_value-some [] h = ([], refl)
shortest_value-some (c ∷ s) h =
    in_both (λ o. (v : Text) × (o ≡ some v)) (is_closing (c ∷ s)) _ _ ([], refl)
      (rw h.0 (push_char-some c (shortest_value s) (shortest_value-some s h.1)))
