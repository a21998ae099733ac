-- ===== src/Prelude/Lists.antt =====
-- Lists measured and indexed by native numbers, and Python sets as lists without repetition.
use Prim.Native.Nat.{ℕ, zero, suc, ◌+◌, ◌≤◌, ◌<◌}
use mathlib.Core.Path.{◌≡◌, refl, ap}
use mathlib.Core.Bool.{Bool, false, ◌||◌, not, ◌&&◌}
use mathlib.Core.List.{List, [], ◌∷◌, ◌++◌, append-nil}
use mathlib.Core.Option.{Option, none, some}
use native.Mathlib.Omega.{arith}
use kirov_server_emulator.Prelude.Tests.{if◌then◌else◌}
use kirov_server_emulator.Prelude.Equality.{Comparable, ◌==◌, ==_refl}

abbrev pub All {ℓ κ} : {A : Type ℓ} → (A → Type κ) → List A → Type κ
All P [] = Unit
All P (x ∷ xs) = P x × All P xs

module _ {ℓ} {A : Type ℓ} where
  abbrev pub length : List A → ℕ
  length [] = 0
  length (x ∷ xs) = suc (length xs)

  abbrev pub get_elem? : List A → ℕ → Option A
  get_elem? [] i = none
  get_elem? (x ∷ xs) zero = some x
  get_elem? (x ∷ xs) (suc i) = get_elem? xs i

  abbrev pub get_or : List A → ℕ → A → A
  get_or [] i d = d
  get_or (x ∷ xs) zero d = x
  get_or (x ∷ xs) (suc i) d = get_or xs i d

  -- A write out of bounds changes nothing.
  abbrev pub set : List A → ℕ → A → List A
  set [] i v = []
  set (x ∷ xs) zero v = v ∷ xs
  set (x ∷ xs) (suc i) v = x ∷ set xs i v

  -- xs[:n] and xs[n:]
  abbrev pub take : ℕ → List A → List A
  take zero xs = []
  take (suc n) [] = []
  take (suc n) (x ∷ xs) = x ∷ take n xs

  abbrev pub drop : ℕ → List A → List A
  drop zero xs = xs
  drop (suc n) [] = []
  drop (suc n) (x ∷ xs) = drop n xs

  pub length-append : (xs ys : List A) → length (xs ++ ys) ≡ length xs + length ys
  length-append [] ys = omega arith
  length-append (x ∷ xs) ys = omega (arith, length-append xs ys)

  pub take-append_self : (xs ys : List A) → take (length xs) (xs ++ ys) ≡ xs
  take-append_self [] ys = refl
  take-append_self (x ∷ xs) ys = ap (◌∷◌ x) (take-append_self xs ys)

  pub drop-append_self : (xs ys : List A) → drop (length xs) (xs ++ ys) ≡ ys
  drop-append_self [] ys = refl
  drop-append_self (x ∷ xs) ys = drop-append_self xs ys

  pub length-take_le : (n : ℕ) (xs : List A) → n ≤ length xs → length (take n xs) ≡ n
  length-take_le zero xs h = refl
  length-take_le (suc n) [] h = elim h [ ]
  length-take_le (suc n) (x ∷ xs) h = ap suc (length-take_le n xs (omega arith))

  pub length-take-le : (n : ℕ) (xs : List A) → length (take n xs) ≤ length xs
  length-take-le zero xs = omega arith
  length-take-le (suc n) [] = omega arith
  length-take-le (suc n) (x ∷ xs) = omega (arith, length-take-le n xs)

  pub length-set : (xs : List A) (i : ℕ) (v : A) → length (set xs i v) ≡ length xs
  length-set [] i v = refl
  length-set (x ∷ xs) zero v = refl
  length-set (x ∷ xs) (suc i) v = ap suc (length-set xs i v)

  pub get_elem?-some : (xs : List A) (n : ℕ) → n < length xs → (a : A) × (get_elem? xs n ≡ some a)
  get_elem?-some [] n h = elim h [ ]
  get_elem?-some (x ∷ xs) zero h = (x, refl)
  get_elem?-some (x ∷ xs) (suc n) h = get_elem?-some xs n (omega arith)

  pub lt_of_get_elem? : (xs : List A) (n : ℕ) (a : A) → get_elem? xs n ≡ some a → n < length xs
  lt_of_get_elem? [] n a h = cc
  lt_of_get_elem? (x ∷ xs) zero a h = omega arith
  lt_of_get_elem? (x ∷ xs) (suc n) a h = omega (arith, lt_of_get_elem? xs n a h)

module _ {ℓ} {A : Type ℓ} ⦃e : Comparable A⦄ where
  -- x in s
  unfoldable pub contains : List A → A → Bool
  contains [] a = false
  contains (x ∷ xs) a = (x == a) || contains xs a

  -- s.add(x); a new member goes to the end
  unfoldable pub add : List A → A → List A
  unfolding contains
  add xs a = if contains xs a then xs else xs ++ a ∷ []

  -- s.discard(x)
  unfoldable pub discard : List A → A → List A
  discard [] a = []
  discard (x ∷ xs) a = let rest = discard xs a in if x == a then rest else x ∷ rest

  pub contains-append :
      (xs ys : List A) (a : A) → contains (xs ++ ys) a ≡ (contains xs a || contains ys a)
  unfolding contains
  contains-append [] ys a = ground arith
  contains-append (x ∷ xs) ys a = ground (arith, contains-append xs ys a)

  pub contains-add : (xs : List A) (a b : A) → contains (add xs a) b ≡ ((a == b) || contains xs b)
  unfolding contains add
  contains-add xs a b = ground (arith, contains-append xs (a ∷ []) b, e.equals_iff a b)

  pub contains-discard :
      (xs : List A) (a b : A) → contains (discard xs a) b ≡ (not (a == b) && contains xs b)
  unfolding contains discard
  contains-discard [] a b = ground arith
  contains-discard (x ∷ xs) a b =
      ground (arith, contains-discard xs a b, e.equals_iff x a, e.equals_iff x b, e.equals_iff a b)

  discard-append : (xs ys : List A) (a : A) → discard (xs ++ ys) a ≡ discard xs a ++ discard ys a
  unfolding discard
  discard-append [] ys a = refl
  discard-append (x ∷ xs) ys a = ground (arith, discard-append xs ys a)

  discard_absent : (xs : List A) (a : A) → contains xs a ≡ false → discard xs a ≡ xs
  unfolding contains discard
  discard_absent [] a h = refl
  discard_absent (x ∷ xs) a h = ground (arith, discard_absent xs a)

  -- Two new members that are discarded again leave the set as it was.
  pub discard-add_two :
      (xs : List A) (a b : A)
      → contains xs a ≡ false
      → contains xs b ≡ false
      → (a == b) ≡ false
      → discard (discard (add (add xs a) b) a) b ≡ xs
  unfolding contains add discard
  discard-add_two xs a b h k ne = ground (
    arith,
    contains-append xs (a ∷ []) b,
    discard-append (xs ++ a ∷ []) (b ∷ []) a,
    discard-append xs (a ∷ []) a,
    discard-append xs (b ∷ []) b,
    discard_absent xs a h,
    discard_absent xs b k,
    ==_refl a,
    ==_refl b,
    e.equals_iff a b,
    e.equals_iff b a,
    append-nil xs,
  )

-- What holds of a result, if there is one.
abbrev pub IfSome {ℓ κ} : {A : Type ℓ} → (A → Type κ) → Option A → Type κ
IfSome P none = Unit
IfSome P (some a) = P a

pub All-append {ℓ κ} :
    {A : Type ℓ} (P : A → Type κ) (xs ys : List A) → All P xs → All P ys → All P (xs ++ ys)
All-append P [] ys h k = k
All-append P (x ∷ xs) ys h k = (h.0, All-append P xs ys h.1 k)
