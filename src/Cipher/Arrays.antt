-- ===== src/Cipher/Arrays.antt =====
-- Arrays of bytes as lists: reads, exchanges, and how often a value occurs.

use kirov_server_emulator.Prelude.Words.{IsBytes}
use kirov_server_emulator.Prelude.{
  Bool, List, [], arith, false, get_or, if◌then◌else◌, length, length-set, list_eq, nat_eq,
  option_eq, pair_eq, set, suc, true, zero, ℕ, ◌+◌, ◌<◌, ◌==◌, ◌∙◌, ◌∷◌, ◌≡◌,
}

-- xs[i], at an index within the array
abbrev pub at : List ℕ → ℕ → ℕ
at xs i = get_or xs i 0

-- The values at two indices are exchanged.
unfoldable pub swap : List ℕ → ℕ → ℕ → List ℕ
swap xs i j = set (set xs i (at xs j)) j (at xs i)

unfoldable pub count : List ℕ → ℕ → ℕ
count [] v = 0
count (x ∷ xs) v = let rest = count xs v in if x == v then suc rest else rest

abbrev pub once : Bool → ℕ
once true = 1
once false = 0

count-set :
    (xs : List ℕ) (i w v : ℕ)
    → i < length xs
    → count (set xs i w) v + once (at xs i == v) ≡ count xs v + once (w == v)
unfolding count
count-set [] i w v h = elim h [ ]
count-set (x ∷ xs) zero w v h = ground arith
count-set (x ∷ xs) (suc i) w v h = ground (arith, count-set xs i w v)

at-set :
    (xs : List ℕ) (i w j : ℕ) → i < length xs → at (set xs i w) j ≡ (if i == j then w else at xs j)
at-set [] i w j h = elim h [ ]
at-set (x ∷ xs) zero w zero h = ground arith
at-set (x ∷ xs) zero w (suc j) h = ground arith
at-set (x ∷ xs) (suc i) w zero h = ground arith
at-set (x ∷ xs) (suc i) w (suc j) h = ground (arith, at-set xs i w j)

pub count-swap :
    (xs : List ℕ) (i j v : ℕ) → i < length xs → j < length xs → count (swap xs i j) v ≡ count xs v
unfolding swap
count-swap xs i j v hi hj = ground (
  arith,
  count-set xs i (at xs j) v hi,
  count-set (set xs i (at xs j)) j (at xs i) v,
  at-set xs i (at xs j) j hi,
  length-set xs i (at xs j),
)

pub length-swap : (xs : List ℕ) (i j : ℕ) → length (swap xs i j) ≡ length xs
unfolding swap
length-swap xs i j = length-set (set xs i (at xs j)) j (at xs i) ∙ length-set xs i (at xs j)

pub at-IsBytes : (xs : List ℕ) (i : ℕ) → IsBytes xs → at xs i < 256
at-IsBytes [] i h = omega arith
at-IsBytes (x ∷ xs) zero h = h.0
at-IsBytes (x ∷ xs) (suc i) h = at-IsBytes xs i h.1

pub set-IsBytes : (xs : List ℕ) (i v : ℕ) → IsBytes xs → v < 256 → IsBytes (set xs i v)
set-IsBytes [] i v h l = tt
set-IsBytes (x ∷ xs) zero v h l = (l, h.1)
set-IsBytes (x ∷ xs) (suc i) v h l = (h.0, set-IsBytes xs i v h.1 l)

pub swap-IsBytes : (xs : List ℕ) (i j : ℕ) → IsBytes xs → IsBytes (swap xs i j)
unfolding swap
swap-IsBytes xs i j h =
    set-IsBytes (set xs i (at xs j)) j (at xs i) (set-IsBytes xs i (at xs j) h (at-IsBytes xs j h))
      (at-IsBytes xs i h)
