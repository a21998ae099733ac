-- ===== src/Prelude/Bits.antt =====
-- Laws of `bit_xor` (Python's `^`) at variables, from the recursion on binary digits.

use Prim.Native.Nat.{
  ℕ, zero, suc, ◌+◌, ◌*◌, ◌/◌, ◌%◌, ◌^◌, ◌≤◌, ◌<◌, bit_xor, digits, differ, bit_xor-bitwise,
}
use mathlib.Core.Path.{◌≡◌, refl, ap, ◌∙◌}
use native.Mathlib.Omega.{arith}
use native.Mathlib.Nat.{pow-suc}

abbrev xor_digits : ℕ → ℕ → ℕ → ℕ
xor_digits fuel x y = digits (λ y. y) differ fuel x y

-- More fuel than the number of digits changes nothing.
xor_digits_enough : (k l x y : ℕ) → x ≤ k → x ≤ l → xor_digits k x y ≡ xor_digits l x y
xor_digits_enough (suc k) (suc l) (suc x) y hk hl =
    let lower : suc x / 2 ≤ k = omega arith in
    omega (arith, xor_digits_enough k l (suc x / 2) (y / 2) lower (omega arith))
xor_digits_enough zero (suc l) (suc x) y hk hl = elim hk [ ]
xor_digits_enough (suc k) zero (suc x) y hk hl = elim hl [ ]
xor_digits_enough (suc k) (suc l) zero y hk hl = refl
xor_digits_enough (suc k) zero zero y hk hl = refl
xor_digits_enough zero (suc l) zero y hk hl = refl
xor_digits_enough zero zero x y hk hl = refl

differ_digits : (x y : ℕ) → x < 2 → y < 2 → differ x y ≡ (x + y) % 2
differ_digits zero y h k = omega arith
differ_digits (suc zero) zero h k = refl
differ_digits (suc zero) (suc zero) h k = refl
differ_digits (suc zero) (suc (suc y)) h k = absurd (omega arith)
differ_digits (suc (suc x)) y h k = absurd (omega arith)

zero-bit_xor : (y : ℕ) → bit_xor 0 y ≡ y
zero-bit_xor y = bit_xor-bitwise 0 y

bit_xor_step : (x y : ℕ) → bit_xor x y ≡ bit_xor (x / 2) (y / 2) * 2 + (x + y) % 2
bit_xor_step zero y = omega (arith, zero-bit_xor (y / 2), zero-bit_xor y)
bit_xor_step (suc x) y =
    let half = suc x / 2 in
    omega (
      arith,
      xor_digits_enough x half half (y / 2) (omega arith) (omega arith),
      differ_digits (suc x % 2) (y % 2) (omega arith) (omega arith),
      bit_xor-bitwise half (y / 2),
      bit_xor-bitwise (suc x) y,
    )

-- For induction on a bound `n`: zero, or both halves within a smaller bound.
half_le : (n a : ℕ) → a ≤ suc n → a / 2 ≤ n
half_le n a h = omega arith

bit_xor_comm_fuel : (n a b : ℕ) → a ≤ n → b ≤ n → bit_xor a b ≡ bit_xor b a
bit_xor_comm_fuel zero zero zero h k = refl
bit_xor_comm_fuel zero zero (suc b) h k = absurd (omega arith)
bit_xor_comm_fuel zero (suc a) b h k = absurd (omega arith)
bit_xor_comm_fuel (suc n) a b h k = omega (
  arith,
  bit_xor_step a b,
  bit_xor_step b a,
  bit_xor_comm_fuel n (a / 2) (b / 2) (half_le n a h) (half_le n b k),
)

pub bit_xor_comm : (a b : ℕ) → bit_xor a b ≡ bit_xor b a
bit_xor_comm a b = bit_xor_comm_fuel (a + b) a b (omega arith) (omega arith)

bit_xor_half : (a b : ℕ) → bit_xor a b / 2 ≡ bit_xor (a / 2) (b / 2)
bit_xor_half a b = omega (arith, bit_xor_step a b)

bit_xor_assoc_fuel :
    (n a b c : ℕ) → a ≤ n → b ≤ n → c ≤ n → bit_xor (bit_xor a b) c ≡ bit_xor a (bit_xor b c)
bit_xor_assoc_fuel zero a b c h k l =
    let p : a ≡ 0 = omega arith in
    let q : b ≡ 0 = omega arith in let r : c ≡ 0 = omega arith in rw (p, q, r)
bit_xor_assoc_fuel (suc n) a b c h k l = omega (
  arith,
  bit_xor_step (bit_xor a b) c,
  bit_xor_step a (bit_xor b c),
  bit_xor_step a b,
  bit_xor_step b c,
  ap (λ t. bit_xor t (c / 2)) (bit_xor_half a b),
  ap (bit_xor (a / 2)) (bit_xor_half b c),
  bit_xor_assoc_fuel n (a / 2) (b / 2) (c / 2) (half_le n a h) (half_le n b k) (half_le n c l),
)

pub bit_xor_assoc : (a b c : ℕ) → bit_xor (bit_xor a b) c ≡ bit_xor a (bit_xor b c)
bit_xor_assoc a b c = bit_xor_assoc_fuel (a + b + c) a b c (omega arith) (omega arith) (omega arith)

bit_xor_self_fuel : (n a : ℕ) → a ≤ n → bit_xor a a ≡ 0
bit_xor_self_fuel zero a h = let p : a ≡ 0 = omega arith in rw p
bit_xor_self_fuel (suc n) a h =
    omega (arith, bit_xor_step a a, bit_xor_self_fuel n (a / 2) (half_le n a h))

pub bit_xor_self : (a : ℕ) → bit_xor a a ≡ 0
bit_xor_self a = bit_xor_self_fuel a a (omega arith)

-- The same mask twice gives the number back.
pub bit_xor_cancel : (k a : ℕ) → bit_xor k (bit_xor k a) ≡ a
bit_xor_cancel k a = rw (← bit_xor_assoc k k a, bit_xor_self k) (zero-bit_xor a)

-- Two masks, undone in the order in which they were put on.
pub bit_xor_cancel₂ : (x y a : ℕ) → bit_xor x (bit_xor y (bit_xor x (bit_xor y a))) ≡ a
bit_xor_cancel₂ x y a =
    rw (bit_xor_comm y (bit_xor x (bit_xor y a)), bit_xor_assoc x (bit_xor y a) y)
      (rw (bit_xor_comm (bit_xor y a) y, bit_xor_cancel y a) (bit_xor_cancel x a))

-- No digit is added: below a power of two the result stays below it.
pub bit_xor-lt-pow : (k a b : ℕ) → a < 2 ^ k → b < 2 ^ k → bit_xor a b < 2 ^ k
bit_xor-lt-pow zero zero zero h l = omega arith
bit_xor-lt-pow zero zero (suc b) h l = absurd (omega arith)
bit_xor-lt-pow zero (suc a) b h l = absurd (omega arith)
bit_xor-lt-pow (suc k) a b h l =
    let e : 2 ^ suc k ≡ 2 ^ k * 2 = pow-suc 2 k in
    omega (arith, bit_xor_step a b, bit_xor-lt-pow k (a / 2) (b / 2) (omega arith) (omega arith))

pub bit_xor-lt-256 : (a b : ℕ) → a < 256 → b < 256 → bit_xor a b < 256
bit_xor-lt-256 = bit_xor-lt-pow 8

pub bit_xor_cancel_right : (a k : ℕ) → bit_xor (bit_xor a k) k ≡ a
bit_xor_cancel_right a k =
    bit_xor_comm (bit_xor a k) k ∙ ap (bit_xor k) (bit_xor_comm a k) ∙ bit_xor_cancel k a
