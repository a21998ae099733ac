-- ===== src/NatNeg/Packets/Codec.antt =====
-- Round trips of addresses and of the packets that clients send.

use kirov_server_emulator.NatNeg.Packets.{int_bytes, ip_bytes_to_string, ip_string_to_bytes}
use kirov_server_emulator.Prelude.Words.{Bytes, IsBytes}
use kirov_server_emulator.Prelude.Text.{Free, Text, decimal, int_of, split-join}
use kirov_server_emulator.Prelude.{
  All, Bool, Option, [], arith, false, list_eq, lt→ltb, map, nat_eq, none, not, pair_eq, refl, some,
  suc, true, zero, ℕ, ◌&&◌, ◌<◌, ◌==◌, ◌∷◌, ◌≡◌, Bool-cases, if◌then◌else◌, inl, inr, option_eq,
  subst, ◌+◌, ◌≤◌,
}

-- A test that passes on the values from `first` on, `n` of them.
passes : (ℕ → Bool) → ℕ → ℕ → Bool
passes test first zero = true
passes test first (suc n) =
    let later = passes test (suc first) n in if test first then later else false

passes_at :
    (test : ℕ → Bool) (first n v : ℕ)
    → passes test first n ≡ true
    → first ≤ v
    → v < first + n
    → test v ≡ true
unfolding passes
passes_at test first zero v passed low high = absurd (omega arith)
passes_at test first (suc n) v passed low high = elim (Bool-cases (first == v)) [
  | inl here ↦
      let same : first ≡ v = ground (arith, here) in
      subst (λ x. test x ≡ true) same (ground (arith, passed))
  | inr there ↦
      passes_at test (suc first) n v (ground (arith, passed)) (ground (arith, there)) (omega arith)
]

-- For every byte: its decimal text holds no dot and reads as the byte.
free_of_dot : Text → Bool
free_of_dot [] = true
free_of_dot (c ∷ s) = not (c == b'.') && free_of_dot s

free_of_dot_sound : (s : Text) → free_of_dot s ≡ true → Free b'.' s
unfolding free_of_dot
free_of_dot_sound [] h = tt
free_of_dot_sound (c ∷ s) h = ground (arith, free_of_dot_sound s)

is_value : ℕ → Option (Bool × ℕ) → Bool
is_value n none = false
is_value n (some (minus, m)) = not minus && (m == n)

good_byte : ℕ → Bool
unfolding free_of_dot is_value
good_byte b = free_of_dot (decimal b) && is_value b (int_of (decimal b))

byte_table : passes good_byte 0 256 ≡ true
unfolding passes good_byte decimal int_of
byte_table = refl

is_value_sound : (n : ℕ) (o : Option (Bool × ℕ)) → is_value n o ≡ true → o ≡ some (false, n)
unfolding is_value
is_value_sound n none h = cc
is_value_sound n (some (minus, m)) h = ground arith

byte_facts : (b : ℕ) → b < 256 → Free b'.' (decimal b) × (int_of (decimal b) ≡ some (false, b))
unfolding good_byte
byte_facts b h =
    let good = passes_at good_byte 0 256 b byte_table (omega arith) (omega arith) in
    (
      free_of_dot_sound (decimal b) (ground (arith, good)),
      is_value_sound b (int_of (decimal b)) (ground (arith, good)),
    )

decimals-Free : (bs : Bytes) → IsBytes bs → All (Free b'.') (map decimal bs)
decimals-Free [] h = tt
decimals-Free (b ∷ bs) h = ((byte_facts b h.0).0, decimals-Free bs h.1)

int_bytes-decimals : (bs : Bytes) → IsBytes bs → int_bytes (map decimal bs) ≡ some bs
unfolding int_bytes
int_bytes-decimals [] h = refl
int_bytes-decimals (b ∷ bs) h =
    rw ((byte_facts b h.0).1, lt→ltb b 256 h.0, int_bytes-decimals bs h.1)

-- Printing an address of at least one byte and reading it again gives its bytes.
pub ip_string_to_bytes-ip_bytes_to_string :
    (b : ℕ) (bs : Bytes)
    → IsBytes (b ∷ bs)
    → ip_string_to_bytes (ip_bytes_to_string (b ∷ bs)) ≡ some (b ∷ bs)
unfolding ip_string_to_bytes ip_bytes_to_string
ip_string_to_bytes-ip_bytes_to_string b bs h =
    rw (split-join b'.' (decimal b) (map decimal bs) (decimals-Free (b ∷ bs) h))
      (int_bytes-decimals (b ∷ bs) h)
