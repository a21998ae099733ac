-- ===== src/Master/Registry/Address.antt =====
-- The public address of a heartbeat, which a game sends as a signed integer.
use kirov_server_emulator.Prelude.Text.{Text, codes, int_of}
use kirov_server_emulator.Prelude.Words.{Bytes, IsBytes}
use kirov_server_emulator.Master.Registry.{pack_u32_le, unsigned, public_address}
use kirov_server_emulator.Prelude.{
  Bool, [], arith, false, if◌then◌else◌, list_eq, ltb, lt→ltb, nat_eq, option_eq, pair_eq, refl,
  some, true, ℕ, ◌%◌, ◌*◌, ◌+◌, ◌-◌, ◌/◌, ◌<◌, ◌∷◌, ◌≡◌, Bool-cases, inl, inr, ◌==◌, list_beq_iff,
  subst,
}

-- The four bytes as a little-endian integer.
abbrev pub le32 : ℕ → ℕ → ℕ → ℕ → ℕ
le32 a b c d = a + b * 256 + c * 65536 + d * 16777216

-- The same bytes as a signed integer, in two's complement.
abbrev pub signed_le32 : ℕ → ℕ → ℕ → ℕ → Bool × ℕ
signed_le32 a b c d =
    let n = le32 a b c d in if ltb n 2147483648 then (false, n) else (true, 4294967296 - n)

unsigned-signed_le32 :
    (n : ℕ)
    → n < 4294967296
    → unsigned (if ltb n 2147483648 then (false, n) else (true, 4294967296 - n)) ≡ n
unsigned-signed_le32 n h = ground arith

pack_u32_le-le32 :
    (a b c d : ℕ)
    → a < 256
    → b < 256
    → c < 256
    → d < 256
    → pack_u32_le (le32 a b c d) ≡ some (a ∷ b ∷ c ∷ d ∷ [])
pack_u32_le-le32 a b c d ha hb hc hd =
    let n : ℕ = le32 a b c d in
    let one : n % 256 ≡ a = omega arith in
    let two : n / 256 % 256 ≡ b = omega arith in
    let three : n / 65536 % 256 ≡ c = omega arith in
    let four : n / 16777216 ≡ d = omega arith in
    rw (lt→ltb n 4294967296 (omega arith), one, two, three, four) refl

-- No text of an address other than 0.0.0.0 is "0".
pub signed_le32-text :
    (s : Text) (a b c d : ℕ)
    → 0 < le32 a b c d
    → int_of s ≡ some (signed_le32 a b c d)
    → (s == codes "0") ≡ false
unfolding int_of
signed_le32-text s a b c d positive reads = elim (Bool-cases (s == codes "0")) [
  | inl zero_text ↦
      let zero : s ≡ codes "0" = (list_beq_iff s (codes "0")).0 zero_text in
      let e : some (false, 0) ≡ some (signed_le32 a b c d) =
        subst (λ t. int_of t ≡ some (signed_le32 a b c d)) zero reads in
      absurd (ground (arith, e, positive))
  | inr other ↦ other
]

pub public_address-signed_le32 :
    (inet_ntoa : Bytes → Text) (s source : Text) (a b c d : ℕ)
    → IsBytes (a ∷ b ∷ c ∷ d ∷ [])
    → 0 < le32 a b c d
    → int_of s ≡ some (signed_le32 a b c d)
    → public_address inet_ntoa (some s) source ≡ inet_ntoa (a ∷ b ∷ c ∷ d ∷ [])
unfolding public_address
public_address-signed_le32 inet_ntoa s source a b c d h positive reads =
    rw
      (
        signed_le32-text s a b c d positive reads,
        reads,
        unsigned-signed_le32 (le32 a b c d) (omega (arith, h.0, h.1.0, h.1.1.0, h.1.1.1.0)),
        pack_u32_le-le32 a b c d h.0 h.1.0 h.1.1.0 h.1.1.1.0,
      )
      refl
