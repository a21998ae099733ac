-- ===== src/Cipher/GameStats.antt =====
-- `gs_xor` of app/util/cipher.py, on bytes, and `gs_chresp_num`.
use kirov_server_emulator.Prelude.Bits.{bit_xor_cancel_right}
use kirov_server_emulator.Cipher.Arrays.{at}
use kirov_server_emulator.Prelude.Text.{Text, codes}
use kirov_server_emulator.Prelude.Words.{Bytes}
use kirov_server_emulator.Prelude.{
  [], length, list_eq, nat_eq, option_eq, pair_eq, refl, suc, ℕ, ◌%◌, ◌∷◌, ◌≡◌, Bool, arith, false,
  if◌then◌else◌, ltb, true, ◌*◌, ◌+◌, ◌-◌, ◌<◌, ◌≤◌,
}
use mathlib.Core.Path.{ap₂}
use Prim.Native.Nat.{bit_xor}

abbrev pub gs_key : Text
gs_key = codes "GameSpy3D"

-- data[i] ^ key[i % len(key)], from index `i` on
unfoldable pub xor_from : ℕ → Bytes → Bytes
xor_from i [] = []
xor_from i (b ∷ bs) = bit_xor b (at gs_key (i % length gs_key)) ∷ xor_from (suc i) bs

unfoldable pub gs_xor : Bytes → Bytes
unfolding xor_from
gs_xor bytes = xor_from 0 bytes

xor_from-xor_from : (i : ℕ) (bytes : Bytes) → xor_from i (xor_from i bytes) ≡ bytes
unfolding xor_from
xor_from-xor_from i [] = refl
xor_from-xor_from i (b ∷ bytes) =
    ap₂ ◌∷◌ (bit_xor_cancel_right b (at gs_key (i % length gs_key)))
      (xor_from-xor_from (suc i) bytes)

-- The cipher is its own inverse.
pub gs_xor-gs_xor : (bytes : Bytes) → gs_xor (gs_xor bytes) ≡ bytes
unfolding gs_xor
gs_xor-gs_xor bytes = xor_from-xor_from 0 bytes

-- One turn of gs_chresp_num. A c_int32 is held by its residue modulo 2 ^ 32.
abbrev pub chresp_step : ℕ → ℕ → ℕ
chresp_step num char = (char + (4294967296 - num * 0x63306CE7 % 4294967296)) % 4294967296

unfoldable pub chresp_from : ℕ → Text → ℕ
chresp_from num [] = num
chresp_from num (c ∷ challenge) = chresp_from (chresp_step num c) challenge

-- num.value: the integer in [-2 ^ 31, 2 ^ 31) with this residue, and `true` for a minus sign
abbrev pub int32_value : ℕ → Bool × ℕ
int32_value n = if ltb n 2147483648 then (false, n) else (true, 4294967296 - n)

unfoldable pub gs_chresp_num : Text → Bool × ℕ
unfolding chresp_from
gs_chresp_num challenge = int32_value (chresp_from 0 challenge)

chresp_from-lt :
    (num : ℕ) (challenge : Text) → num < 4294967296 → chresp_from num challenge < 4294967296
unfolding chresp_from
chresp_from-lt num [] h = h
chresp_from-lt num (c ∷ challenge) h = chresp_from-lt (chresp_step num c) challenge (omega arith)

-- The number is a signed integer of 32 bits, and never a negative zero.
pub gs_chresp_num_bounds :
    (challenge : Text)
    → let (minus, n) = gs_chresp_num challenge in
      if minus then (0 < n) × (n ≤ 2147483648) else n < 2147483648
unfolding gs_chresp_num
gs_chresp_num_bounds challenge =
    let bound = chresp_from-lt 0 challenge (omega arith) in ground (arith, bound)

gs_chresp_num_test : gs_chresp_num (codes "ab") ≡ (false, 1789312219)
unfolding gs_chresp_num
gs_chresp_num_test = refl
