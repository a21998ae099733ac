-- ===== src/Cipher/Peerchat/KeySchedule.antt =====
-- The table of a cipher stays a permutation of the bytes.

use kirov_server_emulator.Prelude.Bits.{bit_xor-lt-256}
use kirov_server_emulator.Prelude.Text.{Text}
use kirov_server_emulator.Prelude.Words.{Bytes, IsBytes}
use kirov_server_emulator.Relay.Server.{stop}
use kirov_server_emulator.Prelude.{
  Bool-cases, List, [], ap, arith, if◌then◌else◌, inl, inr, length, list_eq, ltb, nat_eq, option_eq,
  pair_eq, refl, some, suc, zero, ℕ, ◌%◌, ◌+◌, ◌<◌, ◌==◌, ◌||◌, ◌∙◌, ◌∷◌, ◌≡◌, ◌≤◌, lt→ltb, subst,
}
use kirov_server_emulator.Cipher.Peerchat.{
  PeerchatCipher, count_down, crypt2, new_peerchat_cipher, scramble, advance, mix_from,
}
use kirov_server_emulator.Cipher.Arrays.{
  at, count, count-swap, length-swap, swap, swap-IsBytes, at-IsBytes,
}

-- 256 entries, each byte exactly once, and both indices in range.
pub record IsValid (c : PeerchatCipher) : Type 0 where
  pub full : length c.table ≡ 256
  pub bytes : IsBytes c.table
  pub each_once : (v : ℕ) → v < 256 → count c.table v ≡ 1
  pub pc1_byte : c.pc1 < 256
  pub pc2_byte : c.pc2 < 256

length-count_down : (n : ℕ) → length (count_down n) ≡ n
unfolding count_down
length-count_down zero = refl
length-count_down (suc n) = ap suc (length-count_down n)

count_down-IsBytes : (n : ℕ) → n ≤ 256 → IsBytes (count_down n)
unfolding count_down
count_down-IsBytes zero h = tt
count_down-IsBytes (suc n) h = (omega arith, count_down-IsBytes n (omega arith))

count-count_down : (n v : ℕ) → count (count_down n) v ≡ (if ltb v n then 1 else 0)
unfolding count_down count
count-count_down zero v = ground arith
count-count_down (suc n) v = ground (arith, count-count_down n v)

scramble_lem :
    (chall : List ℕ) (n i tmp : ℕ) (table : List ℕ)
    → length table ≡ 256
    → IsBytes table
    → i + n ≤ 256
    → (length (scramble chall n i tmp table) ≡ 256)
      × IsBytes (scramble chall n i tmp table)
      × ((v : ℕ) → count (scramble chall n i tmp table) v ≡ count table v)
unfolding scramble
scramble_lem chall zero i tmp table l b h = (l, b, λ v. refl)
scramble_lem chall (suc n) i tmp table l b h =
    let t = (tmp + at chall (i % length chall) + at table i) % 256 in
    let small : t < 256 = omega arith in
    let rest =
      scramble_lem chall n (suc i) t (swap table t i) (length-swap table t i ∙ l)
        (swap-IsBytes table t i b) (omega arith) in
    (rest.0, rest.1, λ v. rest.2 v ∙ count-swap table t i v (omega arith) (omega arith))

new_table-IsValid :
    (chall : List ℕ)
    → IsValid (record { table = scramble chall 256 0 0 (count_down 256); pc1 = 0; pc2 = 0 })
new_table-IsValid chall =
    let scrambled =
      scramble_lem chall 256 0 0 (count_down 256) (length-count_down 256)
        (count_down-IsBytes 256 (omega arith)) (omega arith) in
    record {
      full = scrambled.0;
      bytes = scrambled.1;
      each_once = λ v h. scrambled.2 v ∙ count-count_down 256 v ∙ ground (arith, lt→ltb v 256 h);
      pc1_byte = omega arith;
      pc2_byte = omega arith;
    }

-- Whatever challenge and game key, the table of a new cipher is a permutation of the bytes.
pub new_peerchat_cipher-IsValid :
    (challenge gamekey : Text) (c : PeerchatCipher)
    → new_peerchat_cipher challenge gamekey ≡ some c
    → IsValid c
unfolding new_peerchat_cipher
new_peerchat_cipher-IsValid challenge gamekey c e =
    let valid = new_table-IsValid (mix_from 0 gamekey challenge) in
    elim (Bool-cases ((length challenge == 0) || (length gamekey == 0))) [
      | inl stop ↦ ground (arith, e, stop)
      | inr go ↦
          let same : record {
            table = scramble (mix_from 0 gamekey challenge) 256 0 0 (count_down 256);
            pc1 = 0;
            pc2 = 0;
          }
              ≡ c =
            ground (arith, e, go) in
          subst IsValid same valid
    ]

advance-IsValid : (c : PeerchatCipher) → IsValid c → IsValid (advance c).0 × ((advance c).1 < 256)
unfolding advance swap
advance-IsValid c v =
    let pc1 = (c.pc1 + 1) % 256 in
    let pc2 = (c.pc2 + at c.table pc1) % 256 in
    let l1 : pc1 < length c.table = omega (arith, v.full) in
    let l2 : pc2 < length c.table = omega (arith, v.full) in
    let ok = swap-IsBytes c.table pc1 pc2 v.bytes in
    (
      record {
        full = length-swap c.table pc1 pc2 ∙ v.full;
        bytes = ok;
        each_once = λ x h. count-swap c.table pc1 pc2 x l1 l2 ∙ v.each_once x h;
        pc1_byte = omega arith;
        pc2_byte = omega arith;
      },
      at-IsBytes _ _ ok,
    )

-- `crypt2` keeps the table a permutation of the bytes, and maps bytes to as many bytes.
pub crypt2-IsValid :
    (c : PeerchatCipher) (bytes : Bytes)
    → IsValid c
    → IsBytes bytes
    → IsValid (crypt2 c bytes).0
      × IsBytes (crypt2 c bytes).1
      × (length (crypt2 c bytes).1 ≡ length bytes)
unfolding crypt2
crypt2-IsValid c [] v h = (v, tt, refl)
crypt2-IsValid c (x ∷ xs) v h =
    let (next, key) = advance-IsValid c v in
    let (valid, out, long) = crypt2-IsValid (advance c).0 xs next h.1 in
    (valid, (bit_xor-lt-256 x (advance c).1 h.0 key, out), ap suc long)
