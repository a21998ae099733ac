-- ===== src/Cipher/Peerchat.antt =====
-- `PeerchatCipher` of app/util/peerchat_crypt.py. The table is only read and written at bytes, and it
-- has 256 entries. A key is the list of its character codes.
use kirov_server_emulator.Prelude.Text.{Text}
use kirov_server_emulator.Prelude.Words.{Bytes}
use kirov_server_emulator.Cipher.Arrays.{at, swap}
use kirov_server_emulator.Prelude.{
  List, Option, [], if◌then◌else◌, length, list_eq, nat_eq, none, option_eq, pair_eq, set, some,
  suc, zero, ℕ, ◌%◌, ◌+◌, ◌==◌, ◌||◌, ◌∷◌,
}
use Prim.Native.Nat.{bit_xor}
pub mod KeySchedule
pub mod Stream

pub record PeerchatCipher : Type 0 where
  pub table : List ℕ
  pub pc1 : ℕ
  pub pc2 : ℕ

-- list(reversed(range(n)))
unfoldable pub count_down : ℕ → List ℕ
count_down zero = []
count_down (suc n) = n ∷ count_down n

-- [ord(challenge[i]) ^ gamekey[i % len(gamekey)] for i in …]
unfoldable pub mix_from : ℕ → Text → Text → List ℕ
mix_from i gamekey [] = []
mix_from i gamekey (c ∷ cs) =
    bit_xor c (at gamekey (i % length gamekey)) ∷ mix_from (suc i) gamekey cs

-- The loop over the table, `n` rounds from index `i` on.
unfoldable pub scramble : List ℕ → ℕ → ℕ → ℕ → List ℕ → List ℕ
scramble chall zero i tmp table = table
scramble chall (suc n) i tmp table =
    let t = (tmp + at chall (i % length chall) + at table i) % 256 in
    scramble chall n (suc i) t (swap table t i)

-- `__init__`; an empty challenge or game key divides by zero.
unfoldable pub new_peerchat_cipher : Text → Text → Option PeerchatCipher
unfolding scramble mix_from
new_peerchat_cipher challenge gamekey =
    if (length challenge == 0) || (length gamekey == 0)
    then none
    else some (record {
      table = scramble (mix_from 0 gamekey challenge) 256 0 0 (count_down 256);
      pc1 = 0;
      pc2 = 0;
    })

-- One turn of `crypt2`: the new state and the byte that it adds to the data.
unfoldable pub advance : PeerchatCipher → PeerchatCipher × ℕ
advance c =
    let pc1 = (c.pc1 + 1) % 256 in
    let tmp = at c.table pc1 in
    let pc2 = (c.pc2 + tmp) % 256 in
    let table = set (set c.table pc1 (at c.table pc2)) pc2 tmp in
    (record { table = table; pc1 = pc1; pc2 = pc2 }, at table ((tmp + at table pc1) % 256))

unfoldable pub crypt2 : PeerchatCipher → Bytes → PeerchatCipher × Bytes
unfolding advance
crypt2 c [] = (c, [])
crypt2 c (datum ∷ data_) =
    let (c', key) = advance c in let (c'', out) = crypt2 c' data_ in (c'', bit_xor datum key ∷ out)
