-- ===== src/Cipher/EncTypeX/Stream.antt =====
-- `_crypt` in both directions.
use Prim.Native.Nat.{bit_xor}
-- Decrypting with the table of the sender gives the data back, and both tables are the same again.
use kirov_server_emulator.Prelude.Words.{Bytes}
use kirov_server_emulator.Prelude.Bits.{bit_xor_cancel}
use kirov_server_emulator.Prelude.{
  List, [], false, list_eq, nat_eq, option_eq, pair_eq, refl, set, true, ℕ, ◌∷◌, ◌≡◌,
}
use kirov_server_emulator.Cipher.EncTypeX.{EncTypeX, advance, crypt, crypt_byte, decrypt, encrypt}

pub crypt-crypt :
    (table : List ℕ) (bytes : Bytes)
    → crypt false table (crypt true table bytes).1 ≡ ((crypt true table bytes).0, bytes)
unfolding crypt crypt_byte
crypt-crypt table [] = refl
crypt-crypt table (d ∷ ds) =
    let t = (advance table).0 in
    let k = (advance table).1 in
    rw (bit_xor_cancel k d, crypt-crypt (set (set t 259 d) 260 (bit_xor k d)) ds) refl

pub decrypt-encrypt :
    (e : EncTypeX) (bytes : Bytes) → decrypt e (encrypt e bytes).1 ≡ ((encrypt e bytes).0, bytes)
unfolding decrypt encrypt
decrypt-encrypt e bytes = rw (crypt-crypt e.encxkey bytes) refl
