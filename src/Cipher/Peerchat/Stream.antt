-- ===== src/Cipher/Peerchat/Stream.antt =====
-- `crypt2` as a stream.

use kirov_server_emulator.Prelude.Words.{Bytes}
use kirov_server_emulator.Prelude.Bits.{bit_xor_cancel_right}
use kirov_server_emulator.Cipher.Peerchat.{PeerchatCipher, advance, crypt2}
use kirov_server_emulator.Relay.Server.{second}
use kirov_server_emulator.Prelude.{[], list_eq, nat_eq, option_eq, pair_eq, refl, ◌++◌, ◌∷◌, ◌≡◌}

-- A cipher in the state of the sender decrypts what the sender encrypted, and both are in the same
-- state afterwards.
pub crypt2-crypt2 :
    (c : PeerchatCipher) (bytes : Bytes) → crypt2 c (crypt2 c bytes).1 ≡ ((crypt2 c bytes).0, bytes)
unfolding crypt2
crypt2-crypt2 c [] = refl
crypt2-crypt2 c (b ∷ bytes) =
    let next = (advance c).0 in
    rw (crypt2-crypt2 next bytes, bit_xor_cancel_right b (advance c).1) refl

-- Data that is encrypted in two pieces, one call after the other, is encrypted as in one call.
pub crypt2-append :
    (c : PeerchatCipher) (xs ys : Bytes)
    → let (c', first) = crypt2 c xs in
      let (c'', second) = crypt2 c' ys in crypt2 c (xs ++ ys) ≡ (c'', first ++ second)
unfolding crypt2
crypt2-append c [] ys = refl
crypt2-append c (x ∷ xs) ys = rw (crypt2-append (advance c).0 xs ys) refl
