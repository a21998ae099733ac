-- ===== src/Chat/Connection/Stream.antt =====
-- The bytes of a connection as streams in both directions.

-- More bytes behind a piece that was split into lines.
use mathlib.Core.List.{append_assoc}
use kirov_server_emulator.Prelude.Text.{Text}
use kirov_server_emulator.Cipher.EncTypeX.{encode}
use kirov_server_emulator.Chat.Handlers.Delivery.{received}
use kirov_server_emulator.Relay.Server.{second}
use kirov_server_emulator.Cipher.Peerchat.Stream.{crypt2-append, crypt2-crypt2}
use kirov_server_emulator.Prelude.Words.{Bytes}
use kirov_server_emulator.Prelude.{
  All, Bool-cases, List, Option, [], ap, false, inl, inr, list_eq, nat_beq, nat_eq, none, option_eq,
  pair_eq, refl, some, sym, true, ℕ, ◌++◌, ◌==◌, ◌∙◌, ◌∷◌, ◌≡◌,
}
use kirov_server_emulator.Chat.Connection.{
  Wire, decrypt, line_bytes, perform, perform_all, push_byte, receive, take_lines, write,
  write_with,
}
use kirov_server_emulator.Chat.Message.{IrcMessage}
use kirov_server_emulator.Chat.Sending.{ChatEffect, ciphers, deliver, encrypts}
use kirov_server_emulator.Cipher.Peerchat.{PeerchatCipher, crypt2}

abbrev extend : List Bytes × Bytes → Bytes → List Bytes × Bytes
extend (ls, rest) ys = let (ms, end) = take_lines (rest ++ ys) in (ls ++ ms, end)

extend-push_byte :
    (b : ℕ) (p : List Bytes × Bytes) (ys : Bytes)
    → nat_beq b 10 ≡ false
    → push_byte b (extend p ys) ≡ extend (push_byte b p) ys
unfolding take_lines
extend-push_byte b ([], rest) ys other = rw other refl
extend-push_byte b (l ∷ ls, rest) ys other = refl

take_lines-append : (xs ys : Bytes) → take_lines (xs ++ ys) ≡ extend (take_lines xs) ys
unfolding take_lines
take_lines-append [] ys = refl
take_lines-append (b ∷ xs) ys = elim (Bool-cases (nat_beq b 10)) [
  | inl newline ↦ rw (newline, take_lines-append xs ys) refl
  | inr other ↦ rw (other, take_lines-append xs ys) (extend-push_byte b (take_lines xs) ys other)
]

decrypt-append :
    (k : Option PeerchatCipher) (xs ys : Bytes)
    → let (k', first) = decrypt k xs in
      let (k'', second) = decrypt k' ys in decrypt k (xs ++ ys) ≡ (k'', first ++ second)
decrypt-append none xs ys = refl
decrypt-append (some k) xs ys = rw (crypt2-append k xs ys) refl

-- Two reads with nothing handled in between give the same lines, in the same order, and leave the same
-- cipher and the same buffer, as one read of both.
pub receive-append :
    (w : Wire) (xs ys : Bytes)
    → let (w', first) = receive w xs in
      let (w'', second) = receive w' ys in receive w (xs ++ ys) ≡ (w'', first ++ second)
unfolding receive
receive-append w xs ys =
    let plain = (decrypt w.recv_cipher xs).1 in
    let more = (decrypt (decrypt w.recv_cipher xs).0 ys).1 in
    rw
      (
        decrypt-append w.recv_cipher xs ys,
        sym (append_assoc w.data_buffer plain more),
        take_lines-append (w.data_buffer ++ plain) more,
      )
      refl

-- The effect gives the connection no new cipher.
abbrev pub KeepsCipher : ℕ → ChatEffect → Type 0
KeepsCipher c (deliver d m) = Unit
KeepsCipher c (ciphers d k j) = (c == d) ≡ false
KeepsCipher c (encrypts d) = Unit

-- The lines of messages, one behind the other.
unfoldable pub lines_of : (Text → Bytes) → List IrcMessage → Bytes
lines_of encode [] = []
lines_of encode (m ∷ ms) = line_bytes encode m ++ lines_of encode ms

abbrev pub encrypted_wire : Wire → PeerchatCipher → Wire
encrypted_wire w k = record w { send_cipher = some k; encryption_enabled = true }

crypt2_nil : (k : PeerchatCipher) → (crypt2 k []).1 ≡ []
unfolding crypt2
crypt2_nil k = refl

encrypted_stream :
    (encode : Text → Bytes) (c : ℕ) (w : Wire) (k : PeerchatCipher) (es : List ChatEffect)
    → All (KeepsCipher c) es
    → (perform_all encode c (encrypted_wire w k) es).1
      ≡ (crypt2 k (lines_of encode (received c es))).1
unfolding perform_all perform write write_with received lines_of
encrypted_stream encode c w k [] keep = sym (crypt2_nil k)
encrypted_stream encode c w k (deliver d m ∷ es) keep = elim (Bool-cases (c == d)) [
  | inl mine ↦
      let line = line_bytes encode m in
      rw
        (
          mine,
          encrypted_stream encode c w (crypt2 k line).0 es keep.1,
          crypt2-append k line (lines_of encode (received c es)),
        )
        refl
  | inr other ↦ rw (other, encrypted_stream encode c w k es keep.1) refl
]
encrypted_stream encode c w k (ciphers d a b ∷ es) keep =
    rw (keep.0, encrypted_stream encode c w k es keep.1) refl
encrypted_stream encode c w k (encrypts d ∷ es) keep = elim (Bool-cases (c == d)) [
  | inl mine ↦ rw (mine, encrypted_stream encode c w k es keep.1) refl
  | inr other ↦ rw (other, encrypted_stream encode c w k es keep.1) refl
]

-- Once a connection is encrypted, a client whose cipher is in the state of the server's decrypts
-- all that the server writes to it, until it gets new ciphers, to the lines of the messages that
-- the handlers sent to it, in their order.
pub encrypted_lines :
    (encode : Text → Bytes) (c : ℕ) (w : Wire) (k : PeerchatCipher) (es : List ChatEffect)
    → All (KeepsCipher c) es
    → (crypt2 k (perform_all encode c (encrypted_wire w k) es).1).1
      ≡ lines_of encode (received c es)
encrypted_lines encode c w k es keep =
    let plain = lines_of encode (received c es) in
    ap (λ out. (crypt2 k out).1) (encrypted_stream encode c w k es keep)
    ∙ ap (λ p. p.1) (crypt2-crypt2 k plain)
