-- ===== src/Tests/Ciphers.antt =====
-- The ciphers at concrete inputs.
use kirov_server_emulator.Cipher.EncTypeX.{new_cipher}
use kirov_server_emulator.Prelude.Text.{codes}
use kirov_server_emulator.Cipher.EncTypeX.Message.{decode-encode}
use kirov_server_emulator.Cipher.Peerchat.KeySchedule.{IsValid, new_peerchat_cipher-IsValid}
use kirov_server_emulator.Prelude.Words.{Bytes}
use kirov_server_emulator.Prelude.{
  [], arith, list_eq, nat_eq, option_eq, pair_eq, refl, some, ◌+◌, ◌∷◌, ◌≡◌,
}
use kirov_server_emulator.Cipher.EncTypeX.Schedule.{new_cipher_total}
use kirov_server_emulator.Cipher.EncTypeX.{EncTypeX, decode, encode}
use kirov_server_emulator.Cipher.Peerchat.{
  PeerchatCipher, count_down, mix_from, scramble, new_peerchat_cipher,
}

abbrev chat : PeerchatCipher
chat = record {
  table = scramble (mix_from 0 (codes "key") (codes "abc")) 256 0 0 (count_down 256);
  pc1 = 0;
  pc2 = 0;
}

chat-IsValid : IsValid chat
unfolding new_peerchat_cipher
chat-IsValid = new_peerchat_cipher-IsValid (codes "abc") (codes "key") chat refl

abbrev key : Bytes
key = codes "g3T9s2"

abbrev token : Bytes
token = codes "abcdefgh"

new_cipher_total_example : (e : EncTypeX) × (new_cipher key token (9 ∷ 8 ∷ 7 ∷ []) ≡ some e)
new_cipher_total_example = new_cipher_total key token (9 ∷ 8 ∷ 7 ∷ []) (omega arith) (omega arith)

encoder : (e : EncTypeX) × (new_cipher key token (9 ∷ 8 ∷ 7 ∷ []) ≡ some e)
encoder = new_cipher_total key token (9 ∷ 8 ∷ 7 ∷ []) (omega arith) (omega arith)

decoder : (d : EncTypeX) × (new_cipher key token (1 ∷ []) ≡ some d)
decoder = new_cipher_total key token (1 ∷ []) (omega arith) (omega arith)

decode-encode_example :
    decode decoder.0 (encode encoder.0 (5 ∷ []) (codes "list")).1
    ≡ some (record (encode encoder.0 (5 ∷ []) (codes "list")).0 { start = 1 + 2 + 3 }, codes "list")
decode-encode_example =
    decode-encode key token (9 ∷ 8 ∷ 7 ∷ []) (1 ∷ []) (5 ∷ []) (codes "list") encoder.0 decoder.0
      encoder.1 decoder.1
