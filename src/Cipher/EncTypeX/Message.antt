-- ===== src/Cipher/EncTypeX/Message.antt =====
-- `encode` and `decode`.
use kirov_server_emulator.Prelude.Bits.{bit_xor_cancel_right}
use kirov_server_emulator.Cipher.EncTypeX.Stream.{crypt-crypt}
use Prim.Native.Nat.{bit_xor}
use kirov_server_emulator.Prelude.Words.{◌>>=◌, Bytes}
use kirov_server_emulator.Cipher.EncTypeX.{
  EncTypeX, init_encoder, mix_salt, with_schedule, decode, decrypt, encode, encrypt, new_cipher,
  schedule, blank, decode_start, decode_first,
}
use kirov_server_emulator.Prelude.{
  List, Option, arith, list_eq, nat_eq, none, option_eq, pair_eq, refl, some, ℕ, ◌≡◌, [], drop,
  get_or, length, take, ◌++◌, ◌+◌, ◌-◌, ◌∷◌, ◌≤◌, ap, drop-append_self, length-append, subst, suc,
  take-append_self, ◌∙◌, sym, zero, le→leb,
}

with_schedule_alike :
    (x y : EncTypeX) (salt iv : List ℕ) (o : Option (List ℕ × ℕ × ℕ)) (e : EncTypeX)
    → x.key ≡ y.key
    → x.validate ≡ y.validate
    → with_schedule x salt iv o ≡ some e
    → with_schedule y salt iv o ≡ some (record e { start = y.start })
unfolding with_schedule
with_schedule_alike x y salt iv none e k v h = cc
with_schedule_alike x y salt iv (some (table, n1, n2)) e k v h =
    let made : EncTypeX = record x { salt = salt; iv = iv; encxkey = table; n1 = n1; n2 = n2 } in
    let same : made ≡ e = ground arith in rw (← same, k, v) refl

mixed_alike :
    (x y : EncTypeX) (salt : List ℕ) (o : Option (List ℕ)) (e : EncTypeX)
    → x.key ≡ y.key
    → x.validate ≡ y.validate
    → (do iv ← o; with_schedule x salt iv (schedule iv)) ≡ some e
    → (do iv ← o; with_schedule y salt iv (schedule iv)) ≡ some (record e { start = y.start })
mixed_alike x y salt none e k v h = cc
mixed_alike x y salt (some iv) e k v h = with_schedule_alike x y salt iv (schedule iv) e k v h

mix_salt_alike :
    (x y : EncTypeX) (salt : List ℕ)
    → x.key ≡ y.key
    → x.validate ≡ y.validate
    → mix_salt x.key 0 salt x.validate ≡ mix_salt y.key 0 salt y.validate
mix_salt_alike x y salt k v = rw (k, v) refl

-- Two ciphers with the same key and validate token that are given the same salt differ only in the
-- start of the data.
init_encoder_alike :
    (x y : EncTypeX) (salt : List ℕ) (e : EncTypeX)
    → x.key ≡ y.key
    → x.validate ≡ y.validate
    → init_encoder x salt ≡ some e
    → init_encoder y salt ≡ some (record e { start = y.start })
unfolding init_encoder
init_encoder_alike x y salt e k v h =
    subst
      (λ o.
        (do iv ← o; with_schedule y salt iv (schedule iv)) ≡ some (record e { start = y.start }))
      (mix_salt_alike x y salt k v)
      (mixed_alike x y salt (mix_salt x.key 0 salt x.validate) e k v h)

with_schedule_fields :
    (x : EncTypeX) (salt iv : List ℕ) (o : Option (List ℕ × ℕ × ℕ)) (e : EncTypeX)
    → with_schedule x salt iv o ≡ some e
    → (e.key ≡ x.key) × (e.validate ≡ x.validate) × (e.salt ≡ salt) × (e.start ≡ x.start)
unfolding with_schedule
with_schedule_fields x salt iv none e h = cc
with_schedule_fields x salt iv (some (table, n1, n2)) e h =
    let made : EncTypeX = record x { salt = salt; iv = iv; encxkey = table; n1 = n1; n2 = n2 } in
    let same : made ≡ e = ground arith in rw (← same) (refl, refl, refl, refl)

mixed_fields :
    (x : EncTypeX) (salt : List ℕ) (o : Option (List ℕ)) (e : EncTypeX)
    → (do iv ← o; with_schedule x salt iv (schedule iv)) ≡ some e
    → (e.key ≡ x.key) × (e.validate ≡ x.validate) × (e.salt ≡ salt) × (e.start ≡ x.start)
mixed_fields x salt none e h = cc
mixed_fields x salt (some iv) e h = with_schedule_fields x salt iv (schedule iv) e h

-- A cipher keeps its key and its token, and remembers the salt.
new_cipher_fields :
    (key validate salt : List ℕ) (e : EncTypeX)
    → new_cipher key validate salt ≡ some e
    → (e.key ≡ key) × (e.validate ≡ validate) × (e.salt ≡ salt) × (e.start ≡ 0)
unfolding new_cipher init_encoder
new_cipher_fields key validate salt e h =
    mixed_fields (blank key validate) salt (mix_salt key 0 salt validate) e h

get_or-append : (xs ys : List ℕ) (y : ℕ) → get_or (xs ++ y ∷ ys) (length xs) 0 ≡ y
get_or-append [] ys y = refl
get_or-append (x ∷ xs) ys y = get_or-append xs ys y

drop-append_suc : (xs ys : List ℕ) (y : ℕ) → drop (suc (length xs)) (xs ++ y ∷ ys) ≡ ys
drop-append_suc [] ys y = refl
drop-append_suc (x ∷ xs) ys y = drop-append_suc xs ys y

drop_nil : (k : ℕ) → drop {A = ℕ} k [] ≡ []
drop_nil zero = refl
drop_nil (suc k) = refl

drop-drop : (n k : ℕ) (xs : List ℕ) → drop (n + k) xs ≡ drop k (drop n xs)
drop-drop zero k xs = let same : zero + k ≡ k = omega arith in ap (λ n. drop n xs) same
drop-drop (suc n) k [] = drop_nil (suc n + k) ∙ sym (drop_nil k)
drop-drop (suc n) k (x ∷ xs) =
    let shift : suc n + k ≡ suc (n + k) = omega arith in
    ap (λ m. drop m (x ∷ xs)) shift ∙ drop-drop n k xs

-- The header and the salt of a message are taken apart again.
message_parts :
    (first : ℕ) (padding salt rest : List ℕ) (last : ℕ)
    → let packet = first ∷ padding ++ last ∷ (salt ++ rest) in
      (get_or packet (length padding + 2 - 1) 0 ≡ last)
      × (take (length salt) (drop (length padding + 2) packet) ≡ salt)
      × (drop (length padding + 2 + length salt) packet ≡ rest)
      × (length padding + 2 ≤ length packet)
      × (length padding + 2 + length salt ≤ length packet)
message_parts first padding salt rest last =
    let packet = first ∷ padding ++ last ∷ (salt ++ rest) in
    let two : length padding + 2 ≡ suc (suc (length padding)) = omega arith in
    let one : length padding + 2 - 1 ≡ suc (length padding) = omega arith in
    let long = length-append padding (last ∷ (salt ++ rest)) in
    let more = length-append salt rest in
    let behind : drop (length padding + 2) packet ≡ salt ++ rest =
      rw two (drop-append_suc padding (salt ++ rest) last) in
    (
      rw one (get_or-append padding (salt ++ rest) last),
      rw behind (take-append_self salt rest),
      drop-drop (length padding + 2) (length salt) packet
          ∙ ap (drop (length salt)) behind
          ∙ drop-append_self salt rest,
      omega (arith, long),
      omega (arith, long, more),
    )

decode_start_lem :
    (d e : EncTypeX) (packet salt rest : Bytes) (header_len iv_len : ℕ)
    → header_len ≤ length packet
    → bit_xor (get_or packet (header_len - 1) 0) 0xEA ≡ iv_len
    → header_len + iv_len ≤ length packet
    → take iv_len (drop header_len packet) ≡ salt
    → drop (header_len + iv_len) packet ≡ rest
    → init_encoder (record d { start = header_len + iv_len }) salt ≡ some e
    → decode_start d packet header_len ≡ some (decrypt e rest)
unfolding decode_start
decode_start_lem d e packet salt rest header_len iv_len fits iv all_fits s r made =
    rw
      (
        le→leb header_len (length packet) fits,
        iv,
        le→leb (header_len + iv_len) (length packet) all_fits,
        s,
        r,
        made,
      )
      refl

append_last : (xs ys : List ℕ) (y : ℕ) → (xs ++ y ∷ []) ++ ys ≡ xs ++ y ∷ ys
append_last [] ys y = refl
append_last (x ∷ xs) ys y = ap (◌∷◌ x) (append_last xs ys y)

encode_packet :
    (e : EncTypeX) (padding : List ℕ) (bytes : Bytes)
    → (encode e padding bytes).1
      ≡ bit_xor (length padding) 0xEC
        ∷ (padding ++ bit_xor (length e.salt) 0xEA ∷ (e.salt ++ (encrypt e bytes).1))
unfolding encode
encode_packet e padding bytes =
    ap (◌∷◌ (bit_xor (length padding) 0xEC))
      (append_last padding (e.salt ++ (encrypt e bytes).1) (bit_xor (length e.salt) 0xEA))

decode_unstarted :
    (d : EncTypeX) (packet : Bytes) → d.start ≡ 0 → decode d packet ≡ decode_first d packet
unfolding decode
decode_unstarted d packet fresh = ground (arith, fresh)

decode_first_lem :
    (d : EncTypeX) (first : ℕ) (rest : Bytes)
    → decode_first d (first ∷ rest) ≡ decode_start d (first ∷ rest) (bit_xor first 0xEC + 2)
unfolding decode_first
decode_first_lem d first rest = refl

-- A fresh decoder takes a message apart and decrypts what follows the salt.
decode_fresh :
    (d e : EncTypeX) (padding salt rest : Bytes)
    → d.start ≡ 0
    → init_encoder (record d { start = length padding + 2 + length salt }) salt ≡ some e
    → decode d
        (bit_xor (length padding) 0xEC ∷ (padding ++ bit_xor (length salt) 0xEA ∷ (salt ++ rest)))
      ≡ some (decrypt e rest)
decode_fresh d e padding salt rest fresh made =
    let first = bit_xor (length padding) 0xEC in
    let last = bit_xor (length salt) 0xEA in
    let behind = padding ++ last ∷ (salt ++ rest) in
    let parts = message_parts first padding salt rest last in
    decode_unstarted d (first ∷ behind) fresh
    ∙ decode_first_lem d first behind
    ∙ ap (λ n. decode_start d (first ∷ behind) (n + 2)) (bit_xor_cancel_right (length padding) 0xEC)
    ∙ decode_start_lem d e (first ∷ behind) salt rest (length padding + 2) (length salt) parts.3
        (ap (λ x. bit_xor x 0xEA) parts.0 ∙ bit_xor_cancel_right (length salt) 0xEA) parts.4 parts.1
        parts.2 made

decrypt-restarted :
    (e : EncTypeX) (bytes : Bytes) (start : ℕ)
    → decrypt (record e { start = start }) (encrypt e bytes).1
      ≡ (record (encrypt e bytes).0 { start = start }, bytes)
unfolding decrypt encrypt
decrypt-restarted e bytes start = rw (crypt-crypt e.encxkey bytes) refl

-- What an encoder sends first, a decoder with the same key and validate token decodes, whatever
-- salts the two drew and whatever padding the header has. The decoder then has the table of the
-- encoder, and knows where the data started.
pub decode-encode :
    (key validate salt salt' padding : List ℕ) (bytes : Bytes) (e d : EncTypeX)
    → new_cipher key validate salt ≡ some e
    → new_cipher key validate salt' ≡ some d
    → let (e', packet) = encode e padding bytes in
      decode d packet ≡ some (record e' { start = length padding + 2 + length salt }, bytes)
unfolding new_cipher encode
decode-encode key validate salt salt' padding bytes e d he hd =
    let (ek, ev, es, _) = new_cipher_fields key validate salt e he in
    let (dk, dv, _, fresh) = new_cipher_fields key validate salt' d hd in
    let start = length padding + 2 + length e.salt in
    let made : init_encoder (record d { start = start }) e.salt
        ≡ some (record e { start = start }) =
      init_encoder_alike (blank key validate) (record d { start = start }) e.salt e (sym dk)
        (sym dv) (ap (init_encoder (blank key validate)) es ∙ he) in
    ap (decode d) (encode_packet e padding bytes)
    ∙ decode_fresh d (record e { start = start }) padding e.salt (encrypt e bytes).1 fresh made
    ∙ ap some (decrypt-restarted e bytes start)
    ∙ ap (λ (n : ℕ). some (record (encrypt e bytes).0 { start = length padding + 2 + n }, bytes))
        (ap length es)
