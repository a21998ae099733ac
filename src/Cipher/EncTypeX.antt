-- ===== src/Cipher/EncTypeX.antt =====
-- `EncTypeX` of app/util/cipher.py. `none` is an exception: an empty key, a validate token that is
-- too short, a failed assertion. The random bytes of salts and headers are arguments.
use kirov_server_emulator.Prelude.Words.{Bytes, ◌>>=◌}
use kirov_server_emulator.Cipher.Arrays.{at, swap}
use kirov_server_emulator.Prelude.{
  Bool, List, Option, [], drop, false, get_elem?, get_or, if◌then◌else◌, leb, length, list_eq, ltb,
  nat_eq, none, option_eq, pair_eq, set, some, suc, take, true, zero, ℕ, ◌%◌, ◌*◌, ◌++◌, ◌+◌, ◌-◌,
  ◌==◌, ◌∷◌,
}
use Prim.Native.Nat.{bit_xor, bit_and}
pub mod Schedule
pub mod Stream
pub mod Message

pub record EncTypeX : Type 0 where
  pub key : List ℕ
  pub validate : List ℕ
  pub salt : List ℕ
  pub iv : List ℕ
  pub encxkey : List ℕ
  pub n1 : ℕ
  pub n2 : ℕ
  pub start : ℕ

-- list(range(i, i + n))
unfoldable pub count_up : ℕ → ℕ → List ℕ
count_up i zero = []
count_up i (suc n) = i ∷ count_up (suc i) n

unfoldable pub replicate : ℕ → ℕ → List ℕ
replicate zero v = []
replicate (suc n) v = v ∷ replicate n v

-- The loop that mixes the salt from index `i` on into the iv.
unfoldable pub mix_salt : List ℕ → ℕ → List ℕ → List ℕ → Option (List ℕ)
mix_salt key i [] iv = some iv
mix_salt key i (b ∷ bs) iv = do
  k ← get_elem? key (i % length key)
  x ← get_elem? iv (i % 8)
  y ← get_elem? iv (k * i % 8)
  mix_salt key (suc i) bs (set iv (k * i % 8) (bit_xor y (bit_xor x b)))

-- The first loop of `_func5`, at most `fuel` rounds.
unfoldable pub widen : ℕ → ℕ → ℕ → ℕ
widen zero cnt mask = mask
widen (suc fuel) cnt mask =
    let wider = widen fuel cnt (2 * mask + 1) in if ltb mask cnt then wider else mask

-- One round of the second loop, on the table and the iv: n1 and n2.
unfoldable pub turn : List ℕ → List ℕ → ℕ → ℕ → ℕ × ℕ
turn encxkey iv n1 n2 =
    let m = at encxkey (n1 % 256) + at iv n2 in
    if leb (length iv) (n2 + 1) then (m + length iv, 0) else (m, n2 + 1)

-- The second loop, behind `i` rounds and with `fuel` rounds left: n1, n2 and tmp.
unfoldable pub draw : ℕ → List ℕ → List ℕ → ℕ → ℕ → ℕ → ℕ → ℕ → Option (ℕ × ℕ × ℕ)
unfolding turn
draw zero encxkey iv cnt mask i n1 n2 = none
draw (suc fuel) encxkey iv cnt mask i n1 n2 =
    let (m1, m2) = turn encxkey iv n1 n2 in
    let drawn = if ltb 11 (i + 1) then bit_and m1 mask % cnt else bit_and m1 mask in
    let later = draw fuel encxkey iv cnt mask (i + 1) m1 m2 in
    if leb drawn cnt then some (m1, m2, drawn) else later

-- `_func5`; after twelve rounds the value is reduced below `cnt`, so twelve rounds are enough.
unfoldable pub func5 : List ℕ → List ℕ → ℕ → ℕ → ℕ → Option (ℕ × ℕ × ℕ)
unfolding draw widen
func5 encxkey iv n1 n2 cnt =
    if cnt == 0 then some (n1, n2, 0) else draw 12 encxkey iv cnt (widen cnt cnt 0) 0 n1 n2

-- The shuffle of the table: `n` rounds, for i from n - 1 down to 0.
unfoldable pub shuffle : ℕ → List ℕ → List ℕ → ℕ → ℕ → Option (List ℕ × ℕ × ℕ)
unfolding func5
shuffle zero iv encxkey n1 n2 = some (encxkey, n1, n2)
shuffle (suc i) iv encxkey n1 n2 = do
  (m1, m2, t) ← func5 encxkey iv n1 n2 i
  shuffle i iv (swap encxkey i t) m1 m2

unfoldable pub finish : List ℕ → ℕ → List ℕ
finish t0 n1 =
    let t1 = set t0 256 (at t0 1) in
    let t2 = set t1 257 (at t1 3) in
    let t3 = set t2 258 (at t2 5) in let t4 = set t3 259 (at t3 7) in set t4 260 (at t4 (n1 % 256))

unfoldable pub fresh_table : List ℕ
unfolding count_up replicate
fresh_table = count_up 0 256 ++ replicate 5 0

unfoldable pub finished : Option (List ℕ × ℕ × ℕ) → Option (List ℕ × ℕ × ℕ)
unfolding finish
finished none = none
finished (some (table, n1, n2)) = some (finish table n1, n1, n2)

-- The table, n1 and n2 for an iv.
unfoldable pub schedule : List ℕ → Option (List ℕ × ℕ × ℕ)
unfolding shuffle finished fresh_table
schedule iv =
    if length iv == 0 then some (fresh_table, 0, 0) else finished (shuffle 256 iv fresh_table 0 0)

unfoldable pub with_schedule :
    EncTypeX → List ℕ → List ℕ → Option (List ℕ × ℕ × ℕ) → Option EncTypeX
with_schedule e salt iv none = none
with_schedule e salt iv (some (table, n1, n2)) =
    some (record e { salt = salt; iv = iv; encxkey = table; n1 = n1; n2 = n2 })

-- `_init_encoder`
unfoldable pub init_encoder : EncTypeX → List ℕ → Option EncTypeX
unfolding mix_salt schedule with_schedule
init_encoder e salt = do
  iv ← mix_salt e.key 0 salt e.validate
  with_schedule e salt iv (schedule iv)

abbrev pub blank : List ℕ → List ℕ → EncTypeX
blank key validate = record {
  key = key;
  validate = validate;
  salt = [];
  iv = [];
  encxkey = [];
  n1 = 0;
  n2 = 0;
  start = 0;
}

-- EncTypeX(key, validate), with the salt that is drawn.
unfoldable pub new_cipher : List ℕ → List ℕ → List ℕ → Option EncTypeX
unfolding init_encoder
new_cipher key validate salt = init_encoder (blank key validate) salt

-- The writes of one turn of `_crypt` before the byte is looked at, and the byte that is mixed in.
unfoldable pub advance : List ℕ → List ℕ × ℕ
advance t0 =
    let a0 = at t0 256 in
    let b0 = at t0 257 in
    let t1 = set t0 256 ((a0 + 1) % 256) in
    let t2 = set t1 257 ((b0 + at t0 a0) % 256) in
    let a1 = at t2 260 in
    let c1 = at t2 a1 in
    let b1 = at t2 (at t2 257) in
    let t3 = set t2 a1 b1 in
    let t4 = set t3 (at t3 257) (at t3 (at t3 259)) in
    let t5 = set t4 (at t4 259) (at t4 (at t4 256)) in
    let t6 = set t5 (at t5 256) c1 in
    let b2 = (at t6 258 + at t6 c1) % 256 in
    let t7 = set t6 258 b2 in
    let c2 = (at t7 (at t6 259) + at t7 (at t7 257)) % 256 in
    let c3 = (c2 + at t7 (at t7 260)) % 256 in
    let b3 = at t7 c3 in
    let a3 = (at t7 b2 + at t7 (at t7 256)) % 256 in (t7, bit_xor (at t7 b3) (at t7 a3))

-- One turn of `_crypt`: the new table and the new byte.
unfoldable pub crypt_byte : Bool → List ℕ → ℕ → List ℕ × ℕ
unfolding advance
crypt_byte encrypt table d =
    let (t, k) = advance table in
    let c = bit_xor k d in (if encrypt then set (set t 259 d) 260 c else set (set t 259 c) 260 d, c)

-- `_crypt`, on the table
unfoldable pub crypt : Bool → List ℕ → Bytes → List ℕ × Bytes
unfolding crypt_byte
crypt encrypt table [] = (table, [])
crypt encrypt table (d ∷ ds) =
    let (t, c) = crypt_byte encrypt table d in let (t', cs) = crypt encrypt t ds in (t', c ∷ cs)

unfoldable pub encrypt : EncTypeX → Bytes → EncTypeX × Bytes
encrypt e bytes =
    let (table, out) = crypt true e.encxkey bytes in (record e { encxkey = table }, out)

unfoldable pub decrypt : EncTypeX → Bytes → EncTypeX × Bytes
decrypt e bytes =
    let (table, out) = crypt false e.encxkey bytes in (record e { encxkey = table }, out)

-- `encode`, with the random bytes between the first and the last byte of the header.
unfoldable pub encode : EncTypeX → List ℕ → Bytes → EncTypeX × Bytes
unfolding encrypt
encode e padding bytes =
    let (e', encrypted) = encrypt e bytes in
    let header = bit_xor (length padding) 0xEC ∷ padding ++ bit_xor (length e.salt) 0xEA ∷ [] in
    (e', header ++ (e.salt ++ encrypted))

-- The first packet of a decoder, behind its first byte: the salt is taken from it.
unfoldable pub decode_start : EncTypeX → Bytes → ℕ → Option (EncTypeX × Bytes)
decode_start e packet header_len =
    if leb header_len (length packet)
    then (let iv_len = bit_xor (get_or packet (header_len - 1) 0) 0xEA in
        let start = header_len + iv_len in
        if leb start (length packet)
        then (do
          e' ← init_encoder (record e { start = start }) (take iv_len (drop header_len packet))
          some (decrypt e' (drop start packet)))
        else none)
    else none

unfoldable pub decode_first : EncTypeX → Bytes → Option (EncTypeX × Bytes)
unfolding init_encoder decrypt decode_start
decode_first e [] = none
decode_first e (first ∷ rest) = decode_start e (first ∷ rest) (bit_xor first 0xEC + 2)

unfoldable pub decode : EncTypeX → Bytes → Option (EncTypeX × Bytes)
unfolding decode_first decrypt
decode e packet = if e.start == 0 then decode_first e packet else some (decrypt e packet)
