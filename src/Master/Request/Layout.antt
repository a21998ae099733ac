-- ===== src/Master/Request/Layout.antt =====
-- The layout of a TCP request, as the docstring of parse_tcp_query gives it.
use kirov_server_emulator.Prelude.Strings.{truthy, split_once-Free}
use kirov_server_emulator.Master.Request.{
  nonempty, read_string, read_token, QueryRequest, parse_tcp_query, skip_separator,
}
use kirov_server_emulator.Prelude.{
  All, List, [], arith, drop, drop-append_self, length, length-append, le→leb, list_eq, nat_eq,
  option_eq, pair_eq, refl, some, subst, take, take-append_self, true, ℕ, ◌++◌, ◌+◌, ◌∷◌, ◌≡◌,
  false, leb, nat_beq, ltb, suc, ◌∙◌,
}
use kirov_server_emulator.Prelude.Text.{Text, Free, join, split, split-join}
use kirov_server_emulator.Prelude.Words.{Bytes, be16-bytes16, bytes16, be16, byte_at}

module _ {ℓ} {A : Type ℓ} where
  pub drop_prefix : (n : ℕ) (xs ys : List A) → length xs ≡ n → drop n (xs ++ ys) ≡ ys
  drop_prefix n xs ys h = subst (λ k. drop k (xs ++ ys) ≡ ys) h (drop-append_self xs ys)

  pub take_prefix : (n : ℕ) (xs ys : List A) → length xs ≡ n → take n (xs ++ ys) ≡ xs
  take_prefix n xs ys h = subst (λ k. take k (xs ++ ys) ≡ xs) h (take-append_self xs ys)

read_string-Free : (s rest : Bytes) → Free 0 s → read_string (s ++ 0 ∷ rest) ≡ (some s, rest)
read_string-Free s rest h = rw (split_once-Free 0 s rest h)

read_token-append :
    (token rest : Bytes) → length token ≡ 8 → read_token (token ++ rest) ≡ (token, rest)
read_token-append token rest h = rw (
  length-append token rest,
  h,
  take_prefix 8 token rest h,
  drop_prefix 8 token rest h,
  le→leb 8 (8 + length rest) (omega arith),
)

-- A name of a field: not empty, and without backslash.
abbrev pub IsField : Text → Type 0
IsField f = Free b'\\' f × (truthy f ≡ true)

nonempty-IsField : (fs : List Text) → All IsField fs → nonempty fs ≡ fs
unfolding nonempty
nonempty-IsField [] h = refl
nonempty-IsField (f ∷ fs) h = rw (h.0.1, nonempty-IsField fs h.1)

Free-names : (fs : List Text) → All IsField fs → All (Free b'\\') fs
Free-names [] h = h
Free-names (f ∷ fs) h = (h.0.0, Free-names fs h.1)

-- "\hostname\mapname\numplayers"
unfoldable pub field_string : List Text → Text
field_string fs = join b'\\' ([] ∷ fs)

nonempty-split : (fs : List Text) → All IsField fs → nonempty (split b'\\' (field_string fs)) ≡ fs
unfolding field_string nonempty
nonempty-split fs h = rw (split-join b'\\' [] fs (_, Free-names fs h)) (nonempty-IsField fs h)

-- u16be length, 6 bytes, a separator, two names, the token, the filter, the fields, and a tail.
unfoldable pub query_bytes :
    (Text → Bytes) → ℕ → Bytes → Text → Text → Bytes → Text → List Text → Bytes → Bytes
query_bytes enc n header game game2 token filter fs tail =
    let fields_part = enc (field_string fs) ++ (0 ∷ tail) in
    let names_part =
      enc game ++ (0 ∷ (enc game2 ++ (0 ∷ (token ++ (enc filter ++ (0 ∷ fields_part)))))) in
    bytes16 n ++ (header ++ (0 ∷ names_part))

-- What the parser is expected to read from it.
abbrev pub query_request :
    Bytes → ℕ → Bytes → Text → Text → Bytes → Text → List Text → Bytes → QueryRequest
query_request data_ n header game game2 token filter fs tail = record {
  length = n;
  header = header;
  game_name = game;
  game_name2 = game2;
  validate_token = token;
  filter_string = filter;
  fields = fs;
  tail = tail;
  raw_data = data_;
}

eight_or_more :
    (n : ℕ) (h xs : Bytes) → length h ≡ 6 → leb 8 (length (bytes16 n ++ (h ++ xs))) ≡ true
eight_or_more n h xs six =
    rw (length-append h xs, six) (le→leb 8 (suc (suc (6 + length xs))) (omega arith))

Free-append : (sep : ℕ) (xs ys : Text) → Free sep xs → Free sep ys → Free sep (xs ++ ys)
Free-append sep [] ys h k = k
Free-append sep (x ∷ xs) ys h k = (h.0, Free-append sep xs ys h.1 k)

Free-join :
    (sep c : ℕ) (fs : List Text) → nat_beq c sep ≡ false → All (Free sep) fs → Free sep (join c fs)
unfolding join
Free-join sep c [] other h = _
Free-join sep c (f ∷ []) other h = h.0
Free-join sep c (f ∷ g ∷ fs) other h =
    Free-append sep f (c ∷ join c (g ∷ fs)) h.0 (other, Free-join sep c (g ∷ fs) other h.1)

field_string-Free : (fs : List Text) → All (Free 0) fs → Free 0 (field_string fs)
unfolding field_string
field_string-Free fs h = Free-join 0 b'\\' ([] ∷ fs) refl (_, h)

-- The request, from what each step reads.
parse_tcp_query_steps :
    (dec : Bytes → Text) (data_ : Bytes) (s1 s2 s3 s4 token r1 r2 r3 r4 r5 : Bytes)
    → leb 8 (length data_) ≡ true
    → read_string (skip_separator (drop 8 data_)) ≡ (some s1, r1)
    → read_string r1 ≡ (some s2, r2)
    → read_token r2 ≡ (token, r3)
    → read_string r3 ≡ (some s3, r4)
    → read_string r4 ≡ (some s4, r5)
    → parse_tcp_query dec data_
      ≡ query_request data_
          (be16 (byte_at data_ 0) (byte_at data_ 1))
          (take 6 (drop 2 data_))
          (dec s1)
          (dec s2)
          token
          (dec s3)
          (nonempty (split b'\\' (dec s4)))
          r5
unfolding parse_tcp_query
parse_tcp_query_steps dec data_ s1 s2 s3 s4 token r1 r2 r3 r4 r5 long e1 e2 e3 e4 e5 =
    let two : ltb (length data_) 2 ≡ false = ground arith in rw (e1, e2, e3, e4, e5, two, long) refl

-- A request in the documented layout is read back: the length, the header, both names, the token,
-- the filter, the fields and the tail. The header has six bytes, the token eight; no text holds a
-- zero character, no field is empty or holds a backslash; and UTF-8 is decoded as it was encoded,
-- with a zero byte for the zero character only.
pub parse_tcp_query-query_bytes :
    (enc : Text → Bytes) (dec : Bytes → Text)
    → ((s : Text) → dec (enc s) ≡ s)
    → ((s : Text) → Free 0 s → Free 0 (enc s))
    → (n : ℕ) (header token tail : Bytes) (game game2 filter : Text) (fs : List Text)
    → length header ≡ 6
    → length token ≡ 8
    → All (Free 0) (game ∷ game2 ∷ filter ∷ fs)
    → All IsField fs
    → let data_ = query_bytes enc n header game game2 token filter fs tail in
      parse_tcp_query dec data_ ≡ query_request data_ n header game game2 token filter fs tail
unfolding parse_tcp_query query_bytes
parse_tcp_query-query_bytes enc dec inverse zero_free n header token tail game game2 filter fs six
      eight free names =
    let r4 : Bytes = enc (field_string fs) ++ 0 ∷ tail in
    let r3 : Bytes = enc filter ++ 0 ∷ r4 in
    let r2 : Bytes = token ++ r3 in
    let r1 : Bytes = enc game2 ++ 0 ∷ r2 in
    let r0 : Bytes = enc game ++ 0 ∷ r1 in
    let data_ : Bytes = bytes16 n ++ (header ++ 0 ∷ r0) in
    let first : read_string (skip_separator (drop 6 (header ++ 0 ∷ r0))) ≡ (some (enc game), r1) =
      rw (drop_prefix 6 header (0 ∷ r0) six)
        (read_string-Free (enc game) r1 (zero_free game free.0)) in
    parse_tcp_query_steps dec data_ (enc game) (enc game2) (enc filter) (enc (field_string fs))
      token r1 r2 r3 r4 tail (eight_or_more n header (0 ∷ r0) six) first
      (read_string-Free (enc game2) r2 (zero_free game2 free.1.0))
      (read_token-append token r3 eight)
      (read_string-Free (enc filter) r4 (zero_free filter free.1.1.0))
      (read_string-Free (enc (field_string fs)) tail
        (zero_free (field_string fs) (field_string-Free fs free.1.1.1)))
    ∙ rw
        (
          inverse game,
          inverse game2,
          inverse filter,
          inverse (field_string fs),
          nonempty-split fs names,
          be16-bytes16 n,
          take_prefix 6 header (0 ∷ r0) six,
        )
        refl
