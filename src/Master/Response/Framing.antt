-- ===== src/Master/Response/Framing.antt =====
-- The length in front of a message of the new format.
use kirov_server_emulator.Master.Response.Rooms.{pack_u8-some}
use kirov_server_emulator.Prelude.Dict.{All-get, Dict, get}
use kirov_server_emulator.Master.Response.{
  build_value_map_message, field_names, field_type_of, make_field_list, str0, with_length,
}
use kirov_server_emulator.Prelude.{
  All, Bool-cases, List, Option, Option-cases, [], arith, if◌then◌else◌, inl, inr, length,
  length-append, list_eq, ltb, nat_eq, none, option_eq, pair_eq, refl, some, ℕ, ◌&&◌, ◌++◌, ◌+◌,
  ◌<◌, ◌∙◌, ◌∷◌, ◌≡◌, suc,
}
use kirov_server_emulator.Prelude.Text.{Text}
use kirov_server_emulator.Prelude.Words.{Bytes, be16, be16-bytes16, byte_at}

-- The length that a message announces, and its own; `none` where it could not be built.
unfoldable pub framing : Option Bytes → Option (ℕ × ℕ)
framing none = none
framing (some m) = some (be16 (byte_at m 0) (byte_at m 1), length m)

-- The bytes of the names in a field list: each with its type and a zero byte.
unfoldable pub names_size : (Text → Bytes) → List Text → ℕ
names_size enc [] = 0
names_size enc (f ∷ fs) = 2 + length (enc f) + names_size enc fs

field_type_of-lt :
    (types : Dict Text ℕ) (f : Text) → All (λ t. t.1 < 256) types → field_type_of types f < 256
unfolding field_type_of
field_type_of-lt types f h = elim (Option-cases (get types f)) [
  | inl missing ↦ rw missing (omega arith)
  | inr (t, found) ↦ rw found (All-get (λ t. t.1 < 256) types f t h found)
]

field_names_size :
    (enc : Text → Bytes) (types : Dict Text ℕ) (fs : List Text)
    → All (λ t. t.1 < 256) types
    → (names : Bytes) × (field_names enc types fs ≡ some names) × (length names ≡ names_size enc fs)
unfolding field_names names_size
field_names_size enc types [] h = ([], refl, refl)
field_names_size enc types (f ∷ fs) h =
    let (names, written, size) = field_names_size enc types fs h in
    (
      field_type_of types f ∷ str0 enc f ++ names,
      rw (pack_u8-some (field_type_of types f) (field_type_of-lt types f h), written) refl,
      rw (length-append (str0 enc f) names, length-append (enc f) (0 ∷ []), size) (omega arith),
    )

framing-with_length :
    (payload : Bytes)
    → framing (with_length payload) ≡ (
        if ltb (length payload + 2) 65536
        then some (length payload + 2, length payload + 2)
        else none)
unfolding framing with_length
framing-with_length payload = elim (Bool-cases (ltb (length payload + 2) 65536)) [
  | inl fits ↦
      rw (fits, be16-bytes16 (length payload + 2))
        (let two : suc (suc (length payload)) ≡ length payload + 2 = omega arith in rw two refl)
  | inr long ↦ rw long refl
]

-- A VALUE_MAP message announces its own length, which is four bytes more than the names take. It
-- cannot be built exactly when there are more than 255 fields or its length does not fit two bytes.
-- The types of the fields are bytes.
pub framing-build_value_map_message :
    (enc : Text → Bytes) (fs : List Text) (types : Dict Text ℕ)
    → All (λ t. t.1 < 256) types
    → let size = names_size enc fs + 4 in
      framing (build_value_map_message enc fs types)
      ≡ (if ltb (length fs) 256 && ltb size 65536 then some (size, size) else none)
unfolding build_value_map_message make_field_list framing
framing-build_value_map_message enc fs types h =
    let (names, written, size) = field_names_size enc types fs h in
    let total : length (1 ∷ length fs ∷ names) + 2 ≡ names_size enc fs + 4 =
      rw size (omega arith) in
    elim (Bool-cases (ltb (length fs) 256)) [
      | inl few ↦ rw (few, written) (framing-with_length (1 ∷ length fs ∷ names) ∙ rw total refl)
      | inr many ↦ rw many refl
    ]
