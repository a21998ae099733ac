-- ===== src/Master/Response/Reading.antt =====
-- A client's reader of the room list, after the layout in the docstring of build_room_list_response.
use kirov_server_emulator.Prelude.Dict.{get}
use kirov_server_emulator.Prelude.Strings.{split_once, split_once-Free}
use kirov_server_emulator.Master.Response.{
  end_marker, room_marker, classic_values, encode_field_value_classic, field_names, field_type_of,
  str0,
}
use kirov_server_emulator.Prelude.{
  List, Option, [], if◌then◌else◌, list_beq, list_eq, nat_eq, none, option_eq, pair_eq, some, suc,
  zero, ℕ, ◌==◌, ◌∷◌, All, drop, length, map, refl, take, ◌++◌, ◌≡◌,
}
use mathlib.Core.List.{append_assoc}
use kirov_server_emulator.Prelude.Text.{Text, Free}
use kirov_server_emulator.Prelude.Words.{Bytes, be32, ◌>>=◌}

-- So many strings, each with the mark in front of it and a zero byte behind it.
unfoldable pub read_strings : ℕ → ℕ → Bytes → Option (List Bytes × Bytes)
read_strings mark zero rest = some ([], rest)
read_strings mark (suc n) [] = none
read_strings mark (suc n) (b ∷ rest) = do
  (s, behind) ← split_once 0 rest
  (ss, end) ← read_strings mark n behind
  if b == mark then some (s ∷ ss, end) else none

abbrev read_end : Bytes → Option (List (ℕ × List Bytes))
read_end rest = if list_beq rest end_marker then some [] else none

-- The number of a room and its values.
unfoldable pub read_entry : ℕ → Bytes → Option ((ℕ × List Bytes) × Bytes)
read_entry n (a ∷ b ∷ c ∷ d ∷ rest) = do
  (values, behind) ← read_strings 255 n rest
  some ((be32 a b c d, values), behind)
read_entry n data_ = none

-- The rooms up to the end marker. The fuel is the number of entries, with the end.
unfoldable pub read_rooms : ℕ → ℕ → Bytes → Option (List (ℕ × List Bytes))
unfolding read_entry list_beq
read_rooms zero n data_ = none
read_rooms (suc k) n [] = none
read_rooms (suc k) n (m ∷ rest) =
    let more : Option (List (ℕ × List Bytes)) = (do
      (room, behind) ← read_entry n rest
      rooms ← read_rooms k n behind
      some (room ∷ rooms)) in
    if m == 0 then read_end rest else if m == room_marker then more else none

-- The field list with the separator behind it, then the rooms.
unfoldable pub read_body : Bytes → Option (List Bytes × List (ℕ × List Bytes))
read_body [] = none
read_body (n ∷ rest) = do
  (names, behind) ← read_strings 0 n rest
  rooms ← read_rooms (length behind) n (drop 1 behind)
  some (names, rooms)

-- The address of the client, the names of the fields, and the rooms.
unfoldable pub read_room_list : Bytes → Option (Bytes × List Bytes × List (ℕ × List Bytes))
unfolding read_body
read_room_list data_ = do
  (names, rooms) ← read_body (drop 6 data_)
  some (take 4 data_, names, rooms)

module _ (enc : Text → Bytes) where
  -- The encoded text has no zero byte.
  abbrev pub IsString : Text → Type 0
  IsString s = Free 0 (enc s)

  str0-append :
      (s : Text) (rest : Bytes)
      → IsString s
      → split_once 0 (str0 enc s ++ rest) ≡ some (enc s, rest)
  str0-append s rest h = rw (append_assoc (enc s) (0 ∷ []) rest) (split_once-Free 0 (enc s) rest h)

  pub read_strings-classic_values :
      (value_of : Text → Text) (fs : List Text) (rest : Bytes)
      → All (λ f. IsString (value_of f)) fs
      → read_strings 255 (length fs) (classic_values enc value_of fs ++ rest)
        ≡ some (map (λ f. enc (value_of f)) fs, rest)
  unfolding read_strings classic_values encode_field_value_classic
  read_strings-classic_values value_of [] rest h = refl
  read_strings-classic_values value_of (f ∷ fs) rest h =
      rw
        (
          append_assoc (str0 enc (value_of f)) (classic_values enc value_of fs) rest,
          str0-append (value_of f) (classic_values enc value_of fs ++ rest) h.0,
          read_strings-classic_values value_of fs rest h.1,
        )
        refl

  -- Without types the names are all written, as strings.
  pub field_names-some :
      (fs : List Text)
      → All IsString fs
      → (names : Bytes) × (field_names enc [] fs ≡ some names)
        × ((rest : Bytes) → read_strings 0 (length fs) (names ++ rest) ≡ some (map enc fs, rest))
  unfolding read_strings field_names field_type_of get
  field_names-some [] h = ([], refl, λ rest. refl)
  field_names-some (f ∷ fs) h =
      let (names, written, reads) = field_names-some fs h.1 in
      (
        0 ∷ str0 enc f ++ names,
        rw written refl,
        λ rest.
            rw (append_assoc (str0 enc f) names rest, str0-append f (names ++ rest) h.0, reads rest)
              refl,
      )
