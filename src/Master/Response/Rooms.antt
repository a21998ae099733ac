-- ===== src/Master/Response/Rooms.antt =====
-- A room list is written and read back.
use kirov_server_emulator.Master.Request.Layout.{drop_prefix, take_prefix}
use kirov_server_emulator.Master.Response.Reading.{
  IsString, read_entry, read_rooms, read_strings-classic_values, field_names-some, read_body,
  read_room_list,
}
use kirov_server_emulator.Prelude.{
  All, List, [], arith, length, length-append, list_eq, lt→ltb, map, nat_eq, option_eq, pair_eq,
  refl, some, suc, ℕ, ◌++◌, ◌<◌, ◌∷◌, ◌≡◌, ◌≤◌, Option, zero, drop, sym,
}
use kirov_server_emulator.Master.Response.{
  RoomEntry, classic_values, end_marker, room_entries, room_entry, room_field_value, room_marker,
  build_room_list_response, make_field_list,
}
use mathlib.Core.List.{append_assoc}
use kirov_server_emulator.Prelude.Text.{Text}
use kirov_server_emulator.Prelude.Words.{Bytes, be32-bytes32, bytes32, pack_u32, pack_u8}

-- The room can be written: its number fits four bytes, and no value has a zero byte.
abbrev pub IsWritable : (Text → Bytes) → List Text → RoomEntry → Type 0
IsWritable enc fs room =
    (room.room_id < 4294967296) × All (λ f. IsString enc (room_field_value room f)) fs

-- What a client sees of a room.
abbrev pub room_view : (Text → Bytes) → List Text → RoomEntry → ℕ × List Bytes
room_view enc fs room = (room.room_id, map (λ f. enc (room_field_value room f)) fs)

pack_u32-some : (n : ℕ) → n < 4294967296 → pack_u32 n ≡ some (bytes32 n)
pack_u32-some n h = rw (lt→ltb n 4294967296 h) refl

pub pack_u8-some : (n : ℕ) → n < 256 → pack_u8 n ≡ some (n ∷ [])
pack_u8-some n h = rw (lt→ltb n 256 h) refl

drop_six : (ip body : Bytes) → length ip ≡ 4 → drop 6 (ip ++ (0 ∷ 0 ∷ body)) ≡ body
drop_six ip body four =
    rw (sym (append_assoc ip (0 ∷ 0 ∷ []) body))
      (drop_prefix 6 (ip ++ 0 ∷ 0 ∷ []) body (rw (length-append ip (0 ∷ 0 ∷ []), four) refl))

module _ (enc : Text → Bytes) where
  read_entry-bytes32 :
      (fs : List Text) (room : RoomEntry) (rest : Bytes)
      → All (λ f. IsString enc (room_field_value room f)) fs
      → read_entry
          (length fs)
          (bytes32 room.room_id ++ (classic_values enc (room_field_value room) fs ++ rest))
        ≡ some (room_view enc fs room, rest)
  unfolding read_entry
  read_entry-bytes32 fs room rest h =
      rw
        (
          read_strings-classic_values enc (room_field_value room) fs rest h,
          be32-bytes32 room.room_id,
        )
        refl

  read_rooms-room :
      (fs : List Text) (room : RoomEntry) (rooms : List RoomEntry) (rest : Bytes)
      → All (λ f. IsString enc (room_field_value room f)) fs
      → ((k : ℕ)
          → length rooms ≤ k
          → read_rooms (suc k) (length fs) rest ≡ some (map (room_view enc fs) rooms))
      → (k : ℕ) → suc (length rooms) ≤ k
      → read_rooms (suc k) (length fs) (
          room_marker
          ∷ (bytes32 room.room_id ++ (classic_values enc (room_field_value room) fs ++ rest)))
        ≡ some (room_view enc fs room ∷ map (room_view enc fs) rooms)
  unfolding read_rooms
  read_rooms-room fs room rooms rest h reads zero le = absurd (omega arith)
  read_rooms-room fs room rooms rest h reads (suc k) le =
      rw (read_entry-bytes32 fs room rest h, reads k (omega arith)) refl

  room_entries-some :
      (fs : List Text) (rooms : List RoomEntry)
      → All (IsWritable enc fs) rooms
      → (entries : Bytes) × (room_entries enc fs rooms ≡ some entries)
        × (length rooms ≤ length entries)
        × ((k : ℕ)
            → length rooms ≤ k
            → read_rooms (suc k) (length fs) (entries ++ (0 ∷ end_marker))
              ≡ some (map (room_view enc fs) rooms))
  unfolding room_entries room_entry read_rooms
  room_entries-some fs [] h = ([], refl, omega arith, λ k le. refl)
  room_entries-some fs (room ∷ rooms) h =
      let (entries, written, le, reads) = room_entries-some fs rooms h.1 in
      let values : Bytes = classic_values enc (room_field_value room) fs in
      (
        (room_marker ∷ bytes32 room.room_id ++ values) ++ entries,
        rw (pack_u32-some room.room_id h.0.0, written) refl,
        rw (length-append values entries) (omega arith),
        λ k bound.
            rw (append_assoc values entries (0 ∷ end_marker))
              (read_rooms-room fs room rooms (entries ++ (0 ∷ end_marker)) h.0.1 reads k bound),
      )

-- The room list that is sent is read back by a client that follows the documented layout: its own
-- address, the names of the fields, and each room with its number and the values of those fields, in
-- order. There are fewer than 256 fields, the numbers fit four bytes, the address has four bytes, and
-- no name or value has a zero byte.
pub read_room_list-build_room_list_response :
    (enc : Text → Bytes) (inet_aton : Text → Option Bytes) (client_ip : Text) (ip : Bytes)
    (fs : List Text) (rooms : List RoomEntry)
    → inet_aton client_ip ≡ some ip
    → length ip ≡ 4
    → length fs < 256
    → All (IsString enc) fs
    → All (IsWritable enc fs) rooms
    → (message : Bytes) × (build_room_list_response enc inet_aton rooms fs client_ip ≡ some message)
      × (read_room_list message ≡ some (ip, map enc fs, map (room_view enc fs) rooms))
unfolding build_room_list_response make_field_list read_room_list read_body
read_room_list-build_room_list_response enc inet_aton client_ip ip fs rooms known four few strings
      writable =
    let (names, named, read_names) = field_names-some enc fs strings in
    let (entries, written, le, reads) = room_entries-some enc fs rooms writable in
    let end : Bytes = 0 ∷ (entries ++ (0 ∷ end_marker)) in
    let body : Bytes = (length fs ∷ names) ++ end in
    let long : length rooms ≤ length (entries ++ (0 ∷ end_marker)) =
      rw (length-append entries (0 ∷ end_marker)) (omega (arith, le)) in
    let behind : read_body body ≡ some (map enc fs, map (room_view enc fs) rooms) =
      rw (read_names end, reads (length (entries ++ (0 ∷ end_marker))) long) refl in
    (
      ip ++ (0 ∷ 0 ∷ body),
      rw (known, pack_u8-some (length fs) few, named, written) refl,
      rw (drop_six ip body four, take_prefix 4 ip (0 ∷ 0 ∷ body) four, behind) refl,
    )
