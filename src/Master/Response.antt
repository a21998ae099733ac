-- ===== src/Master/Response.antt =====
-- The responses of app/servers/query_master_parsing.py. `utf8_encode` is str.encode("utf-8") and
-- `inet_aton` is socket.inet_aton, where `none` is OSError. A response that is `none` is an exception.
use kirov_server_emulator.Prelude.Dict.{Dict, get}
use kirov_server_emulator.Prelude.Strings.{truthy}
use kirov_server_emulator.Cipher.Arrays.{count}
use kirov_server_emulator.NatNeg.Packets.{to_byte}
use kirov_server_emulator.Prelude.{
  Bool, List, Option, [], if◌then◌else◌, length, list_eq, nat_eq, none, option_eq, pair_eq, some, ℕ,
  ◌++◌, ◌+◌, ◌==◌, ◌∷◌, not, ◌&&◌,
}
use Prim.Native.Nat.{bit_xor}
use kirov_server_emulator.Prelude.Text.{Text, codes, decimal, int_of}
use kirov_server_emulator.Prelude.Words.{Bytes, pack_u16, pack_u32, pack_u8, ◌>>=◌}
pub mod Reading
pub mod Rooms
pub mod Framing
pub mod Errors

abbrev pub result_type_full : ℕ
result_type_full = 0x7E

abbrev pub room_marker : ℕ
room_marker = 0x40

abbrev pub end_marker : Bytes
end_marker = 255 ∷ 255 ∷ 255 ∷ 255 ∷ []

pub record RoomEntry : Type 0 where
  pub room_id : ℕ
  pub hostname : Text
  pub numwaiting : ℕ
  pub maxwaiting : ℕ
  pub numservers : ℕ
  pub numplayers : ℕ
  pub room_type : ℕ

-- The literal `field_map` of RoomEntry.get_field_value.
abbrev field_map : RoomEntry → Dict Text Text
field_map room =
    (codes "hostname", room.hostname)
    ∷ (codes "numwaiting", decimal room.numwaiting)
    ∷ (codes "maxwaiting", decimal room.maxwaiting)
    ∷ (codes "numservers", decimal room.numservers)
    ∷ (codes "numplayers", decimal room.numplayers)
    ∷ (codes "roomType", decimal room.room_type)
    ∷ []

-- field_map.get(field_name, "")
abbrev value_or_empty : Option Text → Text
value_or_empty none = []
value_or_empty (some v) = v

unfoldable pub room_field_value : RoomEntry → Text → Text
unfolding get
room_field_value room field_name = value_or_empty (get (field_map room) field_name)

-- A game, behind __post_init__. Its ports are integers, with `true` for a minus sign, and the values of
-- its fields are texts, as a heartbeat has them.
pub record GameEntry : Type 0 where
  pub public_ip : Text
  pub public_port : Bool × ℕ
  pub private_ip : Text
  pub private_port : Bool × ℕ
  pub traced_ip : Text
  pub traced_port : Bool × ℕ
  pub fields : Dict Text Text

abbrev or_default {ℓ} : {A : Type ℓ} → Option A → A → A
or_default none d = d
or_default (some a) d = a

-- GameEntry(…) with __post_init__
unfoldable pub new_game :
    Text → Bool × ℕ → Text → Bool × ℕ → Option Text → Option (Bool × ℕ) → Dict Text Text → GameEntry
new_game public_ip public_port private_ip private_port traced_ip traced_port fields = record {
  public_ip = public_ip;
  public_port = public_port;
  private_ip = private_ip;
  private_port = private_port;
  traced_ip = or_default traced_ip public_ip;
  traced_port = or_default traced_port public_port;
  fields = fields;
}

unfoldable pub game_field_value : GameEntry → Text → Text
unfolding get
game_field_value game field_name = value_or_empty (get game.fields field_name)

-- field_types.get(field_name, 0)
unfoldable pub field_type_of : Dict Text ℕ → Text → ℕ
unfolding get
field_type_of types field_name = or_default (get types field_name) 0

unfoldable pub compute_query_key : Bytes → Bytes
compute_query_key [] = 0 ∷ 0 ∷ []
compute_query_key (a ∷ []) = 0 ∷ 0 ∷ []
compute_query_key (a ∷ b ∷ token) = bit_xor a 0xFC ∷ bit_xor b 0xC9 ∷ []

-- struct.pack("!H", port)
abbrev pub pack_port : Bool × ℕ → Option Bytes
pack_port (minus, n) = if minus && not (n == 0) then none else pack_u16 n

-- ValueError becomes 0; a number outside range(256) is struct.error.
unfoldable pub packed_int : Option (Bool × ℕ) → Option Bytes
unfolding to_byte
packed_int none = some (0 ∷ [])
packed_int (some n) = do b ← to_byte n; some (b ∷ [])

unfoldable pub immediate : Text → Option Bytes
immediate value = if truthy value then packed_int (int_of value) else some (0 ∷ [])

-- struct.pack("!H", len(payload) + 2) + payload
unfoldable pub with_length : Bytes → Option Bytes
with_length payload = do prefix ← pack_u16 (length payload + 2); some (prefix ++ payload)

module _ (utf8_encode : Text → Bytes) where
  -- A text with a zero byte behind it.
  abbrev pub str0 : Text → Bytes
  str0 s = utf8_encode s ++ 0 ∷ []

  unfoldable pub field_names : Dict Text ℕ → List Text → Option Bytes
  field_names types [] = some []
  field_names types (f ∷ fs) = do
    t ← pack_u8 (field_type_of types f)
    rest ← field_names types fs
    some (t ++ (str0 f ++ rest))

  unfoldable pub make_field_list : List Text → Dict Text ℕ → Option Bytes
  make_field_list fields types = do
    count ← pack_u8 (length fields)
    names ← field_names types fields
    some (count ++ names)

  unfoldable pub encode_field_value_classic : Text → Bytes
  encode_field_value_classic value = 255 ∷ str0 value

  unfoldable pub classic_values : (Text → Text) → List Text → Bytes
  classic_values value_of [] = []
  classic_values value_of (f ∷ fs) =
      encode_field_value_classic (value_of f) ++ classic_values value_of fs

  unfoldable pub room_entry : List Text → RoomEntry → Option Bytes
  room_entry fields room = do
    id ← pack_u32 room.room_id
    some (room_marker ∷ id ++ classic_values (room_field_value room) fields)

  unfoldable pub room_entries : List Text → List RoomEntry → Option Bytes
  room_entries fields [] = some []
  room_entries fields (room ∷ rooms) = do
    entry ← room_entry fields room
    rest ← room_entries fields rooms
    some (entry ++ rest)

  unfoldable pub typed_values : GameEntry → Dict Text ℕ → List Text → Option Bytes
  typed_values game types [] = some []
  typed_values game types (f ∷ fs) = do
    value ←
        if field_type_of types f == 1
        then immediate (game_field_value game f)
        else some (str0 (game_field_value game f))
    rest ← typed_values game types fs
    some (value ++ rest)

  unfoldable pub build_value_map_message : List Text → Dict Text ℕ → Option Bytes
  build_value_map_message fields types = do
    names ← make_field_list fields types
    with_length (1 ∷ names)

  module _ (inet_aton : Text → Option Bytes) where
    unfoldable pub build_room_list_response : List RoomEntry → List Text → Text → Option Bytes
    build_room_list_response rooms fields client_ip = do
      ip ← inet_aton client_ip
      names ← make_field_list fields []
      entries ← room_entries fields rooms
      some (ip ++ (0 ∷ 0 ∷ names ++ (0 ∷ entries ++ (0 ∷ end_marker))))

    -- The addresses of a game; the traced port is not sent.
    unfoldable pub game_addresses : GameEntry → Option Bytes
    game_addresses game = do
      public_ip ← inet_aton game.public_ip
      public_port ← pack_port game.public_port
      private_ip ← inet_aton game.private_ip
      private_port ← pack_port game.private_port
      traced_ip ← inet_aton game.traced_ip
      some (public_ip ++ (public_port ++ (private_ip ++ (private_port ++ traced_ip))))

    unfoldable pub game_entries : List Text → List GameEntry → Option Bytes
    game_entries fields [] = some []
    game_entries fields (game ∷ games) = do
      addresses ← game_addresses game
      rest ← game_entries fields games
      some (
          result_type_full ∷ addresses
          ++ (classic_values (game_field_value game) fields ++ (0 ∷ rest)))

    unfoldable pub build_game_list_response :
        List GameEntry → List Text → Text → Bytes → Option Bytes
    build_game_list_response games fields client_ip validate_token = do
      ip ← inet_aton client_ip
      names ← make_field_list fields []
      entries ← game_entries fields games
      some (ip ++ (compute_query_key validate_token ++ (names ++ (0 ∷ entries ++ end_marker))))

    unfoldable pub build_game_result_message : GameEntry → List Text → Dict Text ℕ → Option Bytes
    build_game_result_message game fields types = do
      addresses ← game_addresses game
      values ← typed_values game types fields
      with_length (2 ∷ result_type_full ∷ addresses ++ values)
