-- ===== src/Master/Request.antt =====
-- The TCP request of app/servers/query_master_parsing.py: parse_tcp_query and is_room_list_request.
-- The position in the data is the suffix that starts there. `utf8_decode` is
-- bytes.decode("utf-8", errors="ignore").
use kirov_server_emulator.Prelude.Strings.{split_once, truthy}
use kirov_server_emulator.Prelude.{
  length, Bool, List, Option, [], contains, drop, false, if◌then◌else◌, leb, list_eq, ltb, nat_eq,
  none, option_eq, pair_eq, some, take, ℕ, ◌==◌, ◌||◌, ◌∷◌,
}
use kirov_server_emulator.Prelude.Text.{Text, codes, split}
use kirov_server_emulator.Prelude.Words.{Bytes, be16, byte_at}
pub mod Layout

pub record QueryRequest : Type 0 where
  pub length : ℕ
  pub header : Bytes
  pub game_name : Text
  pub game_name2 : Text
  pub validate_token : Bytes
  pub filter_string : Text
  pub fields : List Text
  pub tail : Bytes
  pub raw_data : Bytes

-- QueryRequest(raw_data=data)
abbrev pub new_request : Bytes → QueryRequest
new_request data_ = record {
  length = 0;
  header = [];
  game_name = [];
  game_name2 = [];
  validate_token = [];
  filter_string = [];
  fields = [];
  tail = [];
  raw_data = data_;
}

abbrev found : Bytes → Option (Bytes × Bytes) → Option Bytes × Bytes
found rest none = (none, rest)
found rest (some (s, behind)) = (some s, behind)

-- The bytes up to the next zero and what is behind it; the position stays where no zero follows.
abbrev pub read_string : Bytes → Option Bytes × Bytes
read_string rest = found rest (split_once 0 rest)

abbrev pub skip_separator : Bytes → Bytes
skip_separator [] = []
skip_separator (b ∷ rest) = if b == 0 then rest else b ∷ rest

abbrev pub read_token : Bytes → Bytes × Bytes
read_token rest = if leb 8 (length rest) then (take 8 rest, drop 8 rest) else ([], rest)

-- The field keeps its default where the string is missing.
abbrev pub text_of : (Bytes → Text) → Option Bytes → Text
text_of utf8_decode none = []
text_of utf8_decode (some bs) = utf8_decode bs

-- [f for f in parts if f]
unfoldable pub nonempty : List Text → List Text
nonempty [] = []
nonempty (f ∷ fs) = let rest = nonempty fs in if truthy f then f ∷ rest else rest

abbrev pub fields_of : (Bytes → Text) → Option Bytes → List Text
fields_of utf8_decode none = []
fields_of utf8_decode (some bs) = nonempty (split b'\\' (utf8_decode bs))

unfoldable pub parse_tcp_query : (Bytes → Text) → Bytes → QueryRequest
parse_tcp_query utf8_decode data_ =
    let (game_name, rest1) = read_string (skip_separator (drop 8 data_)) in
    let (game_name2, rest2) = read_string rest1 in
    let (token, rest3) = read_token rest2 in
    let (filter, rest4) = read_string rest3 in
    let (fields, rest5) = read_string rest4 in
    if ltb (length data_) 2 then new_request data_ else record {
      length = be16 (byte_at data_ 0) (byte_at data_ 1);
      header = if leb 8 (length data_) then take 6 (drop 2 data_) else [];
      game_name = text_of utf8_decode game_name;
      game_name2 = text_of utf8_decode game_name2;
      validate_token = token;
      filter_string = text_of utf8_decode filter;
      fields = fields_of utf8_decode fields;
      tail = rest5;
      raw_data = data_;
    }

abbrev pub room_specific_fields : List Text
room_specific_fields = codes "numwaiting" ∷ codes "maxwaiting" ∷ codes "roomType" ∷ []

-- bool(xs & set(ys))
unfoldable pub meets : List Text → List Text → Bool
meets [] ys = false
meets (x ∷ xs) ys = contains ys x || meets xs ys

unfoldable pub is_room_list_request : QueryRequest → Bool
unfolding meets
is_room_list_request request = meets room_specific_fields request.fields
