-- ===== src/Master/Handler.antt =====
-- QueryMasterHandler of app/servers/query_master_tcp.py. `is_float` says whether float() accepts a text,
-- and the random bytes of a cipher are a `Draw`. `none` is an exception, which ends up in
-- `_process_packet`.
use kirov_server_emulator.Master.Matching.{filter_games}
use kirov_server_emulator.Master.FilterParser.{
  FilterValue, float_value, int_value, parse_filter_string, str_value,
}
use kirov_server_emulator.Prelude.Dict.{get}
use kirov_server_emulator.Master.Registry.{GameSessionRegistry, get_games}
use kirov_server_emulator.Prelude.Strings.{or_else, truthy}
use kirov_server_emulator.NatNeg.Client.{field}
use kirov_server_emulator.Master.Filters.{Condition}
use kirov_server_emulator.Cipher.EncTypeX.{encode, encrypt, new_cipher}
use kirov_server_emulator.Master.Request.{QueryRequest, is_room_list_request, parse_tcp_query}
use kirov_server_emulator.Master.Response.{
  GameEntry, RoomEntry, build_game_list_response, build_room_list_response,
}
use kirov_server_emulator.Prelude.{
  Bool, List, Option, [], false, if◌then◌else◌, list_eq, ltb, nat_beq, nat_eq, none, not, option_eq,
  pair_eq, some, true, ℕ, ◌&&◌, ◌++◌, ◌+◌, ◌<◌, ◌==◌, ◌||◌, ◌∷◌,
}
use kirov_server_emulator.Prelude.Text.{Text, codes, int_of}
use kirov_server_emulator.Prelude.Words.{Bytes, ◌>>=◌}
pub mod RoomQuery

-- What EncTypeX draws at random for one response.
pub record Draw : Type 0 where
  pub salt : Bytes
  pub padding : Bytes

pub record QueryMasterHandler : Type 0 where
  pub master_ip : Text
  pub master_port : ℕ
  pub gamekey : Text
  pub rooms : List RoomEntry
  pub games : List GameEntry

-- QueryMasterHandler(…), `configured` being app_config.game.gamekey
abbrev pub new_handler : Text → Text → ℕ → Option Text → QueryMasterHandler
new_handler configured master_ip master_port gamekey = record {
  master_ip = master_ip;
  master_port = master_port;
  gamekey = or_else gamekey configured;
  rooms = [];
  games = [];
}

abbrev pub set_rooms : QueryMasterHandler → List RoomEntry → QueryMasterHandler
set_rooms h rooms = record h { rooms = rooms }

abbrev pub set_games : QueryMasterHandler → List GameEntry → QueryMasterHandler
set_games h games = record h { games = games }

-- s.encode("latin-1"); `none` is UnicodeEncodeError
unfoldable pub latin1 : Text → Option Bytes
latin1 [] = some []
latin1 (c ∷ s) = do rest ← latin1 s; if ltb c 256 then some (c ∷ rest) else none

abbrev answer_or : Option Bytes → Bytes → Bytes
answer_or none response = response
answer_or (some encrypted) response = encrypted

-- An exception of the cipher is caught: the response goes out as it is.
unfoldable pub encrypt_response : QueryMasterHandler → Draw → Bytes → Bytes → Bytes
encrypt_response h random response validate_token =
    answer_or
      (do
        key ← latin1 h.gamekey
        cipher ← new_cipher key validate_token random.salt
        some (encode cipher random.padding response).1)
      response

abbrev pub default_fields : List Text
default_fields =
    codes "hostname"
    ∷ codes "numwaiting"
    ∷ codes "maxwaiting"
    ∷ codes "numservers"
    ∷ codes "numplayers"
    ∷ codes "roomType"
    ∷ []

-- request.fields if request.fields else […]
abbrev pub fields_or : List Text → List Text → List Text
fields_or [] fields = fields
fields_or (f ∷ fs) fields = f ∷ fs

module _ (utf8_encode : Text → Bytes) (inet_aton : Text → Option Bytes) where
  unfoldable pub handle_room_list_request : QueryMasterHandler → QueryRequest → Text → Option Bytes
  unfolding build_room_list_response
  handle_room_list_request h request client_ip =
      build_room_list_response utf8_encode inet_aton h.rooms
        (fields_or request.fields default_fields) client_ip

  module _ (is_float : Text → Bool) where
    unfoldable pub handle_game_list_request :
        QueryMasterHandler → GameSessionRegistry → QueryRequest → Text → Option Bytes
    unfolding build_game_list_response filter_games get_games
    handle_game_list_request h registry request client_ip = do
      games ←
          filter_games (get_games registry ++ h.games)
            (parse_filter_string is_float request.filter_string)
      build_game_list_response utf8_encode inet_aton games request.fields client_ip
          request.validate_token

    abbrev pub respond :
        QueryMasterHandler → GameSessionRegistry → QueryRequest → Text → Option Bytes
    respond h registry request client_ip =
        if is_room_list_request request
        then handle_room_list_request h request client_ip
        else handle_game_list_request h registry request client_ip

    abbrev pub protect : QueryMasterHandler → Draw → Bool → QueryRequest → Bytes → Bytes
    protect h random encrypt request response =
        if encrypt && truthy response && truthy request.validate_token
        then encrypt_response h random response request.validate_token
        else response

    unfoldable pub answer_query :
        QueryMasterHandler → GameSessionRegistry → Draw → QueryRequest → Text → Bool → Option Bytes
    answer_query h registry random request client_ip encrypt =
        if truthy request.game_name
        then (do
          response ← respond h registry request client_ip
          some (protect h random encrypt request response))
        else some []

    unfoldable pub handle_query :
        (Bytes → Text)
        → QueryMasterHandler
        → GameSessionRegistry
        → Draw
        → Bytes
        → Text
        → Bool
        → Option Bytes
    handle_query utf8_decode h registry random data_ client_ip encrypt =
        answer_query h registry random (parse_tcp_query utf8_decode data_) client_ip encrypt
