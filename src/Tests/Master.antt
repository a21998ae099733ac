-- ===== src/Tests/Master.antt =====
-- The messages of the master server at concrete inputs.

use kirov_server_emulator.NatNeg.Packets.{ip_bytes_to_string}
use kirov_server_emulator.Prelude.Dict.{get, Dict}
use kirov_server_emulator.Master.Filters.{
  Condition, apply_filters_to_dict, apply_filters_to_dict-append, generate_sql_where_clause,
}
use kirov_server_emulator.Master.Response.Errors.{build_game_result_message_raises}
use kirov_server_emulator.Master.Request.Layout.{query_request}
use kirov_server_emulator.Master.Request.{is_room_list_request}
use kirov_server_emulator.Prelude.{
  List, Option, [], arith, list_eq, nat_eq, none, option_eq, pair_eq, refl, some, true, ◌∷◌, ◌≡◌,
  contains, list_beq, ℕ, false,
}
use kirov_server_emulator.Master.Response.{
  GameEntry, RoomEntry, build_game_result_message, build_value_map_message, compute_query_key,
  new_game, field_type_of, game_field_value,
}
use kirov_server_emulator.Master.Response.Framing.{
  framing, framing-build_value_map_message, names_size,
}
use kirov_server_emulator.Master.DefaultRooms.{new_room}
use kirov_server_emulator.Prelude.Text.{Text, codes, decimal, int_of, join}
use kirov_server_emulator.Prelude.Words.{Bytes}

abbrev asked_fields : List Text
asked_fields = codes "hostname" ∷ codes "numwaiting" ∷ []

is_room_list_request_test :
    is_room_list_request (query_request [] 0 [] [] [] [] [] asked_fields []) ≡ true
unfolding is_room_list_request contains list_beq
is_room_list_request_test = refl

abbrev one_room : RoomEntry
one_room = new_room 0x0881 (codes "ChatRoom1") 1

abbrev local_address : Text → Option Bytes
local_address s = some (10 ∷ 0 ∷ 0 ∷ 1 ∷ [])

framing-build_value_map_message_example :
    framing (build_value_map_message (λ s. s) asked_fields ((codes "numwaiting", 1) ∷ []))
    ≡ some (26, 26)
unfolding names_size
framing-build_value_map_message_example =
    framing-build_value_map_message (λ s. s) asked_fields ((codes "numwaiting", 1) ∷ [])
      (omega arith, tt)

abbrev crowded_game : GameEntry
crowded_game =
    new_game (codes "10.0.0.1") (false, 6500) (codes "10.0.0.1") (false, 6500) none none
      ((codes "numplayers", codes "300") ∷ [])

build_game_result_message_raises_example :
    build_game_result_message
      (λ s. s)
      local_address
      crowded_game
      (codes "numplayers" ∷ [])
      ((codes "numplayers", 1) ∷ [])
    ≡ none
unfolding contains list_beq field_type_of int_of game_field_value new_game decimal
build_game_result_message_raises_example =
    build_game_result_message_raises (λ s. s) local_address crowded_game (codes "numplayers" ∷ [])
      ((codes "numplayers", 1) ∷ []) (codes "numplayers") 300 refl refl refl (omega arith)

compute_query_key_test : compute_query_key (0xFC ∷ 0 ∷ []) ≡ 0 ∷ 0xC9 ∷ []
unfolding compute_query_key
compute_query_key_test = refl

abbrev mode_is : ℕ → Option Text → Condition ℕ
mode_is n logic = record { field = codes "mode"; operator = codes "="; value = n; logic = logic }

-- The filter `(mode=1) OR (mode=2)` drops a game of mode 1.
apply_filters_to_dict-append_example :
    apply_filters_to_dict
      (((codes "mode", 1) ∷ []) ∷ [])
      (mode_is 1 none ∷ mode_is 2 (some (codes "OR")) ∷ [])
    ≡ []
unfolding apply_filters_to_dict get list_beq
apply_filters_to_dict-append_example =
    apply_filters_to_dict-append (((codes "mode", 1) ∷ []) ∷ []) (mode_is 1 none ∷ [])
      (mode_is 2 none) (some (codes "OR"))

generate_sql_where_clause_test :
    generate_sql_where_clause decimal (mode_is 1 none ∷ mode_is 2 (some (codes "OR")) ∷ [])
    ≡ codes "WHERE `mode` = 1 OR `mode` = 2"
unfolding generate_sql_where_clause join decimal
generate_sql_where_clause_test = refl

abbrev heartbeat : Dict Text Text
heartbeat = (codes "publicip", codes "-939480896") ∷ (codes "hostport", codes "16000") ∷ []

abbrev shown_address : Bytes → Text
shown_address = ip_bytes_to_string
