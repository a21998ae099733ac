-- ===== src/Tests/MasterServer.antt =====
-- The master server at concrete inputs: a query, packets and filters.

use kirov_server_emulator.Master.FilterParser.Operators.{AllReached, parse_filter_string-AllReached}
use kirov_server_emulator.Master.FilterParser.{int_value, parse_filter_string, str_value}
use kirov_server_emulator.Master.Response.{room_field_value}
use kirov_server_emulator.Master.Connection.{data_received, process_packets}
use kirov_server_emulator.Cipher.EncTypeX.Schedule.{new_cipher_total}
use kirov_server_emulator.Master.DefaultRooms.{new_room}
use kirov_server_emulator.Master.Response.Reading.{read_room_list}
use kirov_server_emulator.Master.Request.Layout.{query_bytes}
use kirov_server_emulator.Master.Handler.RoomQuery.{handle_query_lem}
use kirov_server_emulator.Master.Connection.Framing.{
  data_received-stream, process_packets_hangs, answers, stream,
}
use kirov_server_emulator.Master.Handler.{
  Draw, QueryMasterHandler, handle_query, new_handler, set_rooms, latin1,
}
use kirov_server_emulator.Prelude.{
  List, Option, [], arith, false, list_eq, nat_eq, none, option_eq, pair_eq, refl, some, true, ℕ,
  ◌∷◌, ◌≡◌, contains, list_beq, Bool, ◌++◌,
}
use kirov_server_emulator.Prelude.Text.{Text, codes, decimal}
use kirov_server_emulator.Prelude.Words.{Bytes}
use kirov_server_emulator.Cipher.EncTypeX.{decode, EncTypeX}

abbrev asked_fields : List Text
asked_fields = codes "hostname" ∷ codes "numwaiting" ∷ []

abbrev pub same_text : Text → Bytes
same_text s = s

abbrev pub same_bytes : Bytes → Text
same_bytes s = s

abbrev pub any_address : Text → Option Bytes
any_address s = some (10 ∷ 0 ∷ 0 ∷ 1 ∷ [])

abbrev no_float : Text → Bool
no_float s = false

abbrev game_token : Bytes
game_token = 1 ∷ 0 ∷ 3 ∷ 4 ∷ 5 ∷ 6 ∷ 7 ∷ 8 ∷ []

abbrev game_key : Bytes
game_key = 100 ∷ 117 ∷ 98 ∷ []

abbrev room_handler : QueryMasterHandler
room_handler =
    set_rooms (new_handler (codes "dub") (codes "0.0.0.0") 0 none)
      (new_room 0x0881 (codes "ChatRoom1") 1 ∷ [])

abbrev some_random : Draw
some_random = record { salt = 9 ∷ 8 ∷ 7 ∷ []; padding = 1 ∷ 2 ∷ [] }

handle_query_lem_example :
    let (d, made) = new_cipher_total game_key game_token (4 ∷ []) (omega arith) (omega arith) in
    (answer : Bytes) × (message : Bytes) × (d' : EncTypeX) × (handle_query same_text any_address
        no_float same_bytes room_handler
        (record { sessions = [] })
        some_random
        (query_bytes same_text 60
          (0 ∷ 1 ∷ 3 ∷ 0 ∷ 0 ∷ 1 ∷ [])
          (codes "ra3")
          (codes "ra3")
          game_token
          []
          asked_fields
          [])
        (codes "10.0.0.1")
        true
      ≡ some answer)
    × (decode d answer ≡ some (d', message))
    × (read_room_list message
        ≡ some
            (10 ∷ 0 ∷ 0 ∷ 1 ∷ [], asked_fields, (0x0881, codes "ChatRoom1" ∷ codes "0" ∷ []) ∷ []))
unfolding contains list_beq room_field_value decimal latin1
handle_query_lem_example =
    handle_query_lem same_text same_bytes any_address no_float (λ s. refl) (λ s h. h) room_handler
      (record { sessions = [] }) some_random 60 (0 ∷ 1 ∷ 3 ∷ 0 ∷ 0 ∷ 1 ∷ []) game_token []
      (codes "ra3") (codes "ra3") [] asked_fields (codes "10.0.0.1") (10 ∷ 0 ∷ 0 ∷ 1 ∷ []) game_key
      (4 ∷ []) (new_cipher_total game_key game_token (4 ∷ []) (omega arith) (omega arith)).0 refl
      refl
      (
        (refl, (refl, (refl, tt))),
        (
          (refl, (refl, (refl, tt))),
          (
            tt,
            (
              (refl, (refl, (refl, (refl, (refl, (refl, (refl, (refl, tt)))))))),
              (
                (refl, (refl, (refl, (refl, (refl, (refl, (refl, (refl, (refl, (refl, tt)))))))))),
                tt,
              ),
            ),
          ),
        ),
      )
      (
        ((refl, (refl, (refl, (refl, (refl, (refl, (refl, (refl, tt)))))))), refl),
        (
          (
            (refl, (refl, (refl, (refl, (refl, (refl, (refl, (refl, (refl, (refl, tt)))))))))),
            refl,
          ),
          tt,
        ),
      )
      refl refl (omega arith)
      (
        (
          omega arith,
          (
            (refl, (refl, (refl, (refl, (refl, (refl, (refl, (refl, (refl, tt))))))))),
            ((refl, tt), tt),
          ),
        ),
        tt,
      )
      refl refl refl (omega arith)
      (new_cipher_total game_key game_token (4 ∷ []) (omega arith) (omega arith)).1

abbrev echo : ℕ → Bytes → Text → Option Bytes
echo n packet ip = some (n ∷ packet)

process_packets_hangs_example :
    process_packets echo 1000 (record { peername = none; buffer = 0 ∷ 0 ∷ 7 ∷ []; processed = 0 })
    ≡ none
process_packets_hangs_example =
    process_packets_hangs echo (7 ∷ [])
      (record { peername = none; buffer = 0 ∷ 0 ∷ 7 ∷ []; processed = 0 }) 1000 refl

data_received-stream_example :
    data_received echo 3
      (record { peername = none; buffer = 0 ∷ []; processed = 4 })
      (3 ∷ 9 ∷ 0 ∷ 2 ∷ 5 ∷ [])
    ≡ some (
      record { peername = none; buffer = 5 ∷ []; processed = 6 },
      (4 ∷ 0 ∷ 3 ∷ 9 ∷ []) ∷ (5 ∷ 0 ∷ 2 ∷ []) ∷ [],
    )
unfolding stream answers
data_received-stream_example =
    data_received-stream echo (record { peername = none; buffer = 0 ∷ []; processed = 4 })
      (3 ∷ 9 ∷ 0 ∷ 2 ∷ 5 ∷ []) ((0 ∷ 3 ∷ 9 ∷ []) ∷ (0 ∷ 2 ∷ []) ∷ []) (5 ∷ []) 3 refl
      ((omega arith, refl), ((omega arith, refl), tt)) refl (omega arith)

parse_filter_string_test :
    parse_filter_string no_float (codes " (groupid=2166) AND (mode != 'closed') OR (numplayers<=4)")
    ≡ record {
      field = codes "groupid";
      operator = codes "=";
      value = int_value (false, 2166);
      logic = none;
    }
      ∷ record {
        field = codes "mode";
        operator = codes "!=";
        value = str_value (codes "closed");
        logic = some (codes "AND");
      }
      ∷ record {
        field = codes "numplayers";
        operator = codes "<";
        value = str_value (codes "=4");
        logic = some (codes "OR");
      }
      ∷ []
unfolding parse_filter_string
parse_filter_string_test = refl

-- The pattern of a value matches no newline, so `<` fails here.
parse_filter_string_newline_test :
    parse_filter_string no_float (codes "numplayers<=" ++ 10 ∷ codes "4")
    ≡ record {
      field = codes "numplayers";
      operator = codes "<=";
      value = int_value (false, 4);
      logic = none;
    }
      ∷ []
unfolding parse_filter_string
parse_filter_string_newline_test = refl

abbrev two_conditions : Text
two_conditions = codes "(mode>=1) AND (open!=0)"

parse_filter_string-AllReached_example : AllReached (parse_filter_string no_float two_conditions)
parse_filter_string-AllReached_example =
    parse_filter_string-AllReached no_float two_conditions (ground arith)
