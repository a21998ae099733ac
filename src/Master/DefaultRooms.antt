-- ===== src/Master/DefaultRooms.antt =====
-- The rooms of Red Alert 3 that app/servers/query_master_parsing.py lists.
use kirov_server_emulator.Prelude.{List, [], list_eq, nat_eq, option_eq, pair_eq, ℕ, ◌∷◌}
use kirov_server_emulator.Master.Response.{RoomEntry}
use kirov_server_emulator.Prelude.Text.{Text, codes}

-- RoomEntry(room_id, hostname, room_type), with the defaults of the other fields
abbrev pub new_room : ℕ → Text → ℕ → RoomEntry
new_room room_id hostname room_type = record {
  room_id = room_id;
  hostname = hostname;
  numwaiting = 0;
  maxwaiting = 200;
  numservers = 0;
  numplayers = 0;
  room_type = room_type;
}

abbrev pub create_default_rooms : List RoomEntry
create_default_rooms =
    new_room 0x0881 (codes "ChatRoom1") 1
    ∷ new_room 0x0896 (codes "ChatRoom1") 2
    ∷ new_room 0x0876 (codes "LobbyRoom:1") 1
    ∷ new_room 0x0877 (codes "LobbyRoom:2") 1
    ∷ new_room 0x0878 (codes "LobbyRoom:3") 1
    ∷ new_room 0x0879 (codes "LobbyRoom:4") 1
    ∷ new_room 0x087A (codes "LobbyRoom:5") 1
    ∷ new_room 0x0880 (codes "LobbyRoom:6") 1
    ∷ new_room 0x0884 (codes "LobbyRoom:7") 1
    ∷ new_room 0x0882 (codes "LobbyRoom:8") 1
    ∷ new_room 0x0885 (codes "LobbyRoom:9") 1
    ∷ new_room 0x0887 (codes "LobbyRoom:10") 1
    ∷ new_room 0x0883 (codes "LobbyRoom:11") 1
    ∷ new_room 0x0886 (codes "LobbyRoom:12") 1
    ∷ new_room 0x0889 (codes "LobbyRoom:13") 1
    ∷ new_room 0x088B (codes "LobbyRoom:14") 1
    ∷ new_room 0x088D (codes "LobbyRoom:15") 1
    ∷ new_room 0x088C (codes "LobbyRoom:16") 1
    ∷ new_room 0x0923 (codes "LobbyRoom:17") 1
    ∷ new_room 0x0924 (codes "LobbyRoom:18") 1
    ∷ new_room 0x0925 (codes "LobbyRoom:19") 1
    ∷ new_room 0x0926 (codes "LobbyRoom:20") 1
    ∷ new_room 0x0927 (codes "LobbyRoom:21") 1
    ∷ new_room 0x0928 (codes "LobbyCoop:1") 1
    ∷ new_room 0x0929 (codes "LobbyCoop:2") 1
    ∷ new_room 0x092A (codes "LobbyCoop:3") 1
    ∷ new_room 0x092B (codes "LobbyCoop:4") 1
    ∷ new_room 0x092C (codes "LobbyCoop:5") 1
    ∷ new_room 0x0888 (codes "LobbyClan:1") 1
    ∷ new_room 0x088A (codes "LobbyClan:2") 1
    ∷ new_room 0x088F (codes "LobbyTournaments:1") 1
    ∷ new_room 0x0894 (codes "LobbyTournaments:2") 1
    ∷ new_room 0x0890 (codes "LobbyCompStomp:1") 1
    ∷ new_room 0x0892 (codes "LobbyCustomMap:1") 1
    ∷ new_room 0x0893 (codes "LobbyCustomMap:2") 1
    ∷ new_room 0x088E (codes "LobbyBeginners:1") 1
    ∷ new_room 0x0891 (codes "LobbyHardcore:1") 1
    ∷ new_room 0x087F (codes "LobbyBattlecast:1") 1
    ∷ new_room 0x087E (codes "LobbyGerman:1") 1
    ∷ new_room 0x087D (codes "LobbyGerman:2") 1
    ∷ new_room 0x087C (codes "LobbyFrench:1") 1
    ∷ new_room 0x087B (codes "LobbyKorean:1") 1
    ∷ new_room 0x092D (codes "LobbyRussian:1") 1
    ∷ new_room 0x092E (codes "LobbyTaiwan:1") 1
    ∷ new_room 0x0935 (codes "LobbySpanish:1") 1
    ∷ []
