-- ===== src/Tests/Heartbeats.antt =====
-- The server of heartbeats at concrete inputs.

use kirov_server_emulator.Master.HeartbeatBody.{parse_heartbeat_body}
use kirov_server_emulator.Master.Registry.{get_game}
use kirov_server_emulator.Master.HeartbeatBody.RoundTrip.{all_put, body_bytes}
use kirov_server_emulator.NatNeg.Packets.{ip_bytes_to_string}
use kirov_server_emulator.Prelude.Dict.{Dict, get}
use kirov_server_emulator.Master.Heartbeat.Listed.{
  Keeps, receive_all, receive_all-HasSessions, receive_heartbeat-Keeps, HasSessions,
}
use kirov_server_emulator.Master.Registry.Heartbeats.{game_of}
use kirov_server_emulator.Master.Heartbeat.Registering.{
  heartbeat_bytes, receive_heartbeat_registers,
}
use kirov_server_emulator.Master.Heartbeat.{
  HeartbeatMaster, new_master, receive_heartbeat, transport_made, handle_info,
}
use kirov_server_emulator.Prelude.{
  List, [], arith, false, if◌then◌else◌, list_eq, nat_eq, option_eq, pair_eq, refl, some, ℕ, ◌==◌,
  ◌∷◌, ◌≡◌, list_beq, ◌++◌,
}
use kirov_server_emulator.Prelude.Text.{Text, codes, int_of}
use kirov_server_emulator.Master.Heartbeat.Answers.{IsAnswer, receive_heartbeat-IsAnswer}
use kirov_server_emulator.Tests.MasterServer.{any_address, same_bytes, same_text}

abbrev heartbeat : List (Text × Text)
heartbeat = (codes "publicip", codes "-939480896") ∷ (codes "hostport", codes "16000") ∷ []

abbrev no_players : List (Dict Text Text) → Text
no_players ps = []

abbrev empty_master : HeartbeatMaster
empty_master = transport_made (new_master (record { sessions = [] }))

receive_heartbeat_registers_example :
    let info = all_put [] heartbeat in
    let game =
      game_of
        (ip_bytes_to_string (192 ∷ 168 ∷ 0 ∷ 200 ∷ []))
        (false, 16000)
        (false, 16000)
        (codes "9.9.9.9")
        6500
        info in
    let st =
      receive_heartbeat any_address ip_bytes_to_string same_bytes no_players empty_master
        (heartbeat_bytes same_text 7 heartbeat)
        (codes "9.9.9.9", 6500) in
    (st.sent_datagrams ≡ [])
    × (st.failed ≡ false)
    × ((j : ℕ)
        → get_game st.after.registry j
          ≡ (if 7 == j then some game else get_game (record { sessions = [] }) j))
unfolding list_beq get all_put int_of
receive_heartbeat_registers_example =
    receive_heartbeat_registers any_address ip_bytes_to_string same_text same_bytes no_players
      (λ s. refl) empty_master (codes "9.9.9.9") 6500 7 heartbeat (false, 16000) (false, 16000)
      (codes "-939480896") 192 168 0 200
      (
        (
          (refl, (refl, (refl, (refl, (refl, (refl, (refl, (refl, tt)))))))),
          refl,
          (refl, (refl, (refl, (refl, (refl, (refl, (refl, (refl, (refl, (refl, tt)))))))))),
        ),
        (
          (
            (refl, (refl, (refl, (refl, (refl, (refl, (refl, (refl, tt)))))))),
            refl,
            (refl, (refl, (refl, (refl, (refl, tt))))),
          ),
          tt,
        ),
      )
      refl refl (omega arith, (omega arith, (omega arith, (omega arith, tt)))) (omega arith) refl
      refl refl

receive_all-HasSessions_example : HasSessions (
    receive_all any_address ip_bytes_to_string same_bytes no_players empty_master (
      (heartbeat_bytes same_text 7 heartbeat, (codes "9.9.9.9", 6500))
      ∷ (8 ∷ 0 ∷ 0 ∷ 0 ∷ 7 ∷ [], (codes "9.9.9.9", 6500))
      ∷ []))
unfolding get
receive_all-HasSessions_example =
    receive_all-HasSessions any_address ip_bytes_to_string same_bytes no_players
      ((heartbeat_bytes same_text 7 heartbeat, (codes "9.9.9.9", 6500))
        ∷ (8 ∷ 0 ∷ 0 ∷ 0 ∷ 7 ∷ [], (codes "9.9.9.9", 6500))
        ∷ [])
      empty_master (λ j h. h)

receive_heartbeat-Keeps_example :
    Keeps empty_master 7
      (receive_heartbeat any_address ip_bytes_to_string same_bytes no_players empty_master
        (8 ∷ 0 ∷ 0 ∷ 0 ∷ 7 ∷ [])
        (codes "9.9.9.9", 6500)).after
receive_heartbeat-Keeps_example =
    receive_heartbeat-Keeps any_address ip_bytes_to_string same_bytes no_players empty_master
      (8 ∷ 0 ∷ 0 ∷ 0 ∷ 7 ∷ []) (codes "9.9.9.9", 6500)

abbrev hidden_host : List (Text × Text)
hidden_host = (codes "publicip", codes "0") ∷ (codes "localport", codes "16000") ∷ []

receive_heartbeat-IsAnswer_example :
    IsAnswer
      (codes "9.9.9.9", 6500)
      (receive_heartbeat any_address ip_bytes_to_string same_bytes no_players empty_master
        (heartbeat_bytes same_text 7 hidden_host)
        (codes "9.9.9.9", 6500)).sent_datagrams
receive_heartbeat-IsAnswer_example =
    receive_heartbeat-IsAnswer any_address ip_bytes_to_string same_bytes no_players
      (λ t. ((omega arith, (omega arith, (omega arith, (omega arith, tt)))), refl)) empty_master
      (heartbeat_bytes same_text 7 hidden_host) (codes "9.9.9.9", 6500)

receive_heartbeat_challenge_test :
    (receive_heartbeat any_address ip_bytes_to_string same_bytes no_players empty_master
      (heartbeat_bytes same_text 7 hidden_host)
      (codes "9.9.9.9", 6500)).sent_datagrams
    ≡ (
      0xFE ∷ 0xFD ∷ 1 ∷ 0 ∷ 0 ∷ 0 ∷ 7 ∷ codes "CHALLENGE000A0000011964" ++ 0 ∷ [],
      (codes "9.9.9.9", 6500),
    )
      ∷ []
unfolding receive_heartbeat heartbeat_bytes body_bytes handle_info list_beq parse_heartbeat_body
    int_of
receive_heartbeat_challenge_test = refl
