-- ===== src/Tests/Sending.antt =====
-- The NAT negotiation server at concrete inputs.

use kirov_server_emulator.NatNeg.Server.Silent.{on_session_ready_silent}
use kirov_server_emulator.NatNeg.Packets.{ip_bytes_to_string}
use kirov_server_emulator.Prelude.Dict.{get}
use kirov_server_emulator.Relay.Types.{new_pair}
use kirov_server_emulator.NatNeg.Protocol.Parsing.{init_body}
use kirov_server_emulator.NatNeg.Server.Requests.{init_request}
use kirov_server_emulator.Tests.Relay.{bind, relay}
use kirov_server_emulator.Prelude.{
  [], arith, list_eq, nat_eq, none, option_eq, pair_eq, refl, some, true, ◌++◌, ◌∷◌, ◌≡◌, list_beq,
  option_beq, pair_beq,
}
use kirov_server_emulator.Relay.Server.{RelayServer}
use kirov_server_emulator.NatNeg.Protocol.{reply_header}
use kirov_server_emulator.NatNeg.Header.Codec.{header_bytes}
use kirov_server_emulator.Tests.Sessions.{registers_with}
use kirov_server_emulator.NatNeg.Manager.Pairs.{allocate_pair_relay_if_missing, get_pair_attempt}
use kirov_server_emulator.NatNeg.Server.Fallback.{
  attempts_before, lan_connects, on_session_ready_direct, on_session_ready_relay, relay_connects,
  wan_connects,
}
use kirov_server_emulator.NatNeg.Manager.{
  NatNegSessionManager, connection_of, new_manager, register_client,
}
use kirov_server_emulator.NatNeg.Header.{
  NatNegClientIndex, NatNegPortType, guest, host, init_ack, nn1, nn3, port_value,
}
use kirov_server_emulator.Prelude.Text.{Text, codes}
use kirov_server_emulator.NatNeg.Client.{
  NatNegClient, NatNegClientConnection, NatNegSession, new_client, new_session, public_ip,
  get_best_connection,
}
use kirov_server_emulator.Tests.Pairs.{pair}
use kirov_server_emulator.Tests.Packets.{init_header, name, name-IsName}
use kirov_server_emulator.NatNeg.Server.{
  datagram_received, NatNegServer, handle_init, on_session_ready, run_task, scheduled, to,
}

abbrev connection : NatNegPortType → Text → NatNegClientConnection
connection t ip = connection_of (registers_with host t ip)

-- A client that has sent INIT for the given port type.
abbrev client : NatNegClientIndex → NatNegPortType → Text → NatNegClient
client i t ip = record (new_client 1000 i []) {
  connections = (port_value t, connection t ip) ∷ [];
  init_received = true;
}

abbrev h : NatNegClient
h = client host nn1 (codes "1.1.1.1")

abbrev g : NatNegClient
g = client guest nn1 (codes "2.2.2.2")

abbrev session_of : NatNegClient → NatNegClient → NatNegSession
session_of a b = record (new_session 1000 [] 5) { host = some a; guest = some b }

abbrev server : NatNegSessionManager → NatNegServer
server m = record {
  transport = some (codes "9.9.9.9");
  session_manager = m;
  relay_server = some relay;
  pair_ttl = 300000;
}

-- The pair has been tried three times.
abbrev tried : NatNegSessionManager
tried = record new_manager {
  pair_attempts = (pair, record (new_pair 1) { attempt_count = 3 }) ∷ [];
}

init_request_example :
    let packet = header_bytes init_header ++ init_body 1 10 0 0 7 6500 name [] in
    let (m', session, ready) =
      register_client new_manager
        (record {
          session_id = 1000;
          client_index = host;
          port_type = nn3;
          public_ip = codes "1.1.1.1";
          public_port = 6000;
          local_ip = ip_bytes_to_string (10 ∷ 0 ∷ 0 ∷ 7 ∷ []);
          local_port = 6500;
          game_name = name;
        })
        8 in
    (datagram_received packet (codes "1.1.1.1", 6000)
      ≡ some (handle_init packet (codes "1.1.1.1", 6000)))
    × (run_task (server new_manager) (handle_init packet (codes "1.1.1.1", 6000)) 8 ≡ (
      record (server new_manager) { session_manager = m' },
      to (header_bytes (reply_header init_ack 1000 nn3 host)) (codes "1.1.1.1", 6000) ∷ [],
      scheduled 1000 ready,
    ))
init_request_example =
    init_request init_header 1 10 0 0 7 6500 name [] (server new_manager) (codes "1.1.1.1")
      (codes "9.9.9.9") 6000 8 refl name-IsName (omega arith) refl

on_session_ready_direct_example :
    let s = server new_manager in
    let n = attempts_before s h g 8 in
    let sent = (on_session_ready bind s (session_of h g) 8).1 in
    let effects = (on_session_ready bind s (session_of h g) 8).2 in
    (n ≡ 0
      → (sent
          ≡ wan_connects 1000 h g
              (connection nn1 (codes "1.1.1.1"))
              (connection nn1 (codes "2.2.2.2")))
        × (effects ≡ []))
    × (n ≡ 1
        → (sent
            ≡ lan_connects 1000 h g
                (connection nn1 (codes "1.1.1.1"))
                (connection nn1 (codes "2.2.2.2")))
          × (effects ≡ []))
unfolding get new_session
on_session_ready_direct_example =
    on_session_ready_direct bind (server new_manager) (session_of h g) h g
      (connection nn1 (codes "1.1.1.1")) (connection nn1 (codes "2.2.2.2")) (codes "9.9.9.9") 8 refl
      refl refl refl refl

on_session_ready_relay_example :
    let s = server tried in
    let m = (get_pair_attempt tried (public_ip h, public_ip g) 8).0 in
    let sent = (on_session_ready bind s (session_of h g) 8).1 in
    let ch = connection nn1 (codes "1.1.1.1") in
    let cg = connection nn1 (codes "2.2.2.2") in
    (some relay ≡ none → sent ≡ wan_connects 1000 h g ch cg)
    × ((r : RelayServer)
        → some relay ≡ some r
        → sent
          ≡ relay_connects s 1000 h g ch cg
              (allocate_pair_relay_if_missing bind m (public_ip h, public_ip g) r 8))
unfolding get public_ip pair_beq option_beq get_best_connection list_beq new_session
on_session_ready_relay_example =
    on_session_ready_relay bind (server tried) (session_of h g) h g
      (connection nn1 (codes "1.1.1.1")) (connection nn1 (codes "2.2.2.2")) (codes "9.9.9.9") 8 refl
      refl refl refl refl (omega arith)

on_session_ready_silent_example :
    (on_session_ready bind
      (server new_manager)
      (session_of (client host nn3 (codes "1.1.1.1")) (client guest nn3 (codes "2.2.2.2")))
      8).1
    ≡ []
unfolding get
on_session_ready_silent_example =
    on_session_ready_silent bind (server new_manager)
      (session_of (client host nn3 (codes "1.1.1.1")) (client guest nn3 (codes "2.2.2.2")))
      (client host nn3 (codes "1.1.1.1")) (client guest nn3 (codes "2.2.2.2")) 8 refl refl refl refl
