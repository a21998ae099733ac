-- ===== src/Tests/Sessions.antt =====
-- Sessions at concrete inputs.
use kirov_server_emulator.NatNeg.Manager.Scheduling.{acks, registers, schedules, schedules_once}
-- An INIT of a player for a port type.
use kirov_server_emulator.Prelude.Dict.{get}
use kirov_server_emulator.Prelude.Text.{Text, codes}
use kirov_server_emulator.NatNeg.Manager.Expiry.{get-cleanup_expired_sessions, unexpired}
use kirov_server_emulator.NatNeg.Manager.{
  NatNegSessionManager, Registration, cleanup_expired_sessions, connection_of, new_manager,
  set_on_session_ready,
}
use kirov_server_emulator.NatNeg.Header.{NatNegClientIndex, NatNegPortType, guest, host, nn3}
use kirov_server_emulator.Prelude.{
  [], list_eq, nat_eq, option_eq, pair_eq, refl, some, ◌∷◌, ◌≡◌, ◌≤◌,
}
use kirov_server_emulator.NatNeg.Client.{
  NatNegClient, NatNegClientConnection, NatNegSession, add_connection, new_client, new_session,
}

abbrev pub registers_with : NatNegClientIndex → NatNegPortType → Text → Registration
registers_with i t ip = record {
  session_id = 1000;
  client_index = i;
  port_type = t;
  public_ip = ip;
  public_port = 6000;
  local_ip = codes "10.0.0.7";
  local_port = 6500;
  game_name = [];
}

abbrev host_init : Registration
host_init = registers_with host nn3 (codes "1.1.1.1")

abbrev guest_init : Registration
guest_init = registers_with guest nn3 (codes "2.2.2.2")

schedules_once_example :
    schedules 1000
      (set_on_session_ready new_manager)
      (registers host_init 1 ∷ registers guest_init 2 ∷ acks 1000 host ∷ registers host_init 3 ∷ [])
    ≤ 1
schedules_once_example =
    schedules_once 1000 (set_on_session_ready new_manager)
      (registers host_init 1 ∷ registers guest_init 2 ∷ acks 1000 host ∷ registers host_init 3 ∷ [])

abbrev connection : NatNegPortType → NatNegClientConnection
connection t = connection_of (registers_with host t (codes "1.1.1.1"))

abbrev client : NatNegClientIndex → NatNegClient
client i = add_connection (new_client 1000 i []) (connection nn3)

abbrev session : NatNegSession
session = record (new_session 1000 [] 5) { host = some (client host); guest = some (client guest) }

abbrev manager : NatNegSessionManager
manager = record new_manager {
  sessions = (1000, session) ∷ [];
  client_endpoints = ((codes "1.1.1.1", 6000), (1000, host)) ∷ [];
}

get-cleanup_expired_sessions_example :
    get (cleanup_expired_sessions manager 40000).sessions 1000
    ≡ unexpired 40000 (get manager.sessions 1000)
unfolding get
get-cleanup_expired_sessions_example = get-cleanup_expired_sessions manager 40000 (refl, tt) 1000
