-- ===== src/Tests/Pairs.antt =====
-- The pairs of players at concrete inputs.

use kirov_server_emulator.Relay.PortPool.{allocate_pair}
use kirov_server_emulator.Prelude.Dict.{get, put}
use kirov_server_emulator.NatNeg.Manager.{NatNegSessionManager, new_manager}
use kirov_server_emulator.Prelude.Text.{codes}
use kirov_server_emulator.Relay.Server.{
  allocate_route, cleanup_stale_routes, get_route_by_port, find_route, new_server,
}
use kirov_server_emulator.NatNeg.Manager.Pairs.Stale.{allocate_pair_relay_if_missing_stale}
use kirov_server_emulator.Prelude.{
  Option, [], list_eq, nat_eq, none, option_eq, pair_eq, refl, some, ℕ, ◌∷◌, ◌≡◌, contains,
  list_beq, option_beq, pair_beq,
}
use kirov_server_emulator.Tests.Relay.{bind, busy, busy-IsConsistent, route}
use kirov_server_emulator.Relay.Types.{PairAttemptInfo, new_pair, is_stale, new_route}
use kirov_server_emulator.NatNeg.Manager.Pairs.{Pair, allocate_pair_relay_if_missing}

abbrev pub pair : Pair
pair = (some (codes "1.1.1.1"), some (codes "2.2.2.2"))

abbrev attempt : PairAttemptInfo
attempt = new_pair 3

abbrev pub with_ports : PairAttemptInfo
with_ports = record attempt { relay_ports = some (40000, 40001) }

abbrev tried : NatNegSessionManager
tried = record new_manager { pair_attempts = (pair, attempt) ∷ [] }

abbrev pub relayed : NatNegSessionManager
relayed = record new_manager { pair_attempts = (pair, with_ports) ∷ [] }

-- No port can be bound.
abbrev bind_none : ℕ → Option ℕ
bind_none port = none

allocate_pair_relay_if_missing_stale_example :
    let relay' = (cleanup_stale_routes busy 120006).0 in
    (get_route_by_port relay' 40000 ≡ none)
    × (allocate_pair_relay_if_missing bind relayed pair relay' 120007
        ≡ (relayed, relay', some (40000, 40001), []))
unfolding allocate_route get pair_beq option_beq list_beq get_route_by_port find_route allocate_pair
    new_server contains put new_route is_stale
allocate_pair_relay_if_missing_stale_example =
    allocate_pair_relay_if_missing_stale bind relayed pair busy 120006 120007 40000 40001 with_ports
      route busy-IsConsistent refl refl refl refl
