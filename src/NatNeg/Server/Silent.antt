-- ===== src/NatNeg/Server/Silent.antt =====
-- `on_session_ready` where the clients have not sent NN1 packets.

use kirov_server_emulator.Prelude.Dict.{get}
use kirov_server_emulator.NatNeg.Header.{nn1, port_value}
use kirov_server_emulator.NatNeg.Manager.Pairs.{Allocated}
use kirov_server_emulator.Prelude.Words.{Bytes}
use kirov_server_emulator.NatNeg.Server.Fallback.{counted, on_session_ready-clients}
use kirov_server_emulator.Prelude.{
  Option, Option-cases, [], ap, arith, inl, inr, list_eq, nat_eq, none, option_eq, pair_eq, refl,
  some, ℕ, ◌∙◌, ◌≡◌,
}
use kirov_server_emulator.NatNeg.Client.{
  NatNegClient, NatNegSession, local_ip, local_port, public_ip, public_port,
}
use kirov_server_emulator.NatNeg.Server.{
  NatNegServer, Sent, build_connect, connect_clients, on_session_ready, send_connect_relay,
  send_connect_to_client, send_connects, send_lan, send_relay_ports, send_wan,
}

send_connects_silent :
    (s : NatNegServer) (h g : NatNegClient) (p q : Option Bytes)
    → get h.connections (port_value nn1) ≡ none
    → get g.connections (port_value nn1) ≡ none
    → send_connects s h g p q ≡ []
unfolding send_connects send_connect_to_client
send_connects_silent s h g (some p) (some q) hn gn = rw (send_connect_to_client, hn, gn) refl
send_connects_silent s h g none q hn gn = refl
send_connects_silent s h g (some p) none hn gn = refl

module _ (s : NatNegServer) (sid : ℕ) (h g : NatNegClient)
    (hn : get h.connections (port_value nn1) ≡ none)
    (gn : get g.connections (port_value nn1) ≡ none) where
  send_relay_ports_silent : (r : Allocated) → (send_relay_ports s sid h g r).1 ≡ []
  unfolding send_relay_ports send_wan
  send_relay_ports_silent (m, relay, none, effects) =
      send_connects_silent (record s { session_manager = m; relay_server = some relay }) h g _ _ hn
        gn
  send_relay_ports_silent (m, relay, some (a, b), effects) =
      send_connects_silent (record s { session_manager = m; relay_server = some relay }) h g _ _ hn
        gn

  send_connect_relay_silent :
      (bind : ℕ → Option ℕ) (now : ℕ) → (send_connect_relay bind s sid h g now).1 ≡ []
  unfolding send_connect_relay send_wan
  send_connect_relay_silent bind now = elim (Option-cases s.relay_server) [
    | inl missing ↦ rw (send_connect_relay, missing) (send_connects_silent s h g _ _ hn gn)
    | inr (relay, there) ↦ rw (send_connect_relay, there) (send_relay_ports_silent _)
  ]

connect_clients_silent :
    (bind : ℕ → Option ℕ) (s : NatNegServer) (sid : ℕ) (h g : NatNegClient) (now : ℕ)
    → get h.connections (port_value nn1) ≡ none
    → get g.connections (port_value nn1) ≡ none
    → (connect_clients bind s sid h g now).1 ≡ []
unfolding connect_clients send_wan send_lan
connect_clients_silent bind s sid h g now hn gn = ground (
  arith,
  send_connects_silent (counted s h g now) h g (build_connect sid (public_ip h) (public_port h))
      (build_connect sid (public_ip g) (public_port g)) hn gn,
  send_connects_silent (counted s h g now) h g (build_connect sid (local_ip h) (local_port h))
      (build_connect sid (local_ip g) (local_port g)) hn gn,
  send_connect_relay_silent (counted s h g now) sid h g hn gn bind now,
)

-- If neither the host nor the guest has sent an NN1 packet, no attempt sends anything.
pub on_session_ready_silent :
    (bind : ℕ → Option ℕ) (s : NatNegServer) (session : NatNegSession) (h g : NatNegClient)
    (now : ℕ)
    → session.host ≡ some h
    → session.guest ≡ some g
    → get h.connections (port_value nn1) ≡ none
    → get g.connections (port_value nn1) ≡ none
    → (on_session_ready bind s session now).1 ≡ []
unfolding on_session_ready
on_session_ready_silent bind s session h g now ht gt hn gn =
    ap (λ (x : Sent). x.1) (on_session_ready-clients bind s session h g now ht gt)
    ∙ connect_clients_silent bind s session.session_id h g now hn gn
