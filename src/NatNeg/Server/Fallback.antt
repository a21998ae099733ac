-- ===== src/NatNeg/Server/Fallback.antt =====
-- Which addresses `on_session_ready` sends in CONNECT, by the number of the attempt.

use kirov_server_emulator.Relay.Server.{RelayServer}
use kirov_server_emulator.Prelude.Dict.{get}
use kirov_server_emulator.Prelude.Text.{Text}
use kirov_server_emulator.Prelude.Words.{Bytes}
use kirov_server_emulator.NatNeg.Server.{
  Datagram, NatNegServer, connect_clients, on_session_ready, ready_clients, send_connect_relay,
  send_connect_to_client, send_connects, send_lan, send_wan, to, build_connect, relay_host,
  send_relay_ports, Sent,
}
use kirov_server_emulator.NatNeg.Manager.Pairs.{
  get_pair_attempt, pair_or_new, Allocated, allocate_pair_relay_if_missing, Pair,
}
use kirov_server_emulator.Relay.Types.{increment}
use kirov_server_emulator.NatNeg.Client.{
  NatNegClient, NatNegClientConnection, NatNegSession, public_ip, local_ip, local_port, public_port,
}
use kirov_server_emulator.Prelude.{
  List, Option, [], arith, list_eq, nat_eq, none, option_eq, pair_eq, refl, some, ℕ, ◌∙◌, ◌∷◌, ◌≡◌,
  ◌≤◌, ap,
}
use kirov_server_emulator.NatNeg.Header.{nn1, port_value}

-- The two CONNECT packets, where both could be built: the guest's first, each to the address from
-- which the client sent its NN1 packet.
abbrev pub connects :
    NatNegClientConnection → NatNegClientConnection → Option Bytes → Option Bytes → List Datagram
connects ch cg (some to_guest) (some to_host) =
    to to_guest (cg.public_ip, cg.public_port) ∷ to to_host (ch.public_ip, ch.public_port) ∷ []
connects ch cg none _ = []
connects ch cg (some p) none = []

-- How often the pair has been tried before.
abbrev pub attempts_before : NatNegServer → NatNegClient → NatNegClient → ℕ → ℕ
attempts_before s h g now =
    (pair_or_new (get s.session_manager.pair_attempts (public_ip h, public_ip g)) now).attempt_count

module _ (s : NatNegServer) (h g : NatNegClient) (ch cg : NatNegClientConnection) (bound : Text)
    (open_ : s.transport ≡ some bound) (host_nn1 : get h.connections (port_value nn1) ≡ some ch)
    (guest_nn1 : get g.connections (port_value nn1) ≡ some cg) where
  send_connects-connects : (p q : Option Bytes) → send_connects s h g p q ≡ connects ch cg p q
  unfolding send_connects send_connect_to_client
  send_connects-connects (some p) (some q) =
      rw (send_connect_to_client, host_nn1, guest_nn1, open_) refl
  send_connects-connects none q = refl
  send_connects-connects (some p) none = refl

-- The server after the attempt of the pair has been counted.
abbrev pub counted : NatNegServer → NatNegClient → NatNegClient → ℕ → NatNegServer
counted s h g now = record s {
  session_manager = (get_pair_attempt s.session_manager (public_ip h, public_ip g) now).0;
}

module _ (bind : ℕ → Option ℕ) (s : NatNegServer) (session : NatNegSession) (h g : NatNegClient)
    (now : ℕ) (host_there : session.host ≡ some h) (guest_there : session.guest ≡ some g) where
  pub on_session_ready-clients :
      on_session_ready bind s session now ≡ connect_clients bind s session.session_id h g now
  unfolding on_session_ready ready_clients
  on_session_ready-clients = rw (host_there, guest_there) refl

  on_session_ready_by_attempt :
      let sid = session.session_id in
      let n = attempts_before s h g now in
      let s' = counted s h g now in
      (n ≡ 0 → on_session_ready bind s session now ≡ (s', send_wan s' sid h g, []))
      × (n ≡ 1 → on_session_ready bind s session now ≡ (s', send_lan s' sid h g, []))
      × (2 ≤ n → on_session_ready bind s session now ≡ send_connect_relay bind s' sid h g now)
  unfolding connect_clients get_pair_attempt increment
  on_session_ready_by_attempt = (
    λ e. on_session_ready-clients ∙ ground (arith, e),
    λ e. on_session_ready-clients ∙ ground (arith, e),
    λ e. on_session_ready-clients ∙ ground (arith, e),
  )

-- CONNECT with each client's public address, to the other one.
abbrev pub wan_connects :
    ℕ
    → NatNegClient
    → NatNegClient
    → NatNegClientConnection
    → NatNegClientConnection
    → List Datagram
wan_connects sid h g ch cg =
    connects ch cg (build_connect sid (public_ip h) (public_port h))
      (build_connect sid (public_ip g) (public_port g))

-- CONNECT with each client's local address, to the other one.
abbrev pub lan_connects :
    ℕ
    → NatNegClient
    → NatNegClient
    → NatNegClientConnection
    → NatNegClientConnection
    → List Datagram
lan_connects sid h g ch cg =
    connects ch cg (build_connect sid (local_ip h) (local_port h))
      (build_connect sid (local_ip g) (local_port g))

-- What the third attempt and every later one sends, by the outcome of the allocation: the first
-- port of the pair to the guest and the second to the host, or the public addresses.
abbrev pub relay_connects :
    NatNegServer
    → ℕ
    → NatNegClient
    → NatNegClient
    → NatNegClientConnection
    → NatNegClientConnection
    → Allocated
    → List Datagram
relay_connects s sid h g ch cg (m, relay, none, effects) = wan_connects sid h g ch cg
relay_connects s sid h g ch cg (m, relay, some (a, b), effects) =
    connects ch cg (build_connect sid (some (relay_host s relay)) (some a))
      (build_connect sid (some (relay_host s relay)) (some b))

-- Let host and guest of a session have sent NN1 packets, and the server have a socket. On the first
-- and on the second attempt of the pair exactly one CONNECT goes to each client, to the address of its
-- NN1 packet and to no other of its port types: on the first attempt with the other's public address,
-- on the second with the other's local address. If one of the two packets cannot be built, neither is
-- sent. No relay socket is touched.
pub on_session_ready_direct :
    (bind : ℕ → Option ℕ) (s : NatNegServer) (session : NatNegSession) (h g : NatNegClient)
    (ch cg : NatNegClientConnection) (bound : Text) (now : ℕ)
    → session.host ≡ some h
    → session.guest ≡ some g
    → get h.connections (port_value nn1) ≡ some ch
    → get g.connections (port_value nn1) ≡ some cg
    → s.transport ≡ some bound
    → let sid = session.session_id in
      let n = attempts_before s h g now in
      let sent = (on_session_ready bind s session now).1 in
      let effects = (on_session_ready bind s session now).2 in
      (n ≡ 0 → (sent ≡ wan_connects sid h g ch cg) × (effects ≡ []))
      × (n ≡ 1 → (sent ≡ lan_connects sid h g ch cg) × (effects ≡ []))
unfolding send_wan send_lan
on_session_ready_direct bind s session h g ch cg bound now ht gt hn gn open_ =
    let by = on_session_ready_by_attempt bind s session h g now ht gt in
    let is = send_connects-connects (counted s h g now) h g ch cg bound open_ hn gn in
    (λ e. rw (by.0 e) (is _ _, refl), λ e. rw (by.1 e) (is _ _, refl))

sent_relay_ports :
    (s : NatNegServer) (sid : ℕ) (h g : NatNegClient) (ch cg : NatNegClientConnection)
    (bound : Text) (r : Allocated)
    → s.transport ≡ some bound
    → get h.connections (port_value nn1) ≡ some ch
    → get g.connections (port_value nn1) ≡ some cg
    → (send_relay_ports s sid h g r).1 ≡ relay_connects s sid h g ch cg r
unfolding send_relay_ports send_wan relay_host
sent_relay_ports s sid h g ch cg bound (m, relay, none, effects) open_ hn gn =
    send_connects-connects (record s { session_manager = m; relay_server = some relay }) h g ch cg
      bound open_ hn gn _ _
sent_relay_ports s sid h g ch cg bound (m, relay, some (a, b), effects) open_ hn gn =
    send_connects-connects (record s { session_manager = m; relay_server = some relay }) h g ch cg
      bound open_ hn gn _ _

module _ (bind : ℕ → Option ℕ) (s : NatNegServer) (sid : ℕ) (h g : NatNegClient)
    (ch cg : NatNegClientConnection) (bound : Text) (now : ℕ) (open_ : s.transport ≡ some bound)
    (hn : get h.connections (port_value nn1) ≡ some ch)
    (gn : get g.connections (port_value nn1) ≡ some cg) where
  sent_without_relay :
      s.relay_server ≡ none → (send_connect_relay bind s sid h g now).1 ≡ wan_connects sid h g ch cg
  unfolding send_connect_relay send_wan
  sent_without_relay missing =
      rw (send_connect_relay, missing) (send_connects-connects s h g ch cg bound open_ hn gn _ _)

  sent_with_relay :
      (relay : RelayServer)
      → s.relay_server ≡ some relay
      → (send_connect_relay bind s sid h g now).1
        ≡ relay_connects s sid h g ch cg (
            allocate_pair_relay_if_missing bind s.session_manager
              (public_ip h, public_ip g)
              relay
              now)
  unfolding send_connect_relay
  sent_with_relay relay there =
      rw (send_connect_relay, there) (sent_relay_ports s sid h g ch cg bound _ open_ hn gn)

-- Let host and guest of a session have sent NN1 packets, and the server have a socket. On the third
-- attempt of the pair and on every later one exactly one CONNECT goes to each client, to the address of
-- its NN1 packet. If there is a relay server and it gives the pair two ports, both packets carry the
-- relay's address, the guest's with the first port and the host's with the second; otherwise each
-- carries the other's public address. If one of the two packets cannot be built, neither is sent.
pub on_session_ready_relay :
    (bind : ℕ → Option ℕ) (s : NatNegServer) (session : NatNegSession) (h g : NatNegClient)
    (ch cg : NatNegClientConnection) (bound : Text) (now : ℕ)
    → session.host ≡ some h
    → session.guest ≡ some g
    → get h.connections (port_value nn1) ≡ some ch
    → get g.connections (port_value nn1) ≡ some cg
    → s.transport ≡ some bound
    → 2 ≤ attempts_before s h g now
    → let sid = session.session_id in
      let pair : Pair = (public_ip h, public_ip g) in
      let m = (get_pair_attempt s.session_manager pair now).0 in
      let sent = (on_session_ready bind s session now).1 in
      (s.relay_server ≡ none → sent ≡ wan_connects sid h g ch cg)
      × ((relay : RelayServer)
          → s.relay_server ≡ some relay
          → sent
            ≡ relay_connects s sid h g ch cg (allocate_pair_relay_if_missing bind m pair relay now))
unfolding relay_host
on_session_ready_relay bind s session h g ch cg bound now ht gt hn gn open_ late =
    let sid = session.session_id in
    let s' = counted s h g now in
    let by = (on_session_ready_by_attempt bind s session h g now ht gt).2 late in
    let at_relay : (on_session_ready bind s session now).1
        ≡ (send_connect_relay bind s' sid h g now).1 =
      ap (λ (x : Sent). x.1) by in
    (
      λ missing. at_relay ∙ sent_without_relay bind s' sid h g ch cg bound now open_ hn gn missing,
      λ relay there.
          at_relay ∙ sent_with_relay bind s' sid h g ch cg bound now open_ hn gn relay there,
    )
