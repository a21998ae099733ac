-- ===== src/NatNeg/Server/Requests.antt =====
-- How INIT requests are served.

use kirov_server_emulator.NatNeg.Header.Codec.{header_bytes, header_to_bytes_fits}
use kirov_server_emulator.NatNeg.Manager.{register_client}
use kirov_server_emulator.Prelude.Text.{Text}
use kirov_server_emulator.Prelude.Words.{Bytes}
use kirov_server_emulator.NatNeg.Protocol.Parsing.{
  IsName, init_body, parse_init_packet-init_body, parse_natneg_packet-header_bytes,
  is_natneg_packet-header_bytes,
}
use kirov_server_emulator.NatNeg.Header.{NatNegHeader, init, init_ack, type_value}
use kirov_server_emulator.Prelude.{
  [], list_eq, nat_eq, option_eq, pair_eq, some, ℕ, ◌++◌, ◌<◌, ◌∷◌, ◌≡◌, ap, arith, refl,
}
use kirov_server_emulator.NatNeg.Server.{
  NatNegServer, datagram_received, handle_init, register_init, run_task, scheduled, task_for, to,
}
use kirov_server_emulator.NatNeg.Protocol.{build_init_ack_packet, reply_header}
use kirov_server_emulator.NatNeg.Packets.{ip_bytes_to_string}

-- The INIT packet of a header with flag, address, port and name, in the documented layout.
module _ (h : NatNegHeader) (flag a b c d port : ℕ) (name rest : Bytes)
    (t : h.record_type ≡ init) where
  abbrev pub init_packet : Bytes
  init_packet = header_bytes h ++ init_body flag a b c d port name rest

  datagram_received-init_packet :
      (addr : Text × ℕ) → datagram_received init_packet addr ≡ some (handle_init init_packet addr)
  unfolding datagram_received task_for
  datagram_received-init_packet addr =
      rw
        (
          is_natneg_packet-header_bytes h (init_body flag a b c d port name rest),
          parse_natneg_packet-header_bytes h (init_body flag a b c d port name rest),
          ap type_value t,
        )
        refl

  run_task-init_packet :
      (s : NatNegServer) (ip bound : Text) (from now : ℕ)
      → IsName name
      → h.session_id < 4294967296
      → s.transport ≡ some bound
      → let (m', session, ready) =
          register_client s.session_manager
            (record {
              session_id = h.session_id;
              client_index = h.client_index;
              port_type = h.port_type;
              public_ip = ip;
              public_port = from;
              local_ip = ip_bytes_to_string (a ∷ b ∷ c ∷ d ∷ []);
              local_port = port;
              game_name = name;
            })
            now in
        run_task s (handle_init init_packet (ip, from)) now ≡ (
          record s { session_manager = m' },
          to
                (header_bytes (reply_header init_ack h.session_id h.port_type h.client_index))
                (ip, from)
              ∷ [],
          scheduled h.session_id ready,
        )
  unfolding run_task register_init build_init_ack_packet
  run_task-init_packet s ip bound from now n fits open_ =
      let reply = reply_header init_ack h.session_id h.port_type h.client_index in
      rw
        (
          run_task,
          parse_init_packet-init_body h flag a b c d port name rest t n,
          register_init,
          build_init_ack_packet,
          header_to_bytes_fits reply (omega arith) fits,
          open_,
        )
        refl

-- An INIT packet in the documented layout, for a session of 32 bits and an ASCII name, is handed to
-- the INIT handler. On a server with a socket the handler registers the sender with the address of
-- the datagram and the address, port and name of the packet, answers with exactly one INIT_ACK to
-- the sender, and schedules the callback where the registration asks for it.
pub init_request :
    (h : NatNegHeader) (flag a b c d port : ℕ) (name rest : Bytes) (s : NatNegServer)
    (ip bound : Text) (from now : ℕ)
    → h.record_type ≡ init
    → IsName name
    → h.session_id < 4294967296
    → s.transport ≡ some bound
    → let packet = header_bytes h ++ init_body flag a b c d port name rest in
      let (m', session, ready) =
        register_client s.session_manager
          (record {
            session_id = h.session_id;
            client_index = h.client_index;
            port_type = h.port_type;
            public_ip = ip;
            public_port = from;
            local_ip = ip_bytes_to_string (a ∷ b ∷ c ∷ d ∷ []);
            local_port = port;
            game_name = name;
          })
          now in
      let ack = reply_header init_ack h.session_id h.port_type h.client_index in
      (datagram_received packet (ip, from) ≡ some (handle_init packet (ip, from)))
      × (run_task s (handle_init packet (ip, from)) now ≡ (
        record s { session_manager = m' },
        to (header_bytes ack) (ip, from) ∷ [],
        scheduled h.session_id ready,
      ))
init_request h flag a b c d port name rest s ip bound from now t n fits open_ = (
  datagram_received-init_packet h flag a b c d port name rest t (ip, from),
  run_task-init_packet h flag a b c d port name rest t s ip bound from now n fits open_,
)
