-- ===== src/NatNeg/Protocol/Building.antt =====
-- The packets that the server builds, and what the parsers make of them.

use kirov_server_emulator.Cipher.EncTypeX.{finished}
use kirov_server_emulator.NatNeg.Header.Codec.{header_bytes, header_to_bytes_fits}
use kirov_server_emulator.NatNeg.Packets.Codec.{ip_string_to_bytes-ip_bytes_to_string}
use kirov_server_emulator.Prelude.Text.{Text}
use kirov_server_emulator.Prelude.Words.{Bytes, IsBytes, bytes16, bytes32}
use kirov_server_emulator.NatNeg.Packets.{
  NatNegConnectPacket, connect_from_bytes, connect_to_bytes, ip_bytes_to_string, raised, returned,
  call_connect,
}
use kirov_server_emulator.NatNeg.Protocol.Parsing.{parse_natneg_packet-header_bytes}
use kirov_server_emulator.NatNeg.Protocol.{
  build_address_reply_packet, build_connect_ack_packet, build_connect_packet, build_init_ack_packet,
  build_report_ack_packet, parse_connect_packet, parse_natneg_packet, reply_header,
}
use kirov_server_emulator.NatNeg.Header.{
  NatNegClientIndex, NatNegHeader, NatNegPortType, connect, connect_ack, init_ack, natneg_magic,
  report_ack, type_value,
}
use kirov_server_emulator.Prelude.{
  Bool, [], ap, arith, if◌then◌else◌, length, length-append, length-set, length-take_le,
  le→ltb_false, list_eq, lt→ltb, nat_eq, none, pair_eq, refl, set, some, take, ℕ, ◌++◌, ◌<◌, ◌∙◌,
  ◌∷◌, ◌≡◌, ◌≢◌, ◌≤◌, length-take-le, option_eq,
}

-- For a session of 32 bits the acknowledgement of an INIT packet can be built, is 14 bytes long, and
-- is parsed to version 3, type INIT_ACK and the session, port type and client index that it answers,
-- with nothing behind.
pub parse_natneg_packet-build_init_ack_packet :
    (session_id : ℕ) (p : NatNegPortType) (i : NatNegClientIndex)
    → session_id < 4294967296
    → (bytes : Bytes) × (build_init_ack_packet session_id p i ≡ some bytes)
      × (length bytes ≡ 14)
      × (parse_natneg_packet bytes ≡ some (reply_header init_ack session_id p i, []))
unfolding build_init_ack_packet
parse_natneg_packet-build_init_ack_packet session_id p i h =
    let header = reply_header init_ack session_id p i in
    (
      header_bytes header,
      header_to_bytes_fits header (omega arith) h,
      refl,
      parse_natneg_packet-header_bytes header [],
    )

-- The same for the acknowledgements of REPORT and CONNECT.
pub parse_natneg_packet-build_acks :
    (session_id : ℕ) (p : NatNegPortType) (i : NatNegClientIndex)
    → session_id < 4294967296
    → (r : Bytes) × (c : Bytes) × (build_report_ack_packet session_id p i ≡ some r)
      × (build_connect_ack_packet session_id p i ≡ some c)
      × (parse_natneg_packet r ≡ some (reply_header report_ack session_id p i, []))
      × (parse_natneg_packet c ≡ some (reply_header connect_ack session_id p i, []))
unfolding build_report_ack_packet build_connect_ack_packet
parse_natneg_packet-build_acks session_id p i h =
    let r = reply_header report_ack session_id p i in
    let c = reply_header connect_ack session_id p i in
    (
      header_bytes r,
      header_bytes c,
      header_to_bytes_fits r (omega arith) h,
      header_to_bytes_fits c (omega arith) h,
      parse_natneg_packet-header_bytes r [],
      parse_natneg_packet-header_bytes c [],
    )

-- The documented layout of a CONNECT packet.
abbrev pub connect_bytes : ℕ → ℕ → ℕ → ℕ → ℕ → ℕ → Bool → Bytes
connect_bytes session_id a b c d port got_data =
    natneg_magic
    ++ (0x03
        ∷ 0x05
        ∷ (bytes32 session_id
            ++ (a ∷ b ∷ c ∷ d ∷ (bytes16 port ++ ((if got_data then 0x42 else 0x00) ∷ 0x00 ∷ [])))))

-- For the dotted address of four bytes, a session of 32 bits and a port of 16 bits, CONNECT is the
-- 20 bytes of the documented layout, with a finished byte of 0 whatever the flag says.
pub build_connect_packet-connect_bytes :
    (session_id a b c d port : ℕ) (got_data finished : Bool)
    → session_id < 4294967296
    → port < 65536
    → IsBytes (a ∷ b ∷ c ∷ d ∷ [])
    → build_connect_packet session_id
        (ip_bytes_to_string (a ∷ b ∷ c ∷ d ∷ []))
        port
        got_data
        finished
      ≡ some (connect_bytes session_id a b c d port got_data)
unfolding build_connect_packet connect_to_bytes
build_connect_packet-connect_bytes session_id a b c d port got_data finished hs hp hb = rw (
  lt→ltb session_id 4294967296 hs,
  ip_string_to_bytes-ip_bytes_to_string a (b ∷ c ∷ d ∷ []) hb,
  lt→ltb port 65536 hp,
)

-- The parser of CONNECT packets never yields a packet.
pub parse_connect_packet_never :
    (packet : Bytes) (c : NatNegConnectPacket) → parse_connect_packet packet ≢ returned (some c)
unfolding parse_connect_packet connect_from_bytes call_connect
parse_connect_packet_never packet c e = ground arith

-- Parsing a packet that has a header of type CONNECT and at least 8 bytes behind it raises TypeError.
parse_connect_packet_raises :
    (h : NatNegHeader) (rest : Bytes)
    → h.record_type ≡ connect
    → 8 ≤ length rest
    → parse_connect_packet (header_bytes h ++ rest) ≡ raised
unfolding parse_connect_packet connect_from_bytes call_connect
parse_connect_packet_raises h rest t long =
    rw
      (
        parse_natneg_packet-header_bytes h rest,
        ap type_value t,
        le→ltb_false (length (header_bytes h ++ rest)) 22 (omega arith),
      )
      refl

-- An ADDRESS_CHECK request of at least 12 bytes is answered by its first 12 bytes with the type
-- ADDRESS_REPLY in byte 7, then the four bytes of the address and the port, 18 bytes in all.
pub build_address_reply_packet_lem :
    (request : Bytes) (a b c d port : ℕ)
    → 12 ≤ length request
    → port < 65536
    → IsBytes (a ∷ b ∷ c ∷ d ∷ [])
    → (build_address_reply_packet request (ip_bytes_to_string (a ∷ b ∷ c ∷ d ∷ [])) port
        ≡ some (set (take 12 request) 7 0x0B ++ (a ∷ b ∷ c ∷ d ∷ bytes16 port)))
      × (length (set (take 12 request) 7 0x0B ++ (a ∷ b ∷ c ∷ d ∷ bytes16 port)) ≡ 18)
unfolding build_address_reply_packet
build_address_reply_packet_lem request a b c d port long hp hb =
    let twelve : length (take 12 request) ≡ 12 = length-take_le 12 request long in
    (
      rw (
        lt→ltb 7 (length (take 12 request)) (omega arith),
        ip_string_to_bytes-ip_bytes_to_string a (b ∷ c ∷ d ∷ []) hb,
        lt→ltb port 65536 hp,
      ),
      length-append (set (take 12 request) 7 0x0B) (a ∷ b ∷ c ∷ d ∷ bytes16 port)
          ∙ omega (arith, length-set (take 12 request) 7 0x0B),
    )

-- A request of fewer than 8 bytes has no byte 7: building the reply raises.
pub build_address_reply_packet_short :
    (request : Bytes) (ip : Text) (port : ℕ)
    → length request < 8
    → build_address_reply_packet request ip port ≡ none
unfolding build_address_reply_packet
build_address_reply_packet_short request ip port h =
    rw (le→ltb_false 7 (length (take 12 request)) (omega (arith, length-take-le 12 request)))
