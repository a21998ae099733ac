-- ===== src/NatNeg/Protocol.antt =====
-- app/util/natneg_protocol.py.
use kirov_server_emulator.Cipher.EncTypeX.{finished}
use kirov_server_emulator.NatNeg.Client.{public_ip, public_port}
use kirov_server_emulator.Prelude.Text.{Text}
use kirov_server_emulator.NatNeg.Header.{
  NatNegClientIndex, NatNegHeader, NatNegPortType, NatNegRecordType, address_reply, connect,
  connect_ack, header_from_bytes, header_size, header_to_bytes, init, init_ack, natneg_magic,
  natneg_version, report, report_ack, same_type, type_value,
}
use kirov_server_emulator.NatNeg.Packets.{
  NatNegConnectPacket, NatNegInitPacket, NatNegReportPacket, connect_from_bytes, connect_to_bytes,
  init_from_bytes, ip_string_to_bytes, report_from_bytes, returned, Outcome,
}
use kirov_server_emulator.Prelude.Words.{Bytes, pack_u16, ◌>>=◌}
use kirov_server_emulator.Prelude.{
  Bool, Option, [], drop, false, if◌then◌else◌, leb, length, list_beq, list_eq, ltb, nat_eq, none,
  pair_eq, set, some, suc, take, true, zero, ℕ, ◌&&◌, ◌++◌, ◌-◌, ◌==◌, ◌∷◌, option_eq,
}
pub mod Parsing
pub mod Building
pub mod Replacing

unfoldable pub is_natneg_packet : Bytes → Bool
unfolding list_beq
is_natneg_packet packet = leb 6 (length packet) && (take 6 packet == natneg_magic)

abbrev with_payload : Bytes → Option NatNegHeader → Option (NatNegHeader × Bytes)
with_payload packet none = none
with_payload packet (some h) = some (h, drop header_size packet)

unfoldable pub parse_natneg_packet : Bytes → Option (NatNegHeader × Bytes)
unfolding is_natneg_packet
parse_natneg_packet packet =
    if is_natneg_packet packet then with_payload packet (header_from_bytes packet) else none

unfoldable pub parse_init_packet : Bytes → Option NatNegInitPacket
parse_init_packet packet = do
  (header, payload) ← parse_natneg_packet packet
  if same_type header.record_type init then init_from_bytes packet header else none

abbrev connect_of : Bytes → Option (NatNegHeader × Bytes) → Outcome (Option NatNegConnectPacket)
connect_of packet none = returned none
connect_of packet (some (header, payload)) =
    if same_type header.record_type connect then connect_from_bytes packet header else returned none

unfoldable pub parse_connect_packet : Bytes → Outcome (Option NatNegConnectPacket)
parse_connect_packet packet = connect_of packet (parse_natneg_packet packet)

unfoldable pub parse_report_packet : Bytes → Option NatNegReportPacket
parse_report_packet packet = do
  (header, payload) ← parse_natneg_packet packet
  if same_type header.record_type report then report_from_bytes packet header else none

abbrev pub reply_header : NatNegRecordType → ℕ → NatNegPortType → NatNegClientIndex → NatNegHeader
reply_header t session_id port_type client_index = record {
  version = natneg_version;
  record_type = t;
  session_id = session_id;
  port_type = port_type;
  client_index = client_index;
}

unfoldable pub build_init_ack_packet : ℕ → NatNegPortType → NatNegClientIndex → Option Bytes
build_init_ack_packet session_id port_type client_index =
    header_to_bytes (reply_header init_ack session_id port_type client_index)

unfoldable pub build_connect_packet : ℕ → Text → ℕ → Bool → Bool → Option Bytes
build_connect_packet session_id peer_ip peer_port got_data finished = connect_to_bytes (record {
  session_id = session_id;
  peer_ip = peer_ip;
  peer_port = peer_port;
  got_data = got_data;
  finished = finished;
})

unfoldable pub build_report_ack_packet : ℕ → NatNegPortType → NatNegClientIndex → Option Bytes
build_report_ack_packet session_id port_type client_index =
    header_to_bytes (reply_header report_ack session_id port_type client_index)

unfoldable pub build_connect_ack_packet : ℕ → NatNegPortType → NatNegClientIndex → Option Bytes
build_connect_ack_packet session_id port_type client_index =
    header_to_bytes (reply_header connect_ack session_id port_type client_index)

-- response[7] = …; `none` is IndexError
abbrev set_type : Bytes → Option Bytes
set_type response =
    if ltb 7 (length response) then some (set response 7 (type_value address_reply)) else none

unfoldable pub build_address_reply_packet : Bytes → Text → ℕ → Option Bytes
build_address_reply_packet request public_ip public_port = do
  response ← set_type (take 12 request)
  ip ← ip_string_to_bytes public_ip
  port ← pack_u16 public_port
  some (response ++ (ip ++ port))

unfoldable pub starts_with : Bytes → Bytes → Bool
starts_with [] packet = true
starts_with (p ∷ ps) [] = false
starts_with (p ∷ ps) (b ∷ bs) = (p == b) && starts_with ps bs

-- packet.replace(old, new) for an `old` that is not empty: from the left, without overlap. The
-- number counts the bytes of a match that are still to be passed over.
unfoldable pub replace_from : Bytes → Bytes → ℕ → Bytes → Bytes
replace_from old new skip [] = []
replace_from old new (suc skip) (b ∷ bs) = replace_from old new skip bs
replace_from old new zero (b ∷ bs) = elim (starts_with old (b ∷ bs)) [
  | true ↦ new ++ replace_from old new (length old - 1) bs
  | false ↦ b ∷ replace_from old new 0 bs
]

unfoldable pub replace_ip_port_in_packet : Bytes → Text → ℕ → Text → ℕ → Option Bytes
unfolding replace_from
replace_ip_port_in_packet packet old_ip old_port new_ip new_port = do
  old ← ip_string_to_bytes old_ip
  old_port_bytes ← pack_u16 old_port
  new ← ip_string_to_bytes new_ip
  new_port_bytes ← pack_u16 new_port
  some (replace_from (old ++ old_port_bytes) (new ++ new_port_bytes) 0 packet)
