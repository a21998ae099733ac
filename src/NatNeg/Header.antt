-- ===== src/NatNeg/Header.antt =====
-- The packet header of app/models/natneg_types.py.
use kirov_server_emulator.Prelude.Words.{Bytes, be32, byte_at, pack_u32, pack_u8, ◌>>=◌}
use kirov_server_emulator.Prelude.{
  Bool, List, Option, [], get_elem?, get_or, if◌then◌else◌, leb, length, list_beq, list_eq, ltb,
  nat_eq, none, not, pair_eq, some, take, ℕ, ◌++◌, ◌==◌, ◌∷◌,
}
pub mod Codec

pub data NatNegRecordType : Type 0 where
  init init_ack ert_test ert_ack state_update connect connect_ack connect_ping backup_test :
      NatNegRecordType
  backup_ack address_check address_reply natify_request report report_ack : NatNegRecordType
  preinit preinit_ack : NatNegRecordType

pub data NatNegPortType : Type 0 where
  gp nn1 nn2 nn3 : NatNegPortType

pub data NatNegClientIndex : Type 0 where
  guest host : NatNegClientIndex

abbrev pub record_types : List NatNegRecordType
record_types =
    init ∷ init_ack ∷ ert_test ∷ ert_ack ∷ state_update ∷ connect ∷ connect_ack ∷ connect_ping
    ∷ backup_test ∷ backup_ack ∷ address_check ∷ address_reply ∷ natify_request ∷ report
    ∷ report_ack ∷ preinit ∷ preinit_ack ∷ []

-- The integer of a record type.
abbrev pub type_value : NatNegRecordType → ℕ
type_value init = 0x00
type_value init_ack = 0x01
type_value ert_test = 0x02
type_value ert_ack = 0x03
type_value state_update = 0x04
type_value connect = 0x05
type_value connect_ack = 0x06
type_value connect_ping = 0x07
type_value backup_test = 0x08
type_value backup_ack = 0x09
type_value address_check = 0x0A
type_value address_reply = 0x0B
type_value natify_request = 0x0C
type_value report = 0x0D
type_value report_ack = 0x0E
type_value preinit = 0x0F
type_value preinit_ack = 0x10

-- NatNegRecordType(n); `none` is ValueError
abbrev pub record_type_of : ℕ → Option NatNegRecordType
record_type_of n = get_elem? record_types n

abbrev pub same_type : NatNegRecordType → NatNegRecordType → Bool
same_type a b = type_value a == type_value b

abbrev pub port_value : NatNegPortType → ℕ
port_value gp = 0x00
port_value nn1 = 0x01
port_value nn2 = 0x02
port_value nn3 = 0x03

-- NatNegPortType(n) if n <= 3 else NatNegPortType.NN1
abbrev pub port_type_of : ℕ → NatNegPortType
port_type_of n = if leb n 3 then get_or (gp ∷ nn1 ∷ nn2 ∷ nn3 ∷ []) n nn1 else nn1

abbrev pub index_value : NatNegClientIndex → ℕ
index_value guest = 0x00
index_value host = 0x01

-- NatNegClientIndex(n) if n <= 1 else NatNegClientIndex.GUEST
abbrev pub client_index_of : ℕ → NatNegClientIndex
client_index_of n = if leb n 1 then get_or (guest ∷ host ∷ []) n guest else guest

abbrev pub natneg_magic : Bytes
natneg_magic = 0xFD ∷ 0xFC ∷ 0x1E ∷ 0x66 ∷ 0x6A ∷ 0xB2 ∷ []

abbrev pub natneg_version : ℕ
natneg_version = 0x03

pub record NatNegHeader : Type 0 where
  pub version : ℕ
  pub record_type : NatNegRecordType
  pub session_id : ℕ
  pub port_type : NatNegPortType
  pub client_index : NatNegClientIndex

abbrev pub header_size : ℕ
header_size = 14

-- The fields of `struct.unpack`, behind the conversion of the record type.
abbrev pub read_header : Bytes → NatNegRecordType → NatNegHeader
read_header packet t = record {
  version = byte_at packet 6;
  record_type = t;
  session_id = be32 (byte_at packet 8) (byte_at packet 9) (byte_at packet 10) (byte_at packet 11);
  port_type = port_type_of (byte_at packet 12);
  client_index = client_index_of (byte_at packet 13);
}

unfoldable pub unpacked : Bytes → Option NatNegRecordType → Option NatNegHeader
unpacked packet none = none
unpacked packet (some t) = some (read_header packet t)

-- NatNegHeader.from_bytes
unfoldable pub header_from_bytes : Bytes → Option NatNegHeader
unfolding unpacked list_beq
header_from_bytes packet =
    if ltb (length packet) header_size
    then none
    else if not (take 6 packet == natneg_magic)
    then none
    else unpacked packet (record_type_of (byte_at packet 7))

-- NatNegHeader.to_bytes
unfoldable pub header_to_bytes : NatNegHeader → Option Bytes
header_to_bytes h = do
  version ← pack_u8 h.version
  session ← pack_u32 h.session_id
  some (
      natneg_magic
      ++ (version
          ++ (type_value h.record_type ∷ [])
          ++ (session ++ (port_value h.port_type ∷ index_value h.client_index ∷ []))))
