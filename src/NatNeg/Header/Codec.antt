-- ===== src/NatNeg/Header/Codec.antt =====
-- Encoding and decoding of headers.

use kirov_server_emulator.Prelude.Words.{Bytes, bytes32, be32-bytes32, byte_at}
use kirov_server_emulator.NatNeg.Header.{
  NatNegClientIndex, NatNegHeader, NatNegPortType, NatNegRecordType, client_index_of, gp, guest,
  header_from_bytes, header_to_bytes, host, index_value, init, natneg_magic, port_type_of,
  port_value, record_type_of, type_value, record_types, unpacked, read_header,
}
use kirov_server_emulator.Prelude.{
  [], arith, list_eq, lt→ltb, nat_eq, none, pair_eq, refl, some, ◌++◌, ◌<◌, ◌↔◌, ◌∷◌, ◌≡◌, ◌≤◌, ◌⊎◌,
  length, le→ltb_false, take, Bool-cases, Option, get_elem?-some, inl, inr, list_beq_iff,
  lt_of_get_elem?, ltb, ◌==◌,
}

record_type_of-type_value : (t : NatNegRecordType) → record_type_of (type_value t) ≡ some t
record_type_of-type_value init = refl
record_type_of-type_value _ = refl

port_type_of-port_value : (t : NatNegPortType) → port_type_of (port_value t) ≡ t
port_type_of-port_value gp = refl
port_type_of-port_value _ = refl

client_index_of-index_value : (t : NatNegClientIndex) → client_index_of (index_value t) ≡ t
client_index_of-index_value guest = refl
client_index_of-index_value host = refl

-- The bytes of a header.
abbrev pub header_bytes : NatNegHeader → Bytes
header_bytes h =
    natneg_magic
    ++ (h.version
        ∷ type_value h.record_type
        ∷ (bytes32 h.session_id ++ (port_value h.port_type ∷ index_value h.client_index ∷ [])))

pub header_to_bytes_fits :
    (h : NatNegHeader)
    → h.version < 256
    → h.session_id < 4294967296
    → header_to_bytes h ≡ some (header_bytes h)
unfolding header_to_bytes
header_to_bytes_fits h v s = rw (lt→ltb _ _ v, lt→ltb _ _ s)

pub header_to_bytes-some :
    (h : NatNegHeader) (bytes : Bytes) → header_to_bytes h ≡ some bytes → bytes ≡ header_bytes h
unfolding header_to_bytes
header_to_bytes-some h bytes e = ground arith

-- `to_bytes` raises exactly where the version is no byte or the session no unsigned 32-bit number.
pub header_to_bytes-none :
    (h : NatNegHeader)
    → (header_to_bytes h ≡ none) ↔ ((256 ≤ h.version) ⊎ (4294967296 ≤ h.session_id))
unfolding header_to_bytes
header_to_bytes-none h = ground arith

pub header_from_bytes-header_bytes :
    (h : NatNegHeader) (rest : Bytes) → header_from_bytes (header_bytes h ++ rest) ≡ some h
unfolding header_from_bytes
header_from_bytes-header_bytes h rest = rw (
  le→ltb_false (length (header_bytes h ++ rest)) 14 (omega arith),
  record_type_of-type_value h.record_type,
  port_type_of-port_value h.port_type,
  client_index_of-index_value h.client_index,
  be32-bytes32 h.session_id,
)

-- Whatever follows a header that `to_bytes` wrote, `from_bytes` reads that header.
pub header_from_bytes-header_to_bytes :
    (h : NatNegHeader) (rest bytes : Bytes)
    → header_to_bytes h ≡ some bytes
    → header_from_bytes (bytes ++ rest) ≡ some h
header_from_bytes-header_to_bytes h rest bytes e =
    rw (header_to_bytes-some h bytes e) (header_from_bytes-header_bytes h rest)

unpacked-some :
    (packet : Bytes) (o : Option NatNegRecordType) (h : NatNegHeader)
    → unpacked packet o ≡ some h
    → (t : NatNegRecordType) × (o ≡ some t)
unfolding unpacked
unpacked-some packet none h e = cc
unpacked-some packet (some t) h e = (t, refl)

accepted :
    (packet : Bytes) (h : NatNegHeader)
    → header_from_bytes packet ≡ some h
    → (14 ≤ length packet) × (take 6 packet ≡ natneg_magic) × (byte_at packet 7 < 17)
unfolding header_from_bytes
accepted packet h e = elim (Bool-cases (ltb (length packet) 14)) [
  | inl short ↦ absurd (ground (arith, short))
  | inr long ↦ elim (Bool-cases (take 6 packet == natneg_magic)) [
    | inl magic ↦
        let (t, found) =
          unpacked-some packet (record_type_of (byte_at packet 7)) h
            (ground (arith, long, magic)) in
        (
          ground (arith, long),
          (list_beq_iff (take 6 packet) natneg_magic).0 magic,
          lt_of_get_elem? record_types (byte_at packet 7) t found,
        )
    | inr other ↦ absurd (ground (arith, long, other))
  ]
]

-- `from_bytes` accepts a packet exactly when it has at least 14 bytes, begins with the magic bytes,
-- and its byte 7 is one of the 17 record types.
pub header_from_bytes_accepts :
    (packet : Bytes)
    → ((h : NatNegHeader) × (header_from_bytes packet ≡ some h))
      ↔ ((14 ≤ length packet) × (take 6 packet ≡ natneg_magic) × (byte_at packet 7 < 17))
unfolding header_from_bytes unpacked
header_from_bytes_accepts packet = (
  λ p. accepted packet p.0 p.1,
  λ q.
      let (t, found) = get_elem?-some record_types (byte_at packet 7) q.2 in
      (
        read_header packet t,
        rw
            (
              le→ltb_false (length packet) 14 q.0,
              (list_beq_iff (take 6 packet) natneg_magic).1 q.1,
              found,
            )
            refl,
      ),
)
