-- ===== src/NatNeg/Protocol/Parsing.antt =====
-- What the parsers read from packets in the documented layouts.

use kirov_server_emulator.NatNeg.Protocol.{parse_init_packet, parse_natneg_packet, is_natneg_packet}
use kirov_server_emulator.NatNeg.Header.Codec.{header_bytes, header_from_bytes-header_bytes}
use kirov_server_emulator.NatNeg.Packets.{
  decode_ascii, init_from_bytes, ip_bytes_to_string, until_zero,
}
use kirov_server_emulator.Prelude.{
  All, [], ap, arith, false, length, le→ltb_false, list_eq, lt→ltb, nat_eq, not, pair_eq, refl,
  some, ℕ, ◌++◌, ◌<◌, ◌==◌, ◌∷◌, ◌≡◌, option_eq, true,
}
use kirov_server_emulator.NatNeg.Header.{NatNegHeader, init, type_value}
use kirov_server_emulator.Prelude.Words.{Bytes, be16-bytes16, bytes16}

until_zero-append :
    (name rest : Bytes) → All (λ b. (b == 0) ≡ false) name → until_zero (name ++ 0 ∷ rest) ≡ name
unfolding until_zero
until_zero-append [] rest h = refl
until_zero-append (b ∷ name) rest h = rw (h.0, until_zero-append name rest h.1)

decode_ascii_ascii : (name : Bytes) → All (λ b. b < 128) name → decode_ascii name ≡ name
unfolding decode_ascii
decode_ascii_ascii [] h = refl
decode_ascii_ascii (b ∷ name) h = rw (lt→ltb b 128 h.0, decode_ascii_ascii name h.1)

-- A name in ASCII without a zero.
pub record IsName (name : Bytes) : Type 0 where
  pub no_zero : All (λ b. (b == 0) ≡ false) name
  pub ascii : All (λ b. b < 128) name

game_name_read :
    (name rest : Bytes) → IsName name → decode_ascii (until_zero (name ++ 0 ∷ rest)) ≡ name
game_name_read name rest n =
    rw (until_zero-append name rest n.no_zero) (decode_ascii_ascii name n.ascii)

pub is_natneg_packet-header_bytes :
    (h : NatNegHeader) (rest : Bytes) → is_natneg_packet (header_bytes h ++ rest) ≡ true
unfolding is_natneg_packet
is_natneg_packet-header_bytes h rest = ground arith

pub parse_natneg_packet-header_bytes :
    (h : NatNegHeader) (rest : Bytes)
    → parse_natneg_packet (header_bytes h ++ rest) ≡ some (h, rest)
unfolding parse_natneg_packet
parse_natneg_packet-header_bytes h rest = rw header_from_bytes-header_bytes (ground arith)

-- The documented layout of an INIT packet behind its header: flag, address, port, name.
abbrev pub init_body : ℕ → ℕ → ℕ → ℕ → ℕ → ℕ → Bytes → Bytes → Bytes
init_body flag a b c d port name rest = flag ∷ a ∷ b ∷ c ∷ d ∷ (bytes16 port ++ (name ++ 0 ∷ rest))

-- An INIT packet in the documented layout, with any bytes behind the name, is parsed to its header,
-- flag, dotted address, port and name.
pub parse_init_packet-init_body :
    (h : NatNegHeader) (flag a b c d port : ℕ) (name rest : Bytes)
    → h.record_type ≡ init
    → IsName name
    → parse_init_packet (header_bytes h ++ init_body flag a b c d port name rest)
      ≡ some (record {
        header = h;
        use_game_port = not (flag == 0);
        local_ip = ip_bytes_to_string (a ∷ b ∷ c ∷ d ∷ []);
        local_port = port;
        game_name = name;
      })
unfolding parse_init_packet init_from_bytes
parse_init_packet-init_body h flag a b c d port name rest t n =
    rw
      (
        parse_natneg_packet-header_bytes h (init_body flag a b c d port name rest),
        ap type_value t,
        le→ltb_false (length (header_bytes h ++ init_body flag a b c d port name rest)) 21
            (omega arith),
        be16-bytes16 port,
        game_name_read name rest n,
      )
      refl
