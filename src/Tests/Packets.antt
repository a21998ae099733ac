-- ===== src/Tests/Packets.antt =====
-- NAT negotiation packets at concrete inputs.

use kirov_server_emulator.NatNeg.Protocol.Parsing.{IsName}
use kirov_server_emulator.NatNeg.Protocol.Building.{
  build_connect_packet-connect_bytes, connect_bytes,
}
use kirov_server_emulator.NatNeg.Packets.{ip_bytes_to_string}
use kirov_server_emulator.Prelude.Text.{codes}
use kirov_server_emulator.NatNeg.Protocol.{build_connect_packet}
use kirov_server_emulator.Prelude.{
  [], arith, list_eq, nat_eq, option_eq, pair_eq, refl, ◌∷◌, ◌≡◌, some, true,
}
use kirov_server_emulator.Prelude.Words.{Bytes}
use kirov_server_emulator.NatNeg.Header.{NatNegHeader, host, init, nn3}

abbrev pub init_header : NatNegHeader
init_header = record {
  version = 3;
  record_type = init;
  session_id = 1000;
  port_type = nn3;
  client_index = host;
}

-- "bfme"
abbrev pub name : Bytes
name = codes "bfme"

pub name-IsName : IsName name
name-IsName = record {
  no_zero = (refl, (refl, (refl, (refl, tt))));
  ascii = (omega arith, (omega arith, (omega arith, (omega arith, tt))));
}

build_connect_packet-connect_bytes_example :
    build_connect_packet 1000 (ip_bytes_to_string (203 ∷ 0 ∷ 113 ∷ 7 ∷ [])) 50000 true true
    ≡ some (connect_bytes 1000 203 0 113 7 50000 true)
build_connect_packet-connect_bytes_example =
    build_connect_packet-connect_bytes 1000 203 0 113 7 50000 true true (omega arith) (omega arith)
      (omega arith, (omega arith, (omega arith, (omega arith, tt))))
