-- ===== src/NatNeg/Packets.antt =====
-- The packets of app/models/natneg_types.py, behind their header.
use kirov_server_emulator.Prelude.Words.{Bytes, be16, byte_at, pack_u16, pack_u32, ◌>>=◌}
use kirov_server_emulator.Prelude.Text.{Text, decimal, int_of, join, split, codes}
use kirov_server_emulator.NatNeg.Header.{
  NatNegHeader, connect, header_size, natneg_magic, natneg_version, type_value,
}
use kirov_server_emulator.Prelude.{
  Bool, List, Option, [], drop, if◌then◌else◌, length, list_eq, ltb, map, nat_eq, none, not,
  pair_eq, some, take, ℕ, ◌&&◌, ◌++◌, ◌+◌, ◌==◌, ◌||◌, ◌∷◌, option_eq, true,
}
pub mod Codec

-- What a call of Python code comes to: a value, or an exception.
pub data Outcome {ℓ} (A : Type ℓ) : Type ℓ where
  returned : A → Outcome A
  raised : Outcome A

pub record NatNegInitPacket : Type 0 where
  pub header : NatNegHeader
  pub use_game_port : Bool
  pub local_ip : Text
  pub local_port : ℕ
  pub game_name : Text

pub record NatNegConnectPacket : Type 0 where
  pub session_id : ℕ
  pub peer_ip : Text
  pub peer_port : ℕ
  pub got_data : Bool
  pub finished : Bool

pub record NatNegReportPacket : Type 0 where
  pub header : NatNegHeader
  pub port_type : ℕ
  pub nat_type : ℕ
  pub mapping_scheme : ℕ
  pub game_name : Text

-- ".".join(str(b) for b in ip_bytes); also `ip_bytes_to_string` of natneg_protocol.py
unfoldable pub ip_bytes_to_string : Bytes → Text
ip_bytes_to_string bs = join b'.' (map decimal bs)

-- An element of `bytes(…)`: ValueError unless it is in range(256).
unfoldable pub to_byte : Bool × ℕ → Option ℕ
to_byte (minus, n) = if ltb n 256 && (not minus || n == 0) then some n else none

unfoldable pub int_bytes : List Text → Option Bytes
unfolding to_byte
int_bytes [] = some []
int_bytes (p ∷ ps) = do n ← int_of p; b ← to_byte n; bs ← int_bytes ps; some (b ∷ bs)

-- bytes([int(x) for x in ip.split(".")]); also `ip_string_to_bytes` of natneg_protocol.py
unfoldable pub ip_string_to_bytes : Text → Option Bytes
unfolding int_bytes
ip_string_to_bytes ip = int_bytes (split b'.' ip)

-- packet[start:packet.find(0, start)], or packet[start:] where there is no zero
unfoldable pub until_zero : Bytes → Bytes
until_zero [] = []
until_zero (b ∷ bs) = let rest = until_zero bs in if b == 0 then [] else b ∷ rest

-- decode("ascii", errors="ignore")
unfoldable pub decode_ascii : Bytes → Text
decode_ascii [] = []
decode_ascii (b ∷ bs) = let rest = decode_ascii bs in if ltb b 128 then b ∷ rest else rest

-- NatNegInitPacket.from_bytes
unfoldable pub init_from_bytes : Bytes → NatNegHeader → Option NatNegInitPacket
init_from_bytes packet header =
    if ltb (length packet) (header_size + 7)
    then none
    else some (record {
      header = header;
      use_game_port = not (byte_at packet 14 == 0);
      local_ip = ip_bytes_to_string (take 4 (drop 15 packet));
      local_port = be16 (byte_at packet 19) (byte_at packet 20);
      game_name = decode_ascii (until_zero (drop 21 packet));
    })

-- NatNegConnectPacket.to_bytes; `none` is struct.error or ValueError
unfoldable pub connect_to_bytes : NatNegConnectPacket → Option Bytes
connect_to_bytes c = do
  session ← pack_u32 c.session_id
  ip ← ip_string_to_bytes c.peer_ip
  port ← pack_u16 c.peer_port
  some (
      natneg_magic
      ++ (natneg_version
          ∷ type_value connect
          ∷ (session ++ (ip ++ (port ++ ((if c.got_data then 0x42 else 0x00) ∷ 0x00 ∷ []))))))

-- The keyword arguments of a call of the class: those of its fields, and the names that are no field.
pub record ConnectArguments : Type 0 where
  pub session_id : Option ℕ
  pub peer_ip : Option Text
  pub peer_port : Option ℕ
  pub got_data : Option Bool
  pub finished : Option Bool
  pub unexpected : List Text

abbrev true_or : Option Bool → Bool
true_or none = true
true_or (some b) = b

abbrev pub new_connect_packet : ConnectArguments → Option NatNegConnectPacket
new_connect_packet a = do
  session ← a.session_id
  ip ← a.peer_ip
  port ← a.peer_port
  some (record {
    session_id = session;
    peer_ip = ip;
    peer_port = port;
    got_data = true_or a.got_data;
    finished = true_or a.finished;
  })

abbrev or_raise : Option NatNegConnectPacket → Outcome (Option NatNegConnectPacket)
or_raise none = raised
or_raise (some c) = returned (some c)

-- NatNegConnectPacket(…): TypeError for a name that is no field, and for a field without a default
-- that is missing.
unfoldable pub call_connect : ConnectArguments → Outcome (Option NatNegConnectPacket)
call_connect a = if length a.unexpected == 0 then or_raise (new_connect_packet a) else raised

-- NatNegConnectPacket.from_bytes, with the arguments of its call of the class
unfoldable pub connect_from_bytes : Bytes → NatNegHeader → Outcome (Option NatNegConnectPacket)
unfolding call_connect ip_bytes_to_string
connect_from_bytes packet header =
    if ltb (length packet) (header_size + 8)
    then returned none
    else call_connect (record {
      session_id = none;
      peer_ip = some (ip_bytes_to_string (take 4 (drop header_size packet)));
      peer_port = some (be16 (byte_at packet 18) (byte_at packet 19));
      got_data = some (byte_at packet 20 == 0x42);
      finished = some (not (byte_at packet 21 == 0));
      unexpected = codes "header" ∷ [];
    })

-- NatNegReportPacket.from_bytes
unfoldable pub report_from_bytes : Bytes → NatNegHeader → Option NatNegReportPacket
report_from_bytes packet header =
    if ltb (length packet) (header_size + 3)
    then none
    else some (record {
      header = header;
      port_type = byte_at packet 14;
      nat_type = byte_at packet 15;
      mapping_scheme = byte_at packet 16;
      game_name = decode_ascii (until_zero (drop 17 packet));
    })
