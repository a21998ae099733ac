-- ===== src/Master/Connection.antt =====
-- QueryMasterServer of app/servers/query_master_tcp.py: one connection, with the packets in its buffer.
-- `answer` is handle_query of the shared handler on the packet with that number, whose random bytes are
-- its own, from that address; `none` is an exception, which is logged.
use kirov_server_emulator.Prelude.{
  Bool, List, Option, [], drop, false, if◌then◌else◌, length, list_eq, ltb, nat_eq, none, option_eq,
  pair_eq, some, suc, take, true, zero, ℕ, ◌++◌, ◌||◌, ◌∷◌,
}
use kirov_server_emulator.Prelude.Text.{Text, codes}
use kirov_server_emulator.Prelude.Words.{Bytes, be16, byte_at, ◌>>=◌}
pub mod Framing

pub record QueryMasterServer : Type 0 where
  pub peername : Option (Text × ℕ)
  pub buffer : Bytes
  pub processed : ℕ

-- connection_made
abbrev pub connection_made : Option (Text × ℕ) → QueryMasterServer
connection_made peername = record { peername = peername; buffer = []; processed = 0 }

-- connection_lost
abbrev pub connection_lost : QueryMasterServer → QueryMasterServer
connection_lost s = record s { buffer = [] }

abbrev pub client_address : Option (Text × ℕ) → Text
client_address none = codes "0.0.0.0"
client_address (some (ip, port)) = ip

-- `if response: self.transport.write(response)`
abbrev pub written : Option Bytes → List Bytes
written none = []
written (some []) = []
written (some (b ∷ bs)) = (b ∷ bs) ∷ []

module _ (answer : ℕ → Bytes → Text → Option Bytes) where
  -- The buffer without the first packet, and what its answer writes.
  abbrev pub take_packet : QueryMasterServer → ℕ → QueryMasterServer × List Bytes
  take_packet s n = (
    record s { buffer = drop n s.buffer; processed = suc s.processed },
    written (answer s.processed (take n s.buffer) (client_address s.peername)),
  )

  unfoldable pub process_packet : QueryMasterServer → Bool × QueryMasterServer × List Bytes
  process_packet s =
      let n = be16 (byte_at s.buffer 0) (byte_at s.buffer 1) in
      if ltb (length s.buffer) 2 || ltb (length s.buffer) n
      then (false, s, [])
      else (let (s', out) = take_packet s n in (true, s', out))

  -- `while self._process_packet(): pass`, in so many turns at most; `none` where they do not suffice
  unfoldable pub process_packets : ℕ → QueryMasterServer → Option (QueryMasterServer × List Bytes)
  unfolding process_packet
  process_packets zero s = none
  process_packets (suc turns) s =
      let (more, s', out) = process_packet s in
      let rest = process_packets turns s' in
      if more then (do (s'', outs) ← rest; some (s'', out ++ outs)) else some (s', out)

  unfoldable pub data_received :
      ℕ → QueryMasterServer → Bytes → Option (QueryMasterServer × List Bytes)
  unfolding process_packets
  data_received turns s data_ = process_packets turns (record s { buffer = s.buffer ++ data_ })
