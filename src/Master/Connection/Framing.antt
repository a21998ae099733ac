-- ===== src/Master/Connection/Framing.antt =====
-- How the buffer of a connection is cut into packets.
use kirov_server_emulator.Master.Connection.{
  QueryMasterServer, client_address, process_packet, process_packets, written, data_received,
}
use kirov_server_emulator.Prelude.{
  All, List, Option, [], arith, drop-append_self, false, length, length-append, le→ltb_false,
  list_eq, ltb, nat_eq, none, option_eq, pair_eq, refl, some, suc, take-append_self, true, zero, ℕ,
  ◌++◌, ◌+◌, ◌<◌, ◌||◌, ◌∷◌, ◌≡◌, ◌≤◌,
}
use kirov_server_emulator.Prelude.Text.{Text}
use kirov_server_emulator.Prelude.Words.{Bytes, be16, byte_at}

-- A packet that begins with its own length, in two bytes.
abbrev pub IsPacket : Bytes → Type 0
IsPacket p = (2 ≤ length p) × (be16 (byte_at p 0) (byte_at p 1) ≡ length p)

-- The beginning of a packet that is not complete yet.
abbrev pub IsPartial : Bytes → Type 0
IsPartial rest =
    (ltb (length rest) 2 || ltb (length rest) (be16 (byte_at rest 0) (byte_at rest 1))) ≡ true

unfoldable pub stream : List Bytes → Bytes → Bytes
stream [] rest = rest
stream (p ∷ ps) rest = p ++ stream ps rest

module _ (answer : ℕ → Bytes → Text → Option Bytes) where
  -- The answers to the packets, the first of which has this number.
  unfoldable pub answers : Text → ℕ → List Bytes → List Bytes
  answers ip n [] = []
  answers ip n (p ∷ ps) = written (answer n p ip) ++ answers ip (suc n) ps

  announced :
      (p rest : Bytes)
      → 2 ≤ length p
      → be16 (byte_at (p ++ rest) 0) (byte_at (p ++ rest) 1) ≡ be16 (byte_at p 0) (byte_at p 1)
  announced [] rest h = absurd (omega arith)
  announced (a ∷ []) rest h = absurd (omega arith)
  announced (a ∷ b ∷ p) rest h = refl

  process_packet-packet :
      (s : QueryMasterServer) (p rest : Bytes)
      → s.buffer ≡ p ++ rest
      → IsPacket p
      → process_packet answer s ≡ (
        true,
        record s { buffer = rest; processed = suc s.processed },
        written (answer s.processed p (client_address s.peername)),
      )
  unfolding process_packet
  process_packet-packet s p rest e h =
      rw
        (
          e,
          announced p rest h.0,
          h.1,
          length-append p rest,
          drop-append_self p rest,
          take-append_self p rest,
          le→ltb_false (length p + length rest) 2 (omega (arith, h.0)),
          le→ltb_false (length p + length rest) (length p) (omega arith),
        )
        refl

  process_packet-partial :
      (s : QueryMasterServer) → IsPartial s.buffer → process_packet answer s ≡ (false, s, [])
  unfolding process_packet
  process_packet-partial s h = rw h refl

  process_packets-stream :
      (ps : List Bytes) (rest : Bytes) (s : QueryMasterServer) (turns : ℕ)
      → s.buffer ≡ stream ps rest
      → All IsPacket ps
      → IsPartial rest
      → length ps < turns
      → process_packets answer turns s
        ≡ some (
          record s { buffer = rest; processed = s.processed + length ps },
          answers (client_address s.peername) s.processed ps,
        )
  unfolding process_packets stream answers
  process_packets-stream ps rest s zero e h partial enough = absurd (omega arith)
  process_packets-stream [] rest s (suc turns) e h partial enough =
      rw (process_packet-partial s (rw e partial))
        (let z : s.processed + 0 ≡ s.processed = omega arith in rw (← e, z) refl)
  process_packets-stream (p ∷ ps) rest s (suc turns) e h partial enough =
      rw
        (
          process_packet-packet s p (stream ps rest) e h.0,
          process_packets-stream ps rest
              (record s { buffer = stream ps rest; processed = suc s.processed }) turns refl h.1
              partial (omega (arith, enough)),
        )
        (let z : suc s.processed + length ps ≡ s.processed + suc (length ps) = omega arith in
          rw z refl)

  process_packet-zero :
      (rest : Bytes) (s : QueryMasterServer)
      → s.buffer ≡ 0 ∷ 0 ∷ rest
      → process_packet answer s ≡ (
        true,
        record s { buffer = 0 ∷ 0 ∷ rest; processed = suc s.processed },
        written (answer s.processed [] (client_address s.peername)),
      )
  unfolding process_packet
  process_packet-zero rest s e =
      rw
        (
          e,
          le→ltb_false (suc (suc (length rest))) 2 (omega arith),
          le→ltb_false (suc (suc (length rest))) 0 (omega arith),
        )
        refl

  -- A packet that announces the length 0 is taken from the buffer for ever: no number of turns is
  -- enough for the loop, and so the server never gets to other connections.
  pub process_packets_hangs :
      (rest : Bytes) (s : QueryMasterServer) (turns : ℕ)
      → s.buffer ≡ 0 ∷ 0 ∷ rest
      → process_packets answer turns s ≡ none
  unfolding process_packets
  process_packets_hangs rest s zero e = refl
  process_packets_hangs rest s (suc turns) e =
      rw
        (
          process_packet-zero rest s e,
          process_packets_hangs rest
              (record s { buffer = 0 ∷ 0 ∷ rest; processed = suc s.processed }) turns refl,
        )
        refl

  -- Whole packets are answered one by one, in order, each under its own number, and the beginning of
  -- the next packet stays in the buffer. The loop ends when it is given more turns than there are
  -- packets. Every packet begins with its own length, which is at least 2.
  pub data_received-stream :
      (s : QueryMasterServer) (data_ : Bytes) (ps : List Bytes) (rest : Bytes) (turns : ℕ)
      → s.buffer ++ data_ ≡ stream ps rest
      → All IsPacket ps
      → IsPartial rest
      → length ps < turns
      → data_received answer turns s data_
        ≡ some (
          record s { buffer = rest; processed = s.processed + length ps },
          answers (client_address s.peername) s.processed ps,
        )
  unfolding data_received
  data_received-stream s data_ ps rest turns e h partial enough =
      process_packets-stream ps rest (record s { buffer = s.buffer ++ data_ }) turns e h partial
        enough
