-- ===== src/NatNeg/Protocol/Replacing.antt =====
-- `replace_ip_port_in_packet`.

use kirov_server_emulator.NatNeg.Packets.Codec.{ip_string_to_bytes-ip_bytes_to_string}
use kirov_server_emulator.NatNeg.Protocol.{replace_from, replace_ip_port_in_packet, starts_with}
use kirov_server_emulator.Prelude.Words.{Bytes, IsBytes, bytes16}
use kirov_server_emulator.NatNeg.Packets.{ip_bytes_to_string}
use kirov_server_emulator.Prelude.{
  Bool-cases, [], ap, arith, drop, false, inl, inr, length, length-append, list_eq, lt→ltb, nat_eq,
  pair_eq, refl, some, suc, true, zero, ℕ, ◌+◌, ◌-◌, ◌<◌, ◌∷◌, ◌≡◌, ◌≤◌,
}

starts_with-length : (p bs : Bytes) → starts_with p bs ≡ true → length p ≤ length bs
unfolding starts_with
starts_with-length [] bs h = omega arith
starts_with-length (x ∷ p) [] h = cc
starts_with-length (x ∷ p) (b ∷ bs) h =
    let rest : starts_with p bs ≡ true = ground arith in omega (arith, starts_with-length p bs rest)

module _ (old new : Bytes) where
  replace_from-length :
      (skip : ℕ) (bs : Bytes)
      → 0 < length old
      → length new ≡ length old
      → skip ≤ length bs
      → length (replace_from old new skip bs) + skip ≡ length bs
  unfolding replace_from
  replace_from-length zero [] some_old same h = omega arith
  replace_from-length (suc skip) [] some_old same h = absurd (omega arith)
  replace_from-length (suc skip) (b ∷ bs) some_old same h =
      omega (arith, replace_from-length skip bs some_old same (omega arith))
  replace_from-length zero (b ∷ bs) some_old same h = elim (Bool-cases (starts_with old (b ∷ bs))) [
    | inl hit ↦
        let fits = starts_with-length old (b ∷ bs) hit in
        let rest = replace_from-length (length old - 1) bs some_old same (omega arith) in
        rw (replace_from, hit)
          (omega (arith, length-append new (replace_from old new (length old - 1) bs)))
    | inr miss ↦
        rw (replace_from, miss)
          (omega (arith, replace_from-length 0 bs some_old same (omega arith)))
  ]

  replace_from_absent :
      (bs : Bytes)
      → ((i : ℕ) → starts_with old (drop i bs) ≡ false)
      → replace_from old new 0 bs ≡ bs
  unfolding replace_from
  replace_from_absent [] h = refl
  replace_from_absent (b ∷ bs) h =
      rw (replace_from, h 0) (ap (◌∷◌ b) (replace_from_absent bs (λ i. h (suc i))))

module _ (a b c d port a' b' c' d' port' : ℕ) (packet : Bytes) (old : IsBytes (a ∷ b ∷ c ∷ d ∷ []))
    (new : IsBytes (a' ∷ b' ∷ c' ∷ d' ∷ [])) (ports : (port < 65536) × (port' < 65536)) where
  abbrev pub pattern_bytes : Bytes
  pattern_bytes = a ∷ b ∷ c ∷ d ∷ bytes16 port

  replaced :
      replace_ip_port_in_packet packet
        (ip_bytes_to_string (a ∷ b ∷ c ∷ d ∷ []))
        port
        (ip_bytes_to_string (a' ∷ b' ∷ c' ∷ d' ∷ []))
        port'
      ≡ some (replace_from pattern_bytes (a' ∷ b' ∷ c' ∷ d' ∷ bytes16 port') 0 packet)
  unfolding replace_ip_port_in_packet
  replaced = rw (
    ip_string_to_bytes-ip_bytes_to_string a (b ∷ c ∷ d ∷ []) old,
    ip_string_to_bytes-ip_bytes_to_string a' (b' ∷ c' ∷ d' ∷ []) new,
    lt→ltb port 65536 ports.0,
    lt→ltb port' 65536 ports.1,
  )

  -- Replacing one IPv4 address and port by another keeps the packet's length, and leaves the packet
  -- as it is where the six bytes of the old pair stand nowhere in it.
  pub replace_ip_port_in_packet_lem :
      (result : Bytes) × (replace_ip_port_in_packet packet
          (ip_bytes_to_string (a ∷ b ∷ c ∷ d ∷ []))
          port
          (ip_bytes_to_string (a' ∷ b' ∷ c' ∷ d' ∷ []))
          port'
        ≡ some result)
      × (length result ≡ length packet)
      × (((i : ℕ) → starts_with pattern_bytes (drop i packet) ≡ false) → result ≡ packet)
  replace_ip_port_in_packet_lem =
      let new_bytes = a' ∷ b' ∷ c' ∷ d' ∷ bytes16 port' in
      (
        replace_from pattern_bytes new_bytes 0 packet,
        replaced,
        omega (
          arith,
          replace_from-length pattern_bytes new_bytes 0 packet (omega arith) refl (omega arith),
        ),
        replace_from_absent pattern_bytes new_bytes packet,
      )
