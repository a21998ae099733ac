-- ===== src/Master/Heartbeat/Answers.antt =====
-- What HeartbeatMaster sends for a datagram.

use kirov_server_emulator.Prelude.Dict.{Dict, get}
use kirov_server_emulator.Master.Registry.{GameSessionRegistry, text_at}
use kirov_server_emulator.Master.Heartbeat.{
  b16encode, hex_digit, challenge_bytes, HeartbeatMaster, Step, dispatch, handle_available,
  handle_challenge_response, handle_heartbeat, handle_info, handle_keepalive, receive_heartbeat,
  registered, send_challenge, send_datagram, try_send,
}
use kirov_server_emulator.Prelude.Text.{Text, codes}
use kirov_server_emulator.Prelude.Words.{Bytes, IsBytes, pack_u16, pack_u32, ◌>>=◌, byte_at}
use kirov_server_emulator.Prelude.{
  List, Option, [], arith, length, list_eq, nat_eq, option_eq, pair_eq, refl, some, ℕ, ◌%◌, ◌++◌,
  ◌+◌, ◌/◌, ◌<◌, ◌∷◌, ◌≡◌, ◌≤◌, Bool-cases, inl, inr, ltb, ltb→lt, none, length-append, ◌==◌,
  All-append, IfSome, in_both,
}
use kirov_server_emulator.Master.Heartbeat.Changes.{id_of}

-- The bytes of a response that are not more than 31.
abbrev pub IsReply : Bytes → Type 0
IsReply d = IsBytes d × (length d ≤ 31)

-- The datagrams sent for one of this address.
pub data IsAnswer (addr : Text × ℕ) : List (Bytes × (Text × ℕ)) → Type 0 where
  silence : IsAnswer addr []
  reply : (d : Bytes) → IsReply d → IsAnswer addr ((d, addr) ∷ [])

-- The addresses of inet_aton have four bytes.
abbrev pub HasFourBytes : (Text → Option Bytes) → Type 0
HasFourBytes inet_aton = (t : Text) → IfSome (λ ip. IsBytes ip × (length ip ≡ 4)) (inet_aton t)

IfSome-bind {ℓ κ} :
    {A B : Type ℓ} (P : A → Type κ) (Q : B → Type κ) (o : Option A) (f : A → Option B)
    → IfSome P o
    → ((a : A) → P a → IfSome Q (f a))
    → IfSome Q (o >>= f)
IfSome-bind P Q none f h k = tt
IfSome-bind P Q (some a) f h k = k a h

-- Packed numbers are bytes, two or four of them.
abbrev IsPacked : ℕ → Bytes → Type 0
IsPacked n d = IsBytes d × (length d ≡ n)

pack_u16-IsPacked : (n : ℕ) → IfSome (IsPacked 2) (pack_u16 n)
pack_u16-IsPacked n = elim (Bool-cases (ltb n 65536)) [
  | inl small ↦
      let bound = ltb→lt n 65536 small in rw small ((omega (arith, bound), (omega arith, tt)), refl)
  | inr big ↦ rw big tt
]

pack_u32-IsPacked : (n : ℕ) → IfSome (IsPacked 4) (pack_u32 n)
pack_u32-IsPacked n = elim (Bool-cases (ltb n 4294967296)) [
  | inl small ↦
      let bound = ltb→lt n 4294967296 small in
      rw small ((omega (arith, bound), (omega arith, (omega arith, (omega arith, tt)))), refl)
  | inr big ↦ rw big tt
]

hex_digit_bound : (n : ℕ) → n < 16 → hex_digit n < 256
hex_digit_bound n h = ground (arith, h)

b16encode-IsBytes : (d : Bytes) → IsBytes d → IsBytes (b16encode d)
unfolding b16encode
b16encode-IsBytes [] h = h
b16encode-IsBytes (b ∷ bs) h = (
  hex_digit_bound (b / 16) (omega (arith, h.0)),
  (hex_digit_bound (b % 16) (omega arith), b16encode-IsBytes bs h.1),
)

length-b16encode : (d : Bytes) → length (b16encode d) ≡ length d + length d
unfolding b16encode
length-b16encode [] = refl
length-b16encode (b ∷ bs) = omega (arith, length-b16encode bs)

-- The challenge, from its parts.
challenge_text : Bytes → Bytes → Bytes → Bytes
challenge_text ip port id =
    0xFE ∷ 0xFD ∷ 1 ∷ id ++ (codes "CHALLENGE" ++ (b16encode (0 ∷ ip ++ port) ++ 0 ∷ []))

challenge_text-IsReply :
    (ip port id : Bytes)
    → IsPacked 4 ip
    → IsPacked 2 port
    → IsPacked 4 id
    → IsReply (challenge_text ip port id)
unfolding challenge_text
challenge_text-IsReply ip port id h k l =
    let code = b16encode (0 ∷ ip ++ port) in
    let code-IsBytes : IsBytes code =
      b16encode-IsBytes _ (omega arith, All-append (λ b. b < 256) ip port h.0 k.0) in
    let tail-IsBytes : IsBytes (code ++ 0 ∷ []) =
      All-append (λ b. b < 256) code _ code-IsBytes (omega arith, tt) in
    (
      (
        omega arith,
        (
          omega arith,
          (
            omega arith,
            All-append (λ b. b < 256) id _ l.0
                (All-append (λ b. b < 256) (codes "CHALLENGE") _ (ground arith) tail-IsBytes),
          ),
        ),
      ),
      omega (
        arith,
        h.1,
        k.1,
        l.1,
        length-append id (codes "CHALLENGE" ++ (code ++ 0 ∷ [])),
        length-append code (0 ∷ []),
        length-b16encode (0 ∷ ip ++ port),
        length-append ip port,
      ),
    )

challenge_bytes-IsReply :
    (inet_aton : Text → Option Bytes)
    → HasFourBytes inet_aton
    → (addr : Text × ℕ) (id : ℕ) → IfSome IsReply (challenge_bytes inet_aton addr id)
unfolding challenge_bytes challenge_text
challenge_bytes-IsReply inet_aton four (ip, port) id =
    IfSome-bind (IsPacked 4) IsReply (inet_aton ip) _ (four ip) λ ip_bytes h.
      IfSome-bind (IsPacked 2) IsReply (pack_u16 port) _ (pack_u16-IsPacked port) λ port_bytes k.
        IfSome-bind (IsPacked 4) IsReply (pack_u32 id) _ (pack_u32-IsPacked id)
          λ id_bytes l. challenge_text-IsReply ip_bytes port_bytes id_bytes h k l

response_correct-IsReply :
    (id : ℕ) → IfSome IsReply (do bs ← pack_u32 id; some (0xFE ∷ 0xFD ∷ 0x0A ∷ bs))
response_correct-IsReply id =
    IfSome-bind (IsPacked 4) IsReply (pack_u32 id) _ (pack_u32-IsPacked id)
      λ bs l. ((omega arith, (omega arith, (omega arith, l.0))), omega (arith, l.1))

-- What a step sends answers a datagram of this address.
abbrev Answers : Text × ℕ → Step → Type 0
Answers addr st = IsAnswer addr st.sent_datagrams

send_datagram-Answers :
    (m : HeartbeatMaster) (d : Bytes) (addr : Text × ℕ)
    → IsReply d
    → Answers addr (send_datagram m d addr)
send_datagram-Answers m d addr r = in_both (IsAnswer addr) m.transport _ _ (reply d r) silence

try_send-Answers :
    (m : HeartbeatMaster) (o : Option Bytes) (addr : Text × ℕ)
    → IfSome IsReply o
    → Answers addr (try_send m o addr)
try_send-Answers m none addr r = silence
try_send-Answers m (some d) addr r = send_datagram-Answers m d addr r

module _ (inet_aton : Text → Option Bytes) (inet_ntoa utf8_decode : Bytes → Text)
    (show_players : List (Dict Text Text) → Text) (four : HasFourBytes inet_aton) where
  registered-Answers :
      (m : HeartbeatMaster) (addr : Text × ℕ) (id : ℕ) (info : Dict Text Text)
      (o : Option GameSessionRegistry)
      → Answers addr (registered inet_aton m addr id info o)
  unfolding send_challenge
  registered-Answers m addr id info none = silence
  registered-Answers m addr id info (some r) =
      in_both (Answers addr) (text_at (get info (codes "publicip")) [] == codes "0") _ _
        (try_send-Answers _ _ addr (challenge_bytes-IsReply inet_aton four addr id)) silence

  handle_info-Answers :
      (m : HeartbeatMaster) (addr : Text × ℕ) (id : ℕ) (info : Dict Text Text)
      → Answers addr (handle_info inet_aton inet_ntoa m addr id info)
  unfolding handle_info
  handle_info-Answers m addr id info =
      in_both (Answers addr) (text_at (get info (codes "statechanged")) (codes "0") == codes "2") _
        _ silence (registered-Answers _ addr id info _)

  -- Let inet_aton give four bytes. Then for any datagram the server sends at most one, to the address
  -- that the datagram came from, and it consists of at most 31 bytes.
  pub receive_heartbeat-IsAnswer :
      (m : HeartbeatMaster) (data_ : Bytes) (addr : Text × ℕ)
      → IsAnswer addr
          (receive_heartbeat inet_aton inet_ntoa utf8_decode show_players m data_
            addr).sent_datagrams
  unfolding receive_heartbeat dispatch handle_available handle_challenge_response handle_heartbeat
      handle_keepalive
  receive_heartbeat-IsAnswer m data_ addr =
      let id = id_of data_ in
      let kind = byte_at data_ 0 in
      in_both (Answers addr) (ltb (length data_) 5) _ _ silence (
        in_both (Answers addr) (kind == 9) _ _
          (send_datagram-Answers m _ addr (ground arith, omega arith))
          (in_both (Answers addr) (kind == 3) _ _ (handle_info-Answers m addr id _) (
            in_both (Answers addr) (kind == 1) _ _
              (try_send-Answers m _ addr (response_correct-IsReply id))
              (in_both (Answers addr) (kind == 8) _ _ silence silence))))
