-- ===== src/Master/Handler/RoomQuery.antt =====
-- A room list from the request to what the client reads.
use kirov_server_emulator.Master.Response.{build_room_list_response}
use kirov_server_emulator.Master.Response.Reading.{IsString, read_body, read_room_list}
use kirov_server_emulator.Master.Response.Rooms.{
  IsWritable, read_room_list-build_room_list_response, room_view,
}
use kirov_server_emulator.Master.Request.Layout.{
  IsField, parse_tcp_query-query_bytes, query_bytes, query_request,
}
use kirov_server_emulator.Master.Registry.{GameSessionRegistry}
use kirov_server_emulator.Cipher.EncTypeX.Message.{decode-encode}
use kirov_server_emulator.Cipher.EncTypeX.Schedule.{new_cipher_total}
use kirov_server_emulator.Master.Request.{is_room_list_request, QueryRequest, meets}
use kirov_server_emulator.Prelude.Strings.{truthy}
use kirov_server_emulator.Prelude.{
  List, Option, arith, length, list_eq, nat_eq, option_eq, pair_eq, refl, some, true, ◌<◌, ◌≡◌, [],
  ◌+◌, ◌∷◌, All, ap, contains, map, ℕ, ◌∙◌, Bool,
}
use kirov_server_emulator.Master.Handler.{
  Draw, QueryMasterHandler, encrypt_response, handle_room_list_request, latin1, answer_query,
  default_fields, handle_query, fields_or,
}
use kirov_server_emulator.Prelude.Text.{Text, Free, codes}
use kirov_server_emulator.Prelude.Words.{Bytes}
use kirov_server_emulator.Cipher.EncTypeX.{decode, EncTypeX, new_cipher, encode}

-- With a key and a token of eight bytes the response is encrypted, and a client that has both decodes it.
encrypt_response-decode :
    (h : QueryMasterHandler) (random : Draw) (message token : Bytes) (key : Bytes) (d : EncTypeX)
    (salt : Bytes)
    → latin1 h.gamekey ≡ some key
    → 0 < length key
    → length token ≡ 8
    → new_cipher key token salt ≡ some d
    → (d' : EncTypeX) × (decode d (encrypt_response h random message token) ≡ some (d', message))
unfolding encrypt_response
encrypt_response-decode h random message token key d salt latin long eight client =
    let (e, made) = new_cipher_total key token random.salt long (omega (arith, eight)) in
    let back = decode-encode key token random.salt salt random.padding message e d made client in
    (
      record (encode e random.padding message).0 {
        start = length random.padding + 2 + length random.salt;
      },
      rw (latin, made) back,
    )

-- The handler answers a request for the rooms with the encrypted room list.
answer_query-rooms :
    (enc : Text → Bytes) (inet_aton : Text → Option Bytes) (is_float : Text → Bool)
    (h : QueryMasterHandler) (registry : GameSessionRegistry) (random : Draw)
    (request : QueryRequest) (client_ip : Text) (message : Bytes)
    → truthy request.game_name ≡ true
    → is_room_list_request request ≡ true
    → truthy message ≡ true
    → truthy request.validate_token ≡ true
    → handle_room_list_request enc inet_aton h request client_ip ≡ some message
    → answer_query enc inet_aton is_float h registry random request client_ip true
      ≡ some (encrypt_response h random message request.validate_token)
unfolding answer_query
answer_query-rooms enc inet_aton is_float h registry random request client_ip message named asked
      answered token built =
    rw (named, asked, built, answered, token) refl

truthy_long : (s : Bytes) → 0 < length s → truthy s ≡ true
truthy_long [] h = absurd (omega arith)
truthy_long (b ∷ s) h = refl

truthy_read :
    (m : Bytes) (r : Bytes × List Bytes × List (ℕ × List Bytes))
    → read_room_list m ≡ some r
    → truthy m ≡ true
unfolding read_room_list read_body
truthy_read [] r h = cc
truthy_read (b ∷ m) r h = refl

fields_or_asked :
    (fs fields : List Text) (x : Text) → contains fs x ≡ true → fields_or fs fields ≡ fs
unfolding contains
fields_or_asked [] fields x h = cc
fields_or_asked (f ∷ fs) fields x h = refl

numwaiting_asked :
    (request : QueryRequest)
    → contains request.fields (codes "numwaiting") ≡ true
    → is_room_list_request request ≡ true
unfolding is_room_list_request meets
numwaiting_asked request h = rw h refl

IsString-All :
    (enc : Text → Bytes)
    → ((s : Text) → Free 0 s → Free 0 (enc s))
    → (fs : List Text) → All (Free 0) fs
    → All (IsString enc) fs
IsString-All enc keeps [] h = h
IsString-All enc keeps (f ∷ fs) h = (keeps f h.0, IsString-All enc keeps fs h.1)

-- A client that asks for the rooms, among other fields for `numwaiting`, is answered by one encrypted
-- message. With the key of the game and the token that it sent, it decodes the message and reads its
-- own address, the fields it asked for, and every room of the handler with these fields, in order. The
-- request has the documented layout, with a name of the game, at most 255 fields and a token of eight
-- bytes; the key is Latin-1 and not empty; the rooms can be written; no text has a zero character; and
-- UTF-8 is decoded as it was encoded, with a zero byte for the zero character only.
pub handle_query_lem :
    (enc : Text → Bytes) (dec : Bytes → Text) (inet_aton : Text → Option Bytes)
    (is_float : Text → Bool)
    → ((s : Text) → dec (enc s) ≡ s)
    → ((s : Text) → Free 0 s → Free 0 (enc s))
    → (h : QueryMasterHandler) (registry : GameSessionRegistry) (random : Draw) (n : ℕ)
      (header token tail : Bytes) (game game2 filter : Text) (fs : List Text) (client_ip : Text)
      (ip key salt : Bytes) (d : EncTypeX)
    → length header ≡ 6
    → length token ≡ 8
    → All (Free 0) (game ∷ game2 ∷ filter ∷ fs)
    → All IsField fs
    → truthy game ≡ true
    → contains fs (codes "numwaiting") ≡ true
    → length fs < 256
    → All (IsWritable enc fs) h.rooms
    → inet_aton client_ip ≡ some ip
    → length ip ≡ 4
    → latin1 h.gamekey ≡ some key
    → 0 < length key
    → new_cipher key token salt ≡ some d
    → (answer : Bytes) × (message : Bytes) × (d' : EncTypeX) × (handle_query enc inet_aton is_float
          dec h registry random
          (query_bytes enc n header game game2 token filter fs tail)
          client_ip
          true
        ≡ some answer)
      × (decode d answer ≡ some (d', message))
      × (read_room_list message ≡ some (ip, map enc fs, map (room_view enc fs) h.rooms))
unfolding handle_query handle_room_list_request
handle_query_lem enc dec inet_aton is_float inverse keeps h registry random n header token tail game
      game2 filter fs client_ip ip key salt d six eight free names named asked few writable known
      four latin long client =
    let request =
      query_request (query_bytes enc n header game game2 token filter fs tail) n header game game2
        token filter fs tail in
    let (message, built, seen) =
      read_room_list-build_room_list_response enc inet_aton client_ip ip fs h.rooms known four few
        (IsString-All enc keeps fs free.1.1.1) writable in
    let (d', decoded) =
      encrypt_response-decode h random message token key d salt latin long eight client in
    let parsed =
      parse_tcp_query-query_bytes enc dec inverse keeps n header token tail game game2 filter fs six
        eight free names in
    (
      encrypt_response h random message token,
      message,
      d',
      ap (λ r. answer_query enc inet_aton is_float h registry random r client_ip true) parsed
          ∙ answer_query-rooms enc inet_aton is_float h registry random request client_ip message
              named (numwaiting_asked request asked) (truthy_read message _ seen)
              (truthy_long token (omega (arith, eight)))
              (ap (λ f. build_room_list_response enc inet_aton h.rooms f client_ip)
                  (fields_or_asked fs default_fields (codes "numwaiting") asked)
                ∙ built),
      decoded,
      seen,
    )
