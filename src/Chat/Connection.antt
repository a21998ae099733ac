-- ===== src/Chat/Connection.antt =====
-- The read loop, the writes and the end of a connection of app/servers/peerchat_server.py. `encode`
-- and `decode` are UTF-8; `none` is UnicodeDecodeError.
pub mod Cleanup
pub mod Stream
pub mod Reading
use kirov_server_emulator.Chat.Handlers.Dispatch.{handle}
use kirov_server_emulator.Cipher.EncTypeX.{decode, encode}
use kirov_server_emulator.Cipher.Peerchat.{PeerchatCipher, crypt2}
use kirov_server_emulator.Prelude.Text.{Text}
use kirov_server_emulator.Prelude.Words.{Bytes}
use kirov_server_emulator.Chat.Message.{IrcMessage, parse, serialize}
use kirov_server_emulator.Chat.Sending.{ChatEffect, ciphers, deliver, encrypts}
use kirov_server_emulator.Chat.Channels.{part_channel}
use kirov_server_emulator.Chat.Handlers.Registration.{Environment}
use kirov_server_emulator.Prelude.{
  Bool, List, Option, [], false, if◌then◌else◌, list_eq, nat_beq, nat_eq, none, option_eq, pair_eq,
  some, true, ℕ, ◌++◌, ◌==◌, ◌∷◌,
}
use kirov_server_emulator.NatNeg.Manager.Scheduling.{sent}
use kirov_server_emulator.Prelude.Strings.{is_set, strip, truthy}
use kirov_server_emulator.Prelude.Dict.{remove}
use kirov_server_emulator.Chat.Types.{ChatServer, user_of, nickname_of}

pub record Wire : Type 0 where
  pub send_cipher : Option PeerchatCipher
  pub recv_cipher : Option PeerchatCipher
  pub encryption_enabled : Bool
  pub data_buffer : Bytes

abbrev pub new_wire : Wire
new_wire = record {
  send_cipher = none;
  recv_cipher = none;
  encryption_enabled = false;
  data_buffer = [];
}

unfoldable pub write_with : Wire → Option PeerchatCipher → Bytes → Wire × Bytes
write_with w none bytes = (w, bytes)
write_with w (some k) bytes =
    let (k', out) = crypt2 k bytes in (record w { send_cipher = some k' }, out)

-- The bytes of a message, as they leave the connection.
unfoldable pub write : Wire → Bytes → Wire × Bytes
unfolding write_with
write w bytes = if w.encryption_enabled then write_with w w.send_cipher bytes else (w, bytes)

abbrev pub line_bytes : (Text → Bytes) → IrcMessage → Bytes
line_bytes encode m = encode (serialize m ++ 13 ∷ 10 ∷ [])

-- What an effect does to the connection `c`, and the bytes that it writes there.
unfoldable pub perform : (Text → Bytes) → ℕ → Wire → ChatEffect → Wire × Bytes
unfolding write
perform encode c w (deliver d m) = if c == d then write w (line_bytes encode m) else (w, [])
perform encode c w (ciphers d to_client from_client) =
    if c == d
    then (record w { send_cipher = some to_client; recv_cipher = some from_client }, [])
    else (w, [])
perform encode c w (encrypts d) =
    if c == d then (record w { encryption_enabled = true }, []) else (w, [])

unfoldable pub perform_all : (Text → Bytes) → ℕ → Wire → List ChatEffect → Wire × Bytes
unfolding perform
perform_all encode c w [] = (w, [])
perform_all encode c w (e ∷ es) =
    let (w', first) = perform encode c w e in
    let (w'', rest) = perform_all encode c w' es in (w'', first ++ rest)

abbrev pub push_byte : ℕ → List Bytes × Bytes → List Bytes × Bytes
push_byte b ([], rest) = ([], b ∷ rest)
push_byte b (l ∷ ls, rest) = ((b ∷ l) ∷ ls, rest)

-- The complete lines of a buffer, and what stays in it.
unfoldable pub take_lines : Bytes → List Bytes × Bytes
take_lines [] = ([], [])
take_lines (b ∷ bs) =
    let (ls, rest) = take_lines bs in
    if nat_beq b 10 then ([] ∷ ls, rest) else push_byte b (ls, rest)

abbrev pub decrypt : Option PeerchatCipher → Bytes → Option PeerchatCipher × Bytes
decrypt none bytes = (none, bytes)
decrypt (some k) bytes = (some (crypt2 k bytes).0, (crypt2 k bytes).1)

-- One read of an encrypted connection: the lines that are complete now.
unfoldable pub receive : Wire → Bytes → Wire × List Bytes
unfolding take_lines
receive w raw =
    let (k, plain) = decrypt w.recv_cipher raw in
    let (ls, rest) = take_lines (w.data_buffer ++ plain) in
    (record w { recv_cipher = k; data_buffer = rest }, ls)

unfoldable pub handle_parsed :
    Environment → ChatServer → ℕ → Option IrcMessage → ChatServer × List ChatEffect
handle_parsed env s c none = (s, [])
handle_parsed env s c (some m) = handle env s c m

-- An empty line and a line that is no message are skipped.
unfoldable pub handle_text :
    Environment → ChatServer → ℕ → Option Text → ChatServer × List ChatEffect
unfolding handle_parsed strip
handle_text env s c none = (s, [])
handle_text env s c (some text) =
    if truthy (strip text) then handle_parsed env s c (parse (strip text)) else (s, [])

unfoldable pub handle_lines :
    (Bytes → Option Text) → Environment → ChatServer → ℕ → List Bytes → ChatServer × List ChatEffect
unfolding handle_text
handle_lines decode env s c [] = (s, [])
handle_lines decode env s c (l ∷ ls) =
    let (s', sent) = handle_text env s c (decode l) in
    let (s'', more) = handle_lines decode env s' c ls in (s'', sent ++ more)

unfoldable pub part_all : ChatServer → ℕ → List Text → ChatServer
part_all s c [] = s
part_all s c (name ∷ names) = part_all (part_channel s c name) c names

abbrev pub forget : ChatServer → Option Text → ChatServer
forget s none = s
forget s (some nick) = record s { irc_clients = remove s.irc_clients nick }

-- At the end of a connection, and after a ping that was not answered.
unfoldable pub cleanup_client : ChatServer → ℕ → ChatServer
unfolding part_all
cleanup_client s c =
    if is_set (nickname_of s c)
    then forget (part_all s c (user_of s c).channels) (nickname_of s c)
    else s
