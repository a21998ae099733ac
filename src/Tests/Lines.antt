-- ===== src/Tests/Lines.antt =====
-- Messages, lines and bytes of the chat server at concrete inputs.

use kirov_server_emulator.Prelude.Dict.{get}
use kirov_server_emulator.Chat.Handlers.Dispatch.{command_of, handle}
use kirov_server_emulator.Chat.Handlers.Queries.{handle_ping}
use kirov_server_emulator.Prelude.Words.{Bytes}
use kirov_server_emulator.Chat.Connection.Reading.{read_loop, read_loop-append, read_step}
use kirov_server_emulator.Tests.Chat.{env, lobby_chat}
use kirov_server_emulator.Prelude.Strings.{starts_with, split_trailing, upper, words}
use kirov_server_emulator.Chat.Sending.{deliver, send_message}
use kirov_server_emulator.Chat.Message.RoundTrip.{parse-serialize}
use kirov_server_emulator.Chat.Message.{IrcMessage, parse, serialize}
use kirov_server_emulator.Chat.Handlers.Delivery.{received}
use kirov_server_emulator.Chat.Handlers.Registration.{ping_message}
use kirov_server_emulator.Chat.Connection.Stream.{encrypted_lines, encrypted_wire, lines_of}
use kirov_server_emulator.Chat.Connection.{new_wire, perform_all, receive, Wire, handle_lines}
use kirov_server_emulator.Prelude.{
  [], list_eq, nat_eq, option_eq, pair_eq, refl, some, ◌++◌, ◌∷◌, ◌≡◌, list_beq,
}
use kirov_server_emulator.Cipher.Peerchat.{PeerchatCipher, crypt2}
use kirov_server_emulator.Prelude.Text.{codes, Text}

-- The message `PRIVMSG #a :hi all` of ann.
parse-serialize_example :
    let m : IrcMessage = record {
      command = codes "PRIVMSG";
      params = codes "#a" ∷ codes "hi all" ∷ [];
      prefix = some (codes "ann!u@*");
    } in
    parse (serialize m) ≡ some m
unfolding starts_with
parse-serialize_example =
    parse-serialize (some (codes "ann!u@*")) (codes "PRIVMSG") (codes "#a") [] (codes "hi all")
      (refl, (refl, (refl, (refl, (refl, (refl, (refl, (refl, tt))))))))
      ((refl, (refl, (refl, (refl, (refl, (refl, (refl, (refl, tt)))))))), refl)
      (((refl, (refl, (refl, tt))), refl), tt)

abbrev small_cipher : PeerchatCipher
small_cipher = record { table = 1 ∷ 2 ∷ 3 ∷ []; pc1 = 0; pc2 = 0 }

abbrev secure_wire : Wire
secure_wire = record (encrypted_wire new_wire small_cipher) { recv_cipher = some small_cipher }

-- `PING a` and `PING b`, as the client encrypts them, cut within the second line.
abbrev first_part : Bytes
first_part = 73 ∷ 79 ∷ 70 ∷ 33 ∷ 96 ∷ 11 ∷ 81 ∷ 72 ∷ []

abbrev second_part : Bytes
second_part = 70 ∷ 33 ∷ 99 ∷ 11 ∷ []

parts_test :
    (crypt2 small_cipher (codes "PING a" ++ 10 ∷ codes "PING b" ++ 10 ∷ [])).1
    ≡ 80 ∷ first_part ++ 79 ∷ second_part
unfolding crypt2
parts_test = refl

abbrev pong_to : Text → IrcMessage
pong_to t = record { command = codes "PONG"; params = t ∷ []; prefix = some (codes "s") }

read_loop_test :
    (read_loop
      (λ t. t)
      some
      env
      0
      (lobby_chat, secure_wire)
      ((80 ∷ first_part) ∷ (79 ∷ second_part) ∷ [])).1
    ≡ deliver 0 (pong_to (codes "a")) ∷ deliver 0 (pong_to (codes "b")) ∷ []
unfolding read_loop read_step handle_lines receive crypt2 parse handle command_of get list_beq upper
    split_trailing words handle_ping send_message perform_all
read_loop_test = refl

read_loop-append_example :
    read_loop
      (λ t. t)
      some
      env
      0
      (lobby_chat, secure_wire)
      ((80 ∷ first_part) ∷ (79 ∷ second_part) ∷ [] ∷ [])
    ≡ read_loop
        (λ t. t)
        some
        env
        0
        (lobby_chat, secure_wire)
        (((80 ∷ first_part) ++ (79 ∷ second_part)) ∷ [] ∷ [])
unfolding read_step handle_lines receive crypt2 parse handle command_of get list_beq upper
    split_trailing words handle_ping send_message perform_all
read_loop-append_example =
    read_loop-append (λ t. t) some env 0 (lobby_chat, secure_wire) 80 79 first_part second_part
      ([] ∷ []) refl (tt, tt)

encrypted_lines_example :
    (crypt2 small_cipher
      (perform_all
        (λ t. t)
        0
        (encrypted_wire new_wire small_cipher)
        (deliver 0 ping_message ∷ [])).1).1
    ≡ lines_of (λ t. t) (received 0 (deliver 0 ping_message ∷ []))
encrypted_lines_example =
    encrypted_lines (λ t. t) 0 new_wire small_cipher (deliver 0 ping_message ∷ []) (tt, tt)
