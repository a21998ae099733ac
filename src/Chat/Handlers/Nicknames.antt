-- ===== src/Chat/Handlers/Nicknames.antt =====
-- NICK: what it does, and what it leaves behind.
use kirov_server_emulator.Prelude.Dict.{get, Dict}
use kirov_server_emulator.Chat.Handlers.Steps.{IsNickname}
use kirov_server_emulator.Prelude.Text.{Text, codes}
use kirov_server_emulator.Chat.Sending.{deliver, emits, numeric, send_message, send_numeric}
use kirov_server_emulator.Prelude.{
  List, [], false, length, le→ltb_false, list_eq, nat_eq, option_eq, pair_eq, refl, some, true, ℕ,
  ◌==◌, ◌∷◌, ◌≡◌,
}
use kirov_server_emulator.Chat.Handlers.Registration.{
  Environment, handle_nick, in_use, welcome_if_registered, set_nickname,
}
use kirov_server_emulator.Chat.Types.{ChatServer}

-- A nickname that another connection is listed under is refused: nothing changes, and the client is
-- sent the reply 433, if it can be written to.
pub handle_nick_taken :
    (env : Environment) (s : ChatServer) (c d : ℕ) (n : Text) (rest : List Text)
    → IsNickname n
    → get s.irc_clients n ≡ some d
    → (d == c) ≡ false
    → (s.connections c).writable ≡ true
    → handle_nick env s c (n ∷ rest)
      ≡ emits s
          (deliver c (numeric s c (codes "433") (n ∷ codes "Nickname is already in use" ∷ [])) ∷ [])
unfolding handle_nick in_use send_numeric send_message
handle_nick_taken env s c d n rest good taken other works =
    rw (good.0, le→ltb_false 30 (length n) good.1, in_use, taken, other, works) refl

pub accepted :
    (env : Environment) (s : ChatServer) (c : ℕ) (n : Text) (rest : List Text)
    → IsNickname n
    → in_use s c n ≡ false
    → handle_nick env s c (n ∷ rest) ≡ welcome_if_registered env (set_nickname s c n) c
unfolding handle_nick
accepted env s c n rest good free = rw (good.0, le→ltb_false 30 (length n) good.1, free) refl
