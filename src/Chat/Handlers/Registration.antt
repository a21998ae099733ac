-- ===== src/Chat/Handlers/Registration.antt =====
-- The commands NICK, USER, PASS, CRYPT and CDKEY of app/servers/peerchat_handlers.py.

use kirov_server_emulator.Chat.Message.{IrcMessage}
use kirov_server_emulator.Prelude.Text.{Text, codes, int_of}
use kirov_server_emulator.Cipher.Peerchat.{PeerchatCipher, new_peerchat_cipher}
use kirov_server_emulator.Prelude.{
  Bool, List, Option, [], false, if◌then◌else◌, length, list_eq, ltb, nat_eq, none, not, option_eq,
  pair_eq, some, true, ℕ, ◌&&◌, ◌++◌, ◌==◌, ◌||◌, ◌∷◌,
}
use kirov_server_emulator.Chat.Sending.{
  Outcome, after, ciphers, done, emits, encrypts, raises, send_message, send_numeric, send_numerics,
  seq,
}
use kirov_server_emulator.Prelude.Strings.{truthy, is_set, shown, split_once}
use kirov_server_emulator.Prelude.Dict.{get, put, remove, Dict}
use kirov_server_emulator.Chat.Types.{
  ChatServer, IrcUser, user_of, is_registered, nickname_of, set_user,
}

-- What a handler reads from the configuration, the clock and the random generator.
pub record Environment : Type 0 where
  pub server_name : Text
  pub gamekey : Text
  pub now : ℕ
  pub send_challenge : Text
  pub recv_challenge : Text

unfoldable pub need_more_params : ChatServer → ℕ → Text → Outcome
need_more_params s c command =
    send_numeric s c (codes "461") (command ∷ codes "Not enough parameters" ∷ [])

unfoldable pub handle_pass : ChatServer → ℕ → List Text → Outcome
unfolding need_more_params
handle_pass s c [] = need_more_params s c (codes "PASS")
handle_pass s c (token ∷ rest) =
    done (set_user s c (record (user_of s c) { session_token = some token }))

unfoldable pub welcome_lines : Environment → Option Text → List (Text × List Text)
welcome_lines env nick =
    (codes "001", (codes "Welcome to the Matrix " ++ shown nick) ∷ [])
    ∷ (
      codes "002",
      (codes "Your host is " ++ env.server_name ++ codes ", running version 1.0") ∷ [],
    )
    ∷ (codes "003", codes "This server was created for Red Alert 3" ∷ [])
    ∷ (codes "004", env.server_name ∷ codes "1.0" ∷ codes "iq" ∷ codes "biklmnopqustvhe" ∷ [])
    ∷ (codes "375", codes "- (M) Message of the day - " ∷ [])
    ∷ (codes "372", codes "- Welcome to GameSpy" ∷ [])
    ∷ (codes "376", codes "End of MOTD command" ∷ [])
    ∷ []

unfoldable pub authenticate : ChatServer → ℕ → Outcome
authenticate s c = done (set_user s c (record (user_of s c) { authenticated = true }))

unfoldable pub send_welcome : Environment → ChatServer → ℕ → Outcome
unfolding welcome_lines authenticate
send_welcome env s c =
    seq (send_numerics s c (welcome_lines env (nickname_of s c))) (λ s'. authenticate s' c)

-- The end of NICK and of USER.
unfoldable pub welcome_if_registered : Environment → ChatServer → ℕ → Outcome
unfolding send_welcome
welcome_if_registered env s c =
    if is_registered (user_of s c) && not (user_of s c).authenticated
    then send_welcome env s c
    else done s

-- Another connection has the nickname.
unfoldable pub in_use : ChatServer → ℕ → Text → Bool
in_use s c nick = elim (get s.irc_clients nick) [ none ↦ false | some d ↦ not (d == c) ]

unfoldable pub drop_nickname : Dict Text ℕ → Option Text → Dict Text ℕ
drop_nickname d none = d
drop_nickname d (some old) = if truthy old then remove d old else d

unfoldable pub set_nickname : ChatServer → ℕ → Text → ChatServer
unfolding drop_nickname
set_nickname s c nick =
    let clients = put (drop_nickname s.irc_clients (nickname_of s c)) nick c in
    set_user (record s { irc_clients = clients }) c (record (user_of s c) { nickname = some nick })

unfoldable pub handle_nick : Environment → ChatServer → ℕ → List Text → Outcome
unfolding in_use set_nickname welcome_if_registered
handle_nick env s c [] = send_numeric s c (codes "431") (codes "No nickname given" ∷ [])
handle_nick env s c (nick ∷ rest) =
    if not (truthy nick) || ltb 30 (length nick)
    then send_numeric s c (codes "432") (nick ∷ codes "Erroneous nickname" ∷ [])
    else if in_use s c nick
    then send_numeric s c (codes "433") (nick ∷ codes "Nickname is already in use" ∷ [])
    else welcome_if_registered env (set_nickname s c nick) c

abbrev known_or : Option (Bool × ℕ) → Option (Bool × ℕ) → Option (Bool × ℕ)
known_or none old = old
known_or (some n) old = some n

-- The profile of `<encoded_ip>|<profile_id>`; a text that is no number leaves it as it was.
unfoldable pub profile_of : Text → Option (Bool × ℕ) → Option (Bool × ℕ)
profile_of username old = elim (split_once 124 username) [
  | none ↦ old
  | some (ip, id) ↦ known_or (int_of id) old
]

unfoldable pub with_username : IrcUser → Text → Text → IrcUser
unfolding profile_of
with_username u username realname = record u {
  username = some username;
  realname = some realname;
  profile_id = profile_of username u.profile_id;
}

unfoldable pub register_user : Environment → ChatServer → ℕ → Text → Text → Outcome
unfolding with_username welcome_if_registered
register_user env s c username realname =
    if is_set (user_of s c).username
    then send_numeric s c (codes "462") (codes "You may not reregister" ∷ [])
    else welcome_if_registered env (set_user s c (with_username (user_of s c) username realname)) c

unfoldable pub handle_user : Environment → ChatServer → ℕ → List Text → Outcome
unfolding register_user need_more_params
handle_user env s c (username ∷ _ ∷ _ ∷ realname ∷ rest) = register_user env s c username realname
handle_user env s c _ = need_more_params s c (codes "USER")

-- The reply goes out before encryption is turned on.
unfoldable pub start_encryption :
    ChatServer → ℕ → Environment → PeerchatCipher → PeerchatCipher → Outcome
start_encryption s c env to_client from_client = after (ciphers c to_client from_client ∷ []) (
    seq (send_numeric s c (codes "705") (env.recv_challenge ∷ env.send_challenge ∷ []))
      (λ s'. emits s' (encrypts c ∷ [])))

unfoldable pub with_ciphers :
    ChatServer → ℕ → Environment → Option PeerchatCipher → Option PeerchatCipher → Outcome
unfolding start_encryption
with_ciphers s c env (some to_client) (some from_client) =
    start_encryption s c env to_client from_client
with_ciphers s c env _ _ = raises s

unfoldable pub handle_crypt : Environment → ChatServer → ℕ → List Text → Outcome
unfolding with_ciphers need_more_params
handle_crypt env s c (_ ∷ _ ∷ _ ∷ rest) =
    with_ciphers s c env (new_peerchat_cipher env.send_challenge env.gamekey)
      (new_peerchat_cipher env.recv_challenge env.gamekey)
handle_crypt env s c _ = need_more_params s c (codes "CRYPT")

abbrev pub ping_message : IrcMessage
ping_message = record { command = codes "PING"; params = codes "s" ∷ []; prefix = none }

-- Every hash is accepted.
unfoldable pub handle_cdkey : ChatServer → ℕ → List Text → Outcome
unfolding need_more_params
handle_cdkey s c [] = need_more_params s c (codes "CDKEY")
handle_cdkey s c (hash ∷ rest) =
    seq
      (send_numeric (set_user s c (record (user_of s c) { cdkey_hash = some hash })) c (codes "706")
        (codes "1" ∷ codes "Authenticated" ∷ []))
      (λ s'. send_message s' c ping_message)
