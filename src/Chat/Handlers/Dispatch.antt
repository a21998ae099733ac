-- ===== src/Chat/Handlers/Dispatch.antt =====
-- `IRCFactory.handle` of app/servers/peerchat_handlers.py.

use kirov_server_emulator.Chat.Handlers.Modes.{handle_mode}
use kirov_server_emulator.Chat.Message.{IrcMessage}
use kirov_server_emulator.Prelude.Text.{Text, codes}
use kirov_server_emulator.Prelude.Dict.{Dict, get}
use kirov_server_emulator.Chat.Sending.{ChatEffect, Outcome, send_numeric}
use kirov_server_emulator.Chat.Handlers.Membership.{
  handle_join, handle_names, handle_part, handle_topic,
}
use kirov_server_emulator.Chat.Handlers.Messaging.{handle_notice, handle_privmsg, handle_utm}
use kirov_server_emulator.Chat.Handlers.Registration.{
  Environment, handle_cdkey, handle_crypt, handle_nick, handle_pass, handle_user,
}
use kirov_server_emulator.Chat.Handlers.Keys.{handle_getckey, handle_setckey}
use kirov_server_emulator.Chat.Handlers.Queries.{
  handle_ping, handle_pong, handle_quit, handle_usrip, handle_who,
}
use kirov_server_emulator.Prelude.{
  List, Option, [], list_eq, nat_eq, none, option_eq, pair_eq, some, ℕ, ◌∷◌,
}
use kirov_server_emulator.Prelude.Strings.{upper}
use kirov_server_emulator.Chat.Types.{ChatServer}

-- IRCCommand and GameSpyCommand, as far as they are handled
pub data Command : Type 0 where
  cmd_nick cmd_user cmd_pass cmd_join cmd_part cmd_topic cmd_names cmd_mode : Command
  cmd_privmsg cmd_notice cmd_ping cmd_pong cmd_quit cmd_crypt cmd_cdkey : Command
  cmd_getckey cmd_setckey cmd_utm cmd_usrip cmd_who cmd_unknown : Command

abbrev pub commands : Dict Text Command
commands =
    (codes "NICK", cmd_nick)
    ∷ (codes "USER", cmd_user)
    ∷ (codes "PASS", cmd_pass)
    ∷ (codes "JOIN", cmd_join)
    ∷ (codes "PART", cmd_part)
    ∷ (codes "TOPIC", cmd_topic)
    ∷ (codes "NAMES", cmd_names)
    ∷ (codes "MODE", cmd_mode)
    ∷ (codes "PRIVMSG", cmd_privmsg)
    ∷ (codes "NOTICE", cmd_notice)
    ∷ (codes "PING", cmd_ping)
    ∷ (codes "PONG", cmd_pong)
    ∷ (codes "QUIT", cmd_quit)
    ∷ (codes "CRYPT", cmd_crypt)
    ∷ (codes "CDKEY", cmd_cdkey)
    ∷ (codes "GETCKEY", cmd_getckey)
    ∷ (codes "SETCKEY", cmd_setckey)
    ∷ (codes "UTM", cmd_utm)
    ∷ (codes "USRIP", cmd_usrip)
    ∷ (codes "WHO", cmd_who)
    ∷ []

abbrev command_or_unknown : Option Command → Command
command_or_unknown none = cmd_unknown
command_or_unknown (some c) = c

unfoldable pub command_of : Text → Command
command_of text = command_or_unknown (get commands text)

unfoldable pub run_command : Environment → ChatServer → ℕ → Command → Text → List Text → Outcome
run_command env s c cmd_nick text ps = handle_nick env s c ps
run_command env s c cmd_user text ps = handle_user env s c ps
run_command env s c cmd_pass text ps = handle_pass s c ps
run_command env s c cmd_join text ps = handle_join s c ps
run_command env s c cmd_part text ps = handle_part s c ps
run_command env s c cmd_topic text ps = handle_topic s c ps
run_command env s c cmd_names text ps = handle_names s c ps
run_command env s c cmd_mode text ps = handle_mode s c ps
run_command env s c cmd_privmsg text ps = handle_privmsg s c ps
run_command env s c cmd_notice text ps = handle_notice s c ps
run_command env s c cmd_ping text ps = handle_ping s c ps
run_command env s c cmd_pong text ps = handle_pong env s c
run_command env s c cmd_quit text ps = handle_quit s c ps
run_command env s c cmd_crypt text ps = handle_crypt env s c ps
run_command env s c cmd_cdkey text ps = handle_cdkey s c ps
run_command env s c cmd_getckey text ps = handle_getckey s c ps
run_command env s c cmd_setckey text ps = handle_setckey s c ps
run_command env s c cmd_utm text ps = handle_utm s c ps
run_command env s c cmd_usrip text ps = handle_usrip s c
run_command env s c cmd_who text ps = handle_who env s c ps
run_command env s c cmd_unknown text ps =
    send_numeric s c (codes "421") (text ∷ codes "Unknown command" ∷ [])

-- An exception of a handler is logged; what it had done remains.
unfoldable pub handle : Environment → ChatServer → ℕ → IrcMessage → ChatServer × List ChatEffect
unfolding run_command
handle env s c m =
    let text = upper m.command in
    let o = run_command env s c (command_of text) text m.params in (o.state, o.sent)
