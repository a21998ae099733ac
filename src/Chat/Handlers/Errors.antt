-- ===== src/Chat/Handlers/Errors.antt =====
-- Commands without parameters.

use kirov_server_emulator.Prelude.Text.{Text}
use kirov_server_emulator.Chat.Handlers.Modes.{handle_mode}
use kirov_server_emulator.Chat.Handlers.Keys.{handle_setckey}
use kirov_server_emulator.Chat.Sending.{Outcome}
use kirov_server_emulator.Chat.Sending.States.{Ends, send_numeric-Ends}
use kirov_server_emulator.Chat.Message.{IrcMessage}
use kirov_server_emulator.Prelude.{[], list_eq, nat_eq, option_eq, pair_eq, refl, ℕ, ◌≡◌}
use kirov_server_emulator.Chat.Handlers.Membership.{handle_join, handle_part, handle_topic}
use kirov_server_emulator.Chat.Handlers.Quiet.{
  handle_crypt-Ends, handle_getckey-Ends, handle_names-Ends, handle_notice-Ends, handle_ping-Ends,
  handle_privmsg-Ends, handle_usrip-Ends, handle_utm-Ends, handle_who-Ends, need_more_params-Ends,
}
use kirov_server_emulator.Chat.Handlers.Dispatch.{
  Command, cmd_cdkey, cmd_crypt, cmd_getckey, cmd_join, cmd_mode, cmd_names, cmd_nick, cmd_notice,
  cmd_part, cmd_pass, cmd_ping, cmd_pong, cmd_privmsg, cmd_quit, cmd_setckey, cmd_topic,
  cmd_unknown, cmd_user, cmd_usrip, cmd_utm, cmd_who, command_of, handle, run_command,
}
use kirov_server_emulator.Chat.Handlers.Registration.{
  Environment, handle_cdkey, handle_nick, handle_pass, handle_user,
}
use kirov_server_emulator.Prelude.Strings.{upper}
use kirov_server_emulator.Chat.Types.{ChatServer}

-- PONG and QUIT take effect without parameters.
abbrev pub NeedsParams : Command → Type 0
NeedsParams cmd_pong = ⊥
NeedsParams cmd_quit = ⊥
NeedsParams _ = Unit

same_state : {s : ChatServer} {o : Outcome} → Ends (λ t. t ≡ s) o → o.state ≡ s
same_state h = h.holds

no_params :
    (env : Environment) (s : ChatServer) (c : ℕ) (command : Command) (text : Text)
    → NeedsParams command
    → (run_command env s c command text []).state ≡ s
unfolding run_command handle_nick handle_user handle_pass handle_join handle_part handle_topic
    handle_mode handle_cdkey handle_setckey
no_params env s c cmd_pong text needs = absurd needs
no_params env s c cmd_quit text needs = absurd needs
no_params env s c cmd_nick text needs = same_state (send_numeric-Ends s c _ _ refl)
no_params env s c cmd_user text needs = same_state (need_more_params-Ends s c _ refl)
no_params env s c cmd_pass text needs = same_state (need_more_params-Ends s c _ refl)
no_params env s c cmd_join text needs = same_state (need_more_params-Ends s c _ refl)
no_params env s c cmd_part text needs = same_state (need_more_params-Ends s c _ refl)
no_params env s c cmd_topic text needs = same_state (need_more_params-Ends s c _ refl)
no_params env s c cmd_names text needs = same_state (handle_names-Ends s c [] refl)
no_params env s c cmd_mode text needs = same_state (need_more_params-Ends s c _ refl)
no_params env s c cmd_privmsg text needs = same_state (handle_privmsg-Ends s c [] refl)
no_params env s c cmd_notice text needs = same_state (handle_notice-Ends s c [] refl)
no_params env s c cmd_ping text needs = same_state (handle_ping-Ends s c [] refl)
no_params env s c cmd_crypt text needs = same_state (handle_crypt-Ends env s c [] refl)
no_params env s c cmd_cdkey text needs = same_state (need_more_params-Ends s c _ refl)
no_params env s c cmd_getckey text needs = same_state (handle_getckey-Ends s c [] refl)
no_params env s c cmd_setckey text needs = same_state (need_more_params-Ends s c _ refl)
no_params env s c cmd_utm text needs = same_state (handle_utm-Ends s c [] refl)
no_params env s c cmd_usrip text needs = same_state (handle_usrip-Ends s c refl)
no_params env s c cmd_who text needs = same_state (handle_who-Ends env s c [] refl)
no_params env s c cmd_unknown text needs = same_state (send_numeric-Ends s c _ _ refl)

-- A command without any parameter changes nothing, whatever the command is, but for PONG and QUIT.
pub handle_no_params :
    (env : Environment) (s : ChatServer) (c : ℕ) (m : IrcMessage)
    → m.params ≡ []
    → NeedsParams (command_of (upper m.command))
    → (handle env s c m).0 ≡ s
unfolding handle
handle_no_params env s c m empty needs =
    rw (handle, empty) (no_params env s c (command_of (upper m.command)) (upper m.command) needs)
