-- ===== src/Chat/Handlers/Modes.antt =====
-- The command MODE of app/servers/peerchat_handlers.py.
use kirov_server_emulator.Chat.Handlers.Registration.{need_more_params}
use kirov_server_emulator.Prelude.Text.{Text, codes, join}
use kirov_server_emulator.Chat.Handlers.Membership.{no_such_channel, not_operator}
use kirov_server_emulator.Chat.Sending.{Outcome, done, send_numeric, send_numerics}
use kirov_server_emulator.Prelude.{
  List, Option, [], discard, if◌then◌else◌, list_eq, nat_beq, nat_eq, none, not, option_eq, pair_eq,
  some, ℕ, ◌&&◌, ◌++◌, ◌∷◌,
}
use kirov_server_emulator.Prelude.Strings.{truthy, starts_with, text_or}
use kirov_server_emulator.Prelude.Dict.{get}
use kirov_server_emulator.Chat.Types.{
  ChatServer, IrcChannel, user_of, nickname_of, is_operator, is_private_name, set_channel, set_user,
}

unfoldable pub mode_string : Text → List Text → Text
mode_string changes [] = changes
mode_string changes (p ∷ ps) =
    if truthy (join 32 (p ∷ ps)) then changes ++ 32 ∷ join 32 (p ∷ ps) else changes

-- Anyone may set the modes of a game lobby.
unfoldable pub set_modes : ChatServer → ℕ → Text → IrcChannel → Text → List Text → Outcome
unfolding is_operator not_operator mode_string
set_modes s c name ch changes params =
    if not (is_private_name name) && not (is_operator ch (nickname_of s c))
    then not_operator s c name
    else done (set_channel s (record ch { modes = mode_string changes params }) name)

unfoldable pub channel_mode : ChatServer → ℕ → Text → IrcChannel → List Text → Outcome
unfolding set_modes
channel_mode s c name ch [] =
    send_numeric s c (codes "324") (name ∷ text_or ch.modes (codes "+") ∷ [] ∷ [])
channel_mode s c name ch (changes ∷ params) = set_modes s c name ch changes params

abbrev remove_chars : Text → Text → Text
remove_chars mode [] = mode
remove_chars mode (c ∷ cs) = remove_chars (discard mode c) cs

unfoldable pub changed_mode : Text → Text → Text
changed_mode mode [] = mode
changed_mode mode (sign ∷ cs) =
    if nat_beq sign 43 then mode ++ cs else if nat_beq sign 45 then remove_chars mode cs else mode

abbrev mode_or : Option Text → Text → Text
mode_or none d = d
mode_or (some m) d = m

unfoldable pub user_mode : ChatServer → ℕ → List Text → Outcome
unfolding changed_mode
user_mode s c [] = send_numeric s c (codes "221") (mode_or (user_of s c).mode (codes "+") ∷ [])
user_mode s c (change ∷ rest) =
    let u = user_of s c in
    done (set_user s c (record u { mode = some (changed_mode (mode_or u.mode []) change) }))

unfoldable pub handle_mode : ChatServer → ℕ → List Text → Outcome
unfolding channel_mode user_mode need_more_params
handle_mode s c [] = need_more_params s c (codes "MODE")
handle_mode s c (target ∷ rest) =
    if starts_with (codes "#") target
    then elim (get s.irc_channels target) [
      | none ↦ send_numerics s c (no_such_channel target ∷ [])
      | some ch ↦ channel_mode s c target ch rest
    ]
    else user_mode s c rest
