-- ===== src/Chat/Handlers/Messaging.antt =====
-- The commands PRIVMSG, NOTICE and UTM of app/servers/peerchat_handlers.py.

use kirov_server_emulator.Chat.Handlers.Registration.{need_more_params}
use kirov_server_emulator.Prelude.Text.{Text, codes, split}
use kirov_server_emulator.Chat.Sending.{
  Outcome, broadcast_to_channel, done, send_message, send_numeric, seq,
}
use kirov_server_emulator.Chat.Handlers.Membership.{from_user}
use kirov_server_emulator.Prelude.{
  Bool, List, [], contains, false, if◌then◌else◌, length, list_eq, nat_eq, none, not, option_eq,
  pair_eq, some, true, ℕ, ◌==◌, ◌∷◌,
}
use kirov_server_emulator.Prelude.Strings.{truthy, starts_with, strip}
use kirov_server_emulator.Prelude.Dict.{get, has}
use kirov_server_emulator.Chat.Types.{ChatServer, user_of}

-- To a channel: refused with a reply where `loud`, and silently otherwise.
abbrev pub refuse : Bool → ChatServer → ℕ → Text → List Text → Outcome
refuse loud s c code params = if loud then send_numeric s c code params else done s

-- The part for channels of PRIVMSG, NOTICE and UTM. Membership is what the user has joined.
unfoldable pub tell_channel : Bool → Text → ChatServer → ℕ → Text → Text → Outcome
tell_channel loud command s c target text =
    if not (has s.irc_channels target)
    then refuse loud s c (codes "403") (target ∷ codes "No such channel" ∷ [])
    else if not (contains (user_of s c).channels target)
    then refuse loud s c (codes "404") (target ∷ codes "Cannot send to channel" ∷ [])
    else broadcast_to_channel s c target (from_user s c command (target ∷ text ∷ [])) true

-- The part for a single nickname of PRIVMSG and NOTICE.
unfoldable pub tell_nickname : Bool → Text → ChatServer → ℕ → Text → Text → Outcome
tell_nickname loud command s c target text = elim (get s.irc_clients target) [
  | none ↦ refuse loud s c (codes "401") (target ∷ codes "No such nick/channel" ∷ [])
  | some d ↦ send_message s d (from_user s c command (target ∷ text ∷ []))
]

unfoldable pub tell : Bool → Text → ChatServer → ℕ → Text → Text → Outcome
unfolding tell_channel tell_nickname
tell loud command s c target text =
    if starts_with (codes "#") target
    then tell_channel loud command s c target text
    else tell_nickname loud command s c target text

unfoldable pub handle_privmsg : ChatServer → ℕ → List Text → Outcome
unfolding tell need_more_params
handle_privmsg s c (target ∷ text ∷ rest) =
    if truthy text
    then tell true (codes "PRIVMSG") s c target text
    else send_numeric s c (codes "412") (codes "No text to send" ∷ [])
handle_privmsg s c _ = need_more_params s c (codes "PRIVMSG")

unfoldable pub handle_notice : ChatServer → ℕ → List Text → Outcome
unfolding tell
handle_notice s c (target ∷ text ∷ rest) =
    if truthy text then tell false (codes "NOTICE") s c target text else done s
handle_notice s c _ = done s

unfoldable pub utm_targets : List Text → List Text
unfolding strip
utm_targets [] = []
utm_targets (t ∷ ts) =
    let rest = utm_targets ts in if truthy (strip t) then strip t ∷ rest else rest

-- The exception of a send to another client is caught.
abbrev pub caught : Outcome → Outcome
caught o = record o { raised = false }

unfoldable pub utm_one : Bool → ChatServer → ℕ → Text → Text → Outcome
utm_one alone s c text nick = elim (get s.irc_clients nick) [
  | none ↦
      if alone
      then send_numeric s c (codes "401") (nick ∷ codes "No such nick/channel" ∷ [])
      else done s
  | some d ↦ caught (send_message s d (from_user s c (codes "UTM") (nick ∷ text ∷ [])))
]

unfoldable pub utm_each : Bool → ChatServer → ℕ → Text → List Text → Outcome
unfolding utm_one
utm_each alone s c text [] = done s
utm_each alone s c text (nick ∷ nicks) =
    seq (utm_one alone s c text nick) (λ s'. utm_each alone s' c text nicks)

abbrev utm_direct : ChatServer → ℕ → Text → List Text → Outcome
utm_direct s c text nicks = utm_each (length nicks == 1) s c text nicks

unfoldable pub handle_utm : ChatServer → ℕ → List Text → Outcome
unfolding tell_channel utm_targets utm_each need_more_params
handle_utm s c (target ∷ text ∷ rest) =
    if starts_with (codes "#") target
    then tell_channel true (codes "UTM") s c target text
    else utm_direct s c text (utm_targets (split 44 target))
handle_utm s c _ = need_more_params s c (codes "UTM")
