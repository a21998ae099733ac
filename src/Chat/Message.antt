-- ===== src/Chat/Message.antt =====
-- `IRCMessage` of app/models/irc_types.py.
pub mod RoundTrip
use kirov_server_emulator.Prelude.{
  List, Option, [], contains, if◌then◌else◌, list_eq, nat_beq, nat_eq, none, option_eq, pair_eq,
  some, ◌++◌, ◌==◌, ◌||◌, ◌∷◌,
}
use kirov_server_emulator.Prelude.Text.{Text, codes, join}
use kirov_server_emulator.Prelude.Strings.{truthy, starts_with, split_once, split_trailing, words}

pub record IrcMessage : Type 0 where
  pub command : Text
  pub params : List Text
  pub prefix : Option Text

-- `:` in front of a parameter that may hold spaces
abbrev pub trailing : Text → Text
trailing p = 58 ∷ p

-- The only parameter of a message, as it stands on the wire.
unfoldable pub only_param : Text → Text → Text
unfolding contains starts_with
only_param command p =
    if contains p 32 || starts_with (codes ":") p
    then trailing p
    else if (command == codes "PING") || (command == codes "PONG")
    then trailing p
    else p

-- The last of two or more parameters is sent with its mark.
unfoldable pub mark_last : Text → List Text → List Text
mark_last p [] = trailing p ∷ []
mark_last p (q ∷ qs) = p ∷ mark_last q qs

unfoldable pub wire_params : Text → List Text → List Text
unfolding only_param mark_last
wire_params command [] = []
wire_params command (p ∷ []) = only_param command p ∷ []
wire_params command (p ∷ q ∷ qs) = p ∷ mark_last q qs

abbrev pub prefix_part : Option Text → List Text
prefix_part none = []
prefix_part (some p) = if truthy p then trailing p ∷ [] else []

unfoldable pub serialize : IrcMessage → Text
unfolding wire_params
serialize m = join 32 (prefix_part m.prefix ++ m.command ∷ wire_params m.command m.params)

abbrev pub parsed_params : List Text → Option Text → List Text
parsed_params ps none = ps
parsed_params ps (some t) = ps ++ t ∷ []

-- The command and the parameters before the trailing one.
unfoldable pub parse_parts : Option Text → List Text → Option Text → IrcMessage
parse_parts prefix [] t = record { command = []; params = parsed_params [] t; prefix = prefix }
parse_parts prefix (c ∷ ps) t = record { command = c; params = parsed_params ps t; prefix = prefix }

unfoldable pub parse_body : Option Text → Text → IrcMessage
unfolding parse_parts
parse_body prefix line = elim (split_trailing line) [
  | none ↦ parse_parts prefix (words line) none
  | some (before, t) ↦ parse_parts prefix (words before) (some t)
]

unfoldable pub parse_prefixed : Option (Text × Text) → Option IrcMessage
unfolding parse_body
parse_prefixed none = none
parse_prefixed (some (p, line)) = some (parse_body (some p) line)

-- `none` is the ValueError of a prefix without a space behind it.
unfoldable pub parse : Text → Option IrcMessage
unfolding parse_prefixed parse_body
parse [] = some (parse_body none [])
parse (c ∷ line) =
    if nat_beq c 58 then parse_prefixed (split_once 32 line) else some (parse_body none (c ∷ line))
