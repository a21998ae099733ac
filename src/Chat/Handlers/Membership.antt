-- ===== src/Chat/Handlers/Membership.antt =====
-- The commands JOIN, PART, NAMES and TOPIC of app/servers/peerchat_handlers.py.
use kirov_server_emulator.Chat.Handlers.Registration.{need_more_params}
use kirov_server_emulator.Chat.Channels.{join_channel, part_channel}
use kirov_server_emulator.Prelude.Text.{Text, codes, join, split}
use kirov_server_emulator.Chat.Message.{IrcMessage}
use kirov_server_emulator.Chat.Sending.{
  Outcome, broadcast_to_channel, done, raises, send_numeric, send_numerics, seq,
}
use kirov_server_emulator.Prelude.{
  List, Option, [], contains, false, if◌then◌else◌, list_eq, nat_eq, none, option_eq, pair_eq, some,
  ℕ, ◌++◌, ◌∷◌,
}
use kirov_server_emulator.Prelude.Strings.{truthy, is_set, shown, starts_with, or_else}
use kirov_server_emulator.Prelude.Dict.{get}
use kirov_server_emulator.Chat.Types.{
  ChatServer, IrcChannel, user_of, nickname_of, get_prefix, is_operator, set_channel,
}

abbrev pub from_user : ChatServer → ℕ → Text → List Text → IrcMessage
from_user s c command params = record {
  command = command;
  params = params;
  prefix = some (get_prefix (user_of s c));
}

abbrev pub no_such_channel : Text → Text × List Text
no_such_channel name = (codes "403", name ∷ codes "No such channel" ∷ [])

abbrev cons_name : Text → Option (List Text) → Option (List Text)
cons_name n none = none
cons_name n (some ns) = some (n ∷ ns)

abbrev name_in : IrcChannel → Option Text → Option Text
name_in ch n = if is_operator ch n then some (codes "@" ++ shown n) else n

-- The names with the mark of operators; None without the mark cannot be joined to a text.
unfoldable pub names_of : IrcChannel → List (Option Text) → Option (List Text)
unfolding is_operator
names_of ch [] = some []
names_of ch (n ∷ ns) =
    let rest = names_of ch ns in elim (name_in ch n) [ none ↦ none | some t ↦ cons_name t rest ]

abbrev names_lines : Text → List Text → List (Text × List Text)
names_lines name names =
    (codes "353", codes "=" ∷ name ∷ join 32 names ∷ [])
    ∷ (codes "366", name ∷ codes "End of /NAMES list" ∷ [])
    ∷ []

unfoldable pub send_names_of : ChatServer → ℕ → Text → IrcChannel → Outcome
unfolding names_of
send_names_of s c name ch = elim (names_of ch ch.users) [
  | none ↦ raises s
  | some names ↦ send_numerics s c (names_lines name names)
]

unfoldable pub send_names : ChatServer → ℕ → Text → Outcome
unfolding send_names_of
send_names s c name = elim (get s.irc_channels name) [
  | none ↦ send_numerics s c (no_such_channel name ∷ [])
  | some ch ↦ send_names_of s c name ch
]

unfoldable pub handle_names : ChatServer → ℕ → List Text → Outcome
unfolding send_names
handle_names s c [] = done s
handle_names s c (name ∷ rest) = send_names s c name

unfoldable pub announce_join : ChatServer → ℕ → Text → Outcome
unfolding send_names
announce_join s c name =
    seq (broadcast_to_channel s c name (from_user s c (codes "JOIN") (name ∷ [])) false)
      (λ s'. send_names s' c name)

unfoldable pub join_one : ChatServer → ℕ → Text → Outcome
unfolding announce_join
join_one s c name =
    if starts_with (codes "#") name
    then announce_join (join_channel s c name) c name
    else send_numeric s c (codes "476") (name ∷ codes "Bad channel mask" ∷ [])

unfoldable pub join_each : ChatServer → ℕ → List Text → Outcome
unfolding join_one
join_each s c [] = done s
join_each s c (name ∷ names) = seq (join_one s c name) (λ s'. join_each s' c names)

unfoldable pub handle_join : ChatServer → ℕ → List Text → Outcome
unfolding join_each need_more_params
handle_join s c [] = need_more_params s c (codes "JOIN")
handle_join s c (names ∷ rest) = join_each s c (split 44 names)

abbrev part_params : Text → List Text → List Text
part_params name [] = name ∷ []
part_params name (reason ∷ rest) = if truthy reason then name ∷ reason ∷ [] else name ∷ []

unfoldable pub handle_part : ChatServer → ℕ → List Text → Outcome
unfolding need_more_params
handle_part s c [] = need_more_params s c (codes "PART")
handle_part s c (name ∷ rest) =
    if contains (user_of s c).channels name
    then seq
        (broadcast_to_channel s c name (from_user s c (codes "PART") (part_params name rest)) false)
        (λ s'. done (part_channel s' c name))
    else send_numeric s c (codes "442") (name ∷ codes "You're not on that channel" ∷ [])

abbrev topic_line : Text → Option Text → Text × List Text
topic_line name topic =
    if is_set topic
    then (codes "332", name ∷ or_else topic [] ∷ [])
    else (codes "331", name ∷ codes "No topic is set" ∷ [])

unfoldable pub not_operator : ChatServer → ℕ → Text → Outcome
not_operator s c name =
    send_numeric s c (codes "482") (name ∷ codes "You're not channel operator" ∷ [])

unfoldable pub set_topic : ChatServer → ℕ → Text → IrcChannel → Text → Outcome
unfolding is_operator not_operator
set_topic s c name ch topic =
    if is_operator ch (nickname_of s c)
    then broadcast_to_channel (set_channel s (record ch { topic = some topic }) name) c name
        (from_user s c (codes "TOPIC") (name ∷ topic ∷ [])) false
    else not_operator s c name

unfoldable pub topic_of : ChatServer → ℕ → Text → IrcChannel → List Text → Outcome
unfolding set_topic
topic_of s c name ch [] = send_numerics s c (topic_line name ch.topic ∷ [])
topic_of s c name ch (topic ∷ rest) = set_topic s c name ch topic

unfoldable pub handle_topic : ChatServer → ℕ → List Text → Outcome
unfolding topic_of need_more_params
handle_topic s c [] = need_more_params s c (codes "TOPIC")
handle_topic s c (name ∷ rest) = elim (get s.irc_channels name) [
  | none ↦ send_numerics s c (no_such_channel name ∷ [])
  | some ch ↦ topic_of s c name ch rest
]
