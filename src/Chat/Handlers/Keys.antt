-- ===== src/Chat/Handlers/Keys.antt =====
-- The commands GETCKEY and SETCKEY of app/servers/peerchat_handlers.py: the statistics that each
-- member keeps in a channel. The sign `\` is 92.

use kirov_server_emulator.Chat.Handlers.Registration.{need_more_params}
use kirov_server_emulator.Chat.Handlers.Membership.{no_such_channel}
use kirov_server_emulator.Prelude.Text.{Text, codes, join, split}
use kirov_server_emulator.Prelude.{
  List, Option, [], contains, false, if◌then◌else◌, list_eq, nat_beq, nat_eq, none, not, option_eq,
  pair_eq, some, ℕ, ◌++◌, ◌==◌, ◌∷◌,
}
use kirov_server_emulator.Chat.Sending.{
  Outcome, broadcast_to_channel, done, raises, send_numeric, send_numerics, seq,
}
use kirov_server_emulator.Prelude.Strings.{truthy, or_else}
use kirov_server_emulator.Prelude.Dict.{Dict, get, put}
use kirov_server_emulator.Chat.Types.{ChatServer, IrcChannel, user_of, nickname_of, set_channel}

abbrev pub strip_backslash : Text → Text
strip_backslash [] = []
strip_backslash (c ∷ s) = if nat_beq c 92 then s else c ∷ s

unfoldable pub nonempty_parts : List Text → List Text
nonempty_parts [] = []
nonempty_parts (k ∷ ks) = let rest = nonempty_parts ks in if truthy k then k ∷ rest else rest

unfoldable pub requested_keys : Text → List Text
unfolding nonempty_parts
requested_keys keys = nonempty_parts (split 92 (strip_backslash keys))

-- The username of a connected member, the nickname of anyone else.
unfoldable pub username_value : ChatServer → Text → Text
username_value s nick = elim (get s.irc_clients nick) [
  | none ↦ nick
  | some d ↦ or_else (user_of s d).username nick
]

abbrev pub value_or_empty : Option Text → Text
value_or_empty none = []
value_or_empty (some v) = v

unfoldable pub other_values : Dict Text Text → List Text → List Text
other_values stats [] = []
other_values stats (k ∷ ks) =
    let rest = other_values stats ks in
    if k == codes "username" then rest else value_or_empty (get stats k) ∷ rest

abbrev pub stats_or_empty : Option (Dict Text Text) → Dict Text Text
stats_or_empty none = []
stats_or_empty (some d) = d

-- The value for `username` goes first, wherever it was requested.
unfoldable pub response_values : ChatServer → IrcChannel → Text → List Text → List Text
unfolding username_value other_values
response_values s ch nick keys =
    (if contains keys (codes "username") then username_value s nick ∷ [] else [])
    ++ other_values (stats_or_empty (get ch.user_stats (some nick))) keys

abbrev pub response_line : Text → Text → Text → List Text → Text × List Text
response_line name nick request_id values =
    (codes "702", name ∷ nick ∷ request_id ∷ (92 ∷ join 92 values) ∷ [])

-- A member without a nickname cannot be sent, and ends the command.
unfoldable pub send_keys :
    ChatServer → ℕ → Text → Text → List Text → IrcChannel → List (Option Text) → Outcome
unfolding response_values
send_keys s c name request_id keys ch [] = done s
send_keys s c name request_id keys ch (none ∷ nicks) = raises s
send_keys s c name request_id keys ch (some nick ∷ nicks) =
    seq
      (send_numerics s c (response_line name nick request_id (response_values s ch nick keys) ∷ []))
      (λ s'. send_keys s' c name request_id keys ch nicks)

unfoldable pub target_nicks : IrcChannel → Text → List (Option Text)
target_nicks ch target =
    if target == codes "*"
    then ch.users
    else if contains ch.users (some target)
    then some target ∷ []
    else []

unfoldable pub get_keys : ChatServer → ℕ → Text → Text → Text → Text → IrcChannel → Outcome
unfolding send_keys target_nicks requested_keys
get_keys s c name target request_id keys ch =
    seq (send_keys s c name request_id (requested_keys keys) ch (target_nicks ch target))
      (λ s'. send_numeric s' c (codes "703") (name ∷ request_id ∷ codes "End of GETCKEY" ∷ []))

abbrev pub first_or_empty : List Text → Text
first_or_empty [] = []
first_or_empty (t ∷ ts) = t

unfoldable pub handle_getckey : ChatServer → ℕ → List Text → Outcome
unfolding get_keys need_more_params
handle_getckey s c (name ∷ target ∷ request_id ∷ flags ∷ rest) = elim (get s.irc_channels name) [
  | none ↦ send_numerics s c (no_such_channel name ∷ [])
  | some ch ↦ get_keys s c name target request_id (first_or_empty rest) ch
]
handle_getckey s c _ = need_more_params s c (codes "GETCKEY")

-- The pairs of keys and values; a last part without a partner is dropped.
unfoldable pub key_pairs : List Text → Dict Text Text → Dict Text Text
key_pairs (k ∷ v ∷ rest) d = key_pairs rest (put d k v)
key_pairs _ d = d

-- d.update(e)
unfoldable pub update_all : Dict Text Text → Dict Text Text → Dict Text Text
update_all d [] = d
update_all d ((k, v) ∷ e) = update_all (put d k v) e

unfoldable pub store_keys : IrcChannel → Option Text → Text → IrcChannel
unfolding key_pairs update_all
store_keys ch nick keys =
    let stats = key_pairs (split 92 keys) [] in
    record ch {
      user_stats =
          put ch.user_stats nick (update_all (stats_or_empty (get ch.user_stats nick)) stats);
    }

unfoldable pub set_keys : ChatServer → ℕ → Text → Text → Text → IrcChannel → Outcome
unfolding store_keys
set_keys s c name nick keys ch =
    broadcast_to_channel (set_channel s (store_keys ch (some nick) keys) name) c name
      (record {
        command = codes "702";
        params = name ∷ name ∷ nick ∷ codes "BCAST" ∷ (92 ∷ keys) ∷ [];
        prefix = some (codes "s");
      })
      false

-- A member sets its own keys only.
unfoldable pub check_keys : ChatServer → ℕ → Text → Text → Text → IrcChannel → Outcome
unfolding set_keys
check_keys s c name target keys ch =
    if not (some target == nickname_of s c)
    then send_numeric s c (codes "482") (name ∷ codes "Cannot set keys for other users" ∷ [])
    else if not (contains ch.users (nickname_of s c))
    then send_numeric s c (codes "404") (name ∷ codes "Cannot send to channel" ∷ [])
    else set_keys s c name target (strip_backslash keys) ch

unfoldable pub handle_setckey : ChatServer → ℕ → List Text → Outcome
unfolding check_keys need_more_params
handle_setckey s c (name ∷ target ∷ keys ∷ rest) = elim (get s.irc_channels name) [
  | none ↦ send_numerics s c (no_such_channel name ∷ [])
  | some ch ↦ check_keys s c name target keys ch
]
handle_setckey s c _ = need_more_params s c (codes "SETCKEY")
