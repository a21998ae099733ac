-- ===== src/Chat/Handlers/Queries.antt =====
-- The commands WHO, USRIP, PING, PONG and QUIT of app/servers/peerchat_handlers.py.
use kirov_server_emulator.Chat.Message.{IrcMessage}
use kirov_server_emulator.Chat.Handlers.Membership.{from_user}
use kirov_server_emulator.Prelude.{
  List, Option, [], false, if◌then◌else◌, list_eq, nat_eq, none, option_eq, pair_eq, some, true, ℕ,
  ◌++◌, ◌∷◌,
}
use kirov_server_emulator.Chat.Sending.{
  Outcome, broadcast_to_channel, done, send_message, send_numerics, seq,
}
use kirov_server_emulator.Chat.Handlers.Registration.{Environment}
use kirov_server_emulator.Prelude.Text.{Text, codes}
use kirov_server_emulator.Prelude.Strings.{starts_with, or_else}
use kirov_server_emulator.Prelude.Dict.{get}
use kirov_server_emulator.Chat.Types.{
  ChatServer, IrcChannel, IrcUser, user_of, is_operator, set_client,
}

unfoldable pub handle_usrip : ChatServer → ℕ → Outcome
handle_usrip s c = send_message s c (record {
  command = codes "302";
  params = [] ∷ (codes "=+@" ++ or_else (user_of s c).hostname (s.connections c).addr) ∷ [];
  prefix = some (codes "s");
})

abbrev who_line : Environment → IrcUser → Text → Text → Text → Text × List Text
who_line env u target nick flags =
    let unknown = codes "unknown" in
    (
      codes "352",
      target
          ∷ or_else u.username unknown
          ∷ or_else u.hostname unknown
          ∷ env.server_name
          ∷ nick
          ∷ flags
          ∷ (codes "0 " ++ or_else u.realname nick)
          ∷ [],
    )

abbrev end_of_who : Text → List (Text × List Text)
end_of_who target = (codes "315", target ∷ codes "End of /WHO list" ∷ []) ∷ []

-- Members that are connected under their nickname.
unfoldable pub who_member :
    Environment → ChatServer → Text → IrcChannel → Option Text → List (Text × List Text)
who_member env s target ch none = []
who_member env s target ch (some nick) = elim (get s.irc_clients nick) [
  | none ↦ []
  | some d ↦
      let flags = if is_operator ch (some nick) then codes "H@" else codes "H" in
      who_line env (user_of s d) target nick flags ∷ []
]

unfoldable pub who_members :
    Environment → ChatServer → Text → IrcChannel → List (Option Text) → List (Text × List Text)
unfolding who_member
who_members env s target ch [] = []
who_members env s target ch (n ∷ ns) =
    who_member env s target ch n ++ who_members env s target ch ns

unfoldable pub who_lines : Environment → ChatServer → Text → List (Text × List Text)
unfolding who_members
who_lines env s target =
    if starts_with (codes "#") target
    then elim (get s.irc_channels target) [
      | none ↦ []
      | some ch ↦ who_members env s target ch ch.users
    ]
    else elim (get s.irc_clients target) [
      | none ↦ []
      | some d ↦ who_line env (user_of s d) (codes "*") target (codes "H") ∷ []
    ]

unfoldable pub handle_who : Environment → ChatServer → ℕ → List Text → Outcome
unfolding who_lines
handle_who env s c [] = send_numerics s c (end_of_who (codes "*"))
handle_who env s c (target ∷ rest) = send_numerics s c (who_lines env s target ++ end_of_who target)

abbrev pub first_or : List Text → Text → Text
first_or [] d = d
first_or (t ∷ ts) d = t

unfoldable pub handle_ping : ChatServer → ℕ → List Text → Outcome
handle_ping s c params = send_message s c (record {
  command = codes "PONG";
  params = first_or params (codes "s") ∷ [];
  prefix = some (codes "s");
})

unfoldable pub handle_pong : Environment → ChatServer → ℕ → Outcome
handle_pong env s c = done (set_client s c (record (s.connections c) { last_pong_time = env.now }))

unfoldable pub disconnect : ChatServer → ℕ → ChatServer
disconnect s c = set_client s c (record (s.connections c) { connected = false })

unfoldable pub quit_each : ChatServer → ℕ → IrcMessage → List Text → Outcome
quit_each s c m [] = done s
quit_each s c m (name ∷ names) =
    seq (broadcast_to_channel s c name m true) (λ s'. quit_each s' c m names)

unfoldable pub handle_quit : ChatServer → ℕ → List Text → Outcome
unfolding quit_each disconnect
handle_quit s c params =
    let m = from_user s c (codes "QUIT") (first_or params (codes "Client quit") ∷ []) in
    seq (quit_each s c m (user_of s c).channels) (λ s'. done (disconnect s' c))
