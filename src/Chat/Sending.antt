-- ===== src/Chat/Sending.antt =====
-- `IRCClient` of app/servers/peerchat_server.py: messages to one client and to a channel. A handler
-- is one step; an outcome holds the state, what was sent, and whether an exception was raised.
pub mod States
use kirov_server_emulator.Cipher.Peerchat.{PeerchatCipher}
use kirov_server_emulator.Prelude.Text.{Text, codes}
use kirov_server_emulator.Chat.Message.{IrcMessage}
use kirov_server_emulator.Prelude.{
  Bool, List, Option, [], false, if◌then◌else◌, list_eq, nat_eq, none, option_eq, pair_eq, some,
  true, ℕ, ◌&&◌, ◌++◌, ◌==◌, ◌∷◌,
}
use kirov_server_emulator.Prelude.Strings.{or_else}
use kirov_server_emulator.Prelude.Dict.{get}
use kirov_server_emulator.Chat.Types.{ChatServer, nickname_of}

-- A message that was written to a connection, the ciphers of a connection (to the client and from
-- it), and encryption turned on.
pub data ChatEffect : Type 0 where
  deliver : ℕ → IrcMessage → ChatEffect
  ciphers : ℕ → PeerchatCipher → PeerchatCipher → ChatEffect
  encrypts : ℕ → ChatEffect

pub record Outcome : Type 0 where
  pub state : ChatServer
  pub sent : List ChatEffect
  pub raised : Bool

abbrev pub done : ChatServer → Outcome
done s = record { state = s; sent = []; raised = false }

abbrev pub raises : ChatServer → Outcome
raises s = record { state = s; sent = []; raised = true }

abbrev pub emits : ChatServer → List ChatEffect → Outcome
emits s effects = record { state = s; sent = effects; raised = false }

abbrev pub after : List ChatEffect → Outcome → Outcome
after effects o = record o { sent = effects ++ o.sent }

-- One statement after the other; an exception skips the second one.
unfoldable pub seq : Outcome → (ChatServer → Outcome) → Outcome
seq o k = if o.raised then o else after o.sent (k o.state)

-- A write to a connection that is broken raises.
unfoldable pub send_message : ChatServer → ℕ → IrcMessage → Outcome
send_message s c m = if (s.connections c).writable then emits s (deliver c m ∷ []) else raises s

abbrev pub numeric : ChatServer → ℕ → Text → List Text → IrcMessage
numeric s c code params = record {
  command = code;
  params = or_else (nickname_of s c) (codes "*") ∷ params;
  prefix = some (codes "s");
}

unfoldable pub send_numeric : ChatServer → ℕ → Text → List Text → Outcome
unfolding send_message
send_numeric s c code params = send_message s c (numeric s c code params)

-- Several numeric replies, one after the other.
unfoldable pub send_numerics : ChatServer → ℕ → List (Text × List Text) → Outcome
unfolding seq send_numeric
send_numerics s c [] = done s
send_numerics s c ((code, params) ∷ rest) =
    seq (send_numeric s c code params) (λ s'. send_numerics s' c rest)

-- The connection of a nickname; None has none.
unfoldable pub client_for : ChatServer → Option Text → Option ℕ
client_for s none = none
client_for s (some nickname) = get s.irc_clients nickname

abbrev pub sent_to : ChatServer → IrcMessage → Option ℕ → List ChatEffect
sent_to s m none = []
sent_to s m (some d) = if (s.connections d).writable then deliver d m ∷ [] else []

-- The exceptions of a broadcast are caught one by one.
unfoldable pub copies :
    ChatServer → IrcMessage → Bool → Option Text → List (Option Text) → List ChatEffect
unfolding client_for
copies s m exclude_self self [] = []
copies s m exclude_self self (n ∷ ns) =
    (if exclude_self && (n == self) then [] else sent_to s m (client_for s n))
    ++ copies s m exclude_self self ns

unfoldable pub broadcast_to_channel : ChatServer → ℕ → Text → IrcMessage → Bool → Outcome
unfolding copies
broadcast_to_channel s c name m exclude_self = elim (get s.irc_channels name) [
  | none ↦ done s
  | some ch ↦ emits s (copies s m exclude_self (nickname_of s c) ch.users)
]
