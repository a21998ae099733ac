-- ===== src/Chat/Types.antt =====
-- `IRCChannel` and `IRCUser` of app/models/irc_types.py, the connections of
-- app/servers/peerchat_server.py, and the state of app/models/peerchat_state.py. A nickname is
-- `none` before NICK, and None can become a member of a channel. Python's sets are lists in the
-- order of insertion. The connections are objects that are named by numbers. The fields user_id and
-- stats of a user are left out, since nothing assigns or reads them.
use kirov_server_emulator.Prelude.Text.{Text, codes}
use kirov_server_emulator.Prelude.{
  Bool, List, Option, [], contains, false, if◌then◌else◌, is_some, list_eq, nat_eq, none, option_eq,
  pair_eq, some, true, ℕ, ◌&&◌, ◌++◌, ◌==◌,
}
use kirov_server_emulator.Prelude.Strings.{starts_with, or_else}
use kirov_server_emulator.Prelude.Dict.{Dict, put}

pub record IrcChannel : Type 0 where
  pub name : Text
  pub topic : Option Text
  pub modes : Text
  pub users : List (Option Text)
  pub operators : List (Option Text)
  pub user_stats : Dict (Option Text) (Dict Text Text)

unfoldable pub new_channel : Text → IrcChannel
new_channel name = record {
  name = name;
  topic = none;
  modes = [];
  users = [];
  operators = [];
  user_stats = [];
}

-- A channel of this name is a GameSpy game lobby.
abbrev pub is_private_name : Text → Bool
is_private_name name = starts_with (codes "#GSP!") name

unfoldable pub is_private : IrcChannel → Bool
unfolding starts_with
is_private ch = is_private_name ch.name

unfoldable pub is_operator : IrcChannel → Option Text → Bool
is_operator ch nickname = contains ch.operators nickname

-- `mode` is the attribute that MODE adds to a user.
pub record IrcUser : Type 0 where
  pub nickname : Option Text
  pub username : Option Text
  pub realname : Option Text
  pub hostname : Option Text
  pub authenticated : Bool
  pub channels : List Text
  pub profile_id : Option (Bool × ℕ)
  pub session_token : Option Text
  pub cdkey_hash : Option Text
  pub mode : Option Text

abbrev pub get_prefix : IrcUser → Text
get_prefix u =
    or_else u.nickname (codes "*")
    ++ codes "!"
    ++ or_else u.username (codes "unknown")
    ++ codes "@*"

abbrev pub is_registered : IrcUser → Bool
is_registered u = is_some u.nickname && is_some u.username

-- `writable` says whether a write to the connection succeeds. The cipher objects and the flag that
-- turns encryption on are in Connection, since no handler reads them.
pub record IrcClient : Type 0 where
  pub user : IrcUser
  pub addr : Text
  pub connected : Bool
  pub writable : Bool
  pub last_ping_time : ℕ
  pub last_pong_time : ℕ

unfoldable pub new_client : Text → ℕ → IrcClient
new_client addr now = record {
  user = record {
    nickname = none;
    username = none;
    realname = none;
    hostname = some addr;
    authenticated = false;
    channels = [];
    profile_id = none;
    session_token = none;
    cdkey_hash = none;
    mode = none;
  };
  addr = addr;
  connected = true;
  writable = true;
  last_ping_time = now;
  last_pong_time = now;
}

pub record ChatServer : Type 0 where
  pub irc_channels : Dict Text IrcChannel
  pub irc_clients : Dict Text ℕ
  pub connections : ℕ → IrcClient

-- Each connection begins with the address and the time that the system gives.
unfoldable pub new_chat : (ℕ → Text × ℕ) → ChatServer
unfolding new_client
new_chat peers = record {
  irc_channels = [];
  irc_clients = [];
  connections = λ c. new_client (peers c).0 (peers c).1;
}

abbrev pub user_of : ChatServer → ℕ → IrcUser
user_of s c = (s.connections c).user

abbrev pub nickname_of : ChatServer → ℕ → Option Text
nickname_of s c = (s.connections c).user.nickname

-- The attributes of one connection are assigned.
unfoldable pub set_client : ChatServer → ℕ → IrcClient → ChatServer
set_client s c client = record s { connections = λ d. if c == d then client else s.connections d }

unfoldable pub set_user : ChatServer → ℕ → IrcUser → ChatServer
unfolding set_client
set_user s c u = set_client s c (record (s.connections c) { user = u })

unfoldable pub set_channel : ChatServer → IrcChannel → Text → ChatServer
set_channel s ch name = record s { irc_channels = put s.irc_channels name ch }
