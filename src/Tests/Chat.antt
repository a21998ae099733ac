-- ===== src/Tests/Chat.antt =====
-- The chat server at concrete inputs: two clients, ann and bob, in a lobby.

use kirov_server_emulator.Chat.Channels.{enter}
use kirov_server_emulator.Master.Heartbeat.{removed}
use kirov_server_emulator.Prelude.Strings.{starts_with}
use kirov_server_emulator.Chat.Connection.{cleanup_client}
use kirov_server_emulator.Chat.Handlers.Steps.{IsNickname}
use kirov_server_emulator.Chat.Handlers.Messaging.{handle_privmsg}
use kirov_server_emulator.Prelude.Strings.{upper}
use kirov_server_emulator.Chat.Handlers.Keys.{handle_getckey, handle_setckey}
use kirov_server_emulator.Chat.Handlers.Authority.{handle-Respects}
use kirov_server_emulator.Chat.Handlers.Respecting.{Respects}
use kirov_server_emulator.NatNeg.Manager.Scheduling.{sent}
use kirov_server_emulator.Chat.Handlers.KeyLaws.{handle_getckey-handle_setckey}
use kirov_server_emulator.Chat.Pings.Rounds.{ping_round_silent}
use kirov_server_emulator.Chat.Handlers.Membership.{
  from_user, handle_topic, handle_join, handle_names,
}
use kirov_server_emulator.Chat.Handlers.Delivery.{Hears, Only, handle_privmsg_channel, received}
use kirov_server_emulator.Chat.Invariant.{IsWellFormed}
use kirov_server_emulator.Chat.Channels.Refinement.{
  is_member, joins, parts, replay, run, run_refines,
}
use kirov_server_emulator.Chat.Pings.{ping_round, pinged}
use kirov_server_emulator.Chat.Connection.Cleanup.{cleanup_client_removes}
use kirov_server_emulator.Chat.Sending.{deliver, numeric, raises, send_numeric}
use kirov_server_emulator.Chat.Handlers.Nameless.{handle_join-nameless}
use kirov_server_emulator.Chat.Types.{new_client}
use kirov_server_emulator.Chat.Message.{IrcMessage}
use kirov_server_emulator.Chat.Handlers.Dispatch.{handle, command_of}
use kirov_server_emulator.Chat.Handlers.Registration.{Environment}
use kirov_server_emulator.Tests.Packets.{name}
use kirov_server_emulator.Chat.Types.{
  ChatServer, IrcChannel, new_chat, IrcClient, is_private_name, nickname_of, is_operator,
}
use kirov_server_emulator.Chat.Reachable.{ReachableChat, opens, Reachable-members}
use kirov_server_emulator.Prelude.Dict.{get, has}
use kirov_server_emulator.Prelude.{
  List, [], list_eq, nat_eq, none, option_eq, pair_eq, refl, some, ◌∷◌, ◌≡◌, Option, arith,
  contains, false, if◌then◌else◌, length, true, ℕ, ◌&&◌, ◌<◌, ◌==◌, ◌↔◌, list_beq, option_beq,
  Bool-cases, ap, inl, inr, list_beq_iff, subst,
}
use kirov_server_emulator.Chat.Reachable.{handles, opens}
use kirov_server_emulator.Prelude.Text.{Text, codes}

abbrev pub env : Environment
env = record {
  server_name = codes "peerchat.ea.com";
  gamekey = codes "k";
  now = 1000;
  send_challenge = codes "a";
  recv_challenge = codes "b";
}

abbrev pub command : Text → List Text → IrcMessage
command name params = record { command = name; params = params; prefix = none }

abbrev pub lobby : Text
lobby = codes "#GSP!x"

abbrev pub ann : Text
ann = codes "ann"

abbrev pub bob : Text
bob = codes "bob"

abbrev pub empty_chat : ChatServer
empty_chat = new_chat (λ c. (codes "10.0.0.9", c))

abbrev pub named_ann : ChatServer
named_ann = (handle env empty_chat 0 (command (codes "NICK") (ann ∷ []))).0

abbrev pub named : ChatServer
named = (handle env named_ann 1 (command (codes "nick") (bob ∷ []))).0

abbrev pub one_in : ChatServer
one_in = (handle env named 0 (command (codes "JOIN") (lobby ∷ []))).0

abbrev pub both_in : ChatServer
both_in = (handle env one_in 1 (command (codes "JOIN") (lobby ∷ []))).0

pub both_in_reachable : ReachableChat both_in
both_in_reachable = handles env one_in 1 (command (codes "JOIN") (lobby ∷ [])) (
    handles env named 0 (command (codes "JOIN") (lobby ∷ [])) (
      handles env named_ann 1 (command (codes "nick") (bob ∷ [])) (
        handles env empty_chat 0 (command (codes "NICK") (ann ∷ []))
          (opens (λ c. (codes "10.0.0.9", c))))))

-- The lobby with both members: ann came first and is operator.
abbrev pub shared : IrcChannel
shared = record {
  name = lobby;
  topic = none;
  modes = [];
  users = some ann ∷ some bob ∷ [];
  operators = some ann ∷ [];
  user_stats = (some ann, []) ∷ (some bob, []) ∷ [];
}

abbrev client : Text → IrcClient
client n = record {
  user = record {
    nickname = some n;
    username = none;
    realname = none;
    hostname = none;
    authenticated = false;
    channels = lobby ∷ [];
    profile_id = none;
    session_token = none;
    cdkey_hash = none;
    mode = none;
  };
  addr = codes "10.0.0.9";
  connected = true;
  writable = true;
  last_ping_time = 0;
  last_pong_time = 0;
}

-- Ann is connection 0, and bob all the others.
abbrev pub lobby_chat : ChatServer
lobby_chat = record {
  irc_channels = (lobby, shared) ∷ [];
  irc_clients = (ann, 0) ∷ (bob, 1) ∷ [];
  connections = λ c. if c == 0 then client ann else client bob;
}

Reachable-members_example :
    ((n m : Text) (c : ℕ)
      → get both_in.irc_clients n ≡ some c
      → (nickname_of both_in c ≡ some n)
        × IsNickname n
        × (get both_in.irc_clients m ≡ some c → n ≡ m))
    × ((name : Text) (ch : IrcChannel)
        → get both_in.irc_channels name ≡ some ch
        → (ch.name ≡ name)
          × ((n : Option Text) → contains ch.operators n ≡ true → contains ch.users n ≡ true)
          × ((n : Option Text) → has ch.user_stats n ≡ contains ch.users n)
          × (is_private_name name ≡ true → (length ch.users == 0) ≡ false))
Reachable-members_example = Reachable-members both_in both_in_reachable

-- Bob is no operator, and cannot set the topic.
handle-Respects_example : Respects lobby (some bob) shared shared
unfolding get list_beq handle command_of upper handle_topic contains option_beq send_numeric
handle-Respects_example =
    handle-Respects env lobby_chat 1 (command (codes "TOPIC") (lobby ∷ codes "hello" ∷ [])) lobby
      shared shared refl refl

handle_privmsg_channel_example :
    let o = handle_privmsg lobby_chat 1 (lobby ∷ codes "hi" ∷ []) in
    let m = from_user lobby_chat 1 (codes "PRIVMSG") (lobby ∷ codes "hi" ∷ []) in
    ((0 < length (received 0 o.sent)) ↔ Hears lobby_chat (some bob) shared.users 0)
    × Only m (received 0 o.sent)
    × (o.state ≡ lobby_chat)
unfolding starts_with get list_beq contains
handle_privmsg_channel_example =
    handle_privmsg_channel lobby_chat 1 0 lobby (codes "hi") [] shared refl refl refl refl

run_refines_example :
    is_member (run (parts 1 lobby ∷ joins 0 (codes "#b") ∷ []) lobby_chat)
    ≡ replay
        (nickname_of lobby_chat)
        (parts 1 lobby ∷ joins 0 (codes "#b") ∷ [])
        (is_member lobby_chat)
run_refines_example = run_refines (parts 1 lobby ∷ joins 0 (codes "#b") ∷ []) lobby_chat

cleanup_client_removes_example :
    let t = cleanup_client lobby_chat 1 in
    ((m : Text) → get t.irc_clients m ≡ (if bob == m then none else get lobby_chat.irc_clients m))
    × ((name : Text) (m : Option Text)
        → is_member t name m ≡ (
            if contains (lobby ∷ []) name && (some bob == m)
            then false
            else is_member lobby_chat name m))
cleanup_client_removes_example = cleanup_client_removes lobby_chat 1 bob refl refl

-- Ann alone, and in no channel.
abbrev alone : ChatServer
alone = record { irc_channels = []; irc_clients = (ann, 0) ∷ []; connections = λ c. client ann }

alone-IsWellFormed : IsWellFormed alone
unfolding get
alone-IsWellFormed = record {
  channels = tt;
  clients = λ n c found. elim (Bool-cases (ann == n)) [
    | inl same ↦
        let e : ann ≡ n = (list_beq_iff ann n).0 same in
        (ap some e, subst IsNickname e (refl, omega arith))
    | inr other ↦ absurd (ground (arith, found, other))
  ];
}

ping_round_silent_example :
    let (t, sent, removed) = ping_round alone 90001 (λ c. pinged) in
    ((t.connections 0).connected ≡ false)
    × (contains removed 0 ≡ true)
    × (get (cleanup_client t 0).irc_clients ann ≡ none)
unfolding get list_beq
ping_round_silent_example =
    ping_round_silent alone 90001 (λ c. pinged) ann 0 alone-IsWellFormed refl (omega arith)

handle_getckey-handle_setckey_example :
    let t = (handle_setckey lobby_chat 1 (lobby ∷ bob ∷ codes "\\b_flags\\s" ∷ [])).state in
    (handle_getckey t 0 (lobby ∷ bob ∷ codes "7" ∷ codes "0" ∷ codes "\\b_flags" ∷ [])).sent
    ≡ deliver 0 (numeric t 0 (codes "702") (lobby ∷ bob ∷ codes "7" ∷ codes "\\s" ∷ []))
      ∷ deliver 0 (numeric t 0 (codes "703") (lobby ∷ codes "7" ∷ codes "End of GETCKEY" ∷ []))
      ∷ []
unfolding get list_beq contains option_beq
handle_getckey-handle_setckey_example =
    handle_getckey-handle_setckey lobby_chat 1 0 lobby bob (codes "b_flags") (codes "s") (codes "7")
      (codes "0") shared refl refl refl refl refl refl
      (refl, (refl, (refl, (refl, (refl, (refl, (refl, tt))))))) (refl, tt) refl

-- Everybody but ann and bob has no nickname yet.
abbrev nameless_chat : ChatServer
nameless_chat = record lobby_chat {
  connections = λ c.
      if c == 0 then client ann else if c == 1 then client bob else new_client (codes "10.0.0.9") 0;
}

handle_join-nameless_example :
    let joined = (handle_join nameless_chat 2 (lobby ∷ [])).state in
    (get joined.irc_channels lobby ≡ some (enter shared none))
    × (contains (enter shared none).users none ≡ true)
    × ((e : ℕ) → handle_names joined e (lobby ∷ []) ≡ raises joined)
    × ((handle_join joined 1 (lobby ∷ [])).raised ≡ true)
unfolding get list_beq contains option_beq is_operator new_client starts_with
handle_join-nameless_example =
    handle_join-nameless nameless_chat 2 1 lobby ann bob shared refl (ground arith) refl refl refl
      refl refl
