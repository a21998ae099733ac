-- ===== src/Chat/Reachable.antt =====
-- The chat server as a state machine: commands of any connection, rounds of pings, broken writes and
-- the ends of connections, in any order.

use kirov_server_emulator.Chat.Invariant.Channels.{IsListed}
use kirov_server_emulator.Chat.Handlers.Registration.{Environment}
use kirov_server_emulator.Chat.Connection.{cleanup_client}
use kirov_server_emulator.Chat.Invariant.Membership.{
  cleanup_client-IsWellFormed, join_channel-IsWellFormed, part_channel-IsWellFormed,
}
use kirov_server_emulator.Chat.Handlers.Queries.{disconnect}
use kirov_server_emulator.Prelude.Text.{Text, split}
use kirov_server_emulator.Chat.Message.{IrcMessage}
use kirov_server_emulator.Chat.Handlers.Dispatch.{handle}
use kirov_server_emulator.Prelude.Dict.{All-get, Dict, get, get-put, has}
use kirov_server_emulator.Chat.Pings.{
  PingResult, disconnect_all, failed, is_silent, ping_each, ping_one, ping_result, ping_round,
  pinged, timed_out,
}
use kirov_server_emulator.Prelude.{
  Bool, Bool-cases, List, Option, [], arith, contains, false, inl, inr, length, list_eq, nat_eq,
  option_beq_iff, option_eq, pair_eq, refl, some, sym, true, ℕ, ◌==◌, ◌∙◌, ◌∷◌, ◌≡◌,
}
use kirov_server_emulator.Chat.Invariant.{
  IsWellFormed, new_chat-IsWellFormed, set_channel-IsWellFormed, set_client-IsWellFormed,
  set_nickname-IsWellFormed,
}
use kirov_server_emulator.Chat.Handlers.Steps.{IsKept, IsNickname}
use kirov_server_emulator.Chat.Handlers.Keeping.{handle-keeps}
use kirov_server_emulator.Chat.Handlers.Keys.{key_pairs, stats_or_empty, store_keys, update_all}
use kirov_server_emulator.Chat.Types.{
  ChatServer, IrcChannel, nickname_of, is_private_name, new_chat, set_client,
}

pub data ReachableChat : ChatServer → Type 0 where
  opens : (peers : ℕ → Text × ℕ) → ReachableChat (new_chat peers)
  handles :
      (env : Environment) (s : ChatServer) (c : ℕ) (m : IrcMessage)
      → ReachableChat s
      → ReachableChat (handle env s c m).0
  pings :
      (s : ChatServer) (now : ℕ) (results : ℕ → PingResult)
      → ReachableChat s
      → ReachableChat (ping_round s now results).0
  breaks :
      (s : ChatServer) (c : ℕ) (works : Bool)
      → ReachableChat s
      → ReachableChat (set_client s c (record (s.connections c) { writable = works }))
  ends : (s : ChatServer) (c : ℕ) → ReachableChat s → ReachableChat (cleanup_client s c)

keys-IsListed :
    (s : ChatServer) (name : Text) (ch : IrcChannel) (n : Option Text) (k : Text)
    → contains ch.users n ≡ true
    → IsListed (name, ch)
    → IsListed (name, store_keys ch n k)
unfolding store_keys
keys-IsListed s name ch n k member (sound, occupied) = (
  record {
    named = sound.named;
    operators_in = sound.operators_in;
    counted = λ m. ground (
      arith,
      get-put ch.user_stats n
          (update_all (stats_or_empty (get ch.user_stats n)) (key_pairs (split 92 k) [])) m,
      sound.counted m,
      option_beq_iff n m,
      member,
    );
  },
  occupied,
)

-- A change that leaves the members, the operators and the statistics alone.
relabelled :
    (name : Text) (ch : IrcChannel) (topic : Option Text) (modes : Text)
    → IsListed (name, ch)
    → IsListed (name, record ch { topic = topic; modes = modes })
relabelled name ch topic modes (sound, occupied) = (
  record { named = sound.named; operators_in = sound.operators_in; counted = sound.counted },
  occupied,
)

IsWellFormed-IsKept : (s : ChatServer) (c : ℕ) → IsWellFormed s → IsKept IsWellFormed s c
IsWellFormed-IsKept s c w =
    let listed : (name : Text) (ch : IrcChannel)
        → get s.irc_channels name ≡ some ch
        → IsListed (name, ch) =
      λ name ch found. All-get IsListed s.irc_channels name ch w.channels found in
    record {
      start = w;
      assign = λ t client same h. set_client-IsWellFormed t c client same h;
      rename = λ n good free. set_nickname-IsWellFormed s c n good w;
      enter_channel = λ t name same grown h. join_channel-IsWellFormed t c name h;
      leave_channel = λ t name same h. part_channel-IsWellFormed t c name h;
      topic = λ name ch t found allowed.
          set_channel-IsWellFormed s _ name
            (relabelled name ch (some t) ch.modes (listed name ch found)) w;
      modes = λ name ch m found allowed.
          set_channel-IsWellFormed s _ name (relabelled name ch ch.topic m (listed name ch found))
            w;
      keys = λ name ch k found member.
          set_channel-IsWellFormed s _ name
            (keys-IsListed s name ch (nickname_of s c) k member (listed name ch found)) w;
    }

ping_one-IsWellFormed :
    (s : ChatServer) (c now : ℕ) (result : PingResult)
    → IsWellFormed s
    → IsWellFormed (ping_one s c now result).0
unfolding ping_one
ping_one-IsWellFormed s c now result w = elim (Bool-cases (is_silent s c now)) [
  | inl silent ↦ rw silent w
  | inr heard ↦ rw heard (elim result as (λ r. IsWellFormed (ping_result s c now r).0) [
    | pinged ↦ set_client-IsWellFormed s c _ refl w
    | timed_out late ↦ w
    | failed ↦ w
  ])
]

ping_each-IsWellFormed :
    (s : ChatServer) (now : ℕ) (results : ℕ → PingResult) (clients : Dict Text ℕ)
    → IsWellFormed s
    → IsWellFormed (ping_each s now results clients).0
unfolding ping_each
ping_each-IsWellFormed s now results [] w = w
ping_each-IsWellFormed s now results ((n, c) ∷ clients) w =
    ping_each-IsWellFormed (ping_one s c now (results c)).0 now results clients
      (ping_one-IsWellFormed s c now (results c) w)

disconnect_all-IsWellFormed :
    (s : ChatServer) (cs : List ℕ) → IsWellFormed s → IsWellFormed (disconnect_all s cs)
unfolding disconnect_all disconnect
disconnect_all-IsWellFormed s [] w = w
disconnect_all-IsWellFormed s (c ∷ cs) w =
    disconnect_all-IsWellFormed (disconnect s c) cs (set_client-IsWellFormed s c _ refl w)

pub Reachable-IsWellFormed : (s : ChatServer) → ReachableChat s → IsWellFormed s
unfolding ping_round
Reachable-IsWellFormed _ (opens peers) = new_chat-IsWellFormed peers
Reachable-IsWellFormed _ (handles env s c m h) =
    handle-keeps (IsWellFormed-IsKept s c (Reachable-IsWellFormed s h)) env m
Reachable-IsWellFormed _ (pings s now results h) =
    disconnect_all-IsWellFormed _ (ping_each s now results s.irc_clients).2
      (ping_each-IsWellFormed s now results s.irc_clients (Reachable-IsWellFormed s h))
Reachable-IsWellFormed _ (breaks s c works h) =
    set_client-IsWellFormed s c _ refl (Reachable-IsWellFormed s h)
Reachable-IsWellFormed _ (ends s c h) = cleanup_client-IsWellFormed s c (Reachable-IsWellFormed s h)

nickname_injective : {n m : Text} → ◌≡◌ {A = Option Text} (some n) (some m) → n ≡ m
nickname_injective e = cc

-- Take any state that a new chat server can reach by commands of any connections, rounds of pings,
-- writes that begin or cease to fail, and ends of connections, in any order. A connection that is
-- listed under a nickname has this nickname, of 1 to 30 characters, and is listed under no other
-- one. A listed channel has its name; its operators are members, exactly its members have
-- statistics, and if it is private then it is not empty.
pub Reachable-members :
    (s : ChatServer)
    → ReachableChat s
    → ((n m : Text) (c : ℕ)
        → get s.irc_clients n ≡ some c
        → (nickname_of s c ≡ some n) × IsNickname n × (get s.irc_clients m ≡ some c → n ≡ m))
      × ((name : Text) (ch : IrcChannel)
          → get s.irc_channels name ≡ some ch
          → (ch.name ≡ name)
            × ((n : Option Text) → contains ch.operators n ≡ true → contains ch.users n ≡ true)
            × ((n : Option Text) → has ch.user_stats n ≡ contains ch.users n)
            × (is_private_name name ≡ true → (length ch.users == 0) ≡ false))
Reachable-members s h =
    let w = Reachable-IsWellFormed s h in
    (
      λ n m c found.
          let known = w.clients n c found in
          (known.0, known.1, λ other. nickname_injective (sym known.0 ∙ (w.clients m c other).0)),
      λ name ch found.
          let (sound, occupied) = All-get IsListed s.irc_channels name ch w.channels found in
          (sound.named, sound.operators_in, sound.counted, occupied),
    )
