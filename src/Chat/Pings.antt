-- ===== src/Chat/Pings.antt =====
-- A round of `ping_sender` of app/servers/peerchat_server.py, which holds the lock of the client
-- list. Times are milliseconds.
use kirov_server_emulator.Master.Heartbeat.{removed}
pub mod Rounds
use kirov_server_emulator.NatNeg.Manager.Scheduling.{sent}
use kirov_server_emulator.Prelude.Text.{Text}
use kirov_server_emulator.Chat.Handlers.Queries.{disconnect}
use kirov_server_emulator.Chat.Handlers.Registration.{ping_message}
use kirov_server_emulator.Prelude.{
  Bool, List, [], if◌then◌else◌, list_eq, ltb, nat_eq, option_eq, pair_eq, ℕ, ◌++◌, ◌+◌, ◌∷◌,
}
use kirov_server_emulator.Chat.Sending.{ChatEffect, deliver}
use kirov_server_emulator.Prelude.Dict.{Dict}
use kirov_server_emulator.Chat.Types.{ChatServer, set_client}

-- future.result(timeout=2): the PING was sent, or there was no result in time and it was sent all the
-- same or not, or an exception
pub data PingResult : Type 0 where
  pinged failed : PingResult
  timed_out : Bool → PingResult

abbrev pub ping_timeout : ℕ
ping_timeout = 90000

-- The client has not answered for too long.
unfoldable pub is_silent : ChatServer → ℕ → ℕ → Bool
is_silent s c now = ltb (ping_timeout + (s.connections c).last_pong_time) now

-- The state, the messages, and the clients to remove.
abbrev pub Round : Type 0
Round = ChatServer × List ChatEffect × List ℕ

abbrev pub ping_result : ChatServer → ℕ → ℕ → PingResult → Round
ping_result s c now pinged = (
  set_client s c (record (s.connections c) { last_ping_time = now }),
  deliver c ping_message ∷ [],
  [],
)
ping_result s c now (timed_out late) = (s, if late then deliver c ping_message ∷ [] else [], c ∷ [])
ping_result s c now failed = (s, [], c ∷ [])

unfoldable pub ping_one : ChatServer → ℕ → ℕ → PingResult → Round
unfolding is_silent
ping_one s c now result = if is_silent s c now then (s, [], c ∷ []) else ping_result s c now result

unfoldable pub ping_each : ChatServer → ℕ → (ℕ → PingResult) → Dict Text ℕ → Round
unfolding ping_one
ping_each s now results [] = (s, [], [])
ping_each s now results ((nickname, c) ∷ clients) =
    let (s', sent, removed) = ping_one s c now (results c) in
    let (s'', more, others) = ping_each s' now results clients in
    (s'', sent ++ more, removed ++ others)

unfoldable pub disconnect_all : ChatServer → List ℕ → ChatServer
disconnect_all s [] = s
disconnect_all s (c ∷ cs) = disconnect_all (disconnect s c) cs

-- The clients to remove are disconnected; the loop runs their cleanup afterwards.
unfoldable pub ping_round : ChatServer → ℕ → (ℕ → PingResult) → Round
unfolding ping_each disconnect_all
ping_round s now results =
    let (s', sent, removed) = ping_each s now results s.irc_clients in
    (disconnect_all s' removed, sent, removed)
