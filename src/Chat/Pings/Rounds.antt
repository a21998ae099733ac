-- ===== src/Chat/Pings/Rounds.antt =====
-- What a round of pings does to each client.
use kirov_server_emulator.Master.Heartbeat.{removed}
use kirov_server_emulator.Chat.Connection.{cleanup_client}
use kirov_server_emulator.Chat.Invariant.{IsWellFormed}
use kirov_server_emulator.Chat.Connection.Cleanup.{cleanup_client_removes}
use kirov_server_emulator.Prelude.Text.{Text}
use kirov_server_emulator.NatNeg.Manager.Scheduling.{sent}
use kirov_server_emulator.Chat.Handlers.Queries.{disconnect}
use kirov_server_emulator.Prelude.Dict.{Dict, get}
use kirov_server_emulator.Prelude.{
  Bool, List, [], ap, arith, contains, contains-append, false, if◌then◌else◌, list_eq, nat_eq, not,
  option_eq, pair_eq, refl, true, ℕ, ◌&&◌, ◌==◌, ◌||◌, ◌∙◌, ◌∷◌, ◌≡◌, ==_refl, Bool-cases, inl, inr,
  nat_beq_iff, none, some, ◌+◌, ◌<◌,
}
use kirov_server_emulator.Chat.Pings.{
  PingResult, disconnect_all, failed, is_silent, ping_each, ping_one, ping_round, pinged, timed_out,
}
use kirov_server_emulator.Chat.Types.{ChatServer, nickname_of, set_client, user_of}

-- The connection is listed under some nickname.
unfoldable pub is_listed : Dict Text ℕ → ℕ → Bool
is_listed [] d = false
is_listed ((n, c) ∷ clients) d = (c == d) || is_listed clients d

abbrev pub is_pinged : PingResult → Bool
is_pinged pinged = true
is_pinged (timed_out late) = false
is_pinged failed = false

-- The client is to be removed.
unfoldable pub fails : ChatServer → ℕ → ℕ → PingResult → Bool
fails s d now result = is_silent s d now || not (is_pinged result)

abbrev pong_of : ChatServer → ℕ → ℕ
pong_of s d = (s.connections d).last_pong_time

abbrev connected_of : ChatServer → ℕ → Bool
connected_of s d = (s.connections d).connected

ping_one-pong :
    (s : ChatServer) (c now d : ℕ) (r : PingResult)
    → (pong_of (ping_one s c now r).0 d ≡ pong_of s d)
      × (connected_of (ping_one s c now r).0 d ≡ connected_of s d)
unfolding ping_one set_client
ping_one-pong s c now d pinged = ground arith
ping_one-pong s c now d (timed_out late) = ground arith
ping_one-pong s c now d failed = ground arith

ping_one-removed :
    (s : ChatServer) (c now : ℕ) (r : PingResult)
    → (ping_one s c now r).2 ≡ (if fails s c now r then c ∷ [] else [])
unfolding ping_one fails
ping_one-removed s c now pinged = ground arith
ping_one-removed s c now (timed_out late) = ground arith
ping_one-removed s c now failed = ground arith

ping_each-connections :
    (s : ChatServer) (now : ℕ) (results : ℕ → PingResult) (clients : Dict Text ℕ) (d : ℕ)
    → (pong_of (ping_each s now results clients).0 d ≡ pong_of s d)
      × (connected_of (ping_each s now results clients).0 d ≡ connected_of s d)
unfolding ping_each
ping_each-connections s now results [] d = (refl, refl)
ping_each-connections s now results ((n, c) ∷ clients) d =
    let first = ping_one-pong s c now d (results c) in
    let rest = ping_each-connections (ping_one s c now (results c)).0 now results clients d in
    (rest.0 ∙ first.0, rest.1 ∙ first.1)

fails-pong :
    (s t : ChatServer) (d now : ℕ) (r : PingResult)
    → pong_of t d ≡ pong_of s d
    → fails t d now r ≡ fails s d now r
unfolding fails is_silent
fails-pong s t d now r same = rw same refl

here_removed :
    (s : ChatServer) (c now : ℕ) (results : ℕ → PingResult) (d : ℕ)
    → contains (ping_one s c now (results c)).2 d ≡ ((c == d) && fails s d now (results d))
unfolding contains
here_removed s c now results d = elim (Bool-cases (c == d)) [
  | inl same ↦
      let e = ap (λ x. fails s x now (results x)) ((nat_beq_iff c d).0 same) in
      ground (arith, ping_one-removed s c now (results c), e, same)
  | inr other ↦ ground (arith, ping_one-removed s c now (results c), other)
]

ping_each-removed :
    (s : ChatServer) (now : ℕ) (results : ℕ → PingResult) (clients : Dict Text ℕ) (d : ℕ)
    → contains (ping_each s now results clients).2 d
      ≡ (is_listed clients d && fails s d now (results d))
unfolding ping_each is_listed contains
ping_each-removed s now results [] d = refl
ping_each-removed s now results ((n, c) ∷ clients) d =
    let t = (ping_one s c now (results c)).0 in
    let others = (ping_each t now results clients).2 in
    let here : contains (ping_one s c now (results c)).2 d
        ≡ ((c == d) && fails s d now (results d)) =
      here_removed s c now results d in
    contains-append (ping_one s c now (results c)).2 others d
    ∙ ground (
      arith,
      here,
      ping_each-removed t now results clients d,
      fails-pong s t d now (results d) (ping_one-pong s c now d (results c)).0,
    )

disconnect_all-connected :
    (s : ChatServer) (cs : List ℕ) (d : ℕ)
    → connected_of (disconnect_all s cs) d ≡ (connected_of s d && not (contains cs d))
unfolding disconnect_all disconnect set_client contains
disconnect_all-connected s [] d = ground arith
disconnect_all-connected s (c ∷ cs) d =
    ground (arith, disconnect_all-connected (disconnect s c) cs d)

ping_one-user :
    (s : ChatServer) (c now d : ℕ) (r : PingResult) → user_of (ping_one s c now r).0 d ≡ user_of s d
unfolding ping_one set_client
ping_one-user s c now d pinged = ground arith
ping_one-user s c now d (timed_out late) = ground arith
ping_one-user s c now d failed = ground arith

ping_each-user :
    (s : ChatServer) (now : ℕ) (results : ℕ → PingResult) (clients : Dict Text ℕ) (d : ℕ)
    → user_of (ping_each s now results clients).0 d ≡ user_of s d
unfolding ping_each
ping_each-user s now results [] d = refl
ping_each-user s now results ((n, c) ∷ clients) d =
    ping_each-user (ping_one s c now (results c)).0 now results clients d
    ∙ ping_one-user s c now d (results c)

disconnect_all-user :
    (s : ChatServer) (cs : List ℕ) (d : ℕ) → user_of (disconnect_all s cs) d ≡ user_of s d
unfolding disconnect_all disconnect set_client
disconnect_all-user s [] d = refl
disconnect_all-user s (c ∷ cs) d = ground (arith, disconnect_all-user (disconnect s c) cs d)

ping_round-user :
    (s : ChatServer) (now : ℕ) (results : ℕ → PingResult) (d : ℕ)
    → user_of (ping_round s now results).0 d ≡ user_of s d
unfolding ping_round
ping_round-user s now results d =
    let round = ping_each s now results s.irc_clients in
    disconnect_all-user round.0 round.2 d ∙ ping_each-user s now results s.irc_clients d

-- A round removes exactly the clients that are listed and whose last PONG is more than 90 seconds
-- ago or whose PING could not be sent, and exactly these are no longer connected if they were.
pub ping_round_removes :
    (s : ChatServer) (now : ℕ) (results : ℕ → PingResult) (d : ℕ)
    → let (t, sent, removed) = ping_round s now results in
      (contains removed d ≡ (is_listed s.irc_clients d && fails s d now (results d)))
      × ((t.connections d).connected ≡ ((s.connections d).connected && not (contains removed d)))
unfolding ping_round
ping_round_removes s now results d =
    let round = ping_each s now results s.irc_clients in
    (
      ping_each-removed s now results s.irc_clients d,
      disconnect_all-connected round.0 round.2 d
          ∙ ap (λ b. b && not (contains round.2 d))
              (ping_each-connections s now results s.irc_clients d).1,
    )

listed_here :
    (clients : Dict Text ℕ) (n : Text) (c : ℕ) → get clients n ≡ some c → is_listed clients c ≡ true
unfolding is_listed get
listed_here [] n c found = absurd (cc)
listed_here ((m, d) ∷ clients) n c found = ground (arith, listed_here clients n c, found, ==_refl c)

-- A client that is listed and has been silent for more than 90 seconds is removed by the next round
-- whatever becomes of the PINGs: he is no longer connected, and his cleanup, which the round asks
-- for, takes his nickname out of the list of clients.
pub ping_round_silent :
    (s : ChatServer) (now : ℕ) (results : ℕ → PingResult) (n : Text) (c : ℕ)
    → IsWellFormed s
    → get s.irc_clients n ≡ some c
    → (s.connections c).last_pong_time + 90000 < now
    → let (t, sent, removed) = ping_round s now results in
      ((t.connections c).connected ≡ false)
      × (contains removed c ≡ true)
      × (get (cleanup_client t c).irc_clients n ≡ none)
unfolding fails is_silent
ping_round_silent s now results n c w found late =
    let (t, sent, removed) = ping_round s now results in
    let known = ping_round_removes s now results c in
    let gone : contains removed c ≡ true =
      ground (arith, known.0, listed_here s.irc_clients n c found, late) in
    let named : nickname_of t c ≡ some n =
      ap (λ u. u.nickname) (ping_round-user s now results c) ∙ (w.clients n c found).0 in
    (
      ground (arith, known.1, gone),
      gone,
      rw ((cleanup_client_removes t c n named (w.clients n c found).1.0).0 n, ==_refl n) refl,
    )
