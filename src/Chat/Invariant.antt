-- ===== src/Chat/Invariant.antt =====
-- What the operations of the chat server keep.
use kirov_server_emulator.Chat.Handlers.Steps.{IsNickname}
use kirov_server_emulator.Prelude.Text.{Text}
use kirov_server_emulator.Chat.Invariant.Channels.{IsListed}
use kirov_server_emulator.Chat.Handlers.Registration.{drop_nickname, set_nickname}
use kirov_server_emulator.Prelude.{
  All, arith, length, list_eq, nat_eq, option_eq, pair_eq, some, true, ℕ, ◌≡◌, ◌≤◌, Bool-cases,
  Option, inl, inr, list_beq_iff, none, sym, ◌==◌, subst, if◌then◌else◌,
}
pub mod Channels
pub mod Membership
use kirov_server_emulator.Prelude.Strings.{truthy}
use kirov_server_emulator.Prelude.Dict.{
  Dict, get, has, put, remove, All-put, All-remove, get-put, get-remove,
}
use kirov_server_emulator.Chat.Types.{
  ChatServer, IrcChannel, IrcUser, nickname_of, user_of, IrcClient, new_chat, set_channel,
  set_client, set_user,
}

pub record IsWellFormed (s : ChatServer) : Type 0 where
  pub channels : All IsListed s.irc_channels
  pub clients :
      (n : Text) (c : ℕ) → get s.irc_clients n ≡ some c → (nickname_of s c ≡ some n) × IsNickname n

pub new_chat-IsWellFormed : (peers : ℕ → Text × ℕ) → IsWellFormed (new_chat peers)
unfolding new_chat get
new_chat-IsWellFormed peers = record { channels = tt; clients = λ n c e. cc }

-- Assignments that leave the nickname alone.
pub set_client-IsWellFormed :
    (s : ChatServer) (c : ℕ) (client : IrcClient)
    → client.user.nickname ≡ nickname_of s c
    → IsWellFormed s
    → IsWellFormed (set_client s c client)
unfolding set_client
set_client-IsWellFormed s c client same w = record {
  channels = w.channels;
  clients = λ n d found. ground (arith, w.clients n d found, same);
}

pub set_user-IsWellFormed :
    (s : ChatServer) (c : ℕ) (u : IrcUser)
    → u.nickname ≡ nickname_of s c
    → IsWellFormed s
    → IsWellFormed (set_user s c u)
unfolding set_user
set_user-IsWellFormed s c u same w = set_client-IsWellFormed s c _ same w

pub set_channel-IsWellFormed :
    (s : ChatServer) (ch : IrcChannel) (name : Text)
    → IsListed (name, ch)
    → IsWellFormed s
    → IsWellFormed (set_channel s ch name)
unfolding set_channel
set_channel-IsWellFormed s ch name listed w = record {
  channels = All-put IsListed s.irc_channels name ch w.channels listed;
  clients = w.clients;
}

drop_nickname-some :
    (d : Dict Text ℕ) (old : Option Text) (m : Text) (c : ℕ)
    → get (drop_nickname d old) m ≡ some c
    → (get d m ≡ some c) × (old ≡ some m → ¬ (truthy m ≡ true))
unfolding drop_nickname
drop_nickname-some d none m c h = (h, λ e. cc)
drop_nickname-some d (some o) m c h = elim (Bool-cases (truthy o)) [
  | inl set_ ↦
      let there : get (remove d o) m ≡ some c =
        subst (λ b. get (if b then remove d o else d) m ≡ some c) set_ h in
      elim (Bool-cases (o == m)) [
        | inl same ↦ absurd (ground (arith, get-remove d o m, there, same))
        | inr other ↦ (
          ground (arith, get-remove d o m, there, other),
          λ e t. ground (arith, other, list_beq_iff o m),
        )
      ]
  | inr empty ↦ (
    subst (λ b. get (if b then remove d o else d) m ≡ some c) empty h,
    λ e t. ground (arith, empty),
  )
]

pub set_nickname-IsWellFormed :
    (s : ChatServer) (c : ℕ) (n : Text)
    → IsNickname n
    → IsWellFormed s
    → IsWellFormed (set_nickname s c n)
unfolding set_nickname set_user set_client
set_nickname-IsWellFormed s c n good w = record {
  channels = w.channels;
  clients = λ m d found.
      let old = nickname_of s c in
      let rest = drop_nickname s.irc_clients old in
      elim (Bool-cases (n == m)) [
        | inl same ↦
            let e : n ≡ m = (list_beq_iff n m).0 same in
            let mine : c ≡ d = ground (arith, get-put rest n c m, found, same) in
            (ground (arith, mine, e), subst IsNickname e good)
        | inr other ↦
            let there : get rest m ≡ some d = ground (arith, get-put rest n c m, found, other) in
            let before = drop_nickname-some s.irc_clients old m d there in
            let known = w.clients m d before.0 in (ground (arith, known, before.1), known.1)
      ];
}
