-- ===== src/Chat/Handlers/Steps.antt =====
-- The steps of a command that change the state.
use kirov_server_emulator.Chat.Channels.{join_channel, part_channel}
use kirov_server_emulator.Chat.Handlers.Keys.{store_keys}
use kirov_server_emulator.Prelude.Text.{Text}
use kirov_server_emulator.Chat.Handlers.Registration.{in_use, set_nickname}
use kirov_server_emulator.Prelude.{
  contains, false, length, list_eq, nat_eq, option_eq, pair_eq, some, true, ℕ, ◌||◌, ◌≡◌, ◌≤◌,
}
use kirov_server_emulator.Prelude.Strings.{truthy}
use kirov_server_emulator.Prelude.Dict.{get, has}
use kirov_server_emulator.Chat.Types.{
  ChatServer, IrcChannel, IrcClient, nickname_of, is_operator, is_private_name, set_channel,
  set_client,
}

-- A nickname that NICK accepts.
abbrev pub IsNickname : Text → Type 0
IsNickname n = (truthy n ≡ true) × (length n ≤ 30)

-- No channel was removed.
abbrev pub Grown : ChatServer → ChatServer → Type 0
Grown s0 s = (name : Text) → has s0.irc_channels name ≡ true → has s.irc_channels name ≡ true

-- The steps of a command of `c` in the state `s0`. JOIN can take several channels, so its steps
-- start from any state in between.
pub record IsKept {ℓ} (P : ChatServer → Type ℓ) (s0 : ChatServer) (c : ℕ) : Type ℓ where
  pub start : P s0
  pub assign :
      (s : ChatServer) (client : IrcClient)
      → client.user.nickname ≡ nickname_of s c
      → P s
      → P (set_client s c client)
  pub rename : (n : Text) → IsNickname n → in_use s0 c n ≡ false → P (set_nickname s0 c n)
  pub enter_channel :
      (s : ChatServer) (name : Text)
      → nickname_of s c ≡ nickname_of s0 c
      → Grown s0 s
      → P s
      → P (join_channel s c name)
  pub leave_channel :
      (s : ChatServer) (name : Text)
      → nickname_of s c ≡ nickname_of s0 c
      → P s
      → P (part_channel s c name)
  pub topic :
      (name : Text) (ch : IrcChannel) (t : Text)
      → get s0.irc_channels name ≡ some ch
      → is_operator ch (nickname_of s0 c) ≡ true
      → P (set_channel s0 (record ch { topic = some t }) name)
  pub modes :
      (name : Text) (ch : IrcChannel) (m : Text)
      → get s0.irc_channels name ≡ some ch
      → (is_private_name name || is_operator ch (nickname_of s0 c)) ≡ true
      → P (set_channel s0 (record ch { modes = m }) name)
  pub keys :
      (name : Text) (ch : IrcChannel) (k : Text)
      → get s0.irc_channels name ≡ some ch
      → contains ch.users (nickname_of s0 c) ≡ true
      → P (set_channel s0 (store_keys ch (nickname_of s0 c) k) name)
