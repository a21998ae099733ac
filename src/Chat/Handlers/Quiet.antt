-- ===== src/Chat/Handlers/Quiet.antt =====
-- The commands that ask and tell: what holds of the state still holds afterwards.

use kirov_server_emulator.Chat.Message.{IrcMessage}
use kirov_server_emulator.Chat.Handlers.Queries.{handle_ping, handle_usrip, handle_who, quit_each}
use kirov_server_emulator.Prelude.Text.{Text, codes}
use kirov_server_emulator.Cipher.Peerchat.{PeerchatCipher}
use kirov_server_emulator.Chat.Handlers.Registration.{
  Environment, handle_crypt, need_more_params, start_encryption, with_ciphers,
}
use kirov_server_emulator.Chat.Sending.{emits, encrypts, send_numeric, seq, Outcome}
use kirov_server_emulator.Prelude.{
  Bool, List, Option, [], contains, false, list_eq, nat_eq, none, not, option_eq, pair_eq, some,
  true, ℕ, ◌∷◌,
}
use kirov_server_emulator.Chat.Handlers.Membership.{
  handle_names, names_of, send_names, send_names_of,
}
use kirov_server_emulator.Chat.Handlers.Messaging.{
  handle_notice, handle_privmsg, handle_utm, refuse, tell, tell_channel, tell_nickname, utm_each,
  utm_one, caught,
}
use kirov_server_emulator.Chat.Handlers.Keys.{get_keys, handle_getckey, send_keys, first_or_empty}
use kirov_server_emulator.Chat.Sending.States.{
  Ends, broadcast_to_channel-Ends, if-Ends, match-Ends, send_message-Ends, send_numeric-Ends,
  send_numerics-Ends, seq-Ends,
}
use kirov_server_emulator.Chat.Types.{ChatServer, IrcChannel, user_of}
use kirov_server_emulator.Prelude.Dict.{get, has}
use kirov_server_emulator.Prelude.Strings.{truthy, starts_with}

module _ {ℓ} {P : ChatServer → Type ℓ} where
  send_names_of-Ends :
      (s : ChatServer) (c : ℕ) (name : Text) (ch : IrcChannel)
      → P s
      → Ends P (send_names_of s c name ch)
  unfolding send_names_of
  send_names_of-Ends s c name ch h =
      match-Ends (names_of ch ch.users) (record { holds = h })
        λ listed found. send_numerics-Ends s c _ h

  pub send_names-Ends : (s : ChatServer) (c : ℕ) (name : Text) → P s → Ends P (send_names s c name)
  unfolding send_names
  send_names-Ends s c name h =
      match-Ends (get s.irc_channels name) (send_numerics-Ends s c _ h)
        λ ch found. send_names_of-Ends s c name ch h

  pub handle_names-Ends :
      (s : ChatServer) (c : ℕ) (ps : List Text) → P s → Ends P (handle_names s c ps)
  unfolding handle_names
  handle_names-Ends s c [] h = record { holds = h }
  handle_names-Ends s c (name ∷ rest) h = send_names-Ends s c name h

  send_keys-Ends :
      (s : ChatServer) (c : ℕ) (name request_id : Text) (keys : List Text) (ch : IrcChannel)
      (nicks : List (Option Text))
      → P s
      → Ends P (send_keys s c name request_id keys ch nicks)
  unfolding send_keys
  send_keys-Ends s c name request_id keys ch [] h = record { holds = h }
  send_keys-Ends s c name request_id keys ch (none ∷ nicks) h = record { holds = h }
  send_keys-Ends s c name request_id keys ch (some n ∷ nicks) h =
      seq-Ends (send_numerics-Ends s c _ h)
        λ t k. send_keys-Ends t c name request_id keys ch nicks k

  get_keys-Ends :
      (s : ChatServer) (c : ℕ) (name target request_id keys : Text) (ch : IrcChannel)
      → P s
      → Ends P (get_keys s c name target request_id keys ch)
  unfolding get_keys
  get_keys-Ends s c name target request_id keys ch h =
      seq-Ends (send_keys-Ends s c name request_id _ ch _ h) λ t k. send_numeric-Ends t c _ _ k

  pub need_more_params-Ends :
      (s : ChatServer) (c : ℕ) (command : Text) → P s → Ends P (need_more_params s c command)
  unfolding need_more_params
  need_more_params-Ends s c command h = send_numeric-Ends s c _ _ h

  pub handle_getckey-Ends :
      (s : ChatServer) (c : ℕ) (ps : List Text) → P s → Ends P (handle_getckey s c ps)
  unfolding handle_getckey
  handle_getckey-Ends s c [] h = need_more_params-Ends s c _ h
  handle_getckey-Ends s c (a ∷ []) h = need_more_params-Ends s c _ h
  handle_getckey-Ends s c (a ∷ b ∷ []) h = need_more_params-Ends s c _ h
  handle_getckey-Ends s c (a ∷ b ∷ d ∷ []) h = need_more_params-Ends s c _ h
  handle_getckey-Ends s c (name ∷ target ∷ request_id ∷ flags ∷ rest) h =
      match-Ends (get s.irc_channels name) (send_numerics-Ends s c _ h)
        λ ch found. get_keys-Ends s c name target request_id (first_or_empty rest) ch h

  refuse-Ends :
      (loud : Bool) (s : ChatServer) (c : ℕ) (code : Text) (params : List Text)
      → P s
      → Ends P (refuse loud s c code params)
  refuse-Ends loud s c code params h =
      if-Ends loud (send_numeric-Ends s c code params h) (record { holds = h })

  tell_channel-Ends :
      (loud : Bool) (command : Text) (s : ChatServer) (c : ℕ) (target text : Text)
      → P s
      → Ends P (tell_channel loud command s c target text)
  unfolding tell_channel
  tell_channel-Ends loud command s c target text h =
      if-Ends (not (has s.irc_channels target)) (refuse-Ends loud s c _ _ h) (
        if-Ends (not (contains (user_of s c).channels target)) (refuse-Ends loud s c _ _ h)
          (broadcast_to_channel-Ends s c target _ true h))

  tell_nickname-Ends :
      (loud : Bool) (command : Text) (s : ChatServer) (c : ℕ) (target text : Text)
      → P s
      → Ends P (tell_nickname loud command s c target text)
  unfolding tell_nickname
  tell_nickname-Ends loud command s c target text h =
      match-Ends (get s.irc_clients target) (refuse-Ends loud s c _ _ h)
        λ d found. send_message-Ends s d _ h

  tell-Ends :
      (loud : Bool) (command : Text) (s : ChatServer) (c : ℕ) (target text : Text)
      → P s
      → Ends P (tell loud command s c target text)
  unfolding tell
  tell-Ends loud command s c target text h =
      if-Ends (starts_with (codes "#") target) (tell_channel-Ends loud command s c target text h)
        (tell_nickname-Ends loud command s c target text h)

  pub handle_privmsg-Ends :
      (s : ChatServer) (c : ℕ) (ps : List Text) → P s → Ends P (handle_privmsg s c ps)
  unfolding handle_privmsg
  handle_privmsg-Ends s c [] h = need_more_params-Ends s c _ h
  handle_privmsg-Ends s c (a ∷ []) h = need_more_params-Ends s c _ h
  handle_privmsg-Ends s c (target ∷ text ∷ rest) h =
      if-Ends (truthy text) (tell-Ends true _ s c target text h) (send_numeric-Ends s c _ _ h)

  pub handle_notice-Ends :
      (s : ChatServer) (c : ℕ) (ps : List Text) → P s → Ends P (handle_notice s c ps)
  unfolding handle_notice
  handle_notice-Ends s c [] h = record { holds = h }
  handle_notice-Ends s c (a ∷ []) h = record { holds = h }
  handle_notice-Ends s c (target ∷ text ∷ rest) h =
      if-Ends (truthy text) (tell-Ends false _ s c target text h) (record { holds = h })

  caught-Ends : {o : Outcome} → Ends P o → Ends P (caught o)
  caught-Ends h = record { holds = h.holds }

  utm_one-Ends :
      (alone : Bool) (s : ChatServer) (c : ℕ) (text target : Text)
      → P s
      → Ends P (utm_one alone s c text target)
  unfolding utm_one
  utm_one-Ends alone s c text target h =
      match-Ends (get s.irc_clients target)
        (if-Ends alone (send_numeric-Ends s c _ _ h) (record { holds = h }))
        λ d found. caught-Ends (send_message-Ends s d _ h)

  utm_each-Ends :
      (alone : Bool) (s : ChatServer) (c : ℕ) (text : Text) (targets : List Text)
      → P s
      → Ends P (utm_each alone s c text targets)
  unfolding utm_each
  utm_each-Ends alone s c text [] h = record { holds = h }
  utm_each-Ends alone s c text (t ∷ ts) h =
      seq-Ends (utm_one-Ends alone s c text t h) λ u k. utm_each-Ends alone u c text ts k

  pub handle_utm-Ends : (s : ChatServer) (c : ℕ) (ps : List Text) → P s → Ends P (handle_utm s c ps)
  unfolding handle_utm
  handle_utm-Ends s c [] h = need_more_params-Ends s c _ h
  handle_utm-Ends s c (a ∷ []) h = need_more_params-Ends s c _ h
  handle_utm-Ends s c (target ∷ text ∷ rest) h =
      if-Ends (starts_with (codes "#") target) (tell_channel-Ends true _ s c target text h)
        (utm_each-Ends _ s c text _ h)

  pub handle_usrip-Ends : (s : ChatServer) (c : ℕ) → P s → Ends P (handle_usrip s c)
  unfolding handle_usrip
  handle_usrip-Ends s c h = send_message-Ends s c _ h

  pub handle_ping-Ends :
      (s : ChatServer) (c : ℕ) (ps : List Text) → P s → Ends P (handle_ping s c ps)
  unfolding handle_ping
  handle_ping-Ends s c ps h = send_message-Ends s c _ h

  pub handle_who-Ends :
      (env : Environment) (s : ChatServer) (c : ℕ) (ps : List Text)
      → P s
      → Ends P (handle_who env s c ps)
  unfolding handle_who
  handle_who-Ends env s c [] h = send_numerics-Ends s c _ h
  handle_who-Ends env s c (target ∷ rest) h = send_numerics-Ends s c _ h

  with_ciphers-Ends :
      (s : ChatServer) (c : ℕ) (env : Environment) (k j : Option PeerchatCipher)
      → P s
      → Ends P (with_ciphers s c env k j)
  unfolding with_ciphers start_encryption
  with_ciphers-Ends s c env none j h = record { holds = h }
  with_ciphers-Ends s c env (some k) none h = record { holds = h }
  with_ciphers-Ends s c env (some k) (some j) h =
      let sent : Ends P (
          seq (send_numeric s c (codes "705") (env.recv_challenge ∷ env.send_challenge ∷ []))
            (λ t. emits t (encrypts c ∷ []))) =
        seq-Ends (send_numeric-Ends s c _ _ h) λ t k. record { holds = k } in
      record { holds = sent.holds }

  pub handle_crypt-Ends :
      (env : Environment) (s : ChatServer) (c : ℕ) (ps : List Text)
      → P s
      → Ends P (handle_crypt env s c ps)
  unfolding handle_crypt
  handle_crypt-Ends env s c [] h = need_more_params-Ends s c _ h
  handle_crypt-Ends env s c (a ∷ []) h = need_more_params-Ends s c _ h
  handle_crypt-Ends env s c (a ∷ b ∷ []) h = need_more_params-Ends s c _ h
  handle_crypt-Ends env s c (a ∷ b ∷ d ∷ rest) h = with_ciphers-Ends s c env _ _ h

  pub quit_each-Ends :
      (s : ChatServer) (c : ℕ) (m : IrcMessage) (channels : List Text)
      → P s
      → Ends P (quit_each s c m channels)
  unfolding quit_each
  quit_each-Ends s c m [] h = record { holds = h }
  quit_each-Ends s c m (name ∷ rest) h =
      seq-Ends (broadcast_to_channel-Ends s c name m true h) λ t k. quit_each-Ends t c m rest k
