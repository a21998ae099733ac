-- ===== src/Chat/Sending/States.antt =====
-- Sending changes nothing but what was sent, and what follows an outcome.

use kirov_server_emulator.Prelude.Dict.{get}
use kirov_server_emulator.Chat.Message.{IrcMessage}
use kirov_server_emulator.Prelude.Text.{Text}
use kirov_server_emulator.Chat.Sending.{
  Outcome, broadcast_to_channel, numeric, send_message, send_numeric, send_numerics, seq,
}
use kirov_server_emulator.Prelude.{
  Bool, Bool-cases, List, Option, [], false, if◌then◌else◌, inl, inr, list_eq, nat_eq, none,
  option_eq, pair_eq, refl, some, true, ℕ, ◌∷◌, ◌≡◌,
}
use kirov_server_emulator.Chat.Types.{ChatServer}

-- The state of an outcome has a property.
pub record Ends {ℓ} (P : ChatServer → Type ℓ) (o : Outcome) : Type ℓ where
  pub holds : P o.state

-- What follows may end in another property, which the first one has to give.
pub seq-Ends_of {ℓ κ} :
    {P : ChatServer → Type ℓ} {Q : ChatServer → Type κ} {o : Outcome} {k : ChatServer → Outcome}
    → ((s : ChatServer) → P s → Q s)
    → Ends P o
    → ((s : ChatServer) → P s → Ends Q (k s))
    → Ends Q (seq o k)
unfolding seq
seq-Ends_of {o = o} {k = k} weaken h kept = elim (Bool-cases o.raised) [
  | inl stopped ↦ record { holds = rw stopped (weaken o.state h.holds) }
  | inr went_on ↦ record { holds = rw went_on (kept o.state h.holds).holds }
]

module _ {ℓ} {P : ChatServer → Type ℓ} where
  pub if-Ends : (b : Bool) {o p : Outcome} → Ends P o → Ends P p → Ends P (if b then o else p)
  if-Ends true h k = h
  if-Ends false h k = k

  pub if_cases-Ends :
      (b : Bool) {o p : Outcome}
      → ((b ≡ true) → Ends P o)
      → ((b ≡ false) → Ends P p)
      → Ends P (if b then o else p)
  if_cases-Ends true h k = h refl
  if_cases-Ends false h k = k refl

  pub match-Ends {κ} :
      {A : Type κ} (a : Option A) {o : Outcome} {f : A → Outcome}
      → Ends P o
      → ((x : A) → a ≡ some x → Ends P (f x))
      → Ends P (elim a as (λ _. Outcome) [ none ↦ o | some x ↦ f x ])
  match-Ends none h k = h
  match-Ends (some x) h k = k x refl

  -- What the first part and the second one keep, both keep.
  pub seq-Ends :
      {o : Outcome} {k : ChatServer → Outcome}
      → Ends P o
      → ((s : ChatServer) → P s → Ends P (k s))
      → Ends P (seq o k)
  seq-Ends h kept = seq-Ends_of (λ s held. held) h kept

  pub send_message-Ends :
      (s : ChatServer) (c : ℕ) (m : IrcMessage) → P s → Ends P (send_message s c m)
  unfolding send_message
  send_message-Ends s c m h =
      if-Ends (s.connections c).writable (record { holds = h }) (record { holds = h })

  pub send_numeric-Ends :
      (s : ChatServer) (c : ℕ) (code : Text) (params : List Text)
      → P s
      → Ends P (send_numeric s c code params)
  unfolding send_numeric
  send_numeric-Ends s c code params h = send_message-Ends s c (numeric s c code params) h

  pub send_numerics-Ends :
      (s : ChatServer) (c : ℕ) (lines : List (Text × List Text))
      → P s
      → Ends P (send_numerics s c lines)
  unfolding send_numerics
  send_numerics-Ends s c [] h = record { holds = h }
  send_numerics-Ends s c ((code, params) ∷ rest) h =
      seq-Ends (send_numeric-Ends s c code params h) λ t k. send_numerics-Ends t c rest k

  pub broadcast_to_channel-Ends :
      (s : ChatServer) (c : ℕ) (name : Text) (m : IrcMessage) (exclude_self : Bool)
      → P s
      → Ends P (broadcast_to_channel s c name m exclude_self)
  unfolding broadcast_to_channel
  broadcast_to_channel-Ends s c name m exclude_self h =
      match-Ends (get s.irc_channels name) (record { holds = h }) λ ch found. record { holds = h }
