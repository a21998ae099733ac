-- ===== src/Chat/Handlers/Delivery.antt =====
-- Who gets a message to a channel.

use kirov_server_emulator.Prelude.Strings.{starts_with, truthy}
use kirov_server_emulator.Prelude.Strings.{truthy}
use kirov_server_emulator.Chat.Handlers.Messaging.{handle_privmsg, tell, tell_channel}
use kirov_server_emulator.Chat.Handlers.Membership.{from_user}
use kirov_server_emulator.Prelude.Text.{Text, codes}
use kirov_server_emulator.Chat.Message.{IrcMessage}
use kirov_server_emulator.Prelude.Dict.{get}
use kirov_server_emulator.Chat.Sending.{
  ChatEffect, ciphers, client_for, copies, deliver, encrypts, sent_to, broadcast_to_channel, emits,
}
use kirov_server_emulator.Prelude.{
  All, Bool-cases, List, Option, [], arith, contains, false, if◌then◌else◌, inl, inr, list_eq,
  nat_eq, none, option_eq, pair_eq, refl, some, true, ℕ, ◌&&◌, ◌++◌, ◌==◌, ◌∷◌, ◌≡◌, length,
  length-append, option_beq_iff, ◌<◌, ==_refl, ltb, ltb→lt, subst, ◌↔◌,
}
use kirov_server_emulator.Chat.Types.{ChatServer, IrcChannel, nickname_of, user_of}

-- The messages that were written to a connection, in their order.
unfoldable pub received : ℕ → List ChatEffect → List IrcMessage
received d [] = []
received d (deliver e m ∷ es) = let rest = received d es in if d == e then m ∷ rest else rest
received d (ciphers e k j ∷ es) = received d es
received d (encrypts e ∷ es) = received d es

received-append :
    (d : ℕ) (xs ys : List ChatEffect) → received d (xs ++ ys) ≡ received d xs ++ received d ys
unfolding received
received-append d [] ys = refl
received-append d (deliver e m ∷ xs) ys = ground (arith, received-append d xs ys)
received-append d (ciphers e k j ∷ xs) ys = received-append d xs ys
received-append d (encrypts e ∷ xs) ys = received-append d xs ys

-- The connection `d` is listed under a member other than the one to exclude, and can be written to.
pub record Hears (s : ChatServer) (self : Option Text) (users : List (Option Text)) (d : ℕ)
    : Type 0 where
  pub nickname : Text
  pub member : contains users (some nickname) ≡ true
  pub listed : get s.irc_clients nickname ≡ some d
  pub other : (some nickname == self) ≡ false
  pub works : (s.connections d).writable ≡ true

abbrev pub Only : IrcMessage → List IrcMessage → Type 0
Only m = All (λ x. x ≡ m)

module _ (s : ChatServer) (m : IrcMessage) (self : Option Text) (d : ℕ) where
  -- What the connection gets for one member.
  abbrev one_for : Option Text → List IrcMessage
  one_for n = received d (if true && (n == self) then [] else sent_to s m (client_for s n))

  All-append : (xs ys : List IrcMessage) → Only m xs → Only m ys → Only m (xs ++ ys)
  All-append [] ys h k = k
  All-append (x ∷ xs) ys h k = (h.0, All-append xs ys h.1 k)

  sent_to-Only : (o : Option ℕ) → Only m (received d (sent_to s m o))
  unfolding received
  sent_to-Only none = tt
  sent_to-Only (some e) = ground arith

  one_for-Only : (n : Option Text) → Only m (one_for n)
  unfolding received
  one_for-Only n = elim (Bool-cases (n == self)) [
    | inl same ↦ rw same tt
    | inr other ↦ rw other (sent_to-Only (client_for s n))
  ]

  copies-Only : (ns : List (Option Text)) → Only m (received d (copies s m true self ns))
  unfolding copies received
  copies-Only [] = tt
  copies-Only (n ∷ ns) =
      rw received-append (All-append (one_for n) _ (one_for-Only n) (copies-Only ns))

  sent_to_own : (s.connections d).writable ≡ true → received d (sent_to s m (some d)) ≡ m ∷ []
  unfolding received
  sent_to_own works = ground (arith, works)

  sent_to_other :
      (o : Option ℕ)
      → 0 < length (received d (sent_to s m o))
      → (o ≡ some d) × ((s.connections d).writable ≡ true)
  unfolding received
  sent_to_other none h = absurd (omega (arith, h))
  sent_to_other (some e) h = ground (arith, h)

  -- Every member that hears gets the message.
  copies_reach :
      (ns : List (Option Text))
      → Hears s self ns d
      → 0 < length (received d (copies s m true self ns))
  unfolding copies contains client_for
  copies_reach [] h = absurd (ground (arith, h.member))
  copies_reach (n ∷ ns) h = elim (Bool-cases (n == some h.nickname)) [
    | inl this ↦
        let e : n ≡ some h.nickname = (option_beq_iff n (some h.nickname)).0 this in
        let mine : one_for n ≡ m ∷ [] =
          rw (e, h.other, client_for, h.listed) (sent_to_own h.works) in
        rw received-append (rw mine (omega arith))
    | inr that ↦
        let rest = copies_reach ns (record {
          nickname = h.nickname;
          member = ground (arith, h.member, that);
          listed = h.listed;
          other = h.other;
          works = h.works;
        }) in
        rw received-append
          (omega (arith, rest, length-append (one_for n) (received d (copies s m true self ns))))
  ]

  one_for_other :
      (n : Option Text)
      → 0 < length (one_for n)
      → ((n == self) ≡ false) × (client_for s n ≡ some d) × ((s.connections d).writable ≡ true)
  unfolding received
  one_for_other n h = elim (Bool-cases (n == self)) [
    | inl same ↦ absurd (
        omega (
          arith,
          subst
              (λ b.
                0 < length (received d (if true && b then [] else sent_to s m (client_for s n))))
              same h,
        ))
    | inr other ↦
        let known = sent_to_other (client_for s n) (
          subst
            (λ b. 0 < length (received d (if true && b then [] else sent_to s m (client_for s n))))
            other h) in
        (other, known.0, known.1)
  ]

  heard_by : (n : Option Text) → 0 < length (one_for n) → Hears s self (n ∷ []) d
  unfolding client_for contains
  heard_by none h = let known : none ≡ some d = (one_for_other none h).1 in absurd (cc)
  heard_by (some n) h =
      let known = one_for_other (some n) h in
      record {
        nickname = n;
        member = ground (arith, ==_refl (some n));
        listed = known.1;
        other = known.0;
        works = known.2;
      }

  -- Whoever gets the message is a member that hears.
  copies_heard :
      (ns : List (Option Text))
      → 0 < length (received d (copies s m true self ns))
      → Hears s self ns d
  unfolding copies contains received
  copies_heard [] h = absurd (omega (arith, h))
  copies_heard (n ∷ ns) h =
      let rest = received d (copies s m true self ns) in
      let both : 0 < length (one_for n ++ rest) =
        subst (λ l. 0 < length l)
          (received-append d (if true && (n == self) then [] else sent_to s m (client_for s n))
            (copies s m true self ns))
          h in
      elim (Bool-cases (ltb 0 (length (one_for n)))) [
        | inl mine ↦
            let by = heard_by n (ltb→lt 0 _ mine) in
            record {
              nickname = by.nickname;
              member = ground (arith, by.member);
              listed = by.listed;
              other = by.other;
              works = by.works;
            }
        | inr nothing ↦
            let by =
              copies_heard ns (ground (arith, both, nothing, length-append (one_for n) rest)) in
            record {
              nickname = by.nickname;
              member = ground (arith, by.member);
              listed = by.listed;
              other = by.other;
              works = by.works;
            }
      ]

broadcast_found :
    (s : ChatServer) (c : ℕ) (name : Text) (m : IrcMessage) (ch : IrcChannel)
    → get s.irc_channels name ≡ some ch
    → broadcast_to_channel s c name m true ≡ emits s (copies s m true (nickname_of s c) ch.users)
unfolding broadcast_to_channel
broadcast_found s c name m ch found = rw (broadcast_to_channel, found) refl

-- Take a message with a text that a client sends by PRIVMSG to a listed channel that he has joined.
-- A connection gets something exactly if it is listed under a nickname other than the client's that
-- is a member of the channel, and can be written to; all that it gets is the message, with the
-- prefix of the client. Nothing else changes.
pub handle_privmsg_channel :
    (s : ChatServer) (c d : ℕ) (target text : Text) (rest : List Text) (ch : IrcChannel)
    → truthy text ≡ true
    → starts_with (codes "#") target ≡ true
    → get s.irc_channels target ≡ some ch
    → contains (user_of s c).channels target ≡ true
    → let o = handle_privmsg s c (target ∷ text ∷ rest) in
      let m = from_user s c (codes "PRIVMSG") (target ∷ text ∷ []) in
      ((0 < length (received d o.sent)) ↔ Hears s (nickname_of s c) ch.users d)
      × Only m (received d o.sent)
      × (o.state ≡ s)
unfolding handle_privmsg tell tell_channel
handle_privmsg_channel s c d target text rest ch some_text channel found joined =
    let m = from_user s c (codes "PRIVMSG") (target ∷ text ∷ []) in
    let self = nickname_of s c in
    let plain : handle_privmsg s c (target ∷ text ∷ rest)
        ≡ emits s (copies s m true self ch.users) =
      rw (some_text, channel, found, joined) (broadcast_found s c target m ch found) in
    rw plain (
      (copies_heard s m self d ch.users, copies_reach s m self d ch.users),
      copies-Only s m self d ch.users,
      refl,
    )
