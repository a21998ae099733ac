-- ===== src/Chat/Connection/Reading.antt =====
-- The loop of `handle_irc_client` in app/servers/peerchat_server.py that reads an encrypted connection,
-- while nothing but its own commands changes the server. Its branch for a connection that is not
-- encrypted, which reads line by line, is left out.

use kirov_server_emulator.Prelude.Strings.{truthy}
use kirov_server_emulator.Cipher.Peerchat.{PeerchatCipher}
use kirov_server_emulator.Chat.Types.{ChatServer}
use kirov_server_emulator.Prelude.Text.{Text}
use kirov_server_emulator.Prelude.{
  Bool, Bool-cases, List, Option, [], if◌then◌else◌, inl, inr, is_some, list_eq, nat_eq, option_eq,
  pair_eq, refl, ℕ, ◌&&◌, ◌++◌, ◌==◌, ◌∷◌, ◌≡◌, All, none, some, true, false, sym,
}
use kirov_server_emulator.Prelude.Words.{Bytes}
use kirov_server_emulator.Chat.Handlers.Registration.{Environment}
use kirov_server_emulator.Chat.Sending.{ChatEffect, ciphers, deliver, encrypts}
use kirov_server_emulator.Chat.Connection.Stream.{KeepsCipher, receive-append}
use kirov_server_emulator.Relay.Server.{second}
use kirov_server_emulator.Chat.Connection.{
  Wire, handle_lines, handle_text, perform, perform_all, receive, write, write_with, line_bytes,
}
use mathlib.Core.List.{append_assoc}

-- The condition of the loop, and of the branch for encrypted connections.
abbrev pub goes_on : ℕ → ChatServer × Wire → Bool
goes_on c (s, w) = (s.connections c).connected && (w.encryption_enabled && is_some w.recv_cipher)

module _ (encode : Text → Bytes) (decode : Bytes → Option Text) (env : Environment) (c : ℕ) where
  -- One read, with its lines handled: the state, and what the handlers did.
  unfoldable pub read_step : ChatServer × Wire → Bytes → (ChatServer × Wire) × List ChatEffect
  read_step (s, w) raw =
      let (w', ls) = receive w raw in
      let (s', effects) = handle_lines decode env s c ls in
      ((s', (perform_all encode c w' effects).0), effects)

  -- The reads of a connection, the empty one at its end.
  unfoldable pub read_loop : ChatServer × Wire → List Bytes → (ChatServer × Wire) × List ChatEffect
  read_loop x [] = (x, [])
  read_loop x (raw ∷ raws) =
      let (x', effects) = read_step x raw in
      let (x'', more) = read_loop x' raws in
      if goes_on c x && truthy raw then (x'', effects ++ more) else (x, [])

  handle_lines-append :
      (s : ChatServer) (ls ms : List Bytes)
      → let (s', effects) = handle_lines decode env s c ls in
        let (s'', more) = handle_lines decode env s' c ms in
        handle_lines decode env s c (ls ++ ms) ≡ (s'', effects ++ more)
  unfolding handle_lines
  handle_lines-append s [] ms = refl
  handle_lines-append s (l ∷ ls) ms =
      let (s', effects) = handle_text env s c (decode l) in
      let (t, first) = handle_lines decode env s' c ls in
      let (u, second) = handle_lines decode env t c ms in
      rw (handle_lines-append s' ls ms, append_assoc effects first second) refl

  perform_all-append :
      (w : Wire) (es fs : List ChatEffect)
      → (perform_all encode c w (es ++ fs)).0
        ≡ (perform_all encode c (perform_all encode c w es).0 fs).0
  unfolding perform_all
  perform_all-append w [] fs = refl
  perform_all-append w (e ∷ es) fs = perform_all-append (perform encode c w e).0 es fs

  receive-write_with :
      (w : Wire) (k : Option PeerchatCipher) (bytes raw : Bytes)
      → receive (write_with w k bytes).0 raw
        ≡ ((write_with (receive w raw).0 k bytes).0, (receive w raw).1)
  unfolding receive write_with
  receive-write_with w none bytes raw = refl
  receive-write_with w (some k) bytes raw = refl

  receive-if_write :
      (on : Bool) (w : Wire) (k : Option PeerchatCipher) (bytes raw : Bytes)
      → receive (if on then write_with w k bytes else (w, bytes)).0 raw ≡ (
        (if on then write_with (receive w raw).0 k bytes else ((receive w raw).0, bytes)).0,
        (receive w raw).1,
      )
  unfolding receive
  receive-if_write true w k bytes raw = receive-write_with w k bytes raw
  receive-if_write false w k bytes raw = refl

  receive-write :
      (w : Wire) (bytes raw : Bytes)
      → receive (write w bytes).0 raw ≡ ((write (receive w raw).0 bytes).0, (receive w raw).1)
  unfolding write receive
  receive-write w bytes raw = receive-if_write w.encryption_enabled w w.send_cipher bytes raw

  -- Writing does not touch what the reads depend on, unless the connection gets new ciphers.
  receive-perform :
      (w : Wire) (e : ChatEffect) (raw : Bytes)
      → KeepsCipher c e
      → receive (perform encode c w e).0 raw
        ≡ ((perform encode c (receive w raw).0 e).0, (receive w raw).1)
  unfolding receive perform write write_with
  receive-perform w (deliver d m) raw keep = elim (Bool-cases (c == d)) [
    | inl mine ↦ rw (perform, mine) (receive-write w (line_bytes encode m) raw)
    | inr other ↦ rw (perform, other) refl
  ]
  receive-perform w (ciphers d k j) raw keep = rw keep refl
  receive-perform w (encrypts d) raw keep = elim (Bool-cases (c == d)) [
    | inl mine ↦ rw mine refl
    | inr other ↦ rw other refl
  ]

  receive-perform_all :
      (w : Wire) (es : List ChatEffect) (raw : Bytes)
      → All (KeepsCipher c) es
      → receive (perform_all encode c w es).0 raw
        ≡ ((perform_all encode c (receive w raw).0 es).0, (receive w raw).1)
  unfolding perform_all
  receive-perform_all w [] raw keep = refl
  receive-perform_all w (e ∷ es) raw keep =
      rw
        (receive-perform_all (perform encode c w e).0 es raw keep.1, receive-perform w e raw keep.0)
        refl

  -- Two reads are one read of both, if the lines of the first one bring no new ciphers.
  read_step-append :
      (x : ChatServer × Wire) (xs ys : Bytes)
      → All (KeepsCipher c) (read_step x xs).1
      → let (x', effects) = read_step x xs in
        let (x'', more) = read_step x' ys in read_step x (xs ++ ys) ≡ (x'', effects ++ more)
  unfolding read_step
  read_step-append (s, w) xs ys keep =
      let (w', ls) = receive w xs in
      let (w'', ms) = receive w' ys in
      let (s', effects) = handle_lines decode env s c ls in
      let (s'', more) = handle_lines decode env s' c ms in
      rw
        (
          receive-append w xs ys,
          receive-perform_all w' effects ys keep,
          handle_lines-append s ls ms,
          perform_all-append w'' effects more,
        )
        refl

  -- The loop behind a read.
  abbrev follow :
      (ChatServer × Wire) × List ChatEffect → List Bytes → (ChatServer × Wire) × List ChatEffect
  follow (x, effects) raws = ((read_loop x raws).0, effects ++ (read_loop x raws).1)

  read_loop_runs :
      (x : ChatServer × Wire) (b : ℕ) (raw : Bytes) (raws : List Bytes)
      → goes_on c x ≡ true
      → read_loop x ((b ∷ raw) ∷ raws) ≡ follow (read_step x (b ∷ raw)) raws
  unfolding read_loop
  read_loop_runs x b raw raws on = rw (read_loop, on) refl

  read_loop_stops :
      (x : ChatServer × Wire) (raw : Bytes) (raws : List Bytes)
      → goes_on c x ≡ false
      → read_loop x (raw ∷ raws) ≡ (x, [])
  unfolding read_loop
  read_loop_stops x raw raws off = rw (read_loop, off) refl

  -- Take a piece of the incoming bytes of an encrypted connection that is read in two parts, neither of
  -- them empty, and nothing but the connection's own commands in between. If the commands in the first
  -- part leave the client connected and give it no new ciphers, then the loop ends in the same state of
  -- the server, the ciphers and the buffer, with the same effects in the same order, as if the piece was
  -- read at once, whatever is read before and behind it.
  pub read_loop-append :
      (x : ChatServer × Wire) (b d : ℕ) (xs ys : Bytes) (raws : List Bytes)
      → goes_on c (read_step x (b ∷ xs)).0 ≡ true
      → All (KeepsCipher c) (read_step x (b ∷ xs)).1
      → read_loop x ((b ∷ xs) ∷ (d ∷ ys) ∷ raws) ≡ read_loop x (((b ∷ xs) ++ (d ∷ ys)) ∷ raws)
  read_loop-append x b d xs ys raws later keep = elim (Bool-cases (goes_on c x)) [
    | inl on ↦
        let (x', effects) = read_step x (b ∷ xs) in
        let (x'', more) = read_step x' (d ∷ ys) in
        rw
          (
            read_loop_runs x b xs ((d ∷ ys) ∷ raws) on,
            read_loop_runs x' d ys raws later,
            read_loop_runs x b (xs ++ d ∷ ys) raws on,
            read_step-append x (b ∷ xs) (d ∷ ys) keep,
            append_assoc effects more (read_loop x'' raws).1,
          )
          refl
    | inr off ↦
        rw (read_loop_stops x (b ∷ xs) ((d ∷ ys) ∷ raws) off)
          (sym (read_loop_stops x ((b ∷ xs) ++ (d ∷ ys)) raws off))
  ]
