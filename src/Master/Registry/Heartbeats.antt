-- ===== src/Master/Registry/Heartbeats.antt =====
-- What a heartbeat changes.

use kirov_server_emulator.Master.Response.{GameEntry, new_game}
use kirov_server_emulator.Master.Registry.Address.{le32, public_address-signed_le32, signed_le32}
use kirov_server_emulator.Master.Registry.{
  GameSessionRegistry, get_game, int_or, public_address, register_game, text_at,
}
use kirov_server_emulator.Prelude.{
  Bool, Option-cases, [], false, if◌then◌else◌, inl, inr, list_eq, nat_eq, option_eq, pair_eq, refl,
  some, ℕ, ◌<◌, ◌==◌, ◌∷◌, ◌≡◌, ap, arith, none, sym, ◌∙◌, Option,
}
use kirov_server_emulator.NatNeg.Client.{public_ip, public_port}
use kirov_server_emulator.Prelude.Dict.{Dict, get, get-put, put}
use kirov_server_emulator.Prelude.Text.{Text, codes, int_of}
use kirov_server_emulator.Prelude.Words.{Bytes, IsBytes}

-- The game of a heartbeat with the numbers that its texts stand for.
abbrev pub game_of : Text → Bool × ℕ → Bool × ℕ → Text → ℕ → Dict Text Text → GameEntry
game_of public_ip public_port private_port source port info =
    new_game public_ip public_port (text_at (get info (codes "localip0")) source) private_port
      (some source) (some (false, port)) info

register_game-some :
    (inet_ntoa : Bytes → Text) (r : GameSessionRegistry) (client_id : ℕ) (source : Text) (port : ℕ)
    (info : Dict Text Text) (public_port private_port : Bool × ℕ)
    → int_or (get info (codes "hostport")) (false, port) ≡ some public_port
    → int_or (get info (codes "localport")) public_port ≡ some private_port
    → register_game inet_ntoa r client_id source port info
      ≡ some (record {
        sessions = put r.sessions client_id (
            game_of
              (public_address inet_ntoa (get info (codes "publicip")) source)
              public_port
              private_port
              source
              port
              info);
      })
unfolding register_game new_game
register_game-some inet_ntoa r client_id source port info public_port private_port e1 e2 =
    elim (Option-cases (get r.sessions client_id)) [
      | inl new ↦ rw (e1, e2, new) refl
      | inr (existing, known) ↦ rw (e1, e2, known) refl
    ]

-- A heartbeat that sends its address as the signed little-endian integer of the four bytes, and whose
-- ports are numbers, is stored under its client id with this address, these ports and the source of
-- the packet, and no other game changes. A missing port is the one of the source, or the public one.
-- The address is not 0.0.0.0.
pub register_game_lem :
    (inet_ntoa : Bytes → Text) (r : GameSessionRegistry) (client_id : ℕ) (source : Text) (port : ℕ)
    (info : Dict Text Text) (public_port private_port : Bool × ℕ) (s : Text) (a b c d : ℕ)
    → get info (codes "publicip") ≡ some s
    → IsBytes (a ∷ b ∷ c ∷ d ∷ [])
    → 0 < le32 a b c d
    → int_of s ≡ some (signed_le32 a b c d)
    → int_or (get info (codes "hostport")) (false, port) ≡ some public_port
    → int_or (get info (codes "localport")) public_port ≡ some private_port
    → let game =
        game_of (inet_ntoa (a ∷ b ∷ c ∷ d ∷ [])) public_port private_port source port info in
      (r' : GameSessionRegistry) × (register_game inet_ntoa r client_id source port info ≡ some r')
      × ((j : ℕ) → get_game r' j ≡ (if client_id == j then some game else get_game r j))
unfolding get_game
register_game_lem inet_ntoa r client_id source port info public_port private_port s a b c d told
      bytes positive reads e1 e2 =
    (
      _,
      register_game-some inet_ntoa r client_id source port info public_port private_port e1 e2,
      λ j.
          rw (told, public_address-signed_le32 inet_ntoa s source a b c d bytes positive reads)
            (get-put r.sessions client_id _ j),
    )

register_game-none :
    (inet_ntoa : Bytes → Text) (r : GameSessionRegistry) (client_id : ℕ) (source : Text) (port : ℕ)
    (info : Dict Text Text)
    → int_or (get info (codes "hostport")) (false, port) ≡ none
    → register_game inet_ntoa r client_id source port info ≡ none
unfolding register_game
register_game-none inet_ntoa r client_id source port info bad = rw bad refl

register_game-none_private :
    (inet_ntoa : Bytes → Text) (r : GameSessionRegistry) (client_id : ℕ) (source : Text) (port : ℕ)
    (info : Dict Text Text) (public_port : Bool × ℕ)
    → int_or (get info (codes "hostport")) (false, port) ≡ some public_port
    → int_or (get info (codes "localport")) public_port ≡ none
    → register_game inet_ntoa r client_id source port info ≡ none
unfolding register_game
register_game-none_private inet_ntoa r client_id source port info public_port e1 bad =
    rw (e1, bad) refl

abbrev sessions_of : Option GameSessionRegistry → Dict ℕ GameEntry
sessions_of none = []
sessions_of (some r) = r.sessions

-- A heartbeat that is stored puts one game under its client id.
pub register_game-put :
    (inet_ntoa : Bytes → Text) (r r' : GameSessionRegistry) (client_id : ℕ) (source : Text)
    (port : ℕ) (info : Dict Text Text)
    → register_game inet_ntoa r client_id source port info ≡ some r'
    → (game : GameEntry) × (r'.sessions ≡ put r.sessions client_id game)
register_game-put inet_ntoa r r' client_id source port info h =
    elim (Option-cases (int_or (get info (codes "hostport")) (false, port))) [
      | inl bad ↦
          let none_made : register_game inet_ntoa r client_id source port info ≡ none =
            register_game-none inet_ntoa r client_id source port info bad in
          absurd (ground (arith, none_made, h))
      | inr (public_port, e1) ↦
          elim (Option-cases (int_or (get info (codes "localport")) public_port)) [
            | inl bad ↦
                let none_made : register_game inet_ntoa r client_id source port info ≡ none =
                  register_game-none_private inet_ntoa r client_id source port info public_port e1
                    bad in
                absurd (ground (arith, none_made, h))
            | inr (private_port, e2) ↦
                let made =
                  register_game-some inet_ntoa r client_id source port info public_port private_port
                    e1 e2 in
                (_, ap sessions_of (sym h ∙ made))
          ]
    ]
