-- ===== src/Master/HeartbeatBody/RoundTrip.antt =====
-- A body without players is read back.
use kirov_server_emulator.Prelude.Strings.{truthy}
use kirov_server_emulator.Prelude.{
  All, List, [], list_eq, nat_eq, option_eq, pair_eq, refl, some, true, ◌++◌, ◌∷◌, ◌≡◌,
}
use kirov_server_emulator.Prelude.Dict.{Dict, put}
use kirov_server_emulator.Master.HeartbeatBody.{find_players, parse_heartbeat_body, read_pairs}
use kirov_server_emulator.Prelude.Text.{Text, Free, split, split-append}
use kirov_server_emulator.Prelude.Words.{Bytes}

-- key, zero, value, zero, and so on, with an empty key at the end
unfoldable pub body_bytes : (Text → Bytes) → List (Text × Text) → Bytes
body_bytes enc [] = 0 ∷ []
body_bytes enc ((k, v) ∷ ps) = enc k ++ 0 ∷ (enc v ++ 0 ∷ body_bytes enc ps)

-- The pairs as a dictionary, where a later value replaces an earlier one.
unfoldable pub all_put : Dict Text Text → List (Text × Text) → Dict Text Text
unfolding put
all_put info [] = info
all_put info ((k, v) ∷ ps) = all_put (put info k v) ps

-- The key is not empty, and neither it nor the value has a zero byte.
abbrev pub IsPair : (Text → Bytes) → Text × Text → Type 0
IsPair enc (k, v) = Free 0 (enc k) × (truthy (enc k) ≡ true) × Free 0 (enc v)

module _ (enc : Text → Bytes) (dec : Bytes → Text) (inverse : (s : Text) → dec (enc s) ≡ s) where
  read_pairs-key :
      (info : Dict Text Text) (key : Bytes) (value : Bytes) (tokens : List Bytes)
      → truthy key ≡ true
      → read_pairs dec info (key ∷ value ∷ tokens)
        ≡ read_pairs dec (put info (dec key) (dec value)) tokens
  unfolding read_pairs
  read_pairs-key info [] value tokens h = cc
  read_pairs-key info (b ∷ key) value tokens h = refl

  read_pairs-body_bytes :
      (info : Dict Text Text) (ps : List (Text × Text))
      → All (IsPair enc) ps
      → read_pairs dec info (split 0 (body_bytes enc ps)) ≡ (all_put info ps, some ([] ∷ []))
  unfolding body_bytes all_put read_pairs split
  read_pairs-body_bytes info [] h = refl
  read_pairs-body_bytes info ((k, v) ∷ ps) h =
      rw
        (
          split-append 0 (enc k) (enc v ++ 0 ∷ body_bytes enc ps) h.0.0,
          split-append 0 (enc v) (body_bytes enc ps) h.0.2,
          read_pairs-key info (enc k) (enc v) (split 0 (body_bytes enc ps)) h.0.1,
          inverse k,
          inverse v,
        )
        (read_pairs-body_bytes (put info k v) ps h.1)

  pub parse_heartbeat_body-body_bytes :
      (show_players : List (Dict Text Text) → Text) (ps : List (Text × Text))
      → All (IsPair enc) ps
      → parse_heartbeat_body dec show_players (body_bytes enc ps) ≡ all_put [] ps
  unfolding parse_heartbeat_body find_players
  parse_heartbeat_body-body_bytes show_players ps h = rw (read_pairs-body_bytes [] ps h) refl
