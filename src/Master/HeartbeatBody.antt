-- ===== src/Master/HeartbeatBody.antt =====
-- The body of a heartbeat, of app/servers/query_master_udp.py. `utf8_decode` is
-- bytes.decode("utf-8", errors="ignore"), and the list of players in `info` is held by its text, which
-- `show_players` gives.
use kirov_server_emulator.Cipher.Arrays.{count}
use kirov_server_emulator.Prelude.Dict.{Dict, put}
use kirov_server_emulator.Prelude.Strings.{truthy}
use kirov_server_emulator.Prelude.{
  Bool, List, Option, [], drop, false, if◌then◌else◌, leb, length, list_eq, ltb, nat_beq, nat_eq,
  none, not, option_eq, pair_eq, some, suc, zero, ℕ, ◌&&◌, ◌++◌, ◌==◌, ◌∷◌,
}
use kirov_server_emulator.Prelude.Text.{Text, codes, split}
use kirov_server_emulator.Prelude.Words.{Bytes}
pub mod RoundTrip

module _ (utf8_decode : Bytes → Text) where
  -- The pairs up to an empty key, and the tokens behind that key.
  unfoldable pub read_pairs : Dict Text Text → List Bytes → Dict Text Text × Option (List Bytes)
  unfolding put
  read_pairs info [] = (info, none)
  read_pairs info (last ∷ []) = (info, none)
  read_pairs info ([] ∷ value ∷ tokens) = (info, some (value ∷ tokens))
  read_pairs info ((b ∷ key) ∷ value ∷ tokens) =
      read_pairs (put info (utf8_decode (b ∷ key)) (utf8_decode value)) tokens

  -- name.endswith("_")
  unfoldable pub ends_with_underscore : Text → Bool
  ends_with_underscore [] = false
  ends_with_underscore (c ∷ []) = nat_beq c b'_'
  ends_with_underscore (c ∷ d ∷ s) = ends_with_underscore (d ∷ s)

  abbrev keep_before : ℕ → Text → Text
  keep_before c [] = if nat_beq c b'_' then [] else c ∷ []
  keep_before c (d ∷ s) = c ∷ d ∷ s

  -- name.rstrip("_")
  unfoldable pub strip_underscores : Text → Text
  strip_underscores [] = []
  strip_underscores (c ∷ s) = keep_before c (strip_underscores s)

  -- The names of the fields, and the values where an empty token ends the names.
  unfoldable pub read_names : List Text → List Bytes → List Text × Option (List Bytes)
  unfolding ends_with_underscore strip_underscores
  read_names names [] = (names, none)
  read_names names (token ∷ tokens) =
      let name = utf8_decode token in
      let more = read_names (names ++ strip_underscores name ∷ []) tokens in
      let rest = read_names names tokens in
      if ends_with_underscore name
      then more
      else if not (truthy name) && not (length names == 0)
      then (names, some tokens)
      else rest

  unfoldable pub read_player : Dict Text Text → List Text → List Bytes → Dict Text Text
  unfolding put
  read_player player [] values = player
  read_player player (name ∷ names) [] = player
  read_player player (name ∷ names) (value ∷ values) =
      read_player (put player name (utf8_decode value)) names values

  unfoldable pub read_players : ℕ → List Text → List Bytes → List (Dict Text Text)
  unfolding read_player
  read_players zero names values = []
  read_players (suc count) names values =
      let rest = read_players count names (drop (length names) values) in
      if ltb (length values) (length names) then [] else read_player [] names values ∷ rest

  abbrev values_or : Option (List Bytes) → List Bytes → List Bytes
  values_or none tokens = tokens
  values_or (some values) tokens = values

  unfoldable pub parse_player_tokens : List Bytes → ℕ → List (Dict Text Text)
  unfolding read_names read_players
  parse_player_tokens tokens player_count =
      let (names, values) = read_names [] tokens in
      if length names == 0 then [] else read_players player_count names (values_or values tokens)

  unfoldable pub skip_empty : List Bytes → List Bytes
  skip_empty [] = []
  skip_empty ([] ∷ tokens) = skip_empty tokens
  skip_empty ((b ∷ t) ∷ tokens) = (b ∷ t) ∷ tokens

  -- The players from the first token that begins with a number from 1 to 12.
  unfoldable pub find_players : List Bytes → List (Dict Text Text)
  unfolding parse_player_tokens skip_empty
  find_players [] = []
  find_players ([] ∷ tokens) = find_players tokens
  find_players ((count ∷ t) ∷ tokens) =
      let rest = find_players tokens in
      if leb 1 count && leb count 12
      then parse_player_tokens (skip_empty (t ∷ tokens)) count
      else rest

  module _ (show_players : List (Dict Text Text) → Text) where
    abbrev pub with_players : Dict Text Text → List (Dict Text Text) → Dict Text Text
    with_players info [] = info
    with_players info (p ∷ ps) = put info (codes "_players") (show_players (p ∷ ps))

    abbrev pub with_section : Dict Text Text → Option (List Bytes) → Dict Text Text
    with_section info none = info
    with_section info (some tokens) = with_players info (find_players tokens)

    unfoldable pub parse_heartbeat_body : Bytes → Dict Text Text
    unfolding split read_pairs find_players put
    parse_heartbeat_body body =
        let (info, section) = read_pairs [] (split 0 body) in with_section info section
