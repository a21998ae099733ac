-- ===== src/Master/Matching.antt =====
-- The filters of app/servers/query_master_tcp.py on games: `_game_matches_filters` and `_filter_games`
-- of QueryMasterHandler. `none` is the TypeError of a text compared with a float.
use kirov_server_emulator.Master.Filters.{Condition}
use kirov_server_emulator.Prelude.Dict.{get}
use kirov_server_emulator.Prelude.Words.{◌>>=◌}
use kirov_server_emulator.Master.Response.{GameEntry}
use kirov_server_emulator.Master.FilterParser.{FilterValue, float_value, int_value, str_value}
use kirov_server_emulator.Prelude.{
  Bool, List, Option, [], false, if◌then◌else◌, list_eq, ltb, nat_beq, nat_eq, none, not, option_eq,
  pair_eq, some, true, ℕ, ◌&&◌, ◌+◌, ◌==◌, ◌||◌, ◌∷◌,
}
use kirov_server_emulator.Prelude.Text.{Text, codes, int_of}

abbrev positive_part : Bool × ℕ → ℕ
positive_part (minus, n) = if minus then 0 else n

abbrev negative_part : Bool × ℕ → ℕ
negative_part (minus, n) = if minus then n else 0

-- a < b and a == b on integers
abbrev pub int_lt : Bool × ℕ → Bool × ℕ → Bool
int_lt a b = ltb (positive_part a + negative_part b) (positive_part b + negative_part a)

abbrev pub int_eq : Bool × ℕ → Bool × ℕ → Bool
int_eq a b = nat_beq (positive_part a + negative_part b) (positive_part b + negative_part a)

-- s < t on texts
unfoldable pub text_lt : Text → Text → Bool
text_lt s [] = false
text_lt [] (d ∷ t) = true
text_lt (c ∷ s) (d ∷ t) = ltb c d || (nat_beq c d && text_lt s t)

-- The chain of operators, from the three comparisons; an operator that is not in it is passed over.
abbrev pub holds : Text → Bool → Bool → Bool → Bool
holds op equal below above =
    if (op == codes "=") || (op == codes "==")
    then equal
    else if op == codes "!="
    then not equal
    else if op == codes "<"
    then below
    else if op == codes ">"
    then above
    else if op == codes "<="
    then not above
    else if op == codes ">="
    then not below
    else true

-- A text and a float are never equal, and comparing their order is TypeError.
abbrev pub float_holds : Text → Option Bool
float_holds op =
    if (op == codes "<") || (op == codes ">") || (op == codes "<=") || (op == codes ">=")
    then none
    else some (holds op false false false)

abbrev pub int_holds : Text → Option (Bool × ℕ) → Bool × ℕ → Bool
int_holds op none expected = false
int_holds op (some actual) expected =
    holds op (int_eq actual expected) (int_lt actual expected) (int_lt expected actual)

abbrev pub value_holds : Text → Text → FilterValue → Option Bool
value_holds op actual (int_value n) = some (int_holds op (int_of actual) n)
value_holds op actual (float_value s) = float_holds op
value_holds op actual (str_value s) =
    some (holds op (actual == s) (text_lt actual s) (text_lt s actual))

abbrev pub condition_holds : Option Text → Condition FilterValue → Option Bool
condition_holds none f = some false
condition_holds (some actual) f = value_holds f.operator actual f.value

unfoldable pub game_matches_filters : GameEntry → List (Condition FilterValue) → Option Bool
unfolding text_lt get
game_matches_filters game [] = some true
game_matches_filters game (f ∷ fs) = do
  let rest : Option Bool = game_matches_filters game fs
  good ← condition_holds (get game.fields f.field) f
  if good then rest else some false

unfoldable pub matching_games :
    List GameEntry → List (Condition FilterValue) → Option (List GameEntry)
unfolding game_matches_filters
matching_games [] filters = some []
matching_games (game ∷ games) filters = do
  good ← game_matches_filters game filters
  rest ← matching_games games filters
  some (if good then game ∷ rest else rest)

unfoldable pub filter_games :
    List GameEntry → List (Condition FilterValue) → Option (List GameEntry)
unfolding matching_games
filter_games games [] = some games
filter_games games (f ∷ fs) = matching_games games (f ∷ fs)
