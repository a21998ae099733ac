-- ===== src/Master/Filters.antt =====
-- generate_sql_where_clause and apply_filters_to_dict of app/servers/query_master_parsing.py. The type
-- of the values is a parameter, since they are numbers of Python or texts; `==` is theirs, and
-- `sql_value` writes a value as SQL.
use kirov_server_emulator.Prelude.Strings.{is_set, shown}
use kirov_server_emulator.Prelude.Dict.{Dict, get}
use kirov_server_emulator.Prelude.{
  Bool, Bool-cases, Comparable, List, Option, [], false, if◌then◌else◌, inl, inr, list_eq, nat_eq,
  none, not, option_eq, pair_eq, refl, some, sym, true, ◌&&◌, ◌++◌, ◌==◌, ◌||◌, ◌∙◌, ◌∷◌, ◌≡◌,
}
use kirov_server_emulator.Prelude.Text.{Text, codes, join}

pub record Condition {ℓ} (V : Type ℓ) : Type ℓ where
  pub field : Text
  pub operator : Text
  pub value : V
  pub logic : Option Text

module _ {ℓ} {V : Type ℓ} ⦃e : Comparable V⦄ where
  abbrev pub matches : Text → V → V → Bool
  matches op server_value value =
      ((op == codes "=") && (server_value == value))
      || ((op == codes "!=") && not (server_value == value))

  abbrev pub matches_found : Option V → Text → V → Bool
  matches_found none op value = false
  matches_found (some server_value) op value = matches op server_value value

  -- The loop over the filters, with `break` at the first that does not match.
  unfoldable pub matches_all_conditions : Dict Text V → List (Condition V) → Bool
  matches_all_conditions server [] = true
  matches_all_conditions server (f ∷ fs) =
      let rest = matches_all_conditions server fs in
      if matches_found (get server f.field) f.operator f.value then rest else false

  unfoldable pub matching : List (Dict Text V) → List (Condition V) → List (Dict Text V)
  unfolding matches_all_conditions
  matching [] filters = []
  matching (server ∷ servers) filters =
      let rest = matching servers filters in
      if matches_all_conditions server filters then server ∷ rest else rest

  unfoldable pub apply_filters_to_dict :
      List (Dict Text V) → List (Condition V) → List (Dict Text V)
  unfolding matching
  apply_filters_to_dict servers [] = servers
  apply_filters_to_dict servers (f ∷ fs) = matching servers (f ∷ fs)

  -- The condition as if it stood first in the filter.
  abbrev pub with_logic : Option Text → Condition V → Condition V
  with_logic logic f = record {
    field = f.field;
    operator = f.operator;
    value = f.value;
    logic = logic;
  }

  matches_all_conditions-append :
      (server : Dict Text V) (fs gs : List (Condition V))
      → matches_all_conditions server (fs ++ gs)
        ≡ (matches_all_conditions server fs && matches_all_conditions server gs)
  unfolding matches_all_conditions
  matches_all_conditions-append server [] gs = refl
  matches_all_conditions-append server (f ∷ fs) gs =
      elim (Bool-cases (matches_found (get server f.field) f.operator f.value)) [
        | inl good ↦ rw (good, matches_all_conditions-append server fs gs) refl
        | inr bad ↦ rw bad refl
      ]

  matching-append :
      (servers : List (Dict Text V)) (fs gs : List (Condition V))
      → matching servers (fs ++ gs) ≡ matching (matching servers fs) gs
  unfolding matching
  matching-append [] fs gs = refl
  matching-append (server ∷ servers) fs gs = elim (Bool-cases (matches_all_conditions server fs)) [
    | inl good ↦
        rw (matches_all_conditions-append server fs gs, good, matching-append servers fs gs) refl
    | inr bad ↦
        rw (matches_all_conditions-append server fs gs, bad, matching-append servers fs gs) refl
  ]

  matching_none : (servers : List (Dict Text V)) → matching servers [] ≡ servers
  unfolding matching matches_all_conditions
  matching_none [] = refl
  matching_none (server ∷ servers) = rw (matching_none servers) refl

  apply_filters_to_dict-matching :
      (servers : List (Dict Text V)) (fs : List (Condition V))
      → apply_filters_to_dict servers fs ≡ matching servers fs
  unfolding apply_filters_to_dict
  apply_filters_to_dict-matching servers [] = sym (matching_none servers)
  apply_filters_to_dict-matching servers (f ∷ fs) = refl

  matching-with_logic :
      (servers : List (Dict Text V)) (f : Condition V) (logic : Option Text)
      → matching servers (with_logic logic f ∷ []) ≡ matching servers (f ∷ [])
  unfolding matching matches_all_conditions
  matching-with_logic [] f logic = refl
  matching-with_logic (server ∷ servers) f logic = rw (matching-with_logic servers f logic) refl

  -- A condition that is joined by OR narrows the servers as one that is joined by AND does: whatever
  -- its operator of logic is, a filter with one more condition gives the servers that the filter
  -- before gives and that satisfy this condition alone.
  pub apply_filters_to_dict-append :
      (servers : List (Dict Text V)) (fs : List (Condition V)) (f : Condition V)
      (logic : Option Text)
      → apply_filters_to_dict servers (fs ++ with_logic logic f ∷ [])
        ≡ apply_filters_to_dict (apply_filters_to_dict servers fs) (f ∷ [])
  unfolding apply_filters_to_dict matching
  apply_filters_to_dict-append servers fs f logic =
      apply_filters_to_dict-matching servers (fs ++ with_logic logic f ∷ [])
      ∙ matching-append servers fs (with_logic logic f ∷ [])
      ∙ rw (apply_filters_to_dict-matching servers fs)
          (matching-with_logic (matching servers fs) f logic)

module _ {ℓ} {V : Type ℓ} (sql_value : V → Text) where
  abbrev pub condition_clause : Condition V → Text
  condition_clause f =
      codes "`" ++ (f.field ++ (codes "` " ++ (f.operator ++ (codes " " ++ sql_value f.value))))

  abbrev pub joined_clause : Option Text → Text → Text
  joined_clause logic clause = if is_set logic then shown logic ++ (codes " " ++ clause) else clause

  unfoldable pub clauses : List (Condition V) → List Text
  clauses [] = []
  clauses (f ∷ fs) = joined_clause f.logic (condition_clause f) ∷ clauses fs

  unfoldable pub generate_sql_where_clause : List (Condition V) → Text
  unfolding clauses join
  generate_sql_where_clause [] = []
  generate_sql_where_clause (f ∷ fs) = codes "WHERE " ++ join b' ' (clauses (f ∷ fs))
