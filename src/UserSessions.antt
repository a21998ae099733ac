-- ===== src/UserSessions.antt =====
-- SessionManager of app/servers/sessions.py. A connection is a number. `persona_of` is the attribute
-- `persona_id` of each, where `none` says that it is missing or None.
use kirov_server_emulator.Prelude.Dict.{Dict, get, has, put, remove}
use kirov_server_emulator.Prelude.{
  Bool, List, Option, [], false, if◌then◌else◌, list_eq, nat_eq, none, option_eq, pair_eq, some,
  true, ℕ, ◌==◌, ◌∷◌,
}
use kirov_server_emulator.Prelude.Text.{Text}
pub mod Replaced

pub record SessionManager : Type 0 where
  pub active_users : Dict Text ℕ
  pub users_by_persona : Dict ℕ ℕ

-- The `persona_id` where it is there and true.
abbrev pub true_persona : Option ℕ → Option ℕ
true_persona none = none
true_persona (some i) = if i == 0 then none else some i

abbrev pub put_persona : Dict ℕ ℕ → Option ℕ → ℕ → Dict ℕ ℕ
put_persona d none p = d
put_persona d (some i) p = put d i p

abbrev pub remove_persona : Dict ℕ ℕ → Option ℕ → Dict ℕ ℕ
remove_persona d none = d
remove_persona d (some i) = remove d i

module _ (persona_of : ℕ → Option ℕ) where
  unfoldable pub register_user : SessionManager → Text → ℕ → SessionManager
  unfolding put
  register_user m sesskey p = record {
    active_users = put m.active_users sesskey p;
    users_by_persona = put_persona m.users_by_persona (true_persona (persona_of p)) p;
  }

  abbrev pub unregister_found : SessionManager → Text → Option ℕ → SessionManager
  unregister_found m sesskey none = m
  unregister_found m sesskey (some p) = record {
    active_users = remove m.active_users sesskey;
    users_by_persona = remove_persona m.users_by_persona (true_persona (persona_of p));
  }

  unfoldable pub unregister_user : SessionManager → Text → SessionManager
  unfolding get remove
  unregister_user m sesskey = unregister_found m sesskey (get m.active_users sesskey)

unfoldable pub get_user_by_persona_id : SessionManager → ℕ → Option ℕ
unfolding get
get_user_by_persona_id m persona_id = get m.users_by_persona persona_id

unfoldable pub is_user_online : SessionManager → ℕ → Bool
unfolding get
is_user_online m persona_id = has m.users_by_persona persona_id

-- The result, and the message with the connection that it is written to.
abbrev pub sent_message : Option ℕ → Text → Bool × List (ℕ × Text)
sent_message none message = (false, [])
sent_message (some p) message = (true, (p, message) ∷ [])

unfoldable pub send_to_user : SessionManager → Text → Text → Bool × List (ℕ × Text)
unfolding get
send_to_user m sesskey message = sent_message (get m.active_users sesskey) message

-- `has_transport` is hasattr(protocol_instance, "transport")
abbrev pub with_transport : (ℕ → Bool) → Option ℕ → Option ℕ
with_transport has_transport none = none
with_transport has_transport (some p) = if has_transport p then some p else none

unfoldable pub send_to_persona : (ℕ → Bool) → SessionManager → ℕ → Text → Bool × List (ℕ × Text)
unfolding get
send_to_persona has_transport m persona_id message =
    sent_message (with_transport has_transport (get m.users_by_persona persona_id)) message
