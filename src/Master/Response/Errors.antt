-- ===== src/Master/Response/Errors.antt =====
-- A number that does not fit the byte of its field: `except ValueError` does not catch struct.error.
use kirov_server_emulator.Prelude.Dict.{Dict}
use kirov_server_emulator.NatNeg.Packets.{to_byte}
use kirov_server_emulator.Master.Response.{
  GameEntry, field_type_of, game_field_value, immediate, packed_int, typed_values,
  build_game_result_message, game_addresses, result_type_full, str0, with_length,
}
use kirov_server_emulator.Prelude.{
  Bool-cases, List, Option, [], arith, contains, false, inl, inr, le→ltb_false, list_beq_iff,
  list_eq, nat_eq, none, option_eq, pair_eq, refl, some, true, ℕ, ◌==◌, ◌∷◌, ◌≡◌, ◌≤◌,
  if◌then◌else◌, ◌++◌,
}
use kirov_server_emulator.Prelude.Text.{Text, int_of}
use kirov_server_emulator.Prelude.Words.{Bytes, ◌>>=◌}

immediate-none :
    (value : Text) (n : ℕ) → int_of value ≡ some (false, n) → 256 ≤ n → immediate value ≡ none
unfolding immediate packed_int to_byte int_of
immediate-none [] n h large = absurd (ground (arith, h))
immediate-none (c ∷ value) n h large = rw (h, le→ltb_false n 256 large) refl

or_none {ℓ κ} :
    {A : Type ℓ} {B : Type κ} (a : Option A) (f : A → Option B)
    → ((x : A) → f x ≡ none)
    → (a >>= f) ≡ none
or_none none f h = refl
or_none (some a) f h = h a

typed_values-none :
    (enc : Text → Bytes) (game : GameEntry) (types : Dict Text ℕ) (f : Text) (n : ℕ)
    → field_type_of types f ≡ 1
    → int_of (game_field_value game f) ≡ some (false, n)
    → 256 ≤ n
    → (fs : List Text) → contains fs f ≡ true
    → typed_values enc game types fs ≡ none
unfolding typed_values contains
typed_values-none enc game types f n byte_field value large [] h = absurd (ground (arith, h))
typed_values-none enc game types f n byte_field value large (g ∷ fs) h =
    elim (Bool-cases (g == f)) [
      | inl same ↦
          let e : g ≡ f = (list_beq_iff g f).0 same in
          rw (e, byte_field, immediate-none (game_field_value game f) n value large) refl
      | inr other ↦
          let later : contains fs f ≡ true = ground (arith, h, other) in
          or_none
            (if field_type_of types g == 1
              then immediate (game_field_value game g)
              else some (str0 enc (game_field_value game g)))
            (λ v. typed_values enc game types fs >>= λ rest. some (v ++ rest))
            (λ v. rw (typed_values-none enc game types f n byte_field value large fs later) refl)
    ]

-- A game cannot be described in the new format once a field of the type of a byte has a number above
-- 255: the call raises, whatever the other fields are, instead of writing a zero.
pub build_game_result_message_raises :
    (enc : Text → Bytes) (inet_aton : Text → Option Bytes) (game : GameEntry) (fs : List Text)
    (types : Dict Text ℕ) (f : Text) (n : ℕ)
    → contains fs f ≡ true
    → field_type_of types f ≡ 1
    → int_of (game_field_value game f) ≡ some (false, n)
    → 256 ≤ n
    → build_game_result_message enc inet_aton game fs types ≡ none
unfolding build_game_result_message
build_game_result_message_raises enc inet_aton game fs types f n asked byte_field value large =
    or_none (game_addresses enc inet_aton game)
      (λ addresses. typed_values enc game types fs >>= λ values.
        with_length (2 ∷ result_type_full ∷ addresses ++ values))
      (λ addresses. rw (typed_values-none enc game types f n byte_field value large fs asked) refl)
