-- ===== src/Cipher/EncTypeX/Schedule.antt =====
-- The key schedule ends and yields a table.
use kirov_server_emulator.Prelude.Words.{◌>>=◌}
use kirov_server_emulator.Cipher.Arrays.{count, count-swap, length-swap, swap}
use Prim.Native.Nat.{bit_and, bit_xor}
use kirov_server_emulator.Relay.Server.{stop}
use kirov_server_emulator.Prelude.{
  Bool-cases, List, arith, if◌then◌else◌, inl, inr, leb, length, list_eq, ltb, nat_eq, option_eq,
  pair_eq, refl, some, suc, zero, ℕ, ◌%◌, ◌*◌, ◌+◌, ◌<◌, ◌==◌, ◌≡◌, ◌≤◌, [], get_elem?-some,
  length-set, set, ◌∙◌, ◌∷◌, ap, false,
}
use kirov_server_emulator.Cipher.EncTypeX.{
  draw, func5, turn, widen, EncTypeX, finish, fresh_table, init_encoder, mix_salt, new_cipher,
  schedule, shuffle, blank, finished, with_schedule,
}

widen-le : (fuel cnt mask : ℕ) → cnt ≤ mask + fuel → cnt ≤ widen fuel cnt mask
unfolding widen
widen-le zero cnt mask h = omega (arith, h)
widen-le (suc fuel) cnt mask h = ground (arith, widen-le fuel cnt (2 * mask + 1))

turn-lt : (encxkey iv : List ℕ) (n1 n2 : ℕ) → n2 < length iv → (turn encxkey iv n1 n2).1 < length iv
unfolding turn
turn-lt encxkey iv n1 n2 h = ground arith

draw_lem :
    (fuel : ℕ) (encxkey iv : List ℕ) (cnt mask i n1 n2 : ℕ)
    → 0 < cnt
    → 0 < fuel
    → i + fuel ≡ 12
    → n2 < length iv
    → (m1 : ℕ) × (m2 : ℕ) × (t : ℕ) × (draw fuel encxkey iv cnt mask i n1 n2 ≡ some (m1, m2, t))
      × (m2 < length iv)
      × (t ≤ cnt)
unfolding draw
draw_lem zero encxkey iv cnt mask i n1 n2 pos more h l = elim more [ ]
draw_lem (suc fuel) encxkey iv cnt mask i n1 n2 pos more h l =
    let (m1, m2) = turn encxkey iv n1 n2 in
    let drawn = if ltb 11 (i + 1) then bit_and m1 mask % cnt else bit_and m1 mask in
    elim (Bool-cases (leb drawn cnt)) [
      | inl stop ↦ (m1, m2, drawn, rw stop refl, turn-lt encxkey iv n1 n2 l, ground arith)
      | inr go ↦
          let later =
            draw_lem fuel encxkey iv cnt mask (i + 1) m1 m2 pos (ground arith) (omega arith)
              (turn-lt encxkey iv n1 n2 l) in
          (later.0, later.1, later.2, rw go later.3, later.4, later.5)
    ]

-- On an iv that is not empty, `_func5` ends within its twelve rounds: it returns a value that is at
-- most `cnt`, and the next index into the iv is in range again.
pub func5_lem :
    (encxkey iv : List ℕ) (n1 n2 cnt : ℕ)
    → n2 < length iv
    → (m1 : ℕ) × (m2 : ℕ) × (t : ℕ) × (func5 encxkey iv n1 n2 cnt ≡ some (m1, m2, t))
      × (m2 < length iv)
      × (t ≤ cnt)
unfolding func5
func5_lem encxkey iv n1 n2 cnt l = elim (Bool-cases (cnt == 0)) [
  | inl none_left ↦ (n1, n2, 0, rw none_left refl, l, omega arith)
  | inr some_left ↦
      let drawn =
        draw_lem 12 encxkey iv cnt (widen cnt cnt 0) 0 n1 n2 (ground (arith, some_left))
          (omega arith) refl l in
      (drawn.0, drawn.1, drawn.2, rw some_left drawn.3, drawn.4, drawn.5)
]

mix_salt_lem :
    (key salt : List ℕ) (i : ℕ) (iv : List ℕ)
    → 0 < length key
    → 8 ≤ length iv
    → (iv' : List ℕ) × (mix_salt key i salt iv ≡ some iv') × (length iv' ≡ length iv)
unfolding mix_salt
mix_salt_lem key [] i iv nk l = (iv, refl, refl)
mix_salt_lem key (b ∷ bs) i iv nk l =
    let (k, ek) = get_elem?-some key (i % length key) (ground arith) in
    let (x, ex) = get_elem?-some iv (i % 8) (omega arith) in
    let (y, ey) = get_elem?-some iv (k * i % 8) (omega arith) in
    let next = set iv (k * i % 8) (bit_xor y (bit_xor x b)) in
    let long = length-set iv (k * i % 8) (bit_xor y (bit_xor x b)) in
    let rest = mix_salt_lem key bs (suc i) next nk (omega (arith, long)) in
    (rest.0, rw (ek, ex, ey) rest.1, rest.2 ∙ long)

-- The shuffle ends, and rearranges the table.
shuffle_lem :
    (n : ℕ) (iv encxkey : List ℕ) (n1 n2 : ℕ)
    → n2 < length iv
    → n ≤ length encxkey
    → (table : List ℕ) × (m1 : ℕ) × (m2 : ℕ) × (shuffle n iv encxkey n1 n2 ≡ some (table, m1, m2))
      × (length table ≡ length encxkey)
      × ((v : ℕ) → count table v ≡ count encxkey v)
unfolding shuffle
shuffle_lem zero iv encxkey n1 n2 l h = (encxkey, n1, n2, refl, refl, λ v. refl)
shuffle_lem (suc i) iv encxkey n1 n2 l h =
    let (m1, m2, t, e, lt, le) = func5_lem encxkey iv n1 n2 i l in
    let long = length-swap encxkey i t in
    let rest = shuffle_lem i iv (swap encxkey i t) m1 m2 lt (omega (arith, long)) in
    (
      rest.0,
      rest.1,
      rest.2,
      rw e rest.3,
      rest.4 ∙ long,
      λ v. rest.5 v ∙ count-swap encxkey i t v (omega arith) (omega arith),
    )

schedule_full :
    (iv : List ℕ) → 0 < length iv → schedule iv ≡ finished (shuffle 256 iv fresh_table 0 0)
unfolding schedule
schedule_full iv l =
    let full : (length iv == 0) ≡ false = ground arith in
    ap (λ b. if b then some (fresh_table, 0, 0) else finished (shuffle 256 iv fresh_table 0 0)) full

length-fresh_table : 256 ≤ length fresh_table
unfolding fresh_table
length-fresh_table = omega arith

schedule_lem :
    (iv : List ℕ)
    → 0 < length iv
    → (table : List ℕ) × (m1 : ℕ) × (m2 : ℕ) × (schedule iv ≡ some (table, m1, m2))
unfolding finished
schedule_lem iv l =
    let (table, m1, m2, e, long, counts) =
      shuffle_lem 256 iv fresh_table 0 0 l length-fresh_table in
    (finish table m1, m1, m2, schedule_full iv l ∙ ap finished e)

-- With a key that is not empty and a validate token of at least 8 bytes, a cipher can be set up for
-- every salt.
pub new_cipher_total :
    (key validate salt : List ℕ)
    → 0 < length key
    → 8 ≤ length validate
    → (e : EncTypeX) × (new_cipher key validate salt ≡ some e)
unfolding new_cipher init_encoder with_schedule
new_cipher_total key validate salt nk nv =
    let (iv, mixed, long) = mix_salt_lem key salt 0 validate nk nv in
    let (table, m1, m2, e) = schedule_lem iv (omega (arith, long)) in
    let x = blank key validate in
    (
      record x { salt = salt; iv = iv; encxkey = table; n1 = m1; n2 = m2 },
      ap (λ o. do v ← o; with_schedule x salt v (schedule v)) mixed
          ∙ ap (with_schedule x salt iv) e,
    )
