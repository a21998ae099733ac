-- ===== src/Relay/PortPool/Laws.antt =====
-- What `allocate_pair` promises, whichever ports are in use.

use kirov_server_emulator.Relay.PortPool.{
  PortPool, scan, allocate_pair, rounds, is_allocated, release_pair,
}
use kirov_server_emulator.Prelude.{
  Bool-cases, List, arith, contains, false, inl, inr, list_eq, nat_eq, none, pair_eq, some, suc,
  zero, ℕ, ◌*◌, ◌+◌, ◌<◌, ◌≡◌, subst, add, ◌≤◌, Option-cases, ap, contains-add, discard-add_two,
  ◌==◌, ◌||◌, ◌↔◌,
}

-- The pairs of the pool begin at every second port of its range.
abbrev pub pair_start : PortPool → ℕ → ℕ
pair_start p i = p.port_start + 2 * i

abbrev pub IsFreePair : List ℕ → ℕ → Type 0
IsFreePair used a = (contains used a ≡ false) × (contains used (a + 1) ≡ false)

-- What is found `n` rounds from `port`.
abbrev Found : List ℕ → ℕ → ℕ → ℕ → ℕ → Type 0
Found used n port a b = (i : ℕ) × (i < n) × (a ≡ port + 2 * i) × (b ≡ a + 1) × IsFreePair used a

Found-later :
    (used : List ℕ) (n port a b : ℕ) → Found used n (port + 2) a b → Found used (suc n) port a b
Found-later used n port a b (i, lt, ea, eb, f) = (suc i, omega arith, omega arith, eb, f)

scan-some :
    (used : List ℕ) (n port a b : ℕ) → scan used n port ≡ some (a, b) → Found used n port a b
unfolding scan
scan-some used zero port a b h = cc
scan-some used (suc n) port a b h = elim (Bool-cases (contains used port)) [
  | inl busy ↦ Found-later used n port a b (scan-some used n (port + 2) a b (ground (arith, busy)))
  | inr free ↦ elim (Bool-cases (contains used (port + 1))) [
    | inl busy ↦
        Found-later used n port a b (scan-some used n (port + 2) a b (ground (arith, free, busy)))
    | inr next ↦
        let ea : a ≡ port = ground (arith, free, next) in
        let eb : b ≡ port + 1 = ground (arith, free, next) in
        (0, omega arith, omega arith, omega arith, rw ea (free, next))
  ]
]

scan-none :
    (used : List ℕ) (n port i : ℕ)
    → scan used n port ≡ none
    → i < n
    → ¬ IsFreePair used (port + 2 * i)
unfolding scan
scan-none used zero port i h lt f = absurd (omega arith)
scan-none used (suc n) port zero h lt f =
    let e : port + 2 * 0 ≡ port = omega arith in
    let g : IsFreePair used port = subst (IsFreePair used) e f in ground arith
scan-none used (suc n) port (suc i) h lt f =
    let e : port + 2 * suc i ≡ port + 2 + 2 * i = omega arith in
    scan-none used n (port + 2) i (ground arith) (omega arith) (subst (IsFreePair used) e f)

module _ (p : PortPool) (range : p.port_start < p.port_end) where
  last_pair : (i : ℕ) → i < rounds p.port_start p.port_end → pair_start p i + 1 ≤ p.port_end
  unfolding rounds
  last_pair i lt = omega arith

  within_rounds : (i : ℕ) → pair_start p i + 1 ≤ p.port_end → i < rounds p.port_start p.port_end
  unfolding rounds
  within_rounds i le = omega arith

  -- The scan that `allocate_pair` makes.
  pub allocate_pair-Found :
      (a b : ℕ)
      → (allocate_pair p).1 ≡ some (a, b)
      → Found p.allocated (rounds p.port_start p.port_end) p.port_start a b
  unfolding allocate_pair
  allocate_pair-Found a b h =
      scan-some p.allocated (rounds p.port_start p.port_end) p.port_start a b (ground arith)

  pub allocated-allocate_pair :
      (a b : ℕ)
      → (allocate_pair p).1 ≡ some (a, b)
      → (allocate_pair p).0 ≡ record p { allocated = add (add p.allocated a) b }
  unfolding allocate_pair
  allocated-allocate_pair a b h = ground arith

  -- If a pair is handed out, it is two consecutive ports of the range that were both free; they
  -- are allocated afterwards, and no other port changes.
  pub allocate_pair_sound :
      (a b : ℕ)
      → (allocate_pair p).1 ≡ some (a, b)
      → (p.port_start ≤ a)
        × (b ≡ a + 1)
        × (b ≤ p.port_end)
        × (is_allocated p a ≡ false)
        × (is_allocated p b ≡ false)
        × ((c : ℕ)
            → is_allocated (allocate_pair p).0 c ≡ ((a == c) || (b == c) || is_allocated p c))
  unfolding is_allocated
  allocate_pair_sound a b h =
      let (i, lt, ea, eb, f) = allocate_pair-Found a b h in
      let le = last_pair i lt in
      (
        omega arith,
        eb,
        omega arith,
        f.0,
        rw eb (f.1),
        λ c.
            rw (allocated-allocate_pair a b h)
              (ground (arith, contains-add (add p.allocated a) b c, contains-add p.allocated a c)),
      )

  -- No pair is handed out exactly when every aligned pair of the range has a port in use.
  pub allocate_pair-none :
      ((allocate_pair p).1 ≡ none)
      ↔ ((i : ℕ) → pair_start p i + 1 ≤ p.port_end → ¬ IsFreePair p.allocated (pair_start p i))
  unfolding allocate_pair
  allocate_pair-none = (all_busy, exhausted)
    where
      all_busy :
          (allocate_pair p).1 ≡ none
          → (i : ℕ) → pair_start p i + 1 ≤ p.port_end
          → ¬ IsFreePair p.allocated (pair_start p i)
      all_busy h i le =
          scan-none p.allocated (rounds p.port_start p.port_end) p.port_start i (ground arith)
            (within_rounds i le)

      exhausted :
          ((i : ℕ) → pair_start p i + 1 ≤ p.port_end → ¬ IsFreePair p.allocated (pair_start p i))
          → (allocate_pair p).1 ≡ none
      exhausted busy =
          elim (Option-cases (scan p.allocated (rounds p.port_start p.port_end) p.port_start)) [
            | inl e ↦ ground (arith, e)
            | inr ((a, b), e) ↦
                let (i, lt, ea, eb, f) =
                  scan-some p.allocated (rounds p.port_start p.port_end) p.port_start a b e in
                absurd (busy i (last_pair i lt) (subst (IsFreePair p.allocated) ea f))
          ]

  -- A pair that was just allocated and is released at once leaves the pool as it was.
  pub release_pair-allocate_pair :
      (a b : ℕ) → (allocate_pair p).1 ≡ some (a, b) → release_pair (allocate_pair p).0 (a, b) ≡ p
  unfolding release_pair
  release_pair-allocate_pair a b h =
      let (i, lt, ea, eb, f) = allocate_pair-Found a b h in
      rw (allocated-allocate_pair a b h) (
        ap (λ l. record p { allocated = l })
          (discard-add_two p.allocated a b f.0 (rw eb (f.1)) (ground arith)))
