-- ===== src/Relay/Server/Routes.antt =====
-- The dictionary of routes: how a port finds its route, across assignments and removals.

use kirov_server_emulator.Relay.Server.{find_route, serves}
use kirov_server_emulator.Prelude.Dict.{Dict, put, remove, get}
use kirov_server_emulator.Relay.Types.{RelayRoute}
use kirov_server_emulator.Prelude.{
  All, Bool, Bool-cases, [], ap, arith, false, inl, inr, is_some, list_eq, nat_eq, not, pair_beq,
  pair_eq, some, true, ℕ, ◌&&◌, ◌*◌, ◌+◌, ◌==◌, ◌||◌, ◌∷◌, ◌≡◌, ◌≤◌, pair_beq_iff, subst, none,
  refl,
}

-- The route has two consecutive ports, aligned within the range, and stands under them.
abbrev pub Keyed : ℕ → ℕ → (ℕ × ℕ) × RelayRoute → Type 0
Keyed start end (k, r) =
    (i : ℕ) × (r.port_a ≡ start + 2 * i)
    × (r.port_b ≡ r.port_a + 1)
    × (r.port_b ≤ end)
    × (k ≡ (r.port_a, r.port_b))

abbrev pub finds : Dict (ℕ × ℕ) RelayRoute → ℕ → Bool
finds d port = is_some (find_route d port)

module _ (start end : ℕ) where
  -- Two routes of the dictionary that share a port share their key.
  serves_of_key :
      (k j : ℕ × ℕ) (r w : RelayRoute) (port : ℕ)
      → Keyed start end (k, r)
      → Keyed start end (j, w)
      → (j == k) ≡ true
      → serves w port ≡ serves r port
  unfolding pair_beq
  serves_of_key k j r w port (i, a, b, le, e) (i', a', b', le', e') same =
      ground (arith, ap (λ (q : ℕ × ℕ). q.0) e, ap (λ (q : ℕ × ℕ). q.0) e')

  pub serves_apart :
      (k j : ℕ × ℕ) (r w : RelayRoute) (port : ℕ)
      → Keyed start end (k, r)
      → Keyed start end (j, w)
      → (j == k) ≡ false
      → serves r port ≡ true
      → serves w port ≡ false
  unfolding pair_beq
  serves_apart k j r w port (i, a, b, le, e) (i', a', b', le', e') other hit = ground (
    arith,
    ap (λ (q : ℕ × ℕ). q.0) e,
    ap (λ (q : ℕ × ℕ). q.0) e',
    ap (λ (q : ℕ × ℕ). q.1) e,
    ap (λ (q : ℕ × ℕ). q.1) e',
  )

  pub finds-put :
      (d : Dict (ℕ × ℕ) RelayRoute) (k : ℕ × ℕ) (r : RelayRoute) (port : ℕ)
      → All (Keyed start end) d
      → Keyed start end (k, r)
      → finds (put d k r) port ≡ (serves r port || finds d port)
  unfolding put find_route
  finds-put [] k r port h kr = ground arith
  finds-put ((j, w) ∷ d) k r port h kr =
      ground (arith, finds-put d k r port h.1 kr, serves_of_key k j r w port kr h.0)

  pub finds-remove :
      (d : Dict (ℕ × ℕ) RelayRoute) (k : ℕ × ℕ) (r : RelayRoute) (port : ℕ)
      → All (Keyed start end) d
      → Keyed start end (k, r)
      → finds (remove d k) port ≡ (not (serves r port) && finds d port)
  unfolding remove find_route
  finds-remove [] k r port h kr = ground arith
  finds-remove ((j, w) ∷ d) k r port h kr = ground (
    arith,
    finds-remove d k r port h.1 kr,
    serves_of_key k j r w port kr h.0,
    serves_apart k j r w port kr h.0,
  )

  -- The route that a port finds serves the port, and stands in the dictionary under its key.
  pub find_route_found :
      (d : Dict (ℕ × ℕ) RelayRoute) (port : ℕ) (k : ℕ × ℕ) (r : RelayRoute)
      → All (Keyed start end) d
      → find_route d port ≡ some (k, r)
      → Keyed start end (k, r) × (serves r port ≡ true)
  unfolding find_route
  find_route_found [] port k r h e = cc
  find_route_found ((j, w) ∷ d) port k r h e = elim (Bool-cases (serves w port)) [
    | inl hit ↦
        let same : ◌≡◌ {A = (ℕ × ℕ) × RelayRoute} (j, w) (k, r) = ground (arith, hit) in
        subst (λ (q : (ℕ × ℕ) × RelayRoute). Keyed start end q × (serves q.1 port ≡ true)) same
          (h.0, hit)
    | inr miss ↦ find_route_found d port k r h.1 (ground (arith, miss))
  ]

  pub get-find_route :
      (d : Dict (ℕ × ℕ) RelayRoute) (port : ℕ) (k : ℕ × ℕ) (r : RelayRoute)
      → All (Keyed start end) d
      → find_route d port ≡ some (k, r)
      → get d k ≡ some r
  unfolding get find_route
  get-find_route [] port k r h e = cc
  get-find_route ((j, w) ∷ d) port k r h e =
      let (kr, hit) = find_route_found ((j, w) ∷ d) port k r h e in
      ground
        (arith, pair_beq_iff j k, serves_of_key k j r w port kr h.0, get-find_route d port k r h.1)

  -- A port that finds no route is the first port of no key.
  pub get_not_found :
      (d : Dict (ℕ × ℕ) RelayRoute) (k : ℕ × ℕ)
      → All (Keyed start end) d
      → finds d k.0 ≡ false
      → get d k ≡ none
  unfolding get find_route pair_beq
  get_not_found [] k h e = refl
  get_not_found ((j, w) ∷ d) k h e =
      let (i, a, b, le, p) = h.0 in ground (arith, get_not_found d k h.1, ap (λ (q : ℕ × ℕ). q.0) p)

module _ (start end : ℕ) where
  -- A route that takes the place of another under the same key is found in its stead.
  pub find_route-put_same :
      (d : Dict (ℕ × ℕ) RelayRoute) (port : ℕ) (k : ℕ × ℕ) (r r' : RelayRoute)
      → All (Keyed start end) d
      → Keyed start end (k, r')
      → find_route d port ≡ some (k, r)
      → serves r' port ≡ true
      → find_route (put d k r') port ≡ some (k, r')
  unfolding put find_route
  find_route-put_same [] port k r r' h kr e q = cc
  find_route-put_same ((j, w) ∷ d) port k r r' h kr e q = ground (
    arith,
    find_route-put_same d port k r r' h.1 kr,
    pair_beq_iff j k,
    serves_apart start end k j r' w port kr h.0,
  )

-- A route of the dictionary is found at its ports, or another one is.
pub finds_of_get :
    (d : Dict (ℕ × ℕ) RelayRoute) (k : ℕ × ℕ) (r : RelayRoute) (port : ℕ)
    → get d k ≡ some r
    → serves r port ≡ true
    → finds d port ≡ true
unfolding get find_route
finds_of_get [] k r port e q = cc
finds_of_get ((j, w) ∷ d) k r port e q = ground (arith, finds_of_get d k r port)

-- A new route is found at each port that no other route serves.
pub find_route-put_new :
    (d : Dict (ℕ × ℕ) RelayRoute) (k : ℕ × ℕ) (r : RelayRoute) (port : ℕ)
    → finds d port ≡ false
    → serves r port ≡ true
    → find_route (put d k r) port ≡ some (k, r)
unfolding put find_route
find_route-put_new [] k r port h e = ground arith
find_route-put_new ((j, w) ∷ d) k r port h e =
    ground (arith, find_route-put_new d k r port, pair_beq_iff j k)
