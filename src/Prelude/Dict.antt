-- ===== src/Prelude/Dict.antt =====
-- Python's `dict`: keys in insertion order, an assignment to an old key keeps its place.

use mathlib.Core.Path.{◌≡◌, refl}
use mathlib.Core.Bool.{Bool, false}
use mathlib.Core.List.{List, [], ◌∷◌}
use mathlib.Core.Option.{Option, none, some}
use native.Mathlib.Omega.{arith}
use kirov_server_emulator.Prelude.Tests.{if◌then◌else◌, is_some}
use kirov_server_emulator.Prelude.Equality.{Comparable, ◌==◌, ==_refl}
use kirov_server_emulator.Prelude.Lists.{All}

abbrev pub Dict {ℓ κ} : Type ℓ → Type κ → Type (ℓ ⊔ κ)
Dict K V = List (K × V)

module _ {ℓ κ} {K : Type ℓ} {V : Type κ} ⦃e : Comparable K⦄ where
  -- d.get(k)
  unfoldable pub get : Dict K V → K → Option V
  get [] k = none
  get ((j, v) ∷ d) k = if j == k then some v else get d k

  -- k in d
  abbrev pub has : Dict K V → K → Bool
  has d k = is_some (get d k)

  -- d[k] = v
  unfoldable pub put : Dict K V → K → V → Dict K V
  put [] k v = (k, v) ∷ []
  put ((j, w) ∷ d) k v = if j == k then (j, v) ∷ d else (j, w) ∷ put d k v

  -- d.pop(k, None), del d[k]
  unfoldable pub remove : Dict K V → K → Dict K V
  remove [] k = []
  remove ((j, v) ∷ d) k = let rest = remove d k in if j == k then rest else (j, v) ∷ rest

  pub get-put :
      (d : Dict K V) (k : K) (v : V) (j : K)
      → get (put d k v) j ≡ (if k == j then some v else get d j)
  unfolding get put
  get-put [] k v j = refl
  get-put ((i, w) ∷ d) k v j =
      ground (arith, get-put d k v j, e.equals_iff i k, e.equals_iff i j, e.equals_iff k j)

  pub get-remove :
      (d : Dict K V) (k j : K) → get (remove d k) j ≡ (if k == j then none else get d j)
  unfolding get remove
  get-remove [] k j = ground arith
  get-remove ((i, w) ∷ d) k j =
      ground (arith, get-remove d k j, e.equals_iff i k, e.equals_iff i j, e.equals_iff k j)

  -- A new key that is taken out again leaves the dictionary as it was.
  pub remove-put_new : (d : Dict K V) (k : K) (v : V) → get d k ≡ none → remove (put d k v) k ≡ d
  unfolding get put remove
  remove-put_new [] k v h = ground (arith, ==_refl k)
  remove-put_new ((i, w) ∷ d) k v h = ground (arith, remove-put_new d k v)

  pub put-put : (d : Dict K V) (k : K) (v w : V) → put (put d k v) k w ≡ put d k w
  unfolding put
  put-put [] k v w = ground (arith, ==_refl k)
  put-put ((i, u) ∷ d) k v w = ground (arith, put-put d k v w)

  -- What holds of every entry holds after an assignment and after a removal.
  pub All-put {μ} :
      (P : K × V → Type μ) (d : Dict K V) (k : K) (v : V) → All P d → P (k, v) → All P (put d k v)
  unfolding put
  All-put P [] k v h p = (p, tt)
  All-put P ((i, w) ∷ d) k v h p = ground (arith, All-put P d k v h.1 p, e.equals_iff i k)

  pub All-remove {μ} : (P : K × V → Type μ) (d : Dict K V) (k : K) → All P d → All P (remove d k)
  unfolding remove
  All-remove P [] k h = tt
  All-remove P ((i, w) ∷ d) k h = ground (arith, All-remove P d k h.1)

  pub All-get {μ} :
      (P : K × V → Type μ) (d : Dict K V) (k : K) (v : V) → All P d → get d k ≡ some v → P (k, v)
  unfolding get
  All-get P [] k v h p = cc
  All-get P ((i, w) ∷ d) k v h p = ground (arith, All-get P d k v h.1, e.equals_iff i k)

  -- No key stands twice.
  abbrev pub Distinct : Dict K V → Type 0
  Distinct [] = Unit
  Distinct ((k, v) ∷ d) = (has d k ≡ false) × Distinct d

  pub Distinct-put : (d : Dict K V) (k : K) (v : V) → Distinct d → Distinct (put d k v)
  unfolding put get
  Distinct-put [] k v h = (refl, tt)
  Distinct-put ((i, w) ∷ d) k v h =
      ground (arith, Distinct-put d k v h.1, get-put d k v i, e.equals_iff i k, e.equals_iff k i)

  pub Distinct-remove : (d : Dict K V) (k : K) → Distinct d → Distinct (remove d k)
  unfolding remove
  Distinct-remove [] k h = tt
  Distinct-remove ((i, w) ∷ d) k h =
      ground (arith, Distinct-remove d k h.1, get-remove d k i, e.equals_iff i k, e.equals_iff k i)

pub ruleset dict_laws = (get-put, get-remove)
