-- ===== src/Common/Keyed.antt =====
-- Python's `dict`, in insertion order, and `Counter`, over keys with an equality.
use Prim.Native.Nat.{ℕ, ◌+◌}
use mathlib.Core.Path.{◌≡◌, refl}
use mathlib.Core.List.{List, [], ◌∷◌}
use mathlib.Core.Option.{Option, none, some}
use native.Mathlib.Omega.{arith}
use kinby.Common.Tests.{Eq, ◌==◌, if◌then◌else◌}

abbrev pub Dict {ℓ κ} : Type ℓ → Type κ → Type (ℓ ⊔ κ)
Dict K V = List (K × V)

module _ {ℓ κ} {K : Type ℓ} {V : Type κ} ⦃e : Eq K⦄ where
  -- d.get(k)
  unfoldable pub get : K → Dict K V → Option V
  get k [] = none
  get k ((j, v) ∷ d) = if j == k then some v else get k d

  -- d[k] = v: a key that is there keeps its place
  unfoldable pub put : K → V → Dict K V → Dict K V
  put k v [] = (k, v) ∷ []
  put k v ((j, w) ∷ d) = if j == k then (j, v) ∷ d else (j, w) ∷ put k v d

  -- d.pop(k, None)
  unfoldable pub remove : K → Dict K V → Dict K V
  remove k [] = []
  remove k ((j, v) ∷ d) = let rest = remove k d in if j == k then rest else (j, v) ∷ rest

  -- a | b
  unfoldable pub merge : Dict K V → Dict K V → Dict K V
  merge a [] = a
  merge a ((k, v) ∷ b) = merge (put k v a) b

  pub get-put :
      (k j : K) (v : V) (d : Dict K V) → get j (put k v d) ≡ (if k == j then some v else get j d)
  unfolding get put
  get-put k j v [] = refl
  get-put k j v ((i, w) ∷ d) =
      ground (arith, e.equal_iff k j, e.equal_iff i k, e.equal_iff i j, get-put k j v d)

  pub get-remove :
      (k j : K) (d : Dict K V) → get j (remove k d) ≡ (if k == j then none else get j d)
  unfolding get remove
  get-remove k j [] = ground arith
  get-remove k j ((i, w) ∷ d) =
      ground (arith, e.equal_iff k j, e.equal_iff i k, e.equal_iff i j, get-remove k j d)

module _ {ℓ} {K : Type ℓ} ⦃e : Eq K⦄ where
  -- counter[k], which is 0 for a key that is not there
  unfoldable pub count : K → Dict K ℕ → ℕ
  count k [] = 0
  count k ((j, n) ∷ d) = if j == k then n else count k d

  -- counter[k] += 1
  unfoldable pub bump : K → Dict K ℕ → Dict K ℕ
  bump k [] = (k, 1) ∷ []
  bump k ((j, n) ∷ d) = if j == k then (j, n + 1) ∷ d else (j, n) ∷ bump k d

  pub count-bump :
      (k j : K) (d : Dict K ℕ) → count j (bump k d) ≡ (if k == j then count j d + 1 else count j d)
  unfolding count bump
  count-bump k j [] = ground arith
  count-bump k j ((i, n) ∷ d) =
      ground (arith, e.equal_iff k j, e.equal_iff i k, e.equal_iff i j, count-bump k j d)

-- counter.total()
unfoldable pub total {ℓ} : {K : Type ℓ} → Dict K ℕ → ℕ
total [] = 0
total ((j, n) ∷ d) = n + total d

pub total-bump {ℓ} : {K : Type ℓ} ⦃e : Eq K⦄ (k : K) (d : Dict K ℕ) → total (bump k d) ≡ total d + 1
unfolding total bump
total-bump k [] = refl
total-bump k ((j, n) ∷ d) = ground (arith, total-bump k d)
