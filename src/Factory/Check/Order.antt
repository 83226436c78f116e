-- ===== src/Factory/Check/Order.antt =====
-- What a factory that `_order` of factories/check.py passes has.
use kinby.Common.{
  refl, String, Bool, true, false, ◌≡◌, ◌==◌, List, [], ◌∷◌, ◌++◌, arith, string_eq, any, beq_refl,
}
use text.Mathlib.TextEquality.{eq_iff}
use kinby.Factory.File.{Step, FactoryFile}
use kinby.Factory.Check.{
  has_id, edges_of, repeated_id, late_edges, retry_and_failed, order_from, order,
}

abbrev pub holds_id : String → List Step → Bool
holds_id id steps = any (λ (s : Step). s.id == id) steps

-- No step id is used twice: each is told from those after it.
abbrev pub HasUniqueIds : List Step → Type 0
HasUniqueIds [] = Unit
HasUniqueIds (step ∷ steps) = (holds_id step.id steps ≡ false) × HasUniqueIds steps

pub append-eq-nil {ℓ} : {A : Type ℓ} (xs ys : List A) → xs ++ ys ≡ [] → (xs ≡ []) × (ys ≡ [])
append-eq-nil [] ys h = (refl, h)
append-eq-nil (x ∷ xs) ys h = cc

-- What the check found of one step, where it found nothing wrong.
pub record Passed (earlier : List String) (step : Step) (steps : List Step) : Type 0 where
  pub fresh : has_id step.id earlier ≡ false
  pub back : late_edges earlier step (edges_of step) ≡ []
  pub single : retry_and_failed step step.failed step.retry ≡ []
  pub later : order_from (step.id ∷ earlier) steps ≡ []

pub passed :
    (earlier : List String) (step : Step) (steps : List Step)
    → order_from earlier (step ∷ steps) ≡ []
    → Passed earlier step steps
unfolding order_from repeated_id
passed earlier step steps h =
    let (p, q) = append-eq-nil (repeated_id earlier step) _ h in
    let (b, r) = append-eq-nil (late_edges earlier step (edges_of step)) _ q in
    let (s, l) = append-eq-nil (retry_and_failed step step.failed step.retry) _ r in
    record { fresh = ground (arith, p); back = b; single = s; later = l }

not-holds_id :
    (id : String) (earlier : List String) (steps : List Step)
    → order_from earlier steps ≡ []
    → has_id id earlier ≡ true
    → holds_id id steps ≡ false
not-holds_id id earlier [] h e = ground arith
not-holds_id id earlier (step ∷ steps) h e =
    let p = passed earlier step steps h in
    ground (arith, p.fresh, eq_iff step.id id, not-holds_id id (step.id ∷ earlier) steps p.later)

unique_from :
    (earlier : List String) (steps : List Step) → order_from earlier steps ≡ [] → HasUniqueIds steps
unique_from earlier [] h = tt
unique_from earlier (step ∷ steps) h =
    let p = passed earlier step steps h in
    (
      not-holds_id step.id (step.id ∷ earlier) steps p.later (rw beq_refl),
      unique_from (step.id ∷ earlier) steps p.later,
    )

-- Where the factory check finds nothing wrong with the order of the steps, no two steps have the
-- same id.
pub order-HasUniqueIds : (factory : FactoryFile) → order factory ≡ [] → HasUniqueIds factory.steps
unfolding order
order-HasUniqueIds factory h = unique_from [] factory.steps h
