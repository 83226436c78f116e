-- ===== src/Runs/Values/Laws.antt =====
-- Finding a step by its id, and the step after it.
use kinby.Common.{
  ap, ◌∙◌, ℕ, suc, ◌<◌, String, true, false, ◌≡◌, ◌⊎◌, inl, inr, some, List, [], ◌∷◌, ◌==◌,
  string_eq, arith, length, Bool-cases, eq_of_beq, if◌then◌else◌,
}
use text.Mathlib.TextEquality.{eq_iff}
use kinby.Factory.File.{Step}
use kinby.Factory.Check.Order.{holds_id, HasUniqueIds}
use kinby.Runs.Values.{step_of, following}

pub step_of-cons :
    (s : Step) (steps : List Step) (id : String) (step : Step)
    → step_of (s ∷ steps) id ≡ some step
    → ((s.id ≡ id) × (s ≡ step)) ⊎ (((s.id == id) ≡ false) × (step_of steps id ≡ some step))
unfolding step_of
step_of-cons s steps id step h = elim (Bool-cases (s.id == id)) [
  | inl e ↦ inl (eq_of_beq s.id id e, ground arith)
  | inr e ↦ inr (e, ground arith)
]

pub step_of-id :
    (steps : List Step) (id : String) (step : Step) → step_of steps id ≡ some step → step.id ≡ id
unfolding step_of
step_of-id [] id step h = cc
step_of-id (s ∷ steps) id step h = elim (step_of-cons s steps id step h) [
  | inl (same, it) ↦ cc
  | inr (_, rest) ↦ step_of-id steps id step rest
]

-- The steps from the first by this id on, that one included.
abbrev pub remaining : List Step → String → ℕ
remaining [] id = 0
remaining (step ∷ steps) id = if step.id == id then suc (length steps) else remaining steps id

pub remaining-le : (steps : List Step) (id : String) → remaining steps id < suc (length steps)
remaining-le [] id = omega arith
remaining-le (step ∷ steps) id = ground (arith, remaining-le steps id)

following-holds_id :
    (steps : List Step) (id : String) (after : Step)
    → following steps id ≡ some after
    → holds_id after.id steps ≡ true
unfolding following
following-holds_id [] id after h = cc
following-holds_id (s ∷ []) id after h = ground arith
following-holds_id (s ∷ t ∷ steps) id after h = elim (Bool-cases (s.id == id)) [
  | inl e ↦ ground (arith, eq_iff t.id after.id, eq_iff s.id after.id)
  | inr e ↦ ground (arith, following-holds_id (t ∷ steps) id after (rw (e, following) at h))
]

-- A forward move leaves fewer steps, where no id is used twice.
pub remaining-following :
    (steps : List Step) (id : String) (after : Step)
    → HasUniqueIds steps
    → following steps id ≡ some after
    → remaining steps after.id < remaining steps id
unfolding following
remaining-following [] id after u h = cc
remaining-following (s ∷ []) id after u h = ground arith
remaining-following (s ∷ t ∷ steps) id after u h = elim (Bool-cases (s.id == id)) [
  | inl e ↦
      ground (arith, eq_iff t.id after.id, eq_iff s.id after.id, eq_iff t.id s.id, eq_iff s.id id)
  | inr e ↦
      let rest : following (t ∷ steps) id ≡ some after = rw (e, following) at h in
      let held = following-holds_id (t ∷ steps) id after rest in
      elim (Bool-cases (s.id == after.id)) [
        | inl same ↦
            let clash : holds_id s.id (t ∷ steps) ≡ true =
              ap (λ i. holds_id i (t ∷ steps)) (eq_of_beq s.id after.id same) ∙ held in
            cc (clash, u.0)
        | inr other ↦ ground (arith, remaining-following (t ∷ steps) id after u.1 rest)
      ]
]
