-- ===== src/Runs/Budget.antt =====
-- How much rework a factory leaves a run of hub/runs.py, by its tally: the room left along each
-- edge that sends work back, and each step's retries left.
use kinby.Runs.Values.Laws.{step_of-cons}
use kinby.Common.{
  inl, inr, ℕ, ◌+◌, ◌-◌, ◌≤◌, ◌<◌, String, ◌≡◌, some, List, [], ◌∷◌, string_eq, pair_eq, arith,
  sum_by, In, here, there, beq_refl,
}
use kinby.Common.Keyed.{count, count-bump}
use kinby.Factory.File.{SendBack, Step}
use kinby.Factory.Check.{edges_of}
use kinby.Runs.Values.{step_of}
use kinby.Runs.Tally.Laws.{sent, missed}
use kinby.Runs.Tally.{Tally, retries}
use kinby.Runs.Settle.{sent_along}

abbrev pub room : Tally → String → SendBack → ℕ
room tally id edge = edge.max - sent_along tally id edge

abbrev pub step_budget : Tally → Step → ℕ
step_budget tally step =
    sum_by (room tally step.id) (edges_of step) + (retries step - count step.id tally.failures)

abbrev pub budget : Tally → List Step → ℕ
budget tally steps = sum_by (step_budget tally) steps

module _ (id to : String) (tally : Tally) where
  room-sent : (j : String) (edge : SendBack) → room (sent id to tally) j edge ≤ room tally j edge
  room-sent j edge = ground (arith, count-bump (id, to) (j, edge.back) tally.sent_back)

  rooms-sent :
      (j : String) (edges : List SendBack)
      → sum_by (room (sent id to tally) j) edges ≤ sum_by (room tally j) edges
  rooms-sent j [] = omega arith
  rooms-sent j (edge ∷ edges) = omega (arith, room-sent j edge, rooms-sent j edges)

  budget-sent : (steps : List Step) → budget (sent id to tally) steps ≤ budget tally steps
  budget-sent [] = omega arith
  budget-sent (step ∷ steps) = omega (arith, rooms-sent step.id (edges_of step), budget-sent steps)

module _ (id : String) (tally : Tally) where
  budget-missed : (steps : List Step) → budget (missed id tally) steps ≤ budget tally steps
  budget-missed [] = omega arith
  budget-missed (step ∷ steps) =
      ground (arith, count-bump id step.id tally.failures, budget-missed steps)

  count_missed :
      (j : String) → j ≡ id → count j (missed id tally).failures ≡ count j tally.failures + 1
  count_missed j same = rw same (rw (count-bump id id tally.failures, beq_refl id))

  -- Trying a step again that has retries left leaves fewer.
  pub budget-missed-lt :
      (steps : List Step) (step : Step)
      → step_of steps id ≡ some step
      → count id tally.failures < retries step
      → budget (missed id tally) steps < budget tally steps
  unfolding step_of retries
  budget-missed-lt [] step f h = cc
  budget-missed-lt (s ∷ steps) step f h = elim (step_of-cons s steps id step f) [
    | inl (same, it) ↦
        let left : count s.id tally.failures < retries s = rw (same, it) h in
        ground (arith, count_missed s.id same, budget-missed steps)
    | inr (_, rest) ↦
        ground (arith, count-bump id s.id tally.failures, budget-missed-lt steps step rest h)
  ]

module _ (id : String) (tally : Tally) where
  rooms-sent-lt :
      (edge : SendBack) (edges : List SendBack)
      → In edge edges
      → sent_along tally id edge < edge.max
      → sum_by (room (sent id edge.back tally) id) edges < sum_by (room tally id) edges
  rooms-sent-lt edge [] i h = elim i [ ]
  rooms-sent-lt edge (_ ∷ edges) here h = ground (
    arith,
    count-bump (id, edge.back) (id, edge.back) tally.sent_back,
    beq_refl {A = String × String} (id, edge.back),
    rooms-sent id edge.back tally id edges,
  )
  rooms-sent-lt edge (other ∷ edges) (there i) h =
      omega (arith, room-sent id edge.back tally id other, rooms-sent-lt edge edges i h)

  -- Sending work back along an edge of the step that has room leaves less.
  pub budget-sent-lt :
      (steps : List Step) (step : Step) (edge : SendBack)
      → step_of steps id ≡ some step
      → In edge (edges_of step)
      → sent_along tally id edge < edge.max
      → budget (sent id edge.back tally) steps < budget tally steps
  unfolding step_of edges_of
  budget-sent-lt [] step edge f i h = cc
  budget-sent-lt (s ∷ steps) step edge f i h = elim (step_of-cons s steps id step f) [
    | inl (same, it) ↦
        let fewer : sum_by (room (sent id edge.back tally) s.id) (edges_of s)
            < sum_by (room tally s.id) (edges_of s) =
          rw (same, it) (rooms-sent-lt edge (edges_of step) i h) in
        omega (arith, fewer, budget-sent id edge.back tally steps)
    | inr (_, rest) ↦ omega (
      arith,
      rooms-sent id edge.back tally s.id (edges_of s),
      budget-sent-lt steps step edge rest i h,
    )
  ]
