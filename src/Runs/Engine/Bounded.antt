-- ===== src/Runs/Engine/Bounded.antt =====
-- A run of hub/runs.py stops: it takes no more attempts by itself than its factory leaves it.
use kinby.Common.{
  ap, ◌∙◌, ℕ, zero, suc, ◌+◌, ◌*◌, ◌≤◌, ◌<◌, String, ◌≡◌, ◌≢◌, ◌⊎◌, refl, Option, none, some, List,
  [], ◌∷◌, arith, Option-cases, inl, inr, length, true, sym, sum_by,
}
use kinby.Contracts.Runs.{
  failed, limited, FactoryRunStatus, queued, needs_human, StepResult, is_valid_result,
}
use kinby.Common.{sum_by, string_eq, pair_eq}
use kinby.Common.Keyed.{count}
use kinby.Runs.Tally.{retries}
use kinby.Runs.Tally.Laws.{tally_of-none}
use kinby.Runs.Budget.{room}
use kinby.Factory.Check.{edges_of}
use kinby.Factory.File.{SendBack, Step, FactoryFile}
use kinby.Factory.Check.{order, edges_of}
use kinby.Factory.Check.Order.{HasUniqueIds, order-HasUniqueIds}
use kinby.Runs.Values.{step_of}
use kinby.Runs.Values.Laws.{step_of-id, remaining, remaining-le}
use kinby.Runs.Tally.{no_tally, retries}
use kinby.Runs.Budget.{budget}
use kinby.Runs.Row.{Row, begin_attempt, move_run, counted_attempts}
use kinby.Runs.Engine.{
  Effect, move, settle, settle_until, settle_lost, settle_at, settle_found, settle_step,
}
use kinby.Runs.Engine.Works.{IsRested, left, after, IsRested-after, left-after}

-- `n` attempts in a row, each of a run that is queued at a step. An attempt is at that step, or, as
-- `_enqueue` charges a missing value, a failed one at another. Its result is not limited.
pub data Works (factory : FactoryFile) : ℕ → Row → Row → Type 0 where
  rest : (row : Row) → Works factory zero row row
  turn :
      {n : ℕ} {row row' last : Row} (id at : String) (status : FactoryRunStatus) (now : ℕ)
      (result : StepResult) (effects : List Effect)
      → row.status ≡ queued
      → row.step ≡ some id
      → (at ≡ id) ⊎ (result.ending ≡ failed)
      → result.ending ≢ limited
      → is_valid_result result ≡ true
      → settle (some factory) result (begin_attempt at status now row) ≡ some (row', effects)
      → Works factory n row' last
      → Works factory (suc n) row last

module _ (factory : FactoryFile) (id : String) (result : StepResult) (row : Row)
    (at : row.step ≡ some id) (n : result.resets_at ≡ none) where
  pub settle_by_step :
      (step : Option Step)
      → step_of factory.steps id ≡ step
      → settle (some factory) result row ≡ some (settle_found factory result row step)
  unfolding settle
  settle_by_step step found =
      ap (settle_step (some factory) result row) at
      ∙ (ap (λ t. some (settle_until (some factory) id result row t)) n
          ∙ ap (λ s. some (settle_found factory result row s)) found)

status-settle_lost :
    (factory : FactoryFile) (result : StepResult) (row : Row)
    → (settle_lost (some factory) factory.needs_human result row).0.status ≡ needs_human
unfolding settle_lost move move_run
status-settle_lost factory result row = ground arith

module _ (factory : FactoryFile) (at : String) (result : StepResult) (row row' : Row)
    (effects : List Effect) (s : row.step ≡ some at) (n : result.resets_at ≡ none)
    (h : settle (some factory) result row ≡ some (row', effects)) where
  settle-lost :
      step_of factory.steps at ≡ none
      → some (row', effects) ≡ some (settle_lost (some factory) factory.needs_human result row)
  unfolding settle_found
  settle-lost gone = sym h ∙ settle_by_step factory at result row s n none gone

  settle-found :
      (step : Step)
      → step_of factory.steps at ≡ some step
      → some (row', effects) ≡ some (settle_at factory step result row)
  unfolding settle_found
  settle-found step found = sym h ∙ settle_by_step factory at result row s n (some step) found

  -- What one attempt leaves, where the run stays queued.
  settle_turn :
      row'.status ≡ queued
      → (step : Step) × (step_of factory.steps at ≡ some step)
        × (row' ≡ (settle_at factory step result row).0)
  settle_turn q = elim (Option-cases (step_of factory.steps at)) [
    | inl gone ↦ absurd (cc (q, settle-lost gone, status-settle_lost factory result row))
    | inr (step, found) ↦ (step, found, cc (settle-found step found))
  ]

resets_at-valid :
    (result : StepResult)
    → result.ending ≢ limited
    → is_valid_result result ≡ true
    → result.resets_at ≡ none
resets_at-valid result h v = ground (arith, h, v, Option-cases result.resets_at)

module _ (factory : FactoryFile) (u : HasUniqueIds factory.steps) (at : String)
    (status : FactoryRunStatus) (now : ℕ) (result : StepResult) (row row' : Row)
    (effects : List Effect) (lim : result.ending ≢ limited) (v : is_valid_result result ≡ true)
    (h : settle (some factory) result (begin_attempt at status now row) ≡ some (row', effects))
    (r : IsRested row) (q : row'.status ≡ queued) where
  turn-after :
      (step : Step) × (step_of factory.steps step.id ≡ some step)
      × (step.id ≡ at)
      × (row' ≡ after factory step status now result row)
  unfolding begin_attempt
  turn-after =
      let (step, found, e) =
        settle_turn factory at result (begin_attempt at status now row) row' effects refl
          (resets_at-valid result lim v) h q in
      let same = step_of-id factory.steps at step found in
      (
        step,
        cc (same, found),
        same,
        e ∙ ap (λ i. (settle_at factory step result (begin_attempt i status now row)).0) (sym same),
      )

  IsRested-turn : IsRested row'
  IsRested-turn =
      let (step, found, same, e) = turn-after in
      rw e (IsRested-after factory step status now result row r)

  left-turn :
      (from id : String)
      → (at ≡ from) ⊎ (result.ending ≡ failed)
      → row'.step ≡ some id
      → left factory row' id < left factory row from
  left-turn from id which t =
      let (step, found, same, e) = turn-after in
      rw e (
        left-after factory step status now result row u found lim r from id
          (elim which [ inl w ↦ inl (same ∙ w) | inr w ↦ inr w ]) (ap (λ x. x.status) (sym e) ∙ q)
          (ap (λ x. x.step) (sym e) ∙ t))

-- Where an attempt follows, the run is queued at a step.
Works-goes :
    {factory : FactoryFile} {n : ℕ} {row last : Row}
    → Works factory n row last
    → (n ≡ zero) ⊎ ((row.status ≡ queued) × ((id : String) × (row.step ≡ some id)))
Works-goes (rest row) = inl refl
Works-goes (turn id at status now result effects q t which lim v h works) = inr (q, (id, t))

-- In a factory whose step order the factory check passes, a run at rest at a step takes at most
-- one attempt more than its measure there: the rework it has left (the send-backs and retries
-- that its tally leaves), times one more than the number of steps, plus the steps from its own
-- on. This counts attempts that follow each other by themselves, each of a run that is queued,
-- with a valid result that is not limited.
pub Works-bounded :
    (factory : FactoryFile)
    → order factory ≡ []
    → {n : ℕ} {row last : Row} (id : String) → IsRested row
    → row.step ≡ some id
    → Works factory n row last
    → n ≤ suc (left factory row id)
Works-bounded factory ok id r t (rest row) = omega arith
Works-bounded factory ok {n = suc n} {row = row} from r t
      (turn {row' = row'} id at status now result effects q s which lim v h works) =
    let u = order-HasUniqueIds factory ok in
    let here_at : (at ≡ id) ⊎ (result.ending ≡ failed) → (at ≡ from) ⊎ (result.ending ≡ failed) =
      λ w. elim w [ inl e ↦ inl (cc (e, s, t)) | inr e ↦ inr e ] in
    elim (Works-goes works) [
      | inl e ↦ omega (arith, e)
      | inr (q', (next, s')) ↦ omega (
        arith,
        Works-bounded factory ok next
            (IsRested-turn factory u at status now result row row' effects lim v h r q') s' works,
        left-turn factory u at status now result row row' effects lim v h r q' from next
            (here_at which) s',
      )
    ]

-- What the file of a factory allows: each edge its max, each step its retries.
abbrev pub step_rework : Step → ℕ
step_rework step = sum_by (λ edge. edge.max) (edges_of step) + retries step

abbrev pub rework_allowed : List Step → ℕ
rework_allowed steps = sum_by step_rework steps

rooms_unused :
    (id : String) (edges : List SendBack)
    → sum_by (room no_tally id) edges ≡ sum_by (λ edge. edge.max) edges
unfolding count
rooms_unused id [] = refl
rooms_unused id (edge ∷ edges) = ground (arith, rooms_unused id edges)

budget_unused : (steps : List Step) → budget no_tally steps ≡ rework_allowed steps
unfolding count
budget_unused [] = refl
budget_unused (step ∷ steps) =
    ground (arith, rooms_unused step.id (edges_of step), budget_unused steps)

-- In a factory whose step order the factory check passes, a run at rest, none of whose attempts
-- counts (a new one, or one the user just restarted), takes at most (1 + w) * (1 + n) attempts by
-- itself, where n is the number of steps and w the sum of every edge's max and every step's
-- retries. Each attempt's result is valid and not limited.
pub Works-fresh :
    (factory : FactoryFile)
    → order factory ≡ []
    → {n : ℕ} {row last : Row} (id : String) → IsRested row
    → row.step ≡ some id
    → counted_attempts row ≡ []
    → Works factory n row last
    → n ≤ suc (rework_allowed factory.steps) * suc (length factory.steps)
Works-fresh factory ok {n = n} {row = row} id r t fresh works =
    let most = Works-bounded factory ok id r t works in
    let no_attempt : left factory row id
        ≡ rework_allowed factory.steps * suc (length factory.steps) + remaining factory.steps id =
      rw (fresh, tally_of-none factory, budget_unused factory.steps) refl in
    grind (arith, most, no_attempt, remaining-le factory.steps id)
