-- ===== src/Runs/Engine/Works.antt =====
-- How long a run of hub/runs.py can go on by itself: from one result to the next, each step that
-- the run is queued at opens an attempt, and the attempt is settled.
use mathlib.Core.Path.{subst}
use kinby.Common.{
  ◌⊎◌, string_eq, length-append, ℕ, ◌≤◌, ◌<◌, String, ◌≡◌, ◌≢◌, refl, sym, ◌∙◌, Option, none, some,
  [], ◌∷◌, ◌++◌, arith, length, drop-append, inl, inr,
}
use kinby.Common.Keyed.{merge}
use kinby.Contracts.Runs.{failed, limited, FactoryRunStatus, queued, StepResult}
use kinby.Factory.File.{Step, FactoryFile}
use kinby.Factory.Check.Order.{HasUniqueIds}
use kinby.Runs.Values.{step_of}
use kinby.Runs.Tally.{tally_of, count_attempt}
use kinby.Runs.Tally.Laws.{count_attempt-open, tally_of-append}
use kinby.Runs.Settle.{Settled, settled}
use kinby.Runs.Settle.Moves.{Queues, settled-failed, settled-Queues, checked_types-ne-limited}
use kinby.Runs.Termination.{measure, Queues-decreases, Queues-failed_decreases}
use kinby.Runs.Row.{Row, begin_attempt, end_attempt, move_run, counted_attempts, ended}
use kinby.Runs.Row.Laws.{AllEnded, AllEnded-append, next_attempt, attempts-end_begin, counted-begin}
use kinby.Runs.Engine.{move, types_checked, settle_at}
use kinby.Runs.Results.{results}

-- Between two attempts of a run: none is open, and the restart lies within them.
pub record IsRested (row : Row) : Type 0 where
  pub all_ended : AllEnded row.attempts
  pub restarted : row.restarted_after ≤ length row.attempts

-- The rework and the steps that a run at the step has left.
abbrev pub left : FactoryFile → Row → String → ℕ
left factory row id = measure factory (tally_of factory (counted_attempts row)) id

module _ (factory : Option FactoryFile) (status : FactoryRunStatus) (step : Option String)
    (row : Row) where
  pub status-move : (move factory status step row).0.status ≡ status
  unfolding move move_run
  status-move = ground arith

  pub step-move : (move factory status step row).0.step ≡ step
  unfolding move move_run
  step-move = ground arith

  attempts-move : (move factory status step row).0.attempts ≡ row.attempts
  unfolding move move_run
  attempts-move = ground arith

  restarted-move : (move factory status step row).0.restarted_after ≡ row.restarted_after
  unfolding move move_run
  restarted-move = ground arith

types_checked-ne-limited :
    (step : Step) (result : StepResult)
    → result.ending ≢ limited
    → (types_checked step result result.ending).ending ≢ limited
types_checked-ne-limited step result h = ground (arith, checked_types-ne-limited step result)

types_checked-failed :
    (step : Step) (result : StepResult)
    → result.ending ≡ failed
    → (types_checked step result result.ending).ending ≡ failed
types_checked-failed step result e = ground arith

module _ (factory : FactoryFile) (step : Step) (status : FactoryRunStatus) (now : ℕ)
    (result : StepResult) (row : Row) where
  abbrev pub begun : Row
  begun = begin_attempt step.id status now row

  abbrev outcome_here : Settled
  outcome_here =
      settled factory step (types_checked step result result.ending)
        (merge begun.work_item (results factory begun.attempts none))
        (tally_of factory (counted_attempts begun))

  abbrev pub after : Row
  after = (settle_at factory step result begun).0

  tally-begun :
      IsRested row
      → tally_of factory (counted_attempts begun) ≡ tally_of factory (counted_attempts row)
  tally-begun r = rw (counted-begin step.id status now row r.restarted) (
      rw (tally_of-append factory (counted_attempts row) (next_attempt step.id now row))
        (count_attempt-open factory _ _ refl))

  attempts-after :
      IsRested row
      → after.attempts
        ≡ row.attempts ++ ended outcome_here.result (next_attempt step.id now row) ∷ []
  unfolding settle_at
  attempts-after r = attempts-move _ _ _ _ ∙ attempts-end_begin step.id status now row _ r.all_ended

  restarted-after : after.restarted_after ≡ row.restarted_after
  unfolding settle_at begin_attempt end_attempt
  restarted-after = restarted-move _ _ _ _

  pub IsRested-after : IsRested row → IsRested after
  IsRested-after r = record {
    all_ended = rw (attempts-after r) (AllEnded-append row.attempts _ r.all_ended refl);
    restarted =
        rw (attempts-after r, restarted-after)
          (omega (
            arith,
            r.restarted,
            length-append row.attempts
                (ended outcome_here.result (next_attempt step.id now row) ∷ []),
          ));
  }

  tally-after :
      IsRested row
      → tally_of factory (counted_attempts after)
        ≡ count_attempt factory
            (ended outcome_here.result (next_attempt step.id now row))
            (tally_of factory (counted_attempts row))
  unfolding counted_attempts
  tally-after r =
      rw (attempts-after r, restarted-after)
        (rw (drop-append row.restarted_after row.attempts _ r.restarted)
          (tally_of-append factory _ _))

  queued-after :
      step_of factory.steps step.id ≡ some step
      → result.ending ≢ limited
      → IsRested row
      → after.status ≡ queued
      → Queues factory step (tally_of factory (counted_attempts row)) outcome_here
  unfolding settle_at
  queued-after found h r q =
      subst (λ t. Queues factory step t outcome_here) (tally-begun r)
        (settled-Queues factory step _ _ _ (types_checked-ne-limited step result h)
          (sym (status-move _ _ _ _) ∙ q))

  failed-after : result.ending ≡ failed → outcome_here.result.ending ≡ failed
  failed-after e = settled-failed factory step _ _ _ (types_checked-failed step result e)

  step-after : (id : String) → after.step ≡ some id → outcome_here.step ≡ some id
  unfolding settle_at
  step-after id t = sym (step-move _ _ _ _) ∙ t

  -- A result that is not limited, and leaves the run queued, leaves it less: of the run at this
  -- step, or of the run wherever it was, where the result failed.
  pub left-after :
      HasUniqueIds factory.steps
      → step_of factory.steps step.id ≡ some step
      → result.ending ≢ limited
      → IsRested row
      → (from id : String) → (step.id ≡ from) ⊎ (result.ending ≡ failed)
      → after.status ≡ queued
      → after.step ≡ some id
      → left factory after id < left factory row from
  left-after u found h r from id (inl same) q t =
      rw (← same, tally-after r)
        (Queues-decreases factory step (tally_of factory (counted_attempts row)) _ now found u
          outcome_here id (step-after id t) (queued-after found h r q))
  left-after u found h r from id (inr e) q t = rw (tally-after r) (
      Queues-failed_decreases factory step (tally_of factory (counted_attempts row)) _ now found
        outcome_here id from (failed-after e) (queued-after found h r q))
