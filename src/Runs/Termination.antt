-- ===== src/Runs/Termination.antt =====
-- Work in hub/runs.py comes to a stop: each result that leaves a run queued uses up rework or moves
-- the run forward.
use kinby.Common.{
  ap, ℕ, suc, ◌+◌, ◌*◌, ◌<◌, String, ◌≡◌, refl, Option, none, some, string_eq, arith, length, In,
}
use kinby.Contracts.Runs.{failed, StepResult, StepAttempt}
use kinby.Factory.File.{SendBack, send_back, Step, FactoryFile}
use kinby.Factory.Check.{edges_of}
use kinby.Factory.Check.Order.{HasUniqueIds}
use kinby.Factory.Check.Edges.{In-edges_of-outcome, In-edges_of-failed}
use kinby.Runs.Values.{step_of}
use kinby.Runs.Values.Laws.{remaining, remaining-le, remaining-following}
use kinby.Runs.Tally.Laws.{
  count_attempt-next, count_attempt-back, count_attempt-failure_back, count_attempt-again,
}
use kinby.Runs.Tally.{Tally, outcome_of, count_attempt}
use kinby.Runs.Settle.{Settled}
use kinby.Runs.Settle.Moves.{Queues, forward, back, failure_back, again}
use kinby.Runs.Budget.{budget, budget-sent-lt, budget-missed-lt}

-- Rework left first, then the steps that are left.
abbrev pub measure : FactoryFile → Tally → String → ℕ
measure factory tally id =
    budget tally factory.steps * suc (length factory.steps) + remaining factory.steps id

lex_lt : (b b' n r r' : ℕ) → b' < b → r' < suc n → b' * suc n + r' < b * suc n + r
lex_lt b b' n r r' h k = grind arith

outcome-edge :
    (step : Step) (name : Option String) (edge : SendBack)
    → outcome_of step name ≡ some (send_back edge)
    → In edge (edges_of step)
unfolding outcome_of
outcome-edge step none edge h = cc
outcome-edge step (some name) edge h = In-edges_of-outcome step name edge h

-- The attempt as the registry holds it once it ended with the result.
abbrev pub ended_with : String → ℕ → ℕ → StepResult → StepAttempt
ended_with id attempt started result = record {
  step = id;
  attempt = attempt;
  ending = some result.ending;
  outcome = result.outcome;
  values = result.values;
  summary = result.summary;
  session = result.session;
  started_at = started;
}

-- Less rework left is a lower measure, wherever the run goes; so is the same with fewer steps left.
measure_of_rework :
    (factory : FactoryFile) (after tally : Tally) (to id : String)
    → budget after factory.steps < budget tally factory.steps
    → measure factory after to < measure factory tally id
measure_of_rework factory after tally to id h =
    lex_lt _ _ (length factory.steps) _ _ h (remaining-le factory.steps to)

module _ (factory : FactoryFile) (step : Step) (tally : Tally) (attempt started : ℕ)
    (found : step_of factory.steps step.id ≡ some step) where
  pub Queues-decreases :
      HasUniqueIds factory.steps
      → (s : Settled) (id : String) → s.step ≡ some id
      → Queues factory step tally s
      → measure factory
          (count_attempt factory (ended_with step.id attempt started s.result) tally)
          id
        < measure factory tally step.id
  Queues-decreases u s id t (forward after c o f e) =
      let to : id ≡ after.id = cc in
      rw
        (count_attempt-next factory step tally (ended_with step.id attempt started s.result) found
          (ap some c) o)
        (rw to (omega (arith, remaining-following factory.steps step.id after u f)))
  Queues-decreases u s id t (back edge c o r e) =
      rw
        (count_attempt-back factory step tally (ended_with step.id attempt started s.result) found
          edge (ap some c) o)
        (measure_of_rework factory _ tally id step.id (
          budget-sent-lt step.id tally factory.steps step edge found
            (outcome-edge step s.result.outcome edge o) r))
  Queues-decreases u s id t (failure_back edge c d r e) =
      rw
        (count_attempt-failure_back factory step tally (ended_with step.id attempt started s.result)
          found edge (ap some c) d)
        (measure_of_rework factory _ tally id step.id (
          budget-sent-lt step.id tally factory.steps step edge found
            (In-edges_of-failed step edge d) r))
  Queues-decreases u s id t (again c l f r e) =
      rw
        (count_attempt-again factory step tally (ended_with step.id attempt started s.result) found
          _ refl c l f)
        (measure_of_rework factory _ tally id step.id
          (budget-missed-lt step.id tally factory.steps step found r))

  -- A failure that leaves the run queued uses up rework, wherever the run was.
  pub Queues-failed_decreases :
      (s : Settled) (id from : String)
      → s.result.ending ≡ failed
      → Queues factory step tally s
      → measure factory
          (count_attempt factory (ended_with step.id attempt started s.result) tally)
          id
        < measure factory tally from
  Queues-failed_decreases s id from h (forward after c o f e) = absurd (cc)
  Queues-failed_decreases s id from h (back edge c o r e) = absurd (cc)
  Queues-failed_decreases s id from h (failure_back edge c d r e) =
      rw
        (count_attempt-failure_back factory step tally (ended_with step.id attempt started s.result)
          found edge (ap some c) d)
        (measure_of_rework factory _ tally id from (
          budget-sent-lt step.id tally factory.steps step edge found
            (In-edges_of-failed step edge d) r))
  Queues-failed_decreases s id from h (again c l f r e) =
      rw
        (count_attempt-again factory step tally (ended_with step.id attempt started s.result) found
          _ refl c l f)
        (measure_of_rework factory _ tally id from
          (budget-missed-lt step.id tally factory.steps step found r))
