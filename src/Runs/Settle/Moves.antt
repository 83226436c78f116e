-- ===== src/Runs/Settle/Moves.antt =====
-- The ways in which `_settled` of hub/runs.py leaves a run queued.
use kinby.Common.{
  String, ◌≡◌, ◌≢◌, ◌<◌, refl, Option, none, some, arith, Option-cases, Bool-cases, leb, inl, inr,
  string_eq, pair_eq,
}
use kinby.Common.Keyed.{Dict, count}
use kinby.Contracts.Runs.{StepValue, StepEnding, clean, failed, limited, queued, StepResult}
use kinby.Factory.File.{SendBack, Outcome, next, send_back, Step, FactoryFile}
use kinby.Runs.Values.{following}
use kinby.Runs.Tally.{Tally, outcome_of, retries, failed_to}
use kinby.Runs.Settle.{
  Settled, sent_along, noted, checked_done, checked_types, unclean_moves, unclean, finished,
  ends_run, clean_moves, settled_by, settled,
}

-- A run that stays queued moves forward, or its work goes back along an edge that still has room,
-- or the step is tried again while its retries last. `s` is what was recorded and where it goes.
pub data Queues (factory : FactoryFile) (step : Step) (tally : Tally) (s : Settled) : Type 0 where
  forward :
      (after : Step)
      → s.result.ending ≡ clean
      → outcome_of step s.result.outcome ≡ some next
      → following factory.steps step.id ≡ some after
      → s.step ≡ some after.id
      → Queues factory step tally s
  back :
      (edge : SendBack)
      → s.result.ending ≡ clean
      → outcome_of step s.result.outcome ≡ some (send_back edge)
      → sent_along tally step.id edge < edge.max
      → s.step ≡ some edge.back
      → Queues factory step tally s
  failure_back :
      (edge : SendBack)
      → s.result.ending ≡ failed
      → step.failed ≡ some edge
      → sent_along tally step.id edge < edge.max
      → s.step ≡ some edge.back
      → Queues factory step tally s
  again :
      s.result.ending ≢ clean
      → s.result.ending ≢ limited
      → failed_to (some step) (some s.result.ending) ≡ none
      → count step.id tally.failures < retries step
      → s.step ≡ some step.id
      → Queues factory step tally s

module _ (factory : FactoryFile) (step : Step) (tally : Tally) where
  unclean_moves-edge :
      (result : StepResult) (edge : SendBack)
      → result.ending ≡ failed
      → step.failed ≡ some edge
      → (unclean_moves step result tally (some edge)).status ≡ queued
      → Queues factory step tally (unclean_moves step result tally (some edge))
  unfolding unclean_moves
  unclean_moves-edge result edge e d q =
      elim (Bool-cases (leb edge.max (sent_along tally step.id edge))) [
        | inl full ↦ absurd (ground arith)
        | inr room ↦ rw room (failure_back edge e d (ground arith) refl)
      ]

  unclean_moves-none :
      (result : StepResult)
      → result.ending ≢ clean
      → result.ending ≢ limited
      → failed_to (some step) (some result.ending) ≡ none
      → (unclean_moves step result tally none).status ≡ queued
      → Queues factory step tally (unclean_moves step result tally none)
  unfolding unclean_moves
  unclean_moves-none result c l f q =
      elim (Bool-cases (leb (retries step) (count step.id tally.failures))) [
        | inl spent ↦ absurd (ground arith)
        | inr left ↦ rw left (again c l f (ground arith) refl)
      ]

  unclean_moves-failed :
      (result : StepResult) (edge : Option SendBack)
      → result.ending ≡ failed
      → step.failed ≡ edge
      → (unclean_moves step result tally edge).status ≡ queued
      → Queues factory step tally (unclean_moves step result tally edge)
  unfolding failed_to
  unclean_moves-failed result (some edge) e d q = unclean_moves-edge result edge e d q
  unclean_moves-failed result none e d q =
      unclean_moves-none result (λ c. cc) (λ l. cc) (rw (e, failed_to) d) q

  unclean-Queues :
      (result : StepResult) (ending : StepEnding)
      → result.ending ≡ ending
      → ending ≢ clean
      → ending ≢ limited
      → (unclean step result tally ending).status ≡ queued
      → Queues factory step tally (unclean step result tally ending)
  unfolding unclean failed_to
  unclean-Queues result StepEnding.clean e c l q = absurd (c refl)
  unclean-Queues result StepEnding.failed e c l q = unclean_moves-failed result step.failed e refl q
  unclean-Queues result StepEnding.timed_out e c l q = absurd (cc)
  unclean-Queues result StepEnding.needs_human e c l q = absurd (cc)
  unclean-Queues result StepEnding.limited e c l q = absurd (l refl)
  unclean-Queues result StepEnding.interrupted e c l q =
      unclean_moves-none result (λ x. cc) (λ x. cc) (rw (e, failed_to)) q

  finished-Queues :
      (result : StepResult) (ending : StepEnding)
      → result.ending ≡ ending
      → ending ≢ limited
      → (finished step result tally ending).status ≡ queued
      → Queues factory step tally (finished step result tally ending)
  unfolding finished
  finished-Queues result StepEnding.clean e l q = absurd (cc)
  finished-Queues result StepEnding.failed e l q = unclean-Queues result _ e (λ x. cc) l q
  finished-Queues result StepEnding.timed_out e l q = unclean-Queues result _ e (λ x. cc) l q
  finished-Queues result StepEnding.interrupted e l q = unclean-Queues result _ e (λ x. cc) l q
  finished-Queues result StepEnding.needs_human e l q = unclean-Queues result _ e (λ x. cc) l q
  finished-Queues result StepEnding.limited e l q = absurd (l refl)

  module _ (result : StepResult) (held : Dict String StepValue) where
    ending-checked_done :
        result.ending ≡ clean → (checked_done factory held result).ending ≢ limited
    unfolding checked_done noted
    ending-checked_done e = ground arith

    ends_run-Queues :
        result.ending ≡ clean
        → (ends_run factory step result held tally).status ≡ queued
        → Queues factory step tally (ends_run factory step result held tally)
    unfolding ends_run
    ends_run-Queues e q = finished-Queues _ _ refl (ending-checked_done e) q

    clean_moves-Queues :
        (outcome : Option Outcome)
        → result.ending ≡ clean
        → outcome_of step result.outcome ≡ outcome
        → (clean_moves factory step result held tally outcome).status ≡ queued
        → Queues factory step tally (clean_moves factory step result held tally outcome)
    unfolding clean_moves noted
    clean_moves-Queues none e o q = unclean-Queues _ failed refl (λ x. cc) (λ x. cc) q
    clean_moves-Queues (some Outcome.stop) e o q = absurd (cc)
    clean_moves-Queues (some Outcome.done) e o q = ends_run-Queues e q
    clean_moves-Queues (some (send_back edge)) e o q =
        elim (Bool-cases (leb edge.max (sent_along tally step.id edge))) [
          | inl full ↦ absurd (ground arith)
          | inr room ↦ rw room (back edge e o (ground arith) refl)
        ]
    clean_moves-Queues (some next) e o q = elim (Option-cases (following factory.steps step.id)) [
      | inl last ↦ rw (last, clean_moves) (ends_run-Queues e (rw (last, clean_moves) at q))
      | inr (after, found) ↦ rw (found, clean_moves) (forward after e o found refl)
    ]

    settled_by-Queues :
        (ending : StepEnding)
        → result.ending ≡ ending
        → ending ≢ limited
        → (settled_by factory step result held tally ending).status ≡ queued
        → Queues factory step tally (settled_by factory step result held tally ending)
    unfolding settled_by
    settled_by-Queues StepEnding.clean e l q = clean_moves-Queues _ e refl q
    settled_by-Queues StepEnding.failed e l q = unclean-Queues result _ e (λ x. cc) l q
    settled_by-Queues StepEnding.timed_out e l q = unclean-Queues result _ e (λ x. cc) l q
    settled_by-Queues StepEnding.interrupted e l q = unclean-Queues result _ e (λ x. cc) l q
    settled_by-Queues StepEnding.needs_human e l q = unclean-Queues result _ e (λ x. cc) l q
    settled_by-Queues StepEnding.limited e l q = absurd (l refl)

    -- Whatever a step hands back that is not limited, a run it leaves queued either moves forward
    -- to the following step on a clean next outcome, or goes back along an edge of its outcome or
    -- of its failures that still has room below its max, or stays at the step whose retries are
    -- not used up.
    pub settled-Queues :
        result.ending ≢ limited
        → (settled factory step result held tally).status ≡ queued
        → Queues factory step tally (settled factory step result held tally)
    unfolding settled
    settled-Queues l q = settled_by-Queues result.ending refl l q

unclean_moves_ending :
    (step : Step) (result : StepResult) (tally : Tally) (edge : Option SendBack)
    → result.ending ≡ failed
    → (unclean_moves step result tally edge).result.ending ≡ failed
unfolding unclean_moves noted
unclean_moves_ending step result tally (some edge) e = ground arith
unclean_moves_ending step result tally none e = ground arith

-- A failed result is recorded as failed.
pub settled-failed :
    (factory : FactoryFile) (step : Step) (result : StepResult) (held : Dict String StepValue)
    (tally : Tally)
    → result.ending ≡ failed
    → (settled factory step result held tally).result.ending ≡ failed
unfolding settled settled_by unclean
settled-failed factory step result held tally e =
    rw (e, settled_by) (unclean_moves_ending step result tally step.failed e)

-- Checking the types of a result's values does not make it limited.
pub checked_types-ne-limited :
    (step : Step) (result : StepResult)
    → result.ending ≢ limited
    → (checked_types step result).ending ≢ limited
unfolding checked_types noted
checked_types-ne-limited step result h = ground arith
