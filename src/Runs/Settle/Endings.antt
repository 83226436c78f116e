-- ===== src/Runs/Settle/Endings.antt =====
-- Where a settled result of hub/runs.py leaves its run, beside the moves that keep it queued.
use kinby.Common.{
  String, ◌≡◌, string_eq, pair_eq, inl, inr, Option-cases, refl, Option, some, none, Bool-cases,
  leb,
}
use kinby.Common.Keyed.{Dict, merge, count}
use kinby.Contracts.Runs.{
  StepValue, StepEnding, clean, timed_out, limited, interrupted, FactoryRunStatus, queued, running,
  parked, needs_human, cancelled, StepResult,
}
use kinby.Factory.File.{SendBack, Outcome, next, stop, send_back, Step, FactoryFile}
use kinby.Runs.Values.{following, lacking}
use kinby.Runs.Tally.{Tally, outcome_of, retries}
use kinby.Runs.Settle.{
  Settled, noted, checked_done, unclean, unclean_moves, finished, ends_run, no_outcome, clean_moves,
  settled_by, settled,
}

-- A run that is done is at no step: its last result is clean, and its values and those it held
-- have all that done_requires names. One that was stopped, or needs a human, stays at its step.
abbrev pub IsPlaced :
    FactoryFile → Step → Dict String StepValue → Settled → FactoryRunStatus → Type 0
IsPlaced factory step held s FactoryRunStatus.done =
    (s.step ≡ none)
    × (s.result.ending ≡ clean)
    × (lacking (merge held s.result.values) factory.done_requires ≡ none)
IsPlaced factory step held s cancelled =
    (s.step ≡ some step.id) × (outcome_of step s.result.outcome ≡ some stop)
IsPlaced factory step held s needs_human = s.step ≡ some step.id
IsPlaced factory step held s queued = (id : String) × (s.step ≡ some id)
IsPlaced factory step held s running = ⊥
IsPlaced factory step held s parked = ⊥

module _ (factory : FactoryFile) (step : Step) (held : Dict String StepValue) (tally : Tally) where
  abbrev Placed : Settled → Type 0
  Placed s = IsPlaced factory step held s s.status

  unclean_moves-Placed :
      (result : StepResult) (edge : Option SendBack) → Placed (unclean_moves step result tally edge)
  unfolding unclean_moves
  unclean_moves-Placed result none =
      elim (Bool-cases (leb (retries step) (count step.id tally.failures))) [
        | inl e ↦ rw e refl
        | inr e ↦ rw e (step.id, refl)
      ]
  unclean_moves-Placed result (some edge) =
      elim (Bool-cases (leb edge.max (count (step.id, edge.back) tally.sent_back))) [
        | inl e ↦ rw e refl
        | inr e ↦ rw e (edge.back, refl)
      ]

  unclean-Placed :
      (result : StepResult) (ending : StepEnding) → Placed (unclean step result tally ending)
  unfolding unclean
  unclean-Placed result StepEnding.failed = unclean_moves-Placed result step.failed
  unclean-Placed result timed_out = refl
  unclean-Placed result StepEnding.needs_human = refl
  unclean-Placed result clean = unclean_moves-Placed result none
  unclean-Placed result interrupted = unclean_moves-Placed result none
  unclean-Placed result limited = unclean_moves-Placed result none

  -- What is clean once it was checked holds all that `done_requires` names.
  checked_done-clean :
      (result : StepResult)
      → (checked_done factory held result).ending ≡ clean
      → lacking (merge held (checked_done factory held result).values) factory.done_requires ≡ none
  unfolding checked_done noted
  checked_done-clean result =
      elim (Option-cases (lacking (merge held result.values) factory.done_requires)) [
        | inl all_held ↦ rw (all_held, checked_done) (λ e. all_held)
        | inr (name, lacks) ↦ rw (lacks, checked_done) (λ e. absurd (cc e))
      ]

  finished-Placed :
      (checked : StepResult) (ending : StepEnding)
      → checked.ending ≡ ending
      → (ending ≡ clean → lacking (merge held checked.values) factory.done_requires ≡ none)
      → Placed (finished step checked tally ending)
  unfolding finished
  finished-Placed checked clean e h = (refl, e, h refl)
  finished-Placed checked StepEnding.failed e h = unclean-Placed checked StepEnding.failed
  finished-Placed checked timed_out e h = unclean-Placed checked timed_out
  finished-Placed checked interrupted e h = unclean-Placed checked interrupted
  finished-Placed checked limited e h = unclean-Placed checked limited
  finished-Placed checked StepEnding.needs_human e h = unclean-Placed checked StepEnding.needs_human

  ends_run-Placed : (result : StepResult) → Placed (ends_run factory step result held tally)
  unfolding ends_run
  ends_run-Placed result =
      let checked = checked_done factory held result in
      finished-Placed checked checked.ending refl (checked_done-clean result)

  clean_moves-Placed :
      (result : StepResult) (outcome : Option Outcome)
      → outcome_of step result.outcome ≡ outcome
      → Placed (clean_moves factory step result held tally outcome)
  unfolding clean_moves
  clean_moves-Placed result none o = unclean-Placed (no_outcome step result) StepEnding.failed
  clean_moves-Placed result (some stop) o = (refl, o)
  clean_moves-Placed result (some (send_back edge)) o =
      elim (Bool-cases (leb edge.max (count (step.id, edge.back) tally.sent_back))) [
        | inl full ↦ rw full refl
        | inr room ↦ rw room (edge.back, refl)
      ]
  clean_moves-Placed result (some next) o = elim (Option-cases (following factory.steps step.id)) [
    | inl last ↦ rw (last, clean_moves) (ends_run-Placed result)
    | inr (after, more) ↦ rw (more, clean_moves) (after.id, refl)
  ]
  clean_moves-Placed result (some Outcome.done) o = ends_run-Placed result

  settled_by-Placed :
      (result : StepResult) (ending : StepEnding)
      → Placed (settled_by factory step result held tally ending)
  unfolding settled_by
  settled_by-Placed result clean = clean_moves-Placed result (outcome_of step result.outcome) refl
  settled_by-Placed result StepEnding.failed = unclean-Placed result StepEnding.failed
  settled_by-Placed result timed_out = unclean-Placed result timed_out
  settled_by-Placed result interrupted = unclean-Placed result interrupted
  settled_by-Placed result limited = unclean-Placed result limited
  settled_by-Placed result StepEnding.needs_human = unclean-Placed result StepEnding.needs_human

  -- Whatever a step hands back, a run that it leaves done is at no step, its recorded result is
  -- clean, and the values held with that result's lack nothing that done_requires names; a
  -- cancelled run stays at the step, whose outcome is stop; one that needs a human stays at the
  -- step; a queued one is at a step; and no run is left running or parked.
  pub settled-IsPlaced :
      (result : StepResult)
      → IsPlaced factory step held
          (settled factory step result held tally)
          (settled factory step result held tally).status
  unfolding settled
  settled-IsPlaced result = settled_by-Placed result result.ending
