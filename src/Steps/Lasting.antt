-- ===== src/Steps/Lasting.antt =====
-- core/steps.py with hub/runs.py: no hook and no bound changes how a step that did not end clean
-- ended and when its limit resets, and the hub's run holds there.
use kinby.Steps.Refused.{is_clean}
use kinby.Common.{
  ℕ, String, true, false, Option, none, some, List, ◌≡◌, refl, ◌∙◌, ap, Bool-cases, inl, inr, ltb,
  string_eq, arith,
}
use kinby.Common.Keyed.{get}
use kinby.Contracts.Runs.{StepEnding, StepResult, clean}
use kinby.Factory.File.{FactoryFile}
use kinby.Runs.Row.{Row}
use kinby.Runs.Engine.{settle}
use kinby.Runs.Engine.Stops.{is_lasting, stops_as, stop_of, settle-lasting}
use kinby.Steps.Coding.{Texts, DelegatedRun}
use kinby.Steps.Results.{
  StepRunCommand, failed_with, kept_ending, bounded, cut_summary, result_bytes,
}
use kinby.Steps.Run.{
  Instance, Hooked, hook_raised, recorded_none, recorded, Hook, recorded_by, with_hook,
  recorded_result, branch_of, worktree_error, step_result, hooked, run_in, run_step,
}
use kinby.Steps.Valid.{run_step-IsValid}

-- How a step ended, and when the plan's limit that ended it resets.
abbrev pub end_of : StepResult → StepEnding × Option ℕ
end_of result = (result.ending, result.resets_at)

kept_ending-unclean :
    (ended : StepResult) (ending : StepEnding) (summary : String)
    → is_clean ending ≡ false
    → end_of (kept_ending ending ended.resets_at summary) ≡ (ending, ended.resets_at)
kept_ending-unclean ended clean summary h = absurd (ground (arith, h))
kept_ending-unclean ended StepEnding.failed summary h = refl
kept_ending-unclean ended StepEnding.timed_out summary h = refl
kept_ending-unclean ended StepEnding.interrupted summary h = refl
kept_ending-unclean ended StepEnding.needs_human summary h = refl
kept_ending-unclean ended StepEnding.limited summary h = refl

failed_with-unclean :
    (reason : String) (ended : StepResult)
    → is_clean ended.ending ≡ false
    → end_of (failed_with reason (some ended)) ≡ end_of ended
unfolding failed_with
failed_with-unclean reason ended h = kept_ending-unclean ended ended.ending _ h

pub cut_summary-end :
    (texts : Texts) (result : StepResult) → end_of (cut_summary texts result) ≡ end_of result
unfolding cut_summary
cut_summary-end texts result = ground arith

bounded-unclean :
    (texts : Texts) (result : StepResult)
    → is_clean result.ending ≡ false
    → end_of (bounded texts result) ≡ end_of result
unfolding bounded
bounded-unclean texts result h =
    let same = cut_summary-end texts result in
    elim (Bool-cases (ltb result_bytes (texts.json_size (cut_summary texts result)))) [
      | inr fits ↦ rw fits same
      | inl large ↦ rw large (
          failed_with-unclean _ (cut_summary texts result) (ap (λ end. is_clean (end.0)) same ∙ h)
          ∙ same)
    ]

module _ (texts : Texts) (instance_ : Instance) (asked : StepRunCommand) where
  recorded_by-unclean :
      (name : String) (result : StepResult) (end : Hooked)
      → is_clean result.ending ≡ false
      → end_of (recorded_by name result end) ≡ end_of result
  recorded_by-unclean name result (hook_raised reason) h = failed_with-unclean _ result h
  recorded_by-unclean name result recorded_none h = refl
  recorded_by-unclean name result (recorded hook) h = refl

  with_hook-unclean :
      (name : String) (result : StepResult) (found : Option Hook)
      → is_clean result.ending ≡ false
      → end_of (with_hook instance_ asked result name found) ≡ end_of result
  with_hook-unclean name result none h = failed_with-unclean _ result h
  with_hook-unclean name result (some hook) h = recorded_by-unclean name result _ h

  hooked-unclean :
      (result : StepResult) (hook : Option String)
      → is_clean result.ending ≡ false
      → end_of (hooked instance_ asked result hook) ≡ end_of result
  unfolding recorded_result
  hooked-unclean result none h = refl
  hooked-unclean result (some name) h = with_hook-unclean name result (get name instance_.hooks) h

  module _ (log : List DelegatedRun) where
    abbrev pub own_result : StepResult
    own_result = (step_result texts instance_ asked log asked.step).0

    run_in-unclean :
        (error : Option String)
        → error ≡ none
        → is_clean own_result.ending ≡ false
        → end_of (run_in texts instance_ asked log error).0 ≡ end_of own_result
    run_in-unclean (some reason) e h = absurd (ground (arith, e))
    run_in-unclean none e h =
        let same = hooked-unclean own_result asked.hook h in
        bounded-unclean texts (hooked instance_ asked own_result asked.hook)
          (ap (λ end. is_clean (end.0)) same ∙ h)
        ∙ same

    run_step-unclean :
        worktree_error instance_ (branch_of asked.step) ≡ none
        → is_clean own_result.ending ≡ false
        → end_of (run_step texts instance_ asked log).0 ≡ end_of own_result
    unfolding run_step
    run_step-unclean ready h =
        run_in-unclean (worktree_error instance_ (branch_of asked.step)) ready h

    lasting_unclean : (ending : StepEnding) → is_lasting ending ≡ true → is_clean ending ≡ false
    lasting_unclean clean h = absurd (ground (arith, h))
    lasting_unclean StepEnding.failed h = refl
    lasting_unclean StepEnding.timed_out h = refl
    lasting_unclean StepEnding.interrupted h = refl
    lasting_unclean StepEnding.needs_human h = refl
    lasting_unclean StepEnding.limited h = refl

    -- A step that ran past its timeout, or that lacks what only the user can supply, leaves its run
    -- to the user, with no time at which it wakes. One that the plan limited leaves its run parked
    -- until the time at which, by the step's own result, the limit resets. This holds whatever the
    -- step's hook does, however large its result is and whatever its factory's file says, where the
    -- step's branch has its run worktree and the run is at a step.
    pub run_step-stops :
        (file : Option FactoryFile) (row : Row) (id : String)
        → worktree_error instance_ (branch_of asked.step) ≡ none
        → is_lasting own_result.ending ≡ true
        → row.step ≡ some id
        → stop_of (settle file (run_step texts instance_ asked log).0 row)
          ≡ some (stops_as own_result.ending, own_result.resets_at)
    run_step-stops file row id ready lasting at =
        let same = run_step-unclean ready (lasting_unclean own_result.ending lasting) in
        settle-lasting (run_step texts instance_ asked log).0 row file id at
          (ap (λ end. is_lasting (end.0)) same ∙ lasting)
          (run_step-IsValid texts instance_ asked log)
        ∙ ap (λ end. some (stops_as (end.0), end.1)) same
