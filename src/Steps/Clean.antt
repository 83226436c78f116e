-- ===== src/Steps/Clean.antt =====
-- core/steps.py: what a step that ends clean has behind it.
use kinby.Steps.Refused.{is_clean, commands_of-IsRefusal, command_failed-IsRefusal}
use kinby.Steps.Results.{
  CommandStepRun, StepRunCommand, failed_with, kept_ending, bounded, cut_summary, result_bytes, fit,
}
use kinby.Steps.Commands.{
  Repository, Expanded, expands, ends, commands_of, CommandEnd, unstarted, exits, killed, runs_past,
  command_failed, or_else, run_commands, run_expanded, run_command_step,
}
use kinby.Steps.Run.{
  Instance, Hook, Hooked, hook_raised, recorded_none, recorded, recorded_by, with_hook,
  recorded_result, branch_of, worktree_error, hooked, run_in, run_step,
}
use kinby.Steps.Listing.{WrittenOut, held_of, commands_of-WrittenOut, WrittenOut-commands_of}
use kinby.Steps.Lasting.{own_result, cut_summary-end}
use kinby.Steps.Coding.{Texts, DelegatedRun}
use kinby.Contracts.Runs.{StepEnding, StepResult, clean}
use kinby.Common.Keyed.{get}
use kinby.Common.{
  ℕ, ◌+◌, ◌≤◌, String, Bool, true, false, ◌&&◌, Option, none, some, List, [], ◌∷◌, ◌==◌, nat_eq,
  string_eq, ◌≡◌, ◌↔◌, refl, ap, sym, ◌∙◌, Bool-cases, inl, inr, arith, ltb,
}

-- The command exits with 0.
abbrev pub passes : CommandEnd → Bool
passes (exits code output) = code == 0
passes _ = false

-- Each command does, the first of them at a place.
abbrev pub all_pass : (ℕ → String → CommandEnd) → ℕ → List String → Bool
all_pass comes_to at [] = true
all_pass comes_to at (line ∷ lines) = passes (comes_to at line) && all_pass comes_to (at + 1) lines

failed_unless :
    (texts : Texts) (timeout : Option ℕ) (line : String) (end : CommandEnd)
    → passes end ≡ true
    → command_failed texts timeout line end ≡ none
unfolding command_failed
failed_unless texts timeout line (exits code output) h = rw h refl
failed_unless texts timeout line (unstarted reason) h = absurd (ground (arith, h))
failed_unless texts timeout line (killed signal output) h = absurd (ground (arith, h))
failed_unless texts timeout line runs_past h = absurd (ground (arith, h))

passes_if :
    (texts : Texts) (timeout : Option ℕ) (line : String) (end : CommandEnd)
    → command_failed texts timeout line end ≡ none
    → passes end ≡ true
unfolding command_failed
passes_if texts timeout line (exits code output) h = elim (Bool-cases (code == 0)) [
  | inl zero_ ↦ zero_
  | inr other ↦ absurd (ground (arith, h, other))
]
passes_if texts timeout line (unstarted reason) h = absurd (ground (arith, h))
passes_if texts timeout line (killed signal output) h = absurd (ground (arith, h))
passes_if texts timeout line runs_past h = absurd (ground (arith, h))

module _ (texts : Texts) (timeout : Option ℕ) (comes_to : ℕ → String → CommandEnd) where
  or_else-passes :
      (line : String) (at : ℕ) (stopped : Option StepResult) (rest : StepResult)
      → command_failed texts timeout line (comes_to at line) ≡ stopped
      → (or_else stopped rest).ending ≡ clean
      → (passes (comes_to at line) ≡ true) × (rest.ending ≡ clean)
  or_else-passes line at none rest e h = (passes_if texts timeout line (comes_to at line) e, h)
  or_else-passes line at (some result) rest e h =
      let refused = command_failed-IsRefusal texts timeout line (comes_to at line) result e in
      absurd (ground (arith, sym (ap is_clean h) ∙ refused.unclean))

  run_commands-clean :
      (at : ℕ) (lines : List String)
      → (run_commands texts timeout comes_to at lines).ending ≡ clean
      → all_pass comes_to at lines ≡ true
  unfolding run_commands
  run_commands-clean at [] h = refl
  run_commands-clean at (line ∷ lines) h =
      let (passed, rest) =
        or_else-passes line at (command_failed texts timeout line (comes_to at line)) _ refl h in
      ground (arith, passed, run_commands-clean (at + 1) lines rest)

  clean-run_commands :
      (at : ℕ) (lines : List String)
      → all_pass comes_to at lines ≡ true
      → (run_commands texts timeout comes_to at lines).ending ≡ clean
  unfolding run_commands
  clean-run_commands at [] h = refl
  clean-run_commands at (line ∷ lines) h =
      rw (failed_unless texts timeout line (comes_to at line) (ground (arith, h)))
        (clean-run_commands (at + 1) lines (ground (arith, h)))

module _ (texts : Texts) (step : CommandStepRun) (repository : Repository)
    (comes_to : ℕ → String → CommandEnd) where
  expanded-passes :
      (expanded : Expanded)
      → commands_of step repository ≡ expanded
      → (run_expanded texts step.timeout_seconds comes_to expanded).ending ≡ clean
      → (lines : List String) × WrittenOut (held_of repository) step.run lines
        × (all_pass comes_to 0 lines ≡ true)
  expanded-passes (expands lines) e h = (
    lines,
    commands_of-WrittenOut step repository lines e,
    run_commands-clean texts step.timeout_seconds comes_to 0 lines h,
  )
  expanded-passes (ends result) e h = absurd (
      ground
        (arith, sym (ap is_clean h) ∙ (commands_of-IsRefusal step repository result e).unclean))

  passes-expanded :
      (lines : List String) (expanded : Expanded)
      → expanded ≡ expands lines
      → all_pass comes_to 0 lines ≡ true
      → (run_expanded texts step.timeout_seconds comes_to expanded).ending ≡ clean
  passes-expanded lines expanded e h =
      rw e (clean-run_commands texts step.timeout_seconds comes_to 0 lines h)

  -- A command step ends clean exactly where its entries come to some commands, each list that they
  -- name being one that its instance holds in a manifest that can be read and standing for its own
  -- commands in its place, and each of these commands exits with 0 before the step's timeout
  -- passes.
  pub run_command_step-clean :
      ((run_command_step texts step repository comes_to).ending ≡ clean) ↔ (
        (lines : List String) × WrittenOut (held_of repository) step.run lines
        × (all_pass comes_to 0 lines ≡ true))
  unfolding run_command_step
  run_command_step-clean = (
    expanded-passes (commands_of step repository) refl,
    λ (lines, w, h).
        passes-expanded lines (commands_of step repository)
          (WrittenOut-commands_of step repository lines w) h,
  )

-- The hook, if the step names one, is one of the instance's and does not raise.
abbrev pub recorded_well : Hooked → Bool
recorded_well (hook_raised reason) = false
recorded_well _ = true

abbrev pub found_well : Instance → StepRunCommand → StepResult → Option Hook → Bool
found_well instance_ asked result none = false
found_well instance_ asked result (some hook) =
    recorded_well (hook result.ending asked.work_item asked.results)

abbrev pub hook_passes : Instance → StepRunCommand → StepResult → Option String → Bool
hook_passes instance_ asked result none = true
hook_passes instance_ asked result (some name) =
    found_well instance_ asked result (get name instance_.hooks)

never_clean :
    (ended : StepResult) (ending : StepEnding) (summary : String)
    → (kept_ending ending ended.resets_at summary).ending ≡ clean
    → ⊥
never_clean ended clean summary h = absurd (ground (arith, ap is_clean h))
never_clean ended StepEnding.failed summary h = absurd (ground (arith, ap is_clean h))
never_clean ended StepEnding.timed_out summary h = absurd (ground (arith, ap is_clean h))
never_clean ended StepEnding.interrupted summary h = absurd (ground (arith, ap is_clean h))
never_clean ended StepEnding.needs_human summary h = absurd (ground (arith, ap is_clean h))
never_clean ended StepEnding.limited summary h = absurd (ground (arith, ap is_clean h))

failed_never_clean :
    (reason : String) (ended : StepResult) → (failed_with reason (some ended)).ending ≡ clean → ⊥
unfolding failed_with
failed_never_clean reason ended h = never_clean ended ended.ending _ h

fit-clean :
    (texts : Texts) (cut : StepResult) (large : Bool)
    → ltb result_bytes (texts.json_size cut) ≡ large
    → (fit texts cut large).ending ≡ clean
    → (cut.ending ≡ clean) × (texts.json_size (fit texts cut large) ≤ result_bytes)
fit-clean texts cut true e h = absurd (failed_never_clean _ cut h)
fit-clean texts cut false e h = (h, ground (arith, e))

bounded-clean :
    (texts : Texts) (result : StepResult)
    → (bounded texts result).ending ≡ clean
    → (result.ending ≡ clean) × (texts.json_size (bounded texts result) ≤ result_bytes)
unfolding bounded
bounded-clean texts result h =
    let cut = cut_summary texts result in
    let (kept, fits) = fit-clean texts cut (ltb result_bytes (texts.json_size cut)) refl h in
    (sym (ap (λ end. end.0) (cut_summary-end texts result)) ∙ kept, fits)

module _ (texts : Texts) (instance_ : Instance) (asked : StepRunCommand) where
  recorded_by-clean :
      (name : String) (result : StepResult) (end : Hooked)
      → (recorded_by name result end).ending ≡ clean
      → (result.ending ≡ clean) × (recorded_well end ≡ true)
  recorded_by-clean name result (hook_raised reason) h = absurd (failed_never_clean _ result h)
  recorded_by-clean name result recorded_none h = (h, refl)
  recorded_by-clean name result (recorded hook) h = (h, refl)

  with_hook-clean :
      (name : String) (result : StepResult) (found : Option Hook)
      → (with_hook instance_ asked result name found).ending ≡ clean
      → (result.ending ≡ clean) × (found_well instance_ asked result found ≡ true)
  with_hook-clean name result none h = absurd (failed_never_clean _ result h)
  with_hook-clean name result (some hook) h = recorded_by-clean name result _ h

  hooked-clean :
      (result : StepResult) (hook : Option String)
      → (hooked instance_ asked result hook).ending ≡ clean
      → (result.ending ≡ clean) × (hook_passes instance_ asked result hook ≡ true)
  unfolding recorded_result
  hooked-clean result none h = (h, refl)
  hooked-clean result (some name) h = with_hook-clean name result (get name instance_.hooks) h

  module _ (log : List DelegatedRun) where
    run_in-clean :
        (error : Option String)
        → (run_in texts instance_ asked log error).0.ending ≡ clean
        → (error ≡ none)
          × ((own_result texts instance_ asked log).ending ≡ clean)
          × (hook_passes instance_ asked (own_result texts instance_ asked log) asked.hook ≡ true)
          × (texts.json_size (run_in texts instance_ asked log error).0 ≤ result_bytes)
    unfolding failed_with
    run_in-clean (some reason) h = absurd (ground (arith, ap is_clean h))
    run_in-clean none h =
        let own = own_result texts instance_ asked log in
        let (before, fits) = bounded-clean texts (hooked instance_ asked own asked.hook) h in
        let (ran, passed) = hooked-clean own asked.hook before in (refl, ran, passed, fits)

    -- A step that is handed back clean had the run worktree of its branch, ran clean by itself, was
    -- recorded by its hook, where it names one, without an error, and its result fits the limit.
    pub run_step-clean :
        (run_step texts instance_ asked log).0.ending ≡ clean
        → (worktree_error instance_ (branch_of asked.step) ≡ none)
          × ((own_result texts instance_ asked log).ending ≡ clean)
          × (hook_passes instance_ asked (own_result texts instance_ asked log) asked.hook ≡ true)
          × (texts.json_size (run_step texts instance_ asked log).0 ≤ result_bytes)
    unfolding run_step
    run_step-clean h = run_in-clean (worktree_error instance_ (branch_of asked.step)) h
