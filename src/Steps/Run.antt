-- ===== src/Steps/Run.antt =====
-- core/steps.py: a step run in its instance, and the hook that records its result.
use kinby.Common.{ℕ, String, Option, none, some, List, [], ◌∷◌, string_eq}
use kinby.Common.Keyed.{Dict, get}
use kinby.Common.Text.{text}
use kinby.Contracts.Runs.{StepValue, StepEnding, StepResult}
use kinby.Steps.Coding.{Texts, DelegatedRun, Exit, Streams}
use kinby.Steps.Results.{
  ClientStepRun, StepRun, StepRunCommand, HookResult, failed_with, bounded, client_step, agent_step,
  command_step, code_step,
}
use kinby.Steps.Kinds.{TurnRun, Tool, run_agent_step, run_client_step, run_code_step}
use kinby.Steps.Commands.{Repository, CommandEnd, run_command_step}

-- What a hook's run comes to.
pub data Hooked : Type 0 where
  hook_raised : String → Hooked
  recorded_none : Hooked
  recorded : HookResult → Hooked

-- A hook reads how the step ended, the work item and the earlier results.
abbrev pub Hook : Type 0
Hook = StepEnding → Dict String StepValue → Dict String StepValue → Hooked

-- The instance that a step runs in: the error of a branch's run worktree, if it has one, what a
-- turn, a client and the commands come to, the tools and hooks it has, and the warnings of the
-- hooks that did not load.
pub record Instance : Type 0 where
  pub run_worktree : String → Option String
  pub step_turn : String → TurnRun
  pub client_runs : ClientStepRun → Option String → Exit × Streams
  pub repository : Repository
  pub comes_to : ℕ → String → CommandEnd
  pub tools : Dict String Tool
  pub hooks : Dict String Hook
  pub unloaded : String

abbrev pub recorded_by : String → StepResult → Hooked → StepResult
recorded_by name result (hook_raised reason) =
    failed_with (text ("Hook \"" ∷ name ∷ "\" failed: " ∷ reason ∷ [])) (some result)
recorded_by name result recorded_none = result
recorded_by name result (recorded hook) = record result {
  outcome = hook.outcome;
  values = hook.values;
}

abbrev pub with_hook : Instance → StepRunCommand → StepResult → String → Option Hook → StepResult
with_hook instance_ asked result name none =
    failed_with
      (text
        ("Hook \"" ∷ name ∷ "\" is not one of this instance's hooks." ∷ instance_.unloaded ∷ []))
      (some result)
with_hook instance_ asked result name (some hook) =
    recorded_by name result (hook result.ending asked.work_item asked.results)

-- `_recorded`
unfoldable pub recorded_result : Instance → StepRunCommand → StepResult → String → StepResult
unfolding failed_with get text
recorded_result instance_ asked result name =
    with_hook instance_ asked result name (get name instance_.hooks)

abbrev pub branch_of : StepRun → Option String
branch_of (client_step step) = step.branch
branch_of (command_step step) = step.branch
branch_of _ = none

abbrev pub worktree_error : Instance → Option String → Option String
worktree_error instance_ none = none
worktree_error instance_ (some branch) = instance_.run_worktree branch

-- The step's own result, and the log with its delegated run.
abbrev pub step_result :
    Texts → Instance → StepRunCommand → List DelegatedRun → StepRun → StepResult × List DelegatedRun
step_result texts instance_ asked log (agent_step prompt) =
    (run_agent_step texts (instance_.step_turn prompt), log)
step_result texts instance_ asked log (client_step step) =
    run_client_step texts step (instance_.client_runs step) log
step_result texts instance_ asked log (command_step step) =
    (run_command_step texts step instance_.repository instance_.comes_to, log)
step_result texts instance_ asked log (code_step name summary) =
    (run_code_step asked name summary instance_.tools, log)

abbrev pub hooked : Instance → StepRunCommand → StepResult → Option String → StepResult
hooked instance_ asked result none = result
hooked instance_ asked result (some name) = recorded_result instance_ asked result name

abbrev pub run_in :
    Texts
    → Instance
    → StepRunCommand
    → List DelegatedRun
    → Option String
    → StepResult × List DelegatedRun
run_in texts instance_ asked log (some reason) = (failed_with reason none, log)
run_in texts instance_ asked log none =
    let (result, later) = step_result texts instance_ asked log asked.step in
    (bounded texts (hooked instance_ asked result asked.hook), later)

-- `run_step`
unfoldable pub run_step :
    Texts → Instance → StepRunCommand → List DelegatedRun → StepResult × List DelegatedRun
unfolding run_agent_step run_client_step run_command_step run_code_step recorded_result failed_with
    bounded
run_step texts instance_ asked log =
    run_in texts instance_ asked log (worktree_error instance_ (branch_of asked.step))
