-- ===== src/Steps/Valid.antt =====
-- core/steps.py: every result that a step's run hands back is one that the contract admits.
use kinby.Steps.Refused.{IsValid, commands_of-IsRefusal, command_failed-IsRefusal}
use kinby.Steps.Reported.{run_coding_client-IsRun, client_result-IsValid}
use kinby.Common.{
  ℕ, String, true, Option, none, some, List, [], ◌∷◌, ◌≡◌, refl, arith, Bool-cases, inl, inr,
  nat_eq, string_eq, ltb, ◌+◌,
}
use kinby.Common.Keyed.{Dict, get}
use kinby.Contracts.Runs.{StepEnding, StepResult, clean, resets_when_limited}
use kinby.Steps.Coding.{Texts, DelegatedRun}
use kinby.Steps.Results.{
  StepRun, StepRunCommand, failed_with, kept_ending, bounded, cut_summary, CommandStepRun,
  agent_step, client_step, command_step, code_step, result_bytes,
}
use kinby.Steps.Kinds.{
  TurnRun, run_agent_step, run_client_step, Called, Tool, code_result, run_code_step, refused,
  closed, turn_failed, delta, called, other_event, completed, returned, mapped, printed, with_tool,
  tool_raised, returned_none,
}
use kinby.Steps.Commands.{
  Repository, Expanded, commands_of, CommandEnd, command_failed, run_commands, run_command_step,
  ends, expands, run_expanded, or_else,
}
use kinby.Steps.Run.{
  Instance, Hooked, recorded_by, recorded_result, step_result, hooked, run_step, recorded,
  worktree_error, branch_of, with_hook, run_in, Hook, hook_raised, recorded_none,
}

kept_ending-IsValid :
    (ending : StepEnding) (resets_at : Option ℕ) (summary : String)
    → resets_when_limited ending resets_at ≡ true
    → IsValid (kept_ending ending resets_at summary)
kept_ending-IsValid clean resets_at summary h = refl
kept_ending-IsValid StepEnding.failed resets_at summary h = h
kept_ending-IsValid StepEnding.timed_out resets_at summary h = h
kept_ending-IsValid StepEnding.interrupted resets_at summary h = h
kept_ending-IsValid StepEnding.needs_human resets_at summary h = h
kept_ending-IsValid StepEnding.limited resets_at summary h = h

pub failed_with-IsValid :
    (reason : String) (ended : StepResult)
    → IsValid ended
    → IsValid (failed_with reason (some ended))
unfolding failed_with
failed_with-IsValid reason ended h = kept_ending-IsValid ended.ending ended.resets_at _ h

cut_summary-IsValid :
    (texts : Texts) (result : StepResult) → IsValid result → IsValid (cut_summary texts result)
unfolding cut_summary
cut_summary-IsValid texts result h = ground arith

bounded-IsValid :
    (texts : Texts) (result : StepResult) → IsValid result → IsValid (bounded texts result)
unfolding bounded
bounded-IsValid texts result h =
    let cut = cut_summary-IsValid texts result h in
    elim (Bool-cases (ltb result_bytes (texts.json_size (cut_summary texts result)))) [
      | inl large ↦ rw large (failed_with-IsValid _ (cut_summary texts result) cut)
      | inr fits ↦ rw fits cut
    ]

run_agent_step-IsValid : (texts : Texts) (run : TurnRun) → IsValid (run_agent_step texts run)
unfolding run_agent_step failed_with
run_agent_step-IsValid texts (refused reason) = refl
run_agent_step-IsValid texts (closed events completed) = refl
run_agent_step-IsValid texts (closed events (turn_failed reason)) = refl
run_agent_step-IsValid texts (closed events (delta more)) = refl
run_agent_step-IsValid texts (closed events called) = refl
run_agent_step-IsValid texts (closed events other_event) = refl

or_else-IsValid :
    (stopped : Option StepResult) (rest : StepResult)
    → ((result : StepResult) → stopped ≡ some result → IsValid result)
    → IsValid rest
    → IsValid (or_else stopped rest)
or_else-IsValid none rest h k = k
or_else-IsValid (some result) rest h k = h result refl

run_commands-IsValid :
    (texts : Texts) (timeout : Option ℕ) (comes_to : ℕ → String → CommandEnd) (at : ℕ)
    (lines : List String)
    → IsValid (run_commands texts timeout comes_to at lines)
unfolding run_commands
run_commands-IsValid texts timeout comes_to at [] = refl
run_commands-IsValid texts timeout comes_to at (line ∷ lines) =
    or_else-IsValid (command_failed texts timeout line (comes_to at line)) _
      (λ result e. (command_failed-IsRefusal texts timeout line (comes_to at line) result e).valid)
      (run_commands-IsValid texts timeout comes_to (at + 1) lines)

run_command_step-IsValid :
    (texts : Texts) (step : CommandStepRun) (repository : Repository)
    (comes_to : ℕ → String → CommandEnd)
    → IsValid (run_command_step texts step repository comes_to)
unfolding run_command_step
run_command_step-IsValid texts step repository comes_to =
    expanded-IsValid (commands_of step repository) refl
  where
    expanded-IsValid :
        (expanded : Expanded)
        → commands_of step repository ≡ expanded
        → IsValid (run_expanded texts step.timeout_seconds comes_to expanded)
    expanded-IsValid (expands lines) e =
        run_commands-IsValid texts step.timeout_seconds comes_to 0 lines
    expanded-IsValid (ends result) e = (commands_of-IsRefusal step repository result e).valid

code_result-IsValid : (name : String) (end : Called) → IsValid (code_result name end)
unfolding failed_with
code_result-IsValid name (tool_raised reason) = refl
code_result-IsValid name (returned result) = refl
code_result-IsValid name (mapped values) = refl
code_result-IsValid name returned_none = refl
code_result-IsValid name (printed result) = refl

run_code_step-IsValid :
    (asked : StepRunCommand) (name : String) (summary : Option String) (tools : Dict String Tool)
    → IsValid (run_code_step asked name summary tools)
unfolding run_code_step failed_with
run_code_step-IsValid asked name summary tools = with_tool-IsValid (get name tools)
  where
    with_tool-IsValid : (found : Option Tool) → IsValid (with_tool asked name summary found)
    with_tool-IsValid none = refl
    with_tool-IsValid (some tool) = code_result-IsValid name _

module _ (texts : Texts) (instance_ : Instance) (asked : StepRunCommand) where
  recorded_by-IsValid :
      (name : String) (result : StepResult) (end : Hooked)
      → IsValid result
      → IsValid (recorded_by name result end)
  recorded_by-IsValid name result (hook_raised reason) h = failed_with-IsValid _ result h
  recorded_by-IsValid name result recorded_none h = h
  recorded_by-IsValid name result (recorded hook) h = h

  hooked-IsValid :
      (result : StepResult) (hook : Option String)
      → IsValid result
      → IsValid (hooked instance_ asked result hook)
  unfolding recorded_result
  hooked-IsValid result none h = h
  hooked-IsValid result (some name) h = with_hook-IsValid (get name instance_.hooks)
    where
      with_hook-IsValid :
          (found : Option Hook) → IsValid (with_hook instance_ asked result name found)
      with_hook-IsValid none = failed_with-IsValid _ result h
      with_hook-IsValid (some hook) = recorded_by-IsValid name result _ h

  step_result-IsValid :
      (log : List DelegatedRun) (step : StepRun)
      → IsValid (step_result texts instance_ asked log step).0
  unfolding run_client_step
  step_result-IsValid log (agent_step prompt) =
      run_agent_step-IsValid texts (instance_.step_turn prompt)
  step_result-IsValid log (client_step step) =
      client_result-IsValid _ _
        (run_coding_client-IsRun texts step.client step.timeout_seconds (instance_.client_runs step)
          step.resume)
        refl
  step_result-IsValid log (command_step step) =
      run_command_step-IsValid texts step instance_.repository instance_.comes_to
  step_result-IsValid log (code_step name summary) =
      run_code_step-IsValid asked name summary instance_.tools

  -- Whatever a step's turn, client, commands, tool and hook do, the result that the instance hands
  -- back is one that the contract admits: a limited result has the time its plan window resets, and
  -- no other has one.
  pub run_step-IsValid : (log : List DelegatedRun) → IsValid (run_step texts instance_ asked log).0
  unfolding run_step failed_with
  run_step-IsValid log = run_in-IsValid (worktree_error instance_ (branch_of asked.step))
    where
      run_in-IsValid : (error : Option String) → IsValid (run_in texts instance_ asked log error).0
      run_in-IsValid (some reason) = refl
      run_in-IsValid none = bounded-IsValid texts _ (
          hooked-IsValid (step_result texts instance_ asked log asked.step).0 asked.hook
            (step_result-IsValid log asked.step))
