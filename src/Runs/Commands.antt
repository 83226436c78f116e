-- ===== src/Runs/Commands.antt =====
-- hub/runs.py: what the user does with a run. Each command is refused or moves the run.
pub mod Laws
use kinby.Common.{
  String, Bool, true, false, Option, none, some, List, [], ◌∷◌, ◌==◌, ◌&&◌, ◌||◌, not, string_eq,
  if◌then◌else◌, any,
}
use kinby.Common.Text.{text}
use kinby.Contracts.Runs.{StepEnding, clean, FactoryRunStatus, parked, cancelled, StepResult}
use kinby.Factory.File.{Kind, Step, FactoryFile, approve}
use kinby.Runs.Values.{step_of, earlier_ids}
use kinby.Runs.Row.{Row, is_needs_human, end_attempt, restart_run}
use kinby.Runs.Engine.{Effect, publish, enqueue, disarm, move, advance}

-- RunNeedsNoHuman, NotAnEarlierStep and RunAwaitsNoApproval, and the error of a parked run that
-- is at no step.
pub data Refusal : Type 0 where
  needs_no_human not_an_earlier_step awaits_no_approval at_no_step : Refusal

pub data Answer : Type 0 where
  refused : Refusal → Answer
  moves : Row → List Effect → Answer

pub data Command : Type 0 where
  retry approve_run cancel : Command
  send_back_to : String → Command

abbrev moves_to : Row × List Effect → Answer
moves_to (row, effects) = moves row effects

-- `_restart`
restart : Option String → Row → Answer
restart step row = moves (restart_run step row) (publish ∷ enqueue ∷ [])

abbrev pub is_parked : FactoryRunStatus → Bool
is_parked parked = true
is_parked _ = false

abbrev is_approve : Kind → Bool
is_approve (Kind.approve _) = true
is_approve _ = false

abbrev at_approve : Option Step → Bool
at_approve none = false
at_approve (some step) = is_approve step.kind

abbrev step_at : FactoryFile → Option String → Option Step
step_at factory none = none
step_at factory (some id) = step_of factory.steps id

abbrev pub step_in : Option FactoryFile → Option String → Option Step
step_in none id = none
step_in (some factory) id = step_at factory id

-- `_awaits_approval`
unfoldable pub awaits_approval : Option FactoryFile → Row → Bool
awaits_approval factory row = is_parked row.status && at_approve (step_in factory row.step)

-- `_earlier`
unfoldable pub earlier : Option FactoryFile → Option String → List String
earlier none id = []
earlier (some factory) id = earlier_ids factory.steps id

-- A clean result of the user's own, with this summary.
abbrev pub by_user : String → StepResult
by_user summary = record {
  ending = clean;
  outcome = none;
  values = [];
  summary = summary;
  session = none;
  resets_at = none;
}

-- `retry`
retry_run : Row → Answer
retry_run row = if is_needs_human row.status then restart row.step row else refused needs_no_human

-- `send_back`
send_back_run : Option FactoryFile → String → Row → Answer
send_back_run factory to row =
    let approving = awaits_approval factory row in
    if not approving && not (is_needs_human row.status)
    then refused needs_no_human
    else if not (any (λ id. id == to) (earlier factory row.step))
    then refused not_an_earlier_step
    else restart (some to) (
        if approving
        then end_attempt (by_user (text ("The user sent the run back to \"" ∷ to ∷ "\"." ∷ []))) row
        else row)

abbrev advanced : Option (Row × List Effect) → Answer
advanced none = refused at_no_step
advanced (some moved) = moves_to moved

-- `approve`
approve_row : Option FactoryFile → Row → Answer
approve_row factory row =
    if awaits_approval factory row
    then advanced (advance factory (by_user "The user approved it.") row)
    else refused awaits_no_approval

abbrev disarmed : Row × List Effect → Answer
disarmed (row, effects) = moves row (disarm ∷ effects)

-- `cancel`
cancel_run : Option FactoryFile → Row → Answer
cancel_run factory row =
    if is_parked row.status
    then disarmed
        (move factory cancelled row.step (end_attempt (by_user "The user cancelled the run.") row))
    else if is_needs_human row.status
    then moves_to (move factory cancelled row.step row)
    else refused needs_no_human

unfoldable pub command : Option FactoryFile → Command → Row → Answer
unfolding retry_run send_back_run approve_row cancel_run restart
command factory retry row = retry_run row
command factory (send_back_to to) row = send_back_run factory to row
command factory approve_run row = approve_row factory row
command factory cancel row = cancel_run factory row
