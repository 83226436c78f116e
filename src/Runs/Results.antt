-- ===== src/Runs/Results.antt =====
-- hub/runs.py, `_results`: the values a run holds on its latest pass through the steps.
use kinby.Common.{
  ℕ, ◌+◌, String, Bool, true, false, Option, none, some, List, [], ◌∷◌, ◌==◌, string_eq,
  if◌then◌else◌, ltb,
}
use kinby.Common.Keyed.{Dict, put}
use kinby.Contracts.Runs.{StepValue, StepEnding, StepAttempt, clean}
use kinby.Factory.File.{SendBack, Step, FactoryFile}
use kinby.Runs.Values.{step_of}
use kinby.Runs.Tally.{failed_to}

position_from : ℕ → List Step → String → Option ℕ
position_from index [] id = none
position_from index (step ∷ steps) id = elim (position_from (index + 1) steps id) [
  | some later ↦ some later
  | none ↦ if step.id == id then some index else none
]

-- `order.get(id)`: the step's place in the file, and none for one the file lacks.
pub position : List Step → String → Option ℕ
position steps id = position_from 0 steps id

-- A value with the place of the step that holds it. None is Python's -1.
abbrev pub Recorded : Type 0
Recorded = Dict String (Option ℕ × StepValue)

pub record Pass : Type 0 where
  pub recorded : Recorded
  pub last : Option (Option ℕ × Dict String StepValue)
  pub retrying : Option String

abbrev pub is_before : ℕ → Option ℕ → Bool
is_before at none = true
is_before at (some index) = ltb index at

-- Drops what the step at this place and every step after it recorded.
pub drop_from : ℕ → Recorded → Recorded
drop_from at [] = []
drop_from at ((name, (index, value)) ∷ recorded) =
    let rest = drop_from at recorded in
    if is_before at index then (name, (index, value)) ∷ rest else rest

pub put_all : Option ℕ → Dict String StepValue → Recorded → Recorded
put_all index [] recorded = recorded
put_all index ((name, value) ∷ values) recorded =
    put_all index values (put name (index, value) recorded)

-- What the step that sent the work back recorded goes with the work.
abbrev carry : ℕ → Option (Option ℕ × Dict String StepValue) → Recorded → Recorded
carry at (some (some index, values)) recorded =
    if ltb at index then put_all (some at) values recorded else recorded
carry at _ recorded = recorded

abbrev is_retrying : String → Option String → Bool
is_retrying id none = false
is_retrying id (some retried) = id == retried

-- `start`
pub start : List Step → String → Pass → Pass
start steps id pass = elim (position steps id) [
  | none ↦ pass
  | some at ↦
      if is_retrying id pass.retrying
      then pass
      else record pass { recorded = carry at pass.last (drop_from at pass.recorded) }
]

abbrev keeps : Option StepEnding → Option SendBack → Bool
keeps (some clean) _ = true
keeps _ (some _) = true
keeps _ none = false

-- A clean attempt, or a failure sent back.
abbrev pub keeps_values : FactoryFile → StepAttempt → Bool
keeps_values factory attempt =
    keeps attempt.ending (failed_to (step_of factory.steps attempt.step) attempt.ending)

-- One round of the loop over the attempts.
pub pass_attempt : FactoryFile → Pass → StepAttempt → Pass
pass_attempt factory pass attempt =
    let started = start factory.steps attempt.step pass in
    let index = position factory.steps attempt.step in
    if keeps_values factory attempt
    then record {
      recorded = put_all index attempt.values started.recorded;
      last = some (index, attempt.values);
      retrying = none;
    }
    else record { recorded = started.recorded; last = none; retrying = some attempt.step }

pub pass_attempts : FactoryFile → Pass → List StepAttempt → Pass
pass_attempts factory pass [] = pass
pass_attempts factory pass (attempt ∷ attempts) =
    pass_attempts factory (pass_attempt factory pass attempt) attempts

pub start_with : List Step → Option String → Pass → Pass
start_with steps none pass = pass
start_with steps (some id) pass = start steps id pass

pub values_of : Recorded → Dict String StepValue
values_of [] = []
values_of ((name, (index, value)) ∷ recorded) = (name, value) ∷ values_of recorded

abbrev pub no_pass : Pass
no_pass = record { recorded = []; last = none; retrying = none }

-- The values that the attempts recorded, for the step that is about to start, if any.
unfoldable pub results : FactoryFile → List StepAttempt → Option String → Dict String StepValue
results factory attempts starting =
    values_of (start_with factory.steps starting (pass_attempts factory no_pass attempts)).recorded
