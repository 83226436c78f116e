-- ===== src/Runs/Unmet.antt =====
-- hub/runs.py: why a run's step cannot start, and what a client or a command step takes of the run.
pub mod Laws
pub mod Provided
use kinby.Common.{
  ℕ, String, Bool, true, false, Option, none, some, List, [], ◌∷◌, ◌++◌, ◌==◌, string_eq,
  if◌then◌else◌, suc,
}
use kinby.Common.Int.{ℤ, pos, negsuc}
use kinby.Common.Keyed.{Dict, get}
use kinby.Common.Text.{text, decimal}
use kinby.Contracts.Runs.{StepValue}
use kinby.Factory.File.{Kind, Step, FactoryFile, run_value_names}
use kinby.Runs.Values.{lacking}

-- `_Refused`
pub record Refused : Type 0 where
  pub step : String
  pub reason : String

-- `factory.steps[: factory.steps.index(step)]`, of the first step by this id.
unfoldable pub steps_before : List Step → String → List Step
steps_before [] id = []
steps_before (step ∷ steps) id =
    let rest = steps_before steps id in if step.id == id then [] else step ∷ rest

abbrev pub declares : String → Step → Bool
declares name step = elim (get name step.results) [ none ↦ false | some _ ↦ true ]

or_else : Option Step → Option Step → Option Step
or_else none other = other
or_else (some step) other = some step

-- The last of the steps that declares the value.
pub last_declaring : String → List Step → Option Step
last_declaring name [] = none
last_declaring name (step ∷ steps) =
    or_else (last_declaring name steps) (if declares name step then some step else none)

abbrev recorded_as : Option StepValue → String
recorded_as none = "did not record"
recorded_as (some _) = "recorded as false"

charged : Step → String → Option StepValue → Option Step → Refused
charged step name value none = record {
  step = step.id;
  reason = text (
      "Step \"" ∷ step.id ∷ "\" requires \"" ∷ name ∷ "\", which the work item carries as false."
      ∷ []);
}
charged step name value (some producer) = record {
  step = producer.id;
  reason = text (
      "Step \""
      ∷ step.id
      ∷ "\" requires \""
      ∷ name
      ∷ "\", which this step "
      ∷ recorded_as value
      ∷ "."
      ∷ []);
}

unmet_of : FactoryFile → Step → Dict String StepValue → Option String → Option Refused
unmet_of factory step held none = none
unmet_of factory step held (some name) =
    some
      (charged step name (get name held) (last_declaring name (steps_before factory.steps step.id)))

-- `_unmet`
unfoldable pub unmet : FactoryFile → Step → Dict String StepValue → Option Refused
unfolding unmet_of charged last_declaring or_else
unmet factory step held =
    unmet_of factory step held (lacking held (step.requires ++ run_value_names step.kind))

-- `str` of a value.
shown_int : ℤ → String
shown_int (pos n) = decimal n
shown_int (negsuc n) = text ("-" ∷ decimal (suc n) ∷ [])

shown : StepValue → String
shown (StepValue.bool true) = "True"
shown (StepValue.bool false) = "False"
shown (StepValue.int n) = shown_int n
shown (StepValue.str s) = s

-- The value that the branch of a client or a command step names.
abbrev pub branch_name : Kind → Option String
branch_name (Kind.command _ _ _ branch) = branch
branch_name (Kind.client declared) = declared.branch
branch_name _ = none

-- A run's branch, the step's lack of one, or the error of a value that the run does not hold.
pub data Branch : Type 0 where
  on : String → Branch
  no_branch no_value : Branch

branch_at : Option StepValue → Branch
branch_at none = no_value
branch_at (some v) = on (shown v)

branch_named : Dict String StepValue → Option String → Branch
branch_named held none = no_branch
branch_named held (some name) = branch_at (get name held)

-- `_branch`
pub branch : Kind → Dict String StepValue → Branch
branch kind held = branch_named held (branch_name kind)
