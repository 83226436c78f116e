-- ===== src/Contracts/Runs.antt =====
-- contracts/models.py: what the hub and an instance say of a factory run and of its steps.
use kinby.Common.{ℕ, String, Bool, true, false, Option, none, some, string_eq}
use kinby.Common.Int.{ℤ, int_eq}
use kinby.Common.Keyed.{Dict}

-- `StepValue`: a value that a work item carries or a step records.
pub data StepValue : Type 0 where
  str : String → StepValue
  int : ℤ → StepValue
  bool : Bool → StepValue

pub data StepEnding : Type 0 where
  clean failed timed_out interrupted needs_human limited : StepEnding

pub data FactoryRunStatus : Type 0 where
  running queued parked needs_human done cancelled : FactoryRunStatus

pub record StepResult : Type 0 where
  pub ending : StepEnding
  pub outcome : Option String
  pub values : Dict String StepValue
  pub summary : String
  pub session : Option String
  pub resets_at : Option ℕ

abbrev pub resets_when_limited : StepEnding → Option ℕ → Bool
resets_when_limited StepEnding.limited none = false
resets_when_limited StepEnding.limited (some _) = true
resets_when_limited _ none = true
resets_when_limited _ (some _) = false

-- `_resets_at_only_when_limited`, which every result passes: a limited one has the time its plan
-- window resets, and no other has.
abbrev pub is_valid_result : StepResult → Bool
is_valid_result result = resets_when_limited result.ending result.resets_at

-- `ending` is none while the attempt runs. The times are left out of `attempt` but for its start.
pub record StepAttempt : Type 0 where
  pub step : String
  pub attempt : ℕ
  pub ending : Option StepEnding
  pub outcome : Option String
  pub values : Dict String StepValue
  pub summary : String
  pub session : Option String
  pub started_at : ℕ
