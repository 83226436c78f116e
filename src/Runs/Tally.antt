-- ===== src/Runs/Tally.antt =====
-- hub/runs.py: what a run's attempts used up of their steps' retries and send-backs.
pub mod Laws
use kinby.Common.{
  ℕ, String, Bool, true, false, Option, none, some, List, [], ◌∷◌, string_eq, pair_eq,
}
use kinby.Common.Keyed.{Dict, get, bump}
use kinby.Contracts.Runs.{StepEnding, StepAttempt}
use kinby.Factory.File.{SendBack, Outcome, Step, FactoryFile, Kind}
use kinby.Runs.Values.{step_of}

pub record Tally : Type 0 where
  pub failures : Dict String ℕ
  pub sent_back : Dict (String × String) ℕ

-- `_outcome`: a result that names no outcome takes the next step.
unfoldable pub outcome_of : Step → Option String → Option Outcome
outcome_of step none = some Outcome.next
outcome_of step (some name) = get name step.outcomes

declared_retries : Option ℕ → Kind → ℕ
declared_retries (some n) kind = n
declared_retries none (Kind.agent _ _ _) = 1
declared_retries none (Kind.client _) = 1
declared_retries none _ = 0

-- How many times a failed step is tried again: once for a model or a coding client, and never for
-- any other, unless it says.
unfoldable pub retries : Step → ℕ
unfolding declared_retries
retries step = declared_retries step.retry step.kind

abbrev pub is_failed : Option StepEnding → Bool
is_failed (some StepEnding.failed) = true
is_failed _ = false

-- Where a failed attempt sends the work, when its step declares where its failures go.
unfoldable pub failed_to : Option Step → Option StepEnding → Option SendBack
failed_to none ending = none
failed_to (some step) (some StepEnding.failed) = step.failed
failed_to (some step) _ = none

abbrev pub count_back : String → Option SendBack → Tally → Tally
count_back id none tally = tally
count_back id (some edge) tally = record tally { sent_back = bump (id, edge.back) tally.sent_back }

abbrev pub outcome_edge : Option Outcome → Option SendBack
outcome_edge (some (Outcome.send_back edge)) = some edge
outcome_edge _ = none

abbrev pub outcome_of_step : Option Step → Option String → Option Outcome
outcome_of_step none name = none
outcome_of_step (some step) name = outcome_of step name

abbrev pub count_failure : String → Option StepEnding → Tally → Tally
count_failure id none tally = tally
count_failure id (some StepEnding.limited) tally = tally
count_failure id _ tally = record tally { failures = bump id tally.failures }

-- One round of the loop of `_tally`, at an attempt that ended so, whose step is found or not.
abbrev count_unclean : String → Option StepEnding → Option SendBack → Tally → Tally
count_unclean id ending (some edge) tally = count_back id (some edge) tally
count_unclean id ending none tally = count_failure id ending tally

count_ending : String → Option Step → Option StepEnding → Option String → Tally → Tally
count_ending id step (some StepEnding.clean) outcome tally =
    count_back id (outcome_edge (outcome_of_step step outcome)) tally
count_ending id step ending outcome tally = count_unclean id ending (failed_to step ending) tally

unfoldable pub count_attempt : FactoryFile → StepAttempt → Tally → Tally
unfolding count_ending
count_attempt factory attempt tally =
    count_ending attempt.step (step_of factory.steps attempt.step) attempt.ending attempt.outcome
      tally

abbrev pub no_tally : Tally
no_tally = record { failures = []; sent_back = [] }

tally_from : FactoryFile → Tally → List StepAttempt → Tally
tally_from factory tally [] = tally
tally_from factory tally (attempt ∷ attempts) =
    tally_from factory (count_attempt factory attempt tally) attempts

pub tally_of : FactoryFile → List StepAttempt → Tally
tally_of factory attempts = tally_from factory no_tally attempts
