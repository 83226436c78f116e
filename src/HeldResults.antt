-- ===== src/HeldResults.antt =====
-- core/held_results.py: HeldResults, which answers a step call of a run once per step and attempt.
-- `held` are the files of the directory and outlive the process, `running` are its tasks.
pub mod Once
pub mod Kept
use kinby.Common.{
  ℕ, String, Bool, true, false, Option, none, some, List, [], ◌∷◌, ◌==◌, ◌&&◌, string_eq, nat_eq,
  if◌then◌else◌,
}
use kinby.Common.Keyed.{Dict, get, put, remove}
use kinby.Contracts.Runs.{StepEnding, failed, StepResult}

-- `_Held`, the call alone.
pub record Called : Type 0 where
  pub step : String
  pub attempt : ℕ

pub record Held : Type 0 where
  pub called : Called
  pub result : Option StepResult

pub record HeldResults : Type 0 where
  pub held : Dict ℕ Held
  pub running : Dict ℕ Called

unfoldable pub same_call : Called → Called → Bool
same_call a b = (a.step == b.step) && (a.attempt == b.attempt)

-- `_RESTARTED`
abbrev pub restarted : StepResult
restarted = record {
  ending = failed;
  outcome = none;
  values = [];
  summary = "The instance restarted during the step.";
  session = none;
  resets_at = none;
}

-- What a send of a step call is answered with: a result that is held, the task that runs, a task
-- that now starts, or a run of the call that nothing is held of.
pub data Answer : Type 0 where
  holds : StepResult → Answer
  awaits starts runs : Answer

abbrev pub result_of : Held → StepResult
result_of h = elim h.result [ none ↦ restarted | some result ↦ result ]

-- `_latest`
unfoldable pub is_latest : ℕ → Called → HeldResults → Bool
unfolding same_call
is_latest run called s = elim (get run s.running) [ none ↦ false | some c ↦ same_call c called ]

start_call : ℕ → Called → HeldResults → Answer × HeldResults
start_call run called s = (
  starts,
  record {
    held = put run (record { called = called; result = none }) s.held;
    running = put run called s.running;
  },
)

answer_held : ℕ → Called → HeldResults → Option Held → Answer × HeldResults
answer_held run called s none = start_call run called s
answer_held run called s (some h) =
    if same_call h.called called then (holds (result_of h), s) else start_call run called s

pub answer_call : ℕ → Called → HeldResults → Answer × HeldResults
answer_call run called s =
    if is_latest run called s then (awaits, s) else answer_held run called s (get run s.held)

-- `answer`, up to what it waits for
unfoldable pub answer : ℕ → String → Option ℕ → HeldResults → Answer × HeldResults
unfolding answer_call answer_held start_call is_latest same_call
answer run step none s = (runs, record s { held = remove run s.held })
answer run step (some attempt) s = answer_call run (record { step = step; attempt = attempt }) s

-- How the call of a task comes back: with its result, with an error, or cancelled as the instance
-- shuts down.
pub data Back : Type 0 where
  returned : StepResult → Back
  raised cancelled : Back

held_after : ℕ → Called → Back → Dict ℕ Held → Dict ℕ Held
held_after run called (returned result) held =
    put run (record { called = called; result = some result }) held
held_after run called raised held = remove run held
held_after run called cancelled held = held

-- `_run`, once its call is back
pub finish : ℕ → Called → Back → HeldResults → HeldResults
finish run called back s =
    if is_latest run called s
    then record { held = held_after run called back s.held; running = remove run s.running }
    else s

-- A restart of the instance's process keeps the files alone.
abbrev pub restart : HeldResults → HeldResults
restart s = record s { running = [] }
