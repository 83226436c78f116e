-- ===== src/Runs/Engine.antt =====
-- hub/runs.py: how FactoryRuns moves a run, by its row in the registry and the file of its factory.
-- The file is none once the factory is gone. What a method starts beside the row is an effect.
pub mod Works
pub mod Bounded
pub mod Stops
use kinby.Common.{
  string_eq, ℕ, String, Bool, true, false, Option, none, some, List, [], ◌∷◌, ◌++◌, if◌then◌else◌,
}
use kinby.Common.Keyed.{Dict, merge}
use kinby.Contracts.Runs.{
  StepValue, StepEnding, clean, FactoryRunStatus, queued, parked, needs_human, done, cancelled,
  StepResult,
}
use kinby.Factory.File.{Step, FactoryFile, RunCall}
use kinby.Runs.Values.{step_of}
use kinby.Runs.Tally.{tally_of}
use kinby.Runs.Settle.{Settled, checked_types, settled}
use kinby.Runs.Row.{
  Row, is_stop, is_needs_human, begin_attempt, end_attempt, move_run, restart_run, counted_attempts,
}
use kinby.Runs.Results.{results}

-- `_publish` to the subscribers, `_enqueue`, `_put_stop` and `_notify` of a stop's generation,
-- `_report` of the needs_human call with its summary or of the ended call, `_wake_at`, and
-- `_disarm`.
pub data Effect : Type 0 where
  publish enqueue disarm : Effect
  tell_stop : ℕ → Effect
  notify : ℕ → Effect
  report_needs_human : RunCall → String → Effect
  report_ended : RunCall → Effect
  wake_at : ℕ → Effect

abbrev pub ends : FactoryRunStatus → Bool
ends done = true
ends cancelled = true
ends _ = false

abbrev ended_call_of : Option FactoryFile → FactoryRunStatus → Option RunCall
ended_call_of none status = none
ended_call_of (some factory) status = if ends status then factory.ended else none

abbrev is_some {ℓ} : {A : Type ℓ} → Option A → Bool
is_some none = false
is_some (some _) = true

abbrev report_ends : Option RunCall → List Effect
report_ends none = []
report_ends (some call) = report_ended call ∷ []

-- `_move`
unfoldable pub move :
    Option FactoryFile → FactoryRunStatus → Option String → Row → Row × List Effect
move factory status step row =
    let call = ended_call_of factory status in
    let moved = move_run status step none (is_some call) row in
    let generation = moved.stop_generation in
    let told = if is_needs_human status then notify generation ∷ [] else [] in
    (
      moved,
      publish ∷ ((if is_stop status then tell_stop generation ∷ told else []) ++ report_ends call),
    )

-- `_park_until`
abbrev park_until : Option String → ℕ → Row → Row × List Effect
park_until step wakes_at row =
    (move_run parked step (some wakes_at) false row, publish ∷ wake_at wakes_at ∷ [])

abbrev report_needs : FactoryRunStatus → Option RunCall → String → List Effect
report_needs needs_human (some call) summary = report_needs_human call summary ∷ []
report_needs _ _ summary = []

abbrev pub types_checked : Step → StepResult → StepEnding → StepResult
types_checked step result clean = checked_types step result
types_checked step result _ = result

unfoldable pub settle_at : FactoryFile → Step → StepResult → Row → Row × List Effect
settle_at factory step result row =
    let held = merge row.work_item (results factory row.attempts none) in
    let tally = tally_of factory (counted_attempts row) in
    let s = settled factory step (types_checked step result result.ending) held tally in
    let (moved, effects) = move (some factory) s.status s.step (end_attempt s.result row) in
    (moved, effects ++ report_needs s.status factory.needs_human s.result.summary)

-- The factory, or the step in it, is gone.
unfoldable pub settle_lost :
    Option FactoryFile → Option RunCall → StepResult → Row → Row × List Effect
settle_lost factory call result row =
    let (moved, effects) = move factory needs_human row.step (end_attempt result row) in
    (moved, effects ++ report_needs needs_human call result.summary)

unfoldable pub settle_found : FactoryFile → StepResult → Row → Option Step → Row × List Effect
settle_found factory result row none = settle_lost (some factory) factory.needs_human result row
settle_found factory result row (some step) = settle_at factory step result row

settle_in : Option FactoryFile → String → StepResult → Row → Row × List Effect
settle_in none id result row = settle_lost none none result row
settle_in (some factory) id result row = settle_found factory result row (step_of factory.steps id)

settle_until : Option FactoryFile → String → StepResult → Row → Option ℕ → Row × List Effect
settle_until factory id result row (some resets_at) =
    park_until (some id) resets_at (end_attempt result row)
settle_until factory id result row none = settle_in factory id result row

settle_step : Option FactoryFile → StepResult → Row → Option String → Option (Row × List Effect)
settle_step factory result row none = none
settle_step factory result row (some id) =
    some (settle_until factory id result row result.resets_at)

-- `_settle`. None is the error of a run that has no step to settle.
unfoldable pub settle : Option FactoryFile → StepResult → Row → Option (Row × List Effect)
unfolding settle_step settle_until settle_in settle_found
settle factory result row = settle_step factory result row row.step

abbrev pub is_queued : FactoryRunStatus → Bool
is_queued queued = true
is_queued _ = false

unfoldable pub queue_moved : Row × List Effect → Row × List Effect
queue_moved (moved, effects) =
    if is_queued moved.status then (moved, effects ++ enqueue ∷ []) else (moved, effects)

-- `_advance`
unfoldable pub advance : Option FactoryFile → StepResult → Row → Option (Row × List Effect)
unfolding queue_moved
advance factory result row = elim (settle factory result row) [
  | none ↦ none
  | some moved ↦ some (queue_moved moved)
]
