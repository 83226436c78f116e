-- ===== src/Runs/Signals.antt =====
-- hub/runs.py: what a signal that a routine accepted does to a run of its factory.
pub mod Laws
use kinby.Common.{
  ℕ, String, Bool, true, false, Option, none, some, List, [], ◌∷◌, ◌++◌, ◌==◌, ◌&&◌, ◌||◌, not,
  string_eq, if◌then◌else◌, any, map,
}
use kinby.Common.Dots.{before_dot, after_dot, split_dots}
use kinby.Common.Int.{int_eq}
use kinby.Common.Keyed.{Dict, get, merge}
use kinby.Common.Text.{text}
use kinby.Contracts.{Json, null, bool, int, str, obj, Fields, end, field}
use kinby.Contracts.Runs.{
  StepValue, FactoryRunStatus, queued, running, parked, needs_human, done, cancelled,
}
use kinby.Factory.File.{Expected, literal, named, SignalFilter, Kind, Step, FactoryFile}
use kinby.Runs.Values.{step_of}
use kinby.Runs.Row.{Row}
use kinby.Runs.Results.{results}
use kinby.Runs.Engine.{Effect, disarm, move, advance}
use kinby.Runs.Commands.{by_user, step_in}

-- The headers are what looking a name up in them gives: the framework's mapping reads a name
-- without regard to its case. The body stands beside the signal, as JSON.
pub record Signal : Type 0 where
  pub routine : String
  pub headers : String → Option String

field_or_null : String → Fields → Json
field_or_null key end = null
field_or_null key (field name value rest) = if name == key then value else field_or_null key rest

-- The value at the path of a body, and null where it has none there.
value_at : List String → Json → Json
unfolding field_or_null
value_at [] found = found
value_at (key ∷ keys) (obj fields) = value_at keys (field_or_null key fields)
value_at (key ∷ keys) _ = null

header_json : Option String → Json
header_json none = null
header_json (some value) = str value

-- `_signal_field`
signal_field : Signal → Json → String → Json
unfolding value_at header_json
signal_field signal body name =
    if before_dot name == "routine"
    then str signal.routine
    else if before_dot name == "headers"
    then header_json (signal.headers (after_dot name))
    else value_at (split_dots (after_dot name)) body

abbrev same_bool : Bool → Bool → Bool
same_bool true b = b
same_bool false b = not b

-- Of the same type, and equal.
is_value : Json → StepValue → Bool
is_value (str s) (StepValue.str t) = s == t
is_value (int n) (StepValue.int m) = n == m
is_value (bool a) (StepValue.bool b) = same_bool a b
is_value _ _ = false

wanted : Dict String StepValue → Expected → Option StepValue
wanted held (literal value) = some value
wanted held (named name) = get name held

is_wanted : Json → Option StepValue → Bool
unfolding is_value
is_wanted found none = false
is_wanted found (some value) = is_value found value

-- `_matches`
pub matches : SignalFilter → Signal → Json → Dict String StepValue → Bool
unfolding is_wanted signal_field wanted
matches [] signal body held = true
matches ((name, expected) ∷ fields) signal body held =
    is_wanted (signal_field signal body name) (wanted held expected)
    && matches fields signal body held

unfoldable pub matches_any : List SignalFilter → Signal → Json → Dict String StepValue → Bool
unfolding matches
matches_any filters signal body held = any (λ fields. matches fields signal body held) filters

-- `_held`: the run's values. Those of its attempts are read only where a filter names a value, and
-- no filter reads them otherwise.
pub held_by : FactoryFile → Row → Dict String StepValue
held_by factory row = merge row.work_item (results factory row.attempts none)

-- What the signal does: nothing, or it moves the run, or it marks the waits that it matches on a
-- run that is still on its way to them.
pub data Answered : Type 0 where
  ignored : Answered
  moves : Option (Row × List Effect) → Answered
  marks : List String → Answered

abbrev signals_of : Kind → Option (List SignalFilter)
signals_of (Kind.wait signals _ _) = some signals
signals_of _ = none

abbrev waits_at : Option Step → Option (List SignalFilter)
waits_at none = none
waits_at (some step) = signals_of step.kind

abbrev disarmed : Option (Row × List Effect) → Option (Row × List Effect)
disarmed none = none
disarmed (some (row, effects)) = some (row, disarm ∷ effects)

wake : FactoryFile → Signal → Json → Row → Option (List SignalFilter) → Answered
unfolding matches_any held_by
wake factory signal body row none = ignored
wake factory signal body row (some filters) =
    let summary = text ("A signal on routine \"" ∷ signal.routine ∷ "\" matched." ∷ []) in
    if matches_any filters signal body (held_by factory row)
    then moves (disarmed (advance (some factory) (by_user summary) row))
    else ignored

matched_wait :
    Signal → Json → Dict String StepValue → Step → Option (List SignalFilter) → List String
unfolding matches_any
matched_wait signal body held step none = []
matched_wait signal body held step (some filters) =
    if matches_any filters signal body held then step.id ∷ [] else []

matched_waits : Signal → Json → Dict String StepValue → List Step → List String
unfolding matched_wait
matched_waits signal body held [] = []
matched_waits signal body held (step ∷ steps) =
    matched_wait signal body held step (signals_of step.kind)
    ++ matched_waits signal body held steps

close_run : FactoryFile → Signal → Json → Row → Answered
unfolding matches_any held_by
close_run factory signal body row =
    if matches_any factory.closing.done signal body (held_by factory row)
    then moves (some (move (some factory) done none row))
    else if matches_any factory.closing.cancelled signal body (held_by factory row)
    then moves (some (move (some factory) cancelled row.step row))
    else ignored

accept_in : FactoryFile → Signal → Json → Row → FactoryRunStatus → Answered
unfolding wake matched_waits close_run held_by
accept_in factory signal body row parked =
    wake factory signal body row (waits_at (step_in (some factory) row.step))
accept_in factory signal body row queued =
    marks (matched_waits signal body (held_by factory row) factory.steps)
accept_in factory signal body row running =
    marks (matched_waits signal body (held_by factory row) factory.steps)
accept_in factory signal body row needs_human = close_run factory signal body row
accept_in factory signal body row _ = ignored

-- `signal_accepted`, for one run that the registry gives of the instance's factory
unfoldable pub signal_accepted : FactoryFile → Signal → Json → Row → Answered
unfolding accept_in
signal_accepted factory signal body row = accept_in factory signal body row row.status
