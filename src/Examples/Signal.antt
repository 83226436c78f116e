-- ===== src/Examples/Signal.antt =====
-- A run that waits for its merge, and one that needs a human, as a signal comes in.
use kinby.Common.{true, false, ◌==◌, if◌then◌else◌, ◌≡◌, refl, none, some, [], ◌∷◌, string_eq}
use kinby.Common.Keyed.{get}
use kinby.Common.Dots.{before_dot, after_dot, split_dots}
use kinby.Contracts.{Json, str, obj, field, end}
use kinby.Contracts.Runs.{StepValue, clean, parked, queued, needs_human, done, cancelled}
use kinby.Factory.File.{literal, Kind, Step, FactoryFile, SignalFilter}
use kinby.Runs.Row.{Row}
use kinby.Runs.Signals.{Signal, matches_any}
use kinby.Examples.Data.{check_step, factory, start_row}

abbrev merged : SignalFilter
merged = ("body.pull.state", literal (StepValue.str "merged")) ∷ []

abbrev wait_step : Step
wait_step = record check_step {
  id = "merge";
  failed = none;
  kind = Kind.wait (merged ∷ []) none none;
}

abbrev waiting_factory : FactoryFile
waiting_factory = record factory {
  steps = wait_step ∷ check_step ∷ [];
  closing = record { done = merged ∷ []; cancelled = [] };
}

abbrev waiting_row : Row
waiting_row = record start_row {
  status = parked;
  step = some "merge";
  attempts =
      record {
        step = "merge";
        attempt = 1;
        ending = none;
        outcome = none;
        values = [];
        summary = "";
        session = none;
        started_at = 9;
      }
      ∷ [];
}

abbrev signal : Signal
signal = record { routine = "github"; headers = λ name. none }

abbrev body : Json
body = obj (field "pull" (obj (field "state" (str "merged") end)) end)

abbrev moved_row : Row
moved_row = record waiting_row {
  status = queued;
  step = some "check";
  attempts =
      record {
        step = "merge";
        attempt = 1;
        ending = some clean;
        outcome = none;
        values = [];
        summary = "A signal on routine \"github\" matched.";
        session = none;
        started_at = 9;
      }
      ∷ [];
}

abbrev stuck_row : Row
stuck_row = record start_row { status = needs_human; step = some "check" }

abbrev ended_row : Row
ended_row = record stuck_row {
  status = done;
  step = none;
  stop_generation = 1;
  stops = record { generation = 1; status = done; last_attempt = 0; told = false } ∷ [];
}

-- A field names the part of the signal that it reads: the same path in the headers, or without the
-- body in front of it, is another field.
abbrev header_field : SignalFilter
header_field = ("headers.pull.state", literal (StepValue.str "merged")) ∷ []

abbrev field_alone : SignalFilter
field_alone = ("pull.state", literal (StepValue.str "merged")) ∷ []

others_unmatched : matches_any (header_field ∷ field_alone ∷ []) signal body [] ≡ false
unfolding matches_any get before_dot after_dot split_dots
others_unmatched = refl

-- A header, looked up by the text after the first dot, and the routine.
abbrev opened : Signal
opened = record {
  routine = "github";
  headers = λ name. if name == "x-event.kind" then some "opened" else none;
}

abbrev opened_filter : SignalFilter
opened_filter =
    ("headers.x-event.kind", literal (StepValue.str "opened"))
    ∷ ("routine", literal (StepValue.str "github"))
    ∷ []

opened_matches : matches_any (opened_filter ∷ []) opened body [] ≡ true
unfolding matches_any get before_dot after_dot split_dots
opened_matches = refl
