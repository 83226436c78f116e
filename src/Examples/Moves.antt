-- ===== src/Examples/Moves.antt =====
-- Runs of the factory of Examples/Data.antt.
use kinby.Common.{
  true, suc, ◌*◌, ◌≤◌, String, false, ◌≡◌, inl, refl, none, some, [], ◌∷◌, length, string_eq, arith,
}
use kinby.Common.Keyed.{get}
use kinby.Contracts.Runs.{StepValue, clean, running, queued}
use kinby.Factory.Check.{order, edges_of}
use kinby.Factory.Check.Order.{holds_id}
use kinby.Factory.Check.Placed.{goes_back, sends_and_retries, order-nil}
use kinby.Runs.Tally.{no_tally, outcome_of}
use kinby.Runs.Values.{step_of, following, value_type}
use kinby.Runs.Settle.{settled, checked_types}
use kinby.Common.Keyed.{Dict}
use kinby.Contracts.Runs.{needs_human}
use kinby.Factory.File.{run_value_names}
use kinby.Runs.Values.{lacking}
use kinby.Runs.Settle.Moves.{Queues, settled-Queues}
use kinby.Runs.Settle.Endings.{IsPlaced, settled-IsPlaced}
use kinby.Runs.Engine.{move}
use kinby.Runs.Unmet.{unmet, Refused, steps_before}
use kinby.Common.Text.{text}
use kinby.Runs.Row.Stops.{moves, tells, apply_changes, IsNumbered, apply_changes-IsNumbered}
use kinby.Runs.Row.{
  Row, begin_attempt, end_attempt, end_open, move_run, attempts_at, counted_attempts,
}
use kinby.Runs.Engine.{settle, settle_at, move, publish}
use kinby.Runs.Engine.Works.{IsRested, left}
use kinby.Runs.Engine.Bounded.{Works, rest, turn, Works-bounded, Works-fresh, rework_allowed}
use kinby.Examples.Data.{plan_step, build_step, check_step, factory, issue, start_row, planned}

factory_is_ordered : order factory ≡ []
unfolding order edges_of
factory_is_ordered = refl

order-nil_example :
    (holds_id "build" (plan_step ∷ []) ≡ false)
    × (goes_back (plan_step ∷ []) build_step ≡ true)
    × (sends_and_retries build_step ≡ false)
order-nil_example =
    order-nil factory (plan_step ∷ []) (check_step ∷ []) build_step factory_is_ordered refl

start_row-IsRested : IsRested start_row
start_row-IsRested = record { all_ended = tt; restarted = omega arith }

-- The run once the plan is done.
abbrev planned_row : Row
planned_row = record start_row {
  status = queued;
  step = some "build";
  attempts =
      record {
        step = "plan";
        attempt = 1;
        ending = some clean;
        outcome = none;
        values = ("branch", StepValue.str "fix-door") ∷ [];
        summary = "The hinge is stuck.";
        session = none;
        started_at = 5;
      }
      ∷ [];
}

settles :
    settle (some factory) planned (begin_attempt "plan" running 5 start_row)
    ≡ some (planned_row, publish ∷ [])
unfolding settle begin_attempt step_of settle_at move move_run end_attempt end_open settled
    checked_types outcome_of following attempts_at get value_type
settles = refl

one_turn : (last : Row) × Works factory 1 start_row last
one_turn = (
  _,
  turn "plan" "plan" running 5 planned (publish ∷ []) refl refl (inl refl) (λ e. cc e) refl settles
      (rest _),
)

Works-bounded_example : 1 ≤ suc (left factory start_row "plan")
Works-bounded_example =
    Works-bounded factory factory_is_ordered "plan" start_row-IsRested refl one_turn.1

Works-fresh_example : 1 ≤ suc (rework_allowed factory.steps) * suc (length factory.steps)
unfolding counted_attempts
Works-fresh_example =
    Works-fresh factory factory_is_ordered "plan" start_row-IsRested refl refl one_turn.1

settled-IsPlaced_example :
    IsPlaced factory plan_step
      (issue ∷ [])
      (settled factory plan_step planned (issue ∷ []) no_tally)
      (settled factory plan_step planned (issue ∷ []) no_tally).status
settled-IsPlaced_example = settled-IsPlaced factory plan_step (issue ∷ []) no_tally planned

plan_is_queued : (settled factory plan_step planned (issue ∷ []) no_tally).status ≡ queued
unfolding settled outcome_of following
plan_is_queued = refl

settled-Queues_example :
    Queues factory plan_step no_tally (settled factory plan_step planned (issue ∷ []) no_tally)
settled-Queues_example =
    settled-Queues factory plan_step no_tally planned (issue ∷ []) (λ e. cc e) plan_is_queued

-- The run, needing a human at its check.
abbrev stopped_row : Row
stopped_row = record planned_row {
  status = needs_human;
  step = some "check";
  stop_generation = 1;
  stops = record { generation = 1; status = needs_human; last_attempt = 1; told = false } ∷ [];
}

apply_changes-IsNumbered_example : IsNumbered (
    apply_changes
      (moves queued (some "check") none false
        ∷ moves needs_human (some "check") none false
        ∷ tells 2
        ∷ [])
      stopped_row)
apply_changes-IsNumbered_example =
    apply_changes-IsNumbered
      (moves queued (some "check") none false
        ∷ moves needs_human (some "check") none false
        ∷ tells 2
        ∷ [])
      stopped_row refl

-- What the run holds before it is planned, and after.
abbrev planned_values : Dict String StepValue
planned_values = issue ∷ ("branch", StepValue.str "fix-door") ∷ []

build_can_start : unmet factory build_step planned_values ≡ none
unfolding unmet lacking get run_value_names
build_can_start = refl

-- The plan is charged for the branch that it did not record.
abbrev no_branch_yet : Refused
no_branch_yet = record {
  step = "plan";
  reason = "Step \"build\" requires \"branch\", which this step did not record.";
}

build_lacks_branch : unmet factory build_step (issue ∷ []) ≡ some no_branch_yet
unfolding unmet lacking get run_value_names steps_before text
build_lacks_branch = refl
