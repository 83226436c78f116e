-- ===== src/Runs/Engine/Stops.antt =====
-- hub/runs.py: what `_settle` makes of a result that ends at its timeout, at the plan's limit or at
-- what only the user can supply.
use kinby.Common.{
  ℕ, String, Bool, true, false, Option, none, some, List, ◌≡◌, refl, arith, sym, ap, string_eq,
}
use kinby.Contracts.Runs.{
  StepEnding, StepResult, clean, FactoryRunStatus, is_valid_result, resets_when_limited,
}
use kinby.Factory.File.{Step, FactoryFile}
use kinby.Runs.Row.{Row, move_run}
use kinby.Runs.Settle.{settled}
use kinby.Runs.Values.{step_of}
use kinby.Runs.Engine.{
  Effect, settle, settle_step, settle_until, settle_in, settle_at, settle_found, settle_lost, move,
}
use mathlib.Core.Path.{subst}

-- The endings at which the run holds, whatever the step's retries and its factory say.
abbrev pub is_lasting : StepEnding → Bool
is_lasting StepEnding.timed_out = true
is_lasting StepEnding.needs_human = true
is_lasting StepEnding.limited = true
is_lasting _ = false

abbrev pub stops_as : StepEnding → FactoryRunStatus
stops_as StepEnding.limited = FactoryRunStatus.parked
stops_as _ = FactoryRunStatus.needs_human

-- The status that the run is left in, and when it wakes by itself.
abbrev stop_in : Row × List Effect → FactoryRunStatus × Option ℕ
stop_in (row, effects) = (row.status, row.wakes_at)

abbrev pub stop_of : Option (Row × List Effect) → Option (FactoryRunStatus × Option ℕ)
stop_of none = none
stop_of (some moved) = some (stop_in moved)

module _ (result : StepResult) (row : Row) where
  Stops : Row × List Effect → Type 0
  Stops moved = stop_in moved ≡ (FactoryRunStatus.needs_human, none)

  lost-Stops : (file : Option FactoryFile) → Stops (settle_lost file none result row)
  unfolding Stops settle_lost move move_run
  lost-Stops file = refl

  timed_out-Stops :
      (factory : FactoryFile) (step : Step)
      → result.ending ≡ StepEnding.timed_out
      → Stops (settle_at factory step result row)
  unfolding Stops settle_at settled move move_run
  timed_out-Stops factory step e = rw e refl

  needs_human-Stops :
      (factory : FactoryFile) (step : Step)
      → result.ending ≡ StepEnding.needs_human
      → Stops (settle_at factory step result row)
  unfolding Stops settle_at settled move move_run
  needs_human-Stops factory step e = rw e refl

  found-Stops :
      (factory : FactoryFile) (found : Option Step)
      → ((step : Step) → Stops (settle_at factory step result row))
      → Stops (settle_found factory result row found)
  unfolding Stops settle_found settle_lost move move_run
  found-Stops factory none h = refl
  found-Stops factory (some step) h = h step

  in-Stops :
      (file : Option FactoryFile) (id : String)
      → ((factory : FactoryFile) (step : Step) → Stops (settle_at factory step result row))
      → Stops (settle_in file id result row)
  unfolding settle_in
  in-Stops none id h = lost-Stops none
  in-Stops (some factory) id h = found-Stops factory (step_of factory.steps id) (h factory)

  until_stops :
      (file : Option FactoryFile) (id : String) (ending : StepEnding) (resets_at : Option ℕ)
      → result.ending ≡ ending
      → is_lasting ending ≡ true
      → resets_when_limited ending resets_at ≡ true
      → stop_of (some (settle_until file id result row resets_at))
        ≡ some (stops_as ending, resets_at)
  unfolding settle_until Stops move_run
  until_stops file id StepEnding.limited (some resets) e lasting valid = refl
  until_stops file id StepEnding.limited none e lasting valid = absurd (ground (arith, valid))
  until_stops file id StepEnding.timed_out none e lasting valid =
      ap (λ s. some s) (in-Stops file id (λ factory step. timed_out-Stops factory step e))
  until_stops file id StepEnding.timed_out (some resets) e lasting valid =
      absurd (ground (arith, valid))
  until_stops file id StepEnding.needs_human none e lasting valid =
      ap (λ s. some s) (in-Stops file id (λ factory step. needs_human-Stops factory step e))
  until_stops file id StepEnding.needs_human (some resets) e lasting valid =
      absurd (ground (arith, valid))
  until_stops file id clean resets e lasting valid = absurd (ground (arith, lasting))
  until_stops file id StepEnding.failed resets e lasting valid = absurd (ground (arith, lasting))
  until_stops file id StepEnding.interrupted resets e lasting valid =
      absurd (ground (arith, lasting))

  -- A run at a step is parked by a limited result until the plan's limit resets, and stopped for
  -- the user, to wake at no time, by one that ran past its timeout or needs a human, whatever its
  -- factory's file says and whether it is still there.
  pub settle-lasting :
      (file : Option FactoryFile) (id : String)
      → row.step ≡ some id
      → is_lasting result.ending ≡ true
      → is_valid_result result ≡ true
      → stop_of (settle file result row) ≡ some (stops_as result.ending, result.resets_at)
  unfolding settle
  settle-lasting file id at lasting valid =
      subst
        (λ s.
          stop_of (settle_step file result row s) ≡ some (stops_as result.ending, result.resets_at))
        (sym at) (until_stops file id result.ending result.resets_at refl lasting valid)
