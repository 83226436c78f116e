-- ===== src/Examples/Passes.antt =====
-- Passes of the scheduler over two routines, one of which failed for the tenth time.
use kinby.Common.{
  ℕ, zero, suc, ◌+◌, zero, true, false, some, List, [], ◌∷◌, ◌++◌, ◌≡◌, refl, map, String,
  string_eq,
}
use kinby.Common.Keyed.{Dict, get, put}
use kinby.Routines.{Event, turn_started, turn_failed, unhandled, routine_history}
use kinby.Scheduler.Files.{Routine}
use kinby.Scheduler.Failures.{Policy, handle_failures, reset_failures}
use kinby.Scheduler.Handled.{handle_failures-none_left}
use kinby.Scheduler.Policy.{left_by_policy, handle_failures-routines}
use kinby.Scheduler.Tick.{ArmedRoutine, Due, fires, scheduled, waiting, due, choose}
use kinby.Scheduler.Choice.{IsFirst, choose-IsFirst}

abbrev nightly : Routine
nightly = record {
  name = "nightly";
  prompt = "Tidy up.";
  schedule = some "0 3 * * *";
  enabled = true;
  catch_up = false;
  is_dreaming_stage = false;
}

abbrev digest : Routine
digest = record {
  name = "digest";
  prompt = "Sum up.";
  schedule = some "0 8 * * *";
  enabled = true;
  catch_up = false;
  is_dreaming_stage = false;
}

-- One failed turn of the routine.
abbrev failing : ℕ → List Event
failing turn =
    (record { key = (1, turn); timestamp = turn; payload = turn_started (some "nightly") })
    ∷ (record { key = (1, turn); timestamp = turn; payload = turn_failed "no route" })
    ∷ []

abbrev failing_turns : ℕ → List Event
failing_turns zero = []
failing_turns (suc n) = failing_turns n ++ failing n

abbrev before : Policy
before = record {
  log = failing_turns 10;
  routines = nightly ∷ digest ∷ [];
  cleared = [];
  notifications = [];
}

nightly_off :
    (handle_failures true 99 before).routines ≡ (record nightly { enabled = false }) ∷ digest ∷ []
unfolding handle_failures get put
nightly_off = refl

handle_failures-none_left_example :
    unhandled (routine_history (handle_failures true 99 before).log) ≡ []
handle_failures-none_left_example = handle_failures-none_left true 99 before

handle_failures-routines_example :
    (handle_failures true 99 before).routines
    ≡ map
        (left_by_policy
          (unhandled (routine_history (reset_failures 99 before.routines before.log))))
        before.routines
handle_failures-routines_example = handle_failures-routines true 99 before refl

abbrev armed : Dict String ArmedRoutine
armed =
    ("nightly", record { schedule = "0 3 * * *"; time = 30 })
    ∷ ("digest", record { schedule = "0 8 * * *"; time = 20 })
    ∷ []

choose-IsFirst_example :
    IsFirst
      (waiting (nightly ∷ digest ∷ []) [])
      (due 40 armed (nightly ∷ digest ∷ []))
      (choose false 5 40 (nightly ∷ digest ∷ []) [] armed)
choose-IsFirst_example = choose-IsFirst 5 40 (nightly ∷ digest ∷ []) [] armed

abbrev digest_due : Due
digest_due = record { routine = digest; armed = record { schedule = "0 8 * * *"; time = 20 } }

digest_first : choose false 5 40 (nightly ∷ digest ∷ []) [] armed ≡ fires digest_due scheduled
unfolding choose get
digest_first = refl

abbrev daily : String → ℕ → ℕ
daily schedule time = time + 24
