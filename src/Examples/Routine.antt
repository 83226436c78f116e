-- ===== src/Examples/Routine.antt =====
-- A routine that fails, works, and fails twice more, of which the first failure is handled.
use kinby.Common.{ℕ, true, none, some, List, [], ◌∷◌, string_eq, nat_eq, pair_eq}
use kinby.Routines.{
  Payload, failure_handled, turn_started, turn_completed, turn_failed, Event, Failure,
}

abbrev at : ℕ → Payload → Event
at turn payload = record { key = (1, turn); timestamp = turn; payload = payload }

abbrev events : List Event
events =
    at 1 (turn_started (some "digest"))
    ∷ at 1 (turn_failed "no key")
    ∷ at 2 (turn_started (some "digest"))
    ∷ at 2 (turn_completed true)
    ∷ at 3 (turn_started (some "digest"))
    ∷ at 3 (turn_failed "no network")
    ∷ at 4 (turn_started (some "digest"))
    ∷ at 4 (turn_failed "no network")
    ∷ at 3 (failure_handled "digest" none)
    ∷ []

abbrev second_failure : Failure
second_failure = record { name = "digest"; key = (1, 4); count = 2; reason = "no network" }
