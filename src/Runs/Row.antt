-- ===== src/Runs/Row.antt =====
-- hub/registry.py: what the registry keeps of one factory run, and the statements that change it.
-- An attempt's rowid is its place among the run's attempts, counted from 1: rows of one run keep
-- their order, and only its last attempt is ever deleted.
pub mod Laws
pub mod Stops
use kinby.Common.{
  ℕ, suc, ◌+◌, String, Bool, true, false, Option, none, some, List, [], ◌∷◌, ◌++◌, ◌==◌, nat_eq,
  string_eq, if◌then◌else◌, length, ltb, leb, ◌&&◌, drop,
}
use kinby.Common.Keyed.{Dict}
use kinby.Contracts.Runs.{
  StepValue, StepEnding, FactoryRunStatus, running, queued, parked, needs_human, done, cancelled,
  StepResult, StepAttempt,
}

-- A row of `run_stops`: the status and the last attempt that the run stopped with.
pub record Stop : Type 0 where
  pub generation : ℕ
  pub status : FactoryRunStatus
  pub last_attempt : ℕ
  pub told : Bool

-- A row of `factory_runs`, with the run's rows of `step_attempts` and `run_stops`.
pub record Row : Type 0 where
  pub run_id : ℕ
  pub factory : String
  pub instance_id : ℕ
  pub work_item : Dict String StepValue
  pub status : FactoryRunStatus
  pub step : Option String
  pub wakes_at : Option ℕ
  pub restarted_after : ℕ
  pub reported : Bool
  pub stop_generation : ℕ
  pub ended_call : Bool
  pub attempts : List StepAttempt
  pub stops : List Stop

abbrev pub is_open : StepAttempt → Bool
is_open attempt = elim attempt.ending [ none ↦ true | some _ ↦ false ]

unfoldable pub attempts_at : String → List StepAttempt → ℕ
attempts_at id [] = 0
attempts_at id (a ∷ attempts) =
    let rest = attempts_at id attempts in if a.step == id then suc rest else rest

-- The attempt that `begin_attempt` inserts.
abbrev pub opened : String → ℕ → ℕ → StepAttempt
opened id number now = record {
  step = id;
  attempt = number;
  ending = none;
  outcome = none;
  values = [];
  summary = "";
  session = none;
  started_at = now;
}

unfoldable pub begin_attempt : String → FactoryRunStatus → ℕ → Row → Row
begin_attempt id status now row = record row {
  status = status;
  step = some id;
  attempts = row.attempts ++ opened id (attempts_at id row.attempts + 1) now ∷ [];
}

unfoldable pub without_open : List StepAttempt → List StepAttempt
without_open [] = []
without_open (a ∷ attempts) =
    let rest = without_open attempts in if is_open a then rest else a ∷ rest

unfoldable pub drop_attempt : Row → Row
drop_attempt row = record row { status = queued; attempts = without_open row.attempts }

abbrev pub ended : StepResult → StepAttempt → StepAttempt
ended result attempt = record attempt {
  ending = some result.ending;
  outcome = result.outcome;
  values = result.values;
  summary = result.summary;
  session = result.session;
}

unfoldable pub end_open : StepResult → List StepAttempt → List StepAttempt
end_open result [] = []
end_open result (a ∷ attempts) =
    (if is_open a then ended result a else a) ∷ end_open result attempts

unfoldable pub end_attempt : StepResult → Row → Row
end_attempt result row = record row { attempts = end_open result row.attempts }

-- The statuses in STOPS.
abbrev pub is_stop : FactoryRunStatus → Bool
is_stop done = true
is_stop cancelled = true
is_stop needs_human = true
is_stop _ = false

abbrev pub is_needs_human : FactoryRunStatus → Bool
is_needs_human needs_human = true
is_needs_human _ = false

unfoldable pub move_run : FactoryRunStatus → Option String → Option ℕ → Bool → Row → Row
move_run status step wakes_at ended_call row =
    let moved = record row {
      status = status;
      step = step;
      wakes_at = wakes_at;
      ended_call = ended_call;
      reported = if is_needs_human status then false else row.reported;
    } in
    if is_stop status
    then record moved {
      stop_generation = row.stop_generation + 1;
      stops =
          row.stops
          ++ record {
            generation = row.stop_generation + 1;
            status = status;
            last_attempt = length row.attempts;
            told = false;
          }
            ∷ [];
    }
    else moved

unfoldable pub restart_run : Option String → Row → Row
restart_run step row = record row {
  status = queued;
  step = step;
  restarted_after = length row.attempts;
}

unfoldable pub mark_reported : ℕ → Row → Row
mark_reported generation row =
    if row.stop_generation == generation then record row { reported = true } else row

unfoldable pub mark_ended_called : Row → Row
mark_ended_called row = record row { ended_call = false }

mark_stop : ℕ → List Stop → List Stop
mark_stop generation [] = []
mark_stop generation (stop ∷ stops) =
    (if stop.generation == generation then record stop { told = true } else stop)
    ∷ mark_stop generation stops

unfoldable pub mark_told : ℕ → Row → Row
unfolding mark_stop
mark_told generation row = record row { stops = mark_stop generation row.stops }

-- The attempts since the user's restart, which count toward retries and send-backs.
unfoldable pub counted_attempts : Row → List StepAttempt
counted_attempts row = drop row.restarted_after row.attempts
