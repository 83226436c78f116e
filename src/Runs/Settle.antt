-- ===== src/Runs/Settle.antt =====
-- hub/runs.py, `_settled` and what it calls: where a step's result moves its run.
pub mod Moves
pub mod Endings
use kinby.Common.{
  ℕ, String, Bool, true, false, not, ◌&&◌, leb, Option, none, some, List, [], ◌∷◌, ◌==◌, string_eq,
  pair_eq, if◌then◌else◌,
}
use kinby.Common.Keyed.{Dict, get, put, merge, count}
use kinby.Common.Text.{text, decimal}
use kinby.Contracts.Runs.{
  StepValue, StepEnding, clean, failed, timed_out, FactoryRunStatus, StepResult,
}
use kinby.Factory.File.{
  ValueType, SendBack, Outcome, next, done, stop, send_back, Step, FactoryFile, failure,
}
use kinby.Runs.Values.{following, lacking, is_held, value_type, same_type, type_name}
use kinby.Runs.Tally.{Tally, outcome_of, retries}

-- `_noted`: the result ending so, with the reason after its summary.
unfoldable pub noted : StepResult → String → StepEnding → StepResult
noted result reason ending = record result {
  ending = ending;
  summary = if result.summary == "" then reason else text (result.summary ∷ "\n" ∷ reason ∷ []);
}

-- The first declared value that the result records with another type.
wrong_type : Dict String ValueType → Dict String StepValue → Option (String × ValueType × ValueType)
wrong_type [] values = none
wrong_type ((name, kind) ∷ declared) values =
    let later = wrong_type declared values in
    elim (get name values) [
      | none ↦ later
      | some v ↦ if same_type (value_type v) kind then later else some (name, kind, value_type v)
    ]

-- `_checked_types`
unfoldable pub checked_types : Step → StepResult → StepResult
unfolding wrong_type
checked_types step result = elim (wrong_type step.results result.values) [
  | none ↦ result
  | some (name, kind, recorded) ↦
      noted result
        (text (
          "Step \""
          ∷ step.id
          ∷ "\" declares \""
          ∷ name
          ∷ "\" as "
          ∷ type_name kind
          ∷ ", but recorded a "
          ∷ type_name recorded
          ∷ "."
          ∷ []))
        failed
]

-- `_checked_done`: the clean result that ends the run, failed when the run lacks a value that
-- `done_requires` names. The values of that result count.
pub checked_done : FactoryFile → Dict String StepValue → StepResult → StepResult
checked_done factory held last =
    let values = merge held last.values in
    elim (lacking values factory.done_requires) [
      | none ↦ last
      | some name ↦
          noted last
            (text (
              "The run's done_requires needs \""
              ∷ name
              ∷ "\", which "
              ∷ elim (get name values) [
                | none ↦ "no step recorded"
                | some _ ↦ "a step recorded as false"
              ]
              ∷ "."
              ∷ []))
            failed
    ]

-- What `_settled` returns: the result the attempt records, and where the run moves.
pub record Settled : Type 0 where
  pub result : StepResult
  pub status : FactoryRunStatus
  pub step : Option String

abbrev outcome_text : Option String → String
outcome_text none = "None"
outcome_text (some name) = name

abbrev max_reason : String → String → String → SendBack → String
max_reason id sent back edge = text (
    "Step \""
    ∷ id
    ∷ "\" sent "
    ∷ sent
    ∷ " back to \""
    ∷ back
    ∷ "\" "
    ∷ decimal edge.max
    ∷ " times, its max."
    ∷ [])

abbrev pub sent_along : Tally → String → SendBack → ℕ
sent_along tally id edge = count (id, edge.back) tally.sent_back

-- A result that did not leave the run by its outcome: it failed, or it never was clean.
unclean_moves : Step → StepResult → Tally → Option SendBack → Settled
unclean_moves step result tally (some edge) =
    let failure_kept = record result {
      values = put failure (StepValue.str result.summary) result.values;
    } in
    if leb edge.max (sent_along tally step.id edge)
    then record {
      result =
          noted failure_kept (max_reason step.id "its failures" edge.back edge) StepEnding.failed;
      status = FactoryRunStatus.needs_human;
      step = some step.id;
    }
    else record { result = failure_kept; status = FactoryRunStatus.queued; step = some edge.back }
unclean_moves step result tally none =
    if leb (retries step) (count step.id tally.failures)
    then record { result = result; status = FactoryRunStatus.needs_human; step = some step.id }
    else record { result = result; status = FactoryRunStatus.queued; step = some step.id }

unclean : Step → StepResult → Tally → StepEnding → Settled
unfolding unclean_moves
unclean step result tally StepEnding.failed = unclean_moves step result tally step.failed
unclean step result tally StepEnding.timed_out = record {
  result = result;
  status = FactoryRunStatus.needs_human;
  step = some step.id;
}
unclean step result tally StepEnding.needs_human = record {
  result = result;
  status = FactoryRunStatus.needs_human;
  step = some step.id;
}
unclean step result tally _ = unclean_moves step result tally none

finished : Step → StepResult → Tally → StepEnding → Settled
unfolding unclean
finished step checked tally clean = record {
  result = checked;
  status = FactoryRunStatus.done;
  step = none;
}
finished step checked tally ending = unclean step checked tally ending

-- The run ends, unless it lacks a value that `done_requires` names.
ends_run : FactoryFile → Step → StepResult → Dict String StepValue → Tally → Settled
unfolding checked_done finished
ends_run factory step result held tally =
    let checked = checked_done factory held result in finished step checked tally checked.ending

abbrev no_outcome : Step → StepResult → StepResult
no_outcome step result =
    noted result
      (text
        ("Step \"" ∷ step.id ∷ "\" has no outcome \"" ∷ outcome_text result.outcome ∷ "\"." ∷ []))
      failed

clean_moves :
    FactoryFile → Step → StepResult → Dict String StepValue → Tally → Option Outcome → Settled
unfolding unclean ends_run
clean_moves factory step result held tally none = unclean step (no_outcome step result) tally failed
clean_moves factory step result held tally (some stop) = record {
  result = result;
  status = FactoryRunStatus.cancelled;
  step = some step.id;
}
clean_moves factory step result held tally (some (send_back edge)) =
    if leb edge.max (sent_along tally step.id edge)
    then record {
      result = noted result (max_reason step.id "the work" edge.back edge) result.ending;
      status = FactoryRunStatus.needs_human;
      step = some step.id;
    }
    else record { result = result; status = FactoryRunStatus.queued; step = some edge.back }
clean_moves factory step result held tally (some next) = elim (following factory.steps step.id) [
  | some after ↦ record { result = result; status = FactoryRunStatus.queued; step = some after.id }
  | none ↦ ends_run factory step result held tally
]
clean_moves factory step result held tally (some done) = ends_run factory step result held tally

settled_by : FactoryFile → Step → StepResult → Dict String StepValue → Tally → StepEnding → Settled
unfolding clean_moves unclean
settled_by factory step result held tally clean =
    clean_moves factory step result held tally (outcome_of step result.outcome)
settled_by factory step result held tally ending = unclean step result tally ending

-- `_settled`
unfoldable pub settled : FactoryFile → Step → StepResult → Dict String StepValue → Tally → Settled
unfolding settled_by
settled factory step result held tally = settled_by factory step result held tally result.ending
