-- ===== src/Steps/Kinds.antt =====
-- core/steps.py: agent, client and code steps, up to their results.
use kinby.Common.{
  ℕ, String, Option, none, some, List, [], ◌∷◌, ◌++◌, ◌==◌, string_eq, nat_eq, any, keep,
}
use kinby.Common.Keyed.{Dict, get, put, merge}
use kinby.Common.Text.{text}
use kinby.Common.Slices.{append}
use kinby.Contracts.Runs.{StepValue, StepEnding, StepResult, clean}
use kinby.Steps.Coding.{
  Texts, DelegatedRun, DelegatedRunOutcome, CodingRun, Exit, Streams, own_tokens, run_coding_client,
}
use kinby.Steps.Results.{ClientStepRun, StepRunCommand, HookResult, bare, failed_with}

-- What an event of a step's turn is to the step.
pub data TurnEvent : Type 0 where
  delta : String → TurnEvent
  called completed other_event : TurnEvent
  turn_failed : String → TurnEvent

-- The turn does not start, or it closes: its events, and the closing one.
pub data TurnRun : Type 0 where
  refused : String → TurnRun
  closed : List TurnEvent → TurnEvent → TurnRun

abbrev said_after : String → TurnEvent → String
said_after said (delta more) = append said more
said_after said called = ""
said_after said event = said

said_from : String → List TurnEvent → String
said_from said [] = said
said_from said (event ∷ events) = said_from (said_after said event) events

-- `_last_message`
unfoldable pub last_message : Texts → List TurnEvent → String
unfolding said_from
last_message texts events = texts.strip (said_from "" events)

abbrev pub closed_by : StepResult → TurnEvent → StepResult
closed_by said completed = record said { ending = clean }
closed_by said (turn_failed reason) =
    failed_with (text ("The turn failed: " ∷ reason ∷ [])) (some said)
closed_by said event = failed_with "The turn was interrupted." (some said)

-- `_run_agent_step`
unfoldable pub run_agent_step : Texts → TurnRun → StepResult
unfolding failed_with last_message text
run_agent_step texts (refused reason) =
    failed_with (text ("The turn could not start: " ∷ reason ∷ [])) none
run_agent_step texts (closed events last) =
    closed_by (bare StepEnding.failed (last_message texts (events ++ last ∷ []))) last

abbrev pub unlimited : CodingRun → StepResult
unlimited ran = record (bare ran.ending ran.summary) { session = ran.session }

abbrev pub by_outcome : CodingRun → Option ℕ → DelegatedRunOutcome → StepResult
by_outcome ran resets_at DelegatedRunOutcome.limited = record {
  ending = StepEnding.limited;
  outcome = none;
  values = [];
  summary = ran.summary;
  session = ran.session;
  resets_at = resets_at;
}
by_outcome ran resets_at outcome = unlimited ran

abbrev pub client_result : CodingRun → Option DelegatedRun → StepResult
client_result ran none = unlimited ran
client_result ran (some run) = by_outcome ran run.resets_at run.outcome

-- The log's RunDelegated events, the earliest first.
unfoldable pub record_run : List DelegatedRun → Option DelegatedRun → List DelegatedRun
unfolding own_tokens
record_run log none = log
record_run log (some run) = log ++ own_tokens run log ∷ []

-- `_run_client_step`
unfoldable pub run_client_step :
    Texts
    → ClientStepRun
    → (Option String → Exit × Streams)
    → List DelegatedRun
    → StepResult × List DelegatedRun
unfolding run_coding_client record_run
run_client_step texts step runs log =
    let ran = run_coding_client texts step.client step.timeout_seconds runs step.resume in
    (client_result ran ran.reported, record_run log ran.reported)

-- What a tool's call comes to: it raises, or it returns a HookResult, a mapping of values, None or
-- something else that is printed.
pub data Called : Type 0 where
  tool_raised : String → Called
  returned : HookResult → Called
  mapped : Dict String StepValue → Called
  returned_none : Called
  printed : String → Called

-- The tool's parameters, and its call.
pub record Tool : Type 0 where
  pub args : List String
  pub call : Dict String StepValue → Called

abbrev with_summary : StepRunCommand → Option String → Dict String StepValue → Dict String StepValue
with_summary command none held = held
with_summary command (some summary) held =
    put "summary" (StepValue.str summary) (put "step" (StepValue.str command.step_id) held)

-- The values of the run that the tool's parameters name.
unfoldable pub code_arguments : StepRunCommand → Option String → List String → Dict String StepValue
unfolding merge put
code_arguments command summary args =
    keep (λ held. any (λ arg. arg == held.0) args)
      (with_summary command summary
        (put "run_id" (StepValue.str command.run_id) (merge command.work_item command.results)))

abbrev pub code_result : String → Called → StepResult
code_result name (tool_raised reason) =
    failed_with (text ("Tool \"" ∷ name ∷ "\" failed: " ∷ reason ∷ [])) none
code_result name (returned recorded) = record (bare clean recorded.summary) {
  outcome = recorded.outcome;
  values = recorded.values;
}
code_result name (mapped values) = record (bare clean "") { values = values }
code_result name returned_none = bare clean ""
code_result name (printed result) = bare clean result

abbrev pub with_tool : StepRunCommand → String → Option String → Option Tool → StepResult
with_tool command name summary none =
    failed_with (text ("Tool \"" ∷ name ∷ "\" is not one of this instance's tools." ∷ [])) none
with_tool command name summary (some tool) =
    code_result name (tool.call (code_arguments command summary tool.args))

-- `_run_code_step`, with the instance's tools
unfoldable pub run_code_step :
    StepRunCommand → String → Option String → Dict String Tool → StepResult
unfolding code_arguments failed_with get text
run_code_step command name summary tools = with_tool command name summary (get name tools)
