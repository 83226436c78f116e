-- ===== src/Steps/Results.antt =====
-- contracts/models.py and core/steps.py: what a step is asked, and the results that fail or are cut.
use kinby.Common.{
  Bool, true, false, ℕ, ◌-◌, ◌*◌, String, Option, none, some, List, [], ◌∷◌, ◌==◌, string_eq, ltb,
  if◌then◌else◌,
}
use kinby.Common.Keyed.{Dict}
use kinby.Common.Text.{text}
use kinby.Common.Slices.{chars, take_text}
use kinby.Contracts.Runs.{StepValue, StepEnding, StepResult, clean}
use kinby.Steps.Coding.{Texts, CodingClient, tail_text}

pub data CommandEntry : Type 0 where
  written : String → CommandEntry
  listed : String → CommandEntry

pub record ClientStepRun : Type 0 where
  pub client : CodingClient
  pub resume : Option String
  pub timeout_seconds : ℕ
  pub branch : Option String

pub record CommandStepRun : Type 0 where
  pub run : List CommandEntry
  pub timeout_seconds : Option ℕ
  pub branch : Option String

pub data StepRun : Type 0 where
  agent_step : String → StepRun
  client_step : ClientStepRun → StepRun
  command_step : CommandStepRun → StepRun
  code_step : String → Option String → StepRun

pub record StepRunCommand : Type 0 where
  pub step : StepRun
  pub run_id : String
  pub step_id : String
  pub hook : Option String
  pub work_item : Dict String StepValue
  pub results : Dict String StepValue

pub record HookResult : Type 0 where
  pub values : Dict String StepValue
  pub outcome : Option String
  pub summary : String

abbrev pub bare : StepEnding → String → StepResult
bare ending summary = record {
  ending = ending;
  outcome = none;
  values = [];
  summary = summary;
  session = none;
  resets_at = none;
}

-- `_failed`
abbrev pub reason_after : String → String → String
reason_after reason summary = if summary == "" then reason else text (summary ∷ "\n" ∷ reason ∷ [])

abbrev pub kept_ending : StepEnding → Option ℕ → String → StepResult
kept_ending clean resets_at summary = bare StepEnding.failed summary
kept_ending ending resets_at summary = record (bare ending summary) { resets_at = resets_at }

unfoldable pub failed_with : String → Option StepResult → StepResult
unfolding text
failed_with reason none = bare StepEnding.failed reason
failed_with reason (some ended) =
    kept_ending ended.ending ended.resets_at (reason_after reason ended.summary)

abbrev pub summary_characters : ℕ
summary_characters = 16000

abbrev pub result_bytes : ℕ
result_bytes = 1024 * 1024

unfoldable pub cut_summary : Texts → StepResult → StepResult
unfolding take_text text tail_text
cut_summary texts result =
    if ltb summary_characters (chars result.summary)
    then record result {
      summary = text (
          take_text 8000 result.summary
          ∷ "\n["
          ∷ texts.grouped (chars result.summary - 2 * 8000)
          ∷ " characters cut]\n"
          ∷ tail_text 8000 result.summary
          ∷ []);
    }
    else result

abbrev pub too_large : Texts → ℕ → String
too_large texts size = text (
    "The step's result is "
    ∷ texts.grouped size
    ∷ " bytes, over the "
    ∷ texts.grouped result_bytes
    ∷ "-byte limit."
    ∷ [])

abbrev pub fit : Texts → StepResult → Bool → StepResult
fit texts cut true = failed_with (too_large texts (texts.json_size cut)) (some cut)
fit texts cut false = cut

-- `_bounded`
unfoldable pub bounded : Texts → StepResult → StepResult
unfolding failed_with cut_summary text
bounded texts result =
    let cut = cut_summary texts result in fit texts cut (ltb result_bytes (texts.json_size cut))
