-- ===== src/Steps/Coding.antt =====
-- core/coding_clients.py: how one run of a coding client ends, and what tokens it is charged with.
use kinby.Common.{
  ℕ, ◌-◌, String, Bool, true, false, ◌&&◌, Option, none, some, List, [], ◌∷◌, ◌==◌, string_eq,
  nat_eq, sum_by, keep, if◌then◌else◌,
}
use kinby.Common.Text.{text, decimal}
use kinby.Common.Slices.{chars, drop_text, contains}
use kinby.Contracts.Runs.{StepEnding, StepResult, clean}

-- Python's texts, and pydantic's JSON: `s.strip()`, `f"{n:,}"` and
-- `len(result.model_dump_json().encode())`.
pub record Texts : Type 0 where
  pub strip : String → String
  pub grouped : ℕ → String
  pub json_size : StepResult → ℕ

-- `s[-n:]`
unfoldable pub tail_text : ℕ → String → String
unfolding drop_text
tail_text n s = drop_text (chars s - n) s

pub data CodingClient : Type 0 where
  claude codex : CodingClient

abbrev pub client_name : CodingClient → String
client_name claude = "claude"
client_name codex = "codex"

pub record TokenTotals : Type 0 where
  pub input_tokens : ℕ
  pub output_tokens : ℕ
  pub cache_read_tokens : ℕ
  pub cache_creation_tokens : ℕ

pub data DelegatedRunOutcome : Type 0 where
  completed limited failed : DelegatedRunOutcome

-- The client, its models and the run's length are left out: nothing here depends on them.
pub record DelegatedRun : Type 0 where
  pub tokens : TokenTotals
  pub outcome : DelegatedRunOutcome
  pub resets_at : Option ℕ
  pub session : Option String

-- `_resets_at_only_when_limited`, which every run passes.
abbrev pub run_resets_when_limited : DelegatedRunOutcome → Option ℕ → Bool
run_resets_when_limited DelegatedRunOutcome.limited none = false
run_resets_when_limited DelegatedRunOutcome.limited (some _) = true
run_resets_when_limited _ none = true
run_resets_when_limited _ (some _) = false

abbrev pub run_is_valid : DelegatedRun → Bool
run_is_valid run = run_resets_when_limited run.outcome run.resets_at

abbrev pub outcome_by : Bool → Option ℕ → DelegatedRunOutcome
outcome_by true resets_at = DelegatedRunOutcome.completed
outcome_by false (some resets_at) = DelegatedRunOutcome.limited
outcome_by false none = DelegatedRunOutcome.failed

abbrev pub resets_of : DelegatedRunOutcome → Option ℕ → Option ℕ
resets_of DelegatedRunOutcome.limited resets_at = resets_at
resets_of outcome resets_at = none

-- `_reported`
unfoldable pub reported : List TokenTotals → Bool → Option ℕ → Option String → DelegatedRun
reported counted succeeded resets_at session = record {
  tokens = record {
    input_tokens = sum_by (λ tokens. tokens.input_tokens) counted;
    output_tokens = sum_by (λ tokens. tokens.output_tokens) counted;
    cache_read_tokens = sum_by (λ tokens. tokens.cache_read_tokens) counted;
    cache_creation_tokens = sum_by (λ tokens. tokens.cache_creation_tokens) counted;
  };
  outcome = outcome_by succeeded resets_at;
  resets_at = resets_of (outcome_by succeeded resets_at) resets_at;
  session = session;
}

abbrev pub is_session : String → Option String → Bool
is_session session none = false
is_session session (some other) = other == session

abbrev pub same_session : String → DelegatedRun → Bool
same_session session run = is_session session run.session

abbrev less : TokenTotals → List DelegatedRun → TokenTotals
less tokens before = record {
  input_tokens = tokens.input_tokens - sum_by (λ run. run.tokens.input_tokens) before;
  output_tokens = tokens.output_tokens - sum_by (λ run. run.tokens.output_tokens) before;
  cache_read_tokens =
      tokens.cache_read_tokens - sum_by (λ run. run.tokens.cache_read_tokens) before;
  cache_creation_tokens =
      tokens.cache_creation_tokens - sum_by (λ run. run.tokens.cache_creation_tokens) before;
}

abbrev pub own_in : DelegatedRun → List DelegatedRun → Option String → DelegatedRun
own_in run earlier none = run
own_in run earlier (some session) = record run {
  tokens = less run.tokens (keep (same_session session) earlier);
}

-- `own_tokens`: the subtraction on ℕ stops at 0, as `max(..., 0)` does.
unfoldable pub own_tokens : DelegatedRun → List DelegatedRun → DelegatedRun
own_tokens run earlier = own_in run earlier run.session

pub record CodingRun : Type 0 where
  pub ending : StepEnding
  pub summary : String
  pub session : Option String
  pub reported : Option DelegatedRun
  pub transcript : Option String

-- `_ended`
abbrev pub ended : CodingRun → StepEnding → String → CodingRun
ended ran ending reason = record ran {
  ending = ending;
  summary = if ran.summary == "" then reason else text (ran.summary ∷ "\n" ∷ reason ∷ []);
}

-- How the client's process ends: it does not start, it is killed at the deadline, it exits, or a
-- signal kills it.
pub data Exit : Type 0 where
  not_started : String → Exit
  past_deadline : Exit
  exited signalled : ℕ → Exit

-- What `_claude` or `_codex`, and `_started`, read in the client's streams.
pub record Streams : Type 0 where
  pub said : String
  pub counted : List TokenTotals
  pub succeeded : Bool
  pub resets_at : Option ℕ
  pub session : Option String
  pub started : Option String
  pub errors : String

abbrev or_else : Option String → Option String → Option String
or_else (some a) b = some a
or_else none b = b

abbrev pub ran_clean : Streams → CodingRun
ran_clean out = record {
  ending = clean;
  summary = out.said;
  session = out.session;
  reported = some (reported out.counted out.succeeded out.resets_at out.session);
  transcript = or_else out.session out.started;
}

abbrev pub exit_reason : Texts → CodingClient → ℕ → String → String
exit_reason texts client code errors = texts.strip (
    text (
      client_name client
      ∷ " exited with code "
      ∷ decimal code
      ∷ ".\n"
      ∷ tail_text 2000 (texts.strip errors)
      ∷ []))

-- `_run`
unfoldable pub run_once : Texts → CodingClient → ℕ → Exit → Streams → CodingRun
unfolding reported tail_text text decimal
run_once texts client timeout (not_started reason) out = record {
  ending = StepEnding.failed;
  summary = text (client_name client ∷ " could not start: " ∷ reason ∷ []);
  session = none;
  reported = none;
  transcript = none;
}
run_once texts client timeout past_deadline out = ended (ran_clean out) StepEnding.timed_out (
    text (
      client_name client
      ∷ " ran past its "
      ∷ decimal timeout
      ∷ "-second timeout and was killed."
      ∷ []))
run_once texts client timeout (exited code) out =
    if code == 0
    then ran_clean out
    else ended (ran_clean out) StepEnding.failed (exit_reason texts client code out.errors)
run_once texts client timeout (signalled signal) out =
    ended (ran_clean out) StepEnding.failed
      (text (client_name client ∷ " was killed by signal " ∷ decimal signal ∷ "." ∷ []))

abbrev pub errors_of : Exit → Streams → String
errors_of (not_started reason) out = ""
errors_of exit out = out.errors

abbrev is_claude : CodingClient → Bool
is_claude claude = true
is_claude codex = false

abbrev is_failed : StepEnding → Bool
is_failed StepEnding.failed = true
is_failed _ = false

abbrev pub lost_session : CodingClient → String → CodingRun → String → Bool
lost_session client session ran errors =
    is_claude client
    && is_failed ran.ending
    && contains (text ("No conversation found with session ID: " ∷ session ∷ [])) errors

-- `run_coding_client`: what each run comes to is told by the session it resumes.
unfoldable pub run_coding_client :
    Texts → CodingClient → ℕ → (Option String → Exit × Streams) → Option String → CodingRun
unfolding run_once text contains
run_coding_client texts client timeout runs none =
    run_once texts client timeout (runs none).0 (runs none).1
run_coding_client texts client timeout runs (some session) =
    let ran = run_once texts client timeout (runs (some session)).0 (runs (some session)).1 in
    let again = run_once texts client timeout (runs none).0 (runs none).1 in
    if lost_session client session ran (errors_of (runs (some session)).0 (runs (some session)).1)
    then ended again again.ending (
        text (
          "Session " ∷ session ∷ " was lost, so " ∷ client_name client ∷ " ran in a new one." ∷ []))
    else ran
