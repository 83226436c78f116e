-- ===== src/Steps/Commands.antt =====
-- core/steps.py: command steps.
use kinby.Common.{
  ℕ, ◌+◌, String, Bool, true, false, Option, none, some, List, [], ◌∷◌, ◌++◌, ◌==◌, string_eq,
  nat_eq, all, if◌then◌else◌,
}
use kinby.Common.Keyed.{Dict, get}
use kinby.Common.Text.{text, decimal}
use kinby.Contracts.Runs.{StepEnding, StepResult, clean}
use kinby.Steps.Coding.{Texts, tail_text}
use kinby.Steps.Results.{CommandEntry, written, listed, CommandStepRun, bare, failed_with}

-- `repository_commands`: the lists of the instance's manifest, which may not be readable.
pub data Repository : Type 0 where
  unreadable : String → Repository
  lists : Dict String (List String) → Repository

pub data Expanded : Type 0 where
  expands : List String → Expanded
  ends : StepResult → Expanded

abbrev pub in_front : List String → Expanded → Expanded
in_front first (expands rest) = expands (first ++ rest)
in_front first (ends result) = ends result

abbrev pub no_list : String → StepResult
no_list name = bare StepEnding.needs_human (
    text (
      "This instance holds no repository commands named \"" ∷ name
      ∷ "\". Ask it in a thread for a repository survey." ∷ []))

abbrev pub listed_in : Option (List String) → String → Expanded → Expanded
listed_in none name rest = ends (no_list name)
listed_in (some lines) name rest = in_front lines rest

unfoldable pub expand : Dict String (List String) → List CommandEntry → Expanded
unfolding get text
expand held [] = expands []
expand held (written line ∷ entries) = in_front (line ∷ []) (expand held entries)
expand held (listed name ∷ entries) =
    let rest = expand held entries in listed_in (get name held) name rest

abbrev pub is_written : CommandEntry → Bool
is_written (written line) = true
is_written (listed name) = false

abbrev pub expand_by : Bool → Repository → List CommandEntry → Expanded
expand_by true repository entries = expand [] entries
expand_by false (unreadable reason) entries =
    ends (failed_with (text ("The repository commands cannot be read: " ∷ reason ∷ [])) none)
expand_by false (lists held) entries = expand held entries

-- `_commands`
unfoldable pub commands_of : CommandStepRun → Repository → Expanded
unfolding expand failed_with text
commands_of step repository = expand_by (all is_written step.run) repository step.run

-- What a command comes to: it does not start, it exits or is killed, with its output, or it still
-- runs when the step's timeout passes.
pub data CommandEnd : Type 0 where
  unstarted : String → CommandEnd
  exits killed : ℕ → String → CommandEnd
  runs_past : CommandEnd

abbrev exit_summary : Texts → String → String → String → String
exit_summary texts line code output = texts.strip (
    text (
      "\""
      ∷ line
      ∷ "\" exited with code "
      ∷ code
      ∷ ".\n"
      ∷ tail_text 2000 (texts.strip output)
      ∷ []))

abbrev seconds : Option ℕ → String
seconds none = "None"
seconds (some timeout) = decimal timeout

-- `_run_command`, and the timeout around the commands: none where the command exits with 0.
unfoldable pub command_failed : Texts → Option ℕ → String → CommandEnd → Option StepResult
unfolding text decimal tail_text
command_failed texts timeout line (unstarted reason) =
    some (bare StepEnding.failed (text ("\"" ∷ line ∷ "\" could not start: " ∷ reason ∷ [])))
command_failed texts timeout line (exits code output) =
    if code == 0
    then none
    else some (bare StepEnding.failed (exit_summary texts line (decimal code) output))
command_failed texts timeout line (killed signal output) =
    some
      (bare StepEnding.failed (exit_summary texts line (text ("-" ∷ decimal signal ∷ [])) output))
command_failed texts timeout line runs_past = some (
    bare StepEnding.timed_out
      (text ("The commands ran past the step's timeout of " ∷ seconds timeout ∷ "s." ∷ [])))

abbrev pub or_else : Option StepResult → StepResult → StepResult
or_else none result = result
or_else (some failed) result = failed

-- What each command comes to is told by its place.
unfoldable pub run_commands :
    Texts → Option ℕ → (ℕ → String → CommandEnd) → ℕ → List String → StepResult
unfolding command_failed
run_commands texts timeout comes_to at [] = bare clean "Every command exited with code 0."
run_commands texts timeout comes_to at (line ∷ lines) =
    let rest = run_commands texts timeout comes_to (at + 1) lines in
    or_else (command_failed texts timeout line (comes_to at line)) rest

abbrev pub run_expanded : Texts → Option ℕ → (ℕ → String → CommandEnd) → Expanded → StepResult
run_expanded texts timeout comes_to (ends result) = result
run_expanded texts timeout comes_to (expands lines) = run_commands texts timeout comes_to 0 lines

-- `run_command_step`
unfoldable pub run_command_step :
    Texts → CommandStepRun → Repository → (ℕ → String → CommandEnd) → StepResult
unfolding commands_of run_commands
run_command_step texts step repository comes_to =
    run_expanded texts step.timeout_seconds comes_to (commands_of step repository)
