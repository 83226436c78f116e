-- ===== src/Examples/Stepping.antt =====
-- Steps in an instance: commands that pass, a client that the plan limits, and the
-- tokens of two runs of a session.
use kinby.Common.{
  ℕ, String, ◌≤◌, true, false, ◌≡◌, ◌↔◌, refl, none, some, List, [], ◌∷◌, string_eq, nat_eq,
}
use kinby.Common.Text.{decimal}
use kinby.Common.Slices.{chars}
use kinby.Contracts.Runs.{clean, FactoryRunStatus}
use kinby.Runs.Row.{Row}
use kinby.Runs.Engine.{settle}
use kinby.Runs.Engine.Stops.{stop_of}
use kinby.Steps.Coding.{
  Texts, codex, DelegatedRun, DelegatedRunOutcome, Streams, exited, run_coding_client, run_once,
}
use kinby.Steps.Results.{
  written, listed, CommandStepRun, client_step, command_step, StepRunCommand, bounded, cut_summary,
  result_bytes,
}
use kinby.Steps.Kinds.{refused, run_client_step}
use kinby.Steps.Commands.{lists, exits, run_command_step}
use kinby.Steps.Run.{Instance, recorded_none, run_step, worktree_error, branch_of, recorded_result}
use kinby.Steps.Refused.{IsValid}
use kinby.Steps.Valid.{run_step-IsValid}
use kinby.Steps.Listing.{WrittenOut, held_of}
use kinby.Steps.Lasting.{own_result, run_step-stops}
use kinby.Steps.Clean.{run_command_step-clean, run_step-clean, all_pass, hook_passes}
use kinby.Steps.Tokens.{input, session_total, record_runs, record_runs-total}
use kinby.Examples.Data.{factory, start_row}

abbrev plain_texts : Texts
plain_texts = record {
  strip = λ text. text;
  grouped = decimal;
  json_size = λ result. chars result.summary;
}

-- Codex met the plan's limit, which resets at 900.
abbrev limited_out : Streams
limited_out = record {
  said = "Half done.";
  counted = [];
  succeeded = false;
  resets_at = some 900;
  session = some "s1";
  started = none;
  errors = "";
}

abbrev building : Instance
building = record {
  run_worktree = λ branch. none;
  step_turn = λ prompt. refused "no turns here";
  client_runs = λ step session. (exited 1, limited_out);
  repository = lists (("tests", "make test" ∷ []) ∷ []);
  comes_to = λ place line. exits 0 "";
  tools = [];
  hooks = ("record", λ ending item results. recorded_none) ∷ [];
  unloaded = "";
}

abbrev check_commands : CommandStepRun
check_commands = record {
  run = written "make" ∷ listed "tests" ∷ [];
  timeout_seconds = some 600;
  branch = some "fix-door";
}

abbrev check_asked : StepRunCommand
check_asked = record {
  step = command_step check_commands;
  run_id = "1";
  step_id = "check";
  hook = some "record";
  work_item = [];
  results = [];
}

abbrev build_asked : StepRunCommand
build_asked = record check_asked {
  step =
      client_step (record { client = codex; resume = none; timeout_seconds = 600; branch = none });
}

limited_ends : (run_step plain_texts building build_asked []).0.resets_at ≡ some 900
unfolding run_step run_client_step run_coding_client run_once recorded_result bounded cut_summary
limited_ends = refl

run_step-IsValid_example : IsValid (run_step plain_texts building build_asked []).0
run_step-IsValid_example = run_step-IsValid plain_texts building build_asked []

-- The commands pass.
run_command_step-clean_example :
    ((run_command_step plain_texts check_commands building.repository building.comes_to).ending
      ≡ clean)
    ↔ ((lines : List String) × WrittenOut (held_of building.repository) check_commands.run lines
        × (all_pass building.comes_to 0 lines ≡ true))
run_command_step-clean_example =
    run_command_step-clean plain_texts check_commands building.repository building.comes_to

commands_pass :
    (run_command_step plain_texts check_commands building.repository building.comes_to).ending
    ≡ clean
unfolding run_command_step
commands_pass = refl

run_step-clean_example :
    (worktree_error building (branch_of check_asked.step) ≡ none)
    × ((own_result plain_texts building check_asked []).ending ≡ clean)
    × (hook_passes building check_asked
          (own_result plain_texts building check_asked [])
          check_asked.hook
        ≡ true)
    × (plain_texts.json_size (run_step plain_texts building check_asked []).0 ≤ result_bytes)
unfolding run_step
run_step-clean_example = run_step-clean plain_texts building check_asked [] refl

-- The client step, which the plan limits, in a run that is at a step.
abbrev checked_row : Row
checked_row = record start_row { step = some "check" }

run_step-stops_example :
    stop_of (settle (some factory) (run_step plain_texts building build_asked []).0 checked_row)
    ≡ some (FactoryRunStatus.parked, some 900)
unfolding run_client_step run_coding_client run_once
run_step-stops_example =
    run_step-stops plain_texts building build_asked [] (some factory) checked_row "check" refl refl
      refl

-- Two runs of a session, the second of which goes on from the first, and one of another.
abbrev run_of : String → ℕ → DelegatedRun
run_of session read = record {
  tokens = record {
    input_tokens = read;
    output_tokens = 0;
    cache_read_tokens = 0;
    cache_creation_tokens = 0;
  };
  outcome = DelegatedRunOutcome.completed;
  resets_at = none;
  session = some session;
}

abbrev session_runs : List DelegatedRun
session_runs = run_of "s1" 100 ∷ run_of "s2" 40 ∷ run_of "s1" 250 ∷ []

record_runs-total_example : session_total input "s1" (record_runs [] session_runs) ≡ 250
record_runs-total_example = record_runs-total input "s1" [] session_runs
