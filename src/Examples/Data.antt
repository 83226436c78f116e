-- ===== src/Examples/Data.antt =====
-- A factory that plans, builds and checks, as factories/file.py declares one, and a run of it.
use kinby.Common.{String, none, some, [], ◌∷◌, false}
use kinby.Contracts.Runs.{StepValue, clean, failed, queued, StepResult}
use kinby.Factory.File.{ValueType, send_back, Kind, Step, FactoryFile}
use kinby.Runs.Row.{Row}

abbrev pub plan_step : Step
plan_step = record {
  id = "plan";
  requires = "issue" ∷ [];
  results = ("branch", ValueType.str) ∷ [];
  outcomes = [];
  retry = none;
  failed = none;
  timeout = none;
  kind = Kind.agent "builder" "builder" "prompts/plan.md";
}

abbrev pub build_step : Step
build_step = record {
  id = "build";
  requires = "issue" ∷ "branch" ∷ [];
  results = [];
  outcomes = ("replan", send_back (record { back = "plan"; max = 2 })) ∷ [];
  retry = none;
  failed = none;
  timeout = none;
  kind = Kind.client (record {
    instance_name = "builder";
    client = "codex";
    prompt = "prompts/build.md";
    hook = "hooks/build.py";
    resume = none;
    model = none;
    effort = none;
    branch = some "branch";
  });
}

abbrev pub check_step : Step
check_step = record {
  id = "check";
  requires = [];
  results = [];
  outcomes = [];
  retry = none;
  failed = some (record { back = "build"; max = 3 });
  timeout = none;
  kind = Kind.command "builder" [] none none;
}

abbrev pub factory : FactoryFile
factory = record {
  name = "issues";
  intake = record { instance_name = "builder"; routine = "intake" };
  work_item = ("issue", ValueType.str) ∷ [];
  steps = plan_step ∷ build_step ∷ check_step ∷ [];
  done_requires = "branch" ∷ [];
  needs_human = none;
  ended = none;
  closing = record { done = []; cancelled = [] };
}

abbrev pub issue : String × StepValue
issue = ("issue", StepValue.str "The door does not open.")

abbrev pub start_row : Row
start_row = record {
  run_id = 1;
  factory = "issues";
  instance_id = 7;
  work_item = issue ∷ [];
  status = queued;
  step = some "plan";
  wakes_at = none;
  restarted_after = 0;
  reported = false;
  stop_generation = 0;
  ended_call = false;
  attempts = [];
  stops = [];
}

-- What the plan hands back, and a check that failed.
abbrev pub planned : StepResult
planned = record {
  ending = clean;
  outcome = none;
  values = ("branch", StepValue.str "fix-door") ∷ [];
  summary = "The hinge is stuck.";
  session = none;
  resets_at = none;
}

abbrev pub check_failed : StepResult
check_failed = record {
  ending = failed;
  outcome = none;
  values = [];
  summary = "Two tests failed.";
  session = none;
  resets_at = none;
}
