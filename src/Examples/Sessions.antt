-- ===== src/Examples/Sessions.antt =====
-- A step that goes on with the session of an earlier one, and one that resumes itself.
use kinby.Common.{◌≡◌, ◌≢◌, refl, none, some, List, [], ◌∷◌, In, here, there, string_eq, arith}
use kinby.Contracts.Runs.{StepAttempt, clean}
use kinby.Factory.File.{ClientDeclaration, client, Step, FactoryFile}
use kinby.Factory.Check.{order, edges_of}
use kinby.Factory.Check.Resumes.{resumes}
use kinby.Runs.Row.{opened}
use kinby.Runs.Sessions.{resume_dict, resumed_by, first, rounds, session_of}
use kinby.Runs.Sessions.Links.{IsLike}
use kinby.Runs.Sessions.Ends.{first-ends}
use kinby.Runs.Sessions.Shared.{session_of-IsLike}
use kinby.Examples.Data.{factory, plan_step, build_step}

abbrev fix_declared : ClientDeclaration
fix_declared = record {
  instance_name = "builder";
  client = "codex";
  prompt = "prompts/fix.md";
  hook = "hooks/build.py";
  resume = some "build";
  model = none;
  effort = none;
  branch = some "branch";
}

abbrev fix_step : Step
fix_step = record build_step { id = "fix"; outcomes = []; kind = client fix_declared }

abbrev fixing : FactoryFile
fixing = record factory { steps = plan_step ∷ build_step ∷ fix_step ∷ [] }

fixing_ordered : order fixing ≡ []
unfolding order edges_of
fixing_ordered = refl

fixing_resumes : resumes fixing ≡ []
unfolding resumes
fixing_resumes = refl

-- A step that would resume itself, and so never lead back, is told by the check.
itself_told : resumes (record fixing { steps = record fix_step { id = "build" } ∷ [] }) ≢ []
unfolding resumes
itself_told e = absurd (ground (arith, e))

first-ends_example :
    resumed_by
      (resume_dict [] fixing.steps)
      (first (rounds fixing) (resume_dict [] fixing.steps) "fix")
    ≡ none
first-ends_example = first-ends fixing fixing_ordered fixing_resumes "fix"

abbrev built : List StepAttempt
built =
    record (opened "plan" 1 10) { ending = some clean }
    ∷ record (opened "build" 1 20) { ending = some clean; session = some "s1" }
    ∷ []

finds_session : session_of built fixing "build" ≡ some "s1"
unfolding session_of
finds_session = refl

session_of-IsLike_example :
    (attempt : StepAttempt) × In attempt built
    × (attempt.session ≡ some "s1")
    × ((recorded : Step) × In recorded fixing.steps
        × (recorded.id ≡ attempt.step)
        × IsLike fix_declared recorded)
session_of-IsLike_example =
    session_of-IsLike fixing fixing_ordered fixing_resumes built fix_step fix_declared "build" "s1"
      (there (there here)) refl refl finds_session
