-- ===== src/Examples/Inputs.antt =====
-- The inputs of a factory's steps.
use kinby.Common.{String, true, some, [], ◌∷◌, ◌++◌, ◌≡◌, refl, find, string_eq, ◌⊎◌}
use kinby.Common.Keyed.{get}
use kinby.Common.Text.{text}
use kinby.Factory.File.{Step, run_value_names}
use kinby.Factory.Check.{has_id}
use kinby.Factory.Check.Inputs.{inputs, keys}
use kinby.Runs.Values.{lacking}
use kinby.Runs.Unmet.{Refused, steps_before, last_declaring, unmet}
use kinby.Runs.Unmet.Provided.{has_step_id, unmet-provided}
use kinby.Examples.Data.{build_step, factory, issue}

factory_passes : inputs factory ≡ []
unfolding inputs keys run_value_names
factory_passes = refl

build_found : find (has_step_id build_step.id) factory.steps ≡ some build_step
build_found = refl

abbrev no_branch_yet : Refused
no_branch_yet = record {
  step = "plan";
  reason = "Step \"build\" requires \"branch\", which this step did not record.";
}

build_refused : unmet factory build_step (issue ∷ []) ≡ some no_branch_yet
unfolding unmet lacking get run_value_names steps_before text
build_refused = refl

unmet-provided_example :
    (name : String) × (lacking (issue ∷ []) (build_step.requires ++ run_value_names build_step.kind)
      ≡ some name)
    × ((has_id name (keys factory.work_item) ≡ true)
        ⊎ ((producer : Step) × (last_declaring name (steps_before factory.steps build_step.id)
              ≡ some producer)
            × ("plan" ≡ producer.id)))
unmet-provided_example =
    unmet-provided factory build_step (issue ∷ []) no_branch_yet factory_passes build_found
      build_refused
