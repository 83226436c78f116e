-- ===== src/Examples/Intakes.antt =====
-- A work item that the factory of Examples/Data.antt takes in.
use kinby.Common.{String, ◌≡◌, ◌≢◌, refl, none, [], ◌∷◌, In, string_eq}
use kinby.Common.Keyed.{get}
use kinby.Contracts.Runs.{StepValue}
use kinby.Factory.File.{ValueType}
use kinby.Runs.Values.{value_type}
use kinby.Runs.Intake.{work_item_errors}
use kinby.Runs.Intake.Laws.{Fits, work_item_errors-nil}
use kinby.Examples.Data.{factory, issue}

nothing_wrong : work_item_errors factory.work_item (issue ∷ []) ≡ []
unfolding work_item_errors get value_type
nothing_wrong = refl

work_item_errors-nil_example :
    ((name : String) (kind : ValueType)
      → In (name, kind) factory.work_item
      → Fits kind (get name (issue ∷ [])))
    × ((name : String) (value : StepValue)
        → In (name, value) (issue ∷ [])
        → get name factory.work_item ≢ none)
work_item_errors-nil_example = work_item_errors-nil factory.work_item (issue ∷ []) nothing_wrong
