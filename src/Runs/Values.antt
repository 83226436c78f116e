-- ===== src/Runs/Values.antt =====
-- hub/runs.py: reading the factory file and the values a run holds.
pub mod Laws
use kinby.Common.{
  ℕ, String, Bool, true, false, ◌||◌, not, Option, none, some, List, [], ◌∷◌, ◌++◌, ◌==◌, string_eq,
  if◌then◌else◌, find, head?,
}
use kinby.Common.Keyed.{Dict, get}
use kinby.Contracts.Runs.{StepValue, str, int, bool}
use kinby.Factory.File.{ValueType, Step, FactoryFile}

-- The first step by this id.
unfoldable pub step_of : List Step → String → Option Step
step_of [] id = none
step_of (step ∷ steps) id = if step.id == id then some step else step_of steps id

-- `steps[steps.index(step) + 1]` of the first step by this id, and none where that is the last.
unfoldable pub following : List Step → String → Option Step
following [] id = none
following (step ∷ steps) id = if step.id == id then head? steps else following steps id

cons_passed : String → Option (List String) → Option (List String)
cons_passed id none = none
cons_passed id (some ids) = some (id ∷ ids)

-- The ids before the first step by this id, where there is one.
ids_before : List Step → String → Option (List String)
ids_before [] id = none
ids_before (step ∷ steps) id =
    if step.id == id then some [] else cons_passed step.id (ids_before steps id)

-- `_earlier`: `ids[: ids.index(step_id)] if step_id in ids else []`
unfoldable pub earlier_ids : List Step → Option String → List String
unfolding ids_before cons_passed
earlier_ids steps none = []
earlier_ids steps (some id) = elim (ids_before steps id) [ none ↦ [] | some ids ↦ ids ]

-- Whether a value is held, and is not false.
abbrev pub is_held : Option StepValue → Bool
is_held none = false
is_held (some (bool false)) = false
is_held (some _) = true

-- The first of the names that the run does not hold, or holds as false.
unfoldable pub lacking : Dict String StepValue → List String → Option String
lacking held [] = none
lacking held (name ∷ names) = if is_held (get name held) then lacking held names else some name

unfoldable pub value_type : StepValue → ValueType
value_type (bool _) = ValueType.bool
value_type (int _) = ValueType.int
value_type (str _) = ValueType.str

abbrev pub same_type : ValueType → ValueType → Bool
same_type ValueType.str ValueType.str = true
same_type ValueType.int ValueType.int = true
same_type ValueType.bool ValueType.bool = true
same_type _ _ = false

abbrev pub type_name : ValueType → String
type_name ValueType.str = "str"
type_name ValueType.int = "int"
type_name ValueType.bool = "bool"
