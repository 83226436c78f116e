-- ===== src/Runs/Intake.antt =====
-- hub/runs.py: what is wrong with a work item that is taken in.
pub mod Laws
use kinby.Common.{
  String, Bool, true, false, Option, none, some, List, [], ◌∷◌, ◌==◌, string_eq, if◌then◌else◌,
}
use kinby.Common.Keyed.{Dict, get, put}
use kinby.Common.Text.{text}
use kinby.Contracts.Runs.{StepValue}
use kinby.Factory.File.{ValueType}
use kinby.Runs.Values.{value_type, same_type, type_name}

add_undeclared : String → Option ValueType → Dict String String → Dict String String
add_undeclared name none errors =
    (name, "The factory's work item carries no value by this name.") ∷ errors
add_undeclared name (some _) errors = errors

-- The values that the factory does not declare, in the order of the work item.
undeclared : Dict String ValueType → Dict String StepValue → Dict String String
undeclared declared [] = []
undeclared declared ((name, _) ∷ values) =
    add_undeclared name (get name declared) (undeclared declared values)

add_declared : String → ValueType → Option StepValue → Dict String String → Dict String String
add_declared name kind none errors = put name "The work item needs this value." errors
add_declared name kind (some value) errors =
    if same_type (value_type value) kind
    then errors
    else put name (text ("Expected a value of type " ∷ type_name kind ∷ "." ∷ [])) errors

check_declared :
    Dict String ValueType → Dict String StepValue → Dict String String → Dict String String
check_declared [] values errors = errors
check_declared ((name, kind) ∷ declared) values errors =
    check_declared declared values (add_declared name kind (get name values) errors)

-- `_work_item_errors`
unfoldable pub work_item_errors : Dict String ValueType → Dict String StepValue → Dict String String
unfolding undeclared check_declared add_undeclared add_declared
work_item_errors declared values = check_declared declared values (undeclared declared values)
