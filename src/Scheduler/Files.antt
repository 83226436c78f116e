-- ===== src/Scheduler/Files.antt =====
-- The routine files as the scheduler reads and disables them, of plugins/routines.py.
use kinby.Common.{String, Bool, false, Option, List, map, ◌==◌, string_eq, if◌then◌else◌}

-- What the scheduler reads of a `Routine`.
pub record Routine : Type 0 where
  pub name : String
  pub prompt : String
  pub schedule : Option String
  pub enabled : Bool
  pub catch_up : Bool
  pub is_dreaming_stage : Bool

abbrev pub switch_off : String → Routine → Routine
switch_off name routine =
    if routine.name == name then record routine { enabled = false } else routine

-- `disable_routine`, on the routines as they load
unfoldable pub disable_routine : String → List Routine → List Routine
disable_routine name routines = map (switch_off name) routines
