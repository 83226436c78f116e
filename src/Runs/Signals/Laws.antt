-- ===== src/Runs/Signals/Laws.antt =====
-- What a signal does to a run that it finds parked, and to one that needs a human.
use kinby.Common.{Option, none, some}
use kinby.Common.{string_eq}
use kinby.Common.Keyed.{Dict}
use kinby.Runs.Row.{Row}
use kinby.Runs.Signals.{Answered, moves, Dict}

-- The row that the signal moved.
abbrev pub moved_to : Answered → Option Row
moved_to (moves (some (row, _))) = some row
moved_to _ = none
