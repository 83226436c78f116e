-- ===== src/Routines/Counts.antt =====
-- The failures that the fold of core/routine_history.py leaves to handle, and their counts.
mod Dicts
use kinby.Common.{ap, ◌==◌, string_eq, nat_eq, pair_eq, if◌then◌else◌, eq_of_beq}
use kinby.Common.Keyed.{get-put}
use kinby.Routines.{Fold, or_none, named_other}
use kinby.Routines.Counts.Dicts.{AreCounted}
pub use kinby.Routines.Counts.Dicts.{failures_of}

abbrev IsCounted : Fold → Type 0
IsCounted s = AreCounted s.histories s.failures
