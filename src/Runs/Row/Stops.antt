-- ===== src/Runs/Row/Stops.antt =====
-- The stops of a run in hub/registry.py: one row for each time it stopped, numbered from 1.
use native.Mathlib.Numerals.{unary_clauses}
use kinby.Common.{
  ℕ, zero, suc, String, Bool, ◌≡◌, refl, ◌∙◌, Option, List, [], ◌∷◌, ◌++◌, ◌==◌, nat_eq, arith,
  Bool-cases, inl, inr,
}
use kinby.Contracts.Runs.{FactoryRunStatus, StepResult}
use kinby.Runs.Row.{
  Stop, Row, begin_attempt, drop_attempt, end_attempt, is_stop, move_run, restart_run,
  mark_reported, mark_ended_called, mark_stop, mark_told,
}

-- The statements that change a run's row.
pub data Change : Type 0 where
  begins : String → FactoryRunStatus → ℕ → Change
  drops : Change
  ends_with : StepResult → Change
  moves : FactoryRunStatus → Option String → Option ℕ → Bool → Change
  restarts : Option String → Change
  reports : ℕ → Change
  calls_ended : Change
  tells : ℕ → Change

abbrev pub apply_change : Change → Row → Row
apply_change (begins id status now) row = begin_attempt id status now row
apply_change drops row = drop_attempt row
apply_change (ends_with result) row = end_attempt result row
apply_change (moves status step wakes_at ended_call) row =
    move_run status step wakes_at ended_call row
apply_change (restarts step) row = restart_run step row
apply_change (reports generation) row = mark_reported generation row
apply_change calls_ended row = mark_ended_called row
apply_change (tells generation) row = mark_told generation row

abbrev pub apply_changes : List Change → Row → Row
apply_changes [] row = row
apply_changes (change ∷ changes) row = apply_changes changes (apply_change change row)

-- The stops, each by the number it was given, are 1 and on up to the run's generation.
abbrev pub generations : List Stop → List ℕ
generations [] = []
generations (stop ∷ stops) = stop.generation ∷ generations stops

abbrev pub numbered : ℕ → List ℕ
numbered zero = []
numbered (suc n) = numbered n ++ suc n ∷ []

abbrev pub IsNumbered : Row → Type 0
IsNumbered row = generations row.stops ≡ numbered row.stop_generation

generations-append : (xs ys : List Stop) → generations (xs ++ ys) ≡ generations xs ++ generations ys
generations-append [] ys = refl
generations-append (x ∷ xs) ys = rw (generations-append xs ys) refl

generations-mark_stop :
    (generation : ℕ) (stops : List Stop)
    → generations (mark_stop generation stops) ≡ generations stops
unfolding mark_stop
generations-mark_stop generation [] = refl
generations-mark_stop generation (stop ∷ stops) =
    ground (arith, generations-mark_stop generation stops)

IsNumbered-change :
    (change : Change) (row : Row) → IsNumbered row → IsNumbered (apply_change change row)
unfolding begin_attempt drop_attempt end_attempt move_run restart_run mark_reported
    mark_ended_called mark_told
IsNumbered-change (begins id status now) row h = h
IsNumbered-change drops row h = h
IsNumbered-change (ends_with result) row h = h
IsNumbered-change (moves status step wakes_at ended_call) row h =
    elim (Bool-cases (is_stop status)) [
      | inl stops ↦ rw (stops, generations-append row.stops) (simp unary_clauses (rw h refl))
      | inr goes_on ↦ rw goes_on h
    ]
IsNumbered-change (restarts step) row h = h
IsNumbered-change (reports generation) row h =
    elim (Bool-cases (row.stop_generation == generation)) [
      | inl now ↦ rw now h
      | inr stale ↦ rw stale h
    ]
IsNumbered-change calls_ended row h = h
IsNumbered-change (tells generation) row h = generations-mark_stop generation row.stops ∙ h

-- If a run's stops are numbered 1, 2 and on up to its stop generation, they are so after any
-- sequence of the registry's changes to the run.
pub apply_changes-IsNumbered :
    (changes : List Change) (row : Row) → IsNumbered row → IsNumbered (apply_changes changes row)
apply_changes-IsNumbered [] row h = h
apply_changes-IsNumbered (change ∷ changes) row h =
    apply_changes-IsNumbered changes (apply_change change row) (IsNumbered-change change row h)
