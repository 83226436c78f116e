-- ===== src/Runs/Commands/Laws.antt =====
-- What the user's commands on a run of hub/runs.py do to it.
use mathlib.Core.Path.{subst}
use kinby.Runs.Engine.Works.{status-move, step-move}
use mathlib.Core.Option.{some-injective}
use kinby.Common.{
  ◌⊎◌, String, true, ◌≡◌, refl, sym, ap, ◌∙◌, Option, none, some, List, [], ◌∷◌, ◌==◌, string_eq,
  any, arith, length, drop, Bool-cases, inl, inr,
}
use kinby.Contracts.Runs.{queued, needs_human, cancelled, StepResult, StepAttempt}
use kinby.Factory.File.{FactoryFile}
use kinby.Runs.Row.{Row, is_needs_human, end_attempt, restart_run, counted_attempts, end_open}
use kinby.Runs.Engine.{move, ends}
use kinby.Runs.Commands.{
  Answer, refused, moves, Command, retry, approve_run, cancel, send_back_to, restart, is_parked,
  awaits_approval, earlier, retry_run, send_back_run, approve_row, cancel_run, command,
}

-- The row that a command moved.
abbrev pub row_of : Answer → Option Row
row_of (refused _) = none
row_of (moves row _) = some row

length-end_open :
    (result : StepResult) (attempts : List StepAttempt)
    → length (end_open result attempts) ≡ length attempts
unfolding end_open
length-end_open result [] = refl
length-end_open result (a ∷ attempts) = rw (length-end_open result attempts) refl

drop-all {ℓ} : {A : Type ℓ} (xs : List A) → drop (length xs) xs ≡ []
drop-all [] = refl
drop-all (x ∷ xs) = drop-all xs

-- A run that is done or cancelled is refused each of the user's commands.
pub command-ended :
    (factory : Option FactoryFile) (c : Command) (row : Row)
    → ends row.status ≡ true
    → row_of (command factory c row) ≡ none
unfolding command retry_run send_back_run approve_row cancel_run awaits_approval
command-ended factory retry row e = ground (arith, e)
command-ended factory approve_run row e = ground (arith, e)
command-ended factory cancel row e = ground (arith, e)
command-ended factory (send_back_to to) row e = ground (arith, e)

-- Queued at the step, with no attempt that counts.
pub record StartsAt (id : Option String) (row : Row) : Type 0 where
  pub status : row.status ≡ queued
  pub step : row.step ≡ id
  pub none_counts : counted_attempts row ≡ []

StartsAt-restart : (id : Option String) (row : Row) → StartsAt id (restart_run id row)
unfolding restart_run counted_attempts
StartsAt-restart id row = record { status = refl; step = refl; none_counts = drop-all row.attempts }

starts_of :
    (id : Option String) (row row' : Row) → some (restart_run id row) ≡ some row' → StartsAt id row'
starts_of id row row' h = subst (StartsAt id) (some-injective _ _ h) (StartsAt-restart id row)

cancels_of :
    (factory : Option FactoryFile) (row row' : Row) (step : Option String)
    → some (move factory cancelled step row).0 ≡ some row'
    → (row'.status ≡ cancelled) × (row'.step ≡ step)
cancels_of factory row row' step h =
    let e = some-injective _ _ h in
    (
      ap (λ r. r.status) (sym e) ∙ status-move factory cancelled step row,
      ap (λ r. r.step) (sym e) ∙ step-move factory cancelled step row,
    )

-- The user can retry only a run that needs a human, and it is then queued at the step it stopped
-- at with no attempt that counts.
pub retry-StartsAt :
    (factory : Option FactoryFile) (row row' : Row)
    → row_of (command factory retry row) ≡ some row'
    → (row.status ≡ needs_human) × StartsAt row.step row'
unfolding command retry_run restart
retry-StartsAt factory row row' e = elim (Bool-cases (is_needs_human row.status)) [
  | inl stopped ↦ (ground (arith, stopped), starts_of _ row row' (rw stopped at e))
  | inr goes_on ↦ absurd (cc (rw goes_on at e))
]

-- The user can send a run back only to a step before its own, and only while it awaits an
-- approval or needs a human; it is then queued at that step with no attempt that counts.
pub send_back-StartsAt :
    (factory : Option FactoryFile) (to : String) (row row' : Row)
    → row_of (command factory (send_back_to to) row) ≡ some row'
    → (any (λ id. id == to) (earlier factory row.step) ≡ true)
      × ((awaits_approval factory row ≡ true) ⊎ (row.status ≡ needs_human))
      × StartsAt (some to) row'
unfolding command send_back_run restart
send_back-StartsAt factory to row row' e = elim (Bool-cases (awaits_approval factory row)) [
  | inl awaits ↦ elim (Bool-cases (any (λ id. id == to) (earlier factory row.step))) [
    | inl is_earlier ↦ (is_earlier, inl awaits, starts_of _ _ row' (rw (awaits, is_earlier) at e))
    | inr later ↦ absurd (cc (rw (awaits, later) at e))
  ]
  | inr unasked ↦ elim (Bool-cases (is_needs_human row.status)) [
    | inr goes_on ↦ absurd (cc (rw (unasked, goes_on) at e))
    | inl stopped ↦ elim (Bool-cases (any (λ id. id == to) (earlier factory row.step))) [
      | inl is_earlier ↦ (
        is_earlier,
        inr (ground (arith, stopped)),
        starts_of _ _ row' (rw (unasked, stopped, is_earlier) at e),
      )
      | inr later ↦ absurd (cc (rw (unasked, stopped, later) at e))
    ]
  ]
]

-- The user can cancel only a run that is parked or needs a human; it is then cancelled, at the
-- step it was at.
pub cancel-ends :
    (factory : Option FactoryFile) (row row' : Row)
    → row_of (command factory cancel row) ≡ some row'
    → (row'.status ≡ cancelled)
      × (row'.step ≡ row.step)
      × ((is_parked row.status ≡ true) ⊎ (row.status ≡ needs_human))
unfolding command cancel_run end_attempt
cancel-ends factory row row' e = elim (Bool-cases (is_parked row.status)) [
  | inl waits ↦
      let (is_cancelled, stays) = cancels_of factory _ row' row.step (rw waits at e) in
      (is_cancelled, stays, inl waits)
  | inr active ↦ elim (Bool-cases (is_needs_human row.status)) [
    | inr goes_on ↦ absurd (cc (rw (active, goes_on) at e))
    | inl stopped ↦
        let (is_cancelled, stays) =
          cancels_of factory row row' row.step (rw (active, stopped) at e) in
        (is_cancelled, stays, inr (ground (arith, stopped)))
  ]
]
