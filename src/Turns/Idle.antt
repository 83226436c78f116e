-- ===== src/Turns/Idle.antt =====
-- core/turns.py: what a free thread, and one that is live for nobody, does not have.
use kinby.Turns.Moves.{is_none, is_free}
use kinby.Turns.Thread.{
  Thread, parked_on, is_active, running_origin, live_origin, claimed_origin, RunningTurn, Origin,
  Claim, ClaimKind, waking, resuming, interrupting, reverting,
}
use kinby.Common.{Option, none, some, true, false, ◌≡◌, refl, inl, inr, Bool-cases, arith}

pub none_if {ℓ} : {A : Type ℓ} (a : Option A) → is_none a ≡ true → a ≡ none
none_if none h = refl
none_if (some a) h = absurd (ground (arith, h))

pub free_lem :
    (t : Thread)
    → is_free t ≡ true
    → (is_active t.running ≡ false) × (is_none (parked_on t.events) ≡ true)
free_lem t h = (ground (arith, h), ground (arith, h))

runs_nothing :
    (running : Option RunningTurn)
    → ((o : Origin) → running_origin running ≡ some o → ⊥)
    → is_active running ≡ false
runs_nothing none h = refl
runs_nothing (some turn) h = elim (Bool-cases turn.done) [
  | inl done ↦ rw done refl
  | inr active ↦ absurd (h turn.origin (rw active refl))
]

not_claimed :
    (kind : ClaimKind) (running : Option RunningTurn)
    → ((o : Origin) → claimed_origin kind (running_origin running) ≡ some o → ⊥)
    → is_active running ≡ false
not_claimed (waking turn o) running h = absurd (h o refl)
not_claimed (resuming turn o) running h = absurd (h o refl)
not_claimed interrupting running h = runs_nothing running h
not_claimed reverting running h = runs_nothing running h

not_live :
    (claim : Option Claim) (running : Option RunningTurn)
    → ((o : Origin) → live_origin claim running ≡ some o → ⊥)
    → is_active running ≡ false
not_live none running h = runs_nothing running h
not_live (some claim) running h = not_claimed claim.kind running h

-- A thread that is live for nobody runs no turn.
pub idle_unless :
    (t : Thread)
    → ((o : Origin) → live_origin t.claim t.running ≡ some o → ⊥)
    → is_active t.running ≡ false
idle_unless t nobody = not_live t.claim t.running nobody
