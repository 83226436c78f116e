-- ===== src/Examples/Turning.antt =====
-- A routine that parks, a user's turn beside it, a step, and a revert.
use kinby.Turns.Exclusive.{act_all-alone, first_start, act_all-in_step}
use kinby.Turns.Instance.{
  goes_on, wakes_new, wakes_recorded, starts, ends, emits, forgets, responds, begins_step,
  step_turns, begins_revert, interrupts, closes_turn, act_all, Action,
}
use kinby.Turns.Thread.{
  routine, asked, closed, user, waking, factory_run, turn_origin, parked_on, is_factory_run,
}
use kinby.Common.{ℕ, ◌≤◌, true, none, some, List, [], ◌∷◌, ◌≡◌, refl, inl, length}

-- A routine's turn starts, asks for an approval and parks; it then holds only its own thread.
abbrev parks_nightly : List Action
parks_nightly =
    wakes_new 1 10 20 (routine "nightly")
    ∷ goes_on 1 starts
    ∷ goes_on 1 (emits asked)
    ∷ goes_on 1 ends
    ∷ goes_on 1 forgets
    ∷ []

nightly_parked : parked_on ((act_all parks_nightly first_start).thread 1).events ≡ some 20
unfolding act_all parked_on turn_origin
nightly_parked = refl

-- The user's turn starts beside it, and the approval has to wait.
abbrev user_beside : List Action
user_beside =
    wakes_new 1 10 20 (routine "nightly")
    ∷ goes_on 1 starts
    ∷ goes_on 1 (emits asked)
    ∷ goes_on 1 ends
    ∷ goes_on 1 forgets
    ∷ wakes_new 2 11 21 user
    ∷ responds 1 12
    ∷ []

approval_waits : ((act_all user_beside first_start).thread 1).claim ≡ none
unfolding act_all turn_origin
approval_waits = refl

-- A routine that runs, and a user's turn that is refused.
abbrev nightly_runs : List Action
nightly_runs =
    wakes_new 1 10 20 (routine "nightly") ∷ goes_on 1 starts ∷ wakes_new 2 11 21 user ∷ []

user_refused : ((act_all nightly_runs first_start).thread 2).claim ≡ none
unfolding act_all turn_origin
user_refused = refl

act_all-alone_example : ◌≡◌ {A = ℕ} 1 1
unfolding act_all turn_origin
act_all-alone_example =
    act_all-alone nightly_runs 1 1 "nightly" (routine "nightly") (inl refl) (inl refl)

-- A step holds the instance and starts its turn.
abbrev step_runs : List Action
step_runs =
    begins_step 30
    ∷ step_turns 3 31 40 7
    ∷ goes_on 3 starts
    ∷ begins_step 32
    ∷ wakes_new 4 33 41 user
    ∷ []

act_all-in_step_example :
    (length (act_all step_runs first_start).steps ≤ 1) × (is_factory_run (factory_run 7) ≡ true)
unfolding act_all turn_origin
act_all-in_step_example = act_all-in_step step_runs refl 3 (factory_run 7) (inl refl)

-- The user spoke on the thread of a delivery before its routine ran there and parked. A revert on
-- the thread then loses its claim to an interrupt of the parked turn, and a turn starts while the
-- revert goes on.
abbrev revert_overtaken : List Action
revert_overtaken =
    wakes_new 1 10 20 user
    ∷ goes_on 1 starts
    ∷ goes_on 1 (emits closed)
    ∷ goes_on 1 ends
    ∷ goes_on 1 forgets
    ∷ wakes_recorded 1 11 21 "inbox"
    ∷ goes_on 1 starts
    ∷ goes_on 1 (emits asked)
    ∷ goes_on 1 ends
    ∷ goes_on 1 forgets
    ∷ begins_revert 1 50
    ∷ goes_on 1 (interrupts 51)
    ∷ goes_on 1 (closes_turn 51)
    ∷ wakes_new 2 52 22 user
    ∷ []

turn_during_revert :
    ((act_all revert_overtaken first_start).thread 2).claim
    ≡ some (record { claim_id = 52; kind = waking 22 user })
unfolding act_all turn_origin parked_on
turn_during_revert = refl
