-- ===== src/Scheduler/Tick.antt =====
-- core/scheduler.py: arming the routines, and what a pass fires.
use kinby.Common.{
  ℕ, String, Bool, true, false, not, ◌&&◌, ◌||◌, Option, none, some, List, [], ◌∷◌, ◌++◌, keep, any,
  ◌==◌, string_eq, nat_eq, if◌then◌else◌, leb, ltb,
}
use kinby.Common.Keyed.{Dict, get, put}
use kinby.Routines.{History, Run, RunOutcome, interrupted, Pending}
use kinby.Scheduler.Files.{Routine}

pub record ArmedRoutine : Type 0 where
  pub schedule : String
  pub time : ℕ

pub data Trigger : Type 0 where
  catch_up scheduled : Trigger

-- `if not routine.enabled or not routine.schedule: continue`
abbrev pub schedule_of : Routine → Option String
schedule_of routine = elim routine.schedule [
  | none ↦ none
  | some schedule ↦ if routine.enabled && not (schedule == "") then some schedule else none
]

abbrev is_interrupted : RunOutcome → Bool
is_interrupted interrupted = true
is_interrupted _ = false

-- The time that a routine is newly armed from: its last run, if it may catch up.
abbrev arm_from : ℕ → Routine → Option Run → ℕ
arm_from now routine none = now
arm_from now routine (some last) =
    if not (is_interrupted last.outcome) && routine.catch_up then last.started_at else now

-- `next` is `_next`: the first time of the schedule after a time, in the routines' time zone.
module _ (next : String → ℕ → ℕ) where
  abbrev arm_new : ℕ → Routine → Option Run → String → ArmedRoutine
  arm_new now routine last schedule = record {
    schedule = schedule;
    time = next schedule (arm_from now routine last);
  }

  -- What a routine with a schedule is armed as: as before, unless its schedule is another one.
  abbrev pub arm_one : ℕ → Routine → Option Run → String → Option ArmedRoutine → ArmedRoutine
  arm_one now routine last schedule none = arm_new now routine last schedule
  arm_one now routine last schedule (some current) =
      if current.schedule == schedule then current else arm_new now routine last schedule

  abbrev arm_next :
      ℕ
      → Dict String ArmedRoutine
      → Dict String Run
      → Routine
      → Option String
      → Dict String ArmedRoutine
      → Dict String ArmedRoutine
  arm_next now before last_runs routine none armed = armed
  arm_next now before last_runs routine (some schedule) armed =
      put routine.name
        (arm_one now routine (get routine.name last_runs) schedule (get routine.name before)) armed

  -- The loop of `_arm`. `last_runs` has the last runs of `catch_up_from`.
  unfoldable pub arm :
      ℕ
      → Dict String ArmedRoutine
      → Dict String Run
      → List Routine
      → Dict String ArmedRoutine
      → Dict String ArmedRoutine
  arm now before last_runs [] armed = armed
  arm now before last_runs (routine ∷ routines) armed =
      arm now before last_runs routines
        (arm_next now before last_runs routine (schedule_of routine) armed)

-- `min(..., key=f) if xs else None`: the first of the least.
unfoldable pub least {ℓ} : {A : Type ℓ} → (A → ℕ) → List A → Option A
least f [] = none
least f (x ∷ xs) = elim (least f xs) [
  | none ↦ some x
  | some y ↦ if leb (f x) (f y) then some x else some y
]

abbrev pub is_off : String → List Routine → Bool
is_off name routines = any (λ r. not r.enabled && r.name == name) routines

abbrev may_start : List Routine → Pending → Bool
may_start routines item = not (is_off item.arrival.name routines) || item.arrival.manual

-- `pending` of `tick`
unfoldable pub waiting : List Routine → Dict String History → List Pending
waiting routines [] = []
waiting routines ((name, record_of) ∷ histories) =
    keep (may_start routines) record_of.pending ++ waiting routines histories

pub record Due : Type 0 where
  pub routine : Routine
  pub armed : ArmedRoutine

abbrev due_one : ℕ → Routine → Option ArmedRoutine → List Due
due_one now routine none = []
due_one now routine (some armed) =
    if leb armed.time now then record { routine = routine; armed = armed } ∷ [] else []

-- `due` of `tick`
unfoldable pub due : ℕ → Dict String ArmedRoutine → List Routine → List Due
due now armed [] = []
due now armed (routine ∷ routines) =
    due_one now routine (get routine.name armed) ++ due now armed routines

-- What a pass fires: nothing, a delivery, marked as a dreaming stage or not, or a routine.
pub data Firing : Type 0 where
  idle : Firing
  starts : Pending → Bool → Firing
  fires : Due → Trigger → Firing

abbrev is_stage : List Routine → Pending → Bool
is_stage routines item = any (λ r. r.name == item.arrival.name && r.is_dreaming_stage) routines

abbrev pub trigger_of : ℕ → Due → Trigger
trigger_of started_at item = if ltb item.armed.time started_at then catch_up else scheduled

abbrev pub pick : ℕ → List Routine → Option Pending → Option Due → Firing
pick started_at routines none none = idle
pick started_at routines (some item) none = starts item (is_stage routines item)
pick started_at routines none (some d) = fires d (trigger_of started_at d)
pick started_at routines (some item) (some d) =
    if leb item.arrival.received_at d.armed.time
    then starts item (is_stage routines item)
    else fires d (trigger_of started_at d)

-- The choice in the middle of `tick`, once the routines are armed.
unfoldable pub choose :
    Bool → ℕ → ℕ → List Routine → Dict String History → Dict String ArmedRoutine → Firing
unfolding least waiting due
choose holding started_at now routines histories armed =
    if holding
    then idle
    else pick started_at routines (least (λ item. item.receipt_order) (waiting routines histories))
        (least (λ d. d.armed.time) (due now armed routines))

-- How starting a turn ends: it is accepted; the turns are busy or draining; or the budget is
-- exceeded or the model unpriced.
pub data Ending : Type 0 where
  accepted busy unpaid : Ending

module _ (next : String → ℕ → ℕ) where
  abbrev pub rearm : ℕ → Routine → String → Dict String ArmedRoutine → Dict String ArmedRoutine
  rearm now routine schedule armed =
      put routine.name (record { schedule = schedule; time = next schedule now }) armed

  abbrev pub rearm_fired :
      ℕ → Routine → Option String → Dict String ArmedRoutine → Dict String ArmedRoutine
  rearm_fired now routine none armed = armed
  rearm_fired now routine (some schedule) armed = rearm now routine schedule armed

  -- What the pass leaves armed: `_fire` arms the routine that it started again, and so does the
  -- pass where the routine could not be paid for.
  unfoldable pub armed_after :
      ℕ → Firing → Ending → Dict String ArmedRoutine → Dict String ArmedRoutine
  armed_after now (fires d trigger) accepted armed =
      rearm_fired now d.routine (schedule_of d.routine) armed
  armed_after now (fires d trigger) unpaid armed = rearm now d.routine d.armed.schedule armed
  armed_after now firing ending armed = armed
