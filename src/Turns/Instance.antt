-- ===== src/Turns/Instance.antt =====
-- core/turns.py: what an instance takes on, by what holds it.
use kinby.Turns.Thread.{
  routine, Origin, Thread, Payload, holds, turn_origin, is_routine, parked_on, parked_origin,
  factory_run, is_active,
}
use kinby.Turns.Moves.{
  record_event, claim_turn, claim_revert, is_none, start_turn, claim_resume, drop_turn, end_task,
  is_free, forget_task, resume_turn, interrupt, abandon, close_turn, release, emit, claim_meets,
  is_revert,
}
use kinby.Common.{
  String, ℕ, Bool, true, false, not, ◌&&◌, ◌||◌, Option, none, some, List, [], ◌∷◌, ◌++◌, ◌==◌,
  nat_eq, if◌then◌else◌, any, keep,
}

-- `threads` are those of the store, and `steps` the claims of steps, under keys of their own.
pub record Instance : Type 0 where
  pub threads : List ℕ
  pub thread : ℕ → Thread
  pub steps : List ℕ
  pub admitting : Bool
  pub answering : Bool

abbrev pub update : (ℕ → Thread) → ℕ → (Thread → Thread) → ℕ → Thread
update threads id f k = if id == k then f (threads k) else threads k

abbrev pub change : ℕ → (Thread → Thread) → Instance → Instance
change id f instance_ = record instance_ { thread = update instance_.thread id f }

-- `any(... for origin in self.holding().values())`
abbrev pub holding : (Origin → Bool) → Instance → Bool
holding p instance_ = any (λ id. holds p (instance_.thread id)) instance_.threads

abbrev pub has_step : List ℕ → Bool
has_step [] = false
has_step (claim ∷ claims) = true

abbrev pub has_claims : Instance → Bool
has_claims instance_ =
    has_step instance_.steps
    || any (λ id. not (is_none (instance_.thread id).claim)) instance_.threads

pub data Refusal : Type 0 where
  draining reverting_now step_running routine_running waiting_for_turn : Refusal

abbrev pub anyone : Origin → Bool
anyone origin = true

-- `require_available`: none is available.
unfoldable pub require_available : Origin → Instance → Option Refusal
require_available origin instance_ =
    if not instance_.admitting
    then some draining
    else if any (λ id. claim_meets is_revert (instance_.thread id).claim) instance_.threads
    then some reverting_now
    else if has_step instance_.steps
    then some step_running
    else if holding is_routine instance_
    then some routine_running
    else if holding anyone instance_ && is_routine origin
    then some waiting_for_turn
    else none

abbrev pub is_available : Origin → Instance → Bool
is_available origin instance_ = is_none (require_available origin instance_)

-- A turn id of the caller's is fresh.
abbrev pub is_fresh : ℕ → Thread → Bool
is_fresh turn_id thread = is_none (turn_origin thread.events turn_id)

-- `wake`, up to its first wait: on a thread of the store that is free.
unfoldable pub wake : ℕ → ℕ → ℕ → Origin → Instance → Instance
unfolding require_available claim_turn parked_on
wake id claim_id turn_id origin instance_ =
    if any (λ known. known == id) instance_.threads
      && is_available origin instance_
      && is_free (instance_.thread id)
      && is_fresh turn_id (instance_.thread id)
    then change id (claim_turn claim_id turn_id origin) instance_
    else instance_

-- `wake_recorded`, up to its first wait: it does not ask whether the thread is free. A routine's turn
-- on the thread of a kept delivery is the delivery's own, so the thread is parked on none before it.
unfoldable pub wake_recorded : ℕ → ℕ → ℕ → String → Instance → Instance
unfolding require_available claim_turn parked_on
wake_recorded id claim_id turn_id name instance_ =
    if any (λ known. known == id) instance_.threads
      && is_available (routine name) instance_
      && is_none (parked_on (instance_.thread id).events)
      && is_fresh turn_id (instance_.thread id)
    then change id (claim_turn claim_id turn_id (routine name)) instance_
    else instance_

abbrev pub empty_thread : Thread
empty_thread = record { running = none; claim = none; starting = none; closing = []; events = [] }

abbrev pub create_thread : ℕ → Instance → Instance
create_thread id instance_ = record instance_ { threads = instance_.threads ++ id ∷ [] }

-- `wake_new_thread` and the turn of a step, which asks only whether the instance takes work.
unfoldable pub wake_new_thread : ℕ → ℕ → ℕ → Origin → Instance → Instance
unfolding require_available claim_turn parked_on
wake_new_thread id claim_id turn_id origin instance_ =
    if is_available origin instance_
      && is_free (instance_.thread id)
      && is_fresh turn_id (instance_.thread id)
    then change id (claim_turn claim_id turn_id origin) (create_thread id instance_)
    else instance_

unfoldable pub step_turn : ℕ → ℕ → ℕ → ℕ → Instance → Instance
unfolding claim_turn parked_on
step_turn id claim_id turn_id run_id instance_ =
    if instance_.admitting
      && has_step instance_.steps
      && is_free (instance_.thread id)
      && is_fresh turn_id (instance_.thread id)
    then change id (claim_turn claim_id turn_id (factory_run run_id)) (create_thread id instance_)
    else instance_

-- `respond` and `resume_takeover`, up to their wait, for the turn that the thread is parked on.
abbrev pub resume_from : ℕ → ℕ → Instance → Option ℕ → Option Origin → Instance
resume_from id claim_id instance_ (some turn_id) (some origin) =
    if not (is_routine origin) || is_available origin instance_
    then change id (claim_resume claim_id turn_id origin) instance_
    else instance_
resume_from id claim_id instance_ (some turn_id) none = instance_
resume_from id claim_id instance_ none origin = instance_

unfoldable pub respond : ℕ → ℕ → Instance → Instance
unfolding require_available claim_resume parked_on parked_origin
respond id claim_id instance_ =
    let thread = instance_.thread id in
    if any (λ known. known == id) instance_.threads
      && instance_.answering
      && is_none thread.claim
      && not (is_active thread.running)
    then resume_from id claim_id instance_ (parked_on thread.events) (parked_origin thread.events)
    else instance_

-- `step` once nothing holds the instance, and its end.
unfoldable pub begin_step : ℕ → Instance → Instance
begin_step claim_id instance_ =
    if instance_.admitting && not (holding anyone instance_) && not (has_claims instance_)
    then record instance_ { steps = claim_id ∷ instance_.steps }
    else instance_

unfoldable pub end_step : ℕ → Instance → Instance
end_step claim_id instance_ = record instance_ {
  steps = keep (λ other. not (other == claim_id)) instance_.steps;
}

unfoldable pub begin_revert : ℕ → ℕ → Instance → Instance
unfolding claim_revert
begin_revert id claim_id instance_ =
    if holding anyone instance_ || has_claims instance_
    then instance_
    else change id (claim_revert claim_id) instance_

-- What may happen next, of what a thread goes on with by itself.
pub data Move : Type 0 where
  starts drops ends forgets : Move
  resumes : ℕ → Bool → Move
  interrupts : ℕ → Move
  abandons : ℕ → ℕ → Move
  closes_turn reverts : ℕ → Move
  emits : Payload → Move
  records : ℕ → Payload → Move

unfoldable pub go_on : Move → Thread → Thread
unfolding start_turn drop_turn end_task forget_task resume_turn interrupt abandon close_turn release
    emit record_event
go_on starts thread = start_turn thread
go_on drops thread = drop_turn thread
go_on ends thread = end_task thread
go_on forgets thread = forget_task thread
go_on (resumes claim_id restored) thread = resume_turn claim_id restored thread
go_on (interrupts claim_id) thread = interrupt claim_id thread
go_on (abandons claim_id turn_id) thread = abandon claim_id turn_id thread
go_on (closes_turn claim_id) thread = close_turn claim_id thread
go_on (reverts claim_id) thread = release is_revert claim_id thread
go_on (emits payload) thread = emit payload thread
go_on (records turn_id payload) thread = record_event turn_id payload thread

pub data Action : Type 0 where
  wakes wakes_new : ℕ → ℕ → ℕ → Origin → Action
  wakes_recorded : ℕ → ℕ → ℕ → String → Action
  step_turns : ℕ → ℕ → ℕ → ℕ → Action
  responds begins_revert : ℕ → ℕ → Action
  begins_step ends_step : ℕ → Action
  goes_on : ℕ → Move → Action
  drains seals : Action

unfoldable pub act : Action → Instance → Instance
unfolding wake wake_new_thread wake_recorded step_turn respond begin_revert begin_step end_step
    go_on
act (wakes id claim_id turn_id origin) s = wake id claim_id turn_id origin s
act (wakes_new id claim_id turn_id origin) s = wake_new_thread id claim_id turn_id origin s
act (wakes_recorded id claim_id turn_id name) s = wake_recorded id claim_id turn_id name s
act (step_turns id claim_id turn_id run_id) s = step_turn id claim_id turn_id run_id s
act (responds id claim_id) s = respond id claim_id s
act (begins_revert id claim_id) s = begin_revert id claim_id s
act (begins_step claim_id) s = begin_step claim_id s
act (ends_step claim_id) s = end_step claim_id s
act (goes_on id move) s = change id (go_on move) s
act drains s = record s { admitting = false }
act seals s = record s { answering = false }

unfoldable pub act_all : List Action → Instance → Instance
unfolding act
act_all [] s = s
act_all (action ∷ actions) s = act_all actions (act action s)
