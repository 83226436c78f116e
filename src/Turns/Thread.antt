-- ===== src/Turns/Thread.antt =====
-- core/turns.py and core/threads.py: one thread's turn, claim and events, and what they hold.
use kinby.Common.{
  ℕ, Bool, true, false, not, ◌||◌, Option, none, some, List, [], ◌∷◌, String, ◌==◌, nat_eq,
  if◌then◌else◌, any,
}

-- Who started a turn.
pub data Origin : Type 0 where
  user home_instance : Origin
  routine : String → Origin
  factory_run : ℕ → Origin

abbrev pub is_routine : Origin → Bool
is_routine (routine name) = true
is_routine _ = false

abbrev pub is_factory_run : Origin → Bool
is_factory_run (factory_run id) = true
is_factory_run _ = false

-- The payloads that the claims and the parking of turns depend on. `asked` is an approval or a
-- takeover that is requested, `closed` one that closes the turn, `notified` one of _NOTIFYING.
pub data Payload : Type 0 where
  started : Origin → Payload
  asked closed notified worked : Payload

pub record Event : Type 0 where
  pub turn_id : ℕ
  pub payload : Payload

-- `has_closed` is the variable of its `emit`: the task recorded its closing event.
pub record RunningTurn : Type 0 where
  pub turn_id : ℕ
  pub origin : Origin
  pub interrupted : Bool
  pub has_closed : Bool
  pub done : Bool

-- The two TurnClaims are told apart by the operation that holds them.
pub data ClaimKind : Type 0 where
  waking resuming : ℕ → Origin → ClaimKind
  interrupting reverting : ClaimKind

-- `claim_id` stands for the object's identity.
pub record Claim : Type 0 where
  pub claim_id : ℕ
  pub kind : ClaimKind

-- A turn whose TurnStarted is not appended yet, and a turn whose closing event is not.
pub record Starting : Type 0 where
  pub claim_id : ℕ
  pub turn_id : ℕ
  pub origin : Origin

pub record Closing : Type 0 where
  pub claim_id : ℕ
  pub turn_id : ℕ

-- What `Turns` keeps of a thread, the operations that wait there, and its events, the latest first.
pub record Thread : Type 0 where
  pub running : Option RunningTurn
  pub claim : Option Claim
  pub starting : Option Starting
  pub closing : List Closing
  pub events : List Event

abbrev pub parks : Payload → Bool
parks asked = true
parks _ = false

abbrev pub notifies : Payload → Bool
notifies notified = true
notifies _ = false

abbrev pub is_in : ℕ → List ℕ → Bool
is_in turn_id turns = any (λ id. id == turn_id) turns

-- `parked_on`, over the events that `later` ones of those turns follow.
abbrev pub parked_before : List ℕ → List Event → Option ℕ
parked_before later [] = none
parked_before later (event ∷ events) =
    let earlier =
      parked_before (if notifies event.payload then later else event.turn_id ∷ later) events in
    if parks event.payload
    then (if is_in event.turn_id later then none else some event.turn_id)
    else earlier

unfoldable pub parked_on : List Event → Option ℕ
parked_on events = parked_before [] events

abbrev pub origin_in : ℕ → ℕ → Payload → Option Origin
origin_in turn_id id (started origin) = if id == turn_id then some origin else none
origin_in turn_id id _ = none

abbrev first_of : Option Origin → Option Origin → Option Origin
first_of (some origin) later = some origin
first_of none later = later

-- `_turn_origin`: of the turn's first TurnStarted.
unfoldable pub turn_origin : List Event → ℕ → Option Origin
turn_origin [] turn_id = none
turn_origin (event ∷ events) turn_id =
    first_of (turn_origin events turn_id) (origin_in turn_id event.turn_id event.payload)

abbrev pub is_active : Option RunningTurn → Bool
is_active none = false
is_active (some turn) = not turn.done

abbrev pub running_origin : Option RunningTurn → Option Origin
running_origin none = none
running_origin (some turn) = if turn.done then none else some turn.origin

abbrev pub claimed_origin : ClaimKind → Option Origin → Option Origin
claimed_origin (waking turn origin) running = some origin
claimed_origin (resuming turn origin) running = some origin
claimed_origin _ running = running

-- `_live`, on one thread: a claim of a turn stands before the turn that runs.
abbrev pub live_origin : Option Claim → Option RunningTurn → Option Origin
live_origin none running = running_origin running
live_origin (some claim) running = claimed_origin claim.kind (running_origin running)

abbrev pub origin_of : List Event → Option ℕ → Option Origin
origin_of events none = none
origin_of events (some turn_id) = turn_origin events turn_id

-- `_parked`, on one thread.
unfoldable pub parked_origin : List Event → Option Origin
unfolding parked_on
parked_origin events = origin_of events (parked_on events)

-- `_holds_only_its_thread`
abbrev pub not_routine : Option Origin → Option Origin
not_routine none = none
not_routine (some origin) = if is_routine origin then none else some origin

abbrev pub test : (Origin → Bool) → Option Origin → Bool
test p none = false
test p (some origin) = p origin

-- Whether the thread holds the instance for an origin that meets `p`: what `holding` has for it. A
-- thread that is live and parked is so by one turn.
abbrev pub holds : (Origin → Bool) → Thread → Bool
holds p thread =
    test p (live_origin thread.claim thread.running)
    || test p (not_routine (parked_origin thread.events))
