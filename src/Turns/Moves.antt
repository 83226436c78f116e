-- ===== src/Turns/Moves.antt =====
-- core/turns.py: what each operation does to its thread.
use kinby.Turns.Thread.{
  parks, RunningTurn, Origin, parked_on, Thread, Claim, Payload, Starting, Closing, reverting,
  is_active, resuming, interrupting, waking, closed, started, ClaimKind,
}
use kinby.Common.{
  ℕ, Bool, true, false, not, ◌&&◌, ◌||◌, Option, none, some, ◌∷◌, ◌==◌, nat_eq, if◌then◌else◌, find,
  keep,
}

abbrev pub is_none {ℓ} : {A : Type ℓ} → Option A → Bool
is_none none = true
is_none (some a) = false

-- The thread takes a new turn: no claim, no running turn and nothing parked.
abbrev pub is_free : Thread → Bool
is_free thread =
    is_none thread.claim && not (is_active thread.running) && is_none (parked_on thread.events)

-- `_wake` up to its first wait.
unfoldable pub claim_turn : ℕ → ℕ → Origin → Thread → Thread
claim_turn claim_id turn_id origin thread = record thread {
  claim = some (record { claim_id = claim_id; kind = waking turn_id origin });
  starting = some (record { claim_id = claim_id; turn_id = turn_id; origin = origin });
}

-- Which operation holds a claim.
abbrev pub is_waking : ClaimKind → Bool
is_waking (waking turn origin) = true
is_waking _ = false

abbrev pub is_resuming : ClaimKind → Bool
is_resuming (resuming turn origin) = true
is_resuming _ = false

abbrev pub is_closing : ClaimKind → Bool
is_closing interrupting = true
is_closing _ = false

abbrev pub is_revert : ClaimKind → Bool
is_revert reverting = true
is_revert _ = false

abbrev pub release_from : (ClaimKind → Bool) → ℕ → Option Claim → Option Claim
release_from own claim_id none = none
release_from own claim_id (some claim) =
    if own claim.kind && claim.claim_id == claim_id then none else some claim

-- `_release_claim`, by an operation that holds claims of a kind: of its own object only.
unfoldable pub release : (ClaimKind → Bool) → ℕ → Thread → Thread
release own claim_id thread = record thread { claim = release_from own claim_id thread.claim }

abbrev pub append : ℕ → Payload → Thread → Thread
append turn_id payload thread = record thread {
  events = record { turn_id = turn_id; payload = payload } ∷ thread.events;
}

-- `_spawn`
abbrev pub spawn : ℕ → Origin → Thread → Thread
spawn turn_id origin thread = record thread {
  running = some (record {
    turn_id = turn_id;
    origin = origin;
    interrupted = false;
    has_closed = false;
    done = false;
  });
}

-- The rest of `_wake`: the start is recorded, the claim released and the turn's task started.
abbrev pub start_from : Thread → Option Starting → Thread
start_from thread none = thread
start_from thread (some start) = spawn start.turn_id start.origin (
    release is_waking start.claim_id
      (append start.turn_id (started start.origin) (record thread { starting = none })))

unfoldable pub start_turn : Thread → Thread
unfolding release
start_turn thread = start_from thread thread.starting

-- The start is not recorded: `_wake` raises.
abbrev pub drop_from : Thread → Option Starting → Thread
drop_from thread none = thread
drop_from thread (some start) = release is_waking start.claim_id (record thread { starting = none })

unfoldable pub drop_turn : Thread → Thread
unfolding release
drop_turn thread = drop_from thread thread.starting

-- `_resume_parked` up to its wait.
unfoldable pub claim_resume : ℕ → ℕ → Origin → Thread → Thread
claim_resume claim_id turn_id origin thread = record thread {
  claim = some (record { claim_id = claim_id; kind = resuming turn_id origin });
}

abbrev pub spawn_if : Bool → ℕ → Origin → Thread → Thread
spawn_if true turn_id origin thread = spawn turn_id origin thread
spawn_if false turn_id origin thread = thread

abbrev pub resume_kind : Bool → Thread → ClaimKind → Thread
resume_kind restored thread (resuming turn_id origin) =
    spawn_if restored turn_id origin (record thread { claim = none })
resume_kind restored thread kind = thread

-- The rest of it: the claim must still be its own, and the runner may not restore the turn.
abbrev pub resume_by : ℕ → Bool → Thread → Option Claim → Thread
resume_by claim_id restored thread none = thread
resume_by claim_id restored thread (some claim) =
    if claim.claim_id == claim_id then resume_kind restored thread claim.kind else thread

unfoldable pub resume_turn : ℕ → Bool → Thread → Thread
resume_turn claim_id restored thread = resume_by claim_id restored thread thread.claim

abbrev pub claim_closing : ℕ → ℕ → Thread → Thread
claim_closing claim_id turn_id thread = record thread {
  claim = some (record { claim_id = claim_id; kind = interrupting });
  closing = record { claim_id = claim_id; turn_id = turn_id } ∷ thread.closing;
}

abbrev pub claim_meets : (ClaimKind → Bool) → Option Claim → Bool
claim_meets own none = false
claim_meets own (some claim) = own claim.kind

abbrev pub interrupt_parked : ℕ → Thread → Option ℕ → Thread
interrupt_parked claim_id thread none = thread
interrupt_parked claim_id thread (some turn_id) =
    if claim_meets is_closing thread.claim then thread else claim_closing claim_id turn_id thread

abbrev pub interrupt_running : ℕ → Thread → Option RunningTurn → Thread
interrupt_running claim_id thread none = interrupt_parked claim_id thread (parked_on thread.events)
interrupt_running claim_id thread (some turn) =
    if not turn.done && not turn.interrupted
    then record (claim_closing claim_id turn.turn_id thread) {
      running = some (record turn { interrupted = true });
    }
    else interrupt_parked claim_id thread (parked_on thread.events)

-- `interrupt` up to its first wait. One that raises changes nothing.
unfoldable pub interrupt : ℕ → Thread → Thread
unfolding parked_on
interrupt claim_id thread = interrupt_running claim_id thread thread.running

abbrev pub abandon_from : ℕ → ℕ → Thread → Option Claim → Option ℕ → Thread
abandon_from claim_id turn_id thread (some claim) parked = thread
abandon_from claim_id turn_id thread none none = thread
abandon_from claim_id turn_id thread none (some parked) =
    if parked == turn_id then claim_closing claim_id turn_id thread else thread

-- `_abandon` once the deadline passed, for the parked turn.
unfoldable pub abandon : ℕ → ℕ → Thread → Thread
unfolding parked_on
abandon claim_id turn_id thread =
    abandon_from claim_id turn_id thread thread.claim (parked_on thread.events)

abbrev pub forget_interrupted : ℕ → Option RunningTurn → Option RunningTurn
forget_interrupted turn_id none = none
forget_interrupted turn_id (some turn) =
    if turn.turn_id == turn_id && turn.interrupted then none else some turn

abbrev pub close_by : Thread → Option Closing → Thread
close_by thread none = thread
close_by thread (some end) = release is_closing end.claim_id (
    append end.turn_id closed (record thread {
      running = forget_interrupted end.turn_id thread.running;
      closing = keep (λ other. not (other.claim_id == end.claim_id)) thread.closing;
    }))

-- The rest of `interrupt` and of `_abandon`: the closing event is recorded.
unfoldable pub close_turn : ℕ → Thread → Thread
unfolding release
close_turn claim_id thread = close_by thread (find (λ end. end.claim_id == claim_id) thread.closing)

abbrev pub closes : Payload → Bool
closes closed = true
closes _ = false

-- The turn that a task owns: the one that runs, unless it was interrupted.
abbrev pub emit_by : Payload → Thread → Option RunningTurn → Thread
emit_by payload thread none = thread
emit_by payload thread (some turn) =
    if turn.done || turn.interrupted || turn.has_closed
    then thread
    else record (append turn.turn_id payload thread) {
      running = some (record turn { has_closed = closes payload });
    }

-- `emit`, by the task of the thread's turn: no TurnStarted.
abbrev pub may_emit : Payload → Bool
may_emit (started origin) = false
may_emit _ = true

unfoldable pub emit : Payload → Thread → Thread
emit payload thread = if may_emit payload then emit_by payload thread thread.running else thread

abbrev pub finish_task : Option RunningTurn → Option RunningTurn
finish_task none = none
finish_task (some turn) = some (record turn { done = true })

abbrev pub forget_done : Option RunningTurn → Option RunningTurn
forget_done none = none
forget_done (some turn) = if turn.done then none else some turn

-- The task ends, and then `_forget_task`.
unfoldable pub end_task : Thread → Thread
end_task thread = record thread { running = finish_task thread.running }

unfoldable pub forget_task : Thread → Thread
forget_task thread = record thread { running = forget_done thread.running }

-- `_claim_revert` on its thread.
unfoldable pub claim_revert : ℕ → Thread → Thread
claim_revert claim_id thread = record thread {
  claim = some (record { claim_id = claim_id; kind = reverting });
}

-- An event that is recorded beside the turn's task: a revert, a mode, the hub's answer to a
-- notification.
unfoldable pub record_event : ℕ → Payload → Thread → Thread
record_event turn_id payload thread =
    if may_emit payload && not (parks payload) then append turn_id payload thread else thread
