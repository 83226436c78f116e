-- ===== src/Turns/Kept.antt =====
-- core/turns.py: each move of a thread keeps what holds of it and takes on no more.
use kinby.Turns.Starts.{start_turn-Keeps, drop_turn-Keeps, resume_turn-Keeps}
use kinby.Turns.Instance.{
  starts, drops, ends, forgets, resumes, interrupts, abandons, closes_turn, reverts, emits, records,
  go_on, Move,
}
use kinby.Turns.Moves.{
  record_event, forget_task, abandon, emit, interrupt, release, end_task, may_emit, forget_done,
  interrupt_parked, interrupt_running, close_by, append, emit_by, finish_task, claim_meets,
  is_closing, closes, claim_closing, forget_interrupted, is_revert, abandon_from, close_turn,
}
use kinby.Turns.Local.{IsSound, Keeps, claimed_still, same, after, waiting_claimed, is_turn_claim}
use kinby.Turns.Changes.{
  stop-Keeps, claim_closing-Keeps, ask-Keeps, turn-Keeps, append-Keeps, closing_too, release-Keeps,
}
use kinby.Turns.Thread.{
  parks, started, asked, closed, notified, worked, Thread, Payload, parked_on, RunningTurn, Closing,
  Starting, is_active, waking, resuming, interrupting, reverting, Claim, ClaimKind,
}
use kinby.Common.{
  ℕ, true, false, not, ◌&&◌, ◌||◌, Option, none, some, ◌==◌, nat_eq, ◌≡◌, refl, sym, inl, inr,
  arith, Bool-cases, keep,
}

module _ (t : Thread) (s : IsSound t) where
  emit_other :
      (payload : Payload) (turn : RunningTurn)
      → t.running ≡ some turn
      → turn.done ≡ false
      → may_emit payload ≡ true
      → Keeps t (append turn.turn_id payload t)
  emit_other (started origin) turn runs d may = absurd (ground (arith, may))
  emit_other asked turn runs d may = ask-Keeps t s turn runs d
  emit_other closed turn runs d may = append-Keeps t s turn.turn_id closed refl refl
  emit_other notified turn runs d may = append-Keeps t s turn.turn_id notified refl refl
  emit_other worked turn runs d may = append-Keeps t s turn.turn_id worked refl refl

  emit_by-Keeps :
      (payload : Payload) (running : Option RunningTurn)
      → may_emit payload ≡ true
      → t.running ≡ running
      → Keeps t (emit_by payload t running)
  emit_by-Keeps payload none may e = same s
  emit_by-Keeps payload (some turn) may e =
      elim (Bool-cases (turn.done || turn.interrupted || turn.has_closed)) [
        | inl gone ↦ rw gone (same s)
        | inr owned ↦ rw owned (
            let k = emit_other payload turn e (ground (arith, owned)) may in
            after k (
              turn-Keeps (append turn.turn_id payload t) k.sound turn
                (record turn { has_closed = closes payload }) e refl refl refl))
      ]

  emit-Keeps : (payload : Payload) → Keeps t (emit payload t)
  unfolding emit
  emit-Keeps payload = elim (Bool-cases (may_emit payload)) [
    | inl may ↦ rw may (emit_by-Keeps payload t.running may refl)
    | inr never ↦ rw never (same s)
  ]

  record_event-Keeps : (id : ℕ) (payload : Payload) → Keeps t (record_event id payload t)
  unfolding record_event
  record_event-Keeps id payload = elim (Bool-cases (may_emit payload && not (parks payload))) [
    | inl may ↦ rw may (append-Keeps t s id payload (ground (arith, may)) (ground (arith, may)))
    | inr never ↦ rw never (same s)
  ]

  -- While a turn is starting its thread has nothing parked and nothing running.
  parked_alone :
      (turn : ℕ) → parked_on t.events ≡ some turn → (start : Starting) → t.starting ≡ some start → ⊥
  parked_alone turn e start h = absurd (ground (arith, (s.waits start h).1, e))

  interrupt_parked-Keeps :
      (id : ℕ) (parked : Option ℕ)
      → parked_on t.events ≡ parked
      → Keeps t (interrupt_parked id t parked)
  interrupt_parked-Keeps id none e = same s
  interrupt_parked-Keeps id (some turn) e = elim (Bool-cases (claim_meets is_closing t.claim)) [
    | inl busy ↦ rw busy (same s)
    | inr free ↦ rw free (claim_closing-Keeps t s id turn (parked_alone turn e))
  ]

  running_alone :
      (turn : RunningTurn)
      → t.running ≡ some turn
      → turn.done ≡ false
      → (start : Starting) → t.starting ≡ some start
      → ⊥
  running_alone turn e d start h =
      absurd (ground (arith, claimed_still t s (waiting_claimed t start s h), e, d))

  interrupt_running-Keeps :
      (id : ℕ) (running : Option RunningTurn)
      → t.running ≡ running
      → Keeps t (interrupt_running id t running)
  interrupt_running-Keeps id none e = interrupt_parked-Keeps id _ refl
  interrupt_running-Keeps id (some turn) e =
      elim (Bool-cases (not turn.done && not turn.interrupted)) [
        | inl runs ↦ rw runs (
            let k =
              claim_closing-Keeps t s id turn.turn_id
                (running_alone turn e (ground (arith, runs))) in
            after k (
              turn-Keeps (claim_closing id turn.turn_id t) k.sound turn
                (record turn { interrupted = true }) e refl refl refl))
        | inr stopped ↦ rw stopped (interrupt_parked-Keeps id _ refl)
      ]

  interrupt-Keeps : (id : ℕ) → Keeps t (interrupt id t)
  unfolding interrupt
  interrupt-Keeps id = interrupt_running-Keeps id t.running refl

  abandon_from-Keeps :
      (id turn : ℕ) (claim : Option Claim) (parked : Option ℕ)
      → parked_on t.events ≡ parked
      → Keeps t (abandon_from id turn t claim parked)
  abandon_from-Keeps id turn (some claim) parked e = same s
  abandon_from-Keeps id turn none none e = same s
  abandon_from-Keeps id turn none (some parked) e = elim (Bool-cases (parked == turn)) [
    | inl own ↦ rw own (claim_closing-Keeps t s id turn (parked_alone parked e))
    | inr other ↦ rw other (same s)
  ]

  abandon-Keeps : (id turn : ℕ) → Keeps t (abandon id turn t)
  unfolding abandon
  abandon-Keeps id turn = abandon_from-Keeps id turn t.claim _ refl

  forget_interrupted-Keeps :
      (turn_id : ℕ) (running : Option RunningTurn)
      → t.running ≡ running
      → Keeps t (record t { running = forget_interrupted turn_id running })
  forget_interrupted-Keeps turn_id none e = stop-Keeps t s none refl
  forget_interrupted-Keeps turn_id (some turn) e =
      elim (Bool-cases (turn.turn_id == turn_id && turn.interrupted)) [
        | inl own ↦ rw own (stop-Keeps t s none refl)
        | inr other ↦ rw other (turn-Keeps t s turn turn e refl refl refl)
      ]

  closing_no_turn : (kind : ClaimKind) → is_closing kind ≡ true → is_turn_claim kind ≡ false
  closing_no_turn interrupting e = refl
  closing_no_turn (waking turn origin) e = absurd (ground (arith, e))
  closing_no_turn (resuming turn origin) e = absurd (ground (arith, e))
  closing_no_turn reverting e = refl

  revert_no_turn : (kind : ClaimKind) → is_revert kind ≡ true → is_turn_claim kind ≡ false
  revert_no_turn reverting e = refl
  revert_no_turn (waking turn origin) e = absurd (ground (arith, e))
  revert_no_turn (resuming turn origin) e = absurd (ground (arith, e))
  revert_no_turn interrupting e = refl

  close_by-Keeps : (end : Option Closing) → Keeps t (close_by t end)
  unfolding release
  close_by-Keeps none = same s
  close_by-Keeps (some end) =
      let forgot =
        closing_too t s (keep (λ other. not (other.claim_id == end.claim_id)) t.closing)
          (forget_interrupted-Keeps end.turn_id t.running refl) in
      let told = append-Keeps _ forgot.sound end.turn_id closed refl refl in
      after forgot (
        after told
          (release-Keeps _ told.sound is_closing end.claim_id t.claim closing_no_turn refl))

  release_revert-Keeps : (id : ℕ) → Keeps t (release is_revert id t)
  unfolding release
  release_revert-Keeps id = release-Keeps t s is_revert id t.claim revert_no_turn refl

  end_task-Keeps : Keeps t (end_task t)
  unfolding end_task
  end_task-Keeps = stop-Keeps t s (finish_task t.running) (finished t.running)
    where
      finished : (r : Option RunningTurn) → is_active (finish_task r) ≡ false
      finished none = refl
      finished (some turn) = refl

  forget_task-Keeps : Keeps t (forget_task t)
  unfolding forget_task
  forget_task-Keeps = forgotten t.running refl
    where
      forgotten :
          (r : Option RunningTurn) → t.running ≡ r → Keeps t (record t { running = forget_done r })
      forgotten none e = stop-Keeps t s none refl
      forgotten (some turn) e = elim (Bool-cases turn.done) [
        | inl over ↦ rw over (stop-Keeps t s none refl)
        | inr runs ↦
            rw runs (turn-Keeps t s turn (record turn { done = false }) e refl refl (sym runs))
      ]

  pub go_on-Keeps : (move : Move) → Keeps t (go_on move t)
  unfolding go_on close_turn
  go_on-Keeps starts = start_turn-Keeps t s
  go_on-Keeps drops = drop_turn-Keeps t s
  go_on-Keeps ends = end_task-Keeps
  go_on-Keeps forgets = forget_task-Keeps
  go_on-Keeps (resumes id restored) = resume_turn-Keeps t s id restored
  go_on-Keeps (interrupts id) = interrupt-Keeps id
  go_on-Keeps (abandons id turn) = abandon-Keeps id turn
  go_on-Keeps (closes_turn id) = close_by-Keeps _
  go_on-Keeps (reverts id) = release_revert-Keeps id
  go_on-Keeps (emits payload) = emit-Keeps payload
  go_on-Keeps (records id payload) = record_event-Keeps id payload
