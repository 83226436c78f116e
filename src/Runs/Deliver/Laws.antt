-- ===== src/Runs/Deliver/Laws.antt =====
-- hub/runs.py, `_deliver`: however often a call is sent, it is one attempt.
use mathlib.Core.Path.{subst}
use kinby.Common.{
  ℕ, ◌+◌, String, Bool, true, ◌≡◌, refl, ap, sym, ◌∙◌, ◌&&◌, Option, none, some, List, [], ◌∷◌,
  ◌++◌, ◌==◌, nat_eq, all, leb, arith, Bool-cases, inl, inr, ◌⊎◌,
}
use kinby.Contracts.Runs.{running, queued, StepResult, StepAttempt}
use kinby.Factory.File.{FactoryFile}
use kinby.Runs.Row.{Row, begin_attempt, drop_attempt, without_open, attempts_at, is_open}
use kinby.Runs.Row.Laws.{AllEnded, next_attempt}
use kinby.Runs.Engine.{advance}
use kinby.Runs.Deliver.{
  StepAnswer, answered, undelivered, lost, Round, Progress, sending, settled, requeued, Delivery,
  deliver, last_number, next_backoff, open_command, add_round, one_call,
}

last_number-append :
    (attempts : List StepAttempt) (a : StepAttempt) → last_number (attempts ++ a ∷ []) ≡ a.attempt
unfolding last_number
last_number-append [] a = refl
last_number-append (b ∷ []) a = refl
last_number-append (b ∷ c ∷ attempts) a = last_number-append (c ∷ attempts) a

without_open-ended :
    (attempts : List StepAttempt) (a : StepAttempt)
    → AllEnded attempts
    → is_open a ≡ true
    → without_open (attempts ++ a ∷ []) ≡ attempts
unfolding without_open
without_open-ended [] a h e = rw (e) refl
without_open-ended (b ∷ attempts) a h e =
    rw (h.0) (ap (λ rest. b ∷ rest) (without_open-ended attempts a h.1 e))

StepAnswer-cases :
    (answer : StepAnswer)
    → ((result : StepResult) × (answer ≡ answered result))
      ⊎ ((answer ≡ undelivered) ⊎ (answer ≡ lost))
StepAnswer-cases (answered result) = inl (result, refl)
StepAnswer-cases undelivered = inr (inl refl)
StepAnswer-cases lost = inr (inr refl)

module _ (factory : Option FactoryFile) (id : String) (row : Row)
    (ended : AllEnded row.attempts) where
  -- The run at the step, with no attempt more than it had.
  abbrev pub at_step : Row
  at_step = record row { status = queued; step = some id }

  abbrev pub number : ℕ
  number = attempts_at id row.attempts + 1

  -- Where the loop may be between two rounds: with no attempt open, or with one that began at
  -- some time, whose number its command carries.
  abbrev pub Between : Option ℕ → Row → Type 0
  Between none at = (now : ℕ) → begin_attempt id running now at ≡ begin_attempt id running now row
  Between (some call) at = (call ≡ number) × ((now : ℕ) × (at ≡ begin_attempt id running now row))

  drop-begin : (now : ℕ) → drop_attempt (begin_attempt id running now row) ≡ at_step
  unfolding drop_attempt begin_attempt
  drop-begin now =
      ap (λ attempts. record row { status = queued; step = some id; attempts = attempts })
        (without_open-ended row.attempts (next_attempt id now row) ended refl)

  -- What the loop returned with: a result settled on the run as one attempt at the step, or the
  -- run as it was, queued at the step.
  abbrev pub IsOneAttempt : Progress → Type 0
  IsOneAttempt (sending command at) = Between command at
  IsOneAttempt (settled moved) =
      (now : ℕ) × (result : StepResult) × (moved
        ≡ advance factory result (begin_attempt id running now row))
  IsOneAttempt (requeued at) = at ≡ at_step

  number-begin : (now : ℕ) → last_number (begin_attempt id running now row).attempts ≡ number
  unfolding begin_attempt
  number-begin now = last_number-append row.attempts (next_attempt id now row)

  opens :
      (now : ℕ) (command : Option ℕ) (at : Row)
      → Between command at
      → Between (some ((open_command id now command at).0)) ((open_command id now command at).1)
  opens now none at h = (ap (λ r. last_number r.attempts) (h now) ∙ number-begin now, (now, h now))
  opens now (some call) at h = h

  at_step-begins : Between none at_step
  unfolding begin_attempt
  at_step-begins now = refl

  dropped : (call : ℕ) (at : Row) → Between (some call) at → drop_attempt at ≡ at_step
  dropped call at (e, (now, begun)) = ap drop_attempt begun ∙ drop-begin now

  abbrev pub is_number : ℕ → Bool
  is_number call = call == number

  abbrev pub is_wait : ℕ → Bool
  is_wait seconds = leb 5 seconds && leb seconds 300

  abbrev pub IsDelivery : Delivery → Type 0
  IsDelivery d =
      (all is_number d.calls ≡ true) × (all is_wait d.waits ≡ true) × IsOneAttempt d.progress

  next_backoff-is_wait : (backoff : ℕ) → is_wait (next_backoff backoff) ≡ true
  next_backoff-is_wait backoff = ground arith

  is_number-call : (call : ℕ) → call ≡ number → is_number call ≡ true
  is_number-call call e = ground (arith, e)

  IsDelivery-round :
      (call backoff : ℕ) (later : Delivery)
      → call ≡ number
      → IsDelivery later
      → IsDelivery (add_round call (next_backoff backoff) later)
  IsDelivery-round call backoff later e (calls, waits, one) = (
    ground (arith, is_number-call call e, calls),
    ground (arith, next_backoff-is_wait backoff, waits),
    one,
  )

  IsDelivery-requeued :
      (call backoff : ℕ) (at : Row)
      → call ≡ number
      → at ≡ at_step
      → IsDelivery (one_call call (next_backoff backoff ∷ []) (requeued at))
  IsDelivery-requeued call backoff at e left =
      (ground (arith, is_number-call call e), ground (arith, next_backoff-is_wait backoff), left)

  settled_once :
      (result : StepResult) (at : Row)
      → ((now : ℕ) × (at ≡ begin_attempt id running now row))
      → IsOneAttempt (settled (advance factory result at))
  settled_once result at (now, begun) = (now, result, ap (advance factory result) begun)

  IsDelivery-deliver :
      (rounds : List Round) (backoff : ℕ) (command : Option ℕ) (at : Row)
      → Between command at
      → IsDelivery (deliver factory id rounds backoff command at)
  unfolding deliver
  IsDelivery-deliver [] backoff command at h = (refl, refl, h)
  IsDelivery-deliver (round ∷ rounds) backoff command at h =
      let opened = open_command id round.now command at in
      let between = opens round.now command at h in
      let gone = dropped (opened.0) (opened.1) between in
      elim (StepAnswer-cases round.answer) [
        | inl (result, e) ↦
            rw (e, deliver)
              (
                ground (arith, is_number-call (opened.0) (between.0)),
                refl,
                settled_once result (opened.1) (between.1),
              )
        | inr (inl e) ↦ elim (Bool-cases round.is_active) [
          | inl on ↦
              rw (e, on, deliver)
                (IsDelivery-round (opened.0) backoff
                  (deliver factory id rounds (next_backoff backoff) none (drop_attempt (opened.1)))
                  (between.0)
                  (IsDelivery-deliver rounds (next_backoff backoff) none (drop_attempt (opened.1))
                    (subst (Between none) (sym gone) at_step-begins)))
          | inr off ↦
              rw (e, off, deliver)
                (IsDelivery-requeued (opened.0) backoff (drop_attempt (opened.1)) (between.0) gone)
        ]
        | inr (inr e) ↦ elim (Bool-cases round.is_active) [
          | inl on ↦
              rw (e, on, deliver)
                (IsDelivery-round (opened.0) backoff
                  (deliver factory id rounds (next_backoff backoff) (some (opened.0)) (opened.1))
                  (between.0)
                  (IsDelivery-deliver rounds (next_backoff backoff) (some (opened.0)) (opened.1)
                    between))
          | inr off ↦
              rw (e, off, deliver)
                (IsDelivery-requeued (opened.0) backoff (drop_attempt (opened.1)) (between.0) gone)
        ]
      ]

  -- The delivery of a step, from a run with no open attempt, makes one attempt of it however often
  -- the call was lost or not delivered: every call carries the same attempt's number, every sleep
  -- is between five seconds and five minutes, a result is settled on the run as it is with one
  -- attempt begun at the step, and a run whose instance is gone is queued at the step with the
  -- attempts that it had.
  pub deliver-IsDelivery : (rounds : List Round) → IsDelivery (deliver factory id rounds 0 none row)
  deliver-IsDelivery rounds = IsDelivery-deliver rounds 0 none row (λ now. refl)
