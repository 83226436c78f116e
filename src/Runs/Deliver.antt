-- ===== src/Runs/Deliver.antt =====
-- hub/runs.py, `_deliver`: a step is sent until its instance answers it.
pub mod Laws
use kinby.Common.{
  ℕ, suc, ◌+◌, ◌*◌, min, max, String, Bool, true, false, Option, none, some, List, [], ◌∷◌,
  if◌then◌else◌,
}
use kinby.Contracts.Runs.{FactoryRunStatus, running, StepResult, StepAttempt}
use kinby.Factory.File.{FactoryFile}
use kinby.Runs.Row.{Row, begin_attempt, drop_attempt}
use kinby.Runs.Engine.{Effect, advance}

-- `_next_backoff`, in seconds
abbrev pub next_backoff : ℕ → ℕ
next_backoff waited = min (max (waited * 2) 5) 300

-- What a call gives: a result, `UndeliveredCall`, or `LostAnswer`.
pub data StepAnswer : Type 0 where
  answered : StepResult → StepAnswer
  undelivered lost : StepAnswer

-- One round: when it starts, what the call gives, and whether the registry has the instance as an
-- active one after the sleep.
pub record Round : Type 0 where
  pub now : ℕ
  pub answer : StepAnswer
  pub is_active : Bool

-- The number of the last attempt.
unfoldable pub last_number : List StepAttempt → ℕ
last_number [] = 0
last_number (a ∷ []) = a.attempt
last_number (a ∷ b ∷ attempts) = last_number (b ∷ attempts)

-- Where the loop is, or how it returned: still sending, with the attempt of its command, if it
-- holds one; with a result that was settled; or with the run queued again.
pub data Progress : Type 0 where
  sending : Option ℕ → Row → Progress
  settled : Option (Row × List Effect) → Progress
  requeued : Row → Progress

-- What the loop did: the attempts that its calls carried, the seconds of its sleeps, and where it
-- got.
pub record Delivery : Type 0 where
  pub calls : List ℕ
  pub waits : List ℕ
  pub progress : Progress

-- `if command is None`: the attempt that the call carries, and the run.
abbrev pub open_command : String → ℕ → Option ℕ → Row → ℕ × Row
open_command id now (some attempt) row = (attempt, row)
open_command id now none row =
    let begun = begin_attempt id running now row in (last_number begun.attempts, begun)

-- The run of an instance that is gone: an attempt still open is dropped.
abbrev pub left_open : Option ℕ → Row → Row
left_open none row = row
left_open (some _) row = drop_attempt row

-- What a round did, before what the later ones do.
abbrev pub add_round : ℕ → ℕ → Delivery → Delivery
add_round call wait later = record later { calls = call ∷ later.calls; waits = wait ∷ later.waits }

abbrev pub one_call : ℕ → List ℕ → Progress → Delivery
one_call call waits progress = record { calls = call ∷ []; waits = waits; progress = progress }

-- The loop, over its rounds so far.
unfoldable pub deliver : Option FactoryFile → String → List Round → ℕ → Option ℕ → Row → Delivery
unfolding begin_attempt drop_attempt advance last_number
deliver factory id [] backoff command row = record {
  calls = [];
  waits = [];
  progress = sending command row;
}
deliver factory id (round ∷ rounds) backoff command row =
    let (call, begun) = open_command id round.now command row in
    let wait = next_backoff backoff in
    elim round.answer [
      | answered result ↦ one_call call [] (settled (advance factory result begun))
      | undelivered ↦
          if round.is_active
          then add_round call wait (deliver factory id rounds wait none (drop_attempt begun))
          else one_call call (wait ∷ []) (requeued (drop_attempt begun))
      | lost ↦
          if round.is_active
          then add_round call wait (deliver factory id rounds wait (some call) begun)
          else one_call call (wait ∷ []) (requeued (left_open (some call) begun))
    ]
