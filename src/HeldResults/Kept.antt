-- ===== src/HeldResults/Kept.antt =====
-- The result of a step call that came back to HeldResults of core/held_results.py is kept for it.
use kinby.Common.{
  ℕ, String, true, ◌≡◌, refl, ap, ◌∙◌, none, some, List, [], ◌∷◌, ◌==◌, string_eq, nat_eq, arith,
  inl, inr, eq_of_beq, beq_refl, Bool-cases,
}
use kinby.Common.Keyed.{get, get-put, get-remove}
use kinby.Contracts.Runs.{StepResult}
use kinby.HeldResults.{
  Called, HeldResults, same_call, holds, is_latest, answer_held, answer_call, answer, returned,
  held_after, finish,
}
use kinby.HeldResults.Once.{
  Event, sent, back, restarted, happens, all_happen, leaves, AllLeave, same_call_refl,
  eq_of_same_call, is_latest-idle, other-answer_call, other-finish,
}

-- The run holds this result of this call, and runs none.
pub record Keeps (run : ℕ) (called : Called) (result : StepResult) (s : HeldResults) : Type 0 where
  pub kept : get run s.held ≡ some (record { called = called; result = some result })
  pub idle : get run s.running ≡ none

module _ (run : ℕ) (called : Called) (result : StepResult) where
  Keeps-finish :
      (s : HeldResults)
      → is_latest run called s ≡ true
      → Keeps run called result (finish run called (returned result) s)
  unfolding finish held_after
  Keeps-finish s latest = rw latest (record {
    kept = get-put run run _ s.held ∙ rw (beq_refl run) refl;
    idle = get-remove run run s.running ∙ rw (beq_refl run) refl;
  })

  module _ (s : HeldResults) (k : Keeps run called result s) where
    Keeps-answer : answer_call run called s ≡ (holds result, s)
    unfolding answer_call answer_held
    Keeps-answer = rw (is_latest-idle run called s k.idle, k.kept, same_call_refl called) refl

    Keeps-same :
        (t : HeldResults)
        → get run t.held ≡ get run s.held
        → get run t.running ≡ get run s.running
        → Keeps run called result t
    Keeps-same t h r = record { kept = h ∙ k.kept; idle = r ∙ k.idle }

    Keeps-sent :
        (step : String) (attempt : ℕ)
        → same_call (record { step = step; attempt = attempt }) called ≡ true
        → (answer run step (some attempt) s).1 ≡ s
    unfolding answer
    Keeps-sent step attempt same = rw (eq_of_same_call _ called same) (ap (λ x. x.1) Keeps-answer)

    Keeps-happens :
        (event : Event) → leaves run called event ≡ true → Keeps run called result (happens event s)
    unfolding answer get finish
    Keeps-happens (sent other step none) l = elim (Bool-cases (other == run)) [
      | inl same ↦ absurd (ground (arith, l, same))
      | inr ne ↦ Keeps-same _ (get-remove other run s.held ∙ rw ne refl) refl
    ]
    Keeps-happens (sent other step (some attempt)) l = elim (Bool-cases (other == run)) [
      | inr ne ↦ let (h, r) = other-answer_call run other s ne _ in Keeps-same _ h r
      | inl same ↦
          rw (eq_of_beq other run same, Keeps-sent step attempt (ground (arith, l, same))) k
    ]
    Keeps-happens (back other c how) l = elim (Bool-cases (other == run)) [
      | inr ne ↦ let (h, r) = other-finish run other s ne c how in Keeps-same _ h r
      | inl same ↦ rw (eq_of_beq other run same, is_latest-idle run c s k.idle) k
    ]
    Keeps-happens restarted l = record { kept = k.kept; idle = refl }

  Keeps-all_happen :
      (events : List Event) (s : HeldResults)
      → Keeps run called result s
      → AllLeave run called events
      → Keeps run called result (all_happen events s)
  Keeps-all_happen [] s k l = k
  Keeps-all_happen (event ∷ events) s k l =
      Keeps-all_happen events (happens event s) (Keeps-happens s k event l.0) l.1

  -- Once the task of the call that a run runs comes back with a result, a send of that call is
  -- answered with this result and changes nothing, whatever happened in between (other runs'
  -- calls, calls of the run that it replaced coming back or raising errors, more sends of this one,
  -- restarts), unless another call of the run, or one without an attempt, was sent or the call
  -- raised an error.
  pub answer-kept :
      (s : HeldResults) (events : List Event)
      → is_latest run called s ≡ true
      → AllLeave run called events
      → let later = all_happen events (finish run called (returned result) s) in
        answer run called.step (some called.attempt) later ≡ (holds result, later)
  unfolding answer
  answer-kept s events latest l =
      Keeps-answer _ (Keeps-all_happen events _ (Keeps-finish s latest) l)
