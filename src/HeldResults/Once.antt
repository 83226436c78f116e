-- ===== src/HeldResults/Once.antt =====
-- A step call that HeldResults of core/held_results.py started is not started again.
use kinby.Common.{
  ℕ, String, Bool, true, false, ◌≡◌, ◌≢◌, ◌⊎◌, refl, sym, ◌∙◌, Option, none, some, List, [], ◌∷◌,
  ◌==◌, ◌&&◌, not, string_eq, nat_eq, if◌then◌else◌, arith, inl, inr, eq_of_beq, beq_refl,
  Bool-cases, Option-cases,
}
use kinby.Common.Keyed.{get, remove, get-put, get-remove}
use kinby.HeldResults.{
  Called, Held, HeldResults, same_call, starts, is_latest, start_call, answer_held, answer_call,
  answer, Back, returned, raised, cancelled, held_after, finish, restart,
}

-- What happens at an instance: a send of a step call, a call that comes back, a restart.
pub data Event : Type 0 where
  sent : ℕ → String → Option ℕ → Event
  back : ℕ → Called → Back → Event
  restarted : Event

abbrev pub happens : Event → HeldResults → HeldResults
happens (sent run step attempt) s = (answer run step attempt s).1
happens (back run called how) s = finish run called how s
happens restarted s = restart s

abbrev pub all_happen : List Event → HeldResults → HeldResults
all_happen [] s = s
all_happen (event ∷ events) s = all_happen events (happens event s)

abbrev pub is_raised : Back → Bool
is_raised raised = true
is_raised _ = false

abbrev is_sent_call : Called → String → Option ℕ → Bool
is_sent_call called step none = false
is_sent_call called step (some attempt) =
    same_call (record { step = step; attempt = attempt }) called

-- Whether the event leaves the run's call alone: it sends no other call of the run, and is no error
-- of this one. A task of another call of the run, which it replaced, may come back in any way.
abbrev pub leaves : ℕ → Called → Event → Bool
leaves run called (sent other step attempt) =
    if other == run then is_sent_call called step attempt else true
leaves run called (back other c how) =
    if other == run then not (is_raised how && same_call c called) else true
leaves run called restarted = true

pub same_call_refl : (c : Called) → same_call c c ≡ true
unfolding same_call
same_call_refl c = rw (beq_refl c.step, beq_refl c.attempt) refl

pub eq_of_same_call : (a b : Called) → same_call a b ≡ true → a ≡ b
unfolding same_call
eq_of_same_call a b h =
    let steps : a.step ≡ b.step = eq_of_beq a.step b.step (ground (arith, h)) in
    let attempts : a.attempt ≡ b.attempt = eq_of_beq a.attempt b.attempt (ground (arith, h)) in
    λ i. record { step = steps i; attempt = attempts i }

-- The run holds this call, and runs no other.
pub record Knows (run : ℕ) (called : Called) (s : HeldResults) : Type 0 where
  pub kept : (h : Held) × (get run s.held ≡ some h) × (h.called ≡ called)
  pub lone : (get run s.running ≡ none) ⊎ (get run s.running ≡ some called)

pub is_latest-idle :
    (run : ℕ) (called : Called) (s : HeldResults)
    → get run s.running ≡ none
    → is_latest run called s ≡ false
unfolding is_latest
is_latest-idle run called s e = rw (e, is_latest) refl

is_latest-running :
    (run : ℕ) (called c : Called) (s : HeldResults)
    → get run s.running ≡ some c
    → is_latest run called s ≡ same_call c called
unfolding is_latest
is_latest-running run called c s e = rw (e, is_latest) refl

module _ (run : ℕ) (called : Called) (s : HeldResults) (k : Knows run called s) where
  answer_call-Knows : ((answer_call run called s).1 ≡ s) × ((answer_call run called s).0 ≢ starts)
  unfolding answer_call answer_held
  answer_call-Knows =
      let (h, found, same) = k.kept in
      let held_same : same_call h.called called ≡ true = rw same (same_call_refl called) in
      elim k.lone [
        | inl idle ↦ rw (is_latest-idle run called s idle, found, held_same) (refl, λ e. cc e)
        | inr busy ↦
            rw (is_latest-running run called called s busy, same_call_refl called) (refl, λ e. cc e)
      ]

  Knows-sent :
      (step : String) (attempt : ℕ)
      → same_call (record { step = step; attempt = attempt }) called ≡ true
      → ((answer run step (some attempt) s).1 ≡ s) × ((answer run step (some attempt) s).0 ≢ starts)
  unfolding answer
  Knows-sent step attempt same = rw (eq_of_same_call _ called same) answer_call-Knows

-- Nothing of the run changed.
Knows-same :
    (run : ℕ) (called : Called) (s t : HeldResults)
    → Knows run called s
    → get run t.held ≡ get run s.held
    → get run t.running ≡ get run s.running
    → Knows run called t
Knows-same run called s t k h r = record {
  kept = let (h', found, same) = k.kept in (h', h ∙ found, same);
  lone = elim k.lone [ inl e ↦ inl (r ∙ e) | inr e ↦ inr (r ∙ e) ];
}

module _ (run other : ℕ) (s : HeldResults) (ne : (other == run) ≡ false) where
  pub other-answer_call :
      (c : Called)
      → (get run (answer_call other c s).1.held ≡ get run s.held)
        × (get run (answer_call other c s).1.running ≡ get run s.running)
  unfolding answer_call answer_held start_call
  other-answer_call c = ground (
    arith,
    ne,
    get-put other run c s.running,
    get-put other run (record { called = c; result = none }) s.held,
  )

  other-held_after :
      (c : Called) (how : Back) → get run (held_after other c how s.held) ≡ get run s.held
  unfolding held_after
  other-held_after c (returned r) = get-put other run _ s.held ∙ ground (arith, ne)
  other-held_after c raised = get-remove other run s.held ∙ ground (arith, ne)
  other-held_after c cancelled = refl

  pub other-finish :
      (c : Called) (how : Back)
      → (get run (finish other c how s).held ≡ get run s.held)
        × (get run (finish other c how s).running ≡ get run s.running)
  unfolding finish
  other-finish c how = ground (arith, ne, get-remove other run s.running, other-held_after c how)

module _ (run : ℕ) (called : Called) (s : HeldResults) (k : Knows run called s) where
  -- The task of the call came back, and not with an error.
  Knows-back :
      (how : Back)
      → is_raised how ≡ false
      → is_latest run called s ≡ true
      → Knows run called
          (record { held = held_after run called how s.held; running = remove run s.running })
  unfolding held_after
  Knows-back (returned r) e h = record {
    kept = (
      record { called = called; result = some r },
      get-put run run _ s.held ∙ rw (beq_refl run) refl,
      refl,
    );
    lone = inl (get-remove run run s.running ∙ rw (beq_refl run) refl);
  }
  Knows-back raised e h = absurd (cc e)
  Knows-back cancelled e h = record {
    kept = k.kept;
    lone = inl (get-remove run run s.running ∙ rw (beq_refl run) refl);
  }

  -- Only the task that runs is heard, which is this call's if the run has one.
  Knows-finish :
      (c : Called) (how : Back)
      → (is_raised how && same_call c called) ≡ false
      → Knows run called (finish run c how s)
  unfolding finish
  Knows-finish c how e = elim (Bool-cases (is_latest run c s)) [
    | inr not_it ↦ rw not_it k
    | inl it_is ↦ elim k.lone [
      | inl idle ↦ absurd (cc (is_latest-idle run c s idle, it_is))
      | inr busy ↦
          let same =
            eq_of_same_call called c (sym (is_latest-running run c called s busy) ∙ it_is) in
          let itself : same_call c called ≡ true = rw (← same) (same_call_refl called) in
          rw (it_is, ← same) (Knows-back how (ground (arith, e, itself)) (rw same it_is))
    ]
  ]

  Knows-happens :
      (event : Event) → leaves run called event ≡ true → Knows run called (happens event s)
  unfolding answer get
  Knows-happens (sent other step none) l = elim (Bool-cases (other == run)) [
    | inl same ↦ absurd (ground (arith, l, same))
    | inr ne ↦ Knows-same run called s _ k (get-remove other run s.held ∙ rw ne refl) refl
  ]
  Knows-happens (sent other step (some attempt)) l = elim (Bool-cases (other == run)) [
    | inr ne ↦ let (h, r) = other-answer_call run other s ne _ in Knows-same run called s _ k h r
    | inl same ↦
        rw (eq_of_beq other run same)
          (rw (Knows-sent run called s k step attempt (ground (arith, l, same))).0 k)
  ]
  Knows-happens (back other c how) l = elim (Bool-cases (other == run)) [
    | inr ne ↦ let (h, r) = other-finish run other s ne c how in Knows-same run called s _ k h r
    | inl same ↦ rw (eq_of_beq other run same) (Knows-finish c how (ground (arith, l, same)))
  ]
  Knows-happens restarted l = record { kept = k.kept; lone = inl refl }

-- All the events leave the run's call alone.
abbrev pub AllLeave : ℕ → Called → List Event → Type 0
AllLeave run called [] = Unit
AllLeave run called (event ∷ events) = (leaves run called event ≡ true) × AllLeave run called events

pub Knows-all_happen :
    (run : ℕ) (called : Called) (events : List Event) (s : HeldResults)
    → Knows run called s
    → AllLeave run called events
    → Knows run called (all_happen events s)
Knows-all_happen run called [] s k l = k
Knows-all_happen run called (event ∷ events) s k l =
    Knows-all_happen run called events (happens event s) (Knows-happens run called s k event l.0)
      l.1

answer_call-starts :
    (run : ℕ) (called : Called) (s : HeldResults)
    → (answer_call run called s).0 ≡ starts
    → (answer_call run called s).1 ≡ (start_call run called s).1
unfolding answer_call answer_held start_call
answer_call-starts run called s e = ground (arith, e, Option-cases (get run s.held))

-- A call that was started is known.
Knows-started :
    (run : ℕ) (called : Called) (s : HeldResults)
    → (answer_call run called s).0 ≡ starts
    → Knows run called (answer_call run called s).1
unfolding start_call
Knows-started run called s e = rw (answer_call-starts run called s e) (record {
  kept = (
    record { called = called; result = none },
    get-put run run _ s.held ∙ rw (beq_refl run) refl,
    refl,
  );
  lone = inr (get-put run run called s.running ∙ rw (beq_refl run) refl);
})

-- Once a send of a step call starts it, no later send of that call starts it again, whatever
-- happens in between (other runs' calls, calls of the run that it replaced coming back or raising
-- errors, this call coming back or being cancelled, restarts of the instance), unless another call
-- of the run, or one without an attempt, is sent or this one raises an error.
pub starts_once :
    (run : ℕ) (step : String) (attempt : ℕ) (s : HeldResults) (events : List Event)
    → (answer run step (some attempt) s).0 ≡ starts
    → AllLeave run (record { step = step; attempt = attempt }) events
    → (answer run step (some attempt) (all_happen events (answer run step (some attempt) s).1)).0
      ≢ starts
unfolding answer
starts_once run step attempt s events e l =
    let called : Called = record { step = step; attempt = attempt } in
    (Knows-sent run called _ (Knows-all_happen run called events _ (Knows-started run called s e) l)
      step attempt (same_call_refl called)).1
