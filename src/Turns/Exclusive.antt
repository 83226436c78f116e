-- ===== src/Turns/Exclusive.antt =====
-- core/turns.py: through every action, a routine holds the instance alone, and during a step only its own
-- turn does.
use kinby.Turns.Idle.{none_if}
use kinby.Turns.Kept.{go_on-Keeps}
use kinby.Turns.Taken.{
  available_lem, nobody, guarded, wake-IsExclusive, wake_recorded-IsExclusive, all_four,
  wake_new-IsExclusive, step_turn-IsExclusive, begin_step-IsExclusive, end_step-IsExclusive,
}
use kinby.Turns.Local.{Works, IsSound}
use kinby.Turns.Changes.{unclaim-Keeps}
use kinby.Turns.Moves.{claim_resume, claim_revert, is_none}
use kinby.Turns.Thread.{
  Origin, is_active, parked_on, parked_origin, is_routine, routine, reverting, turn_origin,
  origin_of, Starting, is_factory_run,
}
use kinby.Turns.Alone.{IsExclusive, has_thread, move-IsExclusive, gain-IsExclusive, not_held}
use kinby.Turns.Instance.{
  Instance, is_available, change, wakes, wakes_new, wakes_recorded, step_turns, responds,
  begins_revert, begins_step, ends_step, goes_on, drains, seals, act_all, respond, empty_thread,
  holding, begin_revert, Action, resume_from, act, has_step, anyone, has_claims, go_on,
}
use mathlib.Core.Path.{subst}
use kinby.Common.{
  ℕ, ◌≤◌, true, false, not, ◌||◌, Option, none, some, List, [], ◌∷◌, nat_eq, ◌≡◌, refl, sym, ◌⊎◌,
  inl, inr, arith, Bool-cases, length, String,
}

module _ (s : Instance) (x : IsExclusive s) where
  -- The turn that a thread is parked on goes on.
  module _ (id c turn : ℕ) (origin : Origin) (unclaimed : (s.thread id).claim ≡ none)
      (idle : is_active (s.thread id).running ≡ false)
      (parked : parked_on (s.thread id).events ≡ some turn)
      (by : parked_origin (s.thread id).events ≡ some origin) where
    parked_turn : turn_origin (s.thread id).events turn ≡ some origin
    unfolding parked_origin
    parked_turn = subst (λ p. origin_of (s.thread id).events p ≡ some origin) parked by

    claim_resume-IsSound : IsSound (claim_resume c turn origin (s.thread id))
    unfolding claim_resume parked_origin
    claim_resume-IsSound = record {
      waits = λ start h. absurd (ground (arith, ((x.sound id).waits start h).0, unclaimed));
      still = λ h. idle;
      known = (x.sound id).known;
      resumed = λ c' turn' origin' h. ground (arith, h, parked_turn);
    }

    claim_resume-gains :
        (o : Origin)
        → Works o (claim_resume c turn origin (s.thread id))
        → (o ≡ origin) ⊎ Works o (s.thread id)
    unfolding claim_resume
    claim_resume-gains o (inl live) = inl (ground (arith, live))
    claim_resume-gains o (inr rest) = inr (inr rest)

    parked-Works : is_routine origin ≡ false → Works origin (s.thread id)
    parked-Works other = inr (rw by (ground (arith, other)))

    resume_other :
        is_routine origin ≡ false → IsExclusive (change id (claim_resume c turn origin) s)
    resume_other other = move-IsExclusive s x id (claim_resume c turn origin) (record {
      sound = claim_resume-IsSound;
      fewer = λ o w. elim (claim_resume-gains o w) [
        | inl e ↦ subst (λ a. Works a (s.thread id)) (sym e) (parked-Works other)
        | inr old ↦ old
      ];
    })

    resume_routine :
        has_thread id s.threads ≡ true
        → is_available origin s ≡ true
        → IsExclusive (change id (claim_resume c turn origin) s)
    resume_routine there open_ =
        let (no_step, no_routine, no_other) = available_lem origin s open_ in
        gain-IsExclusive s x id (claim_resume c turn origin) origin claim_resume-IsSound
          claim_resume-gains there (λ k o w. not_held s x is_routine no_routine k o w)
          (λ r. nobody s x (no_other r)) (λ h. absurd (ground (arith, h, no_step)))

  resume_from-IsExclusive :
      (id c : ℕ) (parked : Option ℕ) (by : Option Origin)
      → has_thread id s.threads ≡ true
      → (s.thread id).claim ≡ none
      → is_active (s.thread id).running ≡ false
      → parked_on (s.thread id).events ≡ parked
      → parked_origin (s.thread id).events ≡ by
      → IsExclusive (resume_from id c s parked by)
  resume_from-IsExclusive id c none by there unclaimed idle p b = x
  resume_from-IsExclusive id c (some turn) none there unclaimed idle p b = x
  resume_from-IsExclusive id c (some turn) (some origin) there unclaimed idle p b =
      elim (Bool-cases (is_routine origin)) [
        | inr other ↦ rw other (resume_other id c turn origin unclaimed idle p b other)
        | inl own ↦ rw own (
            guarded _ s (change id (claim_resume c turn origin) s)
              (λ open_. resume_routine id c turn origin unclaimed idle p b there open_) x)
      ]

  respond-IsExclusive : (id c : ℕ) → IsExclusive (respond id c s)
  unfolding respond
  respond-IsExclusive id c =
      guarded _ s
        (resume_from id c s (parked_on (s.thread id).events) (parked_origin (s.thread id).events))
        (λ h.
          let (there, answers, unclaimed, idle) =
            all_four (has_thread id s.threads) s.answering (is_none (s.thread id).claim)
              (not (is_active (s.thread id).running)) h in
          resume_from-IsExclusive id c _ _ there (none_if _ unclaimed) (ground (arith, idle)) refl
            refl)
        x

  unstarted :
      (id : ℕ)
      → holding anyone s ≡ false
      → (start : Starting) → (s.thread id).starting ≡ some start
      → ⊥
  unstarted id h start e =
      nobody s x h id start.origin (inl (rw (((x.sound id).waits start e).0) refl))

  begin_revert-IsExclusive : (id c : ℕ) → IsExclusive (begin_revert id c s)
  unfolding begin_revert claim_revert
  begin_revert-IsExclusive id c = elim (Bool-cases (holding anyone s || has_claims s)) [
    | inl busy ↦ rw busy x
    | inr free ↦ rw free (
        move-IsExclusive s x id (claim_revert c) (
          unclaim-Keeps (s.thread id) (x.sound id)
            (some (record { claim_id = c; kind = reverting })) refl
            (unstarted id (ground (arith, free)))))
  ]

  act-IsExclusive : (action : Action) → IsExclusive (act action s)
  unfolding act
  act-IsExclusive (wakes id c turn origin) = wake-IsExclusive s x id c turn origin
  act-IsExclusive (wakes_new id c turn origin) = wake_new-IsExclusive s x id c turn origin
  act-IsExclusive (wakes_recorded id c turn name) = wake_recorded-IsExclusive s x id c turn name
  act-IsExclusive (step_turns id c turn run) = step_turn-IsExclusive s x id c turn run
  act-IsExclusive (responds id c) = respond-IsExclusive id c
  act-IsExclusive (begins_revert id c) = begin_revert-IsExclusive id c
  act-IsExclusive (begins_step c) = begin_step-IsExclusive s x c
  act-IsExclusive (ends_step c) = end_step-IsExclusive s x c
  act-IsExclusive (goes_on id move) =
      move-IsExclusive s x id (go_on move) (go_on-Keeps (s.thread id) (x.sound id) move)
  act-IsExclusive drains = record {
    sound = x.sound;
    known = x.known;
    alone = x.alone;
    in_step = x.in_step;
    one_step = x.one_step;
  }
  act-IsExclusive seals = record {
    sound = x.sound;
    known = x.known;
    alone = x.alone;
    in_step = x.in_step;
    one_step = x.one_step;
  }

act_all-IsExclusive :
    (actions : List Action) (s : Instance) → IsExclusive s → IsExclusive (act_all actions s)
unfolding act_all
act_all-IsExclusive [] s x = x
act_all-IsExclusive (action ∷ actions) s x =
    act_all-IsExclusive actions (act action s) (act-IsExclusive s x action)

-- An instance that starts for the first time.
abbrev pub first_start : Instance
first_start = record {
  threads = [];
  thread = λ id. empty_thread;
  steps = [];
  admitting = true;
  answering = true;
}

first_start-IsExclusive : IsExclusive first_start
unfolding parked_origin parked_on turn_origin
first_start-IsExclusive = record {
  sound = λ id. record {
    waits = λ start h. absurd (ground (arith, h));
    still = λ h. refl;
    known = λ turn h d. absurd (ground (arith, h));
    resumed = λ c turn origin h. absurd (ground (arith, h));
  };
  known = λ id o w. absurd (nothing o w);
  alone = λ id other name o v w. absurd (nothing o w);
  in_step = λ h id o w. absurd (nothing o w);
  one_step = omega arith;
}
  where
    nothing : (o : Origin) → Works o empty_thread → ⊥
    nothing o (inl live) = absurd (ground (arith, live))
    nothing o (inr parked) = absurd (ground (arith, parked))

-- From an instance's first start on, whatever turns, steps, answers, interrupts and reverts are asked
-- of it and in whatever order these and its turns go on between their waits, a routine's turn that
-- holds the instance holds it alone: whatever else holds it then, live or parked, is on the same
-- thread.
pub act_all-alone :
    (actions : List Action) (id other : ℕ) (name : String) (o : Origin)
    → Works (routine name) ((act_all actions first_start).thread id)
    → Works o ((act_all actions first_start).thread other)
    → id ≡ other
act_all-alone actions = (act_all-IsExclusive actions first_start first_start-IsExclusive).alone

-- From an instance's first start on, whatever turns, steps, answers, interrupts and reverts are asked
-- of it and in whatever order these and its turns go on between their waits, while a factory step holds the instance it is the only step
-- that does, and whatever else holds the instance then, live or parked, is a turn that a factory
-- step started.
pub act_all-in_step :
    (actions : List Action)
    → has_step (act_all actions first_start).steps ≡ true
    → (id : ℕ) (o : Origin) → Works o ((act_all actions first_start).thread id)
    → (length (act_all actions first_start).steps ≤ 1) × (is_factory_run o ≡ true)
act_all-in_step actions h id o w =
    let x = act_all-IsExclusive actions first_start first_start-IsExclusive in
    (x.one_step, x.in_step h id o w)
