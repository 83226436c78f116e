-- ===== src/Turns/Taken.antt =====
-- core/turns.py: what the instance takes on leaves routines and steps alone with it.
use kinby.Turns.Known.{
  has_thread-append_left, has_thread-append_last, one_more, fewer_steps, length-keep-le,
}
use kinby.Turns.Idle.{none_if, free_lem, idle_unless}
use kinby.Common.{
  String, ℕ, Bool, true, false, not, ◌&&◌, none, some, ◌∷◌, nat_eq, ◌≡◌, refl, ◌⊎◌, inl, inr,
  if◌then◌else◌, any, arith,
}
use kinby.Turns.Instance.{
  wake_recorded, require_available, Instance, holding, has_step, is_available, create_thread,
  anyone, is_fresh, change, wake_new_thread, begin_step, end_step, wake, draining, reverting_now,
  step_running, routine_running, waiting_for_turn, has_claims, step_turn,
}
use kinby.Turns.Thread.{
  is_active, routine, factory_run, user, home_instance, Origin, Thread, is_routine, is_factory_run,
  parked_on, turn_origin,
}
use kinby.Turns.Local.{Works, IsSound}
use kinby.Turns.Moves.{claim_turn, is_free, is_none, claim_meets, is_revert}
use kinby.Turns.Alone.{has_thread, IsExclusive, not_held, gain-IsExclusive}

available_if :
    (open_ reverts step routines others mine : Bool)
    → is_none (
        if not open_
        then some draining
        else if reverts
        then some reverting_now
        else if step
        then some step_running
        else if routines
        then some routine_running
        else if others && mine
        then some waiting_for_turn
        else none)
      ≡ true
    → (step ≡ false) × (routines ≡ false) × (mine ≡ true → others ≡ false)
available_if false reverts step routines others mine h = absurd (ground (arith, h))
available_if true true step routines others mine h = absurd (ground (arith, h))
available_if true false true routines others mine h = absurd (ground (arith, h))
available_if true false false true others mine h = absurd (ground (arith, h))
available_if true false false false others mine h = (refl, refl, λ own. ground (arith, h, own))

pub available_lem :
    (origin : Origin) (s : Instance)
    → is_available origin s ≡ true
    → (has_step s.steps ≡ false)
      × (holding is_routine s ≡ false)
      × (is_routine origin ≡ true → holding anyone s ≡ false)
unfolding require_available
available_lem origin s h =
    available_if s.admitting (any (λ id. claim_meets is_revert (s.thread id).claim) s.threads)
      (has_step s.steps) (holding is_routine s) (holding anyone s) (is_routine origin) h

claim_turn-IsSound :
    (c turn : ℕ) (origin : Origin) (t : Thread)
    → IsSound t
    → is_active t.running ≡ false
    → is_none (parked_on t.events) ≡ true
    → is_fresh turn t ≡ true
    → IsSound (claim_turn c turn origin t)
unfolding claim_turn
claim_turn-IsSound c turn origin t s idle free fresh = record {
  waits = λ start h. (
    ground (arith, h),
    none_if (parked_on t.events) free,
    none_if (turn_origin t.events start.turn_id) (ground (arith, fresh, h)),
  );
  still = λ h. idle;
  known = s.known;
  resumed = λ id turn origin h. absurd (ground (arith, h));
}

claim_turn-gains :
    (c turn : ℕ) (origin : Origin) (t : Thread) (o : Origin)
    → Works o (claim_turn c turn origin t)
    → (o ≡ origin) ⊎ Works o t
unfolding claim_turn
claim_turn-gains c turn origin t o (inl live) = inl (ground (arith, live))
claim_turn-gains c turn origin t o (inr parked) = inr (inr parked)

-- A guarded change, and what its guard gives.
pub guarded :
    (b : Bool) (s later : Instance)
    → (b ≡ true → IsExclusive later)
    → IsExclusive s
    → IsExclusive (if b then later else s)
guarded true s later h x = h refl
guarded false s later h x = x

pub all_three : (a b c : Bool) → (a && b && c) ≡ true → (a ≡ true) × (b ≡ true) × (c ≡ true)
all_three a b c h = (ground (arith, h), ground (arith, h), ground (arith, h))

pub all_four :
    (a b c d : Bool) → (a && b && c && d) ≡ true → (a ≡ true) × (b ≡ true) × (c ≡ true) × (d ≡ true)
all_four a b c d h = (ground (arith, h), ground (arith, h), ground (arith, h), ground (arith, h))

module _ (s : Instance) (x : IsExclusive s) where
  create_thread-IsExclusive : (id : ℕ) → IsExclusive (create_thread id s)
  create_thread-IsExclusive id = record {
    sound = x.sound;
    known = λ k o w. has_thread-append_left id k s.threads (x.known k o w);
    alone = x.alone;
    in_step = x.in_step;
    one_step = x.one_step;
  }

  pub nobody : holding anyone s ≡ false → (k : ℕ) (o : Origin) → Works o (s.thread k) → ⊥
  nobody h k o w = absurd (ground (arith, not_held s x anyone h k o w))

  no_routine_step :
      has_step s.steps ≡ true → (k : ℕ) (o : Origin) → Works o (s.thread k) → is_routine o ≡ false
  no_routine_step h k o w = factory_only o (x.in_step h k o w)
    where
      factory_only : (o : Origin) → is_factory_run o ≡ true → is_routine o ≡ false
      factory_only (factory_run id) e = refl
      factory_only user e = refl
      factory_only home_instance e = refl
      factory_only (routine name) e = absurd (ground (arith, e))

  module _ (id c turn : ℕ) (origin : Origin) (idle : is_active (s.thread id).running ≡ false)
      (free : is_none (parked_on (s.thread id).events) ≡ true)
      (fresh : is_fresh turn (s.thread id) ≡ true) where
    claims-IsExclusive :
        has_thread id s.threads ≡ true
        → ((k : ℕ) (o : Origin) → Works o (s.thread k) → is_routine o ≡ false)
        → (is_routine origin ≡ true → (k : ℕ) (o : Origin) → Works o (s.thread k) → ⊥)
        → (has_step s.steps ≡ true → is_factory_run origin ≡ true)
        → IsExclusive (change id (claim_turn c turn origin) s)
    claims-IsExclusive there no_routine beside fits =
        gain-IsExclusive s x id (claim_turn c turn origin) origin
          (claim_turn-IsSound c turn origin (s.thread id) (x.sound id) idle free fresh)
          (claim_turn-gains c turn origin (s.thread id)) there no_routine beside fits

    available-IsExclusive :
        has_thread id s.threads ≡ true
        → (has_step s.steps ≡ false)
          × (holding is_routine s ≡ false)
          × (is_routine origin ≡ true → holding anyone s ≡ false)
        → IsExclusive (change id (claim_turn c turn origin) s)
    available-IsExclusive there (no_step, no_routine, no_other) =
        claims-IsExclusive there (λ k o w. not_held s x is_routine no_routine k o w)
          (λ r. nobody (no_other r)) (λ h. absurd (ground (arith, h, no_step)))

  pub wake-IsExclusive : (id c turn : ℕ) (origin : Origin) → IsExclusive (wake id c turn origin s)
  unfolding wake
  wake-IsExclusive id c turn origin =
      guarded _ s (change id (claim_turn c turn origin) s)
        (λ h.
          let (there, open_, free, fresh) =
            all_four (has_thread id s.threads) (is_available origin s) (is_free (s.thread id))
              (is_fresh turn (s.thread id)) h in
          let (idle, unparked) = free_lem (s.thread id) free in
          available-IsExclusive id c turn origin idle unparked fresh there
            (available_lem origin s open_))
        x

  pub wake_recorded-IsExclusive :
      (id c turn : ℕ) (name : String) → IsExclusive (wake_recorded id c turn name s)
  unfolding wake_recorded
  wake_recorded-IsExclusive id c turn name =
      guarded _ s (change id (claim_turn c turn (routine name)) s)
        (λ h.
          let (there, open_, unparked, fresh) =
            all_four (has_thread id s.threads) (is_available (routine name) s)
              (is_none (parked_on (s.thread id).events)) (is_fresh turn (s.thread id)) h in
          let (no_step, no_routine, no_other) = available_lem (routine name) s open_ in
          let idle = idle_unless (s.thread id) (λ o live. nobody (no_other refl) id o (inl live)) in
          available-IsExclusive id c turn (routine name) idle unparked fresh there
            (no_step, no_routine, no_other))
        x

  pub begin_step-IsExclusive : (c : ℕ) → IsExclusive (begin_step c s)
  unfolding begin_step
  begin_step-IsExclusive c =
      guarded _ s (record s { steps = c ∷ s.steps })
        (λ h.
          let (open_, quiet, unclaimed) =
            all_three s.admitting (not (holding anyone s)) (not (has_claims s)) h in
          record {
            sound = x.sound;
            known = x.known;
            alone = x.alone;
            in_step = λ _ k o w. absurd (nobody (ground (arith, quiet)) k o w);
            one_step = one_more c s.steps (ground (arith, unclaimed));
          })
        x

  pub end_step-IsExclusive : (c : ℕ) → IsExclusive (end_step c s)
  unfolding end_step
  end_step-IsExclusive c = record {
    sound = x.sound;
    known = x.known;
    alone = x.alone;
    in_step = λ h. x.in_step (fewer_steps c s.steps h);
    one_step = omega (arith, length-keep-le c s.steps, x.one_step);
  }

module _ (s : Instance) (x : IsExclusive s) where
  pub wake_new-IsExclusive :
      (id c turn : ℕ) (origin : Origin) → IsExclusive (wake_new_thread id c turn origin s)
  unfolding wake_new_thread
  wake_new-IsExclusive id c turn origin =
      guarded _ s (change id (claim_turn c turn origin) (create_thread id s))
        (λ h.
          let (open_, free, fresh) =
            all_three (is_available origin s) (is_free (s.thread id)) (is_fresh turn (s.thread id))
              h in
          let (no_step, no_routine, no_other) = available_lem origin s open_ in
          let (idle, unparked) = free_lem (s.thread id) free in
          claims-IsExclusive (create_thread id s) (create_thread-IsExclusive s x id) id c turn
            origin idle unparked fresh (has_thread-append_last id s.threads)
            (λ k o w. not_held s x is_routine no_routine k o w) (λ r. nobody s x (no_other r))
            (λ h. absurd (ground (arith, h, no_step))))
        x

  pub step_turn-IsExclusive : (id c turn run : ℕ) → IsExclusive (step_turn id c turn run s)
  unfolding step_turn
  step_turn-IsExclusive id c turn run =
      guarded _ s (change id (claim_turn c turn (factory_run run)) (create_thread id s))
        (λ h.
          let (open_, step, free, fresh) =
            all_four s.admitting (has_step s.steps) (is_free (s.thread id))
              (is_fresh turn (s.thread id)) h in
          let (idle, unparked) = free_lem (s.thread id) free in
          claims-IsExclusive (create_thread id s) (create_thread-IsExclusive s x id) id c turn
            (factory_run run) idle unparked fresh (has_thread-append_last id s.threads)
            (λ k o w. no_routine_step s x step k o w) (λ r. absurd (ground (arith, r))) (λ h. refl))
        x
