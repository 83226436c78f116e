-- ===== src/Turns/Alone.antt =====
-- core/turns.py: a routine holds the instance alone, and so does a step.
use kinby.Turns.Local.{IsSound, Keeps, Works, Fewer}
use kinby.Turns.Instance.{Instance, holding, change, has_step, update}
use kinby.Turns.Thread.{
  routine, Origin, Thread, test, holds, is_factory_run, live_origin, not_routine, parked_origin,
  is_routine,
}
use mathlib.Core.Path.{subst}
use kinby.Common.{
  ℕ, ◌≤◌, Bool, true, false, Option, some, List, [], ◌∷◌, ◌==◌, nat_eq, ◌≡◌, refl, sym, ap, ◌∙◌,
  ◌⊎◌, inl, inr, any, arith, Bool-cases, eq_of_beq, length, String,
}

abbrev pub has_thread : ℕ → List ℕ → Bool
has_thread id threads = any (λ known. known == id) threads

pub record IsExclusive (s : Instance) : Type 0 where
  pub sound : (id : ℕ) → IsSound (s.thread id)
  pub known : (id : ℕ) (o : Origin) → Works o (s.thread id) → has_thread id s.threads ≡ true
  pub alone :
      (id other : ℕ) (name : String) (o : Origin)
      → Works (routine name) (s.thread id)
      → Works o (s.thread other)
      → id ≡ other
  pub in_step :
      has_step s.steps ≡ true
      → (id : ℕ) (o : Origin) → Works o (s.thread id)
      → is_factory_run o ≡ true
  pub one_step : length s.steps ≤ 1

test-some :
    (p : Origin → Bool) (a : Option Origin) (o : Origin) → a ≡ some o → p o ≡ true → test p a ≡ true
test-some p a o e h = rw e h

Works-holds :
    (p : Origin → Bool) (t : Thread) (o : Origin) → Works o t → p o ≡ true → holds p t ≡ true
Works-holds p t o (inl live) h =
    ground (arith, test-some p (live_origin t.claim t.running) o live h)
Works-holds p t o (inr parked) h =
    ground (arith, test-some p (not_routine (parked_origin t.events)) o parked h)

none_of :
    (f : ℕ → Bool) (threads : List ℕ) (id : ℕ)
    → any f threads ≡ false
    → has_thread id threads ≡ true
    → f id ≡ false
none_of f [] id h k = absurd (ground (arith, k))
none_of f (t ∷ threads) id h k = elim (Bool-cases (t == id)) [
  | inl here ↦ subst (λ i. f i ≡ false) (eq_of_beq t id here) (ground (arith, h))
  | inr there ↦ none_of f threads id (ground (arith, h)) (ground (arith, k, there))
]

update_far :
    (s : Instance) (id : ℕ) (f : Thread → Thread) (other : ℕ)
    → (id == other) ≡ false
    → update s.thread id f other ≡ s.thread other
update_far s id f other far = rw far refl

update_here :
    (s : Instance) (id : ℕ) (f : Thread → Thread) (other : ℕ)
    → (id == other) ≡ true
    → f (s.thread id) ≡ update s.thread id f other
update_here s id f other here = rw here (ap (λ i. f (s.thread i)) (eq_of_beq id other here))

module _ (s : Instance) (x : IsExclusive s) where
  -- What no thread of the store holds the instance for, nothing does.
  pub not_held :
      (p : Origin → Bool)
      → holding p s ≡ false
      → (id : ℕ) (o : Origin) → Works o (s.thread id)
      → p o ≡ false
  not_held p h id o w = elim (Bool-cases (p o)) [
    | inr no_p ↦ no_p
    | inl is_p ↦ absurd (
        ground (
          arith,
          Works-holds p (s.thread id) o w is_p,
          none_of (λ i. holds p (s.thread i)) s.threads id h (x.known id o w),
        ))
  ]

  module _ (id : ℕ) (f : Thread → Thread) (k : Keeps (s.thread id) (f (s.thread id))) where
    update-Fewer : (other : ℕ) → Fewer (update s.thread id f other) (s.thread other)
    update-Fewer other o w = elim (Bool-cases (id == other)) [
      | inr far ↦ subst (Works o) (update_far s id f other far) w
      | inl here ↦
          subst (λ i. Works o (s.thread i)) (eq_of_beq id other here)
            (k.fewer o (subst (Works o) (sym (update_here s id f other here)) w))
    ]

    update-IsSound : (other : ℕ) → IsSound (update s.thread id f other)
    update-IsSound other = elim (Bool-cases (id == other)) [
      | inr far ↦ rw far (x.sound other)
      | inl here ↦ subst IsSound (update_here s id f other here) k.sound
    ]

    pub move-IsExclusive : IsExclusive (change id f s)
    move-IsExclusive = record {
      sound = update-IsSound;
      known = λ other o w. x.known other o (update-Fewer other o w);
      alone = λ a b name o v w.
          x.alone a b name o (update-Fewer a (routine name) v) (update-Fewer b o w);
      in_step = λ h other o w. x.in_step h other o (update-Fewer other o w);
      one_step = x.one_step;
    }

  -- A thread takes on a turn of `origin`, where nothing forbids it.
  module _ (id : ℕ) (f : Thread → Thread) (origin : Origin) (sound : IsSound (f (s.thread id)))
      (gains : (o : Origin) → Works o (f (s.thread id)) → (o ≡ origin) ⊎ Works o (s.thread id))
      (there : has_thread id s.threads ≡ true)
      (no_routine : (k : ℕ) (o : Origin) → Works o (s.thread k) → is_routine o ≡ false)
      (none_beside : is_routine origin ≡ true → (k : ℕ) (o : Origin) → Works o (s.thread k) → ⊥)
      (fits : has_step s.steps ≡ true → is_factory_run origin ≡ true) where
    gained :
        (other : ℕ) (o : Origin)
        → Works o (update s.thread id f other)
        → ((id ≡ other) × (o ≡ origin)) ⊎ Works o (s.thread other)
    gained other o w = elim (Bool-cases (id == other)) [
      | inr far ↦ inr (subst (Works o) (update_far s id f other far) w)
      | inl here ↦ elim (gains o (subst (Works o) (sym (update_here s id f other here)) w)) [
        | inl e ↦ inl (eq_of_beq id other here, e)
        | inr old ↦ inr (subst (λ i. Works o (s.thread i)) (eq_of_beq id other here) old)
      ]
    ]

    gained-IsSound : (other : ℕ) → IsSound (update s.thread id f other)
    gained-IsSound other = elim (Bool-cases (id == other)) [
      | inr far ↦ rw far (x.sound other)
      | inl here ↦ subst IsSound (update_here s id f other here) sound
    ]

    gained-alone :
        (a b : ℕ) (name : String) (o : Origin)
        → ((id ≡ a) × (routine name ≡ origin)) ⊎ Works (routine name) (s.thread a)
        → ((id ≡ b) × (o ≡ origin)) ⊎ Works o (s.thread b)
        → a ≡ b
    gained-alone a b name o (inl (here, e)) (inl (there, _)) = sym here ∙ there
    gained-alone a b name o (inl (here, e)) (inr w) =
        absurd (none_beside (subst (λ a. is_routine a ≡ true) e refl) b o w)
    gained-alone a b name o (inr v) w = absurd (ground (arith, no_routine a (routine name) v))

    gained-in_step :
        (other : ℕ) (o : Origin)
        → has_step s.steps ≡ true
        → ((id ≡ other) × (o ≡ origin)) ⊎ Works o (s.thread other)
        → is_factory_run o ≡ true
    gained-in_step other o h (inl (_, e)) = rw e (fits h)
    gained-in_step other o h (inr w) = x.in_step h other o w

    gained-known :
        (other : ℕ) (o : Origin)
        → ((id ≡ other) × (o ≡ origin)) ⊎ Works o (s.thread other)
        → has_thread other s.threads ≡ true
    gained-known other o (inl (here, _)) = subst (λ i. has_thread i s.threads ≡ true) here there
    gained-known other o (inr w) = x.known other o w

    pub gain-IsExclusive : IsExclusive (change id f s)
    gain-IsExclusive = record {
      sound = gained-IsSound;
      known = λ other o w. gained-known other o (gained other o w);
      alone = λ a b name o v w. gained-alone a b name o (gained a (routine name) v) (gained b o w);
      in_step = λ h other o w. gained-in_step other o h (gained other o w);
      one_step = x.one_step;
    }
