-- ===== src/Runs/Unmet/Provided.antt =====
-- hub/runs.py, `_unmet`, in a factory that factories/check.py, `_inputs`, passes.
use mathlib.Core.Path.{subst}
use mathlib.Core.Option.{some-injective}
use kinby.Common.{
  String, Bool, true, false, ◌≡◌, ◌||◌, refl, sym, ◌∙◌, ap, Option, none, some, List, [], ◌∷◌, ◌++◌,
  ◌==◌, string_eq, if◌then◌else◌, find, In, here, there, ◌⊎◌, Bool-cases, Option-cases, inl, inr,
  arith,
}
use kinby.Common.Keyed.{Dict, get}
use kinby.Contracts.Runs.{StepValue}
use kinby.Factory.File.{Step, FactoryFile, ValueType, run_value_names}
use kinby.Factory.Check.{has_id}
use kinby.Factory.Check.Inputs.{
  inputs, inputs_from, keys, Takes, step_inputs-held, nil_left, nil_right,
}
use kinby.Runs.Values.{is_held, lacking}
use kinby.Runs.Unmet.{
  Refused, steps_before, declares, or_else, last_declaring, charged, unmet_of, unmet,
}

abbrev pub has_step_id : String → Step → Bool
has_step_id id step = step.id == id

-- The names that steps declare in their results.
abbrev declared_by : List Step → List String
declared_by [] = []
declared_by (step ∷ steps) = keys step.results ++ declared_by steps

has_id-append :
    (name : String) (xs ys : List String)
    → has_id name (xs ++ ys) ≡ (has_id name xs || has_id name ys)
has_id-append name [] ys = refl
has_id-append name (x ∷ xs) ys = ground (arith, has_id-append name xs ys)

or_left : (a b : Bool) → (a || b) ≡ true → b ≡ false → a ≡ true
or_left a b e f = ground arith

regroup : (a b c : Bool) → ((a || b) || c) ≡ (a || (b || c))
regroup a b c = ground arith

In-split {ℓ} : {A : Type ℓ} {x : A} (xs ys : List A) → In x (xs ++ ys) → In x xs ⊎ In x ys
In-split [] ys i = inr i
In-split (x ∷ xs) ys here = inl here
In-split (x ∷ xs) ys (there i) = elim (In-split xs ys i) [ inl j ↦ inl (there j) | inr j ↦ inr j ]

module _ (id name : String) where
  inputs_from-held :
      (held : List String) (steps : List Step) (step : Step)
      → inputs_from held steps ≡ []
      → find (has_step_id id) steps ≡ some step
      → Takes step name
      → (has_id name held || has_id name (declared_by (steps_before steps id))) ≡ true
  unfolding inputs_from steps_before
  inputs_from-held held [] step e found takes = absurd (ground (arith, found))
  inputs_from-held held (first ∷ steps) step e found takes = elim (Bool-cases (first.id == id)) [
    | inl same ↦
        let it : first ≡ step = some-injective _ _ (rw (same) at found) in
        let held_here =
          step_inputs-held held first name (nil_left _ _ e)
            (subst (λ s. Takes s name) (sym it) takes) in
        ground (arith, held_here)
    | inr other ↦ rw (other) (
        ap (λ b. has_id name held || b)
          (has_id-append name (keys first.results) (declared_by (steps_before steps id)))
        ∙ sym (
            regroup (has_id name held) (has_id name (keys first.results))
              (has_id name (declared_by (steps_before steps id))))
        ∙ ap (λ b. b || has_id name (declared_by (steps_before steps id)))
            (sym (has_id-append name held (keys first.results)))
        ∙ inputs_from-held (held ++ keys first.results) steps step (nil_right _ _ e)
            (rw (other) at found) takes)
  ]

  get-keys :
      (d : Dict String ValueType)
      → (elim (get name d) as (λ _. Bool) [ none ↦ false | some _ ↦ true ]) ≡ has_id name (keys d)
  unfolding keys get
  get-keys [] = refl
  get-keys ((k, v) ∷ d) = elim (Bool-cases (k == name)) [
    | inl same ↦ rw (same) refl
    | inr other ↦ rw (other) (get-keys d)
  ]

  or_else-none :
      (o : Option Step) (b : Bool) (step : Step)
      → or_else o (if b then some step else none) ≡ none
      → (o ≡ none) × (b ≡ false)
  unfolding or_else
  or_else-none none true step e = absurd (ground (arith, e))
  or_else-none none false step e = (refl, refl)
  or_else-none (some s) b step e = absurd (ground (arith, e))

  undeclared :
      (steps : List Step)
      → last_declaring name steps ≡ none
      → has_id name (declared_by steps) ≡ false
  unfolding last_declaring
  undeclared [] e = refl
  undeclared (step ∷ steps) e =
      let (later, undeclared_here) =
        or_else-none (last_declaring name steps) (declares name step) step e in
      has_id-append name (keys step.results) (declared_by steps)
      ∙ ap (λ b. b || has_id name (declared_by steps))
          (sym (get-keys step.results) ∙ undeclared_here)
      ∙ undeclared steps later

lacking-In :
    (held : Dict String StepValue) (names : List String) (name : String)
    → lacking held names ≡ some name
    → In name names
unfolding lacking
lacking-In held [] name e = absurd (ground (arith, e))
lacking-In held (n ∷ names) name e = elim (Bool-cases (is_held (get n held))) [
  | inl it_is ↦ there (lacking-In held names name (rw (it_is) at e))
  | inr not_it ↦ subst (λ m. In m (n ∷ names)) (some-injective _ _ (rw (not_it) at e)) here
]

Takes-In :
    (step : Step) (name : String)
    → In name (step.requires ++ run_value_names step.kind)
    → Takes step name
Takes-In step name i = In-split step.requires (run_value_names step.kind) i

-- The run refuses the step for the name that it lacks, by the last step that declares the name.
Refuses-unmet :
    (factory : FactoryFile) (step : Step) (held : Dict String StepValue) (refused : Refused)
    (names : List String) (o : Option String)
    → o ≡ lacking held names
    → unmet_of factory step held o ≡ some refused
    → (name : String) × (lacking held names ≡ some name)
      × (refused
          ≡ charged step name
              (get name held)
              (last_declaring name (steps_before factory.steps step.id)))
unfolding unmet_of
Refuses-unmet factory step held refused names none e h = absurd (ground (arith, h))
Refuses-unmet factory step held refused names (some name) e h =
    (name, sym e, sym (some-injective _ _ h))

-- In a factory whose inputs the factory check passes, a step that cannot start lacks a value that
-- the work item declares, or one that an earlier step declares in its results, and the run then
-- charges the last of these steps with it. A value that no one provides keeps no step from
-- starting. The step is the first of the factory by its id.
pub unmet-provided :
    (factory : FactoryFile) (step : Step) (held : Dict String StepValue) (refused : Refused)
    → inputs factory ≡ []
    → find (has_step_id step.id) factory.steps ≡ some step
    → unmet factory step held ≡ some refused
    → (name : String) × (lacking held (step.requires ++ run_value_names step.kind) ≡ some name)
      × ((has_id name (keys factory.work_item) ≡ true)
          ⊎ ((producer : Step) × (last_declaring name (steps_before factory.steps step.id)
                ≡ some producer)
              × (refused.step ≡ producer.id)))
unfolding inputs unmet charged
unmet-provided factory step held refused passes found h =
    let names = step.requires ++ run_value_names step.kind in
    let (name, lacks, charges) =
      Refuses-unmet factory step held refused names (lacking held names) refl h in
    let before = steps_before factory.steps step.id in
    let takes = Takes-In step name (lacking-In held names name lacks) in
    let in_reach =
      inputs_from-held step.id name (keys factory.work_item) factory.steps step
        (nil_left _ _ passes) found takes in
    (
      name,
      lacks,
      elim (Option-cases (last_declaring name before)) [
        | inl no_one ↦ inl (
            or_left (has_id name (keys factory.work_item)) (has_id name (declared_by before))
              in_reach (undeclared step.id name before no_one))
        | inr (producer, last) ↦ inr (
          producer,
          last,
          ap (λ r. r.step) charges ∙ ap (λ o. (charged step name (get name held) o).step) last,
        )
      ],
    )
