-- ===== src/Runs/Unmet/Laws.antt =====
-- A run's step of hub/runs.py that starts has the values it needs; the lack of one is charged to
-- a step that declares it.
use mathlib.Core.Path.{subst}
use mathlib.Core.Option.{some-injective}
use kinby.Common.{
  String, true, false, ◌≡◌, ◌≢◌, ◌⊎◌, refl, ap, Option, none, some, List, [], ◌∷◌, ◌++◌, string_eq,
  In, here, there, Bool-cases, Option-cases, inl, inr,
}
use kinby.Common.Keyed.{Dict, get}
use kinby.Contracts.Runs.{StepValue}
use kinby.Factory.File.{Kind, Step, FactoryFile, run_value_names, names_of_entries}
use kinby.Runs.Values.{is_held, lacking}
use kinby.Runs.Unmet.{
  Refused, steps_before, declares, or_else, last_declaring, charged, unmet_of, unmet, no_value,
  branch_at, branch_named, branch_name, branch,
}

lacking-In :
    (held : Dict String StepValue) (names : List String) (name : String)
    → lacking held names ≡ none
    → In name names
    → is_held (get name held) ≡ true
unfolding lacking
lacking-In held [] name h i = elim i [ ]
lacking-In held (n ∷ names) name h here = elim (Bool-cases (is_held (get name held))) [
  | inl it_is ↦ it_is
  | inr not_it ↦ absurd (cc (rw not_it at h))
]
lacking-In held (n ∷ names) name h (there i) = elim (Bool-cases (is_held (get n held))) [
  | inl it_is ↦ lacking-In held names name (rw it_is at h) i
  | inr not_it ↦ absurd (cc (rw not_it at h))
]

In-left {ℓ} : {A : Type ℓ} {x : A} (xs ys : List A) → In x xs → In x (xs ++ ys)
In-left [] ys i = elim i [ ]
In-left (x ∷ xs) ys here = here
In-left (x ∷ xs) ys (there i) = there (In-left xs ys i)

In-right {ℓ} : {A : Type ℓ} {x : A} (xs ys : List A) → In x ys → In x (xs ++ ys)
In-right [] ys i = i
In-right (x ∷ xs) ys i = there (In-right xs ys i)

unmet-lacking :
    (factory : FactoryFile) (step : Step) (held : Dict String StepValue)
    → unmet factory step held ≡ none
    → lacking held (step.requires ++ run_value_names step.kind) ≡ none
unfolding unmet unmet_of
unmet-lacking factory step held h =
    elim (Option-cases (lacking held (step.requires ++ run_value_names step.kind))) [
      | inl all_held ↦ all_held
      | inr (name, lacks) ↦ absurd (cc (rw lacks at h))
    ]

-- A step that nothing keeps from starting holds each value that it requires or that its commands
-- or branch name, and none of them as false.
pub unmet-holds :
    (factory : FactoryFile) (step : Step) (held : Dict String StepValue) (name : String)
    → unmet factory step held ≡ none
    → In name step.requires ⊎ In name (run_value_names step.kind)
    → is_held (get name held) ≡ true
unmet-holds factory step held name h i =
    lacking-In held (step.requires ++ run_value_names step.kind) name
      (unmet-lacking factory step held h)
      (elim i [
        | inl r ↦ In-left step.requires (run_value_names step.kind) r
        | inr r ↦ In-right step.requires (run_value_names step.kind) r
      ])

branch_name-In :
    (kind : Kind) (name : String) → branch_name kind ≡ some name → In name (run_value_names kind)
unfolding run_value_names
branch_name-In (Kind.agent _ _ _) name h = absurd (cc h)
branch_name-In (Kind.client declared) name h = rw h here
branch_name-In (Kind.command instance_name run timeout branch) name h =
    rw h (In-right (names_of_entries run) (name ∷ []) here)
branch_name-In (Kind.code _ _) name h = absurd (cc h)
branch_name-In (Kind.wait _ _ _) name h = absurd (cc h)
branch_name-In (Kind.approve _) name h = absurd (cc h)

branch_at-held : (value : Option StepValue) → is_held value ≡ true → branch_at value ≢ no_value
unfolding branch_at
branch_at-held none h e = absurd (cc h)
branch_at-held (some v) h e = cc e

-- A client or command step that nothing keeps from starting reads its branch without an error.
pub unmet-branch :
    (factory : FactoryFile) (step : Step) (held : Dict String StepValue)
    → unmet factory step held ≡ none
    → branch step.kind held ≢ no_value
unfolding branch branch_named
unmet-branch factory step held h = elim (Option-cases (branch_name step.kind)) [
  | inl nothing ↦ rw nothing (λ e. cc e)
  | inr (name, named) ↦ rw named (
      branch_at-held (get name held)
        (unmet-holds factory step held name h (inr (branch_name-In step.kind name named))))
]

-- The step is one of these, and declares the value.
last_declaring-In :
    (name : String) (steps : List Step) (step : Step)
    → last_declaring name steps ≡ some step
    → In step steps × (declares name step ≡ true)
unfolding last_declaring or_else
last_declaring-In name [] step h = absurd (cc h)
last_declaring-In name (s ∷ steps) step h = elim (Option-cases (last_declaring name steps)) [
  | inr (later, found) ↦
      let (i, d) = last_declaring-In name steps later found in
      let same : later ≡ step = cc (rw found at h) in rw (← same) (there i, d)
  | inl nothing ↦ elim (Bool-cases (declares name s)) [
    | inl here_it_is ↦
        let same : s ≡ step = cc (rw (nothing, here_it_is) at h) in rw (← same) (here, here_it_is)
    | inr not_here ↦ absurd (cc (rw (nothing, not_here) at h))
  ]
]

lacking-some :
    (held : Dict String StepValue) (names : List String) (name : String)
    → lacking held names ≡ some name
    → is_held (get name held) ≡ false
unfolding lacking
lacking-some held [] name h = absurd (cc h)
lacking-some held (n ∷ names) name h = elim (Bool-cases (is_held (get n held))) [
  | inl it_is ↦ lacking-some held names name (rw it_is at h)
  | inr not_it ↦ let same : n ≡ name = cc (rw not_it at h) in rw (← same) not_it
]

-- The step itself, or one before it that declares the value.
abbrev pub ChargesFor : FactoryFile → Step → String → String → Type 0
ChargesFor factory step name id =
    (id ≡ step.id)
    ⊎ ((producer : Step) × (id ≡ producer.id)
        × In producer (steps_before factory.steps step.id)
        × (declares name producer ≡ true))

charged-ChargesFor :
    (factory : FactoryFile) (step : Step) (name : String) (value : Option StepValue)
    → ChargesFor factory step name
        (charged step name value (last_declaring name (steps_before factory.steps step.id))).step
unfolding charged
charged-ChargesFor factory step name value =
    elim (Option-cases (last_declaring name (steps_before factory.steps step.id))) [
      | inl nothing ↦ rw nothing (inl refl)
      | inr (producer, found) ↦
          let (i, d) = last_declaring-In name _ producer found in
          rw found (inr (producer, refl, i, d))
    ]

-- A step that cannot start lacks a value, and the attempt that fails for it is one of the step
-- itself, or of a step before it in the factory that declares this value in its results.
pub unmet-charges :
    (factory : FactoryFile) (step : Step) (held : Dict String StepValue) (refused : Refused)
    → unmet factory step held ≡ some refused
    → (name : String) × (is_held (get name held) ≡ false)
      × ChargesFor factory step name refused.step
unfolding unmet unmet_of
unmet-charges factory step held refused h =
    elim (Option-cases (lacking held (step.requires ++ run_value_names step.kind))) [
      | inl all_held ↦ absurd (cc (rw all_held at h))
      | inr (name, lacks) ↦ (
        name,
        lacking-some held _ name lacks,
        subst (ChargesFor factory step name) (ap (λ r. r.step) (some-injective _ _ (rw lacks at h)))
            (charged-ChargesFor factory step name (get name held)),
      )
    ]
