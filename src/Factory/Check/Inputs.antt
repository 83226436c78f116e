-- ===== src/Factory/Check/Inputs.antt =====
-- factories/check.py, `_inputs`: each value that a step takes of the run is held by the work item
-- or by an earlier step, and each that the end of the run takes, by any step.
use kinby.Common.{
  String, true, ◌≡◌, refl, List, [], ◌∷◌, ◌++◌, string_eq, if◌then◌else◌, In, here, there, ◌⊎◌,
  Bool-cases, inl, inr, arith,
}
use kinby.Common.Keyed.{Dict}
use kinby.Common.Text.{text}
use kinby.Factory.File.{
  Kind, Expected, literal, named, SignalFilter, Step, FactoryFile, run_value_names,
}
use kinby.Factory.Check.{has_id}

unfoldable pub keys {ℓ} : {V : Type ℓ} → Dict String V → List String
keys [] = []
keys ((key, _) ∷ entries) = key ∷ keys entries

-- A message for each of the names that is not held.
missing : (String → String) → List String → List String → List String
missing message held [] = []
missing message held (name ∷ names) =
    let rest = missing message held names in if has_id name held then rest else message name ∷ rest

-- `(item for fields in filters for item in fields.items())`
unfoldable pub items_of : List SignalFilter → List (String × Expected)
items_of [] = []
items_of (fields ∷ filters) = fields ++ items_of filters

-- A message for each field that is to have a value that is not held.
missing_expected : (String → String → String) → List String → List (String × Expected) → List String
missing_expected message held [] = []
missing_expected message held ((field, literal _) ∷ items) = missing_expected message held items
missing_expected message held ((field, named value) ∷ items) =
    let rest = missing_expected message held items in
    if has_id value held then rest else message field value ∷ rest

abbrev filters_of : Kind → List SignalFilter
filters_of (Kind.wait signal _ _) = signal
filters_of _ = []

requires_message : Step → String → String
requires_message step value = text (
    "Step \"" ∷ step.id ∷ "\" requires \"" ∷ value ∷ "\", which no earlier step declares in its "
    ∷ "results and the work item does not carry." ∷ [])

matches_message : Step → String → String → String
matches_message step field value = text (
    "Step \"" ∷ step.id ∷ "\" matches \"" ∷ field ∷ "\" against \"" ∷ value
    ∷ "\", which no earlier " ∷ "step declares in its results and the work item does not carry."
    ∷ [])

names_message : Step → String → String
names_message step value = text (
    "Step \"" ∷ step.id ∷ "\" names \"" ∷ value ∷ "\", which no earlier step "
    ∷ "declares in its results and the work item does not carry." ∷ [])

-- The body of the loop over the steps.
pub step_inputs : List String → Step → List String
unfolding missing missing_expected items_of run_value_names requires_message matches_message
    names_message
step_inputs held step =
    missing (requires_message step) held step.requires
    ++ (missing_expected (matches_message step) held (items_of (filters_of step.kind))
        ++ missing (names_message step) held (run_value_names step.kind))

unfoldable pub inputs_from : List String → List Step → List String
unfolding step_inputs keys
inputs_from held [] = []
inputs_from held (step ∷ steps) =
    step_inputs held step ++ inputs_from (held ++ keys step.results) steps

-- The names held after the steps.
abbrev held_after : List String → List Step → List String
held_after held [] = held
held_after held (step ∷ steps) = held_after (held ++ keys step.results) steps

done_message : String → String
done_message value = text (
    "done_requires names \"" ∷ value ∷ "\", which no step declares in its results "
    ∷ "and the work item does not carry." ∷ [])

closing_message : String → String → String
closing_message field value = text (
    "closing matches \"" ∷ field ∷ "\" against \"" ∷ value
    ∷ "\", which no step declares in its results and the work item does not carry." ∷ [])

-- `_inputs`
unfoldable pub inputs : FactoryFile → List String
unfolding inputs_from missing missing_expected items_of keys done_message closing_message
inputs factory =
    let held = held_after (keys factory.work_item) factory.steps in
    inputs_from (keys factory.work_item) factory.steps
    ++ (missing done_message held factory.done_requires
        ++ missing_expected closing_message held
            (items_of (factory.closing.done ++ factory.closing.cancelled)))

pub nil_left {ℓ} : {A : Type ℓ} (xs ys : List A) → xs ++ ys ≡ [] → xs ≡ []
nil_left [] ys e = refl
nil_left (x ∷ xs) ys e = absurd (ground (arith, e))

pub nil_right {ℓ} : {A : Type ℓ} (xs ys : List A) → xs ++ ys ≡ [] → ys ≡ []
nil_right [] ys e = e
nil_right (x ∷ xs) ys e = absurd (ground (arith, e))

missing-held :
    (message : String → String) (held names : List String) (name : String)
    → missing message held names ≡ []
    → In name names
    → has_id name held ≡ true
unfolding missing
missing-held message held [] name e i = elim i [ ]
missing-held message held (_ ∷ names) name e here = elim (Bool-cases (has_id name held)) [
  | inl it_is ↦ it_is
  | inr not_it ↦ absurd (ground (arith, rw (not_it) at e))
]
missing-held message held (n ∷ names) name e (there i) = elim (Bool-cases (has_id n held)) [
  | inl it_is ↦ missing-held message held names name (rw (it_is) at e) i
  | inr not_it ↦ absurd (ground (arith, rw (not_it) at e))
]

-- A value that a step requires, or that its commands or branch name.
abbrev pub Takes : Step → String → Type 0
Takes step name = In name step.requires ⊎ In name (run_value_names step.kind)

pub step_inputs-held :
    (held : List String) (step : Step) (name : String)
    → step_inputs held step ≡ []
    → Takes step name
    → has_id name held ≡ true
unfolding step_inputs
step_inputs-held held step name e (inl i) =
    missing-held (requires_message step) held step.requires name (nil_left _ _ e) i
step_inputs-held held step name e (inr i) =
    missing-held (names_message step) held (run_value_names step.kind) name
      (nil_right _ _ (nil_right _ _ e)) i
