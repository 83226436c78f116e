-- ===== src/Runs/Intake/Laws.antt =====
-- A work item with which nothing is wrong.
use kinby.Common.{
  String, true, ◌≡◌, ◌≢◌, Option, none, some, [], ◌∷◌, ◌==◌, string_eq, inl, inr, Bool-cases,
  Option-cases, In, here, there,
}
use kinby.Common.Keyed.{Dict, get, put}
use kinby.Contracts.Runs.{StepValue}
use kinby.Factory.File.{ValueType}
use kinby.Runs.Values.{value_type, same_type}
use kinby.Runs.Intake.{add_undeclared, undeclared, add_declared, check_declared, work_item_errors}

put-ne-nil : (name reason : String) (errors : Dict String String) → put name reason errors ≢ []
unfolding put
put-ne-nil name reason [] e = cc e
put-ne-nil name reason ((k, v) ∷ errors) e = elim (Bool-cases (k == name)) [
  | inl same ↦ cc (rw same at e)
  | inr ne ↦ cc (rw ne at e)
]

-- A value of the declared type, if any.
abbrev pub Fits : ValueType → Option StepValue → Type 0
Fits kind none = ⊥
Fits kind (some value) = same_type (value_type value) kind ≡ true

add_declared-nil :
    (name : String) (kind : ValueType) (value : Option StepValue) (errors : Dict String String)
    → add_declared name kind value errors ≡ []
    → Fits kind value × (errors ≡ [])
unfolding add_declared
add_declared-nil name kind none errors e = absurd (put-ne-nil name _ errors e)
add_declared-nil name kind (some value) errors e =
    elim (Bool-cases (same_type (value_type value) kind)) [
      | inl fits ↦ (fits, rw fits at e)
      | inr differs ↦ absurd (put-ne-nil name _ errors (rw differs at e))
    ]

first_or_later :
    (n : String) (k : ValueType) (declared : Dict String ValueType) (values : Dict String StepValue)
    → Fits k (get n values)
    → ((name : String) (kind : ValueType) → In (name, kind) declared → Fits kind (get name values))
    → (name : String) (kind : ValueType) → In (name, kind) ((n, k) ∷ declared)
    → Fits kind (get name values)
first_or_later n k declared values f g name kind here = f
first_or_later n k declared values f g name kind (there i) = g name kind i

check_declared-nil :
    (declared : Dict String ValueType) (values : Dict String StepValue)
    (errors : Dict String String)
    → check_declared declared values errors ≡ []
    → (errors ≡ [])
      × ((name : String) (kind : ValueType)
          → In (name, kind) declared
          → Fits kind (get name values))
unfolding check_declared
check_declared-nil [] values errors e = (e, λ name kind i. elim i [ ])
check_declared-nil ((n, k) ∷ declared) values errors e =
    let (later, fits) = check_declared-nil declared values _ e in
    let (fits_first, none_before) = add_declared-nil n k (get n values) errors later in
    (none_before, first_or_later n k declared values fits_first fits)

undeclared-nil :
    (declared : Dict String ValueType) (values : Dict String StepValue)
    → undeclared declared values ≡ []
    → (name : String) (value : StepValue) → In (name, value) values
    → get name declared ≢ none
unfolding undeclared add_undeclared
undeclared-nil declared [] e name value i missing = elim i [ ]
undeclared-nil declared ((n, v) ∷ values) e name value here missing = cc (rw missing at e)
undeclared-nil declared ((n, v) ∷ values) e name value (there i) missing =
    elim (Option-cases (get n declared)) [
      | inl gone ↦ cc (rw gone at e)
      | inr (kind, known) ↦ undeclared-nil declared values (rw known at e) name value i missing
    ]

-- A work item with which nothing is wrong has a value of the declared type for each name that the
-- factory declares, and no value by a name that it does not declare.
pub work_item_errors-nil :
    (declared : Dict String ValueType) (values : Dict String StepValue)
    → work_item_errors declared values ≡ []
    → ((name : String) (kind : ValueType) → In (name, kind) declared → Fits kind (get name values))
      × ((name : String) (value : StepValue) → In (name, value) values → get name declared ≢ none)
unfolding work_item_errors
work_item_errors-nil declared values e =
    let (known, fits) = check_declared-nil declared values (undeclared declared values) e in
    (fits, undeclared-nil declared values known)
