-- ===== src/Factory/Check/Edges.antt =====
-- The edges of a step hold each edge that an outcome of it or its failures take.
use kinby.Common.{
  String, ◌≡◌, some, List, [], ◌∷◌, ◌++◌, ◌==◌, string_eq, In, here, there, Bool-cases, inl, inr,
  arith,
}
use kinby.Common.Keyed.{Dict, get}
use kinby.Factory.File.{SendBack, Outcome, send_back, Step}
use kinby.Factory.Check.{edges_of, back_edges}

In-append-left {ℓ} : {A : Type ℓ} (a : A) (xs ys : List A) → In a xs → In a (xs ++ ys)
In-append-left a [] ys i = elim i [ ]
In-append-left a (_ ∷ xs) ys here = here
In-append-left a (x ∷ xs) ys (there i) = there (In-append-left a xs ys i)

In-append-right {ℓ} : {A : Type ℓ} (a : A) (xs ys : List A) → In a ys → In a (xs ++ ys)
In-append-right a [] ys i = i
In-append-right a (x ∷ xs) ys i = there (In-append-right a xs ys i)

In-of_eq {ℓ} : {A : Type ℓ} (a b : A) (xs : List A) → b ≡ a → In a (b ∷ xs)
In-of_eq a b xs e = rw e here

In-back_edges :
    (name : String) (outcomes : Dict String Outcome) (edge : SendBack)
    → get name outcomes ≡ some (send_back edge)
    → In edge (back_edges outcomes)
unfolding get back_edges
In-back_edges name [] edge h = cc
In-back_edges name ((k, send_back e) ∷ outcomes) edge h = elim (Bool-cases (k == name)) [
  | inl same ↦ In-of_eq edge e _ (ground arith)
  | inr other ↦ there (In-back_edges name outcomes edge (rw (other, get) at h))
]
In-back_edges name ((k, o) ∷ outcomes) edge h = elim (Bool-cases (k == name)) [
  | inl same ↦ absurd (ground arith)
  | inr other ↦ In-back_edges name outcomes edge (rw (other, get) at h)
]

pub In-edges_of-outcome :
    (step : Step) (name : String) (edge : SendBack)
    → get name step.outcomes ≡ some (send_back edge)
    → In edge (edges_of step)
unfolding edges_of
In-edges_of-outcome step name edge h =
    In-append-left edge _ _ (In-back_edges name step.outcomes edge h)

pub In-edges_of-failed :
    (step : Step) (edge : SendBack) → step.failed ≡ some edge → In edge (edges_of step)
unfolding edges_of
In-edges_of-failed step edge h = In-append-right edge (back_edges step.outcomes) _ (rw h here)
