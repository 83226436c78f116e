-- ===== src/Factory/Check.antt =====
-- factories/check.py, `_order`: step ids are unique, work is only ever sent back to an earlier
-- step, and a step whose failures are sent back declares no retry.
pub mod Order
pub mod Edges
pub mod Placed
pub mod Inputs
pub mod Resumes
use kinby.Common.{
  ℕ, String, Bool, true, false, ◌≡◌, Option, none, some, List, [], ◌∷◌, ◌++◌, ◌==◌, string_eq,
  if◌then◌else◌, any,
}
use kinby.Common.Keyed.{Dict}
use kinby.Common.Text.{text}
use kinby.Factory.File.{SendBack, Outcome, send_back, Step, FactoryFile}

abbrev pub has_id : String → List String → Bool
has_id id ids = any (λ i. i == id) ids

back_edges : Dict String Outcome → List SendBack
back_edges [] = []
back_edges ((name, send_back edge) ∷ outcomes) = edge ∷ back_edges outcomes
back_edges ((name, _) ∷ outcomes) = back_edges outcomes

abbrev optional_edge : Option SendBack → List SendBack
optional_edge none = []
optional_edge (some edge) = edge ∷ []

-- The edges along which a step sends work back: its outcomes', then its failures'.
unfoldable pub edges_of : Step → List SendBack
unfolding back_edges
edges_of step = back_edges step.outcomes ++ optional_edge step.failed

repeated_id : List String → Step → List String
repeated_id earlier step =
    if has_id step.id earlier
    then text ("Step id \"" ∷ step.id ∷ "\" is used by more than one step." ∷ []) ∷ []
    else []

pub late_edges : List String → Step → List SendBack → List String
late_edges earlier step [] = []
late_edges earlier step (edge ∷ edges) =
    let rest = late_edges earlier step edges in
    if has_id edge.back earlier
    then rest
    else text (
        "Step \"" ∷ step.id ∷ "\" sends work back to \"" ∷ edge.back
        ∷ "\", which is not an earlier step." ∷ [])
      ∷ rest

pub retry_and_failed : Step → Option SendBack → Option ℕ → List String
retry_and_failed step (some edge) (some n) =
    text (
      "Step \"" ∷ step.id ∷ "\" declares both retry and failed, but a failed attempt is sent "
      ∷ "back, never tried again." ∷ [])
    ∷ []
retry_and_failed step _ _ = []

pub order_from : List String → List Step → List String
unfolding repeated_id late_edges retry_and_failed
order_from earlier [] = []
order_from earlier (step ∷ steps) =
    repeated_id earlier step
    ++ (late_edges earlier step (edges_of step)
        ++ (retry_and_failed step step.failed step.retry ++ order_from (step.id ∷ earlier) steps))

-- `_order`: the problems found.
unfoldable pub order : FactoryFile → List String
unfolding order_from
order factory = order_from [] factory.steps
