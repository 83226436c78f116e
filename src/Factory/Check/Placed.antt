-- ===== src/Factory/Check/Placed.antt =====
-- What `_order` of factories/check.py leaves of each step where it finds nothing wrong.
use kinby.Common.{
  ℕ, refl, sym, ◌∙◌, String, Bool, true, false, ◌≡◌, ◌&&◌, ◌||◌, Option, none, some, List, [], ◌∷◌,
  ◌++◌, arith, string_eq, all,
}
use mathlib.Core.Path.{subst}
use kinby.Factory.File.{SendBack, Step, FactoryFile}
use kinby.Factory.Check.{has_id, edges_of, late_edges, retry_and_failed, order_from, order}
use kinby.Factory.Check.Order.{holds_id, Passed, passed}

-- Whether the failures of the step are both sent back and retried.
abbrev is_declared {ℓ} : {A : Type ℓ} → Option A → Bool
is_declared none = false
is_declared (some _) = true

abbrev pub sends_and_retries : Step → Bool
sends_and_retries step = is_declared step.failed && is_declared step.retry

-- Every edge of the step goes back to one of these steps.
abbrev pub goes_back : List Step → Step → Bool
goes_back before step = all (λ edge. holds_id edge.back before) (edges_of step)

-- The ids seen once these steps are behind as well.
seen : List String → List Step → List String
seen earlier [] = earlier
seen earlier (step ∷ before) = seen (step.id ∷ earlier) before

has_id-seen :
    (id : String) (earlier : List String) (before : List Step)
    → has_id id (seen earlier before) ≡ (has_id id earlier || holds_id id before)
unfolding seen
has_id-seen id earlier [] = ground arith
has_id-seen id earlier (step ∷ before) = ground (arith, has_id-seen id (step.id ∷ earlier) before)

late_edges-nil :
    (earlier : List String) (before : List Step) (step : Step) (edges : List SendBack)
    → late_edges (seen earlier before) step edges ≡ []
    → all (λ edge. has_id edge.back (seen earlier before)) edges ≡ true
unfolding late_edges
late_edges-nil earlier before step [] h = refl
late_edges-nil earlier before step (edge ∷ edges) h =
    ground (arith, h, late_edges-nil earlier before step edges)

one_of_both :
    (step : Step) (failed : Option SendBack) (retry : Option ℕ)
    → retry_and_failed step failed retry ≡ []
    → (is_declared failed && is_declared retry) ≡ false
unfolding retry_and_failed
one_of_both step none retry h = refl
one_of_both step (some edge) none h = refl
one_of_both step (some edge) (some n) h = cc

-- What the ids seen hold, all at once.
all-seen :
    (before : List Step) (edges : List SendBack)
    → all (λ edge. has_id edge.back (seen [] before)) edges
      ≡ all (λ edge. holds_id edge.back before) edges
all-seen before [] = refl
all-seen before (edge ∷ edges) =
    ground (arith, has_id-seen edge.back [] before, all-seen before edges)

order_from-split :
    (earlier : List String) (before after : List Step) (step : Step)
    → order_from earlier (before ++ step ∷ after) ≡ []
    → Passed (seen earlier before) step after
unfolding seen
order_from-split earlier [] after step h = passed earlier step after h
order_from-split earlier (s ∷ before) after step h =
    order_from-split (s.id ∷ earlier) before after step
      (passed earlier s (before ++ step ∷ after) h).later

-- Where the factory check finds nothing wrong with the order of the steps, no step has the id of
-- one before it, every outcome or failure of it that sends work back sends it to a step before it,
-- and it does not declare both a retry and where its failures are sent back.
pub order-nil :
    (factory : FactoryFile) (before after : List Step) (step : Step)
    → order factory ≡ []
    → factory.steps ≡ before ++ step ∷ after
    → (holds_id step.id before ≡ false)
      × (goes_back before step ≡ true)
      × (sends_and_retries step ≡ false)
unfolding order
order-nil factory before after step h e =
    let p = order_from-split [] before after step (subst (λ steps. order_from [] steps ≡ []) e h) in
    (
      sym (has_id-seen step.id [] before) ∙ p.fresh,
      sym (all-seen before (edges_of step)) ∙ late_edges-nil [] before step (edges_of step) p.back,
      one_of_both step step.failed step.retry p.single,
    )
