-- ===== src/Runs/Sessions/Ends.antt =====
-- hub/runs.py, `_session`: the loop that follows the resumes ends.
use kinby.Common.{
  ℕ, zero, suc, ◌<◌, ◌≤◌, String, Option, none, some, List, [], ◌∷◌, string_eq, ◌≡◌, refl, ap, inl,
  inr, In, arith, length,
}
use kinby.Common.Keyed.{Dict, get}
use kinby.Factory.File.{Step, FactoryFile}
use kinby.Factory.Check.{order}
use kinby.Factory.Check.Order.{HasUniqueIds, order-HasUniqueIds}
use kinby.Factory.Check.Resumes.{resumes}
use kinby.Runs.Sessions.{resume_dict, flat, resumed_by, first_from, first, rounds}
use kinby.Runs.Sessions.Links.{
  In-Before, place, place-lt-place, IsLike, resumed_before, Resumes, resume_dict-Resumes,
}
use mathlib.Core.Path.{subst}

flat-some :
    (found : Option (Option String)) (r : String) → flat found ≡ some r → found ≡ some (some r)
flat-some none r h = absurd (ground (arith, h))
flat-some (some resumed) r h = ap (λ o. some o) h

place-le-length : (id : String) (steps : List Step) → place id steps ≤ length steps
place-le-length id [] = omega arith
place-le-length id (step ∷ steps) = ground (arith, place-le-length id steps)

-- Where a resume leads: an earlier step like the one that resumes.
pub record Link (steps : List Step) (id resume : String) : Type 0 where
  pub from : Resumes steps id (some resume)
  pub to : Step
  pub inside : In to steps
  pub named : to.id ≡ resume
  pub like : IsLike from.asked to
  pub lower : place resume steps < place id steps

module _ (factory : FactoryFile) (ok : order factory ≡ []) (fine : resumes factory ≡ []) where
  abbrev d : Dict String (Option String)
  d = resume_dict [] factory.steps

  pub unique : HasUniqueIds factory.steps
  unique = order-HasUniqueIds factory ok

  pub asked_of :
      (id : String) (resumed : Option String)
      → get id d ≡ some resumed
      → Resumes factory.steps id resumed
  unfolding get
  asked_of id resumed h = elim (resume_dict-Resumes [] factory.steps id resumed h) [
    | inl found ↦ found
    | inr never ↦ absurd (ground (arith, never))
  ]

  pub link : (id resume : String) → resumed_by d id ≡ some resume → Link factory.steps id resume
  unfolding resumed_by resumes
  link id resume h =
      let from = asked_of id (some resume) (flat-some (get id d) resume h) in
      let (e, where_, named, like) =
        resumed_before [] factory.steps from.step from.asked resume fine from.inside from.is_client
          from.resumes in
      elim where_ [
        | inl never ↦ elim never [ ]
        | inr before ↦ record {
          from = from;
          to = e;
          inside = In-Before e from.step factory.steps before;
          named = named;
          like = like;
          lower =
              subst (λ r. place r factory.steps < place id factory.steps) named
                (subst (λ i. place e.id factory.steps < place i factory.steps) from.named
                  (place-lt-place e from.step factory.steps unique before));
        }
      ]

  ends_from :
      (fuel : ℕ) (id : String) (found : Option String)
      → resumed_by d id ≡ found
      → place id factory.steps < suc fuel
      → ((r : String) → place r factory.steps < fuel → resumed_by d (first fuel d r) ≡ none)
      → resumed_by d (first_from (first fuel d) id found) ≡ none
  ends_from fuel id none h low ih = h
  ends_from fuel id (some r) h low ih = ih r (omega (arith, (link id r h).lower, low))

  ends_within :
      (fuel : ℕ) (id : String)
      → place id factory.steps < fuel
      → resumed_by d (first fuel d id) ≡ none
  unfolding first
  ends_within zero id low = absurd (omega (arith, low))
  ends_within (suc fuel) id low = ends_from fuel id (resumed_by d id) refl low (ends_within fuel)

  -- In a factory whose step order and resumes the factory check passes, the loop that looks for the
  -- step whose session a step shares ends: from any step id, as many rounds as the factory has
  -- steps, and one more, reach a step that resumes none.
  pub first-ends :
      (id : String)
      → resumed_by
          (resume_dict [] factory.steps)
          (first (rounds factory) (resume_dict [] factory.steps) id)
        ≡ none
  first-ends id = ends_within (rounds factory) id (omega (arith, place-le-length id factory.steps))
