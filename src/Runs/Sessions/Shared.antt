-- ===== src/Runs/Sessions/Shared.antt =====
-- hub/runs.py, `_session`: its loop ends, and the session it finds is of the step's own client.
use kinby.Common.{
  ℕ, zero, suc, String, true, Option, none, some, List, [], ◌==◌, string_eq, ◌≡◌, refl, sym, ap,
  ◌∙◌, inl, inr, In, arith, Bool-cases, eq_of_beq,
}
use kinby.Common.Keyed.{Dict, get}
use kinby.Contracts.Runs.{StepAttempt}
use kinby.Factory.File.{ClientDeclaration, client, Step, FactoryFile}
use kinby.Factory.Check.{order}
use kinby.Factory.Check.Resumes.{resumes}
use kinby.Runs.Sessions.{
  resume_dict, resumed_by, first_from, first, rounds, is_key, is_sharing, session_of,
}
use kinby.Runs.Sessions.Like.{unique_step, IsLike-self, IsLike-meet, IsLike-by, newest-In, key-get}
use kinby.Runs.Sessions.Ends.{unique, asked_of, link}
use kinby.Runs.Sessions.Links.{In-Before, IsLike, resumed_before}
use mathlib.Core.Path.{subst}

module _ (factory : FactoryFile) (ok : order factory ≡ []) (fine : resumes factory ≡ []) where
  abbrev d : Dict String (Option String)
  d = resume_dict [] factory.steps

  -- A step like this one, at which the loop ends.
  record Lead (asked : ClientDeclaration) (last : String) : Type 0 where
    to : Step
    inside : In to factory.steps
    named : to.id ≡ last
    like : IsLike asked to

  followed :
      (fuel : ℕ) (step : Step) (asked : ClientDeclaration) (found : Option String)
      → In step factory.steps
      → step.kind ≡ client asked
      → resumed_by d step.id ≡ found
      → ((e : Step) (by : ClientDeclaration)
          → In e factory.steps
          → e.kind ≡ client by
          → Lead by (first fuel d e.id))
      → Lead asked (first_from (first fuel d) step.id found)
  followed fuel step asked none i k h ih = record {
    to = step;
    inside = i;
    named = refl;
    like = IsLike-self asked step k;
  }
  followed fuel step asked (some r) i k h ih =
      let l = link factory ok fine step.id r h in
      let on = ih l.to l.like.declared l.inside l.like.is_client in
      let own =
        IsLike-meet asked l.from.asked step l.from.step (IsLike-self asked step k)
          (IsLike-self l.from.asked l.from.step l.from.is_client)
          (unique_step factory.steps step l.from.step (unique factory ok fine) i l.from.inside
            (sym l.from.named)) in
      let next =
        IsLike-meet l.from.asked l.like.declared l.to l.to l.like
          (IsLike-self l.like.declared l.to l.like.is_client) refl in
      record {
        to = on.to;
        inside = on.inside;
        named = on.named ∙ ap (first fuel d) l.named;
        like =
            IsLike-by asked l.from.asked on.to own
              (IsLike-by l.from.asked l.like.declared on.to next on.like);
      }

  lead :
      (fuel : ℕ) (step : Step) (asked : ClientDeclaration)
      → In step factory.steps
      → step.kind ≡ client asked
      → Lead asked (first fuel d step.id)
  unfolding first
  lead zero step asked i k = record {
    to = step;
    inside = i;
    named = refl;
    like = IsLike-self asked step k;
  }
  lead (suc fuel) step asked i k =
      followed fuel step asked (resumed_by d step.id) i k refl (lead fuel)

  -- The step that a sharing id names, of the same instance and client as the one resumed.
  Recorded : ClientDeclaration → String → Type 0
  Recorded asked id = (step : Step) × In step factory.steps × (step.id ≡ id) × IsLike asked step

  shared_key :
      (e : Step) (by : ClientDeclaration) (other : String) (resumed : Option String)
      → In e factory.steps
      → e.kind ≡ client by
      → (first (rounds factory) d other == first (rounds factory) d e.id) ≡ true
      → get other d ≡ some resumed
      → Recorded by other
  unfolding Recorded
  shared_key e by other resumed i k same h =
      let t = asked_of factory ok fine other resumed h in
      let far = lead (rounds factory) t.step t.asked t.inside t.is_client in
      let near = lead (rounds factory) e by i k in
      let met =
        unique_step factory.steps near.to far.to (unique factory ok fine) near.inside far.inside (
          near.named
          ∙ sym (eq_of_beq _ _ same)
          ∙ sym (ap (first (rounds factory) d) t.named)
          ∙ sym far.named) in
      (
        t.step,
        t.inside,
        t.named,
        IsLike-by by t.asked t.step (IsLike-meet by t.asked near.to far.to near.like far.like met)
            (IsLike-self t.asked t.step t.is_client),
      )

  sharing-Recorded :
      (e : Step) (by : ClientDeclaration) (other : String)
      → In e factory.steps
      → e.kind ≡ client by
      → is_sharing (rounds factory) d e.id other ≡ true
      → Recorded by other
  unfolding Recorded
  sharing-Recorded e by other i k h = elim (Bool-cases (other == e.id)) [
    | inl own ↦ (e, i, sym (eq_of_beq other e.id own), IsLike-self by e k)
    | inr far ↦ elim (Bool-cases (is_key other d)) [
      | inl key ↦
          let (resumed, there_) = key-get other d key in
          shared_key e by other resumed i k (ground (arith, h, far, key)) there_
      | inr no_key ↦ absurd (ground (arith, h, far, no_key))
    ]
  ]

  -- In a factory whose step order and resumes the factory check passes, the session with which a
  -- client step goes on, when the hub finds one, was recorded by an attempt of a client step of the
  -- same instance and the same client.
  pub session_of-IsLike :
      (attempts : List StepAttempt) (step : Step) (asked : ClientDeclaration)
      (resume session : String)
      → In step factory.steps
      → step.kind ≡ client asked
      → asked.resume ≡ some resume
      → session_of attempts factory resume ≡ some session
      → (attempt : StepAttempt) × In attempt attempts
        × (attempt.session ≡ some session)
        × ((recorded : Step) × In recorded factory.steps
            × (recorded.id ≡ attempt.step)
            × IsLike asked recorded)
  unfolding session_of resumes Recorded
  session_of-IsLike attempts step asked resume session i k r h =
      let (e, where_, named, like) = resumed_before [] factory.steps step asked resume fine i k r in
      let (attempt, j, sharing, found) =
        newest-In (is_sharing (rounds factory) d resume) attempts session h in
      elim where_ [
        | inl never ↦ elim never [ ]
        | inr before ↦
            let (recorded, there_, at, same) =
              sharing-Recorded e like.declared attempt.step (In-Before e step factory.steps before)
                like.is_client
                (subst (λ id. is_sharing (rounds factory) d id attempt.step ≡ true) (sym named)
                  sharing) in
            (
              attempt,
              j,
              found,
              (
                recorded,
                there_,
                at,
                IsLike-by asked like.declared recorded
                    (IsLike-meet asked like.declared e e like
                      (IsLike-self like.declared e like.is_client) refl)
                    same,
              ),
            )
      ]
