-- ===== src/Runs/Sessions/Links.antt =====
-- hub/runs.py, `_session`: each resume of a factory that the check passes leads to an earlier step of
-- the same instance and client.
use text.Mathlib.TextEquality.{eq_iff}
use mathlib.Core.Path.{subst}
use kinby.Common.{
  ℕ, suc, ◌<◌, String, true, false, Option, some, List, [], ◌∷◌, ◌==◌, string_eq, ◌≡◌, refl, ◌⊎◌,
  inl, inr, any, In, here, there, arith, Bool-cases, eq_of_beq, if◌then◌else◌, both,
}
use kinby.Common.Keyed.{Dict, get, get-put}
use kinby.Factory.File.{ClientDeclaration, Kind, agent, client, command, code, wait, approve, Step}
use kinby.Factory.Check.Order.{holds_id, HasUniqueIds, append-eq-nil}
use kinby.Factory.Check.Resumes.{
  kind_continues, continues, resumes_step, resumes_kind, resumes_from,
}
use kinby.Runs.Sessions.{put_kind, resume_dict}

-- Two members of a list, the first before the second.
pub data Before (e s : Step) : List Step → Type 0 where
  now : {steps : List Step} → In s steps → Before e s (e ∷ steps)
  after : {x : Step} {steps : List Step} → Before e s steps → Before e s (x ∷ steps)

pub In-Before : (e s : Step) (steps : List Step) → Before e s steps → In e steps
In-Before e s [] b = elim b [ ]
In-Before e s (x ∷ steps) (now i) = here
In-Before e s (x ∷ steps) (after b) = there (In-Before e s steps b)

Before-last : (e s : Step) (steps : List Step) → Before e s steps → In s steps
Before-last e s [] b = elim b [ ]
Before-last e s (x ∷ steps) (now i) = there i
Before-last e s (x ∷ steps) (after b) = there (Before-last e s steps b)

-- The place of the first step of an id.
abbrev pub place : String → List Step → ℕ
place id [] = 0
place id (step ∷ steps) = if step.id == id then 0 else suc (place id steps)

pub other_id :
    (id : String) (s : Step) (steps : List Step)
    → holds_id id steps ≡ false
    → In s steps
    → (id == s.id) ≡ false
other_id id s [] h i = elim i [ ]
other_id id s (_ ∷ steps) h here = ground (arith, h, eq_iff s.id id, eq_iff id s.id)
other_id id s (x ∷ steps) h (there i) = other_id id s steps (ground (arith, h)) i

-- With unique ids, what stands before has the lower place.
pub place-lt-place :
    (e s : Step) (steps : List Step)
    → HasUniqueIds steps
    → Before e s steps
    → place e.id steps < place s.id steps
place-lt-place e s [] u b = elim b [ ]
place-lt-place e s (_ ∷ steps) (fresh, u) (now i) =
    ground (arith, eq_iff e.id e.id, other_id e.id s steps fresh i)
place-lt-place e s (x ∷ steps) (fresh, u) (after b) = ground (
  arith,
  place-lt-place e s steps u b,
  other_id x.id s steps fresh (Before-last e s steps b),
  other_id x.id e steps fresh (In-Before e s steps b),
)

-- A step of the same instance and client, by which another goes on with a session.
pub record IsLike (asked : ClientDeclaration) (step : Step) : Type 0 where
  pub declared : ClientDeclaration
  pub is_client : step.kind ≡ client declared
  pub same_instance : declared.instance_name ≡ asked.instance_name
  pub same_client : declared.client ≡ asked.client

kind-IsLike :
    (asked : ClientDeclaration) (step : Step) (kind : Kind)
    → step.kind ≡ kind
    → kind_continues asked kind ≡ true
    → IsLike asked step
kind-IsLike asked step (client declared) e h =
    let (i, c) = both _ _ h in
    record {
      declared = declared;
      is_client = e;
      same_instance = eq_of_beq _ _ i;
      same_client = eq_of_beq _ _ c;
    }
kind-IsLike asked step (agent a b c) e h = absurd (ground (arith, h))
kind-IsLike asked step (command a b c d) e h = absurd (ground (arith, h))
kind-IsLike asked step (code a b) e h = absurd (ground (arith, h))
kind-IsLike asked step (wait a b c) e h = absurd (ground (arith, h))
kind-IsLike asked step (approve a) e h = absurd (ground (arith, h))

find_continuing :
    (asked : ClientDeclaration) (resume : String) (earlier : List Step)
    → any (continues asked resume) earlier ≡ true
    → (e : Step) × In e earlier × (e.id ≡ resume) × IsLike asked e
find_continuing asked resume [] h = absurd (ground (arith, h))
find_continuing asked resume (e ∷ earlier) h = elim (Bool-cases (continues asked resume e)) [
  | inl found ↦
      let (named, like) = both _ _ found in
      (e, here, eq_of_beq _ _ named, kind-IsLike asked e e.kind refl like)
  | inr other ↦
      let (e', i, named, like) = find_continuing asked resume earlier (ground (arith, h, other)) in
      (e', there i, named, like)
]

continuing_there :
    (earlier : List Step) (step : Step) (asked : ClientDeclaration) (resume : String)
    → resumes_step earlier step asked (some resume) ≡ []
    → any (continues asked resume) earlier ≡ true
continuing_there earlier step asked resume h =
    elim (Bool-cases (any (continues asked resume) earlier)) [
      | inl found ↦ found
      | inr nothing ↦ absurd (ground (arith, h, nothing))
    ]

passes_resume :
    (earlier : List Step) (step : Step) (asked : ClientDeclaration) (resume : String)
    → step.kind ≡ client asked
    → asked.resume ≡ some resume
    → resumes_kind earlier step step.kind ≡ []
    → any (continues asked resume) earlier ≡ true
passes_resume earlier step asked resume k r h = continuing_there earlier step asked resume (
    subst (λ o. resumes_step earlier step asked o ≡ []) r
      (subst (λ kind. resumes_kind earlier step kind ≡ []) k h))

-- What a client step resumes, the check found among the steps before it.
pub resumed_before :
    (earlier steps : List Step) (step : Step) (asked : ClientDeclaration) (resume : String)
    → resumes_from earlier steps ≡ []
    → In step steps
    → step.kind ≡ client asked
    → asked.resume ≡ some resume
    → (e : Step) × (In e earlier ⊎ Before e step steps) × (e.id ≡ resume) × IsLike asked e
unfolding resumes_from
resumed_before earlier [] step asked resume h i k r = elim i [ ]
resumed_before earlier (_ ∷ steps) step asked resume h here k r =
    let (own, _) = append-eq-nil (resumes_kind earlier step step.kind) _ h in
    let (e, i, named, like) =
      find_continuing asked resume earlier (passes_resume earlier step asked resume k r own) in
    (e, inl i, named, like)
resumed_before earlier (x ∷ steps) step asked resume h (there i) k r =
    let (_, later) = append-eq-nil (resumes_kind earlier x x.kind) _ h in
    let (e, place_, named, like) =
      resumed_before (x ∷ earlier) steps step asked resume later i k r in
    (e, among e place_, named, like)
  where
    among :
        (e : Step)
        → In e (x ∷ earlier) ⊎ Before e step steps
        → In e earlier ⊎ Before e step (x ∷ steps)
    among e (inl here) = inr (now i)
    among e (inl (there j)) = inl j
    among e (inr b) = inr (after b)

-- Where a resume that `resumes.get` gives comes from.
pub record Resumes (steps : List Step) (id : String) (resumed : Option String) : Type 0 where
  pub step : Step
  pub asked : ClientDeclaration
  pub inside : In step steps
  pub named : step.id ≡ id
  pub is_client : step.kind ≡ client asked
  pub resumes : asked.resume ≡ resumed

later-Resumes :
    (x : Step) (steps : List Step) (id : String) (resumed : Option String)
    → Resumes steps id resumed
    → Resumes (x ∷ steps) id resumed
later-Resumes x steps id resumed r = record {
  step = r.step;
  asked = r.asked;
  inside = there r.inside;
  named = r.named;
  is_client = r.is_client;
  resumes = r.resumes;
}

put_kind-Resumes :
    (steps : List Step) (x : Step) (kind : Kind) (d : Dict String (Option String)) (id : String)
    (resumed : Option String)
    → x.kind ≡ kind
    → get id (put_kind x.id kind d) ≡ some resumed
    → Resumes (x ∷ steps) id resumed ⊎ (get id d ≡ some resumed)
put_kind-Resumes steps x (client declared) d id resumed k h = elim (Bool-cases (x.id == id)) [
  | inl same ↦ inl (record {
    step = x;
    asked = declared;
    inside = here;
    named = eq_of_beq x.id id same;
    is_client = k;
    resumes = ground (arith, h, get-put x.id id declared.resume d, same);
  })
  | inr other ↦ inr (ground (arith, h, get-put x.id id declared.resume d, other))
]
put_kind-Resumes steps x (agent a b c) d id resumed k h = inr h
put_kind-Resumes steps x (command a b c e) d id resumed k h = inr h
put_kind-Resumes steps x (code a b) d id resumed k h = inr h
put_kind-Resumes steps x (wait a b c) d id resumed k h = inr h
put_kind-Resumes steps x (approve a) d id resumed k h = inr h

pub resume_dict-Resumes :
    (d : Dict String (Option String)) (steps : List Step) (id : String) (resumed : Option String)
    → get id (resume_dict d steps) ≡ some resumed
    → Resumes steps id resumed ⊎ (get id d ≡ some resumed)
unfolding resume_dict
resume_dict-Resumes d [] id resumed h = inr h
resume_dict-Resumes d (x ∷ steps) id resumed h =
    elim (resume_dict-Resumes (put_kind x.id x.kind d) steps id resumed h) [
      | inl later ↦ inl (later-Resumes x steps id resumed later)
      | inr before ↦ put_kind-Resumes steps x x.kind d id resumed refl before
    ]
