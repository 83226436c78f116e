-- ===== src/Runs/Sessions/Like.antt =====
-- hub/runs.py, `_session`: steps of one instance and client, and the attempt that a session is of.
use kinby.Common.{
  String, Bool, true, Option, none, some, List, [], ◌∷◌, ◌==◌, string_eq, ◌≡◌, refl, sym, ap, ◌∙◌,
  inl, inr, In, here, there, arith, Bool-cases, Option-cases,
}
use kinby.Common.Keyed.{Dict, get}
use kinby.Contracts.Runs.{StepAttempt}
use kinby.Factory.File.{ClientDeclaration, Kind, client, Step}
use kinby.Factory.Check.Order.{HasUniqueIds}
use kinby.Runs.Sessions.{is_key, newest}
use kinby.Runs.Sessions.Links.{other_id, IsLike}
use text.Mathlib.TextEquality.{eq_iff}

pub unique_step :
    (steps : List Step) (s t : Step)
    → HasUniqueIds steps
    → In s steps
    → In t steps
    → s.id ≡ t.id
    → s ≡ t
unique_step [] s t u i j e = elim i [ ]
unique_step (_ ∷ steps) s _ (fresh, u) here here e = refl
unique_step (_ ∷ steps) s t (fresh, u) here (there j) e =
    absurd (ground (arith, other_id s.id t steps fresh j, eq_iff s.id t.id, e))
unique_step (x ∷ steps) s _ (fresh, u) (there i) here e =
    absurd (ground (arith, other_id x.id s steps fresh i, eq_iff x.id s.id, e))
unique_step (x ∷ steps) s t (fresh, u) (there i) (there j) e = unique_step steps s t u i j e

declared_of : Kind → Option ClientDeclaration
declared_of (client declared) = some declared
declared_of _ = none

client-inj : (a b : ClientDeclaration) → client a ≡ client b → a ≡ b
unfolding declared_of
client-inj a b e = some-inj (ap declared_of e)
  where
    some-inj : some a ≡ some b → a ≡ b
    some-inj h = ground (arith, h)

pub IsLike-self :
    (asked : ClientDeclaration) (step : Step) → step.kind ≡ client asked → IsLike asked step
IsLike-self asked step k = record {
  declared = asked;
  is_client = k;
  same_instance = refl;
  same_client = refl;
}

-- Two ways to the same step say the same of its client.
pub IsLike-meet :
    (a b : ClientDeclaration) (s t : Step) (l : IsLike a s) (k : IsLike b t)
    → s ≡ t
    → (a.instance_name ≡ b.instance_name) × (a.client ≡ b.client)
IsLike-meet a b s t l k e =
    let same =
      client-inj l.declared k.declared (sym l.is_client ∙ ap (λ x. x.kind) e ∙ k.is_client) in
    (
      sym l.same_instance ∙ ap (λ x. x.instance_name) same ∙ k.same_instance,
      sym l.same_client ∙ ap (λ x. x.client) same ∙ k.same_client,
    )

pub IsLike-by :
    (a b : ClientDeclaration) (f : Step)
    → (a.instance_name ≡ b.instance_name) × (a.client ≡ b.client)
    → IsLike b f
    → IsLike a f
IsLike-by a b f (i, c) l = record {
  declared = l.declared;
  is_client = l.is_client;
  same_instance = l.same_instance ∙ sym i;
  same_client = l.same_client ∙ sym c;
}

-- An attempt that recorded the session, by one of the steps that share it.
pub newest-In :
    (sharing : String → Bool) (attempts : List StepAttempt) (session : String)
    → newest sharing attempts ≡ some session
    → (attempt : StepAttempt) × In attempt attempts
      × (sharing attempt.step ≡ true)
      × (attempt.session ≡ some session)
unfolding newest
newest-In sharing [] session h = absurd (ground (arith, h))
newest-In sharing (attempt ∷ later) session h = elim (Option-cases (newest sharing later)) [
  | inr (found, e) ↦
      let (a, i, s, k) = newest-In sharing later session (ground (arith, h, e)) in
      (a, there i, s, k)
  | inl none_later ↦ elim (Bool-cases (sharing attempt.step)) [
    | inl own ↦ (attempt, here, own, ground (arith, h, none_later, own))
    | inr other ↦ absurd (ground (arith, h, none_later, other))
  ]
]

pub key-get :
    (id : String) (d : Dict String (Option String))
    → is_key id d ≡ true
    → (resumed : Option String) × (get id d ≡ some resumed)
unfolding get
key-get id [] h = absurd (ground (arith, h))
key-get id ((k, resumed) ∷ d) h = elim (Bool-cases (k == id)) [
  | inl same ↦ (resumed, rw same refl)
  | inr other ↦ rw other (key-get id d (ground (arith, h, other)))
]
