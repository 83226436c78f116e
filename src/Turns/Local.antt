-- ===== src/Turns/Local.antt =====
-- core/turns.py: what holds of a thread through its own moves, and that none of them takes on more.
use kinby.Turns.Parked.{event, parked_on-append, turn_origin-emit}
use kinby.Turns.Moves.{may_emit, claim_meets}
use kinby.Turns.Thread.{
  Origin, Thread, Claim, Payload, Starting, parked_origin, parked_on, not_routine, live_origin,
  Event, waking, parks, turn_origin, is_active, asked, RunningTurn, resuming, ClaimKind,
  running_origin, interrupting, reverting, claimed_origin,
}
use kinby.Common.{
  ℕ, Bool, true, false, Option, none, some, List, ◌∷◌, nat_eq, ◌≡◌, refl, sym, ap, ◌∙◌, ◌⊎◌, inl,
  inr, arith, Bool-cases, Option-cases,
}

abbrev pub is_turn_claim : ClaimKind → Bool
is_turn_claim (waking turn origin) = true
is_turn_claim (resuming turn origin) = true
is_turn_claim _ = false

abbrev pub claim_of : Starting → Claim
claim_of start = record { claim_id = start.claim_id; kind = waking start.turn_id start.origin }

pub record IsSound (t : Thread) : Type 0 where
  pub waits :
      (start : Starting)
      → t.starting ≡ some start
      → (t.claim ≡ some (claim_of start))
        × (parked_on t.events ≡ none)
        × (turn_origin t.events start.turn_id ≡ none)
  pub still : claim_meets is_turn_claim t.claim ≡ true → is_active t.running ≡ false
  pub known :
      (turn : RunningTurn)
      → t.running ≡ some turn
      → turn.done ≡ false
      → turn_origin t.events turn.turn_id ≡ some turn.origin
  pub resumed :
      (id turn : ℕ) (origin : Origin)
      → t.claim ≡ some (record { claim_id = id; kind = resuming turn origin })
      → turn_origin t.events turn ≡ some origin

-- The origins for which a thread holds the instance.
abbrev pub Works : Origin → Thread → Type 0
Works origin t =
    (live_origin t.claim t.running ≡ some origin)
    ⊎ (not_routine (parked_origin t.events) ≡ some origin)

abbrev pub Fewer : Thread → Thread → Type 0
Fewer later t = (origin : Origin) → Works origin later → Works origin t

pub parked_origin-emit :
    (id : ℕ) (payload : Payload) (events : List Event) (origin : Origin)
    → may_emit payload ≡ true
    → parks payload ≡ false
    → parked_origin (event id payload ∷ events) ≡ some origin
    → parked_origin events ≡ some origin
unfolding parked_origin
parked_origin-emit id payload events origin may e h =
    elim (Option-cases (parked_on (event id payload ∷ events))) [
      | inl free ↦ absurd (ground (arith, h, free))
      | inr (turn, parked) ↦
          rw (parked_on-append id payload events turn e parked)
            (sym (turn_origin-emit events id payload turn may) ∙ (rw parked at h))
    ]

pub parked_origin-asked :
    (id : ℕ) (events : List Event) → parked_origin (event id asked ∷ events) ≡ turn_origin events id
unfolding parked_origin
parked_origin-asked id events = turn_origin-emit events id asked id refl

pub parked_on-none :
    (id : ℕ) (payload : Payload) (events : List Event)
    → parks payload ≡ false
    → parked_on events ≡ none
    → parked_on (event id payload ∷ events) ≡ none
parked_on-none id payload events e free =
    elim (Option-cases (parked_on (event id payload ∷ events))) [
      | inl still ↦ still
      | inr (turn, parked) ↦
          absurd (ground (arith, free, parked_on-append id payload events turn e parked))
    ]

pub not_routine-some :
    (o : Option Origin) (origin : Origin) → not_routine o ≡ some origin → o ≡ some origin
not_routine-some none origin h = absurd (ground (arith, h))
not_routine-some (some a) origin h = ground (arith, h)

pub not_routine_mono :
    (a b : Option Origin)
    → ((origin : Origin) → a ≡ some origin → b ≡ some origin)
    → (origin : Origin) → not_routine a ≡ some origin
    → not_routine b ≡ some origin
not_routine_mono a b sub origin h =
    rw (sub origin (not_routine-some a origin h)) (rw (not_routine-some a origin h) at h)

-- A move of a thread that keeps what holds of it and takes on no more.
pub record Keeps (t later : Thread) : Type 0 where
  pub sound : IsSound later
  pub fewer : Fewer later t

pub same : {t : Thread} → IsSound t → Keeps t t
same s = record { sound = s; fewer = λ origin w. w }

pub after : {t u v : Thread} → Keeps t u → Keeps u v → Keeps t v
after k l = record { sound = l.sound; fewer = λ origin w. k.fewer origin (l.fewer origin w) }

pub inactive_none : (r : Option RunningTurn) → is_active r ≡ false → running_origin r ≡ none
inactive_none none e = refl
inactive_none (some turn) e = ground (arith, e)

-- A turn's claim leaves no turn running.
pub claimed_still :
    (t : Thread)
    → IsSound t
    → claim_meets is_turn_claim t.claim ≡ true
    → running_origin t.running ≡ none
claimed_still t s h = inactive_none t.running (s.still h)

pub waiting_claimed :
    (t : Thread) (start : Starting)
    → IsSound t
    → t.starting ≡ some start
    → claim_meets is_turn_claim t.claim ≡ true
waiting_claimed t start s h = ap (claim_meets is_turn_claim) ((s.waits start h).0)

pub live_free :
    (c : Option Claim) (r : Option RunningTurn)
    → claim_meets is_turn_claim c ≡ false
    → live_origin c r ≡ running_origin r
live_free none r h = refl
live_free (some claim) r h = free_kind claim.kind (running_origin r) h
  where
    free_kind :
        (kind : ClaimKind) (o : Option Origin)
        → is_turn_claim kind ≡ false
        → claimed_origin kind o ≡ o
    free_kind (waking turn origin) o e = absurd (ground (arith, e))
    free_kind (resuming turn origin) o e = absurd (ground (arith, e))
    free_kind interrupting o e = refl
    free_kind reverting o e = refl

-- A turn that runs is what its thread holds the instance for.
pub live_back :
    (t : Thread) (origin : Origin)
    → IsSound t
    → running_origin t.running ≡ some origin
    → live_origin t.claim t.running ≡ some origin
live_back t origin s runs = elim (Bool-cases (claim_meets is_turn_claim t.claim)) [
  | inl claimed ↦ absurd (ground (arith, claimed_still t s claimed, runs))
  | inr free ↦ live_free t.claim t.running free ∙ runs
]

pub live_cong :
    (c : Option Claim) (r r' : Option RunningTurn)
    → running_origin r ≡ running_origin r'
    → live_origin c r ≡ live_origin c r'
live_cong none r r' e = e
live_cong (some claim) r r' e = ap (claimed_origin claim.kind) e

pub live_stopped :
    (c : Option Claim) (r r' : Option RunningTurn) (origin : Origin)
    → running_origin r' ≡ none
    → live_origin c r' ≡ some origin
    → live_origin c r ≡ some origin
live_stopped none r r' origin e h = absurd (ground (arith, e, h))
live_stopped (some claim) r r' origin e h =
    stopped_kind claim.kind (running_origin r) (running_origin r') e h
  where
    stopped_kind :
        (kind : ClaimKind) (o o' : Option Origin)
        → o' ≡ none
        → claimed_origin kind o' ≡ some origin
        → claimed_origin kind o ≡ some origin
    stopped_kind (waking turn a) o o' e h = h
    stopped_kind (resuming turn a) o o' e h = h
    stopped_kind interrupting o o' e h = absurd (ground (arith, e, h))
    stopped_kind reverting o o' e h = absurd (ground (arith, e, h))
