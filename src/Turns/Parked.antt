-- ===== src/Turns/Parked.antt =====
-- core/threads.py, parked_on: what an event that is appended leaves parked.
use kinby.Turns.Moves.{may_emit}
use kinby.Turns.Thread.{
  Event, Payload, turn_origin, parked_on, parks, is_in, Origin, asked, started, parked_before,
  closed, notified, worked, notifies, origin_in,
}
use kinby.Common.{
  ℕ, true, false, none, some, List, [], ◌∷◌, nat_eq, ◌≡◌, refl, inl, inr, if◌then◌else◌, arith,
  Bool-cases, Option-cases, beq_refl,
}

abbrev pub event : ℕ → Payload → Event
event turn_id payload = record { turn_id = turn_id; payload = payload }

abbrev went_on : Event → List ℕ → List ℕ
went_on event later = if notifies event.payload then later else event.turn_id ∷ later

went_on-sub :
    (event : Event) (later more : List ℕ) (id : ℕ)
    → (is_in id later ≡ true → is_in id more ≡ true)
    → is_in id (went_on event later) ≡ true
    → is_in id (went_on event more) ≡ true
went_on-sub event later more id sub h = elim (Bool-cases (notifies event.payload)) [
  | inl quiet ↦ rw quiet (sub (rw quiet at h))
  | inr loud ↦ ground (arith, loud, h, sub)
]

-- A turn that is parked after more turns went on was parked before.
parked_before-fewer :
    (later more : List ℕ) (events : List Event) (turn : ℕ)
    → ((id : ℕ) → is_in id later ≡ true → is_in id more ≡ true)
    → parked_before more events ≡ some turn
    → parked_before later events ≡ some turn
parked_before-fewer later more [] turn sub e = e
parked_before-fewer later more (event ∷ events) turn sub e =
    elim (Bool-cases (parks event.payload)) [
      | inl asks ↦ elim (Bool-cases (is_in event.turn_id later)) [
        | inl known ↦ absurd (ground (arith, e, asks, known, sub event.turn_id))
        | inr unknown ↦ ground (arith, e, asks, unknown)
      ]
      | inr other ↦ rw other (
          parked_before-fewer (went_on event later) (went_on event more) events turn
            (λ id. went_on-sub event later more id (sub id)) (rw other at e))
    ]

-- An event that parks nothing leaves parked at most what was.
pub parked_on-append :
    (turn_id : ℕ) (payload : Payload) (events : List Event) (turn : ℕ)
    → parks payload ≡ false
    → parked_on (event turn_id payload ∷ events) ≡ some turn
    → parked_on events ≡ some turn
unfolding parked_on
parked_on-append turn_id payload events turn e h =
    parked_before-fewer [] (went_on (event turn_id payload) []) events turn
      (λ id k. absurd (ground (arith, k))) (ground (arith, e, h))

pub parked_on-asked :
    (turn_id : ℕ) (events : List Event) → parked_on (event turn_id asked ∷ events) ≡ some turn_id
unfolding parked_on
parked_on-asked turn_id events = refl

-- A turn's origin stays what it was.
pub turn_origin-append :
    (events : List Event) (e : Event) (turn : ℕ) (origin : Origin)
    → turn_origin events turn ≡ some origin
    → turn_origin (e ∷ events) turn ≡ some origin
unfolding turn_origin
turn_origin-append events e turn origin h = rw h refl

silent :
    (turn id : ℕ) (payload : Payload) → may_emit payload ≡ true → origin_in turn id payload ≡ none
silent turn id (started origin) e = absurd (ground (arith, e))
silent turn id asked e = refl
silent turn id closed e = refl
silent turn id notified e = refl
silent turn id worked e = refl

-- Only a start gives a turn an origin.
pub turn_origin-emit :
    (events : List Event) (turn_id : ℕ) (payload : Payload) (turn : ℕ)
    → may_emit payload ≡ true
    → turn_origin (event turn_id payload ∷ events) turn ≡ turn_origin events turn
unfolding turn_origin
turn_origin-emit events turn_id payload turn e = elim (Option-cases (turn_origin events turn)) [
  | inl unknown ↦ rw unknown (silent turn turn_id payload e)
  | inr (origin, known) ↦ rw known refl
]

pub turn_origin-start :
    (events : List Event) (turn : ℕ) (origin : Origin)
    → turn_origin events turn ≡ none
    → turn_origin (event turn (started origin) ∷ events) turn ≡ some origin
unfolding turn_origin
turn_origin-start events turn origin h = rw h (rw (beq_refl turn) refl)
