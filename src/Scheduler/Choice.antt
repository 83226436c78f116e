-- ===== src/Scheduler/Choice.antt =====
-- core/scheduler.py: what a pass fires comes first.
use kinby.Common.{
  ℕ, ◌<◌, In, here, there, ◌⊎◌, beq_refl, string_eq, ◌≤◌, String, true, false, ◌≡◌, ◌≢◌, refl, ap,
  ◌∙◌, Option, none, some, List, [], ◌∷◌, if◌then◌else◌, all, leb, arith, inl, inr, Bool-cases,
}
use kinby.Common.Keyed.{Dict, get, put, get-put}
use kinby.Routines.{History, Pending}
use kinby.Scheduler.Files.{Routine}
use kinby.Scheduler.Tick.{
  ArmedRoutine, Due, Firing, idle, starts, fires, least, waiting, due, pick, choose, Trigger,
  Ending, accepted, busy, unpaid, schedule_of, armed_after, rearm_fired,
}

-- None of an empty list, or a member of it that no other one is below.
abbrev pub IsLeast {ℓ} : {A : Type ℓ} → (A → ℕ) → List A → Option A → Type ℓ
IsLeast f xs none = xs ≡ []
IsLeast f xs (some y) = In y xs × (all (λ x. leb (f y) (f x)) xs ≡ true)

all-above {ℓ} :
    {A : Type ℓ} (f : A → ℕ) (m n : ℕ) (xs : List A)
    → n ≤ m
    → all (λ x. leb m (f x)) xs ≡ true
    → all (λ x. leb n (f x)) xs ≡ true
all-above f m n [] le h = refl
all-above f m n (x ∷ xs) le h = ground (arith, all-above f m n xs le)

keep_least {ℓ} : {A : Type ℓ} → (A → ℕ) → A → Option A → Option A
keep_least f x none = some x
keep_least f x (some y) = if leb (f x) (f y) then some x else some y

IsLeast-cons {ℓ} :
    {A : Type ℓ} (f : A → ℕ) (x : A) (xs : List A) (o : Option A)
    → IsLeast f xs o
    → IsLeast f (x ∷ xs) (keep_least f x o)
unfolding keep_least
IsLeast-cons f x [] none h = (here, ground arith)
IsLeast-cons f x (y ∷ xs) none h = absurd (ground (arith, h))
IsLeast-cons f x xs (some y) h = elim (Bool-cases (leb (f x) (f y))) [
  | inl below ↦ rw (below) (here, ground (arith, all-above f (f y) (f x) xs, h.1))
  | inr above ↦ rw (above) (there (h.0), ground (arith, h.1))
]

IsLeast-least {ℓ} : {A : Type ℓ} (f : A → ℕ) (xs : List A) → IsLeast f xs (least f xs)
unfolding least keep_least
IsLeast-least f [] = refl
IsLeast-least f (x ∷ xs) = IsLeast-cons f x xs (least f xs) (IsLeast-least f xs)

abbrev receipt_order_of : Pending → ℕ
receipt_order_of item = item.receipt_order

abbrev time_of : Due → ℕ
time_of d = d.armed.time

-- No delivery waits, or the one received first arrived after this time.
abbrev AreLater : ℕ → List Pending → Type 0
AreLater time items =
    (items ≡ [])
    ⊎ ((item : Pending) × IsLeast receipt_order_of items (some item)
        × (time < item.arrival.received_at))

-- What a pass that can fire these deliveries and routines has to fire: nothing where there is
-- none; otherwise the delivery received first, unless a routine was due before it arrived; or
-- the routine that was due first, unless that delivery arrived by its time.
abbrev pub IsFirst : List Pending → List Due → Firing → Type 0
IsFirst items dues idle = (items ≡ []) × (dues ≡ [])
IsFirst items dues (starts item stage) =
    IsLeast receipt_order_of items (some item)
    × (all (λ d. leb item.arrival.received_at (time_of d)) dues ≡ true)
IsFirst items dues (fires d trigger) = IsLeast time_of dues (some d) × AreLater (time_of d) items

none_later : (m : ℕ) (dues : List Due) → dues ≡ [] → all (λ d. leb m (time_of d)) dues ≡ true
none_later m [] e = refl
none_later m (d ∷ dues) e = absurd (ground (arith, e))

IsFirst-pick :
    (started_at : ℕ) (routines : List Routine) (items : List Pending) (dues : List Due)
    (item : Option Pending) (d : Option Due)
    → IsLeast receipt_order_of items item
    → IsLeast time_of dues d
    → IsFirst items dues (pick started_at routines item d)
IsFirst-pick started_at routines items dues none none h k = (h, k)
IsFirst-pick started_at routines items dues (some item) none h k =
    (h, none_later item.arrival.received_at dues k)
IsFirst-pick started_at routines items dues none (some d) h k = (k, inl h)
IsFirst-pick started_at routines items dues (some item) (some d) h k =
    elim (Bool-cases (leb item.arrival.received_at (time_of d))) [
      | inl by_then ↦
          rw (by_then)
            (h, all-above time_of (time_of d) item.arrival.received_at dues (ground arith) (k.1))
      | inr after ↦ rw (after) (k, inr (item, h, ground arith))
    ]

-- A pass that does not hold its turns fires what comes first, of the deliveries that wait, whose
-- routine is not disabled or which the user sent, and of the routines whose time has come: it
-- fires nothing only where there is neither.
pub choose-IsFirst :
    (started_at now : ℕ) (routines : List Routine) (histories : Dict String History)
    (armed : Dict String ArmedRoutine)
    → IsFirst
        (waiting routines histories)
        (due now armed routines)
        (choose false started_at now routines histories armed)
unfolding choose
choose-IsFirst started_at now routines histories armed =
    IsFirst-pick started_at routines (waiting routines histories) (due now armed routines) _ _
      (IsLeast-least receipt_order_of (waiting routines histories))
      (IsLeast-least time_of (due now armed routines))

get-put_same :
    (name : String) (a : ArmedRoutine) (armed : Dict String ArmedRoutine)
    → get name (put name a armed) ≡ some a
get-put_same name a armed =
    get-put name name a armed ∙ ap (λ b. if b then some a else get name armed) (beq_refl name)

-- A routine that a pass fired, and that started its turn or could not be paid for, is armed for a
-- later time than now, so no pass fires it again for the time that was due. The next time of a
-- schedule is after the time it is asked from, and the routine is enabled and has a schedule.
pub armed_after-later :
    (next : String → ℕ → ℕ) (now : ℕ) (d : Due) (trigger : Trigger) (ending : Ending)
    (armed : Dict String ArmedRoutine) (schedule : String)
    → ((schedule : String) (time : ℕ) → time < next schedule time)
    → schedule_of d.routine ≡ some schedule
    → ending ≢ busy
    → (a : ArmedRoutine) × (get d.routine.name (armed_after next now (fires d trigger) ending armed)
        ≡ some a)
      × (now < a.time)
unfolding armed_after
armed_after-later next now d trigger accepted armed schedule after set h = (
  record { schedule = schedule; time = next schedule now },
  ap (λ o. get d.routine.name (rearm_fired next now d.routine o armed)) set
      ∙ get-put_same d.routine.name (record { schedule = schedule; time = next schedule now })
          armed,
  after schedule now,
)
armed_after-later next now d trigger busy armed schedule after set h = absurd (h refl)
armed_after-later next now d trigger unpaid armed schedule after set h = (
  record { schedule = d.armed.schedule; time = next d.armed.schedule now },
  get-put_same d.routine.name _ armed,
  after d.armed.schedule now,
)
