-- ===== src/Scheduler/Policy.antt =====
-- core/scheduler.py: which routines the failure policy disables.
use mathlib.Core.Path.{subst}
use kinby.Common.{
  ℕ, String, Bool, true, false, not, ◌≡◌, refl, ap, sym, ◌∙◌, ◌&&◌, ◌||◌, Option, none, some, List,
  [], ◌∷◌, ◌==◌, string_eq, nat_eq, if◌then◌else◌, any, map, arith, inl, inr, Bool-cases, eq_of_beq,
  both, beq_refl, leb,
}
use kinby.Common.Keyed.{Dict, get, put, remove, get-put, get-remove}
use kinby.Routines.{Key, Failure, Notice, routine_history, unhandled}
use kinby.Scheduler.Files.{Routine, disable_routine, switch_off}
use kinby.Scheduler.Failures.{
  Policy, NotificationRaised, append_handled, disable_after, first_told, is_over, is_enabled,
  handle_each, handle_failures, reset_failures, by_name,
}

-- Ten failures in a row of the routine are among these.
abbrev pub is_failing : List (Key × Failure) → String → Bool
is_failing failures name = any (λ (_, f). f.name == name && leb disable_after f.count) failures

-- The routine as the policy means to leave it.
abbrev pub left_by_policy : List (Key × Failure) → Routine → Routine
left_by_policy failures routine =
    if is_failing failures routine.name then record routine { enabled = false } else routine

-- Every enabled routine is known as enabled.
abbrev AreKnown : Dict String Routine → List Routine → Type 0
AreKnown known [] = Unit
AreKnown known (r ∷ rs) =
    (r.enabled ≡ true → is_enabled (get r.name known) ≡ true) × AreKnown known rs

append_handled-routines :
    (raises : Bool) (now : ℕ) (failure : Failure) (told : Option (Notice × NotificationRaised))
    (policy : Policy)
    → (append_handled raises now failure told policy).routines ≡ policy.routines
append_handled-routines raises now failure none policy = refl
append_handled-routines raises now failure (some _) policy = refl

off_again : (r : Routine) → r.enabled ≡ false → (record r { enabled = false }) ≡ r
off_again r e = ap (λ b. record r { enabled = b }) (sym e)

other_way : (a b : String) → (b == a) ≡ false → (a == b) ≡ false
other_way a b e = elim (Bool-cases (a == b)) [
  | inl same ↦ absurd (cc (eq_of_beq a b same, beq_refl b, e))
  | inr other ↦ other
]

get-remove_other :
    (k j : String) (d : Dict String Routine) → (k == j) ≡ false → get j (remove k d) ≡ get j d
get-remove_other k j d other = get-remove k j d ∙ ap (λ b. if b then none else get j d) other

AreKnown-switch_off :
    (name : String) (known : Dict String Routine) (rs : List Routine)
    → AreKnown known rs
    → AreKnown (remove name known) (map (switch_off name) rs)
AreKnown-switch_off name known [] c = tt
AreKnown-switch_off name known (r ∷ rs) c = elim (Bool-cases (r.name == name)) [
  | inl same ↦ rw (same) (λ e. absurd (ground arith), AreKnown-switch_off name known rs c.1)
  | inr other ↦ rw (other) (
    λ e. ap is_enabled (get-remove_other name r.name known (other_way name r.name other)) ∙ c.0 e,
    AreKnown-switch_off name known rs c.1,
  )
]

with_count : (a a' c d : Bool) → a ≡ a' → c ≡ true → (a || d) ≡ (a' && c || d)
with_count a a' c d e over = ground arith

set_off : Bool → Routine → Routine
set_off off r = if off then record r { enabled = false } else r

set_off-again : (a b : Bool) (r : Routine) → set_off b (set_off a r) ≡ set_off (a || b) r
unfolding set_off
set_off-again true true r = refl
set_off-again true false r = refl
set_off-again false b r = refl

set_off-name : (a : Bool) (r : Routine) → (set_off a r).name ≡ r.name
unfolding set_off
set_off-name true r = refl
set_off-name false r = refl

beq_sym : (a b : String) → (a == b) ≡ (b == a)
beq_sym a b = elim (Bool-cases (b == a)) [
  | inl same ↦ ap (λ c. c == b) (sym (eq_of_beq b a same)) ∙ beq_refl b ∙ sym same
  | inr other ↦ other_way a b other ∙ sym other
]

left_by_policy-switch_off :
    (key : Key) (f : Failure) (failures : List (Key × Failure)) (r : Routine)
    → leb disable_after f.count ≡ true
    → left_by_policy failures (switch_off f.name r) ≡ left_by_policy ((key, f) ∷ failures) r
unfolding set_off
left_by_policy-switch_off key f failures r over =
    ap (λ n. set_off (is_failing failures n) (switch_off f.name r))
      (set_off-name (r.name == f.name) r)
    ∙ set_off-again (r.name == f.name) (is_failing failures r.name) r
    ∙ ap (λ b. set_off b r)
        (with_count (r.name == f.name) (f.name == r.name) (leb disable_after f.count)
          (is_failing failures r.name) (beq_sym r.name f.name) over)

left_by_policy-off :
    (failures : List (Key × Failure)) (r : Routine)
    → r.enabled ≡ false
    → left_by_policy failures r ≡ r
left_by_policy-off failures r off = elim (Bool-cases (is_failing failures r.name)) [
  | inl failing ↦ rw (failing) (off_again r off)
  | inr fine ↦ rw (fine) refl
]

map-left_by_policy-nil : (rs : List Routine) → map (left_by_policy []) rs ≡ rs
map-left_by_policy-nil [] = refl
map-left_by_policy-nil (r ∷ rs) = ap (λ t. r ∷ t) (map-left_by_policy-nil rs)

map-left_by_policy-over :
    (key : Key) (f : Failure) (failures : List (Key × Failure)) (rs : List Routine)
    → leb disable_after f.count ≡ true
    → map (left_by_policy failures) (map (switch_off f.name) rs)
      ≡ map (left_by_policy ((key, f) ∷ failures)) rs
map-left_by_policy-over key f failures [] over = refl
map-left_by_policy-over key f failures (r ∷ rs) over = cc (
  left_by_policy-switch_off key f failures r over,
  map-left_by_policy-over key f failures rs over,
)

off_below :
    (f : Failure) (known : Dict String Routine) (r : Routine)
    → is_over known f ≡ false
    → (r.enabled ≡ true → is_enabled (get r.name known) ≡ true)
    → (f.name == r.name && leb disable_after f.count) ≡ true
    → r.enabled ≡ false
off_below f known r below c over = elim (Bool-cases r.enabled) [
  | inr off ↦ off
  | inl on ↦
      let same = eq_of_beq f.name r.name ((both _ _ over).0) in
      let yes_known = ap (λ n. is_enabled (get n known)) same ∙ c on in
      absurd (ground (arith, yes_known))
]

left_by_policy-below :
    (key : Key) (f : Failure) (failures : List (Key × Failure)) (known : Dict String Routine)
    (r : Routine)
    → is_over known f ≡ false
    → (r.enabled ≡ true → is_enabled (get r.name known) ≡ true)
    → left_by_policy failures r ≡ left_by_policy ((key, f) ∷ failures) r
left_by_policy-below key f failures known r below c =
    elim (Bool-cases (f.name == r.name && leb disable_after f.count)) [
      | inr fine ↦ rw (fine) refl
      | inl over ↦
          let off = off_below f known r below c over in
          left_by_policy-off failures r off ∙ sym (left_by_policy-off ((key, f) ∷ failures) r off)
    ]

map-left_by_policy-below :
    (key : Key) (f : Failure) (failures : List (Key × Failure)) (known : Dict String Routine)
    (rs : List Routine)
    → is_over known f ≡ false
    → AreKnown known rs
    → map (left_by_policy failures) rs ≡ map (left_by_policy ((key, f) ∷ failures)) rs
map-left_by_policy-below key f failures known [] below c = refl
map-left_by_policy-below key f failures known (r ∷ rs) below c = cc (
  left_by_policy-below key f failures known r below c.0,
  map-left_by_policy-below key f failures known rs below c.1,
)

handle_each-routines :
    (raises : Bool) (now : ℕ) (failures : List (Key × Failure)) (known : Dict String Routine)
    (policy : Policy)
    → AreKnown known policy.routines
    → (handle_each raises now failures known policy).routines
      ≡ map (left_by_policy failures) policy.routines
unfolding handle_each disable_routine
handle_each-routines raises now [] known policy c = sym (map-left_by_policy-nil policy.routines)
handle_each-routines raises now ((key, f) ∷ failures) known policy c =
    elim (Bool-cases (is_over known f)) [
      | inl over ↦ rw (over) (
          handle_each-routines raises now failures (remove f.name known) _
            (AreKnown-switch_off f.name known policy.routines c)
          ∙ map-left_by_policy-over key f failures policy.routines (ground arith))
      | inr below ↦ rw (below) (
          handle_each-routines raises now failures known
            (append_handled raises now f (first_told f) policy)
            (subst (AreKnown known)
              (sym (append_handled-routines raises now f (first_told f) policy)) c)
          ∙ ap (map (left_by_policy failures))
              (append_handled-routines raises now f (first_told f) policy)
          ∙ map-left_by_policy-below key f failures known policy.routines below c)
    ]

-- No two routines have a name in common.
abbrev pub are_distinct : List Routine → Bool
are_distinct [] = true
are_distinct (r ∷ rs) = not (any (λ s. s.name == r.name) rs) && are_distinct rs

get-by_name_other :
    (n : String) (rs : List Routine) (d : Dict String Routine)
    → any (λ s. s.name == n) rs ≡ false
    → get n (by_name rs d) ≡ get n d
get-by_name_other n [] d h = refl
get-by_name_other n (r ∷ rs) d h =
    let other : (r.name == n) ≡ false = ground arith in
    get-by_name_other n rs (put r.name r d) (ground arith)
    ∙ get-put r.name n r d
    ∙ ap (λ b. if b then some r else get n d) other

AreKnown-by_name :
    (rs : List Routine) (d : Dict String Routine)
    → are_distinct rs ≡ true
    → AreKnown (by_name rs d) rs
AreKnown-by_name [] d h = tt
AreKnown-by_name (r ∷ rs) d h = (
  λ on.
      ap is_enabled (
        get-by_name_other r.name rs (put r.name r d) (ground arith)
        ∙ get-put r.name r.name r d
        ∙ ap (λ b. if b then some r else get r.name d) (beq_refl r.name))
      ∙ on,
  AreKnown-by_name rs (put r.name r d) (ground arith),
)

-- A pass of the failure policy disables exactly the routines that have, among the failures it
-- finds to handle, one that is the tenth or a later one in a row, and changes no routine
-- otherwise. No two routine files share a name.
pub handle_failures-routines :
    (raises : Bool) (now : ℕ) (policy : Policy)
    → are_distinct policy.routines ≡ true
    → (handle_failures raises now policy).routines
      ≡ map
          (left_by_policy
            (unhandled (routine_history (reset_failures now policy.routines policy.log))))
          policy.routines
unfolding handle_failures
handle_failures-routines raises now policy distinct =
    handle_each-routines raises now _ (by_name policy.routines []) _
      (AreKnown-by_name policy.routines [] distinct)
