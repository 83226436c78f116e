-- ===== src/Routines/Counts/Dicts.antt =====
-- The counts of failures in the histories and the failures of core/routine_history.py's fold.
use kinby.Common.{
  ℕ, String, false, ◌≡◌, ◌≤◌, refl, ap, ◌∙◌, [], ◌∷◌, ◌==◌, string_eq, nat_eq, pair_eq,
  if◌then◌else◌, keep, arith, inl, inr, Bool-cases, eq_of_beq, beq_refl,
}
use kinby.Common.Keyed.{Dict, put, get-put}
use kinby.Routines.{Key, History, Failure, or_none, history_of, named_other}

abbrev pub failures_of : String → Dict String History → ℕ
failures_of name histories = (history_of name histories).failure_count

-- Each failure counts from 1 up to the failures of its routine.
abbrev pub AreCounted : Dict String History → Dict Key Failure → Type 0
AreCounted histories [] = Unit
AreCounted histories ((key, f) ∷ failures) =
    (1 ≤ f.count) × (f.count ≤ failures_of f.name histories) × AreCounted histories failures

pub failures_of-put :
    (name other_name : String) (h : History) (histories : Dict String History)
    → failures_of other_name (put name h histories)
      ≡ (if name == other_name then h.failure_count else failures_of other_name histories)
failures_of-put name other_name h histories =
    ap (λ o. (or_none o).failure_count) (get-put name other_name h histories)
    ∙ elim (Bool-cases (name == other_name)) [ inl e ↦ rw e refl | inr e ↦ rw e refl ]

pub failures_of-same :
    (name m : String) (h : History) (histories : Dict String History)
    → h.failure_count ≡ failures_of name histories
    → failures_of m (put name h histories) ≡ failures_of m histories
failures_of-same name m h histories same =
    failures_of-put name m h histories ∙ elim (Bool-cases (name == m)) [
      | inl e ↦ rw e (same ∙ ap (λ n. failures_of n histories) (eq_of_beq name m e))
      | inr e ↦ rw e refl
    ]

pub failures_of-other :
    (name m : String) (h : History) (histories : Dict String History)
    → (m == name) ≡ false
    → failures_of m (put name h histories) ≡ failures_of m histories
failures_of-other name m h histories ne =
    failures_of-put name m h histories ∙ elim (Bool-cases (name == m)) [
      | inl e ↦ absurd (cc (eq_of_beq name m e, beq_refl m, ne))
      | inr e ↦ rw e refl
    ]

pub failures_of-more :
    (name m : String) (h : History) (histories : Dict String History)
    → failures_of name histories ≤ h.failure_count
    → failures_of m histories ≤ failures_of m (put name h histories)
failures_of-more name m h histories le = elim (Bool-cases (name == m)) [
  | inl e ↦
      let now : failures_of m (put name h histories) ≡ h.failure_count =
        failures_of-put name m h histories ∙ rw e refl in
      let was : failures_of name histories ≡ failures_of m histories =
        ap (λ n. failures_of n histories) (eq_of_beq name m e) in
      omega (arith, le, now, was)
  | inr e ↦
      let now : failures_of m (put name h histories) ≡ failures_of m histories =
        failures_of-put name m h histories ∙ rw e refl in
      omega (arith, now)
]

pub AreCounted-mono :
    (h h' : Dict String History) (failures : Dict Key Failure)
    → ((name : String) → failures_of name h ≤ failures_of name h')
    → AreCounted h failures
    → AreCounted h' failures
AreCounted-mono h h' [] le c = tt
AreCounted-mono h h' ((key, f) ∷ failures) le c =
    (c.0, omega (arith, c.1, le f.name), AreCounted-mono h h' failures le c.2)

pub AreCounted-put :
    (h : Dict String History) (key : Key) (f : Failure) (failures : Dict Key Failure)
    → 1 ≤ f.count
    → f.count ≤ failures_of f.name h
    → AreCounted h failures
    → AreCounted h (put key f failures)
unfolding put
AreCounted-put h key f [] a b c = (a, b, tt)
AreCounted-put h key f ((k, g) ∷ failures) a b c = elim (Bool-cases (k == key)) [
  | inl same ↦ rw same (a, b, c.2)
  | inr ne ↦ rw ne (c.0, c.1, AreCounted-put h key f failures a b c.2)
]

-- The routine's own failures forgotten, the others count as they did.
pub AreCounted-forget :
    (h h' : Dict String History) (name : String) (failures : Dict Key Failure)
    → ((m : String) → (m == name) ≡ false → failures_of m h ≤ failures_of m h')
    → AreCounted h failures
    → AreCounted h' (keep (named_other name) failures)
AreCounted-forget h h' name [] le c = tt
AreCounted-forget h h' name ((key, f) ∷ failures) le c = elim (Bool-cases (f.name == name)) [
  | inl same ↦ rw same (AreCounted-forget h h' name failures le c.2)
  | inr ne ↦
      rw ne (c.0, omega (arith, c.1, le f.name ne), AreCounted-forget h h' name failures le c.2)
]
