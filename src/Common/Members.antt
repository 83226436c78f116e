-- ===== src/Common/Members.antt =====
-- Membership in what the list functions make.
use mathlib.Core.Path.{◌≡◌, refl}
use mathlib.Core.Bool.{Bool, true, false}
use mathlib.Core.Logic.{inl, inr}
use mathlib.Core.List.{List, [], ◌∷◌, ◌++◌, map}
use native.Mathlib.Omega.{arith}
use Prim.Native.Nat.{◌+◌}
use kinby.Common.Lists.{length, all, any, keep, In, here, there}
use kinby.Common.Tests.{Bool-cases}

module _ {ℓ} {A : Type ℓ} where
  pub all-In : (p : A → Bool) (xs : List A) (x : A) → all p xs ≡ true → In x xs → p x ≡ true
  all-In p [] x h i = elim i [ ]
  all-In p (_ ∷ xs) x h here = ground arith
  all-In p (y ∷ xs) x h (there i) = all-In p xs x (ground arith) i

  pub In-append_left : (xs ys : List A) (x : A) → In x xs → In x (xs ++ ys)
  In-append_left [] ys x i = elim i [ ]
  In-append_left (_ ∷ xs) ys x here = here
  In-append_left (y ∷ xs) ys x (there i) = there (In-append_left xs ys x i)

  pub In-append_right : (xs ys : List A) (x : A) → In x ys → In x (xs ++ ys)
  In-append_right [] ys x i = i
  In-append_right (y ∷ xs) ys x i = there (In-append_right xs ys x i)

  pub In-map {κ} : {B : Type κ} (f : A → B) (xs : List A) (x : A) → In x xs → In (f x) (map f xs)
  In-map f [] x i = elim i [ ]
  In-map f (_ ∷ xs) x here = here
  In-map f (y ∷ xs) x (there i) = there (In-map f xs x i)

  pub any-In : (p : A → Bool) (xs : List A) (x : A) → In x xs → p x ≡ true → any p xs ≡ true
  any-In p [] x i h = elim i [ ]
  any-In p (_ ∷ xs) x here h = ground (arith, h)
  any-In p (y ∷ xs) x (there i) h = ground (arith, any-In p xs x i h)

  pub In-keep_intro : (p : A → Bool) (xs : List A) (x : A) → In x xs → p x ≡ true → In x (keep p xs)
  In-keep_intro p [] x i h = elim i [ ]
  In-keep_intro p (_ ∷ xs) x here h = rw (h) here
  In-keep_intro p (y ∷ xs) x (there i) h = elim (Bool-cases (p y)) [
    | inl kept ↦ rw (kept) (there (In-keep_intro p xs x i h))
    | inr left_out ↦ rw (left_out) (In-keep_intro p xs x i h)
  ]

  pub keep-none : (p : A → Bool) (xs : List A) → ((x : A) → In x xs → p x ≡ false) → keep p xs ≡ []
  keep-none p [] h = refl
  keep-none p (x ∷ xs) h = rw (h x here) (keep-none p xs (λ y i. h y (there i)))

  pub length-keep-append :
      (p : A → Bool) (xs ys : List A)
      → length (keep p (xs ++ ys)) ≡ length (keep p xs) + length (keep p ys)
  length-keep-append p [] ys = omega arith
  length-keep-append p (x ∷ xs) ys = ground (arith, length-keep-append p xs ys)
