-- ===== src/Turns/Known.antt =====
-- core/turns.py: the threads of the store and the claims of steps, as lists.
use kinby.Turns.Alone.{has_thread}
use kinby.Turns.Instance.{has_step}
use kinby.Common.{
  ℕ, ◌≤◌, true, false, not, List, [], ◌∷◌, ◌++◌, ◌==◌, nat_eq, ◌≡◌, refl, arith, beq_refl, keep,
  length,
}

pub has_thread-append_left :
    (id k : ℕ) (threads : List ℕ)
    → has_thread k threads ≡ true
    → has_thread k (threads ++ id ∷ []) ≡ true
has_thread-append_left id k [] h = absurd (ground (arith, h))
has_thread-append_left id k (t ∷ threads) h = ground (arith, h, has_thread-append_left id k threads)

pub has_thread-append_last : (id : ℕ) (threads : List ℕ) → has_thread id (threads ++ id ∷ []) ≡ true
has_thread-append_last id [] = rw (beq_refl id) refl
has_thread-append_last id (t ∷ threads) = ground (arith, has_thread-append_last id threads)

pub one_more : (c : ℕ) (steps : List ℕ) → has_step steps ≡ false → length (c ∷ steps) ≤ 1
one_more c [] h = omega arith
one_more c (step ∷ steps) h = absurd (ground (arith, h))

pub fewer_steps :
    (c : ℕ) (steps : List ℕ)
    → has_step (keep (λ other. not (other == c)) steps) ≡ true
    → has_step steps ≡ true
fewer_steps c [] h = h
fewer_steps c (step ∷ steps) h = refl

pub length-keep-le :
    (c : ℕ) (steps : List ℕ) → length (keep (λ other. not (other == c)) steps) ≤ length steps
length-keep-le c [] = omega arith
length-keep-le c (step ∷ steps) = ground (arith, length-keep-le c steps)
