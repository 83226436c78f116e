-- ===== src/Outbox/Backoff.antt =====
-- hub/outbox.py: how long the delivery loop waits before each try.
use kinby.Common.{ℕ, zero, suc, min, ◌+◌, ◌-◌, ◌*◌, ◌≤◌, ◌≡◌, refl, ap, ◌∙◌, arith}
use kinby.Outbox.Deliver.{backoff, power_of_two}

power_of_two-positive : (n : ℕ) → 1 ≤ power_of_two n
power_of_two-positive zero = omega arith
power_of_two-positive (suc n) = omega (arith, power_of_two-positive n)

-- Every wait is between five seconds and five minutes.
pub backoff-bounds : (n : ℕ) → (5 ≤ backoff n) × (backoff n ≤ 300)
unfolding backoff
backoff-bounds n = (omega (arith, power_of_two-positive (n - 1)), omega arith)

abbrev six_more : ℕ → ℕ
six_more n = suc (suc (suc (suc (suc (suc n)))))

backoff-suc : (n : ℕ) → backoff (suc n) ≡ min (5 * power_of_two n) 300
unfolding backoff
backoff-suc n = ap (λ k. min (5 * power_of_two k) 300) (omega arith)

-- From the seventh failure on a wait is five minutes.
backoff-cap : (n : ℕ) → backoff (suc (six_more n)) ≡ 300
backoff-cap n = backoff-suc (six_more n) ∙ omega (arith, power_of_two-positive n)

-- The seconds that the first so many waits take together.
unfoldable pub waited : ℕ → ℕ
unfolding backoff
waited zero = 0
waited (suc n) = waited n + backoff (suc n)

waited-later : (n : ℕ) → waited (six_more n) ≡ 315 + 300 * n
unfolding waited
waited-later zero = refl
waited-later (suc n) = omega (arith, waited-later n, backoff-cap n)

-- After 293 waits a day has passed.
pub waited-day : 86400 ≤ waited 293
unfolding waited
waited-day = omega (arith, waited-later 287)
