-- ===== src/Retry/Schedule.antt =====
-- The backoff schedule.
use native.Mathlib.Nat.{pow-le-pow_right, mul-le-mul_left}
use aqua_matrix_connector.Common.{
  ℕ, ◌≤◌, ◌*◌, ◌^◌, min, ◌≡◌, arith, ◌+◌, Bool-cases, leb, inl, ap, inr, ◌∙◌,
}
use aqua_matrix_connector.Retry.{Backoff, duration_max, nominal}

-- The exponent that `nominal` clamps matters only below the cap.
clamped :
    (base ceiling n : ℕ)
    → ceiling ≤ base * 2 ^ 16
    → min (base * 2 ^ min n 16) ceiling ≡ min (base * 2 ^ n) ceiling
clamped base ceiling n h = elim (Bool-cases (leb n 16)) [
  | inl small ↦ ap (λ k. min (base * 2 ^ k) ceiling) (ground (arith, small))
  | inr large ↦
      over
        (mul-le-mul_left base
          (pow-le-pow_right {n = 2} (omega arith) {i = 16} {j = n} (ground (arith, large))))
        (ground (arith, large))
]
  where
    over :
        base * 2 ^ 16 ≤ base * 2 ^ n
        → min n 16 ≡ 16
        → min (base * 2 ^ min n 16) ceiling ≡ min (base * 2 ^ n) ceiling
    over grows at = rw at (omega (arith, h, grows))

nominal-unsaturated :
    (b : Backoff) (n : ℕ)
    → b.ceiling ≤ duration_max
    → nominal b n ≡ min (b.base * 2 ^ min n 16) b.ceiling
unfolding nominal
nominal-unsaturated b n fits = omega arith

-- For a cap that `2 ^ 16` times the base reaches and a `Duration` holds: the delay before jitter is
-- the base doubled once for every attempt made, up to the cap; so it never shrinks and never exceeds
-- the cap, and neither the clamp of the exponent nor the saturation shows.
pub nominal-exact :
    (b : Backoff) (attempt : ℕ)
    → b.ceiling ≤ b.base * 2 ^ 16
    → b.ceiling ≤ duration_max
    → (nominal b attempt ≡ min (b.base * 2 ^ attempt) b.ceiling)
      × (nominal b attempt ≤ nominal b (attempt + 1))
      × (nominal b attempt ≤ b.ceiling)
nominal-exact b attempt reaches fits = (
  exact attempt,
  omega (arith, exact attempt, exact (attempt + 1), doubles),
  omega (arith, exact attempt),
)
  where
    exact : (n : ℕ) → nominal b n ≡ min (b.base * 2 ^ n) b.ceiling
    exact n = nominal-unsaturated b n fits ∙ clamped b.base b.ceiling n reaches

    doubles : b.base * 2 ^ attempt ≤ b.base * 2 ^ (attempt + 1)
    doubles =
        mul-le-mul_left b.base
          (pow-le-pow_right {n = 2} (omega arith) {i = attempt} {j = attempt + 1} (omega arith))
