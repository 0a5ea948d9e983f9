-- ===== src/Outbox/Retry/Laws.antt =====
-- The bounds of the retry delay (outbox/retry-policy.ts).
use oculus_business.Common.{ℕ, ◌+◌, ◌-◌, ◌*◌, ◌/◌, ◌^◌, ◌≤◌, ◌<◌, arith}
use native.Mathlib.Nat.{one-le-pow}
use oculus_business.Outbox.Retry.{
  Random, round_div, capped_delay, next_attempt_delay_ms, next_attempt_at,
}

two_pow_pos : (n : ℕ) → 1 ≤ 2 ^ n
two_pow_pos n = one-le-pow n 2 (omega arith)

capped_delay_bounds : (n : ℕ) → (120000 ≤ capped_delay n) × (capped_delay n ≤ 900000)
unfolding capped_delay
capped_delay_bounds n = omega (arith, two_pow_pos (n - 1))

div-le : (a b k : ℕ) → 0 < b → a < (k + 1) * b → a / b ≤ k
div-le a b k h p = grind arith

le-div : (a b k : ℕ) → 0 < b → k * b ≤ a → k ≤ a / b
le-div a b k h p = grind arith

mul_mono : (a b c : ℕ) → a ≤ b → a * c ≤ b * c
mul_mono a b c h = grind arith

-- A retry is scheduled between two minutes and 22.5 minutes after the failure, whatever the jitter
-- and however many attempts were made: in particular outside the cooldown of 60 seconds.
pub next_attempt_at_bounds :
    (attempts now : ℕ) (r : Random)
    → (now + 60000 < next_attempt_at attempts now r)
      × (now + 120000 ≤ next_attempt_at attempts now r)
      × (next_attempt_at attempts now r ≤ now + 1350000)
unfolding next_attempt_at next_attempt_delay_ms round_div
next_attempt_at_bounds attempts now r =
    let c = capped_delay attempts in
    let (low, high) = capped_delay_bounds attempts in
    let x = 2 * (c * (2 * r.den + r.num)) + 2 * r.den in
    let small = mul_mono 120000 c r.den low in
    let large = mul_mono c 900000 r.den high in
    let jitter = mul_mono c 900000 r.num high in
    let below = r.below_one in
    let lower : 120000 ≤ x / (2 * (2 * r.den)) =
      le-div x (2 * (2 * r.den)) 120000 (omega arith) (omega arith) in
    let upper : x / (2 * (2 * r.den)) ≤ 1350000 =
      div-le x (2 * (2 * r.den)) 1350000 (omega arith) (omega arith) in
    (omega arith, omega arith, omega arith)
