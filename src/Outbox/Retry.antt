-- ===== src/Outbox/Retry.antt =====
-- backend/src/outbox/retry-policy.ts. `random()` is the fraction `num / den`, so that the jitter is
-- exact where the source rounds a double.
pub mod Laws
use oculus_business.Common.{ℕ, suc, ◌+◌, ◌-◌, ◌*◌, ◌/◌, ◌^◌, ◌<◌, min, max, Bool, true, false, leb}

abbrev pub default_max_attempts : ℕ
default_max_attempts = 5

abbrev pub base_delay_ms : ℕ
base_delay_ms = 120000

abbrev pub max_delay_ms : ℕ
max_delay_ms = 900000

-- A value of `random()`: at least 0 and below 1.
pub record Random : Type 0 where
  pub num : ℕ
  pub den : ℕ
  pub below_one : num < den

-- `Math.round(a / b)` for a positive b.
unfoldable pub round_div : ℕ → ℕ → ℕ
round_div a b = (2 * a + b) / (2 * b)

unfoldable pub capped_delay : ℕ → ℕ
capped_delay attempts = min (base_delay_ms * 2 ^ (attempts - 1)) max_delay_ms

-- `capped * (1 + random() * 0.5)`, over the denominator `2 * den`.
unfoldable pub next_attempt_delay_ms : ℕ → Random → ℕ
next_attempt_delay_ms attempts r =
    round_div (capped_delay attempts * (2 * r.den + r.num)) (2 * r.den)

unfoldable pub next_attempt_at : ℕ → ℕ → Random → ℕ
next_attempt_at attempts now r = now + next_attempt_delay_ms attempts r

unfoldable pub is_final_attempt : ℕ → ℕ → Bool
is_final_attempt attempt max_attempts = leb max_attempts attempt

abbrev pub default_task_deadline_ms : ℕ
default_task_deadline_ms = 15000

abbrev pub default_lease_stale_ms : ℕ
default_lease_stale_ms = 120000

unfoldable pub resolve_lease_stale_ms : ℕ → ℕ → ℕ
resolve_lease_stale_ms configured_ms slowest_deadline_ms =
    max configured_ms (slowest_deadline_ms * 2)
