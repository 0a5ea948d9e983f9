-- ===== src/RateLimit/Database.antt =====
-- `createDatabaseRateLimitStore` of backend/src/rate-limit/database-store.ts for one policy. The
-- rows of the table are a list; the upsert is one statement, so each request is one step.
pub mod Laws
mod Examples
use oculus_business.Common.{
  ℕ, ◌+◌, ◌*◌, ◌/◌, Bool, true, false, Option, none, some, List, [], ◌∷◌, ◌&&◌, ◌==◌, if◌then◌else◌,
}

pub record Row : Type 0 where
  pub key : ℕ
  pub window_start : ℕ
  pub count : ℕ
  pub expires_at : ℕ

abbrev pub is_row : ℕ → ℕ → Row → Bool
is_row key window_start r = r.key == key && r.window_start == window_start

-- The upsert, and the count that it returns.
unfoldable pub upsert : ℕ → ℕ → ℕ → List Row → List Row × ℕ
upsert key window_start reset_at [] =
    (record { key = key; window_start = window_start; count = 1; expires_at = reset_at } ∷ [], 1)
upsert key window_start reset_at (r ∷ t) =
    let rest = upsert key window_start reset_at t in
    if is_row key window_start r
    then (record r { count = r.count + 1 } ∷ t, r.count + 1)
    else (r ∷ rest.0, rest.1)

pub record Consumption : Type 0 where
  pub count : ℕ
  pub reset_at : ℕ

-- The start of the window of `now`.
unfoldable pub window_start_of : ℕ → ℕ → ℕ
window_start_of window_seconds now = now / (window_seconds * 1000) * (window_seconds * 1000)

-- `consume`.
unfoldable pub consume : ℕ → ℕ → ℕ → List Row → List Row × Consumption
consume key window_seconds now t =
    let window_ms = window_seconds * 1000 in
    let window_start = window_start_of window_seconds now in
    let reset_at = window_start + window_ms in
    let (t', n) = upsert key window_start reset_at t in
    (t', record { count = n; reset_at = reset_at })
