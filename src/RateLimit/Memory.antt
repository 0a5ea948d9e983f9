-- ===== src/RateLimit/Memory.antt =====
-- `createMemoryRateLimitStore` of backend/src/rate-limit/memory-store.ts. The `Map` is the list of
-- its entries in the order of insertion.
pub mod Laws
mod Examples
use oculus_business.Common.{
  ℕ, ◌+◌, ◌*◌, Bool, true, false, Option, none, some, List, [], ◌∷◌, length, filter, ltb, leb, not,
  ◌&&◌, ◌==◌, if◌then◌else◌,
}

pub record Bucket : Type 0 where
  pub count : ℕ
  pub reset_at : ℕ

abbrev pub Buckets : Type 0
Buckets = List (ℕ × Bucket)

-- `Map.get`.
unfoldable pub get : ℕ → Buckets → Option Bucket
get k [] = none
get k ((j, b) ∷ t) = if j == k then some b else get k t

-- `Map.set`: in place, or at the end.
unfoldable pub put : ℕ → Bucket → Buckets → Buckets
put k b [] = (k, b) ∷ []
put k b ((j, c) ∷ t) = if j == k then (k, b) ∷ t else (j, c) ∷ put k b t

abbrev pub is_live : ℕ → ℕ × Bucket → Bool
is_live now (_, b) = ltb now b.reset_at

-- `deleteExpiredBuckets`.
unfoldable pub delete_expired_buckets : ℕ → Buckets → Buckets
delete_expired_buckets now = filter (is_live now)

abbrev pub evict_rest : ℕ × Bucket → Option Buckets → Option Buckets
evict_rest e none = none
evict_rest e (some t) = some (e ∷ t)

-- `evictOneUnexhaustedBucket`: the table without the first entry that is below the budget.
unfoldable pub evict_one_unexhausted_bucket : ℕ → Buckets → Option Buckets
evict_one_unexhausted_bucket max [] = none
evict_one_unexhausted_bucket max ((k, b) ∷ t) =
    let rest = evict_rest (k, b) (evict_one_unexhausted_bucket max t) in
    if leb max b.count then rest else some t

pub record Verdict : Type 0 where
  pub count : ℕ
  pub reset_at : ℕ

pub record Options : Type 0 where
  pub max : ℕ
  pub tracked_key_limit : ℕ

-- The first hit of a window, into a table that has room.
abbrev pub open_window : ℕ → ℕ → ℕ → Buckets → Buckets × Verdict
open_window k window_ms now t = (
  put k (record { count = 1; reset_at = now + window_ms }) t,
  record { count = 1; reset_at = now + window_ms },
)

abbrev pub refused : Options → ℕ → ℕ → Buckets → Buckets × Verdict
refused o window_ms now t = (t, record { count = o.max + 1; reset_at = now + window_ms })

-- Room is made by deleting what has expired, then by evicting one entry below the budget.
abbrev pub after_eviction : Options → ℕ → ℕ → ℕ → Buckets → Option Buckets → Buckets × Verdict
after_eviction o k window_ms now t none = refused o window_ms now t
after_eviction o k window_ms now t (some t') = open_window k window_ms now t'

unfoldable pub make_room : Options → ℕ → ℕ → ℕ → Buckets → Buckets × Verdict
make_room o k window_ms now t =
    if leb o.tracked_key_limit (length t)
    then after_eviction o k window_ms now t (evict_one_unexhausted_bucket o.max t)
    else open_window k window_ms now t

unfoldable pub new_window : Options → ℕ → ℕ → ℕ → Buckets → Buckets × Verdict
new_window o k window_ms now t =
    make_room o k window_ms now
      (if leb o.tracked_key_limit (length t) then delete_expired_buckets now t else t)

abbrev pub count_hit : ℕ → Bucket → Buckets → Buckets × Verdict
count_hit k b t = (
  put k (record { count = b.count + 1; reset_at = b.reset_at }) t,
  record { count = b.count + 1; reset_at = b.reset_at },
)

unfoldable pub consume_found : Options → ℕ → ℕ → ℕ → Buckets → Option Bucket → Buckets × Verdict
consume_found o k window_ms now t none = new_window o k window_ms now t
consume_found o k window_ms now t (some b) =
    if leb b.reset_at now then new_window o k window_ms now t else count_hit k b t

-- `consume`.
unfoldable pub consume : Options → ℕ → ℕ → ℕ → Buckets → Buckets × Verdict
consume o k window_seconds now t = consume_found o k (window_seconds * 1000) now t (get k t)
