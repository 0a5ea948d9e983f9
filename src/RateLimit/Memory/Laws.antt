-- ===== src/RateLimit/Memory/Laws.antt =====
-- The table stays bounded, and no flood of keys frees a client that is being limited
-- (rate-limit/memory-store.ts).
use oculus_business.Common.{
  sym, sym, ℕ, ◌+◌, ◌*◌, ◌≤◌, ◌<◌, ◌≡◌, ◌≢◌, refl, some, List, [], ◌∷◌, length, length-filter,
  filter, arith, ◌==◌, if◌then◌else◌, All, inl, inr, Option-cases,
}
use native.Mathlib.Nat.{add-zero}
use native.Mathlib.Decide.{ℕ_discrete}
use oculus_business.RateLimit.Memory.{
  Bucket, Buckets, Options, get, put, is_live, delete_expired_buckets, evict_one_unexhausted_bucket,
  make_room, new_window, consume_found, consume,
}

length-put : (k : ℕ) (b : Bucket) (t : Buckets) → length (put k b t) ≤ length t + 1
unfolding put
length-put k b [] = omega arith
length-put k b ((j, c) ∷ t) = ground (arith, length-put k b t)

length-put_tracked :
    (k : ℕ) (b c : Bucket) (t : Buckets) → get k t ≡ some c → length (put k b t) ≡ length t
unfolding put get
length-put_tracked k b c [] h = cc
length-put_tracked k b c ((j, d) ∷ t) h = ground (arith, length-put_tracked k b c t)

length-evict :
    (max : ℕ) (t : Buckets) {t' : Buckets}
    → evict_one_unexhausted_bucket max t ≡ some t'
    → length t' + 1 ≡ length t
unfolding evict_one_unexhausted_bucket
length-evict max [] h = cc
length-evict max ((k, b) ∷ t) {t'} h = elim (Option-cases (evict_one_unexhausted_bucket max t)) [
  | inl e ↦ ground arith
  | inr (u, e) ↦ ground (arith, length-evict max t e)
]

length-make_room :
    (o : Options) (k window_ms now : ℕ) (t : Buckets)
    → length t ≤ o.tracked_key_limit
    → length (make_room o k window_ms now t).0 ≤ o.tracked_key_limit
unfolding make_room
length-make_room o k window_ms now t h =
    let b : Bucket = record { count = 1; reset_at = now + window_ms } in
    elim (Option-cases (evict_one_unexhausted_bucket o.max t)) [
      | inl e ↦ ground (arith, length-put k b t)
      | inr (u, e) ↦ ground (arith, length-put k b t, length-put k b u, length-evict o.max t e)
    ]

length-new_window :
    (o : Options) (k window_ms now : ℕ) (t : Buckets)
    → length t ≤ o.tracked_key_limit
    → length (new_window o k window_ms now t).0 ≤ o.tracked_key_limit
unfolding new_window delete_expired_buckets
length-new_window o k window_ms now t h = ground (
  arith,
  length-filter (is_live now) t,
  length-make_room o k window_ms now t,
  length-make_room o k window_ms now (filter (is_live now) t),
)

-- The table never outgrows its limit.
pub length-consume :
    (o : Options) (k window_seconds now : ℕ) (t : Buckets)
    → length t ≤ o.tracked_key_limit
    → length (consume o k window_seconds now t).0 ≤ o.tracked_key_limit
unfolding consume consume_found
length-consume o k window_seconds now t h = elim (Option-cases (get k t)) [
  | inl e ↦ ground (arith, length-new_window o k (window_seconds * 1000) now t)
  | inr (b, e) ↦ ground (
    arith,
    length-new_window o k (window_seconds * 1000) now t,
    length-put_tracked k (record { count = b.count + 1; reset_at = b.reset_at }) b t e,
  )
]

get-put_self : (k : ℕ) (b : Bucket) (t : Buckets) → get k (put k b t) ≡ some b
unfolding get put
get-put_self k b [] = ground arith
get-put_self k b ((j, c) ∷ t) = ground (arith, get-put_self k b t)

get-put_ne : (j k : ℕ) (b : Bucket) (t : Buckets) → j ≢ k → get j (put k b t) ≡ get j t
unfolding get put
get-put_ne j k b [] h = ground arith
get-put_ne j k b ((i, c) ∷ t) h = ground (arith, get-put_ne j k b t)

-- A bucket that is still in its window survives the deletion of expired ones.
get-delete_expired_buckets :
    (j now : ℕ) (b : Bucket) (t : Buckets)
    → get j t ≡ some b
    → now < b.reset_at
    → get j (delete_expired_buckets now t) ≡ some b
unfolding get delete_expired_buckets
get-delete_expired_buckets j now b [] h l = cc
get-delete_expired_buckets j now b ((i, c) ∷ t) h l =
    ground (arith, get-delete_expired_buckets j now b t)

-- A bucket that reached the budget survives an eviction.
get-evict :
    (j max : ℕ) (b : Bucket) (t : Buckets) {u : Buckets}
    → evict_one_unexhausted_bucket max t ≡ some u
    → get j t ≡ some b
    → max ≤ b.count
    → get j u ≡ some b
unfolding get evict_one_unexhausted_bucket
get-evict j max b [] e h l = cc
get-evict j max b ((i, c) ∷ t) {u} e h l =
    elim (Option-cases (evict_one_unexhausted_bucket max t)) [
      | inl n ↦ ground arith
      | inr (v, n) ↦ ground (arith, get-evict j max b t n)
    ]

-- The bucket of a client that is being limited: budget spent, window open.
abbrev pub IsLimited : Options → ℕ → Bucket → Type 0
IsLimited o now b = (o.max ≤ b.count) × (now < b.reset_at)

get-make_room :
    (o : Options) (j k window_ms now : ℕ) (b : Bucket) (t : Buckets)
    → j ≢ k
    → get j t ≡ some b
    → IsLimited o now b
    → get j (make_room o k window_ms now t).0 ≡ some b
unfolding make_room
get-make_room o j k window_ms now b t ne h l =
    let c : Bucket = record { count = 1; reset_at = now + window_ms } in
    elim (Option-cases (evict_one_unexhausted_bucket o.max t)) [
      | inl e ↦ ground (arith, get-put_ne j k c t ne)
      | inr (u, e) ↦
          ground
            (arith, get-put_ne j k c t ne, get-put_ne j k c u ne, get-evict j o.max b t e h l.0)
    ]

-- A request of another client leaves the bucket of a limited client as it is, also when the table
-- is full.
get-consume_ne :
    (o : Options) (j k window_seconds now : ℕ) (b : Bucket) (t : Buckets)
    → j ≢ k
    → get j t ≡ some b
    → IsLimited o now b
    → get j (consume o k window_seconds now t).0 ≡ some b
unfolding consume consume_found new_window
get-consume_ne o j k window_seconds now b t ne h l =
    let w = window_seconds * 1000 in
    let opened = get-make_room o j k w now b t ne h l in
    let swept =
      get-make_room o j k w now b (delete_expired_buckets now t) ne
        (get-delete_expired_buckets j now b t h l.1) l in
    elim (Option-cases (get k t)) [
      | inl e ↦ ground arith
      | inr (c, e) ↦
          ground
            (arith, get-put_ne j k (record { count = c.count + 1; reset_at = c.reset_at }) t ne)
    ]

-- A request of the limited client itself is counted and answered with a total above the budget.
consume_limited :
    (o : Options) (k window_seconds now : ℕ) (b : Bucket) (t : Buckets)
    → get k t ≡ some b
    → IsLimited o now b
    → (get k (consume o k window_seconds now t).0
        ≡ some (record { count = b.count + 1; reset_at = b.reset_at }))
      × ((consume o k window_seconds now t).1.count ≡ b.count + 1)
unfolding consume consume_found
consume_limited o k window_seconds now b t h l =
    ground (arith, get-put_self k (record { count = b.count + 1; reset_at = b.reset_at }) t)

pub record Request : Type 0 where
  pub key : ℕ
  pub at : ℕ

-- A run of requests under one window length.
abbrev pub consume_all : Options → ℕ → List Request → Buckets → Buckets
consume_all o window_seconds [] t = t
consume_all o window_seconds (r ∷ rs) t =
    consume_all o window_seconds rs (consume o r.key window_seconds r.at t).0

abbrev pub hits : ℕ → List Request → ℕ
hits k [] = 0
hits k (r ∷ rs) = let rest = hits k rs in if r.key == k then rest + 1 else rest

-- No run of requests by any clients frees a client that is being limited before its window ends:
-- if every request comes before the end of the window, the client's bucket still stands after the
-- run, with the same end, and has counted exactly the client's own requests; and the client's next
-- request in the window is answered with a total above the budget.
pub consume_all_limited :
    (o : Options) (window_seconds k now : ℕ) (b : Bucket) (rs : List Request) (t : Buckets)
    → get k t ≡ some b
    → o.max ≤ b.count
    → All (λ r. r.at < b.reset_at) rs
    → now < b.reset_at
    → let t' = consume_all o window_seconds rs t in
      (get k t' ≡ some (record { count = b.count + hits k rs; reset_at = b.reset_at }))
      × (o.max < (consume o k window_seconds now t').1.count)
consume_all_limited o w k now b [] t h spent all late =
    (rw (add-zero, h) refl, omega (arith, (consume_limited o k w now b t h (spent, late)).1))
consume_all_limited o w k now b (r ∷ rs) t h spent all late = elim (ℕ_discrete r.key k) [
  | yes e ↦
      let b' : Bucket = record { count = b.count + 1; reset_at = b.reset_at } in
      let counted : get k (consume o r.key w r.at t).0 ≡ some b' =
        rw e ((consume_limited o k w r.at b t h (spent, all.0)).0) in
      let (kept, over) =
        consume_all_limited o w k now b' rs (consume o r.key w r.at t).0 counted (omega arith) all.1
          late in
      (ground arith, over)
  | no d ↦
      let apart = get-consume_ne o k r.key w r.at b t (λ e. d (sym e)) h (spent, all.0) in
      let (kept, over) =
        consume_all_limited o w k now b rs (consume o r.key w r.at t).0 apart spent all.1 late in
      (ground arith, over)
]
