-- ===== src/RateLimit/Database/Laws.antt =====
-- The shared counters are exact, in any order of requests (rate-limit/database-store.ts).
use oculus_business.Common.{
  ℕ, ◌+◌, ◌*◌, ◌≤◌, ◌<◌, ◌≡◌, refl, List, [], ◌∷◌, arith, ◌&&◌, ◌==◌, if◌then◌else◌,
}
use oculus_business.RateLimit.Database.{Row, is_row, upsert, window_start_of, consume}

-- The count that stands for a key and a window.
abbrev pub count_of : ℕ → ℕ → List Row → ℕ
count_of key start [] = 0
count_of key start (r ∷ t) = if is_row key start r then r.count else count_of key start t

upsert-count : (k s e : ℕ) (t : List Row) → (upsert k s e t).1 ≡ count_of k s t + 1
unfolding upsert
upsert-count k s e [] = refl
upsert-count k s e (r ∷ t) = ground (arith, upsert-count k s e t)

count_of-upsert :
    (k s e k' s' : ℕ) (t : List Row)
    → count_of k' s' (upsert k s e t).0
      ≡ (if k == k' && s == s' then count_of k' s' t + 1 else count_of k' s' t)
unfolding upsert
count_of-upsert k s e k' s' [] = ground arith
count_of-upsert k s e k' s' (r ∷ t) = ground (arith, count_of-upsert k s e k' s' t)

pub record Request : Type 0 where
  pub key : ℕ
  pub at : ℕ

-- The table after the requests of all processes, in the order in which the database took them.
abbrev pub consume_all : ℕ → List Request → List Row → List Row
consume_all w [] t = t
consume_all w (r ∷ rs) t = (consume r.key w r.at (consume_all w rs t)).0

-- The requests of a key in the window that starts at `start`.
abbrev pub hits : ℕ → ℕ → ℕ → List Request → ℕ
hits w key start [] = 0
hits w key start (r ∷ rs) =
    let rest = hits w key start rs in
    if r.key == key && window_start_of w r.at == start then rest + 1 else rest

count_of-consume_all :
    (w k s : ℕ) (rs : List Request) → count_of k s (consume_all w rs []) ≡ hits w k s rs
unfolding consume
count_of-consume_all w k s [] = refl
count_of-consume_all w k s (r ∷ rs) =
    let start = window_start_of w r.at in
    ground (
      arith,
      count_of-upsert r.key start (start + w * 1000) k s (consume_all w rs []),
      count_of-consume_all w k s rs,
    )

in_window : (w now : ℕ) → 0 < w → now < window_start_of w now + w * 1000
unfolding window_start_of
in_window w now h = grind arith

within : (w now : ℕ) → window_start_of w now + w * 1000 ≤ now + w * 1000
unfolding window_start_of
within w now = grind arith

-- After any requests of any processes, a request is answered with one more than the number of
-- earlier requests of its key in its window, and the window that it names contains it.
pub consume_exact :
    (window_seconds key now : ℕ) (rs : List Request)
    → 0 < window_seconds
    → let answer = (consume key window_seconds now (consume_all window_seconds rs [])).1 in
      (answer.count ≡ hits window_seconds key (window_start_of window_seconds now) rs + 1)
      × (now < answer.reset_at)
      × (answer.reset_at ≤ now + window_seconds * 1000)
unfolding consume
consume_exact w key now rs pos =
    let start = window_start_of w now in
    (
      omega (
        arith,
        upsert-count key start (start + w * 1000) (consume_all w rs []),
        count_of-consume_all w key start rs,
      ),
      in_window w now pos,
      within w now,
    )
