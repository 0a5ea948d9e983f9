-- ===== src/RateLimit/Database/Examples.antt =====
-- Requests of two processes on one table.
use oculus_business.Common.{◌+◌, ◌*◌, ◌≤◌, ◌<◌, ◌≡◌, refl, List, [], ◌∷◌, arith}
use oculus_business.RateLimit.Database.{upsert, window_start_of, consume}
use oculus_business.RateLimit.Database.Laws.{Request, consume_all, hits, consume_exact}

-- Two hits of key 5 in the first minute, one in the second.
abbrev seen : List Request
seen =
    record { key = 5; at = 61000 }
    ∷ record { key = 5; at = 20000 }
    ∷ record { key = 5; at = 1000 }
    ∷ []

third_hit : (consume 5 60 59999 (consume_all 60 seen [])).1 ≡ record { count = 3; reset_at = 60000 }
unfolding consume upsert window_start_of
third_hit = refl

consume_exact_example :
    let answer = (consume 5 60 59999 (consume_all 60 seen [])).1 in
    (answer.count ≡ hits 60 5 (window_start_of 60 59999) seen + 1)
    × (59999 < answer.reset_at)
    × (answer.reset_at ≤ 59999 + 60 * 1000)
consume_exact_example = consume_exact 60 5 59999 seen (omega arith)
