-- ===== src/RateLimit/Memory/Examples.antt =====
-- A small table of counters.
use oculus_business.Common.{◌+◌, ◌≤◌, ◌<◌, ◌≡◌, refl, some, List, [], ◌∷◌, length, arith}
use oculus_business.RateLimit.Memory.{
  Bucket, Buckets, Options, get, put, evict_one_unexhausted_bucket, delete_expired_buckets,
  make_room, new_window, consume_found, consume,
}
use oculus_business.RateLimit.Memory.Laws.{
  Request, consume_all, hits, length-consume, consume_all_limited,
}

-- A budget of 2 and room for two keys.
abbrev options : Options
options = record { max = 2; tracked_key_limit = 2 }

abbrev spent : Bucket
spent = record { count = 2; reset_at = 60000 }

abbrev table : Buckets
table = (7, spent) ∷ (8, record { count = 1; reset_at = 60000 }) ∷ []

-- A third key evicts key 8, which is below its budget, and not key 7.
third_key_evicts_cheap :
    (consume options 9 60 100 table).0
    ≡ (7, spent) ∷ (9, record { count = 1; reset_at = 60100 }) ∷ []
unfolding consume consume_found new_window make_room evict_one_unexhausted_bucket
    delete_expired_buckets get put
third_key_evicts_cheap = refl

length-consume_example : length (consume options 9 60 100 table).0 ≤ 2
length-consume_example = length-consume options 9 60 100 table (omega arith)

abbrev flood : List Request
flood =
    record { key = 9; at = 100 } ∷ record { key = 7; at = 200 } ∷ record { key = 10; at = 300 } ∷ []

consume_all_limited_example :
    let t' = consume_all options 60 flood table in
    (get 7 t' ≡ some (record { count = 2 + hits 7 flood; reset_at = 60000 }))
    × (2 < (consume options 7 60 400 t').1.count)
unfolding get
consume_all_limited_example =
    consume_all_limited options 60 7 400 spent flood table refl (omega arith) (omega arith)
      (omega arith)
