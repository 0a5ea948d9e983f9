-- ===== src/Idempotency/Examples.antt =====
-- Tests of reservations, and the theorem at one operation.
use oculus_business.Common.{ℕ, ◌+◌, ◌≡◌, refl, some, List, [], ◌∷◌, ◌==◌, if◌then◌else◌}
use oculus_business.Common.Outcome.{Outcome, ok, fail, conflict, validation}
use oculus_business.Idempotency.{
  Slot, IdempotencyRecord, returned, stored_result, stored_nothing, key_reused, newly_reserved,
  creating, finding, deleting, settled, reserve_step, with_idempotency, complete_idempotency,
  reservation, Served, from_run,
}
use oculus_business.Idempotency.Repeat.{with_idempotency_repeat}

abbrev pay : Slot
pay = record { actor_id = 1; operation = 2; key = 3 }

-- An operation that counts its runs and answers with the count.
abbrev count_up : ℕ → ℕ × Outcome ℕ ℕ
count_up n = (n + 1, ok (n + 1))

abbrev refuse : ℕ → ℕ × Outcome ℕ ℕ
refuse n = (n, fail validation 7)

abbrev no_records : List (IdempotencyRecord ℕ)
no_records = []

repeated :
    with_idempotency count_up stored_result
      (some pay)
      50
      2000
      1
      (with_idempotency count_up stored_result (some pay) 50 1000 0 no_records).0.1
    ≡ (
      (1, (with_idempotency count_up stored_result (some pay) 50 1000 0 no_records).0.1),
      ok (some (returned 1)),
    )
unfolding with_idempotency complete_idempotency
repeated = refl

failure_releases :
    with_idempotency refuse stored_result (some pay) 50 1000 0 no_records
    ≡ ((0, []), fail validation (from_run 7))
unfolding with_idempotency
failure_releases = refl

-- A result that could not be stored blocks the key for a minute, and then the operation runs again.
unstored : Served ℕ ℕ ℕ
unstored = with_idempotency count_up stored_nothing (some pay) 50 1000 0 no_records

unstored_runs_again :
    (with_idempotency count_up stored_result (some pay) 50 61001 1 unstored.0.1).0.0 ≡ 2
unfolding with_idempotency unstored complete_idempotency
unstored_runs_again = refl

abbrev stale : List (IdempotencyRecord ℕ)
stale = reservation pay 50 1000 ∷ []

-- Two requests that have both read one stale record both delete and create: the second deletion
-- removes the reservation of the first, and both hold the key.
abbrev second_deletion : List (IdempotencyRecord ℕ)
second_deletion =
    (reserve_step pay 50 70000 70002
      (reserve_step pay 50 70000 70001 (reserve_step pay 50 70000 70000 stale (deleting 1)).0
        (creating 1)).0
      (deleting 1)).0

both_reserve :
    (reserve_step pay 50 70000 70000 stale (finding 1) ≡ (stale, deleting 1))
    × ((reserve_step pay 50 70000 70001
          (reserve_step pay 50 70000 70000 stale (deleting 1)).0
          (creating 1)).1
        ≡ settled newly_reserved)
    × ((reserve_step pay 50 70000 70002 second_deletion (creating 1)).1 ≡ settled newly_reserved)
unfolding reserve_step
both_reserve = (refl, refl, refl)

with_idempotency_repeat_example :
    let (wt, answer) = with_idempotency count_up stored_result (some pay) 50 1000 0 no_records in
    with_idempotency refuse stored_nothing (some pay) 51 2000 wt.0 wt.1
    ≡ ((wt.0, wt.1), if 50 == 51 then ok (some (returned 1)) else fail conflict key_reused)
unfolding with_idempotency
with_idempotency_repeat_example =
    with_idempotency_repeat count_up refuse stored_nothing pay 50 51 1000 2000 0 no_records
      (some (returned 1)) refl
