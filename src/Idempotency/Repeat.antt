-- ===== src/Idempotency/Repeat.antt =====
-- A repeated request does not repeat the operation: `withIdempotency` of
-- backend/src/modules/business/application/sales-service.ts.
use oculus_business.Idempotency.Reservation.{decide, reserve_idempotency-decide}
use oculus_business.Common.{
  ℕ, List, ◌≡◌, some, find, true, arith, ◌∷◌, false, Option, if◌then◌else◌, ◌==◌, none, [], filter,
  Bool-cases, inl, inr, not, ==_iff, refl,
}
use mathlib.Core.Path.{subst}
use oculus_business.Common.Rows.{update_many}
use oculus_business.Idempotency.{
  Slot, IdempotencyRecord, Stored, complete_idempotency, same_slot, is_completed, reservation,
  is_slot, is_reserved_record, with_idempotency, Served, store_completion, Outcome, Completion,
  fail, after_run, stored_result, ok, after_reserve, returned, conflict, key_reused, RepeatMessage,
  is_stale_reservation, reserve_idempotency,
}

same_slot_refl : (s : Slot) → same_slot s s ≡ true
same_slot_refl s = ground arith

module _ {R : Type 0} where
  -- The record that a completed operation leaves.
  abbrev completed_record : ℕ → ℕ → Stored R → IdempotencyRecord R → IdempotencyRecord R
  completed_record hash now result r = record r {
    state = is_completed;
    request_hash = hash;
    result = some result;
    updated_at = now;
  }

  abbrev completed_found :
      ℕ → ℕ → Stored R → Option (IdempotencyRecord R) → Option (IdempotencyRecord R)
  completed_found hash now result none = none
  completed_found hash now result (some r) = some (completed_record hash now result r)

  find-complete_idempotency :
      (s : Slot) (hash now : ℕ) (result : Stored R) (t : List (IdempotencyRecord R))
      → find (is_slot s) (complete_idempotency s hash now result t)
        ≡ completed_found hash now result (find (is_slot s) t)
  unfolding complete_idempotency update_many
  find-complete_idempotency s hash now result [] = refl
  find-complete_idempotency s hash now result (r ∷ t) =
      ground (arith, find-complete_idempotency s hash now result t)

  -- What a slot answers with.
  abbrev pub IsAnswered : Slot → ℕ → Option (Stored R) → List (IdempotencyRecord R) → Type 0
  IsAnswered s hash result t =
      (r : IdempotencyRecord R) × (find (is_slot s) t ≡ some r)
      × (is_reserved_record r ≡ false)
      × (r.request_hash ≡ hash)
      × (r.result ≡ result)

  reserved-IsAnswered :
      (s : Slot) (hash now : ℕ) (result : Stored R) (t : List (IdempotencyRecord R))
      → IsAnswered s hash
          (some result)
          (complete_idempotency s hash now result (reservation s hash now ∷ t))
  reserved-IsAnswered s hash now result t =
      let r = reservation s hash now in
      (
        completed_record hash now result r,
        rw (find-complete_idempotency s hash now result (r ∷ t), same_slot_refl s) refl,
        refl,
        refl,
        refl,
      )

module _ {S M R : Type 0} where
  with_idempotency-reserve :
      (run : S → S × Outcome M R) (completion : Completion) (s : Slot) (hash now : ℕ) (w : S)
      → (t : List (IdempotencyRecord R))
      → with_idempotency run completion (some s) hash now w t
        ≡ after_reserve run completion s hash now w
            (reserve_idempotency s hash now t).0
            (reserve_idempotency s hash now t).1
  unfolding with_idempotency
  with_idempotency-reserve run completion s hash now w t = refl

  -- An answered slot answers again, and nothing is run.
  answered_again :
      (run : S → S × Outcome M R) (completion : Completion) (s : Slot) (hash hash' now : ℕ) (w : S)
      → (result : Option (Stored R)) → (t : List (IdempotencyRecord R)) → IsAnswered s hash result t
      → with_idempotency run completion (some s) hash' now w t
        ≡ ((w, t), if hash == hash' then ok result else fail conflict key_reused)
  answered_again run completion s hash hash' now w result t (r, e, done, h, x) =
      rw
        (
          with_idempotency-reserve run completion s hash' now w t,
          reserve_idempotency-decide s hash' now t,
          e,
          done,
          h,
          x,
        )
        (ground arith)

  abbrev pub RepeatsOf : Slot → ℕ → Served S M R → Type 0
  RepeatsOf s hash (wt, fail kind message) = Unit
  RepeatsOf s hash (wt, ok result) = IsAnswered s hash result wt.1

  after_run-repeats :
      (s : Slot) (hash now : ℕ) (x : S × Outcome M R) (t : List (IdempotencyRecord R))
      → RepeatsOf s hash (after_run stored_result s hash now x (reservation s hash now ∷ t))
  unfolding store_completion
  after_run-repeats s hash now (w, ok r) t = reserved-IsAnswered s hash now (returned r) t
  after_run-repeats s hash now (w, fail k m) t = tt

  decided-repeats :
      (run : S → S × Outcome M R) (s : Slot) (hash now : ℕ) (w : S)
      → (t : List (IdempotencyRecord R)) → (o : Option (IdempotencyRecord R))
      → find (is_slot s) t ≡ o
      → RepeatsOf s hash (
          after_reserve run stored_result s hash now w
            (decide s hash now t o).0
            (decide s hash now t o).1)
  decided-repeats run s hash now w t none e = after_run-repeats s hash now (run w) t
  decided-repeats run s hash now w t (some r) e = elim (Bool-cases (is_reserved_record r)) [
    | inl p ↦ elim (Bool-cases (is_stale_reservation now r)) [
      | inl q ↦ rw (p, q) (after_run-repeats s hash now (run w) (filter (λ x. not (is_slot s x)) t))
      | inr q ↦ rw (p, q) tt
    ]
    | inr p ↦ elim (Bool-cases (r.request_hash == hash)) [
      | inl q ↦ rw (p, q) (r, e, p, (==_iff r.request_hash hash).0 q, refl)
      | inr q ↦ rw (p, q) tt
    ]
  ]

  first-repeats :
      (run : S → S × Outcome M R) (s : Slot) (hash now : ℕ) (w : S)
      → (t : List (IdempotencyRecord R))
      → RepeatsOf s hash (with_idempotency run stored_result (some s) hash now w t)
  first-repeats run s hash now w t =
      rw
        (
          with_idempotency-reserve run stored_result s hash now w t,
          reserve_idempotency-decide s hash now t,
        )
        (decided-repeats run s hash now w t _ refl)

  -- Once a request with a key has succeeded and its result was stored, any later request with the
  -- key gets the same result and runs nothing if its payload is the same, and is refused and runs
  -- nothing if it is another; the state and the records stay as they are.
  pub with_idempotency_repeat :
      (run run' : S → S × Outcome M R) (completion : Completion) (s : Slot)
      → (hash hash' now later : ℕ) → (w : S) → (t : List (IdempotencyRecord R))
      → (result : Option (Stored R))
      → (with_idempotency run stored_result (some s) hash now w t).1 ≡ ok result
      → let (wt, answer) = with_idempotency run stored_result (some s) hash now w t in
        with_idempotency run' completion (some s) hash' later wt.0 wt.1
        ≡ ((wt.0, wt.1), if hash == hash' then ok result else fail conflict key_reused)
  with_idempotency_repeat run run' completion s hash hash' now later w t result e =
      let first = with_idempotency run stored_result (some s) hash now w t in
      answered_again run' completion s hash hash' later first.0.0 result first.0.1 (
        subst (λ (a : Outcome (RepeatMessage M) (Option (Stored R))). RepeatsOf s hash (first.0, a))
          e (first-repeats run s hash now w t))
