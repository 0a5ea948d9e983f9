-- ===== src/Idempotency.antt =====
-- Repeated requests: `withIdempotency` of
-- backend/src/modules/business/application/sales-service.ts, and `reserveIdempotency`,
-- `completeIdempotency` and `releaseIdempotency` of
-- backend/src/modules/business/infrastructure/sales-repository-v2.ts. Actors, operations, keys and
-- hashes of payloads are only compared, so they are numbers. Each statement of a reservation is a
-- step, so that two reservations can interleave.
pub mod Reservation
pub mod Repeat
mod Examples
use oculus_business.Common.{
  ℕ, zero, suc, ◌+◌, Bool, true, false, not, ◌&&◌, ◌==◌, Option, none, some, List, [], ◌∷◌, find,
  filter, any, ltb, if◌then◌else◌,
}
use oculus_business.Common.Outcome.{Outcome, ok, fail, FailureKind, conflict}
use oculus_business.Common.Rows.{update_many}

-- What is asked for: the unique index of the table.
pub record Slot : Type 0 where
  pub actor_id : ℕ
  pub operation : ℕ
  pub key : ℕ

pub data RecordState : Type 0 where
  is_reserved is_completed : RecordState

-- The stored value, or the marker `result_unknown`.
pub data Stored (R : Type 0) : Type 0 where
  returned : R → Stored R
  result_unknown : Stored R

pub record IdempotencyRecord (R : Type 0) : Type 0 where
  pub slot : Slot
  pub request_hash : ℕ
  pub result : Option (Stored R)
  pub state : RecordState
  pub updated_at : ℕ

pub data Reserve (R : Type 0) : Type 0 where
  newly_reserved in_progress : Reserve R
  already_completed : ℕ → Option (Stored R) → Reserve R

-- Where a reservation stands; the number counts the attempts that are left.
pub data ReservePhase (R : Type 0) : Type 0 where
  creating finding deleting : ℕ → ReservePhase R
  settled : Reserve R → ReservePhase R

-- What the call reports besides the messages of the operation itself.
pub data RepeatMessage (M : Type 0) : Type 0 where
  key_reused still_running : RepeatMessage M
  from_run : M → RepeatMessage M

-- Whether the result could be stored, only the marker, or neither.
pub data Completion : Type 0 where
  stored_result stored_marker stored_nothing : Completion

abbrev pub same_slot : Slot → Slot → Bool
same_slot a b = a.actor_id == b.actor_id && a.operation == b.operation && a.key == b.key

module _ {R : Type 0} where
  abbrev pub is_slot : Slot → IdempotencyRecord R → Bool
  is_slot s r = same_slot r.slot s

  abbrev pub is_reserved_record : IdempotencyRecord R → Bool
  is_reserved_record r = elim r.state [ is_reserved ↦ true | is_completed ↦ false ]

  -- `existing.updatedAt < staleBoundary`, where the boundary is a minute before `started`.
  abbrev pub is_stale_reservation : ℕ → IdempotencyRecord R → Bool
  is_stale_reservation started r = ltb (r.updated_at + 60000) started

  abbrev pub reservation : Slot → ℕ → ℕ → IdempotencyRecord R
  reservation s hash now = record {
    slot = s;
    request_hash = hash;
    result = none;
    state = is_reserved;
    updated_at = now;
  }

  -- What the existing record says.
  abbrev pub examine : ℕ → ℕ → Option (IdempotencyRecord R) → ReservePhase R
  examine started n none = creating n
  examine started n (some r) =
      if not (is_reserved_record r)
      then settled (already_completed r.request_hash r.result)
      else if is_stale_reservation started r
      then deleting n
      else settled in_progress

  -- One statement of `reserveIdempotency`: the insertion, which the unique index may refuse, the
  -- search, or the deletion.
  unfoldable pub reserve_step :
      Slot
      → ℕ
      → ℕ
      → ℕ
      → List (IdempotencyRecord R)
      → ReservePhase R
      → List (IdempotencyRecord R) × ReservePhase R
  reserve_step s hash started now t (creating zero) = (t, settled in_progress)
  reserve_step s hash started now t (creating (suc n)) =
      if any (is_slot s) t
      then (t, finding n)
      else (reservation s hash now ∷ t, settled newly_reserved)
  reserve_step s hash started now t (finding n) = (t, examine started n (find (is_slot s) t))
  reserve_step s hash started now t (deleting n) = (filter (λ r. not (is_slot s r)) t, creating n)
  reserve_step s hash started now t (settled r) = (t, settled r)

  -- Several statements in a row.
  unfoldable pub reserve_steps :
      ℕ
      → Slot
      → ℕ
      → ℕ
      → List (IdempotencyRecord R)
      → ReservePhase R
      → List (IdempotencyRecord R) × ReservePhase R
  unfolding reserve_step
  reserve_steps zero s hash now t p = (t, p)
  reserve_steps (suc n) s hash now t p =
      let (t', p') = reserve_step s hash now now t p in reserve_steps n s hash now t' p'

  abbrev pub settled_as : ReservePhase R → Reserve R
  settled_as (settled r) = r
  settled_as _ = in_progress

  -- `reserveIdempotency`, undisturbed: two attempts, of at most three statements each.
  unfoldable pub reserve_idempotency :
      Slot → ℕ → ℕ → List (IdempotencyRecord R) → List (IdempotencyRecord R) × Reserve R
  unfolding reserve_steps
  reserve_idempotency s hash now t =
      let (t', p) = reserve_steps 7 s hash now t (creating 2) in (t', settled_as p)

  -- `completeIdempotency`.
  unfoldable pub complete_idempotency :
      Slot → ℕ → ℕ → Stored R → List (IdempotencyRecord R) → List (IdempotencyRecord R)
  unfolding update_many
  complete_idempotency s hash now result t =
      (update_many (is_slot s)
        (λ (r : IdempotencyRecord R). record r {
          state = is_completed;
          request_hash = hash;
          result = some result;
          updated_at = now;
        })
        t).0

  -- `releaseIdempotency`.
  unfoldable pub release_idempotency :
      Slot → List (IdempotencyRecord R) → List (IdempotencyRecord R)
  release_idempotency s = filter (λ r. not (is_slot s r && is_reserved_record r))

  unfoldable pub store_completion :
      Completion → Slot → ℕ → ℕ → R → List (IdempotencyRecord R) → List (IdempotencyRecord R)
  unfolding complete_idempotency
  store_completion stored_result s hash now r t = complete_idempotency s hash now (returned r) t
  store_completion stored_marker s hash now r t = complete_idempotency s hash now result_unknown t
  store_completion stored_nothing s hash now r t = t

-- The state and the records after a request, and its answer.
abbrev pub Served : Type 0 → Type 0 → Type 0 → Type 0
Served S M R = (S × List (IdempotencyRecord R)) × Outcome (RepeatMessage M) (Option (Stored R))

module _ {S M R : Type 0} where
  -- After the operation ran on a reservation.
  abbrev pub after_run :
      Completion → Slot → ℕ → ℕ → S × Outcome M R → List (IdempotencyRecord R) → Served S M R
  after_run completion s hash now (w, ok r) t =
      ((w, store_completion completion s hash now r t), ok (some (returned r)))
  after_run completion s hash now (w, fail kind message) t =
      ((w, release_idempotency s t), fail kind (from_run message))

  abbrev pub after_reserve :
      (S → S × Outcome M R)
      → Completion
      → Slot
      → ℕ
      → ℕ
      → S
      → List (IdempotencyRecord R)
      → Reserve R
      → Served S M R
  after_reserve run completion s hash now w t newly_reserved =
      after_run completion s hash now (run w) t
  after_reserve run completion s hash now w t in_progress = ((w, t), fail conflict still_running)
  after_reserve run completion s hash now w t (already_completed hash' result) =
      if hash' == hash then ((w, t), ok result) else ((w, t), fail conflict key_reused)

  abbrev pub run_unkeyed : S × Outcome M R → List (IdempotencyRecord R) → Served S M R
  run_unkeyed (w, ok r) t = ((w, t), ok (some (returned r)))
  run_unkeyed (w, fail kind message) t = ((w, t), fail kind (from_run message))

  -- `withIdempotency` around an operation `run` on a state, at one time; none for the slot is a
  -- request without a key.
  unfoldable pub with_idempotency :
      (S → S × Outcome M R)
      → Completion
      → Option Slot
      → ℕ
      → ℕ
      → S
      → List (IdempotencyRecord R)
      → Served S M R
  unfolding reserve_idempotency store_completion release_idempotency
  with_idempotency run completion none hash now w t = run_unkeyed (run w) t
  with_idempotency run completion (some s) hash now w t =
      let (t', reserve) = reserve_idempotency s hash now t in
      after_reserve run completion s hash now w t' reserve
