-- ===== src/Idempotency/Reservation.antt =====
-- What `reserveIdempotency` decides
-- (backend/src/modules/business/infrastructure/sales-repository-v2.ts).
use oculus_business.Common.{
  ℕ, false, not, Option, none, some, List, [], ◌∷◌, find, filter, any, if◌then◌else◌, ◌≡◌, inl, inr,
  refl, arith, Bool-cases, is_some, suc, ap, ◌∙◌, zero,
}
use oculus_business.Idempotency.{
  Slot, IdempotencyRecord, Reserve, newly_reserved, in_progress, already_completed, is_slot,
  is_reserved_record, is_stale_reservation, reservation, reserve_idempotency, reserve_steps,
  reserve_step, settled, ReservePhase, examine, creating, finding, deleting,
}

module _ {R : Type 0} where
  any-find :
      (s : Slot) (t : List (IdempotencyRecord R)) → any (is_slot s) t ≡ is_some (find (is_slot s) t)
  any-find s [] = refl
  any-find s (r ∷ t) = ground (arith, any-find s t)

  any-filter :
      (s : Slot) (t : List (IdempotencyRecord R))
      → any (is_slot s) (filter (λ r. not (is_slot s r)) t) ≡ false
  any-filter s [] = refl
  any-filter s (r ∷ t) = ground (arith, any-filter s t)

  -- What the call decides by the record of the slot.
  abbrev pub decide :
      Slot
      → ℕ
      → ℕ
      → List (IdempotencyRecord R)
      → Option (IdempotencyRecord R)
      → List (IdempotencyRecord R) × Reserve R
  decide s hash now t none = (reservation s hash now ∷ t, newly_reserved)
  decide s hash now t (some r) =
      if not (is_reserved_record r)
      then (t, already_completed r.request_hash r.result)
      else if is_stale_reservation now r
      then (reservation s hash now ∷ filter (λ x. not (is_slot s x)) t, newly_reserved)
      else (t, in_progress)

  settled_stays :
      (n : ℕ) (s : Slot) (hash now : ℕ) (t : List (IdempotencyRecord R)) (r : Reserve R)
      → reserve_steps n s hash now t (settled r) ≡ (t, settled r)
  unfolding reserve_steps
  settled_stays zero s hash now t r = refl
  settled_stays (suc n) s hash now t r = settled_stays n s hash now t r

  module _ (s : Slot) (hash now : ℕ) where
    stepping :
        (n : ℕ) (t t' : List (IdempotencyRecord R)) (p p' : ReservePhase R)
        → reserve_step s hash now now t p ≡ (t', p')
        → reserve_steps (suc n) s hash now t p ≡ reserve_steps n s hash now t' p'
    unfolding reserve_steps
    stepping n t t' p p' e =
        ap (λ (x : List (IdempotencyRecord R) × ReservePhase R). reserve_steps n s hash now x.0 x.1)
          e

    create_free :
        (n m : ℕ) (t : List (IdempotencyRecord R))
        → any (is_slot s) t ≡ false
        → reserve_steps (suc n) s hash now t (creating (suc m))
          ≡ (reservation s hash now ∷ t, settled newly_reserved)
    unfolding reserve_step
    create_free n m t e =
        stepping n t (reservation s hash now ∷ t) (creating (suc m)) (settled newly_reserved)
          (rw e refl)
        ∙ settled_stays n s hash now (reservation s hash now ∷ t) newly_reserved

    create_taken :
        (n m : ℕ) (t : List (IdempotencyRecord R)) (r : IdempotencyRecord R)
        → find (is_slot s) t ≡ some r
        → reserve_steps (suc (suc n)) s hash now t (creating (suc m))
          ≡ reserve_steps n s hash now t (examine now m (some r))
    unfolding reserve_step
    create_taken n m t r e =
        stepping (suc n) t t (creating (suc m)) (finding m) (rw (any-find s t, e) refl)
        ∙ stepping n t t (finding m) (examine now m (some r)) (rw e refl)

    take_over :
        (n m : ℕ) (t : List (IdempotencyRecord R))
        → reserve_steps (suc (suc n)) s hash now t (deleting (suc m))
          ≡ (reservation s hash now ∷ filter (λ x. not (is_slot s x)) t, settled newly_reserved)
    unfolding reserve_step
    take_over n m t =
        let rest = filter (λ x. not (is_slot s x)) t in
        stepping (suc n) t rest (deleting (suc m)) (creating (suc m)) refl
        ∙ create_free n m rest (any-filter s t)

    examined :
        (t : List (IdempotencyRecord R)) (r : IdempotencyRecord R)
        → reserve_steps 5 s hash now t (examine now 1 (some r))
          ≡ ((decide s hash now t (some r)).0, settled (decide s hash now t (some r)).1)
    examined t r = elim (Bool-cases (is_reserved_record r)) [
      | inl p ↦ elim (Bool-cases (is_stale_reservation now r)) [
        | inl q ↦ rw (p, q) (take_over 3 0 t)
        | inr q ↦ rw (p, q) (settled_stays 5 s hash now t in_progress)
      ]
      | inr p ↦ rw p (settled_stays 5 s hash now t (already_completed r.request_hash r.result))
    ]

    reserve_steps-decide :
        (t : List (IdempotencyRecord R)) (o : Option (IdempotencyRecord R))
        → find (is_slot s) t ≡ o
        → reserve_steps 7 s hash now t (creating 2)
          ≡ ((decide s hash now t o).0, settled (decide s hash now t o).1)
    reserve_steps-decide t none e = create_free 6 1 t (any-find s t ∙ ap is_some e)
    reserve_steps-decide t (some r) e = create_taken 5 1 t r e ∙ examined t r

  -- A reservation, alone on the table, ends within its two attempts: a free slot is reserved, a
  -- completed one gives its result, one reserved for over a minute is taken over, and any other is
  -- reported as running.
  pub reserve_idempotency-decide :
      (s : Slot) (hash now : ℕ) (t : List (IdempotencyRecord R))
      → reserve_idempotency s hash now t ≡ decide s hash now t (find (is_slot s) t)
  unfolding reserve_idempotency
  reserve_idempotency-decide s hash now t =
      rw (reserve_steps-decide s hash now t (find (is_slot s) t) refl) refl
