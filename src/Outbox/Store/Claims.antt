-- ===== src/Outbox/Store/Claims.antt =====
-- Exclusive claims and fenced completions (`claimTask`, `completeTask` of outbox/store.ts).
use native.Mathlib.Decide.{ℕ_discrete}
use oculus_business.Common.{
  ℕ, ◌+◌, true, false, ◌≡◌, ◌≢◌, refl, some, none, [], ◌∷◌, All, arith, leb, if◌then◌else◌,
}
use oculus_business.Outbox.Store.{
  TaskRow, Table, TaskCompletion, may_claim, claimed, is_owned, completed, update_where, claim_task,
  complete_task, is_stale, recover_stale_leases, recovered,
}
use oculus_business.Outbox.Store.Rows.{UniqueIds, update_where_none, All-update_where}

-- The row can be neither claimed by `id` nor completed under `other`.
abbrev pub IsSealed : ℕ → ℕ → ℕ → TaskRow → Type 0
IsSealed id now other r = (may_claim id now r ≡ false) × (is_owned id other r ≡ false)

-- Rows with another identifier are out of reach.
All-IsSealed_other :
    (id now other : ℕ) (t : Table) → All (λ r. r.id ≢ id) t → All (IsSealed id now other) t
All-IsSealed_other id now other [] h = tt
All-IsSealed_other id now other (r ∷ t) h =
    ((ground arith, ground arith), All-IsSealed_other id now other t h.1)

All-not_claimable :
    (id now other : ℕ) (t : Table)
    → All (IsSealed id now other) t
    → All (λ r. may_claim id now r ≡ false) t
All-not_claimable id now other [] h = tt
All-not_claimable id now other (r ∷ t) h = (h.0.0, All-not_claimable id now other t h.1)

All-not_owned :
    (id now other : ℕ) (t : Table)
    → All (IsSealed id now other) t
    → All (λ r. is_owned id other r ≡ false) t
All-not_owned id now other [] h = tt
All-not_owned id now other (r ∷ t) h = (h.0.1, All-not_owned id now other t h.1)

module _ (id now token at now' other : ℕ) (ne : token ≢ other) where
  abbrev claim_rows : Table → Table × ℕ
  claim_rows = update_where (may_claim id now) (claimed token at)

  claim_rows_other : (t : Table) → All (λ r. r.id ≢ id) t → claim_rows t ≡ (t, 0)
  claim_rows_other t h =
      update_where_none (may_claim id now) (claimed token at) t
        (All-not_claimable id now other t (All-IsSealed_other id now other t h))

  same_id :
      (t : Table) (r : TaskRow) → r.id ≡ id → All (λ x. x.id ≢ r.id) t → All (λ x. x.id ≢ id) t
  same_id t r e h = rw e at h

  -- After a claim that matched, nobody can claim the row again or complete it by another token.
  claim_rows-IsSealed :
      (t : Table)
      → UniqueIds t
      → (claim_rows t).1 ≢ 0
      → All (IsSealed id now' other) (claim_rows t).0
  unfolding update_where
  claim_rows-IsSealed [] u s = tt
  claim_rows-IsSealed (r ∷ t) u s = elim (ℕ_discrete r.id id) [
    | yes e ↦
        let far = same_id t r e u.0 in
        ground (arith, claim_rows_other t far, All-IsSealed_other id now' other t far)
    | no d ↦ ground (arith, claim_rows-IsSealed t u.1)
  ]

module _ (completion : TaskCompletion) (id now token at now' at' : ℕ) where
  abbrev finish_rows : Table → Table × ℕ
  finish_rows = update_where (is_owned id token) (completed completion now' at')

  finish_rows_other : (t : Table) → All (λ r. r.id ≢ id) t → finish_rows t ≡ (t, 0)
  finish_rows_other t h =
      update_where_none (is_owned id token) (completed completion now' at') t
        (All-not_owned id now token t (All-IsSealed_other id now token t h))

  finish_claimed :
      (t : Table)
      → UniqueIds t
      → (update_where (may_claim id now) (claimed token at) t).1 ≢ 0
      → (finish_rows (update_where (may_claim id now) (claimed token at) t).0).1 ≡ 1
  unfolding update_where
  finish_claimed [] u s = absurd (s refl)
  finish_claimed (r ∷ t) u s = elim (ℕ_discrete r.id id) [
    | yes e ↦
        let far : All (λ x. x.id ≢ id) t = rw e at u.0 in
        ground (
          arith,
          finish_rows_other t far,
          update_where_none (may_claim id now) (claimed token at) t
              (All-not_claimable id now token t (All-IsSealed_other id now token t far)),
        )
    | no d ↦ ground (arith, finish_claimed t u.1)
  ]

  -- A recovery of stale leases comes between: is the row still held?
  module _ (lease checked at'' : ℕ) where
    abbrev recover_rows : Table → Table × ℕ
    recover_rows = update_where (is_stale lease checked) (recovered checked at'')

    recover_rows_other :
        (t : Table) → All (λ x. x.id ≢ id) t → All (λ x. x.id ≢ id) (recover_rows t).0
    recover_rows_other t h =
        All-update_where (is_stale lease checked) (recovered checked at'') (λ x. x.id ≢ id) t
          (λ r k e. k) h

    finish_recovered :
        (t : Table)
        → UniqueIds t
        → (update_where (may_claim id now) (claimed token at) t).1 ≢ 0
        → (finish_rows (recover_rows (update_where (may_claim id now) (claimed token at) t).0).0).1
          ≡ (if leb checked (at + lease) then 1 else 0)
    unfolding update_where
    finish_recovered [] u s = absurd (s refl)
    finish_recovered (r ∷ t) u s = elim (ℕ_discrete r.id id) [
      | yes e ↦
          let far : All (λ x. x.id ≢ id) t = rw e at u.0 in
          ground (
            arith,
            finish_rows_other t far,
            finish_rows_other (recover_rows t).0 (recover_rows_other t far),
            update_where_none (may_claim id now) (claimed token at) t
                (All-not_claimable id now token t (All-IsSealed_other id now token t far)),
          )
      | no d ↦ ground (arith, finish_recovered t u.1)
    ]

claim_task-count :
    (id now token at : ℕ) (t : Table)
    → (claim_task id now token at t).1 ≡ some token
    → (update_where (may_claim id now) (claimed token at) t).1 ≢ 0
unfolding claim_task
claim_task-count id now token at t h = ground arith

module _ (id now token at : ℕ) (t : Table) (unique : UniqueIds t)
    (won : (claim_task id now token at t).1 ≡ some token) where
  -- A claim is exclusive: in a table with unique identifiers, once a claim of a row has succeeded,
  -- a second claim of that row, at any time and with any token, gets nothing and changes nothing.
  pub claim_task_exclusive :
      (now' other at' : ℕ)
      → claim_task id now' other at' (claim_task id now token at t).0
        ≡ ((claim_task id now token at t).0, none)
  unfolding claim_task
  claim_task_exclusive now' other at' =
      let t' = (update_where (may_claim id now) (claimed token at) t).0 in
      let sealed =
        claim_rows-IsSealed id now token at now' (token + 1) (omega arith) t unique
          (claim_task-count id now token at t won) in
      rw
        (update_where_none (may_claim id now') (claimed other at') t'
          (All-not_claimable id now' (token + 1) t' sealed))
        refl

  -- A completion is fenced: in a table with unique identifiers, once a claim of a row has
  -- succeeded, whoever presents another token writes nothing and learns that the row is not theirs.
  pub complete_task_fenced :
      (completion : TaskCompletion) (now' other at' : ℕ)
      → token ≢ other
      → complete_task completion id now' other at' (claim_task id now token at t).0
        ≡ ((claim_task id now token at t).0, false)
  unfolding claim_task complete_task
  complete_task_fenced completion now' other at' ne =
      let t' = (update_where (may_claim id now) (claimed token at) t).0 in
      let sealed =
        claim_rows-IsSealed id now token at now' other ne t unique
          (claim_task-count id now token at t won) in
      rw
        (update_where_none (is_owned id other) (completed completion now' at') t'
          (All-not_owned id now' other t' sealed))
        refl

  -- In a table with unique identifiers, a completion by the token of a successful claim is accepted
  -- where nothing comes between. Where one recovery of stale leases comes between, at the time
  -- `checked`, it is accepted exactly when the lease, counted from the claim, has not run out by then.
  pub complete_task_owner :
      (completion : TaskCompletion) (now' at' lease checked at'' : ℕ)
      → let t' = (claim_task id now token at t).0 in
        ((complete_task completion id now' token at' t').1 ≡ true)
        × ((complete_task completion id now' token at'
              (recover_stale_leases lease checked at'' t').0).1
            ≡ leb checked (at + lease))
  unfolding claim_task complete_task recover_stale_leases
  complete_task_owner completion now' at' lease checked at'' =
      let won' = claim_task-count id now token at t won in
      (
        rw (finish_claimed completion id now token at now' at' t unique won') refl,
        rw (finish_recovered completion id now token at now' at' lease checked at'' t unique won')
            (ground arith),
      )
