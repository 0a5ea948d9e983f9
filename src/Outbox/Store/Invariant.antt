-- ===== src/Outbox/Store/Invariant.antt =====
-- What holds of the outbox table between statements, whoever runs them and in whatever order
-- (outbox/store.ts; the unique indices of backend/prisma/schema.prisma).
use oculus_business.Common.{
  ℕ, Bool, true, false, not, ◌≡◌, ◌≢◌, refl, none, is_some, [], ◌∷◌, All, arith, inl, inr,
  Bool-cases, Option-cases, find, filter,
}
use oculus_business.Outbox.Store.{
  TaskRow, TaskStatus, Table, TaskCompletion, EnqueueInput, pending, processing, empty_payload,
  is_stale, recovered, may_claim, claimed, is_owned, completed, update_where, same_task,
  insert_task, recover_stale_leases, claim_task, complete_task, is_listed, expired_ids,
  delete_expired_tasks,
}
use oculus_business.Outbox.Store.Rows.{UniqueIds, All-update_where, UniqueIds-update_where}

-- Who holds a row, and what is left in it, by its status.
abbrev pub RowAt : TaskStatus → TaskRow → Type 0
RowAt pending r = (r.processing_token ≡ none) × (r.processed_at ≡ none) × (r.redacted_at ≡ none)
RowAt processing r =
    (is_some r.processing_token ≡ true) × (r.processed_at ≡ none) × (r.redacted_at ≡ none)
RowAt _ r =
    (r.payload ≡ empty_payload)
    × (r.processing_token ≡ none)
    × (is_some r.processed_at ≡ true)
    × (r.redacted_at ≡ r.processed_at)

abbrev pub IsWellFormed : TaskRow → Type 0
IsWellFormed r = RowAt r.status r

-- At most one row for each type and dedupe key.
abbrev pub UniqueKeys : Table → Type 0
UniqueKeys [] = Unit
UniqueKeys (r ∷ t) = All (λ (x : TaskRow). same_task r.type r.dedupe_key x ≡ false) t × UniqueKeys t

pub record IsValid (t : Table) : Type 0 where
  pub rows : All IsWellFormed t
  pub ids : UniqueIds t
  pub keys : UniqueKeys t

-- One statement of any process. The database gives a new row an identifier that is not in use.
pub data Step : Table → Table → Type 0 where
  insert :
      (id : ℕ) (input : EnqueueInput) (at : ℕ) (t : Table)
      → All (λ r. r.id ≢ id) t
      → Step t (insert_task id input at t).0
  recover : (lease now at : ℕ) (t : Table) → Step t (recover_stale_leases lease now at t).0
  claim : (id now token at : ℕ) (t : Table) → Step t (claim_task id now token at t).0
  complete :
      (completion : TaskCompletion) (id now token at : ℕ) (t : Table)
      → Step t (complete_task completion id now token at t).0
  sweep : (limit now days : ℕ) (t : Table) → Step t (delete_expired_tasks limit now days t).0

pub data Reach (s : Table) : Table → Type 0 where
  here : Reach s s
  next : {t u : Table} → Reach s t → Step t u → Reach s u

-- Each change of a row keeps it well formed.
completed-IsWellFormed :
    (c : TaskCompletion) (id token now at : ℕ) (r : TaskRow)
    → IsWellFormed r
    → is_owned id token r ≡ true
    → IsWellFormed (completed c now at r)
completed-IsWellFormed (TaskCompletion.terminal a e s) id token now at r w h = ground arith
completed-IsWellFormed (TaskCompletion.retry a e s) id token now at r w h = ground arith

recovered-IsWellFormed :
    (lease now at : ℕ) (r : TaskRow)
    → IsWellFormed r
    → is_stale lease now r ≡ true
    → IsWellFormed (recovered now at r)
recovered-IsWellFormed lease now at r w h = ground arith

claimed-IsWellFormed :
    (id now token at : ℕ) (r : TaskRow)
    → IsWellFormed r
    → may_claim id now r ≡ true
    → IsWellFormed (claimed token at r)
claimed-IsWellFormed id now token at r w h = ground arith

completed-keys :
    (c : TaskCompletion) (now at : ℕ) (r : TaskRow)
    → ((completed c now at r).id ≡ r.id)
      × ((completed c now at r).type ≡ r.type)
      × ((completed c now at r).dedupe_key ≡ r.dedupe_key)
completed-keys (TaskCompletion.terminal a e s) now at r = (refl, refl, refl)
completed-keys (TaskCompletion.retry a e s) now at r = (refl, refl, refl)

module _ (p : TaskRow → Bool) (f : TaskRow → TaskRow)
    (same : (r : TaskRow)
      → ((f r).id ≡ r.id) × ((f r).type ≡ r.type) × ((f r).dedupe_key ≡ r.dedupe_key)) where
  UniqueKeys-update_where : (t : Table) → UniqueKeys t → UniqueKeys (update_where p f t).0
  unfolding update_where
  UniqueKeys-update_where [] u = tt
  UniqueKeys-update_where (r ∷ t) u =
      let rest = UniqueKeys-update_where t u.1 in
      let apart =
        All-update_where p f (λ x. same_task r.type r.dedupe_key x ≡ false) t
          (λ x h e. rw ((same x).1, (same x).2) h) u.0 in
      elim (Bool-cases (p r)) [
        | inl e ↦ rw e (rw ((same r).1, (same r).2) apart, rest)
        | inr e ↦ rw e (apart, rest)
      ]

  update_where-IsValid :
      (t : Table)
      → ((r : TaskRow) → IsWellFormed r → p r ≡ true → IsWellFormed (f r))
      → IsValid t
      → IsValid (update_where p f t).0
  update_where-IsValid t keep v = record {
    rows = All-update_where p f IsWellFormed t keep v.rows;
    ids = UniqueIds-update_where p f t (λ r. (same r).0) v.ids;
    keys = UniqueKeys-update_where t v.keys;
  }

find-none :
    (type key : ℕ) (t : Table)
    → find (same_task type key) t ≡ none
    → All (λ x. same_task type key x ≡ false) t
find-none type key [] h = tt
find-none type key (r ∷ t) h = ground (arith, find-none type key t)

insert_task-IsValid :
    (id : ℕ) (input : EnqueueInput) (at : ℕ) (t : Table)
    → All (λ r. r.id ≢ id) t
    → IsValid t
    → IsValid (insert_task id input at t).0
unfolding insert_task
insert_task-IsValid id input at t fresh v =
    elim (Option-cases (find (same_task input.type input.dedupe_key) t)) [
      | inl e ↦
          rw (e, insert_task)
            (record {
              rows = ((refl, refl, refl), v.rows);
              ids = (fresh, v.ids);
              keys = (find-none input.type input.dedupe_key t e, v.keys);
            })
      | inr (r, e) ↦ rw (e, insert_task) v
    ]

module _ (keep : TaskRow → Bool) where
  All-filter : (P : TaskRow → Type 0) (t : Table) → All P t → All P (filter keep t)
  All-filter P [] h = tt
  All-filter P (r ∷ t) h = ground (arith, All-filter P t h.1)

  UniqueIds-filter : (t : Table) → UniqueIds t → UniqueIds (filter keep t)
  UniqueIds-filter [] u = tt
  UniqueIds-filter (r ∷ t) u =
      ground (arith, UniqueIds-filter t u.1, All-filter (λ x. x.id ≢ r.id) t u.0)

  UniqueKeys-filter : (t : Table) → UniqueKeys t → UniqueKeys (filter keep t)
  UniqueKeys-filter [] u = tt
  UniqueKeys-filter (r ∷ t) u = ground (
    arith,
    UniqueKeys-filter t u.1,
    All-filter (λ x. same_task r.type r.dedupe_key x ≡ false) t u.0,
  )

-- Every statement keeps the invariant.
Step-IsValid : {t u : Table} → Step t u → IsValid t → IsValid u
unfolding recover_stale_leases claim_task complete_task delete_expired_tasks
Step-IsValid (insert id input at t fresh) v = insert_task-IsValid id input at t fresh v
Step-IsValid (recover lease now at t) v =
    update_where-IsValid (is_stale lease now) (recovered now at) (λ r. (refl, refl, refl)) t
      (recovered-IsWellFormed lease now at) v
Step-IsValid (claim id now token at t) v =
    update_where-IsValid (may_claim id now) (claimed token at) (λ r. (refl, refl, refl)) t
      (claimed-IsWellFormed id now token at) v
Step-IsValid (complete c id now token at t) v =
    update_where-IsValid (is_owned id token) (completed c now at) (completed-keys c now at) t
      (completed-IsWellFormed c id token now at) v
Step-IsValid (sweep limit now days t) v =
    let keep = λ (r : TaskRow). not (is_listed (expired_ids limit now days t) r) in
    record {
      rows = All-filter keep IsWellFormed t v.rows;
      ids = UniqueIds-filter keep t v.ids;
      keys = UniqueKeys-filter keep t v.keys;
    }

-- Whatever statements run, by any number of processes and in any order, from an empty table: a row
-- that waits has no holder, a row that is processed has one, a row that has ended has lost its
-- payload and its holder and is stamped with one time; no identifier is used twice, and no type
-- and dedupe key are queued twice.
pub Reach-IsValid : {t : Table} → Reach [] t → IsValid t
Reach-IsValid here = record { rows = tt; ids = tt; keys = tt }
Reach-IsValid (next r s) = Step-IsValid s (Reach-IsValid r)
