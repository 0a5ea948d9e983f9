-- ===== src/Outbox/Store/Terminal.antt =====
-- What is final in the outbox: a task that has ended, and a task that is queued (outbox/store.ts).
use oculus_business.Common.{
  ℕ, ◌-◌, ◌*◌, zero, suc, Bool, true, false, not, ◌≡◌, ◌≢◌, refl, ap, sym, ◌∙◌, [], ◌∷◌, All, Has,
  arith, ◌==◌, ◌⊎◌, inl, inr, Bool-cases, filter, map, take, sort_by, Has-sort_by, ==_iff,
}
use oculus_business.Outbox.Store.{
  TaskRow, Table, EnqueueInput, is_terminal, is_stale, recovered, may_claim, claimed, is_owned,
  completed, insert_task, recover_stale_leases, claim_task, complete_task, is_expired, is_listed,
  expired_ids, delete_expired_tasks, day_ms, id_key, processed_key,
}
use mathlib.Core.Path.{subst}
use oculus_business.Outbox.Store.Rows.{UniqueIds, Has-update_where}
use oculus_business.Outbox.Store.Invariant.{IsValid, Step, insert, recover, claim, complete, sweep}

Has-take : (n : ℕ) (x : TaskRow) (t : Table) → Has x (take n t) → Has x t
Has-take zero x t h = absurd h
Has-take (suc n) x [] h = h
Has-take (suc n) x (r ∷ t) (inl e) = inl e
Has-take (suc n) x (r ∷ t) (inr h) = inr (Has-take n x t h)

Has-filter :
    (p : TaskRow → Bool) (x : TaskRow) (t : Table) → Has x (filter p t) → Has x t × (p x ≡ true)
Has-filter p x [] h = absurd h
Has-filter p x (r ∷ t) h = ground (arith, Has-filter p x t)

filter-Has :
    (p : TaskRow → Bool) (x : TaskRow) (t : Table) → Has x t → p x ≡ true → Has x (filter p t)
filter-Has p x [] h e = h
filter-Has p x (r ∷ t) h e = ground (arith, filter-Has p x t)

-- A listed row has the identifier of one of the rows.
is_listed-Has :
    (x : TaskRow) (t : Table)
    → is_listed (map id_key t) x ≡ true
    → (y : TaskRow) × Has y t × (x.id ≡ y.id)
is_listed-Has x [] h = cc
is_listed-Has x (r ∷ t) h = elim (Bool-cases (x.id == r.id)) [
  | inl e ↦ (r, inl refl, (==_iff x.id r.id).0 e)
  | inr e ↦ let (y, m, q) = is_listed-Has x t (rw e at h) in (y, inr m, q)
]

All-Has : (P : TaskRow → Type 0) (x : TaskRow) (t : Table) → All P t → Has x t → P x
All-Has P x [] h m = absurd m
All-Has P x (r ∷ t) h (inl e) = subst P e h.0
All-Has P x (r ∷ t) h (inr m) = All-Has P x t h.1 m

unique_Has : (x y : TaskRow) (t : Table) → UniqueIds t → Has x t → Has y t → x.id ≡ y.id → x ≡ y
unique_Has x y [] u m n e = absurd m
unique_Has x y (r ∷ t) u (inl p) (inl q) e = sym p ∙ q
unique_Has x y (r ∷ t) u (inl p) (inr n) e =
    absurd (All-Has (λ z. z.id ≢ r.id) y t u.0 n (sym e ∙ ap id_key (sym p)))
unique_Has x y (r ∷ t) u (inr m) (inl q) e =
    absurd (All-Has (λ z. z.id ≢ r.id) x t u.0 m (e ∙ ap id_key (sym q)))
unique_Has x y (r ∷ t) u (inr m) (inr n) e = unique_Has x y t u.1 m n e

-- Only an expired row is deleted.
delete_expired_tasks-Has :
    (limit now days : ℕ) (x : TaskRow) (t : Table)
    → UniqueIds t
    → Has x t
    → Has x (delete_expired_tasks limit now days t).0 ⊎ (is_expired (now - days * day_ms) x ≡ true)
unfolding delete_expired_tasks expired_ids
delete_expired_tasks-Has limit now days x t u m =
    let expired = filter (is_expired (now - days * day_ms)) t in
    let swept = take limit (sort_by processed_key expired) in
    elim (Bool-cases (is_listed (map id_key swept) x)) [
      | inr e ↦ inl (filter-Has (λ r. not (is_listed (map id_key swept) r)) x t m (rw e))
      | inl e ↦
          let (y, n, q) = is_listed-Has x swept e in
          let (there, old) = Has-filter (is_expired (now - days * day_ms)) y t (
            Has-sort_by processed_key y expired
              (Has-take limit y (sort_by processed_key expired) n)) in
          inr (rw (unique_Has x y t u m there q) old)
    ]

insert_task-Has :
    (id : ℕ) (input : EnqueueInput) (at : ℕ) (x : TaskRow) (t : Table)
    → Has x t
    → Has x (insert_task id input at t).0
unfolding insert_task
insert_task-Has id input at x t m = ground arith

-- The step is a sweep whose own cutoff the row is older than.
abbrev pub IsSweptBy : TaskRow → {t u : Table} → Step t u → Type 0
IsSweptBy x (insert id input at t fresh) = ⊥
IsSweptBy x (recover lease now at t) = ⊥
IsSweptBy x (claim id now token at t) = ⊥
IsSweptBy x (complete c id now token at t) = ⊥
IsSweptBy x (sweep limit now days t) = is_expired (now - days * day_ms) x ≡ true

-- In a valid table a row that has ended is still there, exactly as it was, after every statement,
-- but for a sweep that finds it to have ended before now less the retention of that sweep.
pub Step_terminal :
    {t u : Table} (step : Step t u)
    → IsValid t
    → (x : TaskRow) → Has x t
    → is_terminal x.status ≡ true
    → Has x u ⊎ IsSweptBy x step
unfolding recover_stale_leases claim_task complete_task
Step_terminal (insert id input at t fresh) v x m e = inl (insert_task-Has id input at x t m)
Step_terminal (recover lease now at t) v x m e =
    inl (Has-update_where (is_stale lease now) (recovered now at) x t m (ground arith))
Step_terminal (claim id now token at t) v x m e =
    inl (Has-update_where (may_claim id now) (claimed token at) x t m (ground arith))
Step_terminal (complete c id now token at t) v x m e =
    inl (Has-update_where (is_owned id token) (completed c now at) x t m (ground arith))
Step_terminal (sweep limit now days t) v x m e = delete_expired_tasks-Has limit now days x t v.ids m

-- Enqueueing is idempotent: a task of a type and key that have been queued already changes nothing,
-- creates nothing and reports the identifier of the first.
pub insert_task_idempotent :
    (id id' at at' : ℕ) (input input' : EnqueueInput) (t : Table)
    → input'.type ≡ input.type
    → input'.dedupe_key ≡ input.dedupe_key
    → let (t', _, first) = insert_task id input at t in
      insert_task id' input' at' t' ≡ (t', false, first)
unfolding insert_task
insert_task_idempotent id id' at at' input input' t p q = rw (p, q) (ground arith)
