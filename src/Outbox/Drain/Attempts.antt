-- ===== src/Outbox/Drain/Attempts.antt =====
-- How long a task is tried (`runClaimedTask`, `recordFailure` of outbox/drain.ts), and that a lease
-- outlasts every attempt (`resolveLeaseStaleMs`).
use oculus_business.Common.{
  ℕ, zero, suc, ◌+◌, ◌≤◌, ◌<◌, max, Bool, true, false, ◌≡◌, ◌≢◌, refl, some, [], ◌∷◌, All, arith,
  ◌⊎◌,
}
use oculus_business.Common.Text.{Text}
use oculus_business.Outbox.Store.{
  TaskRow, Table, TaskCompletion, pending, failed, claimed, completed, may_claim, is_owned, is_due,
  update_where, claim_task, complete_task, empty_payload,
}
use oculus_business.Outbox.Store.Rows.{update_where_none}
use oculus_business.Outbox.Retry.{
  is_final_attempt, default_max_attempts, default_task_deadline_ms, next_attempt_at,
}
use oculus_business.Outbox.Retry.Laws.{next_attempt_at_bounds}
use oculus_business.Outbox.Drain.{
  Registry, Entry, World, Turn, PassState, Metrics, errored, threw, require_task_handler,
  or_default, failure_completion, write_completion, record_failure, settle_task, run_claimed_task,
  run_if_claimed, try_candidate, slowest_deadline_ms, count_claim, count_failure,
}

-- The row after one attempt that fails with an ordinary error.
unfoldable pub failed_row : ℕ → Text → Turn → TaskRow → TaskRow
failed_row max_attempts message turn r =
    completed
      (failure_completion (r.attempts + 1) (is_final_attempt (r.attempts + 1) max_attempts) message
        turn.now turn.random)
      turn.now turn.written_at (claimed turn.token turn.claimed_at r)

-- The rows after more and more failing attempts.
unfoldable pub failed_rows : ℕ → Text → (ℕ → Turn) → ℕ → TaskRow → TaskRow
failed_rows max_attempts message turns zero r = r
failed_rows max_attempts message turns (suc k) r =
    failed_row max_attempts message (turns k) (failed_rows max_attempts message turns k r)

failed_row-retry :
    (n : ℕ) (message : Text) (turn : Turn) (r : TaskRow)
    → r.attempts + 1 < n
    → let r' = failed_row n message turn r in
      (r'.status ≡ pending)
      × (r'.attempts ≡ r.attempts + 1)
      × (r'.scheduled_for ≡ next_attempt_at (r.attempts + 1) turn.now turn.random)
unfolding failed_row failure_completion is_final_attempt
failed_row-retry n message turn r h = ground arith

failed_row-last :
    (n : ℕ) (message : Text) (turn : Turn) (r : TaskRow)
    → n ≤ r.attempts + 1
    → let r' = failed_row n message turn r in
      (r'.status ≡ failed) × (r'.attempts ≡ r.attempts + 1) × (r'.payload ≡ empty_payload)
unfolding failed_row failure_completion is_final_attempt
failed_row-last n message turn r h = ground arith

failed_rows-attempts :
    (n : ℕ) (message : Text) (turns : ℕ → Turn) (k : ℕ) (r : TaskRow)
    → r.attempts ≡ 0
    → k < n
    → (failed_rows n message turns k r).attempts ≡ k
unfolding failed_rows
failed_rows-attempts n message turns zero r z h = z
failed_rows-attempts n message turns (suc k) r z h =
    let before = failed_rows-attempts n message turns k r z (omega arith) in
    let row = failed_rows n message turns k r in
    omega (arith, failed_row-retry n message (turns k) row (omega arith))

-- A new task whose handler always fails with an ordinary error waits again after each attempt but
-- the last, at least two minutes, and is marked failed with its payload blanked by the attempt
-- that its entry allows last, and not before.
pub failed_rows_exhausted :
    (n : ℕ) (message : Text) (turns : ℕ → Turn) (k : ℕ) (r : TaskRow)
    → r.attempts ≡ 0
    → k < n
    → let r' = failed_rows n message turns (suc k) r in
      ((suc k < n)
        × (r'.status ≡ pending)
        × (r'.attempts ≡ suc k)
        × ((turns k).now + 120000 ≤ r'.scheduled_for))
      ⊎ ((suc k ≡ n) × (r'.status ≡ failed) × (r'.attempts ≡ n) × (r'.payload ≡ empty_payload))
unfolding failed_rows
failed_rows_exhausted n message turns k r z h =
    let row = failed_rows n message turns k r in
    let before = failed_rows-attempts n message turns k r z h in
    ground (
      arith,
      failed_row-retry n message (turns k) row,
      failed_row-last n message (turns k) row,
      next_attempt_at_bounds (row.attempts + 1) (turns k).now (turns k).random,
    )

All-out_of_reach :
    (id now token : ℕ) (t : Table)
    → All (λ x. x.id ≢ id) t
    → All (λ x. may_claim id now x ≡ false) t × All (λ x. is_owned id token x ≡ false) t
All-out_of_reach id now token [] h = (tt, tt)
All-out_of_reach id now token (x ∷ t) h =
    let rest = All-out_of_reach id now token t h.1 in
    ((ground arith, rest.0), (ground arith, rest.1))

claim_head :
    (r : TaskRow) (now token at : ℕ) (rest : Table)
    → All (λ x. x.id ≢ r.id) rest
    → is_due now r ≡ true
    → claim_task r.id now token at (r ∷ rest) ≡ (claimed token at r ∷ rest, some token)
unfolding claim_task update_where
claim_head r now token at rest apart due = ground (
  arith,
  update_where_none (may_claim r.id now) (claimed token at) rest
      (All-out_of_reach r.id now token rest apart).0,
)

complete_head :
    (c : TaskCompletion) (r : TaskRow) (now token at at' : ℕ) (rest : Table)
    → All (λ x. x.id ≢ r.id) rest
    → complete_task c r.id now token at' (claimed token at r ∷ rest)
      ≡ (completed c now at' (claimed token at r) ∷ rest, true)
unfolding complete_task update_where
complete_head c r now token at at' rest apart = ground (
  arith,
  update_where_none (is_owned r.id token) (completed c now at') rest
      (All-out_of_reach r.id now token rest apart).1,
)

-- The bookkeeping of an ordinary failure on the row that was just claimed.
settle_failure :
    (final : Bool) (message : Text) (r : TaskRow) (turn : Turn) (m : Metrics) (rest : Table)
    → All (λ x. x.id ≢ r.id) rest
    → turn.write_fails ≡ false
    → settle_task
        (errored false message)
        final
        (r.attempts + 1)
        r
        turn
        (claimed turn.token turn.claimed_at r ∷ rest)
        m
      ≡ (
        completed
              (failure_completion (r.attempts + 1) final message turn.now turn.random)
              turn.now
              turn.written_at
              (claimed turn.token turn.claimed_at r)
            ∷ rest,
        count_failure final m,
      )
unfolding settle_task record_failure write_completion
settle_failure final message r turn m rest apart writes = ground (
  arith,
  complete_head (failure_completion (r.attempts + 1) final message turn.now turn.random) r turn.now
      turn.token turn.claimed_at turn.written_at rest apart,
)

-- One try of the pass does that to the row in the table, and nothing else: a due row at the head
-- of a table where its identifier is unique, a handler that throws an ordinary error, no
-- interference, and a write that reaches the database.
pub try_candidate_failure :
    (h : Registry) (entry : Entry) (w : World) (now : ℕ) (message : Text) (r : TaskRow)
    (s : PassState) {rest : Table}
    → s.table ≡ r ∷ rest
    → All (λ x. x.id ≢ r.id) rest
    → is_due now r ≡ true
    → require_task_handler r.type h ≡ some entry
    → (w.turn s.turns).run ≡ threw false message
    → ((t : Table) → (w.turn s.turns).others t ≡ t)
    → (w.turn s.turns).write_fails ≡ false
    → (s' : PassState) × (try_candidate h w now r s ≡ some s')
      × (s'.table
          ≡ failed_row
              (or_default entry.max_attempts default_max_attempts)
              message
              (w.turn s.turns)
              r
            ∷ rest)
unfolding try_candidate run_if_claimed run_claimed_task failed_row
try_candidate_failure h entry w now message r s {rest} st apart due known run others writes =
    let turn = w.turn s.turns in
    let final =
      is_final_attempt (r.attempts + 1) (or_default entry.max_attempts default_max_attempts) in
    (
      record {
        table =
            failed_row (or_default entry.max_attempts default_max_attempts) message turn r ∷ rest;
        metrics = count_failure final (count_claim s.metrics);
        turns = s.turns + 1;
      },
      rw (st, claim_head r now turn.token turn.claimed_at rest apart due)
          (rw (known, run_if_claimed, run_claimed_task)
            (simp (run, others (claimed turn.token turn.claimed_at r ∷ rest))
              (rw (settle_failure final message r turn (count_claim s.metrics) rest apart writes)
                refl))),
      refl,
    )

-- Every registered deadline, and the default one, fits twice into the lease.
slowest_deadline_ms-le : (h : Registry) (d : ℕ) → d ≤ slowest_deadline_ms h d
unfolding slowest_deadline_ms
slowest_deadline_ms-le [] d = omega arith
slowest_deadline_ms-le ((name, entry) ∷ h) d = omega (
  arith,
  slowest_deadline_ms-le h (max d (or_default entry.deadline_ms default_task_deadline_ms)),
)

deadline-le-slowest :
    (h : Registry) (d type : ℕ) (entry : Entry)
    → require_task_handler type h ≡ some entry
    → or_default entry.deadline_ms default_task_deadline_ms ≤ slowest_deadline_ms h d
unfolding slowest_deadline_ms require_task_handler
deadline-le-slowest [] d type entry e = cc
deadline-le-slowest ((name, first) ∷ h) d type entry e =
    let d' = max d (or_default first.deadline_ms default_task_deadline_ms) in
    ground (arith, deadline-le-slowest h d' type entry, slowest_deadline_ms-le h d')
