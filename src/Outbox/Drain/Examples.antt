-- ===== src/Outbox/Drain/Examples.antt =====
-- A pass over a small outbox, and the theorems about passes and retries at it.
use oculus_business.Common.{
  ℕ, suc, ◌+◌, ◌≤◌, ◌<◌, false, ◌≡◌, refl, Option, some, none, [], ◌∷◌, arith, ◌⊎◌, sort_by, true,
}
use oculus_business.Common.Text.{lit}
use oculus_business.Outbox.Store.{
  TaskRow, pending, failed, new_row, update_where, recover_stale_leases, find_claimable_tasks,
  is_claimable, claim_task, complete_task, delete_expired_tasks, expired_ids, count_claimable_tasks,
  summarize_backlog, empty_payload,
}
use oculus_business.Outbox.Retry.{
  Random, next_attempt_at, next_attempt_delay_ms, capped_delay, round_div, is_final_attempt,
  resolve_lease_stale_ms, default_max_attempts,
}
use oculus_business.Outbox.Retry.Laws.{next_attempt_at_bounds}
use oculus_business.Outbox.Drain.{
  Registry, Entry, Turn, World, PassState, Metrics, DrainOptions, no_metrics, threw, or_default,
  require_task_handler, write_completion, failure_completion, record_failure, settle_task,
  run_claimed_task, run_if_claimed, try_candidate, run_candidates, run_loops, slowest_deadline_ms,
  sweep, summarize, start_pass, end_pass, drain_task_outbox,
}
use oculus_business.Outbox.Drain.Accounts.{IsInterrupted, IsAccounted, drain_task_outbox_accounts}
use oculus_business.Outbox.Drain.Attempts.{
  failed_row, failed_rows, failed_rows_exhausted, try_candidate_failure,
}

abbrev half : Random
half = record { num = 1; den = 2; below_one = omega arith }

-- Every handler throws.
abbrev turn_of : ℕ → Turn
turn_of n = record {
  out_of_time = false;
  token = 70 + n;
  claimed_at = 2000;
  now = 2000;
  run = threw false (lit "smtp");
  others = λ t. t;
  random = half;
  write_fails = false;
  written_at = 2001;
}

abbrev world : World
world = record {
  turn = turn_of;
  started_at = 2000;
  loop_over = λ n. false;
  sweep_over = false;
  recover_fails = false;
  find_fails = λ n. false;
  claim_fails = λ n. false;
  sweep_fails = false;
  summarize_fails = false;
}

-- The first claim throws.
abbrev failing_world : World
failing_world = record world { claim_fails = λ n. true }

abbrev entry : Entry
entry = record { max_attempts = some 2; deadline_ms = none }

abbrev handlers : Registry
handlers = (4, entry) ∷ []

abbrev options : DrainOptions
options = record { now = 2000; limit = 10; lease_stale_ms = 1; retention_days = 30 }

abbrev row : TaskRow
row =
    new_row 1 (record { type = 4; dedupe_key = 9; payload = lit "{1}"; scheduled_for = none }) 1000

abbrev unknown_row : TaskRow
unknown_row = record row { id = 2; type = 5; dedupe_key = 8 }

abbrev metrics_of : Option PassState → Metrics
metrics_of none = no_metrics
metrics_of (some s) = s.metrics

-- One attempt fails and is put off, so the pass ends; a task of an unknown type waits.
pass_metrics :
    metrics_of (drain_task_outbox handlers world options (row ∷ unknown_row ∷ []))
    ≡ record no_metrics { claimed = 1; transient_failed = 1; unhandled = 1 }
unfolding drain_task_outbox end_pass run_loops run_candidates try_candidate run_if_claimed
    run_claimed_task settle_task record_failure write_completion failure_completion
    require_task_handler sweep summarize start_pass slowest_deadline_ms update_where
    recover_stale_leases find_claimable_tasks is_claimable claim_task complete_task
    delete_expired_tasks expired_ids count_claimable_tasks summarize_backlog next_attempt_at
    next_attempt_delay_ms capped_delay round_div is_final_attempt resolve_lease_stale_ms sort_by
pass_metrics = refl

pass_rejects : drain_task_outbox handlers failing_world options (row ∷ []) ≡ none
unfolding drain_task_outbox run_loops run_candidates start_pass slowest_deadline_ms update_where
    recover_stale_leases find_claimable_tasks is_claimable resolve_lease_stale_ms sort_by
pass_rejects = refl

drain_task_outbox_accounts_example :
    ((drain_task_outbox handlers world options (row ∷ []) ≡ none) × IsInterrupted world)
    ⊎ ((s : PassState) × (drain_task_outbox handlers world options (row ∷ []) ≡ some s)
        × IsAccounted options s)
drain_task_outbox_accounts_example = drain_task_outbox_accounts handlers world options (row ∷ [])

next_attempt_at_bounds_example :
    (2000 + 60000 < next_attempt_at 3 2000 half)
    × (2000 + 120000 ≤ next_attempt_at 3 2000 half)
    × (next_attempt_at 3 2000 half ≤ 2000 + 1350000)
next_attempt_at_bounds_example = next_attempt_at_bounds 3 2000 half

failed_rows_exhausted_example :
    let r' = failed_rows 2 (lit "smtp") turn_of (suc 1) row in
    ((suc 1 < 2)
      × (r'.status ≡ pending)
      × (r'.attempts ≡ suc 1)
      × ((turn_of 1).now + 120000 ≤ r'.scheduled_for))
    ⊎ ((suc 1 ≡ 2) × (r'.status ≡ failed) × (r'.attempts ≡ 2) × (r'.payload ≡ empty_payload))
failed_rows_exhausted_example =
    failed_rows_exhausted 2 (lit "smtp") turn_of 1 row refl (omega arith)

abbrev start : PassState
start = record { table = row ∷ unknown_row ∷ []; metrics = no_metrics; turns = 0 }

try_candidate_failure_example :
    (s' : PassState) × (try_candidate handlers world 2000 row start ≡ some s')
    × (s'.table
        ≡ failed_row
            (or_default entry.max_attempts default_max_attempts)
            (lit "smtp")
            (world.turn start.turns)
            row
          ∷ unknown_row
          ∷ [])
unfolding require_task_handler
try_candidate_failure_example =
    try_candidate_failure handlers entry world 2000 (lit "smtp") row start refl (omega arith) refl
      refl refl (λ t. refl) refl
