-- ===== src/Outbox/Store/Examples.antt =====
-- Tests of the outbox table, and its theorems at a small table.
use oculus_business.Common.{
  ◌+◌, leb, true, false, ◌≡◌, refl, some, none, [], ◌∷◌, Has, arith, ◌⊎◌, inl, inr, sort_by,
}
use oculus_business.Common.Text.{lit}
use oculus_business.Outbox.Store.{
  TaskRow, Table, EnqueueInput, TaskCompletion, ends_done, done, terminal, delete_expired_tasks,
  insert_task, recover_stale_leases, find_claimable_tasks, is_claimable, claim_task, complete_task,
  update_where,
}
use oculus_business.Outbox.Store.Rows.{UniqueIds}
use oculus_business.Outbox.Store.Claims.{
  claim_task_exclusive, complete_task_fenced, complete_task_owner,
}
use oculus_business.Outbox.Store.Invariant.{
  IsValid, Step, sweep, Reach, here, next, insert, claim, complete, Reach-IsValid,
}
use oculus_business.Outbox.Store.Terminal.{IsSweptBy, Step_terminal, insert_task_idempotent}

abbrev reset_mail : EnqueueInput
reset_mail = record {
  type = 4;
  dedupe_key = 90;
  payload = lit "{\"email\":1}";
  scheduled_for = none;
}

abbrev other_mail : EnqueueInput
other_mail = record reset_mail { dedupe_key = 91 }

-- Two tasks are queued.
abbrev queued : Table
queued = (insert_task 2 other_mail 1005 (insert_task 1 reset_mail 1000 []).0).0

abbrev claimed_table : Table
claimed_table = (claim_task 1 2000 77 2001 queued).0

abbrev success : TaskCompletion
success = terminal 1 none ends_done

abbrev ended : Table
ended = (complete_task success 1 2500 77 2501 claimed_table).0

abbrev ended_row : TaskRow
ended_row = record {
  id = 1;
  type = 4;
  dedupe_key = 90;
  payload = lit "{}";
  status = done;
  attempts = 1;
  scheduled_for = 1000;
  last_error = none;
  processing_token = none;
  processed_at = some 2500;
  redacted_at = some 2500;
  updated_at = 2501;
}

queued-UniqueIds : UniqueIds queued
unfolding insert_task
queued-UniqueIds = omega arith

claim_wins : (claim_task 1 2000 77 2001 queued).1 ≡ some 77
unfolding claim_task update_where insert_task
claim_wins = refl

ended_holds : Has ended_row ended
unfolding complete_task claim_task update_where insert_task
ended_holds = inr (inl refl)

claimable_in_order :
    find_claimable_tasks 1 2000 (4 ∷ []) queued ≡ (insert_task 1 reset_mail 1000 []).0
unfolding find_claimable_tasks is_claimable insert_task sort_by
claimable_in_order = refl

claim_task_exclusive_example : claim_task 1 2100 78 2101 claimed_table ≡ (claimed_table, none)
claim_task_exclusive_example =
    claim_task_exclusive 1 2000 77 2001 queued queued-UniqueIds claim_wins 2100 78 2101

complete_task_fenced_example :
    complete_task success 1 2500 78 2501 claimed_table ≡ (claimed_table, false)
complete_task_fenced_example =
    complete_task_fenced 1 2000 77 2001 queued queued-UniqueIds claim_wins success 2500 78 2501
      (omega arith)

complete_task_owner_example :
    ((complete_task success 1 9500 77 9501 claimed_table).1 ≡ true)
    × ((complete_task success 1 9500 77 9501 (recover_stale_leases 100 9000 9001 claimed_table).0).1
        ≡ leb 9000 (2001 + 100))
complete_task_owner_example =
    complete_task_owner 1 2000 77 2001 queued queued-UniqueIds claim_wins success 9500 9501 100 9000
      9001

ended-Reach : Reach [] ended
unfolding insert_task
ended-Reach =
    next
      (next
        (next (next here (insert 1 reset_mail 1000 [] tt))
          (insert 2 other_mail 1005 (insert_task 1 reset_mail 1000 []).0 (omega arith)))
        (claim 1 2000 77 2001 queued))
      (complete success 1 2500 77 2501 claimed_table)

Reach-IsValid_example : IsValid ended
Reach-IsValid_example = Reach-IsValid ended-Reach

-- The sweep of a retention of no days, 500 milliseconds later.
abbrev ended_sweep : Step ended (delete_expired_tasks 10 3000 0 ended).0
ended_sweep = sweep 10 3000 0 ended

Step_terminal_example :
    Has ended_row (delete_expired_tasks 10 3000 0 ended).0 ⊎ IsSweptBy ended_row ended_sweep
Step_terminal_example =
    Step_terminal (sweep 10 3000 0 ended) (Reach-IsValid ended-Reach) ended_row ended_holds refl

insert_task_idempotent_example :
    insert_task 9
      (record reset_mail { payload = lit "{}" })
      3000
      (insert_task 1 reset_mail 1000 []).0
    ≡ ((insert_task 1 reset_mail 1000 []).0, false, (insert_task 1 reset_mail 1000 []).2)
insert_task_idempotent_example =
    insert_task_idempotent 1 9 1000 3000 reset_mail (record reset_mail { payload = lit "{}" }) []
      refl refl
