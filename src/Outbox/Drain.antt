-- ===== src/Outbox/Drain.antt =====
-- backend/src/outbox/drain.ts: one pass over the outbox. What the pass does not control is a
-- `World`: for each claim that it tries, a `Turn` says what the handler does, which token is drawn,
-- what time it is, what other processes do to the table meanwhile and whether the last write
-- reaches the database; `loop_over` and `sweep_over` say when the time of the pass is up, and the
-- fields that end in `fails` which other statement throws. What throws ends the pass with that error,
-- and nothing stands for it: such a statement, and a handler of an unknown type.
pub mod Accounts
pub mod Attempts
mod Examples
use oculus_business.Common.{
  ℕ, zero, suc, ◌+◌, ◌*◌, max, Bool, true, false, not, ◌||◌, Option, none, some, List, [], ◌∷◌, map,
  is_empty, ◌==◌, leb, if◌then◌else◌, ◌&&◌,
}
use oculus_business.Common.Text.{Text, lit}
use oculus_business.Outbox.Store.{
  TaskRow, Table, TaskCompletion, TerminalStatus, ends_done, ends_skipped, ends_failed, terminal,
  retry, recover_stale_leases, find_claimable_tasks, claim_task, complete_task,
  delete_expired_tasks, summarize_backlog,
}
use oculus_business.Outbox.Retry.{
  Random, next_attempt_at, is_final_attempt, default_max_attempts, default_task_deadline_ms,
  resolve_lease_stale_ms,
}

-- `TaskHandlerEntry`, less the function.
pub record Entry : Type 0 where
  pub max_attempts : Option ℕ
  pub deadline_ms : Option ℕ

-- The registry: type names and their entries.
abbrev pub Registry : Type 0
Registry = List (ℕ × Entry)

abbrev pub entry_name : ℕ × Entry → ℕ
entry_name (name, _) = name

abbrev pub task_type_names : Registry → List ℕ
task_type_names = map entry_name

-- `requireTaskHandler`; nothing stands for the error.
unfoldable pub require_task_handler : ℕ → Registry → Option Entry
require_task_handler type [] = none
require_task_handler type ((name, entry) ∷ rest) =
    if type == name then some entry else require_task_handler type rest

-- How a handler ends: by an outcome (none for `void`), by an error, which may be a
-- `TerminalTaskError`, or not within its deadline.
pub data HandlerRun : Type 0 where
  finished_done finished_skipped finished_void : HandlerRun
  threw : Bool → Text → HandlerRun
  overran : Text → HandlerRun

pub data Settled : Type 0 where
  succeeded : TerminalStatus → Settled
  errored : Bool → Text → Settled

-- `withDeadline`, and `?? 'done'`: what overran is an ordinary error.
abbrev pub settle : HandlerRun → Settled
settle finished_done = succeeded ends_done
settle finished_skipped = succeeded ends_skipped
settle finished_void = succeeded ends_done
settle (threw is_terminal message) = errored is_terminal message
settle (overran message) = errored false message

pub record Metrics : Type 0 where
  pub recovered_stale : ℕ
  pub claimed : ℕ
  pub done : ℕ
  pub skipped : ℕ
  pub transient_failed : ℕ
  pub terminal_failed : ℕ
  pub deleted : ℕ
  pub backlog : ℕ
  pub unhandled : ℕ
  pub oldest_pending_age_seconds : Option ℕ

pub record Turn : Type 0 where
  pub out_of_time : Bool
  pub token : ℕ
  pub claimed_at : ℕ
  pub now : ℕ
  pub run : HandlerRun
  pub others : Table → Table
  pub random : Random
  pub write_fails : Bool
  pub written_at : ℕ

pub record World : Type 0 where
  pub turn : ℕ → Turn
  pub started_at : ℕ
  pub loop_over : ℕ → Bool
  pub sweep_over : Bool
  pub recover_fails : Bool
  pub find_fails : ℕ → Bool
  pub claim_fails : ℕ → Bool
  pub sweep_fails : Bool
  pub summarize_fails : Bool

pub record PassState : Type 0 where
  pub table : Table
  pub metrics : Metrics
  pub turns : ℕ

abbrev pub or_default : Option ℕ → ℕ → ℕ
or_default none d = d
or_default (some n) d = n

-- `completeTask(...).catch(...)`: a write that fails leaves the table and is not owned.
unfoldable pub write_completion : TaskCompletion → TaskRow → Turn → Table → Table × Bool
write_completion completion candidate turn t =
    if turn.write_fails
    then (t, false)
    else complete_task completion candidate.id turn.now turn.token turn.written_at t

-- The completion that `recordFailure` writes.
unfoldable pub failure_completion : ℕ → Bool → Text → ℕ → Random → TaskCompletion
failure_completion attempt final_attempt message now random =
    if final_attempt
    then terminal attempt (some message) ends_failed
    else retry attempt message (next_attempt_at attempt now random)

abbrev pub count_failure : Bool → Metrics → Metrics
count_failure true m = record m { terminal_failed = m.terminal_failed + 1 }
count_failure false m = record m { transient_failed = m.transient_failed + 1 }

abbrev pub count_success : TerminalStatus → Metrics → Metrics
count_success ends_skipped m = record m { skipped = m.skipped + 1 }
count_success _ m = record m { done = m.done + 1 }

-- What is left alone unless the row was still owned.
abbrev pub count_if_owned : Bool → (Metrics → Metrics) → Metrics → Metrics
count_if_owned true count m = count m
count_if_owned false count m = m

-- `recordFailure`.
unfoldable pub record_failure : ℕ → Bool → Text → TaskRow → Turn → Table → Metrics → Table × Metrics
record_failure attempt final_attempt message candidate turn t m =
    let completion = failure_completion attempt final_attempt message turn.now turn.random in
    let (t', owned) = write_completion completion candidate turn t in
    (t', count_if_owned owned (count_failure final_attempt) m)

-- The bookkeeping after the handler has settled, on the table as it is then.
unfoldable pub settle_task : Settled → Bool → ℕ → TaskRow → Turn → Table → Metrics → Table × Metrics
settle_task (succeeded status) final_attempt attempt candidate turn t m =
    let (t', owned) = write_completion (terminal attempt none status) candidate turn t in
    (t', count_if_owned owned (count_success status) m)
settle_task (errored is_terminal message) final_attempt attempt candidate turn t m =
    record_failure attempt (final_attempt || is_terminal) message candidate turn t m

-- `runClaimedTask`.
unfoldable pub run_claimed_task :
    Registry → TaskRow → Turn → Table → Metrics → Option (Table × Metrics)
run_claimed_task handlers candidate turn t m = elim (require_task_handler candidate.type handlers) [
  | none ↦ none
  | some entry ↦
      let attempt = candidate.attempts + 1 in
      let final_attempt =
        is_final_attempt attempt (or_default entry.max_attempts default_max_attempts) in
      some (settle_task (settle turn.run) final_attempt attempt candidate turn (turn.others t) m)
]

abbrev pub count_claim : Metrics → Metrics
count_claim m = record m { claimed = m.claimed + 1 }

-- A claim that another process won is passed over.
unfoldable pub run_if_claimed :
    Registry → TaskRow → Turn → Table × Option ℕ → Metrics → Option (Table × Metrics)
run_if_claimed handlers candidate turn (t, none) m = some (t, m)
run_if_claimed handlers candidate turn (t, some token) m =
    run_claimed_task handlers candidate turn t (count_claim m)

abbrev pub next_state : ℕ → Option (Table × Metrics) → Option PassState
next_state turns none = none
next_state turns (some (t, m)) = some (record { table = t; metrics = m; turns = turns })

-- One candidate of the inner loop, where the statement of its claim does not throw.
unfoldable pub try_candidate : Registry → World → ℕ → TaskRow → PassState → Option PassState
try_candidate handlers w now candidate s =
    let turn = w.turn s.turns in
    next_state (s.turns + 1) (
      run_if_claimed handlers candidate turn
        (claim_task candidate.id now turn.token turn.claimed_at s.table) s.metrics)

-- The inner loop; it stops when the time of the pass is up.
unfoldable pub run_candidates : Registry → World → ℕ → List TaskRow → PassState → Option PassState
run_candidates handlers w now [] s = some s
run_candidates handlers w now (c ∷ cs) s = elim (w.turn s.turns).out_of_time [
  | true ↦ some s
  | false ↦ elim (w.claim_fails s.turns) [
    | true ↦ none
    | false ↦ elim (try_candidate handlers w now c s) [
      | none ↦ none
      | some s' ↦ run_candidates handlers w now cs s'
    ]
  ]
]

abbrev pub max_loops : ℕ
max_loops = 5

-- The outer loop, with the loops left.
unfoldable pub run_loops : Registry → World → ℕ → ℕ → ℕ → PassState → Option PassState
run_loops handlers w now limit zero s = some s
run_loops handlers w now limit (suc loops) s =
    let candidates = find_claimable_tasks limit now (task_type_names handlers) s.table in
    elim (is_empty handlers || w.loop_over loops) [
      | true ↦ some s
      | false ↦ elim (w.find_fails loops) [
        | true ↦ none
        | false ↦ elim (is_empty candidates) [
          | true ↦ some s
          | false ↦ elim (run_candidates handlers w now candidates s) [
            | none ↦ none
            | some s' ↦ run_loops handlers w now limit loops s'
          ]
        ]
      ]
    ]

-- `slowestDeadlineMs`.
unfoldable pub slowest_deadline_ms : Registry → ℕ → ℕ
slowest_deadline_ms [] slowest = slowest
slowest_deadline_ms ((_, entry) ∷ rest) slowest =
    slowest_deadline_ms rest (max slowest (or_default entry.deadline_ms default_task_deadline_ms))

pub record DrainOptions : Type 0 where
  pub now : ℕ
  pub limit : ℕ
  pub lease_stale_ms : ℕ
  pub retention_days : ℕ

abbrev pub no_metrics : Metrics
no_metrics = record {
  recovered_stale = 0;
  claimed = 0;
  done = 0;
  skipped = 0;
  transient_failed = 0;
  terminal_failed = 0;
  deleted = 0;
  backlog = 0;
  unhandled = 0;
  oldest_pending_age_seconds = none;
}

abbrev pub sweep_limit : ℕ
sweep_limit = 100

unfoldable pub sweep : World → DrainOptions → PassState → PassState
sweep w o s =
    if w.sweep_over
    then s
    else let (t, deleted) = delete_expired_tasks sweep_limit o.now o.retention_days s.table in
      record s { table = t; metrics = record s.metrics { deleted = deleted } }

unfoldable pub summarize : Registry → DrainOptions → PassState → PassState
summarize handlers o s =
    let summary = summarize_backlog o.now (task_type_names handlers) s.table in
    record s {
      metrics = record s.metrics {
        backlog = summary.backlog;
        oldest_pending_age_seconds = summary.oldest_pending_age_seconds;
        unhandled = summary.unhandled;
      };
    }

unfoldable pub start_pass : Registry → World → DrainOptions → Table → PassState
start_pass handlers w o t =
    let lease =
      resolve_lease_stale_ms o.lease_stale_ms
        (slowest_deadline_ms handlers default_task_deadline_ms) in
    let (t', n) = recover_stale_leases lease o.now w.started_at t in
    record { table = t'; metrics = record no_metrics { recovered_stale = n }; turns = 0 }

-- After the loops: the sweep and the summary.
unfoldable pub end_pass : Registry → World → DrainOptions → PassState → Option PassState
unfolding sweep summarize
end_pass handlers w o s =
    if (not w.sweep_over && w.sweep_fails) || w.summarize_fails
    then none
    else some (summarize handlers o (sweep w o s))

-- `drainTaskOutbox`.
unfoldable pub drain_task_outbox : Registry → World → DrainOptions → Table → Option PassState
drain_task_outbox handlers w o t = elim w.recover_fails [
  | true ↦ none
  | false ↦ elim (run_loops handlers w o.now o.limit max_loops (start_pass handlers w o t)) [
    | none ↦ none
    | some s ↦ end_pass handlers w o s
  ]
]
