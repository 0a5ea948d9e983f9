-- ===== src/Outbox/Store.antt =====
-- backend/src/outbox/store.ts. The table `task_outbox` is a list of rows, and a Prisma statement is
-- its effect on the list: `updateMany` changes every row that its condition matches and counts
-- them. Identifiers, type names, dedupe keys and claim tokens are only compared, so they are
-- numbers, and so are times (milliseconds). `at` is the time that Prisma writes to `updatedAt`.
pub mod Rows
pub mod Claims
pub mod Invariant
pub mod Terminal
mod Examples
use oculus_business.Common.{
  ℕ, ◌+◌, ◌-◌, ◌*◌, ◌/◌, Bool, true, false, not, ◌&&◌, ◌||◌, Option, none, some, List, [], ◌∷◌,
  ◌++◌, filter, find, any, take, head?, length, map, sort_by, ltb, leb, ◌==◌, if◌then◌else◌,
}
use oculus_business.Common.Text.{Text, lit}

pub data TaskStatus : Type 0 where
  pending processing done skipped failed : TaskStatus

pub record TaskRow : Type 0 where
  pub id : ℕ
  pub type : ℕ
  pub dedupe_key : ℕ
  pub payload : Text
  pub status : TaskStatus
  pub attempts : ℕ
  pub scheduled_for : ℕ
  pub last_error : Option Text
  pub processing_token : Option ℕ
  pub processed_at : Option ℕ
  pub redacted_at : Option ℕ
  pub updated_at : ℕ

abbrev pub Table : Type 0
Table = List TaskRow

abbrev pub empty_payload : Text
empty_payload = lit "{}"

abbrev pub is_pending : TaskStatus → Bool
is_pending pending = true
is_pending _ = false

abbrev pub is_processing : TaskStatus → Bool
is_processing processing = true
is_processing _ = false

-- `terminalStatuses`.
abbrev pub is_terminal : TaskStatus → Bool
is_terminal done = true
is_terminal skipped = true
is_terminal failed = true
is_terminal _ = false

abbrev pub holds_token : Option ℕ → ℕ → Bool
holds_token none token = false
holds_token (some t) token = t == token

-- `updateMany`: the table after it, and how many rows matched.
unfoldable pub update_where : (TaskRow → Bool) → (TaskRow → TaskRow) → Table → Table × ℕ
update_where p f [] = ([], 0)
update_where p f (r ∷ t) =
    let (t', n) = update_where p f t in if p r then (f r ∷ t', n + 1) else (r ∷ t', n)

abbrev pub same_task : ℕ → ℕ → TaskRow → Bool
same_task type key r = r.type == type && r.dedupe_key == key

pub record EnqueueInput : Type 0 where
  pub type : ℕ
  pub dedupe_key : ℕ
  pub payload : Text
  pub scheduled_for : Option ℕ

-- The row of `createMany`; `id` is the database's new identifier, and a missing time is now.
abbrev pub new_row : ℕ → EnqueueInput → ℕ → TaskRow
new_row id input at = record {
  id = id;
  type = input.type;
  dedupe_key = input.dedupe_key;
  payload = input.payload;
  status = pending;
  attempts = 0;
  scheduled_for = elim input.scheduled_for [ none ↦ at | some s ↦ s ];
  last_error = none;
  processing_token = none;
  processed_at = none;
  redacted_at = none;
  updated_at = at;
}

-- `insertTask`: the table, whether a row was created, and the identifier of the row of the key.
unfoldable pub insert_task : ℕ → EnqueueInput → ℕ → Table → Table × Bool × Option ℕ
insert_task id input at t = elim (find (same_task input.type input.dedupe_key) t) [
  | some r ↦ (t, false, some r.id)
  | none ↦ (new_row id input at ∷ t, true, some id)
]

-- `updatedAt < now - leaseStaleMs`.
abbrev pub is_stale : ℕ → ℕ → TaskRow → Bool
is_stale lease_stale_ms now r = is_processing r.status && ltb (r.updated_at + lease_stale_ms) now

abbrev pub recovered : ℕ → ℕ → TaskRow → TaskRow
recovered now at r = record r {
  processed_at = none;
  processing_token = none;
  scheduled_for = now;
  status = pending;
  updated_at = at;
}

unfoldable pub recover_stale_leases : ℕ → ℕ → ℕ → Table → Table × ℕ
recover_stale_leases lease_stale_ms now at =
    update_where (is_stale lease_stale_ms now) (recovered now at)

abbrev pub is_known : List ℕ → TaskRow → Bool
is_known types r = any (λ t. r.type == t) types

-- Pending and due.
abbrev pub is_due : ℕ → TaskRow → Bool
is_due now r = is_pending r.status && leb r.scheduled_for now

-- `claimableWhere`.
unfoldable pub is_claimable : ℕ → List ℕ → TaskRow → Bool
is_claimable now types r = is_due now r && is_known types r

abbrev pub schedule_key : TaskRow → ℕ
schedule_key r = r.scheduled_for

abbrev pub id_key : TaskRow → ℕ
id_key r = r.id

-- Ordered by schedule and then by identifier.
unfoldable pub find_claimable_tasks : ℕ → ℕ → List ℕ → Table → List TaskRow
find_claimable_tasks limit now types t =
    take limit (sort_by schedule_key (sort_by id_key (filter (is_claimable now types) t)))

abbrev pub may_claim : ℕ → ℕ → TaskRow → Bool
may_claim id now r = r.id == id && is_due now r

abbrev pub claimed : ℕ → ℕ → TaskRow → TaskRow
claimed token at r = record r {
  processing_token = some token;
  status = processing;
  updated_at = at;
}

-- `claimTask`: the token where exactly one row matched. `token` is the new random UUID.
unfoldable pub claim_task : ℕ → ℕ → ℕ → ℕ → Table → Table × Option ℕ
claim_task id now token at t =
    let (t', n) = update_where (may_claim id now) (claimed token at) t in
    (t', if n == 1 then some token else none)

-- A terminal status of `TaskCompletion`.
pub data TerminalStatus : Type 0 where
  ends_done ends_skipped ends_failed : TerminalStatus

abbrev pub status_of : TerminalStatus → TaskStatus
status_of ends_done = done
status_of ends_skipped = skipped
status_of ends_failed = failed

pub data TaskCompletion : Type 0 where
  terminal : ℕ → Option Text → TerminalStatus → TaskCompletion
  retry : ℕ → Text → ℕ → TaskCompletion

abbrev pub completed : TaskCompletion → ℕ → ℕ → TaskRow → TaskRow
completed (terminal attempts last_error status) now at r = record r {
  attempts = attempts;
  last_error = last_error;
  payload = empty_payload;
  processed_at = some now;
  processing_token = none;
  redacted_at = some now;
  status = status_of status;
  updated_at = at;
}
completed (retry attempts last_error scheduled_for) now at r = record r {
  attempts = attempts;
  last_error = some last_error;
  processed_at = none;
  processing_token = none;
  scheduled_for = scheduled_for;
  status = pending;
  updated_at = at;
}

abbrev pub is_owned : ℕ → ℕ → TaskRow → Bool
is_owned id token r = r.id == id && holds_token r.processing_token token && is_processing r.status

-- `completeTask`: the table, and whether this process still owned the row.
unfoldable pub complete_task : TaskCompletion → ℕ → ℕ → ℕ → ℕ → Table → Table × Bool
complete_task completion id now token at t =
    let (t', n) = update_where (is_owned id token) (completed completion now at) t in (t', n == 1)

abbrev pub processed_before : ℕ → Option ℕ → Bool
processed_before cutoff none = false
processed_before cutoff (some p) = ltb p cutoff

abbrev pub is_expired : ℕ → TaskRow → Bool
is_expired cutoff r = is_terminal r.status && processed_before cutoff r.processed_at

abbrev pub processed_key : TaskRow → ℕ
processed_key r = elim r.processed_at [ none ↦ 0 | some p ↦ p ]

abbrev pub day_ms : ℕ
day_ms = 86400000

unfoldable pub expired_ids : ℕ → ℕ → ℕ → Table → List ℕ
expired_ids limit now retention_days t =
    map id_key
      (take limit (sort_by processed_key (filter (is_expired (now - retention_days * day_ms)) t)))

abbrev pub is_listed : List ℕ → TaskRow → Bool
is_listed ids r = any (λ i. r.id == i) ids

-- `deleteExpiredTasks`: the table and the number of rows deleted.
unfoldable pub delete_expired_tasks : ℕ → ℕ → ℕ → Table → Table × ℕ
delete_expired_tasks limit now retention_days t =
    let ids = expired_ids limit now retention_days t in
    (filter (λ r. not (is_listed ids r)) t, length (filter (is_listed ids) t))

unfoldable pub count_claimable_tasks : ℕ → List ℕ → Table → ℕ
count_claimable_tasks now types t = length (filter (is_claimable now types) t)

pub record Backlog : Type 0 where
  pub backlog : ℕ
  pub oldest_pending_age_seconds : Option ℕ
  pub unhandled : ℕ

-- `summarizeBacklog`.
unfoldable pub summarize_backlog : ℕ → List ℕ → Table → Backlog
summarize_backlog now types t = record {
  backlog = count_claimable_tasks now types t;
  oldest_pending_age_seconds =
      elim (head? (sort_by schedule_key (filter (is_claimable now types) t))) [
        | none ↦ none
        | some r ↦ some ((now - r.scheduled_for) / 1000)
      ];
  unhandled = length (filter (λ r. is_due now r && not (is_known types r)) t);
}
