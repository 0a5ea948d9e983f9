-- ===== src/Sales/Tasks.antt =====
-- `nextActionFromOpenTasks` of backend/src/modules/business/domain/sales-rules.ts. A due time is the
-- number of milliseconds that its ISO text stands for, so `localeCompare` is the order of numbers,
-- and `slice(0, 10)` of the text is its day.
pub mod Laws
mod Examples
use oculus_business.Common.{
  ℕ, ◌/◌, Bool, true, false, Option, none, some, List, filter, sort_by, head?, is_empty,
  if◌then◌else◌,
}
use oculus_business.Common.Text.{Text}

-- Only `open` is tested.
pub data TaskStatus : Type 0 where
  open_task done_task cancelled_task : TaskStatus

abbrev pub is_open_status : TaskStatus → Bool
is_open_status open_task = true
is_open_status _ = false

pub record SalesTask : Type 0 where
  pub goal : Text
  pub action : Option Text
  pub due_at : ℕ
  pub status : TaskStatus

abbrev pub is_open : SalesTask → Bool
is_open t = is_open_status t.status

abbrev pub day_of : ℕ → ℕ
day_of ms = ms / 86400000

pub record NextAction : Type 0 where
  pub next_action : Option Text
  pub next_action_at : Option ℕ

-- The action of the task, or its goal where the action is missing or empty (not trimmed).
abbrev pub action_text : SalesTask → Text
action_text t = elim t.action [ none ↦ t.goal | some a ↦ if is_empty a then t.goal else a ]

abbrev pub next_action_of : Option SalesTask → NextAction
next_action_of none = record { next_action = none; next_action_at = none }
next_action_of (some t) = record {
  next_action = some (action_text t);
  next_action_at = some (day_of t.due_at);
}

abbrev pub due : SalesTask → ℕ
due t = t.due_at

-- The open tasks by due time; ties stay in the order of the list.
unfoldable pub first_open : List SalesTask → Option SalesTask
first_open tasks = head? (sort_by due (filter is_open tasks))

unfoldable pub next_action_from_open_tasks : List SalesTask → NextAction
next_action_from_open_tasks tasks = next_action_of (first_open tasks)
