-- ===== src/Sales/Tasks/Examples.antt =====
-- A queue of tasks and its summary.
use oculus_business.Common.{
  sort_by, ◌≤◌, true, false, ◌≡◌, refl, ◌⊎◌, some, none, List, [], ◌∷◌, Has,
}
use oculus_business.Common.Text.{lit}
use oculus_business.Sales.Tasks.{
  first_open, SalesTask, open_task, done_task, is_open, day_of, action_text,
  next_action_from_open_tasks,
}
use oculus_business.Sales.Tasks.Laws.{next_action_from_open_tasks_least}

abbrev queue : List SalesTask
queue =
    record { goal = lit "demo"; action = some []; due_at = 172800005; status = open_task }
    ∷ record { goal = lit "old"; action = none; due_at = 1; status = done_task }
    ∷ record {
      goal = lit "call";
      action = some (lit "ring");
      due_at = 172800000;
      status = open_task;
    }
    ∷ []

queue_summary :
    next_action_from_open_tasks queue
    ≡ record { next_action = some (lit "ring"); next_action_at = some 2 }
unfolding next_action_from_open_tasks first_open sort_by
queue_summary = refl

next_action_from_open_tasks_least_example :
    ((next_action_from_open_tasks queue ≡ record { next_action = none; next_action_at = none })
      × ((u : SalesTask) → Has u queue → is_open u ≡ false))
    ⊎ ((t : SalesTask) × Has t queue
        × (is_open t ≡ true)
        × ((u : SalesTask) → Has u queue → is_open u ≡ true → t.due_at ≤ u.due_at)
        × (next_action_from_open_tasks queue ≡ record {
          next_action = some (action_text t);
          next_action_at = some (day_of t.due_at);
        }))
next_action_from_open_tasks_least_example = next_action_from_open_tasks_least queue
