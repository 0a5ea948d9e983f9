-- ===== src/Sales/Tasks/Laws.antt =====
-- The summary of the next action agrees with the queue (`nextActionFromOpenTasks`).
use oculus_business.Common.{
  ◌≤◌, true, false, ◌≡◌, refl, ◌⊎◌, inl, inr, none, some, List, [], ◌∷◌, filter, All, Has, head?,
  sort_by, IsSortedBy, sort_by-IsSortedBy, sort_by-Has, Has-sort_by, arith, Option-cases,
  Bool-cases,
}
use oculus_business.Sales.Tasks.{
  SalesTask, is_open, day_of, due, action_text, first_open, next_action_from_open_tasks,
}

All-Has : (P : SalesTask → Type 0) (t : SalesTask) (xs : List SalesTask) → All P xs → Has t xs → P t
All-Has P t [] h m = absurd m
All-Has P t (x ∷ xs) h (inl e) = rw (e) at h.0
All-Has P t (x ∷ xs) h (inr m) = All-Has P t xs h.1 m

Has-filter :
    (t : SalesTask) (xs : List SalesTask)
    → Has t (filter is_open xs)
    → Has t xs × (is_open t ≡ true)
Has-filter t [] h = absurd h
Has-filter t (x ∷ xs) h = ground (arith, Has-filter t xs)

filter-Has :
    (t : SalesTask) (xs : List SalesTask) → Has t xs → is_open t ≡ true → Has t (filter is_open xs)
filter-Has t [] h o = h
filter-Has t (x ∷ xs) h o = ground (arith, filter-Has t xs)

-- The first item of a sorted list is one of its items and the smallest of them.
head?-least :
    (t u : SalesTask) (xs : List SalesTask)
    → IsSortedBy due xs
    → head? xs ≡ some t
    → Has t xs × (Has u xs → t.due_at ≤ u.due_at)
head?-least t u [] s h = cc
head?-least t u (x ∷ xs) s h = ground (arith, All-Has (λ y. due x ≤ due y) u xs s.0)

first_open_least :
    (tasks : List SalesTask) (t u : SalesTask)
    → first_open tasks ≡ some t
    → Has t tasks × (is_open t ≡ true) × (Has u tasks → is_open u ≡ true → t.due_at ≤ u.due_at)
unfolding first_open
first_open_least tasks t u h =
    let least =
      head?-least t u (sort_by due (filter is_open tasks))
        (sort_by-IsSortedBy due (filter is_open tasks)) h in
    let (member, chosen) = Has-filter t tasks (Has-sort_by due t (filter is_open tasks) least.0) in
    (
      member,
      chosen,
      λ m o. least.1 (sort_by-Has due u (filter is_open tasks) (filter-Has u tasks m o)),
    )

head?-eq-none : (xs : List SalesTask) → head? xs ≡ none → xs ≡ []
head?-eq-none [] h = refl
head?-eq-none (x ∷ xs) h = cc

first_open-none :
    (tasks : List SalesTask) (u : SalesTask)
    → Has u tasks
    → first_open tasks ≡ none
    → is_open u ≡ false
unfolding first_open
first_open-none tasks u m h = elim (Bool-cases (is_open u)) [
  | inl o ↦ absurd (
      rw (head?-eq-none (sort_by due (filter is_open tasks)) h) at
        (sort_by-Has due u (filter is_open tasks) (filter-Has u tasks m o)))
  | inr c ↦ c
]

-- The summary shows an open task of the queue that no open task precedes: its day, and its action
-- or, where that is missing or empty, its goal. It shows nothing only if no task is open.
pub next_action_from_open_tasks_least :
    (tasks : List SalesTask)
    → ((next_action_from_open_tasks tasks ≡ record { next_action = none; next_action_at = none })
        × ((u : SalesTask) → Has u tasks → is_open u ≡ false))
      ⊎ ((t : SalesTask) × Has t tasks
          × (is_open t ≡ true)
          × ((u : SalesTask) → Has u tasks → is_open u ≡ true → t.due_at ≤ u.due_at)
          × (next_action_from_open_tasks tasks ≡ record {
            next_action = some (action_text t);
            next_action_at = some (day_of t.due_at);
          }))
unfolding next_action_from_open_tasks
next_action_from_open_tasks_least tasks = elim (Option-cases (first_open tasks)) [
  | inl e ↦ inl (rw e, λ u m. first_open-none tasks u m e)
  | inr (t, e) ↦ inr (
    t,
    (first_open_least tasks t t e).0,
    (first_open_least tasks t t e).1,
    λ u. (first_open_least tasks t u e).2,
    rw e,
  )
]
