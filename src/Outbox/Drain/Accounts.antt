-- ===== src/Outbox/Drain/Accounts.antt =====
-- When a pass ends with its metrics, and that they add up (outbox/drain.ts).
use oculus_business.Common.{
  ℕ, zero, suc, ◌+◌, ◌*◌, ◌≤◌, Bool, true, ◌≡◌, ◌≢◌, refl, Option, none, some, List, [], ◌∷◌,
  length, take, All, filter, All-sort_by, arith, inl, inr, Option-cases, Bool-cases, ◌⊎◌, not, ◌&&◌,
  ◌||◌,
}
use oculus_business.Outbox.Store.{
  TaskRow, Table, find_claimable_tasks, is_claimable, is_known, schedule_key, id_key, claim_task,
}
use oculus_business.Outbox.Drain.{
  Registry, World, Turn, Metrics, PassState, DrainOptions, Settled, task_type_names,
  require_task_handler, settle_task, record_failure, run_claimed_task, run_if_claimed,
  try_candidate, run_candidates, run_loops, drain_task_outbox, start_pass, sweep, summarize,
  end_pass, succeeded, errored,
}

-- What attempts ended, by their counters.
abbrev pub settled : Metrics → ℕ
settled m = m.done + m.skipped + m.transient_failed + m.terminal_failed

settle_task-settled :
    (o : Settled) (final : Bool) (attempt : ℕ) (c : TaskRow) (turn : Turn) (t : Table) (m : Metrics)
    → let m' = (settle_task o final attempt c turn t m).1 in
      (settled m' ≤ settled m + 1) × (m'.claimed ≡ m.claimed)
unfolding settle_task record_failure
settle_task-settled (succeeded s) final attempt c turn t m = ground arith
settle_task-settled (errored b e) final attempt c turn t m = ground arith

-- From one state of a pass to a later one: at most `n` claims, and no more attempts than claims.
abbrev pub Advances : ℕ → Metrics → Metrics → Type 0
Advances n m m' = (m'.claimed ≤ m.claimed + n) × (settled m' + m.claimed ≤ settled m + m'.claimed)

run_if_claimed-Advances :
    (h : Registry) (c : TaskRow) (turn : Turn) (won : Table × Option ℕ) (m : Metrics) {t' : Table}
    {m' : Metrics}
    → run_if_claimed h c turn won m ≡ some (t', m')
    → Advances 1 m m'
unfolding run_if_claimed run_claimed_task
run_if_claimed-Advances h c turn (t, none) m e = ground arith
run_if_claimed-Advances h c turn (t, some token) m e =
    elim (Option-cases (require_task_handler c.type h)) [
      | inl unknown ↦ cc (rw (unknown, run_claimed_task) at e)
      | inr (entry, known) ↦ grind (arith, settle_task-settled)
    ]

try_candidate-Advances :
    (h : Registry) (w : World) (now : ℕ) (c : TaskRow) (s : PassState) {s' : PassState}
    → try_candidate h w now c s ≡ some s'
    → Advances 1 s.metrics s'.metrics
unfolding try_candidate
try_candidate-Advances h w now c s e =
    let turn = w.turn s.turns in
    let won = claim_task c.id now turn.token turn.claimed_at s.table in
    elim (Option-cases (run_if_claimed h c turn won s.metrics)) [
      | inl stopped ↦ cc (rw stopped at e)
      | inr ((t', m'), went) ↦ ground (arith, run_if_claimed-Advances h c turn won s.metrics went)
    ]

run_candidates-Advances :
    (h : Registry) (w : World) (now : ℕ) (cs : List TaskRow) (s : PassState) {s' : PassState}
    → run_candidates h w now cs s ≡ some s'
    → Advances (length cs) s.metrics s'.metrics
unfolding run_candidates
run_candidates-Advances h w now [] s e = ground arith
run_candidates-Advances h w now (c ∷ cs) s {s'} e =
    elim (Option-cases (try_candidate h w now c s)) [
      | inl stopped ↦ ground arith
      | inr (u, went) ↦ ground (
        arith,
        try_candidate-Advances h w now c s went,
        run_candidates-Advances h w now cs u {s' = s'},
      )
    ]

length-take : (n : ℕ) (t : Table) → length (take n t) ≤ n
length-take zero t = omega arith
length-take (suc n) [] = omega arith
length-take (suc n) (r ∷ t) = omega (arith, length-take n t)

length-find_claimable_tasks :
    (limit now : ℕ) (types : List ℕ) (t : Table)
    → length (find_claimable_tasks limit now types t) ≤ limit
unfolding find_claimable_tasks
length-find_claimable_tasks limit now types t = length-take limit _

run_loops-Advances :
    (h : Registry) (w : World) (now limit loops : ℕ) (s : PassState) {s' : PassState}
    → run_loops h w now limit loops s ≡ some s'
    → Advances (loops * limit) s.metrics s'.metrics
unfolding run_loops
run_loops-Advances h w now limit zero s e = ground arith
run_loops-Advances h w now limit (suc loops) s {s'} e =
    let cs = find_claimable_tasks limit now (task_type_names h) s.table in
    elim (Option-cases (run_candidates h w now cs s)) [
      | inl stopped ↦ ground arith
      | inr (u, went) ↦ ground (
        arith,
        run_candidates-Advances h w now cs s went,
        length-find_claimable_tasks limit now (task_type_names h) s.table,
        run_loops-Advances h w now limit loops u {s' = s'},
      )
    ]

-- A row of a registered type.
abbrev pub HasHandler : Registry → TaskRow → Type 0
HasHandler h c = require_task_handler c.type h ≢ none

is_known-HasHandler :
    (h : Registry) (c : TaskRow) → is_known (task_type_names h) c ≡ true → HasHandler h c
unfolding require_task_handler
is_known-HasHandler [] c e = cc
is_known-HasHandler ((name, entry) ∷ h) c e = ground (arith, is_known-HasHandler h c)

All-claimable :
    (h : Registry) (now : ℕ) (t : Table)
    → All (HasHandler h) (filter (is_claimable now (task_type_names h)) t)
unfolding is_claimable
All-claimable h now [] = tt
All-claimable h now (r ∷ t) = ground (arith, All-claimable h now t, is_known-HasHandler h r)

All-take : (P : TaskRow → Type 0) (n : ℕ) (t : Table) → All P t → All P (take n t)
All-take P zero t h = tt
All-take P (suc n) [] h = tt
All-take P (suc n) (r ∷ t) h = (h.0, All-take P n t h.1)

All-find_claimable_tasks :
    (h : Registry) (limit now : ℕ) (t : Table)
    → All (HasHandler h) (find_claimable_tasks limit now (task_type_names h) t)
unfolding find_claimable_tasks
All-find_claimable_tasks h limit now t = All-take (HasHandler h) limit _ (
    All-sort_by schedule_key (HasHandler h) _
      (All-sort_by id_key (HasHandler h) _ (All-claimable h now t)))

run_if_claimed_total :
    (h : Registry) (c : TaskRow) (turn : Turn) (won : Table × Option ℕ) (m : Metrics)
    → HasHandler h c
    → run_if_claimed h c turn won m ≢ none
unfolding run_if_claimed run_claimed_task
run_if_claimed_total h c turn (t, none) m known = ground arith
run_if_claimed_total h c turn (t, some token) m known = ground arith

try_candidate_total :
    (h : Registry) (w : World) (now : ℕ) (c : TaskRow) (s : PassState)
    → HasHandler h c
    → try_candidate h w now c s ≢ none
unfolding try_candidate
try_candidate_total h w now c s known =
    let turn = w.turn s.turns in
    ground (
      arith,
      run_if_claimed_total h c turn (claim_task c.id now turn.token turn.claimed_at s.table)
          s.metrics,
    )

-- Only a statement that throws ends a pass early.
run_candidates_stopped :
    (h : Registry) (w : World) (now : ℕ) (cs : List TaskRow) (s : PassState)
    → All (HasHandler h) cs
    → run_candidates h w now cs s ≡ none
    → (n : ℕ) × (w.claim_fails n ≡ true)
unfolding run_candidates
run_candidates_stopped h w now [] s known e = cc
run_candidates_stopped h w now (c ∷ cs) s known e = elim (Bool-cases (w.claim_fails s.turns)) [
  | inl f ↦ (s.turns, f)
  | inr f ↦ elim (Option-cases (try_candidate h w now c s)) [
    | inl stopped ↦ absurd (try_candidate_total h w now c s known.0 stopped)
    | inr (u, went) ↦ run_candidates_stopped h w now cs u known.1 (ground arith)
  ]
]

run_loops_stopped :
    (h : Registry) (w : World) (now limit loops : ℕ) (s : PassState)
    → run_loops h w now limit loops s ≡ none
    → ((n : ℕ) × (w.find_fails n ≡ true)) ⊎ ((n : ℕ) × (w.claim_fails n ≡ true))
unfolding run_loops
run_loops_stopped h w now limit zero s e = cc
run_loops_stopped h w now limit (suc loops) s e =
    let cs = find_claimable_tasks limit now (task_type_names h) s.table in
    let known = All-find_claimable_tasks h limit now s.table in
    elim (Bool-cases (w.find_fails loops)) [
      | inl f ↦ inl (loops, f)
      | inr f ↦ elim (Option-cases (run_candidates h w now cs s)) [
        | inl stopped ↦ inr (run_candidates_stopped h w now cs s known stopped)
        | inr (u, went) ↦ run_loops_stopped h w now limit loops u (ground arith)
      ]
    ]

start_pass-Metrics :
    (h : Registry) (w : World) (o : DrainOptions) (t : Table)
    → (settled (start_pass h w o t).metrics ≡ 0) × ((start_pass h w o t).metrics.claimed ≡ 0)
unfolding start_pass
start_pass-Metrics h w o t = (refl, refl)

sweep-Metrics :
    (h : Registry) (w : World) (o : DrainOptions) (s : PassState)
    → let m = (summarize h o (sweep w o s)).metrics in
      (settled m ≡ settled s.metrics) × (m.claimed ≡ s.metrics.claimed)
unfolding sweep summarize
sweep-Metrics h w o s = ground arith

-- One of the statements of a pass, other than the write of a result, throws.
abbrev pub IsInterrupted : World → Type 0
IsInterrupted w =
    (w.recover_fails ≡ true)
    ⊎ ((n : ℕ) × (w.find_fails n ≡ true))
    ⊎ ((n : ℕ) × (w.claim_fails n ≡ true))
    ⊎ (w.sweep_fails ≡ true)
    ⊎ (w.summarize_fails ≡ true)

-- The metrics of a pass that returns.
abbrev pub IsAccounted : DrainOptions → PassState → Type 0
IsAccounted o s = (s.metrics.claimed ≤ 5 * o.limit) × (settled s.metrics ≤ s.metrics.claimed)

end_pass-IsAccounted :
    (h : Registry) (w : World) (o : DrainOptions) (s : PassState)
    → IsAccounted o s
    → ((end_pass h w o s ≡ none) × IsInterrupted w)
      ⊎ ((s' : PassState) × (end_pass h w o s ≡ some s') × IsAccounted o s')
unfolding end_pass
end_pass-IsAccounted h w o s counted =
    let ended = sweep-Metrics h w o s in
    let stops = (not w.sweep_over && w.sweep_fails) || w.summarize_fails in
    elim (Bool-cases stops) [
      | inr e ↦ inr (summarize h o (sweep w o s), rw e refl, (omega arith, omega arith))
      | inl e ↦ elim (Bool-cases w.summarize_fails) [
        | inl f ↦ inl (rw e refl, inr (inr (inr (inr f))))
        | inr f ↦ inl (rw e refl, inr (inr (inr (inl (ground arith)))))
      ]
    ]

-- Whatever the handlers do, whatever other processes do to the table between a claim and its
-- result, and whichever writes of results fail, a pass meets no task without a handler: it returns,
-- unless one of its other statements throws. Where it returns, it has claimed at most five batches,
-- and it counts no more done, skipped and failed tasks than it has claimed.
pub drain_task_outbox_accounts :
    (h : Registry) (w : World) (o : DrainOptions) (t : Table)
    → ((drain_task_outbox h w o t ≡ none) × IsInterrupted w)
      ⊎ ((s : PassState) × (drain_task_outbox h w o t ≡ some s) × IsAccounted o s)
unfolding drain_task_outbox
drain_task_outbox_accounts h w o t =
    let loops = run_loops h w o.now o.limit 5 (start_pass h w o t) in
    elim (Bool-cases w.recover_fails) [
      | inl e ↦ inl (rw (e, drain_task_outbox) refl, inl e)
      | inr e ↦ elim (Option-cases loops) [
        | inl stopped ↦ inl (
          rw (e, drain_task_outbox, stopped) refl,
          elim (run_loops_stopped h w o.now o.limit 5 (start_pass h w o t) stopped) [
            | inl f ↦ inr (inl f)
            | inr f ↦ inr (inr (inl f))
          ],
        )
        | inr (s, went) ↦
            let moved = run_loops-Advances h w o.now o.limit 5 (start_pass h w o t) went in
            let begun = start_pass-Metrics h w o t in
            elim (end_pass-IsAccounted h w o s (omega arith, omega arith)) [
              | inl (f, g) ↦ inl (rw (e, drain_task_outbox, went) f, g)
              | inr (u, f, g) ↦ inr (u, rw (e, drain_task_outbox, went) f, g)
            ]
      ]
    ]
