-- ===== src/Retry/Blocked/Growth.antt =====
-- A round of requeueBlockedTasksWithCooldown
-- (apps/cycle-manager/src/cleaners/cleanup-retry/requeue-blocked.ts) does not multiply tasks.
use open_tiger.Prelude.{
  leb, ◌==◌, Bool-cases, if_both, count_if, count_if-append, count_if-le-length, ℕ, ◌+◌, ◌≤◌, ◌≡◌,
  refl, inl, inr, Bool, false, ◌&&◌, none, some, List, [], ◌∷◌, ◌++◌, arith,
}
use open_tiger.Store.{Task, active_status, update_where}
use open_tiger.Retry.Failed.{RetryDb}
use open_tiger.Retry.Rework.{rework_task}
use open_tiger.Retry.Blocked.{BlockedEnv}
use open_tiger.Retry.Blocked.Decide.{
  BlockedDecision, leave_blocked, back_to_judge, requeue_blocked, requeue_commands, requeue_paths,
  keep_suppressed, cancel_blocked, route_source, split_rework, decide_blocked,
}
use open_tiger.Retry.Blocked.Pass.{
  cancelled_now, own_update, by_id, to_awaiting, other_writes, apply_blocked, requeue_blocked_task,
}

-- A task that is queued, running or blocked.
abbrev pub is_active : Task → Bool
is_active x = active_status x.status

abbrev pub active_with : ℕ → Task → Bool
active_with id x = by_id id x && is_active x

-- An update adds at most the inactive rows that it matches.
pub update-adds :
    (id : ℕ) (f : Task → Task) (xs : List Task)
    → count_if is_active (update_where (by_id id) f xs) + count_if (active_with id) xs
      ≤ count_if is_active xs + count_if (by_id id) xs
update-adds id f [] = omega arith
update-adds id f (x ∷ xs) =
    let rest = update-adds id f xs in
    elim (Bool-cases (x.id == id)) [
      | inl same ↦ elim (Bool-cases (is_active x)) [
        | inl on ↦
            rw (same, on)
              (elim (Bool-cases (is_active (f x))) [
                | inl e ↦ rw e (omega (arith, rest))
                | inr e ↦ rw e (omega (arith, rest))
              ])
        | inr off ↦
            rw (same, off)
              (elim (Bool-cases (is_active (f x))) [
                | inl e ↦ rw e (omega (arith, rest))
                | inr e ↦ rw e (omega (arith, rest))
              ])
      ]
      | inr other ↦ rw other (omega (arith, rest))
    ]

-- An update that deactivates takes away the active rows that it matches.
update-cancels :
    (id : ℕ) (f : Task → Task) (xs : List Task)
    → ((x : Task) → is_active (f x) ≡ false)
    → count_if is_active (update_where (by_id id) f xs) + count_if (active_with id) xs
      ≡ count_if is_active xs
update-cancels id f [] off = omega arith
update-cancels id f (x ∷ xs) off =
    let rest = update-cancels id f xs off in
    elim (Bool-cases (x.id == id)) [
      | inl same ↦ rw (same, off x) (omega (arith, rest))
      | inr other ↦ rw other (omega (arith, rest))
    ]

-- Routing a source keeps what is active active.
pub to_awaiting-keeps :
    (now id s : ℕ) (xs : List Task)
    → count_if (active_with id) xs
      ≤ count_if (active_with id) (update_where (by_id s) (to_awaiting now) xs)
to_awaiting-keeps now id s [] = omega arith
to_awaiting-keeps now id s (x ∷ xs) =
    let rest = to_awaiting-keeps now id s xs in
    elim (Bool-cases (x.id == s)) [
      | inl same ↦ rw same (elim (Bool-cases (x.id == id)) [
        | inl mine ↦ rw mine (elim (Bool-cases (is_active x)) [
          | inl e ↦ rw e (omega (arith, rest))
          | inr e ↦ rw e (omega (arith, rest))
        ])
        | inr not_mine ↦ rw not_mine (omega (arith, rest))
      ])
      | inr other ↦ rw other (omega (arith, rest))
    ]

module _ (io : BlockedEnv) (now fresh : ℕ) (t : Task) (tasks : List Task)
    (unique : (id : ℕ) → count_if (by_id id) tasks ≤ 1)
    (present : 1 ≤ count_if (active_with t.id) tasks) where
  -- The rows that a decision leaves.
  abbrev pub rows_after : BlockedDecision → List Task
  rows_after d =
      update_where (by_id t.id) (own_update now t.retry_count d)
        (other_writes io now fresh t d tasks)

  abbrev NoMore : BlockedDecision → Type 0
  NoMore d = count_if is_active (rows_after d) ≤ count_if is_active tasks

  alone :
      (f : Task → Task)
      → count_if is_active (update_where (by_id t.id) f tasks) ≤ count_if is_active tasks
  alone f = omega (arith, update-adds t.id f tasks, unique t.id, present)

  rows_after-NoMore : (d : BlockedDecision) → NoMore d
  rows_after-NoMore leave_blocked = alone (λ x. x)
  rows_after-NoMore back_to_judge = alone _
  rows_after-NoMore requeue_blocked = alone _
  rows_after-NoMore (requeue_commands commands) = alone _
  rows_after-NoMore (requeue_paths paths) = alone _
  rows_after-NoMore keep_suppressed = alone _
  rows_after-NoMore cancel_blocked = alone _
  rows_after-NoMore (route_source none) = alone _
  rows_after-NoMore (route_source (some s)) =
      let routed = update_where (by_id s) (to_awaiting now) tasks in
      omega (
        arith,
        update-adds s (to_awaiting now) tasks,
        unique s,
        to_awaiting-keeps now t.id s tasks,
        update-cancels t.id (cancelled_now now t.retry_count) routed (λ x. refl),
        present,
      )
  rows_after-NoMore split_rework =
      let child = rework_task io.fs io.rs now fresh t in
      omega (
        arith,
        update-cancels t.id (cancelled_now now t.retry_count) (tasks ++ child ∷ []) (λ x. refl),
        count_if-append is_active tasks (child ∷ []),
        count_if-append (active_with t.id) tasks (child ∷ []),
        count_if-le-length is_active (child ∷ []),
        present,
      )

-- With ids unique, a round on a task that is still active never leaves more active tasks (queued,
-- running or blocked) than there were: a rework task replaces its parent, and a source task that is
-- routed to the judge replaces the conflict fix.
pub requeue_blocked_task-keeps_count :
    (io : BlockedEnv) (now fresh cooldown_ms : ℕ) (t : Task) (db : RetryDb)
    → ((id : ℕ) → count_if (by_id id) db.tasks ≤ 1)
    → 1 ≤ count_if (active_with t.id) db.tasks
    → count_if is_active (requeue_blocked_task io now fresh cooldown_ms t db).0.tasks
      ≤ count_if is_active db.tasks
unfolding requeue_blocked_task
requeue_blocked_task-keeps_count io now fresh cooldown_ms t db unique present =
    if_both (λ r. count_if is_active (r.0).tasks ≤ count_if is_active db.tasks)
      (leb (t.updated_at + cooldown_ms) now)
      (apply_blocked io now fresh t db (decide_blocked io db t)) (db, 0)
      (λ h. rows_after-NoMore io now fresh t db.tasks unique present (decide_blocked io db t).1)
      (λ h. omega arith)
