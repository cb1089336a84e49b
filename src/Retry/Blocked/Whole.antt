-- ===== src/Retry/Blocked/Whole.antt =====
-- A whole pass of requeueBlockedTasksWithCooldown
-- (apps/cycle-manager/src/cleaners/cleanup-retry/requeue-blocked.ts) does not multiply tasks.
use open_tiger.Prelude.{
  ◌==◌, if◌then◌else◌, ==_refl, ==→eq, Bool-cases, filterb, count_if, All, has_id, ℕ, ◌+◌, ◌≤◌, ◌≡◌,
  refl, subst, inl, inr, true, false, List, [], ◌∷◌, arith,
}
use open_tiger.Store.{TaskStatus, Task, Run, active_status}
use open_tiger.Retry.Failed.{RetryDb}
use open_tiger.Retry.Blocked.{BlockedEnv, required_cooldown_ms}
use open_tiger.Retry.Blocked.Pass.{
  by_id, requeue_blocked_task, requeue_blocked_each, task_blocked,
  requeue_blocked_tasks_with_cooldown,
}
use open_tiger.Retry.Blocked.Growth.{is_active, active_with, requeue_blocked_task-keeps_count}
use open_tiger.Retry.Blocked.Rounds.{
  task_ids, generated, FreshIds, Present, round-ids, round-active,
}

module _ (f : ℕ) (fresh : ℕ → ℕ) (before after : List Task)
    (bound : (id : ℕ)
      → count_if (by_id id) after ≤ count_if (by_id id) before + (if f == id then 1 else 0)) where
  unused-step :
      (ts : List Task)
      → All (λ t. count_if (by_id (fresh t.id)) before ≡ 0) ts
      → has_id (generated fresh ts) f ≡ false
      → All (λ t. count_if (by_id (fresh t.id)) after ≡ 0) ts
  unused-step [] h away = tt
  unused-step (t ∷ ts) h away = elim (Bool-cases (f == fresh t.id)) [
    | inl same ↦ let bad = (rw same at away) in absurd (cc)
    | inr other ↦
        let b = (rw other at (bound (fresh t.id))) in
        (omega (arith, b, h.0), unused-step ts h.1 (rw other at away))
  ]

  unique-step :
      ((id : ℕ) → count_if (by_id id) before ≤ 1)
      → count_if (by_id f) before ≡ 0
      → (id : ℕ) → count_if (by_id id) after ≤ 1
  unique-step unique free id = elim (Bool-cases (f == id)) [
    | inl same ↦
        let b = (rw same at (bound id)) in
        let none_yet = subst (λ x. count_if (by_id x) before ≡ 0) (==→eq f id same) free in
        omega (arith, b, none_yet)
    | inr other ↦ let b = (rw other at (bound id)) in omega (arith, b, unique id)
  ]

Present-step :
    (own : ℕ) (before after : List Task)
    → ((id : ℕ)
        → (id == own) ≡ false
        → count_if (active_with id) before ≤ count_if (active_with id) after)
    → (ts : List Task) → Present ts before
    → has_id (task_ids ts) own ≡ false
    → Present ts after
Present-step own before after keeps [] h away = tt
Present-step own before after keeps (t ∷ ts) h away =
    let other : (t.id == own) ≡ false = ground arith in
    (
      omega (arith, keeps t.id other, h.0),
      Present-step own before after keeps ts h.1 (ground arith),
    )

requeue_blocked_each-keeps_count :
    (io : BlockedEnv) (now cooldown_ms : ℕ) (runs : List Run) (fresh : ℕ → ℕ) (ts : List Task)
    (db : RetryDb)
    → FreshIds fresh ts db.tasks
    → Present ts db.tasks
    → count_if is_active (requeue_blocked_each io now cooldown_ms runs fresh ts db).0.tasks
      ≤ count_if is_active db.tasks
unfolding requeue_blocked_each
requeue_blocked_each-keeps_count io now cooldown_ms runs fresh [] db ids p = omega arith
requeue_blocked_each-keeps_count io now cooldown_ms runs fresh (t ∷ ts) db ids p =
    let needed = required_cooldown_ms io cooldown_ms runs t in
    let one = (requeue_blocked_task io now (fresh t.id) needed t db).0 in
    let bound = round-ids io now (fresh t.id) needed t db in
    let next : FreshIds fresh ts one.tasks = record {
      unique = unique-step (fresh t.id) fresh db.tasks one.tasks bound ids.unique ids.unused.0;
      apart = ids.apart.1;
      distinct = ids.distinct.1;
      unused =
          unused-step (fresh t.id) fresh db.tasks one.tasks bound ts ids.unused.1 ids.distinct.0;
    } in
    omega (
      arith,
      requeue_blocked_task-keeps_count io now (fresh t.id) needed t db ids.unique p.0,
      requeue_blocked_each-keeps_count io now cooldown_ms runs fresh ts one next (
          Present-step t.id db.tasks one.tasks (round-active io now (fresh t.id) needed t db) ts p.1
            ids.apart.0),
    )

-- The blocked rows of a table stand in it and are active.
Present-cons : (x : Task) (ts tasks : List Task) → Present ts tasks → Present ts (x ∷ tasks)
Present-cons x [] tasks h = tt
Present-cons x (t ∷ ts) tasks h = (omega (arith, h.0), Present-cons x ts tasks h.1)

blocked_active : (s : TaskStatus) → task_blocked s ≡ true → active_status s ≡ true
blocked_active TaskStatus.blocked h = refl
blocked_active TaskStatus.queued h = refl
blocked_active TaskStatus.running h = refl
blocked_active TaskStatus.done h = cc
blocked_active TaskStatus.failed h = cc
blocked_active TaskStatus.cancelled h = cc

Present-blocked : (tasks : List Task) → Present (filterb (λ t. task_blocked t.status) tasks) tasks
Present-blocked [] = tt
Present-blocked (x ∷ xs) =
    let rest = Present-cons x (filterb (λ t. task_blocked t.status) xs) xs (Present-blocked xs) in
    elim (Bool-cases (task_blocked x.status)) [
      | inl held ↦ rw held ((rw (==_refl x.id, blocked_active x.status held) (omega arith)), rest)
      | inr other ↦ rw other rest
    ]

-- With ids unique and the generated ids new, a pass over the blocked tasks never leaves more active
-- tasks (queued, running or blocked) than there were: rework does not amplify.
pub requeue_blocked_tasks-keeps_count :
    (io : BlockedEnv) (now cooldown_ms : ℕ) (fresh : ℕ → ℕ) (db : RetryDb)
    → FreshIds fresh (filterb (λ t. task_blocked t.status) db.tasks) db.tasks
    → count_if is_active (requeue_blocked_tasks_with_cooldown io now cooldown_ms fresh db).0.tasks
      ≤ count_if is_active db.tasks
unfolding requeue_blocked_tasks_with_cooldown
requeue_blocked_tasks-keeps_count io now cooldown_ms fresh db ids =
    requeue_blocked_each-keeps_count io now cooldown_ms db.runs fresh
      (filterb (λ t. task_blocked t.status) db.tasks) db ids (Present-blocked db.tasks)
