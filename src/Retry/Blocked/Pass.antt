-- ===== src/Retry/Blocked/Pass.antt =====
-- The writes of requeueBlockedTasksWithCooldown
-- (apps/cycle-manager/src/cleaners/cleanup-retry/requeue-blocked.ts), and its loop.
use open_tiger.Prelude.{
  leb, ◌==◌, if◌then◌else◌, filterb, ℕ, ◌+◌, Bool, true, false, none, some, List, [], ◌∷◌, ◌++◌,
}
use open_tiger.Store.{
  TaskStatus, BlockReason, awaiting_judge, needs_rework, Task, Run, update_where,
}
use open_tiger.Retry.Failed.{
  RetryEvent, task_requeued, task_recovery_escalated, task_split, RetryDb,
}
use open_tiger.Retry.Rework.{rework_task}
use open_tiger.Retry.Blocked.{BlockedEnv, required_cooldown_ms}
use open_tiger.Retry.Blocked.Decide.{
  BlockedDecision, leave_blocked, back_to_judge, requeue_blocked, requeue_commands, requeue_paths,
  keep_suppressed, cancel_blocked, route_source, split_rework, decide_blocked,
}

-- The write to the task itself, with the retry count of the task as it was read.
abbrev pub counted_up : ℕ → ℕ → Task → Task
counted_up now count t = record t { retry_count = count + 1; updated_at = now }

abbrev pub queued_again : ℕ → ℕ → Task → Task
queued_again now count t = record (counted_up now count t) {
  status = TaskStatus.queued;
  block_reason = none;
}

abbrev pub cancelled_now : ℕ → ℕ → Task → Task
cancelled_now now count t = record (counted_up now count t) {
  status = TaskStatus.cancelled;
  block_reason = none;
}

abbrev pub blocked_for : BlockReason → ℕ → ℕ → Task → Task
blocked_for reason now count t = record (counted_up now count t) {
  status = TaskStatus.blocked;
  block_reason = some reason;
}

-- What the update sets, where there is one.
abbrev pub own_update : ℕ → ℕ → BlockedDecision → Task → Task
own_update now count leave_blocked t = t
own_update now count back_to_judge t = blocked_for awaiting_judge now count t
own_update now count requeue_blocked t = queued_again now count t
own_update now count (requeue_commands commands) t = record (queued_again now count t) {
  commands = commands;
}
own_update now count (requeue_paths paths) t = record (queued_again now count t) {
  allowed_paths = paths;
}
own_update now count keep_suppressed t = blocked_for needs_rework now count t
own_update now count cancel_blocked t = cancelled_now now count t
own_update now count (route_source source) t = cancelled_now now count t
own_update now count split_rework t = cancelled_now now count t

abbrev pub by_id : ℕ → Task → Bool
by_id id x = x.id == id

abbrev pub to_awaiting : ℕ → Task → Task
to_awaiting now x = blocked_for awaiting_judge now x.retry_count x

-- The writes to other rows before that: the source of a conflict fix, or the rework task.
abbrev pub other_writes :
    BlockedEnv → (now fresh : ℕ) → Task → BlockedDecision → List Task → List Task
other_writes io now fresh t (route_source (some id)) tasks =
    update_where (by_id id) (to_awaiting now) tasks
other_writes io now fresh t split_rework tasks = tasks ++ rework_task io.fs io.rs now fresh t ∷ []
other_writes io now fresh t _ tasks = tasks

abbrev pub handles : BlockedDecision → ℕ
handles leave_blocked = 0
handles _ = 1

abbrev pub blocked_event : ℕ → BlockedDecision → List RetryEvent
blocked_event id leave_blocked = []
blocked_event id keep_suppressed = task_recovery_escalated id ∷ []
blocked_event id cancel_blocked = task_recovery_escalated id ∷ []
blocked_event id (route_source source) = task_recovery_escalated id ∷ []
blocked_event id split_rework = task_split id ∷ []
blocked_event id _ = task_requeued id ∷ []

abbrev pub apply_blocked :
    BlockedEnv → (now fresh : ℕ) → Task → RetryDb → List Run × BlockedDecision → RetryDb × ℕ
apply_blocked io now fresh t db (runs, d) = (
  record db {
    tasks =
        update_where (by_id t.id) (own_update now t.retry_count d)
          (other_writes io now fresh t d db.tasks);
    runs = runs;
    events = db.events ++ blocked_event t.id d;
  },
  handles d,
)

-- One round of the loop, on a task as it was read; `cooldown_ms` is the one required of it.
unfoldable pub requeue_blocked_task :
    BlockedEnv → (now fresh cooldown_ms : ℕ) → Task → RetryDb → RetryDb × ℕ
unfolding decide_blocked
requeue_blocked_task io now fresh cooldown_ms t db =
    if leb (t.updated_at + cooldown_ms) now
    then apply_blocked io now fresh t db (decide_blocked io db t)
    else (db, 0)

-- The loop; `runs` are those read before it, for the quota back-off, and `fresh` the ids that the
-- database generates.
unfoldable pub requeue_blocked_each :
    BlockedEnv
    → (now cooldown_ms : ℕ) → List Run
    → (fresh : ℕ → ℕ) → List Task
    → RetryDb
    → RetryDb × ℕ
unfolding requeue_blocked_task
requeue_blocked_each io now cooldown_ms runs fresh [] db = (db, 0)
requeue_blocked_each io now cooldown_ms runs fresh (t ∷ ts) db =
    let one =
      requeue_blocked_task io now (fresh t.id) (required_cooldown_ms io cooldown_ms runs t) t db in
    let rest = requeue_blocked_each io now cooldown_ms runs fresh ts one.0 in
    (rest.0, one.1 + rest.1)

abbrev pub task_blocked : TaskStatus → Bool
task_blocked TaskStatus.blocked = true
task_blocked _ = false

unfoldable pub requeue_blocked_tasks_with_cooldown :
    BlockedEnv → (now cooldown_ms : ℕ) → (fresh : ℕ → ℕ) → RetryDb → RetryDb × ℕ
unfolding requeue_blocked_each
requeue_blocked_tasks_with_cooldown io now cooldown_ms fresh db =
    requeue_blocked_each io now cooldown_ms db.runs fresh
      (filterb (λ t. task_blocked t.status) db.tasks) db
