-- ===== src/Dispatcher/Dispatch.antt =====
-- apps/dispatcher/src/main.ts: dispatching one task, the free slots and the poll delay.
pub mod Laws
mod Tests
use open_tiger.Prelude.{
  ◌==◌, if◌then◌else◌, any, ℕ, ◌-◌, ◌*◌, ◌^◌, min, max, String, Bool, true, false, ◌&&◌, Option,
  none, some,
}
use open_tiger.Store.{
  TaskStatus, quota_wait, Task, Db, task_queued, update_where, requeued, has_active_run,
}
use open_tiger.Dispatcher.Leases.{LeaseResult, acquired, refused, acquire_lease, release_lease}

pub data LaunchMode : Type 0 where
  process docker : LaunchMode

-- What surrounds one dispatch: the launch mode; the writes of other processes between
-- acquireLease's check and its insert, before the task is claimed, while it is enqueued and during
-- the launch, with the launcher's own update of the agent; whether the enqueueing succeeds, or
-- throws; and whether a docker launch succeeds.
pub record Surroundings : Type 0 where
  pub mode : LaunchMode
  pub in_acquire : Db → Db
  pub before_claim : Db → Db
  pub in_enqueue : Db → Db
  pub enqueued : Bool
  pub in_launch : Db → Db
  pub launched : Bool

abbrev pub queued_task : ℕ → Task → Bool
queued_task task_id t = (t.id == task_id) && task_queued t.status

abbrev pub set_running : ℕ → Task → Task
set_running now t = record t { status = TaskStatus.running; updated_at = now }

-- The failure of a launch: the lease is released and the task queued.
abbrev pub undo_dispatch : ℕ → ℕ → Db → Db
undo_dispatch now task_id db =
    let db' = release_lease now task_id db in
    record db' { tasks = update_where (λ t. t.id == task_id) (requeued now) db'.tasks }

-- `launchWorker`: a resident worker is only told, which succeeds.
abbrev pub launch_succeeds : LaunchMode → Bool → Bool
launch_succeeds process launched = true
launch_succeeds docker launched = launched

-- From the launch of the worker.
unfoldable pub launch_task : ℕ → Surroundings → ℕ → Db → Db × Option Bool
launch_task now o task_id db =
    if launch_succeeds o.mode o.launched
    then (o.in_launch db, some true)
    else (undo_dispatch now task_id (o.in_launch db), some false)

-- In process mode the task is enqueued first; what enqueueTask throws is not caught.
unfoldable pub enqueue_and_launch : LaunchMode → ℕ → Surroundings → ℕ → Db → Db × Option Bool
unfolding launch_task
enqueue_and_launch docker now o task_id db = launch_task now o task_id db
enqueue_and_launch process now o task_id db =
    if o.enqueued then launch_task now o task_id (o.in_enqueue db) else (o.in_enqueue db, none)

-- From the update of the task to running, with the lease held. No answer: the call has thrown.
unfoldable pub start_task : ℕ → Surroundings → ℕ → Db → Db × Option Bool
unfolding enqueue_and_launch
start_task now o task_id db =
    if any (queued_task task_id) db.tasks
    then enqueue_and_launch o.mode now o task_id
        (record db { tasks = update_where (queued_task task_id) (set_running now) db.tasks })
    else (release_lease now task_id db, some false)

abbrev pub after_lease : ℕ → Surroundings → ℕ → Db × LeaseResult → Db × Option Bool
after_lease now o task_id (db, refused error) = (db, some false)
after_lease now o task_id (db, acquired id) = start_task now o task_id (o.before_claim db)

unfoldable pub dispatch_task :
    (now fresh minutes : ℕ) → Surroundings → (task_id : ℕ) → String → Db → Db × Option Bool
unfolding start_task
dispatch_task now fresh minutes o task_id agent_id db =
    if has_active_run db task_id
    then (db, some false)
    else after_lease now o task_id
        (acquire_lease now fresh o.in_acquire task_id agent_id minutes db)

-- The poll delay after a number of loops that dispatched nothing.
unfoldable pub compute_backoff_delay_ms : (max_poll base streak : ℕ) → ℕ
compute_backoff_delay_ms max_poll base streak =
    if streak == 0 then base else min (base * 2 ^ min streak 6) (max base max_poll)

abbrev is_quota_wait : Task → Bool
is_quota_wait t = elim t.block_reason [ some quota_wait ↦ true | _ ↦ false ]

abbrev is_blocked : TaskStatus → Bool
is_blocked TaskStatus.blocked = true
is_blocked _ = false

unfoldable pub has_quota_wait_backlog : Db → Bool
has_quota_wait_backlog db = any (λ t. is_blocked t.status && is_quota_wait t) db.tasks

-- No limit, `none`, gives Number.MAX_SAFE_INTEGER slots; a backlog waiting for quota limits the
-- workers to one.
unfoldable pub available_slots : (backlog : Bool) → Option ℕ → (busy : ℕ) → ℕ
available_slots true none busy = 1 - busy
available_slots true (some limit) busy = min limit 1 - busy
available_slots false none busy = 9007199254740991
available_slots false (some limit) busy = limit - busy
