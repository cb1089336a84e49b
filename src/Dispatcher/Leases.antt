-- ===== src/Dispatcher/Leases.antt =====
-- apps/dispatcher/src/scheduler/lease.ts: time-bound ownership of tasks, and the clean-up that
-- returns tasks to the queue. Each function takes the time that `Date.now()` reads; a time
-- threshold `x < now - d` is written `x + d < now`.
pub mod Expiry
pub mod Ownership
pub mod Kept
pub mod Histories
pub mod Recovery
pub mod Orphans
mod Tests
use open_tiger.Prelude.{
  ltb, ◌==◌, ◌===◌, if◌then◌else◌, length, is_empty, filterb, any, find_first, ℕ, ◌+◌, ◌*◌, String,
  Bool, true, not, ◌&&◌, ◌||◌, Option, none, some, List, [], ◌∷◌, ◌++◌,
}
use open_tiger.Store.{
  AgentStatus, Task, Run, Lease, Agent, Db, task_running, task_queued, run_running, update_where,
  delete_where, requeued, has_active_run,
}

pub data LeaseError : Type 0 where
  already_leased : LeaseError
  insert_failed : LeaseError

pub data LeaseResult : Type 0 where
  acquired : ℕ → LeaseResult
  refused : LeaseError → LeaseResult

abbrev pub leased_by : String → Lease → Bool
leased_by agent_id l = l.agent_id === agent_id

abbrev pub running_for : String → Run → Bool
running_for agent_id r = (r.agent_id === agent_id) && run_running r.status

abbrev pub set_idle : ℕ → Agent → Agent
set_idle now a = record a {
  status = AgentStatus.idle;
  current_task_id = none;
  last_heartbeat = some now;
}

-- The agents table after `markAgentIdleIfNoActiveWork(agentId)`.
unfoldable pub idle_if_no_active_work : ℕ → String → Db → List Agent
idle_if_no_active_work now agent_id db =
    if any (leased_by agent_id) db.leases
    then db.agents
    else if any (running_for agent_id) db.runs
    then db.agents
    else update_where (λ a. a.id === agent_id) (set_idle now) db.agents

abbrev pub mark_agent_idle_if_no_active_work : ℕ → String → Db → Db
mark_agent_idle_if_no_active_work now agent_id db = record db {
  agents = idle_if_no_active_work now agent_id db;
}

abbrev pub holds_task : ℕ → Lease → Bool
holds_task task_id l = l.task_id == task_id

abbrev pub task_exists : ℕ → List Task → Bool
task_exists task_id tasks = any (λ t. t.id == task_id) tasks

-- `insert`, under the unique constraint of the column `task_id` and its reference to the tasks.
abbrev pub insert_lease : Lease → Db → Option (List Lease)
insert_lease l db =
    if any (holds_task l.task_id) db.leases || not (task_exists l.task_id db.tasks)
    then none
    else some (db.leases ++ l ∷ [])

unfoldable pub insert_result : Lease → Db → Option (List Lease) → Db × LeaseResult
insert_result l db none = (db, refused insert_failed)
insert_result l db (some leases) = (record db { leases = leases }, acquired l.id)

-- `between` is what other processes do to the tables between the check and the insert; `fresh`
-- is the id that the database generates.
unfoldable pub acquire_lease : (now fresh : ℕ) → (Db → Db) → ℕ → String → ℕ → Db → Db × LeaseResult
unfolding insert_result
acquire_lease now fresh between task_id agent_id duration_minutes db =
    let lease : Lease = record {
      id = fresh;
      task_id = task_id;
      agent_id = agent_id;
      expires_at = now + duration_minutes * 60 * 1000;
      created_at = now;
    } in
    if any (holds_task task_id) db.leases
    then (db, refused already_leased)
    else insert_result lease (between db) (insert_lease lease (between db))

unfoldable pub idle_holder : ℕ → Option Lease → Db → Db
idle_holder now none db = db
idle_holder now (some l) db =
    if l.agent_id === "" then db else mark_agent_idle_if_no_active_work now l.agent_id db

unfoldable pub release_lease : ℕ → ℕ → Db → Db
unfolding idle_holder
release_lease now task_id db =
    idle_holder now (find_first (holds_task task_id) db.leases)
      (record db { leases = delete_where (holds_task task_id) db.leases })

-- The new table, and whether a row matched.
pub extend_lease : ℕ → ℕ → ℕ → Db → Db × Bool
extend_lease now task_id additional_minutes db = (
  record db {
    leases =
        update_where (holds_task task_id)
          (λ l. record l { expires_at = now + additional_minutes * 60 * 1000 }) db.leases;
  },
  any (holds_task task_id) db.leases,
)

abbrev pub expired : ℕ → Lease → Bool
expired now l = ltb l.expires_at now

abbrev pub running_task : ℕ → Task → Bool
running_task task_id t = (t.id == task_id) && task_running t.status

-- The loop of `cleanupExpiredLeases`.
pub requeue_expired : ℕ → List Lease → Db → Db
requeue_expired now [] db = db
requeue_expired now (l ∷ ls) db = requeue_expired now ls (
    mark_agent_idle_if_no_active_work now l.agent_id
      (record db { tasks = update_where (running_task l.task_id) (requeued now) db.tasks }))

pub cleanup_expired_leases : ℕ → Db → Db × ℕ
cleanup_expired_leases now db =
    let expired_leases = filterb (expired now) db.leases in
    if is_empty expired_leases
    then (db, 0)
    else (let db' = requeue_expired now expired_leases db in
        (record db' { leases = delete_where (expired now) db'.leases }, length expired_leases))

abbrev pub reclaim : ℕ → Lease → Db → Db
reclaim now l db =
    mark_agent_idle_if_no_active_work now l.agent_id
      (record db { leases = delete_where (λ m. m.id == l.id) db.leases })

-- Whether `cleanupDanglingLeases` reclaims a lease: its task is gone, or queued with no run.
abbrev pub dangling_status : Bool → Option Task → Bool
dangling_status active none = true
dangling_status active (some t) = task_queued t.status && not active

pub dangling : Db → Lease → Bool
dangling db l =
    dangling_status (has_active_run db l.task_id) (find_first (λ t. t.id == l.task_id) db.tasks)

-- Its loop, over the leases read at the start, with the count so far.
pub reclaim_dangling : ℕ → List Lease → Db → ℕ → Db × ℕ
reclaim_dangling now [] db reclaimed = (db, reclaimed)
reclaim_dangling now (l ∷ ls) db reclaimed =
    let again = reclaim_dangling now ls in
    if dangling db l then again (reclaim now l db) (reclaimed + 1) else again db reclaimed

pub cleanup_dangling_leases : ℕ → Db → Db × ℕ
unfolding reclaim_dangling
cleanup_dangling_leases now db = reclaim_dangling now db.leases db 0

-- The selection of `recoverOrphanedRunningTasks`.
abbrev pub stale_running : ℕ → ℕ → Task → Bool
stale_running now grace_ms t = task_running t.status && ltb (t.updated_at + grace_ms) now

pub idle_holders : ℕ → List Lease → Db → Db
idle_holders now [] db = db
idle_holders now (l ∷ ls) db =
    idle_holders now ls (mark_agent_idle_if_no_active_work now l.agent_id db)

pub recover_task : ℕ → ℕ → Db → Db
recover_task now task_id db =
    let task_leases = filterb (holds_task task_id) db.leases in
    let db' =
      idle_holders now task_leases
        (record db { leases = delete_where (holds_task task_id) db.leases }) in
    record db' { tasks = update_where (λ t. t.id == task_id) (requeued now) db'.tasks }

pub recover_candidates : ℕ → List Task → Db → ℕ → Db × ℕ
recover_candidates now [] db recovered = (db, recovered)
recover_candidates now (t ∷ ts) db recovered =
    let again = recover_candidates now ts in
    if has_active_run db t.id
    then again db recovered
    else again (recover_task now t.id db) (recovered + 1)

pub recover_orphaned_running_tasks : ℕ → ℕ → Db → Db × ℕ
recover_orphaned_running_tasks now grace_ms db =
    recover_candidates now (filterb (stale_running now grace_ms) db.tasks) db 0

pub get_agent_leases : String → Db → List Lease
get_agent_leases agent_id db = filterb (leased_by agent_id) db.leases

pub get_all_active_leases : ℕ → Db → List Lease
get_all_active_leases now db = filterb (λ l. ltb now l.expires_at) db.leases
