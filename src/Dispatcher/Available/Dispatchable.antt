-- ===== src/Dispatcher/Available/Dispatchable.antt =====
-- What getAvailableTasks (apps/dispatcher/src/scheduler/priority.ts) selects, dispatchTask
-- (apps/dispatcher/src/main.ts) can dispatch.
use open_tiger.Prelude.{
  ==_refl, &&_parts, if_both, filterb, any, all, Within, here, there, All, has_id, has_text,
  All-filterb, All-map, Within-filterb, ℕ, String, ◌≡◌, refl, ◌∙◌, true, false, not, ◌&&◌, some,
  List, [], ◌∷◌, arith,
}
use open_tiger.Store.{Task, Agent, Db, update_where, has_active_run}
use open_tiger.Dispatcher.Lanes.{AvailableTask}
use open_tiger.Dispatcher.Leases.{holds_task}
use open_tiger.Dispatcher.Dispatch.{LaunchMode, process, docker, queued_task, dispatch_task}
use open_tiger.Dispatcher.Dispatch.Laws.{undisturbed, answer, dispatch_task-Dispatches}
use open_tiger.Dispatcher.Available.{
  PriorityEnv, has_judge_backlog, is_queued, misqueued_ids, to_judge_again, return_misqueued,
  is_cooling_down, area_active, is_resolved, passes, calculate_priority_score, to_available,
  dispatchable_queued, get_available_tasks,
}
use open_tiger.Dispatcher.Available.Ranked.{rank_tasks-All}

-- What is promised of a selected task: no task that runs has its area, all its dependencies are
-- over, and a dispatch whose worker launches, and in process mode whose task can be enqueued,
-- succeeds if the task has no run in progress.
pub record IsDispatchable (io : PriorityEnv) (now : ℕ) (db : Db) (a : AvailableTask) : Type 0 where
  pub area_free : area_active io db.tasks a.target_area ≡ false
  pub resolved : all (is_resolved db.tasks) a.dependencies ≡ true
  pub dispatches :
      (fresh minutes : ℕ) (agent_id : String) (mode : LaunchMode)
      (set_busy : List Agent → List Agent)
      → has_active_run db a.id ≡ false
      → (dispatch_task now fresh minutes (undisturbed mode set_busy true true) a.id agent_id db).1
        ≡ some true

-- A queued task that is not returned to the judge is still queued.
still_queued :
    (now : ℕ) (ids : List ℕ) (t : Task) (xs : List Task)
    → Within t xs
    → is_queued t ≡ true
    → has_id ids t.id ≡ false
    → any (queued_task t.id) (update_where (λ x. has_id ids x.id) (to_judge_again now) xs) ≡ true
still_queued now ids t [] w q h = elim w [ ]
still_queued now ids t (x ∷ xs) here q h = rw (h, ==_refl x.id, q)
still_queued now ids t (x ∷ xs) (there w) q h =
    let rest = still_queued now ids t xs w q h in rw rest (ground arith)

succeeds : (mode : LaunchMode) → answer mode true true ≡ some true
succeeds process = refl
succeeds docker = refl

selected-IsDispatchable :
    (io : PriorityEnv) (now : ℕ) (db : Db) (t : Task)
    → any (queued_task t.id) db.tasks ≡ true
    → passes io now db t ≡ true
    → IsDispatchable io now db (to_available io t)
unfolding passes
selected-IsDispatchable io now db t queued ok =
    let (_, rest) = &&_parts (has_text io.kinds t.kind) _ ok in
    let (_, rest2) = &&_parts (not (is_cooling_down io now db t)) _ rest in
    let (free, rest3) = &&_parts (not (any (holds_task t.id) db.leases)) _ rest2 in
    let (area, deps) = &&_parts (not (area_active io db.tasks (io.area t))) _ rest3 in
    let unleased : any (holds_task t.id) db.leases ≡ false = ground arith in
    record {
      area_free = ground arith;
      resolved = deps;
      dispatches = λ fresh minutes agent_id mode set_busy idle_one.
          (dispatch_task-Dispatches now fresh minutes t.id agent_id mode set_busy true true
            db).answers
          ∙ rw (idle_one, unleased, queued) (succeeds mode);
    }

-- Every selected task can be dispatched, on the tables as the selection leaves them: no running
-- task has its area, all its dependencies are done, cancelled or failed, and with no other writer
-- and no run of it in progress, a dispatch succeeds whose worker launches, in process mode once its
-- task can be enqueued.
pub get_available_tasks-IsDispatchable :
    (io : PriorityEnv) (now : ℕ) (db : Db)
    → All
        (IsDispatchable io now (get_available_tasks io now db).0)
        (get_available_tasks io now db).1
unfolding get_available_tasks return_misqueued
get_available_tasks-IsDispatchable io now db =
    let after = return_misqueued now db in
    let ids = misqueued_ids db.tasks in
    if_both (λ (r : Db × List AvailableTask). All (IsDispatchable io now r.0) r.1)
      (io.block_on_awaiting_judge && has_judge_backlog io db) _ _ (λ gate. tt)
      (λ gate. All-map (IsDispatchable io now after) (to_available io) _ (
        rank_tasks-All (λ t. IsDispatchable io now after (to_available io t))
          (calculate_priority_score now) _
          (All-filterb (passes io now after) (dispatchable_queued db.tasks) (λ t w ok.
            let (v, fresh) =
              Within-filterb (λ x. not (has_id ids x.id)) (filterb is_queued db.tasks) w in
            let (u, q) = Within-filterb is_queued db.tasks v in
            selected-IsDispatchable io now after t
              (still_queued now ids t db.tasks u q (ground arith)) ok))))
