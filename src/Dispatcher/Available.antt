-- ===== src/Dispatcher/Available.antt =====
-- getAvailableTasks of apps/dispatcher/src/scheduler/priority.ts: which queued tasks may be
-- dispatched, the best first.
pub mod Ranked
pub mod Dispatchable
mod Tests
use package.text.Mathlib.Text.{starts_with, find?}
use open_tiger.Prelude.{
  ltb, leb, ◌==◌, ◌===◌, if◌then◌else◌, filterb, any, all, has_id, has_text, ℤ, pos, sub_ℕ, ◌+ℤ◌,
  times, leb_ℤ, min_ℤ, ℕ, ◌+◌, ◌*◌, String, Bool, true, false, not, ◌&&◌, ◌||◌, Option, none, some,
  List, [], ◌∷◌, map,
}
use open_tiger.Store.{
  TaskStatus, awaiting_judge, RunStatus, Task, Run, Db, task_running, task_queued, update_where,
}
use open_tiger.Retry.Runs.{Artifact, judge_artifact_types, is_success, is_over_badly}
use open_tiger.Dispatcher.Lanes.{AvailableTask}
use open_tiger.Dispatcher.Leases.{holds_task}

-- The settings, the artifacts table, and what the code calls: `area` is
-- resolveDeterministicTargetArea, `quota_message` the expression for quota failures, `lower` is
-- toLowerCase, `kinds` are the task kinds that the plugins allow.
pub record PriorityEnv : Type 0 where
  pub kinds : List String
  pub block_on_awaiting_judge : Bool
  pub retry_delay_ms : ℕ
  pub artifacts : List Artifact
  pub area : Task → Option String
  pub lower : String → String
  pub quota_message : String → Bool

abbrev pub awaits_judge : Task → Bool
awaits_judge t = elim (t.status) [
  | TaskStatus.blocked ↦ elim (t.block_reason) [ some awaiting_judge ↦ true | _ ↦ false ]
  | _ ↦ false
]

abbrev pub judge_artifact : List Artifact → Run → Bool
judge_artifact artifacts r =
    any (λ a. (a.run_id == r.id) && has_text judge_artifact_types a.type) artifacts

abbrev pub unjudged : Option ℕ → Bool
unjudged none = true
unjudged (some n) = false

-- Whether the judge has tasks or runs to see.
unfoldable pub has_judge_backlog : PriorityEnv → Db → Bool
has_judge_backlog io db =
    any awaits_judge db.tasks
    || any
        (λ r.
          is_success r.status
          && (unjudged r.judged_at
              && (judge_artifact io.artifacts r
                  && any (λ t. (t.id == r.task_id) && awaits_judge t) db.tasks)))
        db.runs

abbrev pub is_misqueued : Task → Bool
is_misqueued t =
    starts_with t.goal "Review and process open PR #" || starts_with t.title "[PR] Review #"

abbrev pub is_queued : Task → Bool
is_queued t = task_queued t.status

-- The ids of the queued tasks that only the judge handles.
unfoldable pub misqueued_ids : List Task → List ℕ
misqueued_ids tasks = map (λ t. t.id) (filterb is_misqueued (filterb is_queued tasks))

abbrev pub to_judge_again : ℕ → Task → Task
to_judge_again now t = record t {
  status = TaskStatus.blocked;
  block_reason = some awaiting_judge;
  updated_at = now;
}

unfoldable pub return_misqueued : ℕ → Db → Db
unfolding misqueued_ids
return_misqueued now db = record db {
  tasks = update_where (λ t. has_id (misqueued_ids db.tasks) t.id) (to_judge_again now) db.tasks;
}

-- A failed or cancelled run of the task that ended within the retry delay.
abbrev pub ended_within : ℕ → ℕ → Option ℕ → Bool
ended_within now delay none = false
ended_within now delay (some f) = ltb now (f + delay)

abbrev pub recent_failure : PriorityEnv → ℕ → ℕ → Run → Bool
recent_failure io now task_id r =
    (r.task_id == task_id)
    && (is_over_badly r.status && ended_within now io.retry_delay_ms r.finished_at)

abbrev pub end_of : Option ℕ → ℕ
end_of none = 0
end_of (some f) = f

abbrev pub later_of : Run → Option Run → Option Run
later_of r none = some r
later_of r (some x) = if leb (end_of x.finished_at) (end_of r.finished_at) then some r else some x

abbrev pub latest_ended : List Run → Option Run
latest_ended [] = none
latest_ended (r ∷ rs) = later_of r (latest_ended rs)

abbrev pub has_part : String → String → Bool
has_part s part = elim (find? s part) [ none ↦ false | some i ↦ true ]

abbrev pub run_cancelled : RunStatus → Bool
run_cancelled RunStatus.cancelled = true
run_cancelled _ = false

abbrev pub run_failed : RunStatus → Bool
run_failed RunStatus.failed = true
run_failed _ = false

abbrev pub text_or_empty : Option String → String
text_or_empty none = ""
text_or_empty (some s) = s

-- Whether the latest failure holds the task back.
abbrev pub holds_back : PriorityEnv → Option Run → Bool
holds_back io none = false
holds_back io (some r) =
    let message = io.lower (text_or_empty r.error_message) in
    not (
      (run_cancelled r.status && has_part message "agent process restarted before task completion")
      || ((has_part message "enotempty" || has_part message "directory not empty")
          || (run_failed r.status && io.quota_message message)))

unfoldable pub is_cooling_down : PriorityEnv → ℕ → Db → Task → Bool
is_cooling_down io now db t =
    ltb 0 io.retry_delay_ms
    && holds_back io (latest_ended (filterb (recent_failure io now t.id) db.runs))

abbrev pub same_area : String → Option String → Bool
same_area a none = false
same_area a (some b) = a === b

-- Whether a running task has this area.
abbrev pub area_active : PriorityEnv → List Task → Option String → Bool
area_active io tasks none = false
area_active io tasks (some a) =
    not (a === "") && any (λ r. task_running r.status && same_area a (io.area r)) tasks

abbrev pub is_final : TaskStatus → Bool
is_final TaskStatus.done = true
is_final TaskStatus.cancelled = true
is_final TaskStatus.failed = true
is_final _ = false

abbrev pub is_resolved : List Task → ℕ → Bool
is_resolved tasks d = any (λ x. (x.id == d) && is_final x.status) tasks

-- The filter; `db` are the tables after the misqueued tasks were returned.
unfoldable pub passes : PriorityEnv → ℕ → Db → Task → Bool
unfolding is_cooling_down
passes io now db t =
    has_text io.kinds t.kind
    && (not (is_cooling_down io now db t)
        && (not (any (holds_task t.id) db.leases)
            && (not (area_active io db.tasks (io.area t))
                && all (is_resolved db.tasks) t.dependencies)))

-- Twice the multiplier of the risk level.
abbrev pub risk_doubled : String → ℕ
risk_doubled level =
    if level === "low"
    then 3
    else if level === "medium"
    then 2
    else if level === "high"
    then 1
    else 2

-- `calculatePriorityScore` times 7,200,000, with which it is a whole number: an hour is 3,600,000 ms
-- and the multipliers are halves. A priority may be negative, and so may the time since the
-- creation, where the clocks of the database and of this process differ.
unfoldable pub calculate_priority_score : ℕ → Task → ℤ
calculate_priority_score now t =
    times t.priority (10 * risk_doubled t.risk_level * 3600000)
    +ℤ min_ℤ (times (sub_ℕ now t.created_at) 4) (pos (20 * 7200000))
    +ℤ (if leb t.timebox_minutes 30 then pos (5 * 7200000) else pos 0)

-- `sort((a, b) => b.score - a.score)`, which keeps the order of equals.
abbrev pub insert_ranked : (Task → ℤ) → Task → List Task → List Task
insert_ranked score t [] = t ∷ []
insert_ranked score t (x ∷ xs) =
    let rest = insert_ranked score t xs in
    if leb_ℤ (score x) (score t) then t ∷ x ∷ xs else x ∷ rest

unfoldable pub rank_tasks : (Task → ℤ) → List Task → List Task
rank_tasks score [] = []
rank_tasks score (t ∷ ts) = insert_ranked score t (rank_tasks score ts)

abbrev pub to_available : PriorityEnv → Task → AvailableTask
to_available io t = record {
  id = t.id;
  title = t.title;
  goal = t.goal;
  priority = t.priority;
  risk_level = t.risk_level;
  role = t.role;
  lane = t.lane;
  timebox_minutes = t.timebox_minutes;
  dependencies = t.dependencies;
  allowed_paths = t.allowed_paths;
  commands = t.commands;
  target_area = io.area t;
  touches = t.touches;
}

-- The queued tasks as they were read, less the misqueued ones.
abbrev pub dispatchable_queued : List Task → List Task
dispatchable_queued tasks =
    filterb (λ t. not (has_id (misqueued_ids tasks) t.id)) (filterb is_queued tasks)

unfoldable pub get_available_tasks : PriorityEnv → ℕ → Db → Db × List AvailableTask
unfolding has_judge_backlog return_misqueued passes rank_tasks calculate_priority_score
get_available_tasks io now db =
    if io.block_on_awaiting_judge && has_judge_backlog io db
    then (db, [])
    else (let after = return_misqueued now db in
        (
          after,
          map (to_available io) (
              rank_tasks (calculate_priority_score now)
                (filterb (passes io now after) (dispatchable_queued db.tasks))),
        ))
