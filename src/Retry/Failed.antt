-- ===== src/Retry/Failed.antt =====
-- requeueFailedTasksWithCooldown. What policy recovery proposes is an argument.
use open_tiger.Prelude.{
  ltb, ◌==◌, if◌then◌else◌, is_empty, filterb, has_text, ℕ, ◌+◌, ◌-◌, String, Bool, true, false,
  not, ◌&&◌, Option, none, some, List, [], ◌∷◌, ◌++◌,
}
use open_tiger.Json.{Json}
use open_tiger.Store.{TaskStatus, awaiting_judge, needs_rework, Task, Run, update_where, head}
use open_tiger.Failure.Codes.{
  FailureCode, policy_violation, branch_diverged_requires_recreate, Classification,
  is_verification_recovery_failure_code, resolve_failure_category_retry_limit,
}
use open_tiger.Failure.Classify.{TextFunctions, classify_failure}
use open_tiger.Retry.Context.{is_judge_review_task}
use open_tiger.Retry.Adjust.{CommandFunctions, apply_verification_recovery_adjustment}
use open_tiger.Retry.Runs.{
  Artifact, has_pending_judge_run, restore_latest_judge_run, failed_runs,
  has_repeated_failure_signature,
}

pub data RetryEvent : Type 0 where
  task_requeued : (task_id : ℕ) → RetryEvent
  task_recovery_escalated : (task_id : ℕ) → RetryEvent
  task_split : (task_id : ℕ) → RetryEvent

pub record RetryDb : Type 0 where
  pub tasks : List Task
  pub runs : List Run
  pub artifacts : List Artifact
  pub events : List RetryEvent

-- FAILED_TASK_MAX_RETRY_COUNT (none when negative), the repeated signature threshold, and the
-- functions that the decision calls: `signature` is normalizeFailureSignature, `adjusted_paths`
-- the allowed paths that policy recovery arrives at.
pub record RetryEnv : Type 0 where
  pub fs : TextFunctions
  pub max_retry_count : Option ℕ
  pub threshold : Option ℕ
  pub signature : Option String → Option Json → String
  pub cs : CommandFunctions
  pub adjusted_paths : Task → Option Run → List String

unfoldable pub resolve_repeated_failure_signature_threshold : Option ℕ → ℕ
resolve_repeated_failure_signature_threshold none = 4
resolve_repeated_failure_signature_threshold (some n) = if ltb n 2 then 4 else n

unfoldable pub is_retry_allowed : Option ℕ → ℕ → Bool
is_retry_allowed none retry_count = true
is_retry_allowed (some limit) retry_count = ltb retry_count limit

-- The category limits are never negative.
abbrev pub is_category_retry_allowed : (retry_count limit : ℕ) → Bool
is_category_retry_allowed retry_count limit = ltb retry_count limit

pub data Decision : Type 0 where
  to_judge : Decision
  adjust_commands : List String → Decision
  adjust_paths : List String → Decision
  escalate : (lane : String) → Decision
  retry : Decision

abbrev pub is_policy_violation : FailureCode → Bool
is_policy_violation policy_violation = true
is_policy_violation _ = false

abbrev pub lane_override : FailureCode → Task → String
lane_override branch_diverged_requires_recreate t = "conflict_recovery"
lane_override _ t = t.lane

abbrev pub added_paths : RetryEnv → Task → Option Run → List String
added_paths io t latest =
    filterb (λ path. not (has_text t.allowed_paths path)) (io.adjusted_paths t latest)

abbrev pub message_of : Option Run → Option String
message_of none = none
message_of (some r) = r.error_message

abbrev pub meta_of : Option Run → Option Json
meta_of none = none
meta_of (some r) = r.error_meta

abbrev pub classify_latest : RetryEnv → Option Run → Classification
classify_latest io none = classify_failure io.fs none none
classify_latest io (some r) = classify_failure io.fs r.error_message r.error_meta

-- Whether a plain retry may follow the failure.
unfoldable pub may_retry : RetryEnv → Task → List Run → Option Run → Classification → Bool
unfolding is_retry_allowed resolve_repeated_failure_signature_threshold
may_retry io t runs latest failure =
    is_retry_allowed io.max_retry_count t.retry_count
    && (failure.retryable
        && (is_category_retry_allowed t.retry_count
              (resolve_failure_category_retry_limit failure.category io.max_retry_count)
            && not (
                has_repeated_failure_signature io.signature
                  (resolve_repeated_failure_signature_threshold io.threshold) t.id runs latest)))

abbrev pub retry_or_escalate : Bool → String → Decision
retry_or_escalate true lane = retry
retry_or_escalate false lane = escalate lane

abbrev pub proposed_commands : RetryEnv → Task → Option Run → Classification → Option (List String)
proposed_commands io t latest failure =
    if is_verification_recovery_failure_code failure.reason
    then apply_verification_recovery_adjustment io.fs io.cs failure.reason t.commands
        (message_of latest) (meta_of latest)
    else none

-- The decision below the judge's branch, on the latest failed run.
unfoldable pub decide_standard : RetryEnv → Task → List Run → Decision
unfolding may_retry
decide_standard io t runs =
    let latest = head (failed_runs t.id runs) in
    let failure = classify_latest io latest in
    elim (proposed_commands io t latest failure) [
      | some commands ↦ adjust_commands commands
      | none ↦
          if is_policy_violation failure.reason && not (is_empty (added_paths io t latest))
          then adjust_paths (io.adjusted_paths t latest)
          else retry_or_escalate (may_retry io t runs latest failure)
              (lane_override failure.reason t)
    ]

-- The runs after the judge's branch, and the decision.
unfoldable pub decide : RetryEnv → Task → RetryDb → List Run × Decision
unfolding decide_standard
decide io t db =
    if is_judge_review_task io.fs t.title t.goal t.context
    then (if has_pending_judge_run t.id db.runs
        then (db.runs, to_judge)
        else (let (runs, restored) = restore_latest_judge_run db.artifacts t.id db.runs in
            elim restored [
              | none ↦ (runs, decide_standard io t runs)
              | some id ↦ (runs, to_judge)
            ]))
    else (db.runs, decide_standard io t db.runs)

-- The update that a decision sends, with the retry count of the task as it was read.
unfoldable pub decided : ℕ → ℕ → Decision → Task → Task
decided now count to_judge t = record t {
  status = TaskStatus.blocked;
  block_reason = some awaiting_judge;
  retry_count = count + 1;
  updated_at = now;
}
decided now count (adjust_commands commands) t = record t {
  status = TaskStatus.queued;
  block_reason = none;
  commands = commands;
  retry_count = count + 1;
  updated_at = now;
}
decided now count (adjust_paths paths) t = record t {
  status = TaskStatus.queued;
  block_reason = none;
  allowed_paths = paths;
  retry_count = count + 1;
  updated_at = now;
}
decided now count (escalate lane) t = record t {
  status = TaskStatus.blocked;
  block_reason = some needs_rework;
  lane = lane;
  updated_at = now;
}
decided now count retry t = record t {
  status = TaskStatus.queued;
  block_reason = none;
  retry_count = count + 1;
  updated_at = now;
}

abbrev event_of : ℕ → Decision → RetryEvent
event_of id (escalate lane) = task_recovery_escalated id
event_of id _ = task_requeued id

abbrev pub requeues : Decision → ℕ
requeues (escalate lane) = 0
requeues _ = 1

unfoldable pub requeue_failed_task : RetryEnv → ℕ → Task → RetryDb → RetryDb × ℕ
unfolding decide decided
requeue_failed_task io now t db =
    let (runs, decision) = decide io t db in
    (
      record db {
        tasks = update_where (λ x. x.id == t.id) (decided now t.retry_count decision) db.tasks;
        runs = runs;
        events = db.events ++ event_of t.id decision ∷ [];
      },
      requeues decision,
    )

unfoldable pub requeue_each : RetryEnv → ℕ → List Task → RetryDb → RetryDb × ℕ
unfolding requeue_failed_task
requeue_each io now [] db = (db, 0)
requeue_each io now (t ∷ ts) db =
    let one = requeue_failed_task io now t db in
    let rest = requeue_each io now ts one.0 in (rest.0, one.1 + rest.1)

abbrev task_failed : TaskStatus → Bool
task_failed TaskStatus.failed = true
task_failed _ = false

abbrev pub eligible : (cutoff : ℕ) → Task → Bool
eligible cutoff t = task_failed t.status && ltb t.updated_at cutoff

unfoldable pub requeue_failed_tasks_with_cooldown :
    RetryEnv → (now cooldown_ms : ℕ) → RetryDb → RetryDb × ℕ
unfolding requeue_each
requeue_failed_tasks_with_cooldown io now cooldown_ms db =
    requeue_each io now (filterb (eligible (now - cooldown_ms)) db.tasks) db
