-- ===== src/Retry/Blocked/Decide.antt =====
-- The decision of requeueBlockedTasksWithCooldown
-- (apps/cycle-manager/src/cleaners/cleanup-retry/requeue-blocked.ts) for one task, and the pass.
use open_tiger.Prelude.{
  leb, ◌==◌, ◌===◌, if◌then◌else◌, is_empty, filterb, find_first, has_text, ℕ, ◌+◌, String, Bool,
  false, not, ◌&&◌, Option, none, some, List,
}
use open_tiger.Json.{Json, text}
use open_tiger.Store.{BlockReason, awaiting_judge, needs_rework, Task, Run, head}
use open_tiger.Failure.Codes.{
  setup, Classification, is_verification_recovery_failure_code,
  resolve_failure_category_retry_limit,
}
use open_tiger.Failure.Classify.{TextFunctions, classify_failure}
use open_tiger.Retry.Context.{context_field, is_pr_review_task, is_judge_review_task}
use open_tiger.Retry.Adjust.{apply_verification_recovery_adjustment}
use open_tiger.Retry.Runs.{has_pending_judge_run, restore_latest_judge_run, failed_runs}
use open_tiger.Retry.Failed.{RetryDb, message_of, meta_of}
use open_tiger.Retry.Rework.{task_notes, resolve_auto_rework_depth}
use open_tiger.Retry.Blocked.{
  BlockedEnv, normalize_block_reason, extract_pr_number_for_task, is_conflict_auto_fix_task_title,
  has_active_rework_child, has_active_auto_fix_task_for_pr, should_retry_blocked_setup_failure,
  should_retry_blocked_needs_rework_in_place,
}

pub data BlockedDecision : Type 0 where
  leave_blocked : BlockedDecision
  back_to_judge : BlockedDecision
  requeue_blocked : BlockedDecision
  requeue_commands : List String → BlockedDecision
  requeue_paths : List String → BlockedDecision
  keep_suppressed : BlockedDecision
  cancel_blocked : BlockedDecision
  route_source : Option ℕ → BlockedDecision
  split_rework : BlockedDecision

abbrev pub find_task : List Task → ℕ → Option Task
find_task tasks id = find_first (λ x. x.id == id) tasks

abbrev pub source_if_review : Option Task → Option ℕ
source_if_review none = none
source_if_review (some s) = if is_pr_review_task s.title s.goal s.context then some s.id else none

-- The commands that verification recovery proposes.
abbrev pub recovered_commands :
    BlockedEnv → Task → Option Run → Classification → Option (List String)
recovered_commands io t latest failure =
    if is_verification_recovery_failure_code failure.reason
    then apply_verification_recovery_adjustment io.fs io.cs failure.reason t.commands
        (message_of latest) (meta_of latest)
    else none

abbrev pub new_paths : BlockedEnv → Task → List String → List String
new_paths io t outside =
    filterb (λ path. not (has_text t.allowed_paths path)) (io.adjusted_paths t outside)

-- The branches for paths outside the allowed ones.
abbrev pub decide_violation : BlockedEnv → Task → List String → BlockedDecision
decide_violation io t outside =
    if not (is_empty (new_paths io t outside))
    then requeue_paths (io.adjusted_paths t outside)
    else if leb io.policy_suppression_max_retries (t.retry_count + 1)
    then cancel_blocked
    else keep_suppressed

-- The last branches: a rework task is created unless there is one or the chain is too long.
abbrev pub decide_split : BlockedEnv → List Task → Task → BlockedDecision
decide_split io tasks t =
    if has_active_rework_child io tasks t.id
    then cancel_blocked
    else if leb io.auto_rework_max_depth (resolve_auto_rework_depth io.fs io.rs (task_notes t))
    then cancel_blocked
    else split_rework

abbrev pub decide_after_retry : BlockedEnv → List Task → Task → Option Run → BlockedDecision
decide_after_retry io tasks t latest =
    if not (is_empty (io.outside_paths latest))
    then decide_violation io t (io.outside_paths latest)
    else decide_split io tasks t

abbrev pub in_place_or_after :
    BlockedEnv → List Task → Task → Option Run → Classification → BlockedDecision
in_place_or_after io tasks t latest failure =
    if should_retry_blocked_needs_rework_in_place failure (t.retry_count + 1)
      io.needs_rework_in_place_retry_limit
    then requeue_blocked
    else decide_after_retry io tasks t latest

abbrev pub with_commands : Option (List String) → BlockedDecision → BlockedDecision
with_commands none rest = rest
with_commands (some commands) rest = requeue_commands commands

abbrev pub classify_run : BlockedEnv → Option Run → Classification
classify_run io latest = classify_failure io.fs (message_of latest) (meta_of latest)

-- The branches of a task that needs rework and is no review and no conflict fix.
unfoldable pub decide_failure : BlockedEnv → RetryDb → Task → BlockedDecision
decide_failure io db t =
    let latest = head (failed_runs t.id db.runs) in
    let failure = classify_run io latest in
    if should_retry_blocked_setup_failure failure.reason (t.retry_count + 1)
      (resolve_failure_category_retry_limit setup io.max_retry_count)
    then requeue_blocked
    else with_commands (recovered_commands io t latest failure)
        (in_place_or_after io db.tasks t latest failure)

abbrev pub pr_has_fix : BlockedEnv → List Task → Task → Option ℕ → Bool
pr_has_fix io tasks t none = false
pr_has_fix io tasks t (some pr) = not (pr == 0) && has_active_auto_fix_task_for_pr io tasks pr t.id

abbrev pub judge_or : BlockedDecision → Option ℕ → BlockedDecision
judge_or otherwise none = otherwise
judge_or otherwise (some id) = back_to_judge

-- A review that needs rework: the runs after the branch, and the decision.
unfoldable pub decide_review : BlockedEnv → RetryDb → Task → List Run × BlockedDecision
decide_review io db t =
    if pr_has_fix io db.tasks t (extract_pr_number_for_task io t)
    then (db.runs, leave_blocked)
    else if has_pending_judge_run t.id db.runs
    then (db.runs, back_to_judge)
    else (let (runs, restored) = restore_latest_judge_run db.artifacts t.id db.runs in
        (runs, judge_or requeue_blocked restored))

-- The id of the task that a context names as `pr.sourceTaskId`.
abbrev pub source_text : TextFunctions → (String → Option ℕ) → Option Json → Option ℕ
source_text fs read (some (text s)) = if fs.trim s === "" then none else read s
source_text fs read _ = none

abbrev pub source_task_id : BlockedEnv → Task → Option ℕ
source_task_id io t =
    source_text io.fs io.task_id_of (context_field "sourceTaskId" (context_field "pr" t.context))

-- The source task, if it is a review.
abbrev pub routed_source : List Task → Option ℕ → Option ℕ
routed_source tasks none = none
routed_source tasks (some id) = source_if_review (find_task tasks id)

unfoldable pub decide_rework : BlockedEnv → RetryDb → Task → List Run × BlockedDecision
unfolding decide_review decide_failure
decide_rework io db t =
    if is_judge_review_task io.fs t.title t.goal t.context
    then decide_review io db t
    else if is_conflict_auto_fix_task_title io.fs t.title
    then (db.runs, route_source (routed_source db.tasks (source_task_id io t)))
    else (db.runs, decide_failure io db t)

-- A task that waits for the judge.
unfoldable pub decide_awaiting : BlockedEnv → RetryDb → Task → List Run × BlockedDecision
decide_awaiting io db t =
    if has_pending_judge_run t.id db.runs
    then (db.runs, leave_blocked)
    else (let (runs, restored) = restore_latest_judge_run db.artifacts t.id db.runs in
        (runs, judge_or requeue_blocked restored))

-- The branch for a block reason; what has none of its own is queued again.
abbrev pub decide_reason :
    BlockedEnv → RetryDb → Task → Option BlockReason → List Run × BlockedDecision
decide_reason io db t (some needs_rework) = decide_rework io db t
decide_reason io db t (some awaiting_judge) = decide_awaiting io db t
decide_reason io db t _ = (db.runs, requeue_blocked)

unfoldable pub decide_blocked : BlockedEnv → RetryDb → Task → List Run × BlockedDecision
unfolding decide_rework decide_awaiting
decide_blocked io db t = decide_reason io db t (normalize_block_reason t.block_reason)
