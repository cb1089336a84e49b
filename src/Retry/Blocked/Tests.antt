-- ===== src/Retry/Blocked/Tests.antt =====
-- A task that needs rework with its retries used up, a review that waits for the judge, and a task
-- that runs.
use open_tiger.Prelude.{
  ◌==◌, if◌then◌else◌, filterb, count_if, ℕ, ◌+◌, ◌≤◌, ◌<◌, ◌≡◌, refl, ◌⊎◌, true, false, none, some,
  [], ◌∷◌, arith,
}
use open_tiger.Store.{TaskStatus, awaiting_judge, needs_rework, RunStatus, Task, most_recent_first}
use open_tiger.Store.Samples.{task_row, run_row}
use open_tiger.Failure.Codes.{
  code_text, classify_failure_by_code, is_verification_recovery_failure_code,
  failure_category_retry_limit, resolve_failure_category_retry_limit,
}
use open_tiger.Failure.Classify.{
  to_normalized_string, extract_text, extract_failure_code, classify_message, classify_failure,
}
use open_tiger.Retry.Context.{
  context_field, is_pr_review_task, has_source_task_in_pr_context, is_judge_review_task,
}
use open_tiger.Retry.Runs.{has_pending_judge_run, failed_runs}
use open_tiger.Retry.Failed.{RetryDb}
use open_tiger.Retry.Rework.{extract_auto_rework_parents, resolve_auto_rework_depth}
use open_tiger.Retry.Blocked.{
  BlockedEnv, normalize_block_reason, has_active_rework_child, has_active_auto_fix_task_for_pr,
  should_retry_blocked_setup_failure, should_retry_blocked_needs_rework_in_place,
}
use open_tiger.Retry.Blocked.Decide.{
  split_rework, decide_failure, decide_rework, decide_awaiting, decide_blocked,
}
use open_tiger.Retry.Blocked.Pass.{
  requeue_blocked_task, task_blocked, requeue_blocked_tasks_with_cooldown,
}
use open_tiger.Retry.Blocked.Splits.{SplitsLast}
use open_tiger.Retry.Blocked.Laws.{Waits, decide_blocked-SplitsLast, requeue_blocked_task-Waits}
use open_tiger.Retry.Blocked.Growth.{is_active}
use open_tiger.Retry.Blocked.Rounds.{FreshIds}
use open_tiger.Retry.Blocked.Whole.{requeue_blocked_tasks-keeps_count}

abbrev setting : BlockedEnv
setting = record {
  fs = record { lower = λ s. s; trim = λ s. s; matches = λ p s. false };
  cs = record {
    failed_at = λ s. none;
    artifact_target = λ s. none;
    strip_wrapping_quotes = λ s. s;
    normalize_path = λ s. s;
    split_path = λ s. s ∷ [];
    split_command_tokens = λ s. s ∷ [];
    has_clean = λ s. false;
    runs_clean_script = λ ws. false;
  };
  rs = record {
    parse_meta = λ s. none;
    id_text = λ n. if n == 1 then "1" else "other";
    rework_paths = λ t. t.allowed_paths;
  };
  max_retry_count = none;
  policy_suppression_max_retries = 5;
  auto_rework_max_depth = 2;
  needs_rework_in_place_retry_limit = some 5;
  base_delay_ms = 30000;
  max_delay_ms = 1800000;
  factor = (2, 0);
  jitter_ratio = (1, 4);
  seed = λ n k. n ∷ k ∷ [];
  hint = λ m. none;
  decimal = λ n. if n == 7 then "7" else "70";
  goal_pr = λ s. none;
  title_pr = λ s. none;
  task_id_of = λ s. none;
  outside_paths = λ r. [];
  adjusted_paths = λ t ps. t.allowed_paths;
}

abbrev used_up : Task
used_up = record (task_row 1 TaskStatus.blocked 100) {
  block_reason = some needs_rework;
  retry_count = 9;
}

abbrev waiting : Task
waiting = record (task_row 2 TaskStatus.blocked 100) { block_reason = some awaiting_judge }

abbrev board : RetryDb
board = record {
  tasks = used_up ∷ waiting ∷ task_row 3 TaskStatus.running 100 ∷ [];
  runs = run_row 12 2 "worker-1" RunStatus.success ∷ [];
  artifacts = [];
  events = [];
}

abbrev new_id : ℕ → ℕ
new_id n = n + 100

splits : (decide_blocked setting board used_up).1 ≡ split_rework
unfolding decide_blocked decide_rework decide_failure is_judge_review_task is_pr_review_task
    has_source_task_in_pr_context context_field failed_runs most_recent_first classify_failure
    extract_failure_code classify_message classify_failure_by_code code_text extract_text
    should_retry_blocked_setup_failure should_retry_blocked_needs_rework_in_place
    has_active_rework_child resolve_auto_rework_depth extract_auto_rework_parents
    resolve_failure_category_retry_limit failure_category_retry_limit to_normalized_string
    is_verification_recovery_failure_code
splits = refl

decide_blocked-SplitsLast_example :
    (normalize_block_reason used_up.block_reason ≡ some needs_rework)
    × SplitsLast setting board used_up
decide_blocked-SplitsLast_example = decide_blocked-SplitsLast setting board used_up splits

waits_for_judge : (requeue_blocked_task setting 1000000 102 300000 waiting board).1 ≡ 0
unfolding requeue_blocked_task decide_blocked decide_awaiting has_pending_judge_run
waits_for_judge = refl

requeue_blocked_task-Waits_example :
    (1000000 < waiting.updated_at + 300000)
    ⊎ Waits setting board waiting (normalize_block_reason waiting.block_reason)
requeue_blocked_task-Waits_example =
    requeue_blocked_task-Waits setting 1000000 102 300000 waiting board waits_for_judge

board-FreshIds : FreshIds new_id (filterb (λ t. task_blocked t.status) board.tasks) board.tasks
board-FreshIds = record {
  unique = λ id. ground arith;
  apart = (refl, (refl, tt));
  distinct = (refl, (refl, tt));
  unused = (refl, (refl, tt));
}

requeue_blocked_tasks-keeps_count_example :
    count_if is_active
      (requeue_blocked_tasks_with_cooldown setting 1000000 300000 new_id board).0.tasks
    ≤ count_if is_active board.tasks
requeue_blocked_tasks-keeps_count_example =
    requeue_blocked_tasks-keeps_count setting 1000000 300000 new_id board board-FreshIds

-- A fix of pull request 70 counts as one of pull request 7, as the titles are compared by prefix.
fix_of_another_pr :
    has_active_auto_fix_task_for_pr setting
      (record (task_row 4 TaskStatus.running 0) { title = "[AutoFix] PR #70" } ∷ [])
      7
      2
    ≡ true
unfolding has_active_auto_fix_task_for_pr
fix_of_another_pr = refl
