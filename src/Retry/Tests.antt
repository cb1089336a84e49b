-- ===== src/Retry/Tests.antt =====
-- Passes over small tables.
use open_tiger.Prelude.{◌===◌, ℕ, String, ◌≡◌, refl, ◌≢◌, false, Option, none, some, List, [], ◌∷◌}
use open_tiger.Store.{TaskStatus, RunStatus, Task, most_recent_first, head}
use open_tiger.Store.Samples.{task_row, run_row}
use open_tiger.Failure.Codes.{
  verification_command_sequence_issue, is_verification_recovery_failure_code,
  failure_category_retry_limit, resolve_failure_category_retry_limit,
}
use open_tiger.Failure.Classify.{
  TextFunctions, to_normalized_string, extract_text, extract_failure_code, classify_message,
  classify_failure,
}
use open_tiger.Retry.Context.{
  context_field, is_pr_review_task, has_source_task_in_pr_context, is_judge_review_task,
}
use open_tiger.Retry.Adjust.{
  CommandFunctions, extract_failed_verification_command, find_index,
  is_likely_generated_artifact_path, checks_generated_artifact, is_clean_like_command,
  sanitize_commands_for_verification_sequence_issue, apply_verification_recovery_adjustment,
}
use open_tiger.Retry.Adjust.Laws.{NothingNew, apply_adjustment-NothingNew}
use open_tiger.Json.{text, obj, end, field}
use open_tiger.Retry.Runs.{failed_runs, has_repeated_failure_signature}
use open_tiger.Retry.Failed.{
  RetryDb, RetryEnv, resolve_repeated_failure_signature_threshold, is_retry_allowed, retry,
  classify_latest, may_retry, decide_standard, decide, requeue_failed_task, requeue_each,
  requeue_failed_tasks_with_cooldown,
}
use open_tiger.Retry.Laws.{IsRetriable, decide-IsRetriable}
use open_tiger.Retry.Whole.{SettlesFailed, requeue_failed_tasks-SettlesFailed}

abbrev plain_text : TextFunctions
plain_text = record { lower = λ s. s; trim = λ s. s; matches = λ p s. false }

abbrev words : CommandFunctions
words = record {
  failed_at = λ s. none;
  artifact_target = λ s. some "dist/index.js";
  strip_wrapping_quotes = λ s. s;
  normalize_path = λ s. s;
  split_path = λ s. "dist" ∷ "index.js" ∷ [];
  split_command_tokens = λ s. "make" ∷ s ∷ [];
  has_clean = λ s. s === "make clean";
  runs_clean_script = λ ws. false;
}

abbrev setting : RetryEnv
setting = record {
  fs = plain_text;
  max_retry_count = none;
  threshold = none;
  signature = λ message meta. "";
  cs = words;
  adjusted_paths = λ t latest. t.allowed_paths;
}

abbrev or_empty : Option String → String
or_empty none = ""
or_empty (some s) = s

abbrev failed_task : ℕ → ℕ → Task
failed_task id retries = record (task_row id TaskStatus.failed 100) { retry_count = retries }

abbrev sample : RetryDb
sample = record {
  tasks = failed_task 1 0 ∷ failed_task 2 3 ∷ task_row 3 TaskStatus.running 100 ∷ [];
  runs = run_row 11 1 "worker-1" RunStatus.failed ∷ [];
  artifacts = [];
  events = [];
}

abbrev failed_four_times : RetryDb
failed_four_times = record sample {
  runs =
      run_row 11 1 "worker-1" RunStatus.failed
      ∷ run_row 12 1 "worker-1" RunStatus.failed
      ∷ run_row 13 1 "worker-1" RunStatus.failed
      ∷ run_row 14 1 "worker-1" RunStatus.failed
      ∷ [];
}

-- The first task is retried, the second has used its retries up.
answer_is_one : (requeue_failed_tasks_with_cooldown setting 1000 500 sample).1 ≡ 1
unfolding requeue_failed_tasks_with_cooldown requeue_each requeue_failed_task decide decide_standard
    may_retry is_retry_allowed has_repeated_failure_signature failed_runs most_recent_first
    is_judge_review_task is_pr_review_task has_source_task_in_pr_context context_field
    resolve_repeated_failure_signature_threshold resolve_failure_category_retry_limit
    failure_category_retry_limit classify_failure extract_failure_code extract_text classify_message
    is_verification_recovery_failure_code
answer_is_one = refl

requeue_failed_tasks-SettlesFailed_example :
    SettlesFailed 500 sample (requeue_failed_tasks_with_cooldown setting 1000 500 sample)
requeue_failed_tasks-SettlesFailed_example =
    requeue_failed_tasks-SettlesFailed setting 1000 500 sample

-- The last two failures are of different texts.
abbrev two_texts : RetryEnv
two_texts = record setting { threshold = some 2; signature = λ message meta. or_empty message }

abbrev failed_twice : RetryDb
failed_twice = record sample {
  runs =
      record (run_row 11 1 "worker-1" RunStatus.failed) { error_message = some "tests failed" }
      ∷ record (run_row 12 1 "worker-1" RunStatus.failed) {
        error_message = some "out of disk";
        started_at = 50;
      }
      ∷ [];
}

decide-IsRetriable_example :
    IsRetriable two_texts (failed_task 1 0) (decide two_texts (failed_task 1 0) failed_twice).0 (
      classify_latest two_texts
        (head (failed_runs 1 (decide two_texts (failed_task 1 0) failed_twice).0)))
unfolding decide decide_standard may_retry is_retry_allowed has_repeated_failure_signature
    failed_runs most_recent_first is_judge_review_task is_pr_review_task
    has_source_task_in_pr_context context_field resolve_repeated_failure_signature_threshold
    resolve_failure_category_retry_limit failure_category_retry_limit classify_failure
    extract_failure_code extract_text classify_message is_verification_recovery_failure_code
decide-IsRetriable_example = decide-IsRetriable two_texts (failed_task 1 0) failed_twice refl

-- Four failures without a message have no signature to repeat.
unnamed_failures : (decide setting (failed_task 1 0) failed_four_times).1 ≡ retry
unfolding decide decide_standard may_retry is_retry_allowed has_repeated_failure_signature
    failed_runs most_recent_first is_judge_review_task is_pr_review_task
    has_source_task_in_pr_context context_field resolve_repeated_failure_signature_threshold
    resolve_failure_category_retry_limit failure_category_retry_limit classify_failure
    extract_failure_code extract_text classify_message is_verification_recovery_failure_code
unnamed_failures = refl

abbrev cleaned_too_early : List String
cleaned_too_early = "make dist" ∷ "make clean" ∷ "test -f dist/index.js" ∷ []

abbrev check_first : List String
check_first = "make dist" ∷ "test -f dist/index.js" ∷ "make clean" ∷ []

-- The check for the artifact goes before the clean-up.
apply_adjustment-NothingNew_example :
    NothingNew cleaned_too_early check_first × (check_first ≢ cleaned_too_early)
unfolding apply_verification_recovery_adjustment extract_failed_verification_command extract_text
    to_normalized_string sanitize_commands_for_verification_sequence_issue find_index
    checks_generated_artifact is_likely_generated_artifact_path is_clean_like_command
apply_adjustment-NothingNew_example =
    apply_adjustment-NothingNew plain_text words verification_command_sequence_issue
      cleaned_too_early check_first none
      (some (obj (field "failedCommand" (text "test -f dist/index.js") end))) refl
