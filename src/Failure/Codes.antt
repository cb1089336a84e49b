-- ===== src/Failure/Codes.antt =====
-- FAILURE_CODE, the classification by code, and the retry limits of each category.
use open_tiger.Prelude.{
  ◌===◌, if◌then◌else◌, ℕ, min, String, Bool, true, false, ◌||◌, Option, none, some,
}

pub data FailureCode : Type 0 where
  no_actionable_changes policy_violation : FailureCode
  verification_command_missing_script verification_command_no_test_files : FailureCode
  verification_command_missing_make_target verification_command_unsupported_format : FailureCode
  verification_command_sequence_issue verification_command_failed : FailureCode
  setup_or_bootstrap_issue environment_issue test_failure : FailureCode
  transient_or_flaky_failure model_doom_loop model_or_unknown_failure : FailureCode
  external_directory_permission_prompt quota_failure : FailureCode
  branch_diverged_requires_recreate execution_failed : FailureCode

unfoldable pub code_text : FailureCode → String
code_text no_actionable_changes = "no_actionable_changes"
code_text policy_violation = "policy_violation"
code_text verification_command_missing_script = "verification_command_missing_script"
code_text verification_command_no_test_files = "verification_command_no_test_files"
code_text verification_command_missing_make_target = "verification_command_missing_make_target"
code_text verification_command_unsupported_format = "verification_command_unsupported_format"
code_text verification_command_sequence_issue = "verification_command_sequence_issue"
code_text verification_command_failed = "verification_command_failed"
code_text setup_or_bootstrap_issue = "setup_or_bootstrap_issue"
code_text environment_issue = "environment_issue"
code_text test_failure = "test_failure"
code_text transient_or_flaky_failure = "transient_or_flaky_failure"
code_text model_doom_loop = "model_doom_loop"
code_text model_or_unknown_failure = "model_or_unknown_failure"
code_text external_directory_permission_prompt = "external_directory_permission_prompt"
code_text quota_failure = "quota_failure"
code_text branch_diverged_requires_recreate = "branch_diverged_requires_recreate"
code_text execution_failed = "execution_failed"

pub data FailureCategory : Type 0 where
  env setup permission noop policy test flaky model model_loop : FailureCategory

pub record Classification : Type 0 where
  pub category : FailureCategory
  pub retryable : Bool
  pub reason : FailureCode

abbrev pub classified : FailureCategory → Bool → FailureCode → Classification
classified category retryable reason = record {
  category = category;
  retryable = retryable;
  reason = reason;
}

-- `classifyFailureByCode`, on the lower-case text.
unfoldable pub classify_failure_by_code : String → Option Classification
unfolding code_text
classify_failure_by_code code =
    if code === code_text external_directory_permission_prompt
    then some (classified permission false external_directory_permission_prompt)
    else if code === code_text no_actionable_changes
    then some (classified noop false no_actionable_changes)
    else if code === code_text policy_violation
    then some (classified policy true policy_violation)
    else if code === code_text verification_command_missing_script
    then some (classified setup false verification_command_missing_script)
    else if code === code_text verification_command_no_test_files
    then some (classified setup false verification_command_no_test_files)
    else if code === code_text verification_command_missing_make_target
    then some (classified setup false verification_command_missing_make_target)
    else if code === code_text verification_command_unsupported_format
    then some (classified setup false verification_command_unsupported_format)
    else if code === code_text verification_command_sequence_issue
    then some (classified setup false verification_command_sequence_issue)
    else if code === code_text setup_or_bootstrap_issue
    then some (classified setup true setup_or_bootstrap_issue)
    else if (code === code_text environment_issue) || (code === code_text quota_failure)
    then some (classified env true environment_issue)
    else if code === code_text branch_diverged_requires_recreate
    then some (classified setup false branch_diverged_requires_recreate)
    else if (code === code_text verification_command_failed) || (code === code_text test_failure)
    then some (classified test true test_failure)
    else if code === code_text transient_or_flaky_failure
    then some (classified flaky true transient_or_flaky_failure)
    else if code === code_text model_doom_loop
    then some (classified model_loop true model_doom_loop)
    else if code === code_text model_or_unknown_failure
    then some (classified model true model_or_unknown_failure)
    else none

-- VERIFICATION_RECOVERY_FAILURE_CODES
unfoldable pub is_verification_recovery_failure_code : FailureCode → Bool
is_verification_recovery_failure_code verification_command_missing_script = true
is_verification_recovery_failure_code verification_command_no_test_files = true
is_verification_recovery_failure_code verification_command_missing_make_target = true
is_verification_recovery_failure_code verification_command_unsupported_format = true
is_verification_recovery_failure_code verification_command_sequence_issue = true
is_verification_recovery_failure_code _ = false

unfoldable pub failure_category_retry_limit : FailureCategory → ℕ
failure_category_retry_limit env = 5
failure_category_retry_limit setup = 3
failure_category_retry_limit permission = 0
failure_category_retry_limit noop = 0
failure_category_retry_limit policy = 3
failure_category_retry_limit test = 3
failure_category_retry_limit flaky = 6
failure_category_retry_limit model = 3
failure_category_retry_limit model_loop = 1

-- A negative global limit is `none`.
unfoldable pub resolve_failure_category_retry_limit : FailureCategory → Option ℕ → ℕ
unfolding failure_category_retry_limit
resolve_failure_category_retry_limit category none = failure_category_retry_limit category
resolve_failure_category_retry_limit category (some limit) =
    min (failure_category_retry_limit category) limit
