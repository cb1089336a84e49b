-- ===== src/Failure/Classify.antt =====
-- classifyFailure. The regular expressions and the text functions of the language are arguments.
use open_tiger.Prelude.{
  ◌===◌, if◌then◌else◌, String, Bool, true, false, ◌&&◌, ◌||◌, Option, none, some,
}
use open_tiger.Json.{Json, text, obj, Fields, end, field}
use open_tiger.Failure.Codes.{
  no_actionable_changes, policy_violation, verification_command_missing_script,
  verification_command_no_test_files, verification_command_unsupported_format,
  verification_command_sequence_issue, setup_or_bootstrap_issue, environment_issue, test_failure,
  transient_or_flaky_failure, model_doom_loop, model_or_unknown_failure,
  external_directory_permission_prompt, branch_diverged_requires_recreate, env, setup, permission,
  noop, policy, test, flaky, model, model_loop, Classification, classified,
  classify_failure_by_code,
}

-- The expressions of `classifyFailure`, in their order.
pub data Pattern : Type 0 where
  permission_prompt no_changes denied no_test_files_found missing_script : Pattern
  unsupported_format command_substitution artifact_check artifact_path : Pattern
  bootstrap environment push_refused failed_tests transient doom_loop : Pattern

-- `toLowerCase`, `trim` and `RegExp.test`.
pub record TextFunctions : Type 0 where
  pub lower : String → String
  pub trim : String → String
  pub matches : Pattern → String → Bool

unfoldable pub to_normalized_string : TextFunctions → Json → Option String
to_normalized_string fs (text value) = if fs.trim value === "" then none else some (fs.trim value)
to_normalized_string fs _ = none

abbrev pub get_field : String → Fields → Option Json
get_field name end = none
get_field name (field name' value rest) =
    let found = get_field name rest in if name' === name then some value else found

unfoldable pub extract_text : TextFunctions → String → Option Json → Option String
unfolding to_normalized_string
extract_text fs name (some (obj fields)) = elim (get_field name fields) [
  | none ↦ none
  | some value ↦ to_normalized_string fs value
]
extract_text fs name _ = none

unfoldable pub extract_failure_code : TextFunctions → Option Json → Option String
unfolding extract_text
extract_failure_code fs error_meta = extract_text fs "failureCode" error_meta

-- The part of `classifyFailure` that reads the message, lower-cased.
unfoldable pub classify_message : (Pattern → String → Bool) → String → Classification
classify_message matches message =
    if matches permission_prompt message
    then classified permission false external_directory_permission_prompt
    else if matches no_changes message
    then classified noop false no_actionable_changes
    else if matches denied message
    then classified policy true policy_violation
    else if matches no_test_files_found message
    then classified setup false verification_command_no_test_files
    else if matches missing_script message
    then classified setup false verification_command_missing_script
    else if matches unsupported_format message || matches command_substitution message
    then classified setup false verification_command_unsupported_format
    else if matches artifact_check message && matches artifact_path message
    then classified setup false verification_command_sequence_issue
    else if matches bootstrap message
    then classified setup true setup_or_bootstrap_issue
    else if matches environment message
    then classified env true environment_issue
    else if matches push_refused message
    then classified setup false branch_diverged_requires_recreate
    else if matches failed_tests message
    then classified test true test_failure
    else if matches transient message
    then classified flaky true transient_or_flaky_failure
    else if matches doom_loop message
    then classified model_loop true model_doom_loop
    else classified model true model_or_unknown_failure

abbrev pub or_empty : Option String → String
or_empty none = ""
or_empty (some s) = s

abbrev pub by_code : TextFunctions → Option String → Option Classification
by_code fs none = none
by_code fs (some code) = classify_failure_by_code (fs.lower code)

unfoldable pub classify_failure : TextFunctions → Option String → Option Json → Classification
unfolding extract_failure_code classify_failure_by_code classify_message
classify_failure fs error_message error_meta =
    elim (by_code fs (extract_failure_code fs error_meta)) [
      | some classification ↦ classification
      | none ↦ classify_message fs.matches (fs.lower (or_empty error_message))
    ]
