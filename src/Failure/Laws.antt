-- ===== src/Failure/Laws.antt =====
-- What a classification's reason says of it.
use open_tiger.Json.{Json}
use open_tiger.Failure.Classify.{
  Pattern, TextFunctions, extract_failure_code, classify_message, classify_failure,
}
use open_tiger.Prelude.{
  ltb, ◌===◌, if◌then◌else◌, Option-cases, some_injective, String, ◌≡◌, refl, subst, inl, inr, Bool,
  true, false, not, ◌||◌, Option, none, some, arith,
}
use open_tiger.Failure.Codes.{
  FailureCode, no_actionable_changes, policy_violation, verification_command_missing_script,
  verification_command_no_test_files, verification_command_missing_make_target,
  verification_command_unsupported_format, verification_command_sequence_issue,
  verification_command_failed, setup_or_bootstrap_issue, environment_issue, test_failure,
  transient_or_flaky_failure, model_doom_loop, model_or_unknown_failure,
  external_directory_permission_prompt, quota_failure, branch_diverged_requires_recreate,
  execution_failed, code_text, FailureCategory, env, setup, permission, noop, policy, test, flaky,
  model, model_loop, Classification, classified, classify_failure_by_code,
  is_verification_recovery_failure_code, failure_category_retry_limit,
}

-- The reasons that retrying as it is cannot help.
abbrev pub hopeless : FailureCode → Bool
hopeless no_actionable_changes = true
hopeless external_directory_permission_prompt = true
hopeless branch_diverged_requires_recreate = true
hopeless r = is_verification_recovery_failure_code r

-- A failure is retryable just if its reason is not hopeless, the verification recovery codes are
-- set-up failures, and a category without retries has none that is retryable.
pub record IsCoherent (c : Classification) : Type 0 where
  pub retryable_iff : c.retryable ≡ not (hopeless c.reason)
  pub recovery_setup : is_verification_recovery_failure_code c.reason ≡ true → c.category ≡ setup
  pub no_retries : failure_category_retry_limit c.category ≡ 0 → c.retryable ≡ false

abbrev plain : FailureCode → Bool
plain r = not (is_verification_recovery_failure_code r)

coherent :
    (category : FailureCategory) (retryable : Bool) (reason : FailureCode)
    → retryable ≡ not (hopeless reason)
    → plain reason ≡ true
    → ltb 0 (failure_category_retry_limit category) || not retryable ≡ true
    → IsCoherent (classified category retryable reason)
coherent category retryable reason h r l = record {
  retryable_iff = h;
  recovery_setup = λ e. ground arith;
  no_retries = λ e. ground arith;
}

recovering :
    (reason : FailureCode) → hopeless reason ≡ true → IsCoherent (classified setup false reason)
recovering reason h = record {
  retryable_iff = rw h refl;
  recovery_setup = λ e. refl;
  no_retries = λ e. refl;
}

if_IsCoherent :
    (b : Bool) {x y : Classification}
    → IsCoherent x
    → IsCoherent y
    → IsCoherent (if b then x else y)
if_IsCoherent true hx hy = hx
if_IsCoherent false hx hy = hy

abbrev CoherentIfSome : Option Classification → Type 0
CoherentIfSome o = (c : Classification) → o ≡ some c → IsCoherent c

some_coherent : (c : Classification) → IsCoherent c → CoherentIfSome (some c)
some_coherent c h d e = subst (λ x. IsCoherent x) (some_injective e) h

if_some :
    (b : Bool) {x y : Option Classification}
    → CoherentIfSome x
    → CoherentIfSome y
    → CoherentIfSome (if b then x else y)
if_some true hx hy = hx
if_some false hx hy = hy

classify_failure_by_code-IsCoherent :
    (code : String) → CoherentIfSome (classify_failure_by_code code)
unfolding classify_failure_by_code is_verification_recovery_failure_code
    failure_category_retry_limit
classify_failure_by_code-IsCoherent code =
    if_some (code === _)
      (some_coherent _
        (coherent permission false external_directory_permission_prompt refl refl refl))
      (if_some (code === _)
        (some_coherent _ (coherent noop false no_actionable_changes refl refl refl))
        (if_some (code === _)
          (some_coherent _ (coherent policy true policy_violation refl refl refl))
          (if_some (code === _)
            (some_coherent _ (recovering verification_command_missing_script refl))
            (if_some (code === _)
              (some_coherent _ (recovering verification_command_no_test_files refl))
              (if_some (code === _)
                (some_coherent _ (recovering verification_command_missing_make_target refl))
                (if_some (code === _)
                  (some_coherent _ (recovering verification_command_unsupported_format refl))
                  (if_some (code === _)
                    (some_coherent _ (recovering verification_command_sequence_issue refl))
                    (if_some (code === _)
                      (some_coherent _
                        (coherent setup true setup_or_bootstrap_issue refl refl refl))
                      (if_some ((code === _) || (code === _))
                        (some_coherent _ (coherent env true environment_issue refl refl refl))
                        (if_some (code === _)
                          (some_coherent _ (recovering branch_diverged_requires_recreate refl))
                          (if_some ((code === _) || (code === _))
                            (some_coherent _ (coherent test true test_failure refl refl refl))
                            (if_some (code === _)
                              (some_coherent _
                                (coherent flaky true transient_or_flaky_failure refl refl refl))
                              (if_some (code === _)
                                (some_coherent _
                                  (coherent model_loop true model_doom_loop refl refl refl))
                                (if_some (code === _)
                                  (some_coherent _
                                    (coherent model true model_or_unknown_failure refl refl refl))
                                  (λ c e. cc e)))))))))))))))

classify_message-IsCoherent :
    (matches : Pattern → String → Bool) (message : String)
    → IsCoherent (classify_message matches message)
unfolding classify_message is_verification_recovery_failure_code failure_category_retry_limit
classify_message-IsCoherent matches message =
    if_IsCoherent _ (coherent permission false external_directory_permission_prompt refl refl refl)
      (if_IsCoherent _ (coherent noop false no_actionable_changes refl refl refl) (
        if_IsCoherent _ (coherent policy true policy_violation refl refl refl) (
          if_IsCoherent _ (recovering verification_command_no_test_files refl) (
            if_IsCoherent _ (recovering verification_command_missing_script refl) (
              if_IsCoherent _ (recovering verification_command_unsupported_format refl) (
                if_IsCoherent _ (recovering verification_command_sequence_issue refl) (
                  if_IsCoherent _ (coherent setup true setup_or_bootstrap_issue refl refl refl) (
                    if_IsCoherent _ (coherent env true environment_issue refl refl refl) (
                      if_IsCoherent _ (recovering branch_diverged_requires_recreate refl) (
                        if_IsCoherent _ (coherent test true test_failure refl refl refl) (
                          if_IsCoherent _
                            (coherent flaky true transient_or_flaky_failure refl refl refl)
                            (if_IsCoherent _
                              (coherent model_loop true model_doom_loop refl refl refl)
                              (coherent model true model_or_unknown_failure refl refl
                                refl)))))))))))))

-- However a failure is classified, by its code or by its message: it is retryable except for the
-- reasons that no retry can help (nothing to change, a permission prompt, a diverged branch, a
-- verification command that cannot run as it is); the last of these are set-up failures; and a
-- category with a limit of no retries has none that is retryable.
pub classify_failure-IsCoherent :
    (fs : TextFunctions) (error_message : Option String) (error_meta : Option Json)
    → IsCoherent (classify_failure fs error_message error_meta)
unfolding classify_failure
classify_failure-IsCoherent fs error_message error_meta =
    elim (Option-cases (extract_failure_code fs error_meta)) [
      | inl e ↦ rw (classify_failure, e) (classify_message-IsCoherent fs.matches _)
      | inr (code, e) ↦ elim (Option-cases (classify_failure_by_code (fs.lower code))) [
        | inl f ↦ rw (classify_failure, e, f) (classify_message-IsCoherent fs.matches _)
        | inr (c, f) ↦
            rw (classify_failure, e, f) (classify_failure_by_code-IsCoherent (fs.lower code) c f)
      ]
    ]

-- The reason that each code is classified with.
abbrev pub canonical : FailureCode → Option FailureCode
canonical quota_failure = some environment_issue
canonical verification_command_failed = some test_failure
canonical execution_failed = none
canonical c = some c

abbrev pub reason_of : Option Classification → Option FailureCode
reason_of none = none
reason_of (some c) = some c.reason

-- Each failure code's text is classified, and by its own reason, except that a quota failure
-- counts as an environment issue and a failed verification command as a test failure, and that
-- the general execution failure is left to the message.
pub classify_code_text :
    (c : FailureCode) → reason_of (classify_failure_by_code (code_text c)) ≡ canonical c
unfolding classify_failure_by_code code_text
classify_code_text no_actionable_changes = refl
classify_code_text policy_violation = refl
classify_code_text verification_command_missing_script = refl
classify_code_text verification_command_no_test_files = refl
classify_code_text verification_command_missing_make_target = refl
classify_code_text verification_command_unsupported_format = refl
classify_code_text verification_command_sequence_issue = refl
classify_code_text verification_command_failed = refl
classify_code_text setup_or_bootstrap_issue = refl
classify_code_text environment_issue = refl
classify_code_text test_failure = refl
classify_code_text transient_or_flaky_failure = refl
classify_code_text model_doom_loop = refl
classify_code_text model_or_unknown_failure = refl
classify_code_text external_directory_permission_prompt = refl
classify_code_text quota_failure = refl
classify_code_text branch_diverged_requires_recreate = refl
classify_code_text execution_failed = refl
