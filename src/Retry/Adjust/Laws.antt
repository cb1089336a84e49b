-- ===== src/Retry/Adjust/Laws.antt =====
-- What an adjustment of the verification commands can do.
use open_tiger.Json.{Json}
use open_tiger.Failure.Codes.{
  FailureCode, no_actionable_changes, policy_violation, verification_command_missing_script,
  verification_command_no_test_files, verification_command_missing_make_target,
  verification_command_unsupported_format, verification_command_sequence_issue,
  verification_command_failed, setup_or_bootstrap_issue, environment_issue, test_failure,
  transient_or_flaky_failure, model_doom_loop, model_or_unknown_failure,
  external_directory_permission_prompt, quota_failure, branch_diverged_requires_recreate,
  execution_failed, is_verification_recovery_failure_code,
}
use open_tiger.Prelude.{
  ltb, ◌==◌, ◌===◌, if◌then◌else◌, ===_refl, Bool-cases, some_injective, length, is_empty, filterb,
  count_if, ℕ, ◌+◌, ◌-◌, ◌≤◌, String, ◌≡◌, refl, ap, ◌∙◌, subst, ◌≢◌, inl, inr, Bool, true, false,
  not, ◌&&◌, ◌||◌, Option, none, some, List, [], ◌∷◌, arith,
}
use open_tiger.Failure.Classify.{TextFunctions}
use open_tiger.Retry.Adjust.{
  CommandFunctions, extract_failed_verification_command, is_command,
  sanitize_commands_for_verification_format_issue, find_index, get_elem?, remove_at, insert_at,
  checks_generated_artifact, moved_forward, reordered,
  sanitize_commands_for_verification_sequence_issue, strategy, same_texts, if_changed,
  apply_verification_recovery_adjustment, clean_before,
}

same_texts_refl : (xs : List String) → same_texts xs xs ≡ true
same_texts_refl [] = refl
same_texts_refl (x ∷ xs) = rw (===_refl x) (same_texts_refl xs)

pick :
    (a b : Bool) {xs ys : List String}
    → (if a then some xs else if b then none else some xs) ≡ some ys
    → xs ≡ ys
pick true b h = some_injective h
pick false true h = cc h
pick false false h = some_injective h

if_changed-found :
    (commands found next : List String)
    → if_changed commands (some found) ≡ some next
    → found ≡ next
if_changed-found commands found next h =
    pick (is_empty found && not (is_empty commands)) (same_texts found commands) h

and_not : (b : Bool) → (b && not b) ≡ false
and_not true = refl
and_not false = refl

unchanged : (commands : List String) → if_changed commands (some commands) ≡ none
unchanged commands = rw (and_not (is_empty commands), same_texts_refl commands) refl

if_changed-ne :
    (commands next : List String) (o : Option (List String))
    → if_changed commands o ≡ some next
    → next ≢ commands
if_changed-ne commands next none h same = cc h
if_changed-ne commands next (some found) h same =
    let now = if_changed-found commands found next h ∙ same in
    let h' = subst (λ f. if_changed commands (some f) ≡ some next) now h in
    cc (h', unchanged commands)

abbrev pub copies : String → List String → ℕ
copies x commands = count_if (λ command. command === x) commands

copies-filterb :
    (q : String → Bool) (x : String) (xs : List String) → copies x (filterb q xs) ≤ copies x xs
copies-filterb q x [] = omega arith
copies-filterb q x (y ∷ ys) = ground (arith, copies-filterb q x ys)

copies-insert_at :
    (x entry : String) (n : ℕ) (xs : List String)
    → copies x (insert_at n entry xs) ≡ copies x (entry ∷ []) + copies x xs
copies-insert_at x entry n [] = omega arith
copies-insert_at x entry n (y ∷ ys) = ground (arith, copies-insert_at x entry (n - 1) ys)

copies-remove_at :
    (x entry : String) (n : ℕ) (xs : List String)
    → get_elem? xs n ≡ some entry
    → copies x (entry ∷ []) + copies x (remove_at n xs) ≡ copies x xs
copies-remove_at x entry n [] h = cc h
copies-remove_at x entry n (y ∷ ys) h = elim (Bool-cases (n == 0)) [
  | inl e ↦
      let first =
        some_injective
          (subst (λ b. (if b then some y else get_elem? ys (n - 1)) ≡ some entry) e h) in
      rw (e, first) (omega arith)
  | inr e ↦
      let later =
        copies-remove_at x entry (n - 1) ys
          (subst (λ b. (if b then some y else get_elem? ys (n - 1)) ≡ some entry) e h) in
      rw e (omega (arith, later))
]

-- Nothing is added: no text stands more often in the new commands than in the old.
abbrev pub NothingNew : List String → List String → Type 0
NothingNew commands next = (x : String) → copies x next ≤ copies x commands

abbrev NothingNewIfSome : List String → Option (List String) → Type 0
NothingNewIfSome commands o = (next : List String) → o ≡ some next → NothingNew commands next

some_new :
    (commands found : List String)
    → NothingNew commands found
    → NothingNewIfSome commands (some found)
some_new commands found h next e = subst (λ c. NothingNew commands c) (some_injective e) h

drop-NothingNew :
    (fs : TextFunctions) (commands : List String) (failed : Option String)
    → NothingNew commands (sanitize_commands_for_verification_format_issue fs commands failed)
unfolding sanitize_commands_for_verification_format_issue
drop-NothingNew fs commands none x = omega arith
drop-NothingNew fs commands (some failed) x =
    ground (arith, copies-filterb (λ command. not (is_command fs failed command)) x commands)

none_new : (commands : List String) → NothingNewIfSome commands none
none_new commands next e = cc e

moved-NothingNew :
    (i : ℕ) (commands : List String) (o : Option String)
    → get_elem? commands i ≡ o
    → NothingNewIfSome commands (moved_forward i commands o)
moved-NothingNew i commands none h = none_new commands
moved-NothingNew i commands (some entry) h = elim (Bool-cases (entry === "")) [
  | inl e ↦ rw e (none_new commands)
  | inr e ↦ rw e (
      some_new commands (insert_at (i - 1) entry (remove_at i commands)) (λ x. omega (
        arith,
        copies-insert_at x entry (i - 1) (remove_at i commands),
        copies-remove_at x entry i commands h,
      )))
]

reordered-NothingNew :
    (fs : TextFunctions) (cs : CommandFunctions) (commands : List String) (failed : String)
    (o : Option ℕ)
    → NothingNewIfSome commands (reordered fs cs commands failed o)
reordered-NothingNew fs cs commands failed none = none_new commands
reordered-NothingNew fs cs commands failed (some i) =
    elim (Bool-cases (
      (i == 0)
      || (not (checks_generated_artifact fs cs failed)
          || not (clean_before fs cs (get_elem? commands (i - 1)))))) [
            | inl e ↦ rw e (none_new commands)
            | inr e ↦ rw e (moved-NothingNew i commands (get_elem? commands i) refl)
          ]

sequence-NothingNew :
    (fs : TextFunctions) (cs : CommandFunctions) (commands : List String) (failed : Option String)
    → NothingNewIfSome commands
        (sanitize_commands_for_verification_sequence_issue fs cs commands failed)
unfolding sanitize_commands_for_verification_sequence_issue
sequence-NothingNew fs cs commands none = none_new commands
sequence-NothingNew fs cs commands (some failed) = elim (Bool-cases (ltb (length commands) 2)) [
  | inl e ↦ rw e (none_new commands)
  | inr e ↦
      rw e (reordered-NothingNew fs cs commands failed (find_index (is_command fs failed) commands))
]

if_changed-NothingNew :
    (commands : List String) (o : Option (List String))
    → NothingNewIfSome commands o
    → NothingNewIfSome commands (if_changed commands o)
if_changed-NothingNew commands none h next e = cc e
if_changed-NothingNew commands (some found) h next e =
    h next (ap some (if_changed-found commands found next e))

strategy-NothingNew :
    (fs : TextFunctions) (cs : CommandFunctions) (reason : FailureCode) (commands : List String)
    (failed : Option String)
    → NothingNewIfSome commands (strategy fs cs reason commands failed)
unfolding is_verification_recovery_failure_code
strategy-NothingNew fs cs no_actionable_changes commands failed = none_new commands
strategy-NothingNew fs cs policy_violation commands failed = none_new commands
strategy-NothingNew fs cs verification_command_missing_script commands failed =
    some_new commands _ (drop-NothingNew fs commands failed)
strategy-NothingNew fs cs verification_command_no_test_files commands failed =
    some_new commands _ (drop-NothingNew fs commands failed)
strategy-NothingNew fs cs verification_command_missing_make_target commands failed =
    some_new commands _ (drop-NothingNew fs commands failed)
strategy-NothingNew fs cs verification_command_unsupported_format commands failed =
    some_new commands _ (drop-NothingNew fs commands failed)
strategy-NothingNew fs cs verification_command_sequence_issue commands failed =
    sequence-NothingNew fs cs commands failed
strategy-NothingNew fs cs verification_command_failed commands failed = none_new commands
strategy-NothingNew fs cs setup_or_bootstrap_issue commands failed = none_new commands
strategy-NothingNew fs cs environment_issue commands failed = none_new commands
strategy-NothingNew fs cs test_failure commands failed = none_new commands
strategy-NothingNew fs cs transient_or_flaky_failure commands failed = none_new commands
strategy-NothingNew fs cs model_doom_loop commands failed = none_new commands
strategy-NothingNew fs cs model_or_unknown_failure commands failed = none_new commands
strategy-NothingNew fs cs external_directory_permission_prompt commands failed = none_new commands
strategy-NothingNew fs cs quota_failure commands failed = none_new commands
strategy-NothingNew fs cs branch_diverged_requires_recreate commands failed = none_new commands
strategy-NothingNew fs cs execution_failed commands failed = none_new commands

-- An adjustment of a failed task's verification commands makes nothing up and is not idle: no
-- command stands more often in the new list than in the old one, and the lists differ.
pub apply_adjustment-NothingNew :
    (fs : TextFunctions) (cs : CommandFunctions) (reason : FailureCode)
    (commands next : List String) (error_message : Option String) (error_meta : Option Json)
    → apply_verification_recovery_adjustment fs cs reason commands error_message error_meta
      ≡ some next
    → NothingNew commands next × (next ≢ commands)
unfolding apply_verification_recovery_adjustment
apply_adjustment-NothingNew fs cs reason commands next error_message error_meta h =
    let failed = extract_failed_verification_command fs cs error_message error_meta in
    let found = strategy fs cs reason commands failed in
    (
      if_changed-NothingNew commands found (strategy-NothingNew fs cs reason commands failed) next
          h,
      if_changed-ne commands next found h,
    )
