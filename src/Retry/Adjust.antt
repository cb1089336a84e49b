-- ===== src/Retry/Adjust.antt =====
-- applyVerificationRecoveryAdjustment: new verification commands after a failed one. The regular
-- expressions and the cutting of texts are arguments.
pub mod Laws
use open_tiger.Prelude.{
  ltb, ◌==◌, ◌===◌, if◌then◌else◌, length, is_empty, filterb, any, has_text, ℕ, ◌+◌, ◌-◌, String,
  Bool, true, false, not, ◌&&◌, ◌||◌, Option, none, some, List, [], ◌∷◌,
}
use open_tiger.Json.{Json}
use open_tiger.Failure.Codes.{
  FailureCode, verification_command_sequence_issue, is_verification_recovery_failure_code,
}
use open_tiger.Failure.Classify.{TextFunctions, extract_text, or_empty}
use package.text.Mathlib.Text.{find?}

pub record CommandFunctions : Type 0 where
  -- The command in "verification failed at … [".
  pub failed_at : String → Option String
  -- The rest of a command "test -f …" or "test -s …".
  pub artifact_target : String → Option String
  pub strip_wrapping_quotes : String → String
  -- Slashes forward, no leading "./", lower case; and the parts between slashes.
  pub normalize_path : String → String
  pub split_path : String → List String
  -- The words of a command; whether a word has "clean" in it; whether words run a clean script.
  pub split_command_tokens : String → List String
  pub has_clean : String → Bool
  pub runs_clean_script : List String → Bool

abbrev non_empty : String → Option String
non_empty s = if s === "" then none else some s

unfoldable pub extract_failed_verification_command :
    TextFunctions → CommandFunctions → Option String → Option Json → Option String
unfolding extract_text
extract_failed_verification_command fs cs error_message error_meta =
    elim (extract_text fs "failedCommand" error_meta) [
      | some command ↦ some command
      | none ↦
          let raw = fs.trim (or_empty error_message) in
          if raw === ""
          then none
          else elim (cs.failed_at raw) [ none ↦ none | some command ↦ non_empty (fs.trim command) ]
    ]

abbrev pub is_command : TextFunctions → String → String → Bool
is_command fs failed command = fs.trim command === fs.trim failed

abbrev drop_command : TextFunctions → List String → String → List String
drop_command fs commands failed =
    let filtered = filterb (λ command. not (is_command fs failed command)) commands in
    if length filtered == length commands then [] else filtered

-- No failed command known, or not in the list: no explicit command is left.
unfoldable pub sanitize_commands_for_verification_format_issue :
    TextFunctions → List String → Option String → List String
sanitize_commands_for_verification_format_issue fs commands none = []
sanitize_commands_for_verification_format_issue fs commands (some failed) =
    if is_empty commands then [] else drop_command fs commands failed

unfoldable pub find_index : (String → Bool) → List String → Option ℕ
find_index p [] = none
find_index p (x ∷ xs) =
    let rest = find_index p xs in
    if p x then some 0 else elim rest [ none ↦ none | some n ↦ some (n + 1) ]

abbrev pub get_elem? : List String → ℕ → Option String
get_elem? [] n = none
get_elem? (x ∷ xs) n = let rest = get_elem? xs (n - 1) in if n == 0 then some x else rest

-- `splice(n, 1)` and `splice(n, 0, entry)`.
abbrev pub remove_at : ℕ → List String → List String
remove_at n [] = []
remove_at n (x ∷ xs) = let rest = remove_at (n - 1) xs in if n == 0 then xs else x ∷ rest

abbrev pub insert_at : ℕ → String → List String → List String
insert_at n entry [] = entry ∷ []
insert_at n entry (x ∷ xs) =
    let rest = insert_at (n - 1) entry xs in if n == 0 then entry ∷ x ∷ xs else x ∷ rest

abbrev generated_artifact_segments : List String
generated_artifact_segments =
    "artifact" ∷ "artifacts" ∷ "build" ∷ "debug" ∷ "dist" ∷ "out" ∷ "release" ∷ "target" ∷ []

abbrev includes : String → String → Bool
includes s part = elim (find? s part) [ none ↦ false | some i ↦ true ]

unfoldable pub is_likely_generated_artifact_path : CommandFunctions → String → Bool
is_likely_generated_artifact_path cs path =
    let normalized = cs.normalize_path path in
    not (normalized === "")
    && (not (includes normalized "..")
        && (not (includes normalized "*")
            && any (λ segment. has_text generated_artifact_segments segment)
                (cs.split_path normalized)))

-- Whether the failed command tests for a file that a build generates.
unfoldable pub checks_generated_artifact : TextFunctions → CommandFunctions → String → Bool
unfolding is_likely_generated_artifact_path
checks_generated_artifact fs cs command = elim (cs.artifact_target (fs.trim command)) [
  | none ↦ false
  | some target ↦
      let path = cs.strip_wrapping_quotes target in
      not (path === "") && is_likely_generated_artifact_path cs path
]

abbrev is_clean_tokens : TextFunctions → CommandFunctions → List String → Bool
is_clean_tokens fs cs [] = false
is_clean_tokens fs cs (first ∷ others) =
    if fs.lower first === "make"
    then any cs.has_clean others
    else has_text ("npm" ∷ "pnpm" ∷ "yarn" ∷ "bun" ∷ []) (fs.lower first)
      && cs.runs_clean_script others

unfoldable pub is_clean_like_command : TextFunctions → CommandFunctions → String → Bool
is_clean_like_command fs cs command =
    is_clean_tokens fs cs (cs.split_command_tokens (fs.trim command))

abbrev clean_before : TextFunctions → CommandFunctions → Option String → Bool
clean_before fs cs none = false
clean_before fs cs (some previous) = not (previous === "") && is_clean_like_command fs cs previous

-- The entry at an index, moved one place forward.
abbrev pub moved_forward : ℕ → List String → Option String → Option (List String)
moved_forward i commands none = none
moved_forward i commands (some entry) =
    if entry === "" then none else some (insert_at (i - 1) entry (remove_at i commands))

abbrev pub reordered :
    TextFunctions → CommandFunctions → List String → String → Option ℕ → Option (List String)
reordered fs cs commands failed none = none
reordered fs cs commands failed (some i) =
    if (i == 0)
      || (not (checks_generated_artifact fs cs failed)
          || not (clean_before fs cs (get_elem? commands (i - 1))))
    then none
    else moved_forward i commands (get_elem? commands i)

unfoldable pub sanitize_commands_for_verification_sequence_issue :
    TextFunctions → CommandFunctions → List String → Option String → Option (List String)
unfolding find_index checks_generated_artifact is_clean_like_command
sanitize_commands_for_verification_sequence_issue fs cs commands none = none
sanitize_commands_for_verification_sequence_issue fs cs commands (some failed) =
    if ltb (length commands) 2
    then none
    else reordered fs cs commands failed (find_index (is_command fs failed) commands)

-- The strategy of each reason; a code that is not for verification recovery has none.
abbrev pub strategy :
    TextFunctions
    → CommandFunctions
    → FailureCode
    → List String
    → Option String
    → Option (List String)
strategy fs cs verification_command_sequence_issue commands failed =
    sanitize_commands_for_verification_sequence_issue fs cs commands failed
strategy fs cs reason commands failed =
    if is_verification_recovery_failure_code reason
    then some (sanitize_commands_for_verification_format_issue fs commands failed)
    else none

abbrev pub same_texts : List String → List String → Bool
same_texts [] [] = true
same_texts (x ∷ xs) (y ∷ ys) = (x === y) && same_texts xs ys
same_texts _ _ = false

-- An adjustment that changes nothing is none.
abbrev pub if_changed : List String → Option (List String) → Option (List String)
if_changed commands none = none
if_changed commands (some next) =
    if is_empty next && not (is_empty commands)
    then some next
    else if same_texts next commands
    then none
    else some next

unfoldable pub apply_verification_recovery_adjustment :
    TextFunctions
    → CommandFunctions
    → FailureCode
    → List String
    → Option String
    → Option Json
    → Option (List String)
unfolding extract_failed_verification_command sanitize_commands_for_verification_format_issue
    sanitize_commands_for_verification_sequence_issue is_verification_recovery_failure_code
apply_verification_recovery_adjustment fs cs reason commands error_message error_meta =
    if_changed commands (
      strategy fs cs reason commands
        (extract_failed_verification_command fs cs error_message error_meta))
