-- ===== src/Retry/Blocked.antt =====
-- requeueBlockedTasksWithCooldown of
-- apps/cycle-manager/src/cleaners/cleanup-retry/requeue-blocked.ts.
pub mod Decide
pub mod Fixes
pub mod Pass
pub mod Splits
pub mod Laws
pub mod Growth
pub mod Rounds
pub mod Whole
mod Tests
use package.text.Mathlib.Text.{starts_with, find?}
use Prim.Native.String.{◌++◌ as then_text}
use open_tiger.Prelude.{
  ltb, leb, ◌==◌, if◌then◌else◌, filterb, any, ℕ, String, Bool, true, false, not, ◌&&◌, ◌||◌,
  Option, none, some, List, [], ◌∷◌,
}
use open_tiger.Json.{Json, num}
use open_tiger.Store.{
  BlockReason, awaiting_judge, quota_wait, needs_rework, needs_human, Task, Run, active_status,
}
use open_tiger.Quota.{compute_quota_backoff}
use open_tiger.Failure.Codes.{FailureCode, setup_or_bootstrap_issue, Classification}
use open_tiger.Failure.Classify.{TextFunctions}
use open_tiger.Retry.Context.{context_field}
use open_tiger.Retry.Adjust.{CommandFunctions}
use open_tiger.Retry.Runs.{is_over_badly}
use open_tiger.Retry.Failed.{is_policy_violation, message_of}
use open_tiger.Retry.Rework.{ReworkFunctions, auto_rework_parent_marker_prefix, task_notes}

-- The settings, and the functions that the pass calls. A negative limit is none. `goal_pr` and
-- `title_pr` are the numbers that `/PR\s*#(\d+)/i` and `/Review\s*#(\d+)/i` find; `seed` and `hint`
-- what the quota back-off reads from the task's id with its retry count and from an error message;
-- `task_id_of` the id that a text writes; `outside_paths` the paths of a run's policy violations
-- outside the allowed ones; `adjusted_paths` the allowed paths that policy recovery arrives at for
-- them.
pub record BlockedEnv : Type 0 where
  pub fs : TextFunctions
  pub cs : CommandFunctions
  pub rs : ReworkFunctions
  pub max_retry_count : Option ℕ
  pub policy_suppression_max_retries : ℕ
  pub auto_rework_max_depth : ℕ
  pub needs_rework_in_place_retry_limit : Option ℕ
  pub base_delay_ms : ℕ
  pub max_delay_ms : ℕ
  pub factor : ℕ × ℕ
  pub jitter_ratio : ℕ × ℕ
  pub seed : (task_id retry_count : ℕ) → List ℕ
  pub hint : Option String → Option ℕ
  pub decimal : ℕ → String
  pub goal_pr : String → Option ℕ
  pub title_pr : String → Option ℕ
  pub task_id_of : String → Option ℕ
  pub outside_paths : Option Run → List String
  pub adjusted_paths : Task → List String → List String

-- `normalizeBlockReason`
abbrev pub normalize_block_reason : Option BlockReason → Option BlockReason
normalize_block_reason (some needs_human) = some awaiting_judge
normalize_block_reason (some awaiting_judge) = some awaiting_judge
normalize_block_reason (some needs_rework) = some needs_rework
normalize_block_reason (some quota_wait) = some quota_wait
normalize_block_reason _ = none

abbrev pub is_quota_wait : Option BlockReason → Bool
is_quota_wait (some quota_wait) = true
is_quota_wait _ = false

-- A number from a match counts if it is positive.
abbrev pub positive : Option ℕ → Option ℕ
positive none = none
positive (some n) = if n == 0 then none else some n

abbrev pub number_of : Option Json → Option ℕ
number_of (some (num n)) = some n
number_of _ = none

abbrev pub or_else : Option ℕ → Option ℕ → Option ℕ
or_else none rest = rest
or_else (some n) rest = some n

unfoldable pub extract_pr_number_for_task : BlockedEnv → Task → Option ℕ
extract_pr_number_for_task io t =
    or_else (number_of (context_field "number" (context_field "pr" t.context)))
      (or_else (positive (io.goal_pr t.goal)) (positive (io.title_pr t.title)))

abbrev pub is_conflict_auto_fix_task_title : TextFunctions → String → Bool
is_conflict_auto_fix_task_title fs title = elim (find? (fs.lower title) "[autofix-conflict]") [
  | none ↦ false
  | some i ↦ true
]

abbrev pub holds_text : String → String → Bool
holds_text s part = elim (find? s part) [ none ↦ false | some i ↦ true ]

-- Notes that are no text name no parent.
unfoldable pub has_active_rework_child : BlockedEnv → List Task → ℕ → Bool
has_active_rework_child io tasks parent =
    any
      (λ x.
        active_status x.status
        && (not (x.id == parent)
            && holds_text (task_notes x)
                (then_text auto_rework_parent_marker_prefix (io.rs.id_text parent))))
      tasks

-- `title like 'prefix%'`
abbrev pub fixes_pr : BlockedEnv → ℕ → String → Bool
fixes_pr io pr title =
    starts_with title (then_text "[AutoFix-Conflict] PR #" (io.decimal pr))
    || starts_with title (then_text "[AutoFix] PR #" (io.decimal pr))

unfoldable pub has_active_auto_fix_task_for_pr : BlockedEnv → List Task → ℕ → ℕ → Bool
has_active_auto_fix_task_for_pr io tasks pr current =
    any (λ x. active_status x.status && (not (x.id == current) && fixes_pr io pr x.title)) tasks

-- `shouldRetryBlockedSetupFailure`; the limit of a category is never negative.
abbrev pub is_setup_issue : FailureCode → Bool
is_setup_issue setup_or_bootstrap_issue = true
is_setup_issue _ = false

unfoldable pub should_retry_blocked_setup_failure : FailureCode → (next limit : ℕ) → Bool
should_retry_blocked_setup_failure reason next limit = is_setup_issue reason && leb next limit

abbrev pub within_limit : ℕ → Option ℕ → Bool
within_limit next none = true
within_limit next (some limit) = leb next limit

unfoldable pub should_retry_blocked_needs_rework_in_place : Classification → ℕ → Option ℕ → Bool
should_retry_blocked_needs_rework_in_place failure next limit =
    failure.retryable && (not (is_policy_violation failure.reason) && within_limit next limit)

-- `orderBy(desc(finishedAt), desc(startedAt))`; a run without an end comes first.
abbrev pub before_by_end : Option ℕ → Option ℕ → Bool → Bool
before_by_end none none tie = tie
before_by_end none (some b) tie = true
before_by_end (some a) none tie = false
before_by_end (some a) (some b) tie = ltb b a || ((a == b) && tie)

abbrev pub ends_later : Run → Run → Bool
ends_later r x = before_by_end r.finished_at x.finished_at (leb x.started_at r.started_at)

abbrev pub first_of : Run → Option Run → Option Run
first_of r none = some r
first_of r (some x) = if ends_later r x then some r else some x

abbrev pub first_by_end : List Run → Option Run
first_by_end [] = none
first_by_end (r ∷ rs) = first_of r (first_by_end rs)

-- The message of the run that comes first, of the failed and cancelled runs of a task.
unfoldable pub latest_quota_failure : ℕ → List Run → Option String
latest_quota_failure task_id runs =
    message_of (first_by_end (filterb (λ r. (r.task_id == task_id) && is_over_badly r.status) runs))

unfoldable pub required_cooldown_ms : BlockedEnv → ℕ → List Run → Task → ℕ
required_cooldown_ms io cooldown_ms runs t =
    if is_quota_wait (normalize_block_reason t.block_reason)
    then (compute_quota_backoff (record {
      seed = io.seed t.id t.retry_count;
      retry_count = t.retry_count;
      base_delay_ms = io.base_delay_ms;
      max_delay_ms = io.max_delay_ms;
      factor = some io.factor;
      jitter_ratio = some io.jitter_ratio;
      retry_hint_ms = io.hint (latest_quota_failure t.id runs);
    })).cooldown_ms
    else cooldown_ms
