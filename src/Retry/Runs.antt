-- ===== src/Retry/Runs.antt =====
-- The runs of a task: judge-recovery.ts and hasRepeatedFailureSignature.
use open_tiger.Prelude.{
  leb, ◌==◌, ◌===◌, if◌then◌else◌, length, filterb, any, all, has_text, ℕ, ◌-◌, String, Bool, true,
  false, not, ◌&&◌, ◌||◌, Option, none, some, List, [], ◌∷◌,
}
use open_tiger.Json.{Json}
use open_tiger.Store.{RunStatus, Run, update_where, most_recent_first, head}

pub record Artifact : Type 0 where
  pub run_id : ℕ
  pub type : String

abbrev pub judge_artifact_types : List String
judge_artifact_types =
    "pr" ∷ "worktree" ∷ "research_claim" ∷ "research_source" ∷ "research_report" ∷ []

abbrev pub is_success : RunStatus → Bool
is_success RunStatus.success = true
is_success _ = false

abbrev pub is_over_badly : RunStatus → Bool
is_over_badly RunStatus.failed = true
is_over_badly RunStatus.cancelled = true
is_over_badly _ = false

abbrev is_none : Option ℕ → Bool
is_none none = true
is_none (some n) = false

unfoldable pub has_pending_judge_run : ℕ → List Run → Bool
has_pending_judge_run task_id runs =
    any (λ r. (r.task_id == task_id) && (is_success r.status && is_none r.judged_at)) runs

abbrev has_judge_artifact : List Artifact → Run → Bool
has_judge_artifact artifacts r =
    any (λ a. (a.run_id == r.id) && has_text judge_artifact_types a.type) artifacts

-- The run whose judgement is to be undone, and the runs after that.
unfoldable pub restore_latest_judge_run : List Artifact → ℕ → List Run → List Run × Option ℕ
unfolding most_recent_first
restore_latest_judge_run artifacts task_id runs =
    elim (head (
      most_recent_first (
        filterb
          (λ r. (r.task_id == task_id) && (is_success r.status && has_judge_artifact artifacts r))
          runs))) [
            | none ↦ (runs, none)
            | some latest ↦ (
              update_where (λ r. r.id == latest.id) (λ r. record r { judged_at = none }) runs,
              some latest.id,
            )
          ]

-- The failed and cancelled runs of a task, the latest first.
unfoldable pub failed_runs : ℕ → List Run → List Run
unfolding most_recent_first
failed_runs task_id runs =
    most_recent_first (filterb (λ r. (r.task_id == task_id) && is_over_badly r.status) runs)

abbrev pub take : ℕ → List Run → List Run
take n [] = []
take n (r ∷ rs) = let rest = take (n - 1) rs in if n == 0 then [] else r ∷ rest

abbrev pub latest_signature : (Option String → Option Json → String) → Option Run → String
latest_signature signature none = signature none none
latest_signature signature (some r) = signature r.error_message r.error_meta

-- `normalizeFailureSignature` is an argument.
unfoldable pub has_repeated_failure_signature :
    (Option String → Option Json → String) → (threshold : ℕ) → ℕ → List Run → Option Run → Bool
unfolding failed_runs
has_repeated_failure_signature signature threshold task_id runs latest =
    let recent = take threshold (failed_runs task_id runs) in
    leb threshold 1
    || (not (latest_signature signature latest === "")
        && (leb threshold (length recent)
            && all
                (λ r. signature r.error_message r.error_meta === latest_signature signature latest)
                recent))
