-- ===== src/Retry/Blocked/Splits.antt =====
-- When requeueBlockedTasksWithCooldown
-- (apps/cycle-manager/src/cleaners/cleanup-retry/requeue-blocked.ts) splits a task.
use open_tiger.Prelude.{
  leb, Bool-cases, if_both, is_empty, ℕ, ◌+◌, ◌<◌, String, ◌≡◌, ◌≢◌, inl, inr, true, false, not,
  Option, none, some, List, arith,
}
use open_tiger.Store.{Task, Run, head}
use open_tiger.Failure.Codes.{setup, resolve_failure_category_retry_limit}
use open_tiger.Retry.Context.{is_judge_review_task}
use open_tiger.Retry.Runs.{has_pending_judge_run, restore_latest_judge_run, failed_runs}
use open_tiger.Retry.Failed.{RetryDb}
use open_tiger.Retry.Rework.{task_notes, resolve_auto_rework_depth}
use open_tiger.Retry.Blocked.{
  BlockedEnv, extract_pr_number_for_task, is_conflict_auto_fix_task_title, has_active_rework_child,
  should_retry_blocked_setup_failure, should_retry_blocked_needs_rework_in_place,
}
use open_tiger.Retry.Blocked.Decide.{
  BlockedDecision, leave_blocked, requeue_blocked, split_rework, recovered_commands, new_paths,
  decide_violation, decide_after_retry, in_place_or_after, with_commands, classify_run,
  decide_failure, pr_has_fix, judge_or, decide_review, decide_rework,
}

-- A decision that is not to split, and not to leave the task.
abbrev pub IsOther : BlockedDecision → Type 0
IsOther d = (d ≢ split_rework) × (d ≢ leave_blocked)

pub judge_or-IsOther : (o : Option ℕ) → IsOther (judge_or requeue_blocked o)
judge_or-IsOther none = ((λ e. cc), (λ e. cc))
judge_or-IsOther (some id) = ((λ e. cc), (λ e. cc))

pub decide_violation-IsOther :
    (io : BlockedEnv) (t : Task) (outside : List String) → IsOther (decide_violation io t outside)
decide_violation-IsOther io t outside =
    if_both IsOther (not (is_empty (new_paths io t outside))) _ _ (λ h. ((λ e. cc), (λ e. cc)))
      (λ h.
        if_both IsOther (leb io.policy_suppression_max_retries (t.retry_count + 1)) _ _
          (λ k. ((λ e. cc), (λ e. cc))) (λ k. ((λ e. cc), (λ e. cc))))

-- What holds of a task that needs rework where a rework task is created for it.
pub record SplitsLast (io : BlockedEnv) (db : RetryDb) (t : Task) : Type 0 where
  pub not_review : is_judge_review_task io.fs t.title t.goal t.context ≡ false
  pub not_conflict_fix : is_conflict_auto_fix_task_title io.fs t.title ≡ false
  pub no_retry_left :
      should_retry_blocked_needs_rework_in_place
        (classify_run io (head (failed_runs t.id db.runs)))
        (t.retry_count + 1)
        io.needs_rework_in_place_retry_limit
      ≡ false
  pub no_violation : is_empty (io.outside_paths (head (failed_runs t.id db.runs))) ≡ true
  pub no_child : has_active_rework_child io db.tasks t.id ≡ false
  pub depth : resolve_auto_rework_depth io.fs io.rs (task_notes t) < io.auto_rework_max_depth

-- The conditions of the last branches.
record SplitsAfter (io : BlockedEnv) (tasks : List Task) (t : Task) (latest : Option Run)
    : Type 0 where
  no_violation : is_empty (io.outside_paths latest) ≡ true
  no_child : has_active_rework_child io tasks t.id ≡ false
  depth : resolve_auto_rework_depth io.fs io.rs (task_notes t) < io.auto_rework_max_depth

decide_after_retry-splits :
    (io : BlockedEnv) (tasks : List Task) (t : Task) (latest : Option Run)
    → decide_after_retry io tasks t latest ≡ split_rework
    → SplitsAfter io tasks t latest
decide_after_retry-splits io tasks t latest e =
    elim (Bool-cases (is_empty (io.outside_paths latest))) [
      | inr violated ↦
          absurd ((decide_violation-IsOther io t (io.outside_paths latest)).0 (rw violated at e))
      | inl clean ↦ elim (Bool-cases (has_active_rework_child io tasks t.id)) [
        | inl child ↦ let bad = (rw (clean, child) at e) in absurd (cc)
        | inr alone ↦
            elim (Bool-cases (
              leb io.auto_rework_max_depth
                (resolve_auto_rework_depth io.fs io.rs (task_notes t)))) [
                  | inl deep ↦ let bad = (rw (clean, alone, deep) at e) in absurd (cc)
                  | inr shallow ↦ record {
                    no_violation = clean;
                    no_child = alone;
                    depth = ground arith;
                  }
                ]
      ]
    ]

with_commands-splits :
    (o : Option (List String)) (rest : BlockedDecision)
    → with_commands o rest ≡ split_rework
    → rest ≡ split_rework
with_commands-splits none rest e = e
with_commands-splits (some commands) rest e = cc

decide_failure-splits :
    (io : BlockedEnv) (db : RetryDb) (t : Task)
    → is_judge_review_task io.fs t.title t.goal t.context ≡ false
    → is_conflict_auto_fix_task_title io.fs t.title ≡ false
    → decide_failure io db t ≡ split_rework
    → SplitsLast io db t
unfolding decide_failure
decide_failure-splits io db t review fix e =
    let latest = head (failed_runs t.id db.runs) in
    let failure = classify_run io latest in
    elim (Bool-cases (
      should_retry_blocked_setup_failure failure.reason (t.retry_count + 1)
        (resolve_failure_category_retry_limit setup io.max_retry_count))) [
          | inl again ↦ let bad = (rw (again, decide_failure) at e) in absurd (cc)
          | inr no_setup ↦
              let inner =
                with_commands-splits (recovered_commands io t latest failure)
                  (in_place_or_after io db.tasks t latest failure)
                  (rw (no_setup, decide_failure) at e) in
              elim (Bool-cases (
                should_retry_blocked_needs_rework_in_place failure (t.retry_count + 1)
                  io.needs_rework_in_place_retry_limit)) [
                    | inl in_place ↦ let bad = (rw in_place at inner) in absurd (cc)
                    | inr used_up ↦
                        let after =
                          decide_after_retry-splits io db.tasks t latest (rw used_up at inner) in
                        record {
                          not_review = review;
                          not_conflict_fix = fix;
                          no_retry_left = used_up;
                          no_violation = after.no_violation;
                          no_child = after.no_child;
                          depth = after.depth;
                        }
                  ]
        ]

decide_review-splits :
    (io : BlockedEnv) (db : RetryDb) (t : Task) → (decide_review io db t).1 ≢ split_rework
unfolding decide_review
decide_review-splits io db t e =
    elim (Bool-cases (pr_has_fix io db.tasks t (extract_pr_number_for_task io t))) [
      | inl fixing ↦ let bad = (rw (fixing, decide_review) at e) in absurd (cc)
      | inr free ↦ elim (Bool-cases (has_pending_judge_run t.id db.runs)) [
        | inl pending ↦ let bad = (rw (free, decide_review, pending) at e) in absurd (cc)
        | inr idle_one ↦
            (judge_or-IsOther (restore_latest_judge_run db.artifacts t.id db.runs).1).0
              (rw (free, decide_review, idle_one) at e)
      ]
    ]

pub decide_rework-splits :
    (io : BlockedEnv) (db : RetryDb) (t : Task)
    → (decide_rework io db t).1 ≡ split_rework
    → SplitsLast io db t
unfolding decide_rework
decide_rework-splits io db t e =
    elim (Bool-cases (is_judge_review_task io.fs t.title t.goal t.context)) [
      | inl review ↦ absurd (decide_review-splits io db t (rw (review, decide_rework) at e))
      | inr ordinary ↦ elim (Bool-cases (is_conflict_auto_fix_task_title io.fs t.title)) [
        | inl fix ↦ let bad = (rw (ordinary, decide_rework, fix) at e) in absurd (cc)
        | inr plain ↦
            decide_failure-splits io db t ordinary plain (rw (ordinary, decide_rework, plain) at e)
      ]
    ]
