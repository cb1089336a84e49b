-- ===== src/Retry/Blocked/Laws.antt =====
-- When requeueBlockedTasksWithCooldown
-- (apps/cycle-manager/src/cleaners/cleanup-retry/requeue-blocked.ts) splits a task and when it
-- leaves one as it is.
use open_tiger.Prelude.{
  leb, Bool-cases, if_both, is_empty, ℕ, ◌+◌, ◌<◌, String, ◌≡◌, refl, ◌≢◌, ◌⊎◌, inl, inr, true, not,
  Option, none, some, List, arith,
}
use open_tiger.Store.{
  BlockReason, awaiting_judge, quota_wait, needs_rework, issue_linking, needs_human, Task, head,
}
use open_tiger.Failure.Codes.{setup, resolve_failure_category_retry_limit}
use open_tiger.Retry.Context.{is_judge_review_task}
use open_tiger.Retry.Runs.{has_pending_judge_run, restore_latest_judge_run, failed_runs}
use open_tiger.Retry.Failed.{RetryDb}
use open_tiger.Retry.Rework.{task_notes, resolve_auto_rework_depth}
use open_tiger.Retry.Blocked.{
  BlockedEnv, normalize_block_reason, extract_pr_number_for_task, is_conflict_auto_fix_task_title,
  has_active_rework_child, should_retry_blocked_setup_failure,
  should_retry_blocked_needs_rework_in_place,
}
use open_tiger.Retry.Blocked.Decide.{
  BlockedDecision, leave_blocked, back_to_judge, requeue_blocked, requeue_commands, requeue_paths,
  keep_suppressed, cancel_blocked, route_source, split_rework, recovered_commands, decide_split,
  in_place_or_after, with_commands, classify_run, decide_failure, pr_has_fix, decide_review,
  decide_rework, decide_awaiting, decide_reason, decide_blocked,
}
use open_tiger.Retry.Blocked.Splits.{
  judge_or-IsOther, decide_violation-IsOther, SplitsLast, decide_rework-splits,
}
use open_tiger.Retry.Blocked.Fixes.{FixNamed, pr_has_fix-found}
use open_tiger.Retry.Blocked.Pass.{handles, requeue_blocked_task}

decide_awaiting-waits :
    (io : BlockedEnv) (db : RetryDb) (t : Task)
    → ((decide_awaiting io db t).1 ≢ split_rework)
      × ((decide_awaiting io db t).1 ≡ leave_blocked → has_pending_judge_run t.id db.runs ≡ true)
unfolding decide_awaiting
decide_awaiting-waits io db t = elim (Bool-cases (has_pending_judge_run t.id db.runs)) [
  | inl pending ↦ rw (pending, decide_awaiting) ((λ e. cc), (λ e. refl))
  | inr idle_one ↦
      let other = judge_or-IsOther (restore_latest_judge_run db.artifacts t.id db.runs).1 in
      rw (idle_one, decide_awaiting) (other.0, (λ e. absurd (other.1 e)))
]

-- The branches for a block reason split only a task that needs rework.
decide_reason-splits :
    (io : BlockedEnv) (db : RetryDb) (t : Task) (r : Option BlockReason)
    → (decide_reason io db t r).1 ≡ split_rework
    → (r ≡ some needs_rework) × SplitsLast io db t
decide_reason-splits io db t (some needs_rework) e = (refl, decide_rework-splits io db t e)
decide_reason-splits io db t (some awaiting_judge) e = absurd ((decide_awaiting-waits io db t).0 e)
decide_reason-splits io db t (some quota_wait) e = cc
decide_reason-splits io db t (some issue_linking) e = cc
decide_reason-splits io db t (some needs_human) e = cc
decide_reason-splits io db t none e = cc

with_commands-leaves :
    (o : Option (List String)) (rest : BlockedDecision)
    → rest ≢ leave_blocked
    → with_commands o rest ≢ leave_blocked
with_commands-leaves none rest h e = h e
with_commands-leaves (some commands) rest h e = cc

decide_split-leaves :
    (io : BlockedEnv) (tasks : List Task) (t : Task) → decide_split io tasks t ≢ leave_blocked
decide_split-leaves io tasks t =
    if_both (λ d. d ≢ leave_blocked) (has_active_rework_child io tasks t.id) _ _ (λ h e. cc)
      (λ h.
        if_both (λ d. d ≢ leave_blocked)
          (leb io.auto_rework_max_depth (resolve_auto_rework_depth io.fs io.rs (task_notes t))) _ _
          (λ k e. cc) (λ k e. cc))

decide_failure-leaves :
    (io : BlockedEnv) (db : RetryDb) (t : Task) → decide_failure io db t ≢ leave_blocked
unfolding decide_failure
decide_failure-leaves io db t =
    let latest = head (failed_runs t.id db.runs) in
    let failure = classify_run io latest in
    if_both (λ d. d ≢ leave_blocked)
      (should_retry_blocked_setup_failure failure.reason (t.retry_count + 1)
        (resolve_failure_category_retry_limit setup io.max_retry_count))
      _ _ (λ h e. cc)
      (λ h.
        with_commands-leaves (recovered_commands io t latest failure)
          (in_place_or_after io db.tasks t latest failure)
          (if_both (λ d. d ≢ leave_blocked)
            (should_retry_blocked_needs_rework_in_place failure (t.retry_count + 1)
              io.needs_rework_in_place_retry_limit)
            _ _ (λ k e. cc)
            (λ k.
              if_both (λ d. d ≢ leave_blocked) (not (is_empty (io.outside_paths latest))) _ _
                (λ l. (decide_violation-IsOther io t (io.outside_paths latest)).1)
                (λ l. decide_split-leaves io db.tasks t))))

decide_rework-leaves :
    (io : BlockedEnv) (db : RetryDb) (t : Task)
    → (decide_rework io db t).1 ≡ leave_blocked
    → FixNamed io db.tasks t
unfolding decide_rework decide_review
decide_rework-leaves io db t e =
    elim (Bool-cases (is_judge_review_task io.fs t.title t.goal t.context)) [
      | inl review ↦
          elim (Bool-cases (pr_has_fix io db.tasks t (extract_pr_number_for_task io t))) [
            | inl fixing ↦ (review, pr_has_fix-found io db.tasks t fixing)
            | inr free ↦ elim (Bool-cases (has_pending_judge_run t.id db.runs)) [
              | inl pending ↦
                  let bad = (rw (review, decide_rework, free, decide_review, pending) at e) in
                  absurd (cc)
              | inr idle_one ↦ absurd (
                  (judge_or-IsOther (restore_latest_judge_run db.artifacts t.id db.runs).1).1
                    (rw (review, decide_rework, free, decide_review, idle_one) at e))
            ]
          ]
      | inr ordinary ↦ elim (Bool-cases (is_conflict_auto_fix_task_title io.fs t.title)) [
        | inl fix ↦ let bad = (rw (ordinary, decide_rework, fix) at e) in absurd (cc)
        | inr plain ↦
            absurd (decide_failure-leaves io db t (rw (ordinary, decide_rework, plain) at e))
      ]
    ]

-- Why a task past its cooldown is left as it is.
abbrev pub Waits : BlockedEnv → RetryDb → Task → Option BlockReason → Type 0
Waits io db t reason =
    ((reason ≡ some awaiting_judge) × (has_pending_judge_run t.id db.runs ≡ true))
    ⊎ ((reason ≡ some needs_rework) × FixNamed io db.tasks t)

decide_reason-leaves :
    (io : BlockedEnv) (db : RetryDb) (t : Task) (r : Option BlockReason)
    → (decide_reason io db t r).1 ≡ leave_blocked
    → Waits io db t r
decide_reason-leaves io db t (some needs_rework) e = inr (refl, decide_rework-leaves io db t e)
decide_reason-leaves io db t (some awaiting_judge) e =
    inl (refl, (decide_awaiting-waits io db t).1 e)
decide_reason-leaves io db t (some quota_wait) e = cc
decide_reason-leaves io db t (some issue_linking) e = cc
decide_reason-leaves io db t (some needs_human) e = cc
decide_reason-leaves io db t none e = cc

-- A rework task is created, and its parent cancelled, only as the last resort: the task needs
-- rework, is no review and no conflict fix, may not be retried in place any more, its latest failed
-- run touched no path outside the allowed ones, no active task names it as parent already, and its
-- chain of parents is shorter than the maximal depth.
pub decide_blocked-SplitsLast :
    (io : BlockedEnv) (db : RetryDb) (t : Task)
    → (decide_blocked io db t).1 ≡ split_rework
    → (normalize_block_reason t.block_reason ≡ some needs_rework) × SplitsLast io db t
unfolding decide_blocked
decide_blocked-SplitsLast io db t e =
    decide_reason-splits io db t (normalize_block_reason t.block_reason) e

decide_blocked-Waits :
    (io : BlockedEnv) (db : RetryDb) (t : Task)
    → (decide_blocked io db t).1 ≡ leave_blocked
    → Waits io db t (normalize_block_reason t.block_reason)
unfolding decide_blocked
decide_blocked-Waits io db t e =
    decide_reason-leaves io db t (normalize_block_reason t.block_reason) e

unhandled : (d : BlockedDecision) → handles d ≡ 0 → d ≡ leave_blocked
unhandled leave_blocked h = refl
unhandled back_to_judge h = absurd (omega (arith, h))
unhandled requeue_blocked h = absurd (omega (arith, h))
unhandled (requeue_commands commands) h = absurd (omega (arith, h))
unhandled (requeue_paths paths) h = absurd (omega (arith, h))
unhandled keep_suppressed h = absurd (omega (arith, h))
unhandled cancel_blocked h = absurd (omega (arith, h))
unhandled (route_source source) h = absurd (omega (arith, h))
unhandled split_rework h = absurd (omega (arith, h))

-- A round that does not count its task as handled has found that the cooldown is not over, that
-- the task waits for the judge and has a run that the judge has still to see, or that it is a
-- review that needs rework and names a pull request by whose number some other active task is
-- titled as an auto-fix. The number is compared as a prefix: 70 passes for 7.
pub requeue_blocked_task-Waits :
    (io : BlockedEnv) (now fresh cooldown_ms : ℕ) (t : Task) (db : RetryDb)
    → (requeue_blocked_task io now fresh cooldown_ms t db).1 ≡ 0
    → (now < t.updated_at + cooldown_ms) ⊎ Waits io db t (normalize_block_reason t.block_reason)
unfolding requeue_blocked_task
requeue_blocked_task-Waits io now fresh cooldown_ms t db h =
    elim (Bool-cases (leb (t.updated_at + cooldown_ms) now)) [
      | inl over ↦ inr (
          decide_blocked-Waits io db t
            (unhandled (decide_blocked io db t).1 (rw (over, requeue_blocked_task) at h)))
      | inr early ↦ inl (ground arith)
    ]
