-- ===== src/MergeQueue/Process.antt =====
-- processQueueRow, processQueueFailureEscalation and processMergeQueue. What lies outside the
-- queue is an argument: the pull request's merge attempt, the auto-fix and re-creation tasks of
-- judge-autofix.ts, and what other processes write meanwhile.
use open_tiger.Prelude.{
  ltb, ◌==◌, if◌then◌else◌, any, ℕ, ◌+◌, String, Bool, true, false, Option, none, some, List, [],
  ◌∷◌,
}
use open_tiger.Store.{TaskStatus, BlockReason, needs_rework, update_where}
use open_tiger.MergeQueue.Rows.{
  pending, merged, failed, Row, merge_done, retried, merge_failed, MergeDb, record_event,
  MergeConfig, resolve_retry_delay_ms,
}
use open_tiger.MergeQueue.Claims.{recover_expired_claims, claim_rounds, finalize_queue_item}

-- How creating a conflict auto-fix task ends, from its result's `created` and `reason`.
pub data AutoFix : Type 0 where
  created : AutoFix
  already_active : AutoFix
  attempt_limit_reached : AutoFix
  other_reason : AutoFix

-- The same for closing the pull request and starting again from the main line.
pub data Recreate : Type 0 where
  recreated : Recreate
  already_recreating : Recreate
  not_recreated : Recreate

pub record Escalation : Type 0 where
  pub auto_fix : AutoFix
  pub recreate : Recreate

-- `attemptMergeForApprovedPR` throws, merges, or defers with a reason.
pub data MergeAttempt : Type 0 where
  throws : String → MergeAttempt
  merges : MergeAttempt
  defers : Option String → MergeAttempt

pub data Outcome : Type 0 where
  merged_outcome retry_outcome failed_outcome : Outcome

abbrev pub set_task : ℕ → TaskStatus → Option BlockReason → ℕ → MergeDb → MergeDb
set_task now status reason id db = record db {
  tasks =
      update_where (λ t. t.id == id)
        (λ t. record t { status = status; block_reason = reason; updated_at = now }) db.tasks;
}

abbrev pub after_recreate : ℕ → ℕ → Recreate → MergeDb → MergeDb
after_recreate now id not_recreated db = db
after_recreate now id _ db = set_task now TaskStatus.failed none id db

abbrev pub after_auto_fix : ℕ → ℕ → Escalation → AutoFix → MergeDb → MergeDb
after_auto_fix now id e other_reason db = db
after_auto_fix now id e attempt_limit_reached db = after_recreate now id e.recreate db
after_auto_fix now id e _ db = set_task now TaskStatus.blocked (some needs_rework) id db

unfoldable pub process_queue_failure_escalation : ℕ → Escalation → Row → MergeDb → MergeDb
process_queue_failure_escalation now e r db =
    if any (λ t. t.id == r.task_id) db.tasks
    then after_auto_fix now r.task_id e e.auto_fix db
    else db

-- What follows the write that ends a claim: `true` when the claim was still held.
unfoldable pub after_requeue : Row → Bool → MergeDb → MergeDb × Outcome
after_requeue r true db = (record_event retried r db, retry_outcome)
after_requeue r false db = (db, retry_outcome)

unfoldable pub after_spent : ℕ → Escalation → Row → Bool → MergeDb → MergeDb × Outcome
unfolding process_queue_failure_escalation
after_spent now e r true db =
    (record_event merge_failed r (process_queue_failure_escalation now e r db), failed_outcome)
after_spent now e r false db = (db, retry_outcome)

unfoldable pub after_spent_thrown : ℕ → Escalation → Row → Bool → MergeDb → MergeDb × Outcome
unfolding process_queue_failure_escalation
after_spent_thrown now e r true db = (process_queue_failure_escalation now e r db, failed_outcome)
after_spent_thrown now e r false db = (db, failed_outcome)

unfoldable pub after_merged : ℕ → Row → Bool → MergeDb → MergeDb × Outcome
after_merged now r true db =
    (record_event merge_done r (set_task now TaskStatus.done none r.task_id db), merged_outcome)
after_merged now r false db = (db, retry_outcome)

unfoldable pub requeue : MergeConfig → ℕ → String → Row → ℕ → String → MergeDb → MergeDb × Bool
requeue c now agent_id r token reason db =
    finalize_queue_item now r.id token agent_id pending (r.attempt_count + 1)
      (now + resolve_retry_delay_ms c) (some reason) db

unfoldable pub spend : ℕ → String → Row → ℕ → String → MergeDb → MergeDb × Bool
spend now agent_id r token reason db =
    finalize_queue_item now r.id token agent_id failed (r.attempt_count + 1) now (some reason) db

-- What an attempt that did not merge leaves: a retry, or the failure at the last attempt.
unfoldable pub give_back :
    MergeConfig → ℕ → String → Escalation → Row → ℕ → String → MergeDb → MergeDb × Outcome
unfolding requeue spend after_requeue after_spent
give_back c now agent_id e r token reason db =
    if ltb (r.attempt_count + 1) r.max_attempts
    then (let (db', ok) = requeue c now agent_id r token reason db in after_requeue r ok db')
    else (let (db', ok) = spend now agent_id r token reason db in after_spent now e r ok db')

-- The `catch` of `processMergeQueue`, for an attempt that throws.
unfoldable pub give_back_thrown :
    MergeConfig → ℕ → String → Escalation → Row → ℕ → String → MergeDb → MergeDb × Outcome
unfolding requeue spend after_spent_thrown
give_back_thrown c now agent_id e r token reason db =
    if ltb (r.attempt_count + 1) r.max_attempts
    then ((requeue c now agent_id r token reason db).0, retry_outcome)
    else (let (db', ok) = spend now agent_id r token reason db in after_spent_thrown now e r ok db')

unfoldable pub finish_merged : ℕ → String → Row → ℕ → MergeDb → MergeDb × Outcome
unfolding after_merged
finish_merged now agent_id r token db =
    let (db', ok) =
      finalize_queue_item now r.id token agent_id merged (r.attempt_count + 1) now none db in
    after_merged now r ok db'

abbrev pub deferred_reason : Option String → String
deferred_reason none = "merge_not_completed"
deferred_reason (some reason) = reason

unfoldable pub settle :
    MergeConfig
    → (now : ℕ) → String
    → Escalation
    → Row
    → (token : ℕ) → MergeAttempt
    → MergeDb
    → MergeDb × Outcome
unfolding give_back give_back_thrown finish_merged
settle c now agent_id e r token merges db = finish_merged now agent_id r token db
settle c now agent_id e r token (defers reason) db =
    give_back c now agent_id e r token (deferred_reason reason) db
settle c now agent_id e r token (throws reason) db =
    give_back_thrown c now agent_id e r token reason db

-- `meanwhile` is what others write during the merge attempt, and `now` the time after it.
unfoldable pub process_queue_row :
    MergeConfig
    → (now : ℕ) → String
    → MergeAttempt
    → Escalation
    → (MergeDb → MergeDb)
    → Row
    → MergeDb
    → MergeDb × Outcome
unfolding settle
process_queue_row c now agent_id attempt e meanwhile r db = elim r.claim_token [
  | none ↦ (db, retry_outcome)
  | some token ↦ settle c now agent_id e r token attempt (meanwhile db)
]

pub record Tally : Type 0 where
  pub processed : ℕ
  pub merged_count : ℕ
  pub retried_count : ℕ
  pub failed_count : ℕ

unfoldable pub tally : Outcome → Tally → Tally
tally merged_outcome t = record t { processed = t.processed + 1; merged_count = t.merged_count + 1 }
tally retry_outcome t = record t {
  processed = t.processed + 1;
  retried_count = t.retried_count + 1;
}
tally failed_outcome t = record t { processed = t.processed + 1; failed_count = t.failed_count + 1 }

-- What the outside does in one round of the batch loop.
pub record Round : Type 0 where
  pub claimed_at : ℕ
  pub rounds : List (ℕ × (MergeDb → MergeDb))
  pub finished_at : ℕ
  pub attempt : MergeAttempt
  pub escalation : Escalation
  pub meanwhile : MergeDb → MergeDb

-- The batch loop, MERGE_QUEUE_BATCH_LIMIT = 3 rounds long; a claimed row always has its token.
unfoldable pub process_batch : MergeConfig → String → List Round → MergeDb → Tally → MergeDb × Tally
unfolding tally
process_batch c agent_id [] db t = (db, t)
process_batch c agent_id (o ∷ os) db t =
    let claim = claim_rounds c o.claimed_at agent_id o.rounds db in
    elim (claim.1) [
      | none ↦ (claim.0, t)
      | some r ↦
          let done =
            process_queue_row c o.finished_at agent_id o.attempt o.escalation o.meanwhile r
              claim.0 in
          process_batch c agent_id os done.0 (tally done.1 t)
    ]

unfoldable pub process_merge_queue :
    MergeConfig
    → ℕ
    → (MergeDb → MergeDb)
    → String
    → (first second third : Round) → MergeDb
    → MergeDb × Option (ℕ × Tally)
process_merge_queue c now between agent_id first second third db =
    let recovered = recover_expired_claims c now between db in
    let zero_tally : Tally = record {
      processed = 0;
      merged_count = 0;
      retried_count = 0;
      failed_count = 0;
    } in
    elim recovered.1 [
      | none ↦ (recovered.0, none)
      | some n ↦
          let batch =
            process_batch c agent_id (first ∷ second ∷ third ∷ []) recovered.0 zero_tally in
          (batch.0, some (n, batch.1))
    ]
