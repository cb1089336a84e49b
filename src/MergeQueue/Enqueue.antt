-- ===== src/MergeQueue/Enqueue.antt =====
-- enqueueMergeQueueItem.
use open_tiger.Prelude.{
  ◌==◌, if◌then◌else◌, any, find_first, ℤ, ℕ, String, Bool, ◌&&◌, ◌||◌, Option, none, some, List,
  [], ◌∷◌, ◌++◌,
}
use open_tiger.MergeQueue.Rows.{
  MergeQueueStatus, pending, Row, enqueued, MergeDb, is_active, record_event, MergeConfig,
  resolve_max_attempts,
}

-- The task and the run of a request stand in their tables.
pub record EnqueueParams : Type 0 where
  pub pr_number : ℕ
  pub task_id : ℕ
  pub run_id : ℕ
  pub priority : ℤ
  pub reason : Option String

pub data EnqueueResult : Type 0 where
  queued_as : (queue_id : ℕ) → EnqueueResult
  existing_active_queue : (queue_id : ℕ) → MergeQueueStatus → EnqueueResult
  duplicate_source_run : (queue_id : ℕ) → MergeQueueStatus → EnqueueResult
  merge_queue_insert_failed : EnqueueResult

abbrev pub active_for : ℕ → Row → Bool
active_for pr r = (r.pr_number == pr) && is_active r.status

abbrev pub from_source : ℕ → ℕ → Row → Bool
from_source task_id run_id r = (r.task_id == task_id) && (r.run_id == run_id)

abbrev pub has_key : ℕ → Row → Bool
has_key id r = r.id == id

unfoldable pub get_active_queue_by_pr_number : ℕ → List Row → Option Row
get_active_queue_by_pr_number pr rows = find_first (active_for pr) rows

unfoldable pub get_queue_by_source_pair : ℕ → ℕ → List Row → Option Row
get_queue_by_source_pair task_id run_id rows = find_first (from_source task_id run_id) rows

-- The primary key, and the indexes pr_merge_queue_active_pr_unq and pr_merge_queue_task_run_unq.
abbrev pub unique_violation : Row → List Row → Bool
unique_violation r rows =
    any (has_key r.id) rows
    || ((is_active r.status && any (active_for r.pr_number) rows)
        || any (from_source r.task_id r.run_id) rows)

abbrev pub new_row : MergeConfig → ℕ → ℕ → EnqueueParams → Row
new_row c now fresh p = record {
  id = fresh;
  pr_number = p.pr_number;
  task_id = p.task_id;
  run_id = p.run_id;
  status = pending;
  priority = p.priority;
  attempt_count = 0;
  max_attempts = resolve_max_attempts c;
  next_attempt_at = now;
  last_error = p.reason;
  claim_owner = none;
  claim_token = none;
  claim_expires_at = none;
  claimed_at = none;
  created_at = now;
  updated_at = now;
}

-- The look-ups before the insert and after a violation: an existing row, or none.
unfoldable pub existing_row : EnqueueParams → List Row → Option EnqueueResult
unfolding get_active_queue_by_pr_number get_queue_by_source_pair
existing_row p rows = elim (get_active_queue_by_pr_number p.pr_number rows) [
  | some r ↦ some (existing_active_queue r.id r.status)
  | none ↦ elim (get_queue_by_source_pair p.task_id p.run_id rows) [
    | some r ↦ some (duplicate_source_run r.id r.status)
    | none ↦ none
  ]
]

abbrev pub or_insert_failed : Option EnqueueResult → EnqueueResult
or_insert_failed none = merge_queue_insert_failed
or_insert_failed (some r) = r

unfoldable pub insert_row : Row → EnqueueParams → MergeDb → MergeDb × EnqueueResult
insert_row r p db =
    if unique_violation r db.rows
    then (db, or_insert_failed (existing_row p db.rows))
    else (record_event enqueued r (record db { rows = db.rows ++ r ∷ [] }), queued_as r.id)

-- `between` is what others write between the look-ups and the insert.
unfoldable pub enqueue_merge_queue_item :
    MergeConfig
    → (now fresh : ℕ) → (MergeDb → MergeDb)
    → EnqueueParams
    → MergeDb
    → MergeDb × EnqueueResult
unfolding insert_row existing_row
enqueue_merge_queue_item c now fresh between p db = elim (existing_row p db.rows) [
  | some found ↦ (db, found)
  | none ↦ insert_row (new_row c now fresh p) p (between db)
]
