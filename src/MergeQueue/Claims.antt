-- ===== src/MergeQueue/Claims.antt =====
-- Claims on queue rows: recovery, renewal, claiming, finalizing and release.
use open_tiger.Prelude.{
  ltb, leb, ◌==◌, if◌then◌else◌, length, is_empty, filterb, any, find_first, count_if, ltb_ℤ, eq_ℤ,
  ℕ, ◌+◌, String, Bool, false, not, ◌&&◌, ◌||◌, Option, none, some, List, [], ◌∷◌, ◌++◌,
}
use open_tiger.Store.{update_where}
use open_tiger.MergeQueue.Enqueue.{active_for}
use open_tiger.MergeQueue.Rows.{
  MergeQueueStatus, pending, processing, Row, claim_recovered, MergeEvent, MergeDb, is_pending,
  is_processing, is_active, same_number, same_text, at_most, unclaimed, MergeConfig,
  resolve_retry_delay_ms, resolve_claim_ttl_ms,
}

abbrev pub claim_expired : ℕ → Row → Bool
claim_expired now r = is_processing r.status && at_most r.claim_expires_at now

abbrev pub back_to_pending : MergeConfig → ℕ → Row → Row
back_to_pending c now r = record (unclaimed r) {
  status = pending;
  next_attempt_at = now + resolve_retry_delay_ms c;
  updated_at = now;
}

abbrev pub claim_recovered_events : List Row → List MergeEvent
claim_recovered_events [] = []
claim_recovered_events (r ∷ rs) =
    record { type = claim_recovered; entity_id = r.task_id; queue_id = r.id }
    ∷ claim_recovered_events rs

-- `inArray(prMergeQueue.id, ids)`
abbrev pub id_in : List Row → ℕ → Bool
id_in [] id = false
id_in (r ∷ rs) id = (r.id == id) || id_in rs id

-- The partial index pr_merge_queue_active_pr_unq against the update: whether it makes a row active
-- again whose pull request would then have two active rows. `rows'` are the rows it would leave.
abbrev pub reactivates : List Row → List Row → Row → Bool
reactivates expired rows' r =
    id_in expired r.id
    && (not (is_active r.status) && ltb 1 (count_if (active_for r.pr_number) rows'))

abbrev pub recovered_rows : MergeConfig → ℕ → List Row → List Row → List Row
recovered_rows c now expired rows =
    update_where (λ r. id_in expired r.id) (back_to_pending c now) rows

-- `between` is what others write between the select and the update, which goes by id alone. With
-- no number of rows the update has failed on the index, and the call throws.
unfoldable pub recover_expired_claims :
    MergeConfig → ℕ → (MergeDb → MergeDb) → MergeDb → MergeDb × Option ℕ
recover_expired_claims c now between db =
    let expired = filterb (claim_expired now) db.rows in
    let rows' = recovered_rows c now expired (between db).rows in
    if is_empty expired
    then (db, some 0)
    else if any (reactivates expired rows') (between db).rows
    then (between db, none)
    else (
      record (between db) {
        rows = rows';
        events = (between db).events ++ claim_recovered_events expired;
      },
      some (length expired),
    )

-- The conditions under which the holder of a claim may write its row.
abbrev pub held_by : ℕ → ℕ → String → Row → Bool
held_by queue_id token agent_id r =
    (r.id == queue_id)
    && (is_processing r.status
        && (same_text r.claim_owner agent_id && same_number r.claim_token token))

unfoldable pub renew_claim_lease :
    MergeConfig → ℕ → (queue_id token : ℕ) → String → MergeDb → MergeDb
renew_claim_lease c now queue_id token agent_id db = record db {
  rows =
      update_where (held_by queue_id token agent_id)
        (λ r. record r { claim_expires_at = some (now + resolve_claim_ttl_ms c); updated_at = now })
        db.rows;
}

abbrev pub due : ℕ → Row → Bool
due now r = is_pending r.status && leb r.next_attempt_at now

-- The order of the select: priority down, then next attempt, then creation.
unfoldable pub before : Row → Row → Bool
before a b =
    ltb_ℤ b.priority a.priority
    || (eq_ℤ a.priority b.priority
        && (ltb a.next_attempt_at b.next_attempt_at
            || ((a.next_attempt_at == b.next_attempt_at) && leb a.created_at b.created_at)))

abbrev pub first_of_two : Row → Option Row → Option Row
first_of_two r none = some r
first_of_two r (some b) = if before r b then some r else some b

-- `orderBy(…).limit(1)`
unfoldable pub first_row : List Row → Option Row
first_row [] = none
first_row (r ∷ rs) = first_of_two r (first_row rs)

abbrev pub claimed_by : MergeConfig → ℕ → ℕ → String → Row → Row
claimed_by c now token agent_id r = record r {
  status = processing;
  claim_owner = some agent_id;
  claim_token = some token;
  claimed_at = some now;
  claim_expires_at = some (now + resolve_claim_ttl_ms c);
  updated_at = now;
}

abbrev pub claimed_row : MergeConfig → ℕ → ℕ → String → Option Row → Option Row
claimed_row c now token agent_id none = none
claimed_row c now token agent_id (some r) = some (claimed_by c now token agent_id r)

abbrev pub claimable : ℕ → ℕ → Row → Bool
claimable now id r = (r.id == id) && due now r

-- The conditional update of a candidate, `none` when the row was lost to another.
unfoldable pub claim_by_id :
    MergeConfig → ℕ → String → (token id : ℕ) → MergeDb → MergeDb × Option Row
claim_by_id c now agent_id token id db = (
  record db { rows = update_where (claimable now id) (claimed_by c now token agent_id) db.rows },
  claimed_row c now token agent_id (find_first (claimable now id) db.rows),
)

-- One round: the select, what others do before the update, and the update. The answer is `none`
-- when no row is due, and else what the update answers.
unfoldable pub claim_round :
    MergeConfig
    → ℕ
    → String
    → (token : ℕ) → (MergeDb → MergeDb)
    → MergeDb
    → MergeDb × Option (Option Row)
unfolding first_row before claim_by_id
claim_round c now agent_id token between db = elim (first_row (filterb (due now) db.rows)) [
  | none ↦ (db, none)
  | some candidate ↦
      let claim = claim_by_id c now agent_id token candidate.id (between db) in
      (claim.0, some claim.1)
]

-- `claimNextPendingQueueItem`: at most as many rounds as `others` has entries, five in the source;
-- each entry is the token drawn and what others do in that round.
unfoldable pub claim_rounds :
    MergeConfig → ℕ → String → List (ℕ × (MergeDb → MergeDb)) → MergeDb → MergeDb × Option Row
claim_rounds c now agent_id [] db = (db, none)
claim_rounds c now agent_id ((token, between) ∷ others) db =
    let r = claim_round c now agent_id token between db in
    elim (r.1) [
      | none ↦ (r.0, none)
      | some (some claimed) ↦ (r.0, some claimed)
      | some none ↦ claim_rounds c now agent_id others r.0
    ]

unfoldable pub finalized :
    ℕ → MergeQueueStatus → (attempt_count next_attempt_at : ℕ) → Option String → Row → Row
finalized now status attempt_count next_attempt_at last_error r = record (unclaimed r) {
  status = status;
  attempt_count = attempt_count;
  next_attempt_at = next_attempt_at;
  last_error = last_error;
  updated_at = now;
}

unfoldable pub finalize_queue_item :
    ℕ
    → (queue_id token : ℕ) → String
    → MergeQueueStatus
    → (attempt_count next_attempt_at : ℕ) → Option String
    → MergeDb
    → MergeDb × Bool
unfolding finalized
finalize_queue_item now queue_id token agent_id status attempt_count next_attempt_at last_error db =
    (
      record db {
        rows =
            update_where (held_by queue_id token agent_id)
              (finalized now status attempt_count next_attempt_at last_error) db.rows;
      },
      any (held_by queue_id token agent_id) db.rows,
    )

abbrev pub owned_processing : String → Row → Bool
owned_processing owner r = is_processing r.status && same_text r.claim_owner owner

unfoldable pub release_merge_queue_claims_by_owner :
    MergeConfig → ℕ → String → MergeDb → MergeDb × ℕ
release_merge_queue_claims_by_owner c now owner db = (
  record db { rows = update_where (owned_processing owner) (back_to_pending c now) db.rows },
  length (filterb (owned_processing owner) db.rows),
)
