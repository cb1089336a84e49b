-- ===== src/MergeQueue/Tests.antt =====
-- Runs of the merge queue on small tables.
use open_tiger.MergeQueue.Recover.{RecoverOutcome, recover_overwrites}
use open_tiger.MergeQueue.Fencing.{finalize-once, process_queue_row-lost, recover-fences}
use open_tiger.MergeQueue.Once.{enqueue-twice}
use open_tiger.Prelude.{filterb, here, there, pos, ℕ, ◌+◌, ◌≡◌, refl, false, none, some, [], ◌∷◌}
use open_tiger.MergeQueue.Rows.{
  MergeQueueStatus, pending, Row, MergeDb, MergeConfig, resolve_retry_delay_ms,
  resolve_claim_ttl_ms,
}
use open_tiger.MergeQueue.Enqueue.{
  EnqueueParams, existing_active_queue, get_active_queue_by_pr_number, get_queue_by_source_pair,
  new_row, existing_row, insert_row, enqueue_merge_queue_item,
}
use open_tiger.MergeQueue.Claims.{
  claim_expired, recovered_rows, recover_expired_claims, claimed_by, claim_round,
  finalize_queue_item, release_merge_queue_claims_by_owner,
}
use open_tiger.MergeQueue.Process.{
  created, not_recreated, merges, defers, process_queue_row, Round, process_merge_queue,
}
use open_tiger.MergeQueue.Invariant.{UniqueKeys, IsConsistent}
use open_tiger.MergeQueue.Histories.{
  Calls, idles, follows, enqueues, processes, InRound, in_round, no_claim, claims,
  Calls-IsConsistent,
}
use open_tiger.MergeQueue.Laws.{ClaimsFirstDue, claim_round-ClaimsFirstDue}

abbrev config : MergeConfig
config = record { retry_delay_ms = none; claim_ttl_ms = some 0; max_attempts = some 2 }

abbrev request : EnqueueParams
request = record { pr_number = 7; task_id = 1; run_id = 11; priority = pos 5; reason = none }

abbrev empty_db : MergeDb
empty_db = record { rows = []; tasks = []; events = [] }

empty_db-IsConsistent : IsConsistent config empty_db
empty_db-IsConsistent = record { rows_ok = tt; one_active = tt; unique_keys = tt }

abbrev waiting : ℕ → ℕ → Row
waiting id priority = record (new_row config 1000 id request) {
  pr_number = 100 + id;
  priority = pos priority;
}

abbrev held : Row
held = claimed_by config 1000 77 "judge-1" (waiting 3 1)

abbrev db3 : MergeDb
db3 = record { rows = waiting 1 2 ∷ waiting 2 9 ∷ held ∷ []; tasks = []; events = [] }

db3-UniqueKeys : UniqueKeys db3.rows
db3-UniqueKeys = (refl, (refl, (refl, tt)))

abbrev round : Round
round = record {
  claimed_at = 1000;
  rounds = (77, λ db. db) ∷ [];
  finished_at = 1500;
  attempt = defers (some "behind_base");
  escalation = record { auto_fix = created; recreate = not_recreated };
  meanwhile = λ db. (enqueue_merge_queue_item config 1200 2 (λ x. x) request db).0;
}

quiet : Calls config (λ db. db)
quiet = idles

InRound-sample : InRound config round
InRound-sample = in_round (claims quiet no_claim) (enqueues 1200 2 request quiet)

Calls-IsConsistent_example :
    IsConsistent config
      (process_merge_queue config 1000
        (λ d. d)
        "judge-1"
        round
        round
        round
        (enqueue_merge_queue_item config 900 1 (λ x. x) request empty_db).0).0
Calls-IsConsistent_example =
    Calls-IsConsistent config
      (follows (enqueues 900 1 request quiet)
        (processes 1000 "judge-1" InRound-sample InRound-sample InRound-sample))
      empty_db empty_db-IsConsistent

claim_round-ClaimsFirstDue_example :
    ClaimsFirstDue config 2000 "judge-2" 5 db3 (claim_round config 2000 "judge-2" 5 (λ x. x) db3)
claim_round-ClaimsFirstDue_example =
    claim_round-ClaimsFirstDue config 2000 "judge-2" 5 db3 db3-UniqueKeys

finalize-once_example :
    finalize_queue_item 9 3 77 "judge-1" pending 1 2 none
      (finalize_queue_item 8 3 77 "judge-1" MergeQueueStatus.merged 1 8 none db3).0
    ≡ ((finalize_queue_item 8 3 77 "judge-1" MergeQueueStatus.merged 1 8 none db3).0, false)
finalize-once_example =
    finalize-once 8 9 3 77 "judge-1" MergeQueueStatus.merged pending 1 1 8 2 none none db3 refl

process_queue_row-lost_example :
    (process_queue_row config 9000 "judge-1" merges
      (record { auto_fix = created; recreate = not_recreated })
      (λ x. (release_merge_queue_claims_by_owner config 8000 "judge-1" x).0)
      held
      db3).0
    ≡ (release_merge_queue_claims_by_owner config 8000 "judge-1" db3).0
unfolding release_merge_queue_claims_by_owner
process_queue_row-lost_example =
    process_queue_row-lost config 9000 "judge-1" merges
      (record { auto_fix = created; recreate = not_recreated })
      (λ x. (release_merge_queue_claims_by_owner config 8000 "judge-1" x).0) held 77 db3 refl refl

recover-fences_example :
    (process_queue_row config 600000 "judge-1" merges
      (record { auto_fix = created; recreate = not_recreated })
      (λ x. (recover_expired_claims config 500000 (λ d. d) x).0)
      held
      db3).0
    ≡ (recover_expired_claims config 500000 (λ d. d) db3).0
unfolding resolve_claim_ttl_ms
recover-fences_example =
    recover-fences config 500000 600000 "judge-1" merges
      (record { auto_fix = created; recreate = not_recreated }) held 77 db3 db3-UniqueKeys
      (there (there here)) refl refl

enqueue-twice_example :
    enqueue_merge_queue_item config 950 2
      (λ x. x)
      request
      (enqueue_merge_queue_item config 900 1 (λ x. x) request empty_db).0
    ≡ (
      (enqueue_merge_queue_item config 900 1 (λ x. x) request empty_db).0,
      existing_active_queue 1 pending,
    )
unfolding enqueue_merge_queue_item insert_row existing_row get_active_queue_by_pr_number
    get_queue_by_source_pair
enqueue-twice_example =
    enqueue-twice config config 900 950 1 2 1 (λ x. x) (λ x. x) request request empty_db refl refl

-- The holder finishes its merge while the recovery is under way.
abbrev merged_meanwhile : MergeDb → MergeDb
merged_meanwhile d =
    (finalize_queue_item 500000 3 77 "judge-1" MergeQueueStatus.merged 1 500000 none d).0

recover_overwrites_example :
    RecoverOutcome 3
      (recovered_rows config 500000
        (filterb (claim_expired 500000) db3.rows)
        (merged_meanwhile db3).rows)
      (merged_meanwhile db3)
      (recover_expired_claims config 500000 merged_meanwhile db3)
unfolding resolve_claim_ttl_ms
recover_overwrites_example =
    recover_overwrites config 500000 merged_meanwhile db3 held (there (there here)) refl

merge_undone : (recover_expired_claims config 500000 merged_meanwhile db3).1 ≡ some 1
unfolding recover_expired_claims finalize_queue_item resolve_claim_ttl_ms resolve_retry_delay_ms
merge_undone = refl

-- Then the pull request is enqueued again, for another run: the update fails on the index.
recovery_throws :
    (recover_expired_claims config 500000
      (λ d.
        (enqueue_merge_queue_item config 500000 9
          (λ x. x)
          (record request { pr_number = held.pr_number; run_id = 99 })
          (merged_meanwhile d)).0)
      db3).1
    ≡ none
unfolding recover_expired_claims finalize_queue_item resolve_claim_ttl_ms resolve_retry_delay_ms
    enqueue_merge_queue_item insert_row existing_row get_active_queue_by_pr_number
    get_queue_by_source_pair
recovery_throws = refl
