-- ===== src/MergeQueue/Histories.antt =====
-- The calls on the merge queue, interleaved in any way, keep the invariant.
use open_tiger.Prelude.{Option-cases, All, ℕ, String, inl, inr, List, [], ◌∷◌}
use open_tiger.MergeQueue.Rows.{MergeDb, MergeConfig}
use open_tiger.MergeQueue.Enqueue.{EnqueueParams, enqueue_merge_queue_item}
use open_tiger.MergeQueue.Claims.{
  recover_expired_claims, renew_claim_lease, claim_rounds, release_merge_queue_claims_by_owner,
}
use open_tiger.MergeQueue.Process.{Tally, Round, process_batch, process_merge_queue}
use open_tiger.MergeQueue.Invariant.{IsConsistent}
use open_tiger.MergeQueue.Steps.{release-IsConsistent, recover-IsConsistent, renew-IsConsistent}
use open_tiger.MergeQueue.Claiming.{Keeps, enqueue-IsConsistent, OthersKeep, claim_rounds-kept}
use open_tiger.MergeQueue.Settling.{process_queue_row-IsConsistent}

abbrev RoundKeeps : MergeConfig → Round → Type 0
RoundKeeps c o = OthersKeep c o.rounds × Keeps c o.meanwhile

process_batch-IsConsistent :
    (c : MergeConfig) (agent_id : String) (os : List Round) (t : Tally)
    → All (RoundKeeps c) os
    → Keeps c (λ db. (process_batch c agent_id os db t).0)
unfolding process_batch
process_batch-IsConsistent c agent_id [] t keep db h = h
process_batch-IsConsistent c agent_id (o ∷ os) t keep db h =
    let (ok, left) = claim_rounds-kept c o.claimed_at agent_id o.rounds keep.0.0 db h in
    let later = process_batch-IsConsistent c agent_id os in
    elim (Option-cases ((claim_rounds c o.claimed_at agent_id o.rounds db).1)) [
      | inl f ↦ rw (process_batch, f) ok
      | inr (r, f) ↦
          rw (process_batch, f)
            (later _ keep.1 _ (
              process_queue_row-IsConsistent c o.finished_at agent_id o.attempt o.escalation
                o.meanwhile r keep.0.1 (left r f) _ ok))
    ]

-- The calls of any number of processes: `Calls c f` says that f is the effect of some, one after
-- another or one inside another, where a call lets others write.
mutual
  pub data Calls (c : MergeConfig) : (MergeDb → MergeDb) → Type 0 where
    idles : Calls c (λ db. db)
    follows : {f g : MergeDb → MergeDb} → Calls c f → Calls c g → Calls c (λ db. g (f db))
    enqueues :
        (now fresh : ℕ) {between : MergeDb → MergeDb} (p : EnqueueParams)
        → Calls c between
        → Calls c (λ db. (enqueue_merge_queue_item c now fresh between p db).0)
    renews :
        (now queue_id token : ℕ) (agent_id : String)
        → Calls c (λ db. renew_claim_lease c now queue_id token agent_id db)
    releases :
        (now : ℕ) (owner : String)
        → Calls c (λ db. (release_merge_queue_claims_by_owner c now owner db).0)
    processes :
        (now : ℕ) (agent_id : String) {first second third : Round}
        → InRound c first
        → InRound c second
        → InRound c third
        → Calls c (λ db. (process_merge_queue c now (λ d. d) agent_id first second third db).0)

  pub data InRound (c : MergeConfig) : Round → Type 0 where
    in_round : {o : Round} → InClaims c o.rounds → Calls c o.meanwhile → InRound c o

  pub data InClaims (c : MergeConfig) : List (ℕ × (MergeDb → MergeDb)) → Type 0 where
    no_claim : InClaims c []
    claims :
        {token : ℕ} {between : MergeDb → MergeDb} {others : List (ℕ × (MergeDb → MergeDb))}
        → Calls c between
        → InClaims c others
        → InClaims c ((token, between) ∷ others)

process_merge_queue-IsConsistent :
    (c : MergeConfig) (now : ℕ) (agent_id : String) (first second third : Round)
    → All (RoundKeeps c) (first ∷ second ∷ third ∷ [])
    → Keeps c (λ db. (process_merge_queue c now (λ d. d) agent_id first second third db).0)
unfolding process_merge_queue
process_merge_queue-IsConsistent c now agent_id first second third keep db h =
    elim (Option-cases ((recover_expired_claims c now (λ d. d) db).1)) [
      | inl threw ↦ rw (process_merge_queue, threw) (recover-IsConsistent c now db h)
      | inr (n, returned) ↦
          rw (process_merge_queue, returned)
            (process_batch-IsConsistent c agent_id (first ∷ second ∷ third ∷ []) _ keep _
              (recover-IsConsistent c now db h))
    ]

mutual
  Calls-Keeps : (c : MergeConfig) {f : MergeDb → MergeDb} → Calls c f → Keeps c f
  Calls-Keeps c idles db h = h
  Calls-Keeps c (follows f g) db h = Calls-Keeps c g _ (Calls-Keeps c f db h)
  Calls-Keeps c (enqueues now fresh p between) db h =
      enqueue-IsConsistent c now fresh _ p (Calls-Keeps c between) db h
  Calls-Keeps c (renews now queue_id token agent_id) db h =
      renew-IsConsistent c now queue_id token agent_id db h
  Calls-Keeps c (releases now owner) db h = release-IsConsistent c now owner db h
  Calls-Keeps c (processes now agent_id first second third) db h =
      process_merge_queue-IsConsistent c now agent_id _ _ _
        (InRound-Keeps c first, (InRound-Keeps c second, (InRound-Keeps c third, tt))) db h

  InRound-Keeps : (c : MergeConfig) {o : Round} → InRound c o → RoundKeeps c o
  InRound-Keeps c (in_round others meanwhile) = (InClaims-Keeps c others, Calls-Keeps c meanwhile)

  InClaims-Keeps :
      (c : MergeConfig) {others : List (ℕ × (MergeDb → MergeDb))}
      → InClaims c others
      → OthersKeep c others
  InClaims-Keeps c no_claim = tt
  InClaims-Keeps c (claims between others) = (Calls-Keeps c between, InClaims-Keeps c others)

-- Whatever sequence of enqueues, renewals, releases and batches any number of processes run, with
-- the writes of others wherever a call lets them in, except inside the recovery of expired claims,
-- and with one configuration: from a table where it is so, no two rows share an id, no pull request has two pending or processing rows,
-- just the rows in process carry an owner, a token and an expiry, and no row uses up more than
-- its attempts, a pending or processing one having at least one left.
pub Calls-IsConsistent :
    (c : MergeConfig) {f : MergeDb → MergeDb}
    → Calls c f
    → (db : MergeDb) → IsConsistent c db
    → IsConsistent c (f db)
Calls-IsConsistent c calls db h = Calls-Keeps c calls db h
