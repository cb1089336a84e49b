-- ===== src/MergeQueue/Fencing.antt =====
-- Who may write a claimed row, and for how long.
use open_tiger.MergeQueue.Enqueue.{has_key}
use open_tiger.MergeQueue.Invariant.{UniqueKeys}
use open_tiger.MergeQueue.Recover.{recover-rows, update_absent, key-apart}
use open_tiger.Prelude.{
  ltb, Bool-cases, any, Within, here, there, All, ℕ, ◌+◌, String, ◌≡◌, refl, sym, subst, inl, inr,
  Bool, true, false, Option, none, some, List, [], ◌∷◌, arith,
}
use open_tiger.Store.{update_where}
use open_tiger.MergeQueue.Rows.{
  MergeQueueStatus, pending, merged, failed, Row, MergeDb, is_processing, MergeConfig,
  resolve_retry_delay_ms,
}
use open_tiger.MergeQueue.Claims.{
  claim_expired, back_to_pending, recover_expired_claims, held_by, finalized, finalize_queue_item,
}
use open_tiger.MergeQueue.Process.{
  Escalation, MergeAttempt, throws, merges, defers, after_requeue, after_spent, after_spent_thrown,
  after_merged, requeue, spend, give_back, give_back_thrown, finish_merged, deferred_reason, settle,
  process_queue_row,
}

any-update_off :
    (q p : Row → Bool) (f : Row → Row) (rs : List Row)
    → ((r : Row) → q r ≡ true → p (f r) ≡ false)
    → All (λ r. q r ≡ false → p r ≡ false) rs
    → any p (update_where q f rs) ≡ false
any-update_off q p f [] off rest = refl
any-update_off q p f (r ∷ rs) off rest =
    let later = any-update_off q p f rs off rest.1 in
    elim (Bool-cases (q r)) [
      | inl e ↦ rw (e, off r e, later) refl
      | inr e ↦ rw (e, rest.0 e, later) refl
    ]

not_held :
    (queue_id token : ℕ) (owner : String) (r : Row)
    → is_processing r.status ≡ false
    → held_by queue_id token owner r ≡ false
not_held queue_id token owner r h = ground arith

held-off :
    (queue_id token : ℕ) (owner : String) (rs : List Row)
    → All (λ r. held_by queue_id token owner r ≡ false → held_by queue_id token owner r ≡ false) rs
held-off queue_id token owner [] = tt
held-off queue_id token owner (r ∷ rs) = (λ h. h, held-off queue_id token owner rs)

module _ (now queue_id token : ℕ) (owner : String) where
  finalize-lost :
      (s : MergeQueueStatus) (n next : ℕ) (error : Option String) (db : MergeDb)
      → any (held_by queue_id token owner) db.rows ≡ false
      → finalize_queue_item now queue_id token owner s n next error db ≡ (db, false)
  unfolding finalize_queue_item
  finalize-lost s n next error db h =
      rw (update_absent (held_by queue_id token owner) (finalized now s n next error) db.rows h, h)
        refl

  -- After a write that ends the claim, no row is held under it.
  ended :
      (s : MergeQueueStatus) (n next : ℕ) (error : Option String) (db : MergeDb)
      → is_processing s ≡ false
      → any
          (held_by queue_id token owner)
          (finalize_queue_item now queue_id token owner s n next error db).0.rows
        ≡ false
  unfolding finalize_queue_item finalized
  ended s n next error db h =
      any-update_off (held_by queue_id token owner) (held_by queue_id token owner)
        (finalized now s n next error) db.rows
        (λ r e. not_held queue_id token owner (finalized now s n next error r) h)
        (held-off queue_id token owner db.rows)

-- A claim is ended at most once: after a write that ends it with a status other than processing,
-- any later write under the same row, token and owner changes nothing and reports the loss.
pub finalize-once :
    (now now' queue_id token : ℕ) (owner : String) (s s' : MergeQueueStatus) (n n' next next' : ℕ)
    (error error' : Option String) (db : MergeDb)
    → is_processing s ≡ false
    → finalize_queue_item now' queue_id token owner s' n' next' error'
        (finalize_queue_item now queue_id token owner s n next error db).0
      ≡ ((finalize_queue_item now queue_id token owner s n next error db).0, false)
finalize-once now now' queue_id token owner s s' n n' next next' error error' db h =
    finalize-lost now' queue_id token owner s' n' next' error'
      (finalize_queue_item now queue_id token owner s n next error db).0
      (ended now queue_id token owner s n next error db h)

settle-lost :
    (c : MergeConfig) (now : ℕ) (agent_id : String) (e : Escalation) (r : Row) (token : ℕ)
    (attempt : MergeAttempt) (db : MergeDb)
    → any (held_by r.id token agent_id) db.rows ≡ false
    → (settle c now agent_id e r token attempt db).0 ≡ db
unfolding settle give_back give_back_thrown finish_merged requeue spend after_requeue after_spent
    after_spent_thrown after_merged
settle-lost c now agent_id e r token merges db h =
    rw (finalize-lost now r.id token agent_id merged (r.attempt_count + 1) now none db h) refl
settle-lost c now agent_id e r token (defers reason) db h =
    let text = some (deferred_reason reason) in
    elim (Bool-cases (ltb (r.attempt_count + 1) r.max_attempts)) [
      | inl t ↦
          rw
            (
              t,
              finalize-lost now r.id token agent_id pending (r.attempt_count + 1)
                  (now + resolve_retry_delay_ms c) text db h,
            )
            refl
      | inr t ↦
          rw (t, finalize-lost now r.id token agent_id failed (r.attempt_count + 1) now text db h)
            refl
    ]
settle-lost c now agent_id e r token (throws reason) db h =
    elim (Bool-cases (ltb (r.attempt_count + 1) r.max_attempts)) [
      | inl t ↦
          rw
            (
              t,
              finalize-lost now r.id token agent_id pending (r.attempt_count + 1)
                  (now + resolve_retry_delay_ms c) (some reason) db h,
            )
            refl
      | inr t ↦
          rw
            (
              t,
              finalize-lost now r.id token agent_id failed (r.attempt_count + 1) now (some reason)
                  db h,
            )
            refl
    ]

-- A worker whose claim is no longer held when its merge attempt ends, because it was recovered,
-- released or taken by another, leaves the queue, the tasks and the events as others wrote them,
-- whatever the attempt gave.
pub process_queue_row-lost :
    (c : MergeConfig) (now : ℕ) (agent_id : String) (attempt : MergeAttempt) (e : Escalation)
    (meanwhile : MergeDb → MergeDb) (r : Row) (token : ℕ) (db : MergeDb)
    → r.claim_token ≡ some token
    → any (held_by r.id token agent_id) (meanwhile db).rows ≡ false
    → (process_queue_row c now agent_id attempt e meanwhile r db).0 ≡ meanwhile db
unfolding process_queue_row
process_queue_row-lost c now agent_id attempt e meanwhile r token db t h =
    rw (process_queue_row, t) (settle-lost c now agent_id e r token attempt (meanwhile db) h)

no_twin :
    (now token : ℕ) (owner : String) (r : Row) (rs : List Row)
    → claim_expired now r ≡ true
    → any (has_key r.id) rs ≡ false
    → All (λ x. claim_expired now x ≡ false → held_by r.id token owner x ≡ false) rs
no_twin now token owner r [] h u = tt
no_twin now token owner r (x ∷ rs) h u =
    (λ e. ground arith, no_twin now token owner r rs h (ground arith))

expired_or_apart :
    (now token : ℕ) (owner : String) (r : Row) (rs : List Row)
    → claim_expired now r ≡ true
    → UniqueKeys rs
    → Within r rs
    → All (λ x. claim_expired now x ≡ false → held_by r.id token owner x ≡ false) rs
expired_or_apart now token owner r [] h u w = elim w [ ]
expired_or_apart now token owner r (x ∷ rs) h u here =
    (λ e. cc (h, e), no_twin now token owner r rs h u.0)
expired_or_apart now token owner r (x ∷ rs) h u (there w) = (
  λ e. let apart = key-apart r x rs u.0 w in ground arith,
  expired_or_apart now token owner r rs h u.1 w,
)

-- Recovery fences out a slow worker: with ids unique, once a row's claim has expired and
-- recovery has run, undisturbed, during the worker's merge attempt, the worker changes nothing
-- more.
pub recover-fences :
    (c : MergeConfig) (now later : ℕ) (agent_id : String) (attempt : MergeAttempt) (e : Escalation)
    (r : Row) (token : ℕ) (db : MergeDb)
    → UniqueKeys db.rows
    → Within r db.rows
    → r.claim_token ≡ some token
    → claim_expired now r ≡ true
    → (process_queue_row c later agent_id attempt e
        (λ x. (recover_expired_claims c now (λ d. d) x).0)
        r
        db).0
      ≡ (recover_expired_claims c now (λ d. d) db).0
recover-fences c now later agent_id attempt e r token db u w t expired =
    process_queue_row-lost c later agent_id attempt e
      (λ x. (recover_expired_claims c now (λ d. d) x).0) r token db t
      (subst (λ x. any (held_by r.id token agent_id) x ≡ false) (sym (recover-rows c now db u))
        (any-update_off (claim_expired now) (held_by r.id token agent_id) (back_to_pending c now)
          db.rows (λ x k. not_held r.id token agent_id (back_to_pending c now x) refl)
          (expired_or_apart now token agent_id r db.rows expired u w)))
