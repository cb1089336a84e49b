-- ===== src/MergeQueue/Settling.antt =====
-- What ends a claim keeps the invariant.
use open_tiger.Prelude.{
  ltb, ◌==◌, ltb→lt, Bool-cases, Option-cases, if_both, any, All, ℕ, ◌+◌, String, ◌≡◌, refl, sym,
  subst, inl, inr, Bool, true, false, none, some, arith,
}
use open_tiger.MergeQueue.Rows.{
  pending, merged, failed, Row, MergeDb, MergeConfig, resolve_retry_delay_ms, resolve_max_attempts,
}
use open_tiger.MergeQueue.Process.{
  AutoFix, created, already_active, attempt_limit_reached, other_reason, Recreate, recreated,
  already_recreating, not_recreated, Escalation, MergeAttempt, throws, merges, defers,
  after_recreate, after_auto_fix, process_queue_failure_escalation, after_requeue, after_spent,
  after_spent_thrown, after_merged, requeue, spend, give_back, give_back_thrown, finish_merged,
  deferred_reason, settle, process_queue_row,
}
use open_tiger.MergeQueue.Invariant.{RowOk, OneActive, UniqueKeys, IsConsistent}
use open_tiger.MergeQueue.Steps.{finalize-IsConsistent}
use open_tiger.MergeQueue.Claiming.{Keeps, Attemptable}

-- Writes outside the queue's rows keep the invariant.
same-rows :
    (c : MergeConfig) (db db' : MergeDb)
    → db'.rows ≡ db.rows
    → IsConsistent c db
    → IsConsistent c db'
same-rows c db db' e h = record {
  rows_ok = subst (λ x. All (RowOk (resolve_max_attempts c)) x) (sym e) h.rows_ok;
  one_active = subst (λ x. OneActive x) (sym e) h.one_active;
  unique_keys = subst (λ x. UniqueKeys x) (sym e) h.unique_keys;
}

after_recreate-rows :
    (now id : ℕ) (x : Recreate) (db : MergeDb) → (after_recreate now id x db).rows ≡ db.rows
after_recreate-rows now id recreated db = refl
after_recreate-rows now id already_recreating db = refl
after_recreate-rows now id not_recreated db = refl

after_auto_fix-rows :
    (now id : ℕ) (e : Escalation) (x : AutoFix) (db : MergeDb)
    → (after_auto_fix now id e x db).rows ≡ db.rows
after_auto_fix-rows now id e created db = refl
after_auto_fix-rows now id e already_active db = refl
after_auto_fix-rows now id e attempt_limit_reached db = after_recreate-rows now id e.recreate db
after_auto_fix-rows now id e other_reason db = refl

escalation-rows :
    (now : ℕ) (e : Escalation) (r : Row) (db : MergeDb)
    → (process_queue_failure_escalation now e r db).rows ≡ db.rows
unfolding process_queue_failure_escalation
escalation-rows now e r db =
    if_both (λ x. x.rows ≡ db.rows) (any (λ t. t.id == r.task_id) db.tasks)
      (after_auto_fix now r.task_id e e.auto_fix db) db
      (λ t. after_auto_fix-rows now r.task_id e e.auto_fix db) (λ t. refl)

module _ (c : MergeConfig) (now : ℕ) (e : Escalation) (r : Row) where
  after_requeue-IsConsistent : (ok : Bool) → Keeps c (λ db. (after_requeue r ok db).0)
  unfolding after_requeue
  after_requeue-IsConsistent true db h = same-rows c db _ refl h
  after_requeue-IsConsistent false db h = h

  after_spent-IsConsistent : (ok : Bool) → Keeps c (λ db. (after_spent now e r ok db).0)
  unfolding after_spent
  after_spent-IsConsistent true db h = same-rows c db _ (escalation-rows now e r db) h
  after_spent-IsConsistent false db h = h

  after_spent_thrown-IsConsistent :
      (ok : Bool) → Keeps c (λ db. (after_spent_thrown now e r ok db).0)
  unfolding after_spent_thrown
  after_spent_thrown-IsConsistent true db h = same-rows c db _ (escalation-rows now e r db) h
  after_spent_thrown-IsConsistent false db h = h

  after_merged-IsConsistent : (ok : Bool) → Keeps c (λ db. (after_merged now r ok db).0)
  unfolding after_merged
  after_merged-IsConsistent true db h = same-rows c db _ refl h
  after_merged-IsConsistent false db h = h

module _ (c : MergeConfig) (now : ℕ) (agent_id : String) (e : Escalation) (r : Row) (token : ℕ)
    (left : Attemptable c r) where
  finish_merged-IsConsistent : Keeps c (λ db. (finish_merged now agent_id r token db).0)
  unfolding finish_merged
  finish_merged-IsConsistent db h = after_merged-IsConsistent c now e r _ _ (
      finalize-IsConsistent c now r.id token agent_id merged (r.attempt_count + 1) now none db refl
        (omega (arith, left.0)) h)

  requeue-IsConsistent :
      (reason : String) (db : MergeDb)
      → ltb (r.attempt_count + 1) r.max_attempts ≡ true
      → IsConsistent c db
      → IsConsistent c (requeue c now agent_id r token reason db).0
  unfolding requeue
  requeue-IsConsistent reason db t h =
      finalize-IsConsistent c now r.id token agent_id pending (r.attempt_count + 1)
        (now + resolve_retry_delay_ms c) (some reason) db refl
        (let below = ltb→lt (r.attempt_count + 1) r.max_attempts t in omega (arith, left.1)) h

  spend-IsConsistent : (reason : String) → Keeps c (λ db. (spend now agent_id r token reason db).0)
  unfolding spend
  spend-IsConsistent reason db h =
      finalize-IsConsistent c now r.id token agent_id failed (r.attempt_count + 1) now (some reason)
        db refl (omega (arith, left.0)) h

  give_back-IsConsistent :
      (reason : String) → Keeps c (λ db. (give_back c now agent_id e r token reason db).0)
  unfolding give_back
  give_back-IsConsistent reason db h =
      elim (Bool-cases (ltb (r.attempt_count + 1) r.max_attempts)) [
        | inl t ↦
            rw (give_back, t)
              (after_requeue-IsConsistent c now e r _ _ (requeue-IsConsistent reason db t h))
        | inr t ↦
            rw (give_back, t)
              (after_spent-IsConsistent c now e r _ _ (spend-IsConsistent reason db h))
      ]

  give_back_thrown-IsConsistent :
      (reason : String) → Keeps c (λ db. (give_back_thrown c now agent_id e r token reason db).0)
  unfolding give_back_thrown
  give_back_thrown-IsConsistent reason db h =
      elim (Bool-cases (ltb (r.attempt_count + 1) r.max_attempts)) [
        | inl t ↦ rw (give_back_thrown, t) (requeue-IsConsistent reason db t h)
        | inr t ↦
            rw (give_back_thrown, t)
              (after_spent_thrown-IsConsistent c now e r _ _ (spend-IsConsistent reason db h))
      ]

  settle-IsConsistent :
      (attempt : MergeAttempt) → Keeps c (λ db. (settle c now agent_id e r token attempt db).0)
  unfolding settle
  settle-IsConsistent merges db h = finish_merged-IsConsistent db h
  settle-IsConsistent (defers reason) db h = give_back-IsConsistent (deferred_reason reason) db h
  settle-IsConsistent (throws reason) db h = give_back_thrown-IsConsistent reason db h

pub process_queue_row-IsConsistent :
    (c : MergeConfig) (now : ℕ) (agent_id : String) (attempt : MergeAttempt) (e : Escalation)
    (meanwhile : MergeDb → MergeDb) (r : Row)
    → Keeps c meanwhile
    → Attemptable c r
    → Keeps c (λ db. (process_queue_row c now agent_id attempt e meanwhile r db).0)
unfolding process_queue_row
process_queue_row-IsConsistent c now agent_id attempt e meanwhile r keep left db h =
    elim (Option-cases r.claim_token) [
      | inl f ↦ rw (process_queue_row, f) h
      | inr (token, f) ↦
          rw (process_queue_row, f)
            (settle-IsConsistent c now agent_id e r token left attempt (meanwhile db) (keep db h))
    ]
