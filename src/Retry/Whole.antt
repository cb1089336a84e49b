-- ===== src/Retry/Whole.antt =====
-- A whole pass over the failed tasks.
use open_tiger.Prelude.{
  ◌==◌, ==→eq, Bool-cases, length, filterb, Within, here, there, All, has_id, ℕ, ◌-◌, ◌≤◌, ◌≡◌,
  refl, sym, ◌∙◌, subst, inl, inr, Bool, true, false, not, List, [], ◌∷◌, arith,
}
use open_tiger.Retry.Settled.{ids_of, Settled, decided-id, requeue_each-ids, requeue_each-Settled}
use open_tiger.Store.{Task, update_where}
use open_tiger.Retry.Failed.{
  RetryDb, RetryEnv, Decision, to_judge, adjust_commands, adjust_paths, escalate, retry, decide,
  decided, requeues, requeue_failed_task, requeue_each, eligible,
  requeue_failed_tasks_with_cooldown,
}

-- The tasks whose ids are not in a list.
abbrev outside : List ℕ → Task → Bool
outside ids t = not (has_id ids t.id)

decided-settled :
    (now count cutoff : ℕ) (d : Decision) (t : Task)
    → eligible cutoff (decided now count d t) ≡ false
unfolding decided
decided-settled now count cutoff to_judge t = refl
decided-settled now count cutoff (adjust_commands c) t = refl
decided-settled now count cutoff (adjust_paths p) t = refl
decided-settled now count cutoff (escalate lane) t = refl
decided-settled now count cutoff retry t = refl

-- Each eligible row is still to come in the list of ids.
abbrev Pending : ℕ → List ℕ → List Task → Type 0
Pending cutoff ids rows = All (λ x. eligible cutoff x ≡ true → has_id ids x.id ≡ true) rows

update-Pending :
    (cutoff id : ℕ) (ids : List ℕ) (f : Task → Task) (rows : List Task)
    → ((x : Task) → eligible cutoff (f x) ≡ false)
    → Pending cutoff (id ∷ ids) rows
    → Pending cutoff ids (update_where (λ x. x.id == id) f rows)
update-Pending cutoff id ids f [] settled h = tt
update-Pending cutoff id ids f (x ∷ rows) settled h =
    let rest = update-Pending cutoff id ids f rows settled h.1 in
    elim (Bool-cases (x.id == id)) [
      | inl e ↦ rw e (λ k. cc (k, settled x), rest)
      | inr e ↦ rw e (λ k. let found = h.0 k in ground arith, rest)
    ]

update-outside :
    (id : ℕ) (ids : List ℕ) (f : Task → Task) (rows : List Task)
    → ((x : Task) → (f x).id ≡ x.id)
    → has_id ids id ≡ true
    → filterb (outside ids) (update_where (λ x. x.id == id) f rows) ≡ filterb (outside ids) rows
update-outside id ids f [] same h = refl
update-outside id ids f (x ∷ rows) same h =
    let rest = update-outside id ids f rows same h in
    elim (Bool-cases (x.id == id)) [
      | inl e ↦
          let known : has_id ids x.id ≡ true =
            subst (λ i. has_id ids i ≡ true) (sym (==→eq x.id id e)) h in
          let off : outside ids x ≡ false = rw known refl in
          let off' : outside ids (f x) ≡ false = rw (same x, known) refl in rw (e, off, off') rest
      | inr e ↦ rw (e, rest) refl
    ]

has_id-ids_of : (t : Task) (ts : List Task) → Within t ts → has_id (ids_of ts) t.id ≡ true
has_id-ids_of t [] w = elim w [ ]
has_id-ids_of t (x ∷ ts) here = ground arith
has_id-ids_of t (x ∷ ts) (there w) = ground (arith, has_id-ids_of t ts w)

abbrev AllListed : List ℕ → List Task → Type 0
AllListed ids ts = All (λ t. has_id ids t.id ≡ true) ts

AllListed-cons :
    (id : ℕ) (ids : List ℕ) (ts : List Task) → AllListed ids ts → AllListed (id ∷ ids) ts
AllListed-cons id ids [] h = tt
AllListed-cons id ids (t ∷ ts) h = (let known = h.0 in ground arith, AllListed-cons id ids ts h.1)

AllListed-ids_of : (ts : List Task) → AllListed (ids_of ts) ts
AllListed-ids_of [] = tt
AllListed-ids_of (t ∷ ts) = (ground arith, AllListed-cons t.id (ids_of ts) ts (AllListed-ids_of ts))

module _ (io : RetryEnv) (now cutoff : ℕ) where
  requeue_each-Pending :
      (ts : List Task) (db : RetryDb)
      → Pending cutoff (ids_of ts) db.tasks
      → Pending cutoff [] (requeue_each io now ts db).0.tasks
  unfolding requeue_each requeue_failed_task
  requeue_each-Pending [] db h = h
  requeue_each-Pending (t ∷ ts) db h = requeue_each-Pending ts (requeue_failed_task io now t db).0 (
      update-Pending cutoff t.id (ids_of ts) (decided now t.retry_count (decide io t db).1) db.tasks
        (decided-settled now t.retry_count cutoff (decide io t db).1) h)

  requeue_each-outside :
      (ids : List ℕ) (ts : List Task) (db : RetryDb)
      → AllListed ids ts
      → filterb (outside ids) (requeue_each io now ts db).0.tasks ≡ filterb (outside ids) db.tasks
  unfolding requeue_each requeue_failed_task
  requeue_each-outside ids [] db h = refl
  requeue_each-outside ids (t ∷ ts) db h =
      requeue_each-outside ids ts (requeue_failed_task io now t db).0 h.1
      ∙ update-outside t.id ids (decided now t.retry_count (decide io t db).1) db.tasks
          (decided-id now t.retry_count (decide io t db).1) h.0

  requeues-le : (d : Decision) → requeues d ≤ 1
  requeues-le to_judge = omega arith
  requeues-le (adjust_commands c) = omega arith
  requeues-le (adjust_paths p) = omega arith
  requeues-le (escalate lane) = omega arith
  requeues-le retry = omega arith

  requeue_each-le : (ts : List Task) (db : RetryDb) → (requeue_each io now ts db).1 ≤ length ts
  unfolding requeue_each requeue_failed_task
  requeue_each-le [] db = omega arith
  requeue_each-le (t ∷ ts) db = omega (
    arith,
    requeue_each-le ts (requeue_failed_task io now t db).0,
    requeues-le (decide io t db).1,
  )

Within-filter :
    (cutoff : ℕ) (x : Task) (rows : List Task)
    → eligible cutoff x ≡ true
    → Within x rows
    → Within x (filterb (eligible cutoff) rows)
Within-filter cutoff x [] e w = elim w [ ]
Within-filter cutoff x (y ∷ rows) e here = rw e here
Within-filter cutoff x (y ∷ rows) e (there w) =
    let later = Within-filter cutoff x rows e w in
    elim (Bool-cases (eligible cutoff y)) [ inl f ↦ rw f (there later) | inr f ↦ rw f later ]

Pending-start :
    (cutoff : ℕ) (rows later : List Task)
    → ((x : Task) → Within x later → Within x rows)
    → Pending cutoff (ids_of (filterb (eligible cutoff) rows)) later
Pending-start cutoff rows [] sub = tt
Pending-start cutoff rows (x ∷ later) sub = (
  λ e.
      has_id-ids_of x (filterb (eligible cutoff) rows) (Within-filter cutoff x rows e (sub x here)),
  Pending-start cutoff rows later (λ y w. sub y (there w)),
)

Pending-nil :
    (cutoff : ℕ) (rows : List Task) → Pending cutoff [] rows → filterb (eligible cutoff) rows ≡ []
Pending-nil cutoff [] h = refl
Pending-nil cutoff (x ∷ rows) h = elim (Bool-cases (eligible cutoff x)) [
  | inl e ↦ cc (h.0 e)
  | inr e ↦ rw e (Pending-nil cutoff rows h.1)
]

-- What a pass leaves: no failed task past the cooldown; those that had failed queued or blocked;
-- the same tasks in the same order, the others as they were; and an answer no greater than the
-- number of those that had failed.
pub record SettlesFailed (cutoff : ℕ) (db : RetryDb) (result : RetryDb × ℕ) : Type 0 where
  pub none_left : filterb (eligible cutoff) result.0.tasks ≡ []
  pub settled :
      (id : ℕ)
      → has_id (ids_of (filterb (eligible cutoff) db.tasks)) id ≡ true
      → Settled id result.0.tasks
  pub same_ids : ids_of result.0.tasks ≡ ids_of db.tasks
  pub others_kept :
      filterb (outside (ids_of (filterb (eligible cutoff) db.tasks))) result.0.tasks
      ≡ filterb (outside (ids_of (filterb (eligible cutoff) db.tasks))) db.tasks
  pub counted : result.1 ≤ length (filterb (eligible cutoff) db.tasks)

-- After a pass no task that has failed before the cooldown is left failed: each, by its id, is in
-- the table, queued again or blocked. The ids of the tasks are the same, in the same order; tasks
-- with other ids are as they were; and the answer is at most the number of those that had failed.
pub requeue_failed_tasks-SettlesFailed :
    (io : RetryEnv) (now cooldown_ms : ℕ) (db : RetryDb)
    → SettlesFailed
        (now - cooldown_ms)
        db
        (requeue_failed_tasks_with_cooldown io now cooldown_ms db)
unfolding requeue_failed_tasks_with_cooldown
requeue_failed_tasks-SettlesFailed io now cooldown_ms db =
    let cutoff = now - cooldown_ms in
    let failed = filterb (eligible cutoff) db.tasks in
    record {
      none_left = Pending-nil cutoff _ (
          requeue_each-Pending io now cutoff failed db
            (Pending-start cutoff db.tasks db.tasks (λ x w. w)));
      settled = λ id member. requeue_each-Settled io now id failed db member;
      same_ids = requeue_each-ids io now failed db;
      others_kept =
          requeue_each-outside io now cutoff (ids_of failed) failed db (AllListed-ids_of failed);
      counted = requeue_each-le io now cutoff failed db;
    }
