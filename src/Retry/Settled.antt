-- ===== src/Retry/Settled.antt =====
-- What requeueFailedTasksWithCooldown (requeue-failed.ts) does to the status of the tasks that it
-- takes up.
use open_tiger.Prelude.{
  ◌==◌, ==→eq, Bool-cases, All, has_id, ℕ, ◌≡◌, refl, ap₂, ◌∙◌, subst, inl, inr, true, List, [],
  ◌∷◌, arith,
}
use open_tiger.Store.{TaskStatus, Task, update_where}
use open_tiger.Retry.Failed.{
  RetryDb, RetryEnv, Decision, to_judge, adjust_commands, adjust_paths, escalate, retry, decide,
  decided, requeue_failed_task, requeue_each,
}

abbrev pub ids_of : List Task → List ℕ
ids_of [] = []
ids_of (t ∷ ts) = t.id ∷ ids_of ts

abbrev pub QueuedOrBlocked : TaskStatus → Type 0
QueuedOrBlocked TaskStatus.queued = Unit {0}
QueuedOrBlocked TaskStatus.blocked = Unit {0}
QueuedOrBlocked _ = ⊥

-- Every row with the id is queued or blocked.
abbrev pub Settled : ℕ → List Task → Type 0
Settled id rows = All (λ x. (x.id == id) ≡ true → QueuedOrBlocked x.status) rows

pub decided-id : (now count : ℕ) (d : Decision) (t : Task) → (decided now count d t).id ≡ t.id
unfolding decided
decided-id now count to_judge t = refl
decided-id now count (adjust_commands c) t = refl
decided-id now count (adjust_paths p) t = refl
decided-id now count (escalate lane) t = refl
decided-id now count retry t = refl

decided-QueuedOrBlocked :
    (now count : ℕ) (d : Decision) (t : Task) → QueuedOrBlocked (decided now count d t).status
unfolding decided
decided-QueuedOrBlocked now count to_judge t = tt
decided-QueuedOrBlocked now count (adjust_commands c) t = tt
decided-QueuedOrBlocked now count (adjust_paths p) t = tt
decided-QueuedOrBlocked now count (escalate lane) t = tt
decided-QueuedOrBlocked now count retry t = tt

module _ (now count : ℕ) (d : Decision) where
  settles :
      (id : ℕ) (rows : List Task)
      → Settled id (update_where (λ x. x.id == id) (decided now count d) rows)
  settles id [] = tt
  settles id (x ∷ rows) =
      let rest = settles id rows in
      elim (Bool-cases (x.id == id)) [
        | inl e ↦ rw e (λ k. decided-QueuedOrBlocked now count d x, rest)
        | inr e ↦ rw e (λ k. cc (k, e), rest)
      ]

  keeps_Settled :
      (id other : ℕ) (rows : List Task)
      → Settled id rows
      → Settled id (update_where (λ x. x.id == other) (decided now count d) rows)
  keeps_Settled id other [] h = tt
  keeps_Settled id other (x ∷ rows) h =
      let rest = keeps_Settled id other rows h.1 in
      elim (Bool-cases (x.id == other)) [
        | inl e ↦ rw e (λ k. decided-QueuedOrBlocked now count d x, rest)
        | inr e ↦ rw e (h.0, rest)
      ]

  update-ids :
      (id : ℕ) (rows : List Task)
      → ids_of (update_where (λ x. x.id == id) (decided now count d) rows) ≡ ids_of rows
  update-ids id [] = refl
  update-ids id (x ∷ rows) =
      let rest = update-ids id rows in
      elim (Bool-cases (x.id == id)) [
        | inl e ↦ rw e (ap₂ ◌∷◌ (decided-id now count d x) rest)
        | inr e ↦ rw e (ap₂ ◌∷◌ refl rest)
      ]

module _ (io : RetryEnv) (now : ℕ) where
  pub requeue_each-ids :
      (ts : List Task) (db : RetryDb) → ids_of (requeue_each io now ts db).0.tasks ≡ ids_of db.tasks
  unfolding requeue_each requeue_failed_task
  requeue_each-ids [] db = refl
  requeue_each-ids (t ∷ ts) db =
      requeue_each-ids ts (requeue_failed_task io now t db).0
      ∙ update-ids now t.retry_count (decide io t db).1 t.id db.tasks

  requeue_each-keeps :
      (id : ℕ) (ts : List Task) (db : RetryDb)
      → Settled id db.tasks
      → Settled id (requeue_each io now ts db).0.tasks
  unfolding requeue_each requeue_failed_task
  requeue_each-keeps id [] db h = h
  requeue_each-keeps id (t ∷ ts) db h =
      requeue_each-keeps id ts (requeue_failed_task io now t db).0
        (keeps_Settled now t.retry_count (decide io t db).1 id t.id db.tasks h)

  pub requeue_each-Settled :
      (id : ℕ) (ts : List Task) (db : RetryDb)
      → has_id (ids_of ts) id ≡ true
      → Settled id (requeue_each io now ts db).0.tasks
  unfolding requeue_each requeue_failed_task
  requeue_each-Settled id [] db h = cc h
  requeue_each-Settled id (t ∷ ts) db h = elim (Bool-cases (t.id == id)) [
    | inl e ↦ requeue_each-keeps id ts (requeue_failed_task io now t db).0 (
        subst (λ i. Settled i (requeue_failed_task io now t db).0.tasks) (==→eq t.id id e)
          (settles now t.retry_count (decide io t db).1 t.id db.tasks))
    | inr e ↦ requeue_each-Settled id ts (requeue_failed_task io now t db).0 (ground arith)
  ]
