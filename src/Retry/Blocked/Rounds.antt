-- ===== src/Retry/Blocked/Rounds.antt =====
-- What a round of requeueBlockedTasksWithCooldown
-- (apps/cycle-manager/src/cleaners/cleanup-retry/requeue-blocked.ts) does to the ids of the table
-- and to the other active rows.
use open_tiger.Prelude.{
  leb, ◌==◌, if◌then◌else◌, Bool-cases, if_both, count_if, count_if-append, All, DistinctIds, ℕ,
  ◌+◌, ◌≤◌, ◌≡◌, refl, inl, inr, false, none, some, List, [], ◌∷◌, arith,
}
use open_tiger.Store.{Task, update_where}
use open_tiger.Retry.Failed.{RetryDb}
use open_tiger.Retry.Rework.{rework_task}
use open_tiger.Retry.Blocked.{BlockedEnv}
use open_tiger.Retry.Blocked.Decide.{
  BlockedDecision, leave_blocked, back_to_judge, requeue_blocked, requeue_commands, requeue_paths,
  keep_suppressed, cancel_blocked, route_source, split_rework, decide_blocked,
}
use open_tiger.Retry.Blocked.Pass.{
  own_update, by_id, to_awaiting, other_writes, apply_blocked, requeue_blocked_task,
}
use open_tiger.Retry.Blocked.Growth.{active_with, to_awaiting-keeps}

abbrev pub task_ids : List Task → List ℕ
task_ids [] = []
task_ids (t ∷ ts) = t.id ∷ task_ids ts

abbrev pub generated : (ℕ → ℕ) → List Task → List ℕ
generated fresh [] = []
generated fresh (t ∷ ts) = fresh t.id ∷ generated fresh ts

-- Ids are unique: those of the table, those of the tasks to come, and the generated ones, which
-- the table does not use.
pub record FreshIds (fresh : ℕ → ℕ) (ts tasks : List Task) : Type 0 where
  pub unique : (id : ℕ) → count_if (by_id id) tasks ≤ 1
  pub apart : DistinctIds (task_ids ts)
  pub distinct : DistinctIds (generated fresh ts)
  pub unused : All (λ t. count_if (by_id (fresh t.id)) tasks ≡ 0) ts

abbrev pub Present : List Task → List Task → Type 0
Present ts tasks = All (λ t. 1 ≤ count_if (active_with t.id) tasks) ts

own_update-id :
    (now count : ℕ) (d : BlockedDecision) (x : Task) → (own_update now count d x).id ≡ x.id
own_update-id now count leave_blocked x = refl
own_update-id now count back_to_judge x = refl
own_update-id now count requeue_blocked x = refl
own_update-id now count (requeue_commands commands) x = refl
own_update-id now count (requeue_paths paths) x = refl
own_update-id now count keep_suppressed x = refl
own_update-id now count cancel_blocked x = refl
own_update-id now count (route_source source) x = refl
own_update-id now count split_rework x = refl

-- An update that keeps ids keeps how often an id stands in the table.
update-ids :
    (id own : ℕ) (f : Task → Task) (xs : List Task)
    → ((x : Task) → (f x).id ≡ x.id)
    → count_if (by_id id) (update_where (by_id own) f xs) ≡ count_if (by_id id) xs
update-ids id own f [] same = refl
update-ids id own f (x ∷ xs) same =
    let rest = update-ids id own f xs same in
    elim (Bool-cases (x.id == own)) [ inl e ↦ rw (e, same x, rest) | inr e ↦ rw (e, rest) ]

-- An update of one id leaves the active rows of another.
update-others :
    (id own : ℕ) (f : Task → Task) (xs : List Task)
    → ((x : Task) → (f x).id ≡ x.id)
    → (id == own) ≡ false
    → count_if (active_with id) (update_where (by_id own) f xs) ≡ count_if (active_with id) xs
update-others id own f [] same other = refl
update-others id own f (x ∷ xs) same other =
    let rest = update-others id own f xs same other in
    elim (Bool-cases (x.id == own)) [
      | inl e ↦ let off : (x.id == id) ≡ false = ground arith in rw (e, same x, off, rest)
      | inr e ↦ rw (e, rest)
    ]

rework-count :
    (io : BlockedEnv) (now fresh : ℕ) (t : Task) (id : ℕ)
    → count_if (by_id id) (rework_task io.fs io.rs now fresh t ∷ [])
      ≡ (if fresh == id then 1 else 0)
unfolding rework_task
rework-count io now fresh t id = omega arith

-- The other writes add at most the generated id.
other_writes-ids :
    (io : BlockedEnv) (now fresh : ℕ) (t : Task) (d : BlockedDecision) (id : ℕ) (xs : List Task)
    → count_if (by_id id) (other_writes io now fresh t d xs)
      ≤ count_if (by_id id) xs + (if fresh == id then 1 else 0)
other_writes-ids io now fresh t leave_blocked id xs = omega arith
other_writes-ids io now fresh t back_to_judge id xs = omega arith
other_writes-ids io now fresh t requeue_blocked id xs = omega arith
other_writes-ids io now fresh t (requeue_commands commands) id xs = omega arith
other_writes-ids io now fresh t (requeue_paths paths) id xs = omega arith
other_writes-ids io now fresh t keep_suppressed id xs = omega arith
other_writes-ids io now fresh t cancel_blocked id xs = omega arith
other_writes-ids io now fresh t (route_source none) id xs = omega arith
other_writes-ids io now fresh t (route_source (some s)) id xs =
    omega (arith, update-ids id s (to_awaiting now) xs (λ x. refl))
other_writes-ids io now fresh t split_rework id xs = omega (
  arith,
  count_if-append (by_id id) xs (rework_task io.fs io.rs now fresh t ∷ []),
  rework-count io now fresh t id,
)

other_writes-active :
    (io : BlockedEnv) (now fresh : ℕ) (t : Task) (d : BlockedDecision) (id : ℕ) (xs : List Task)
    → count_if (active_with id) xs ≤ count_if (active_with id) (other_writes io now fresh t d xs)
other_writes-active io now fresh t leave_blocked id xs = omega arith
other_writes-active io now fresh t back_to_judge id xs = omega arith
other_writes-active io now fresh t requeue_blocked id xs = omega arith
other_writes-active io now fresh t (requeue_commands commands) id xs = omega arith
other_writes-active io now fresh t (requeue_paths paths) id xs = omega arith
other_writes-active io now fresh t keep_suppressed id xs = omega arith
other_writes-active io now fresh t cancel_blocked id xs = omega arith
other_writes-active io now fresh t (route_source none) id xs = omega arith
other_writes-active io now fresh t (route_source (some s)) id xs = to_awaiting-keeps now id s xs
other_writes-active io now fresh t split_rework id xs =
    omega (arith, count_if-append (active_with id) xs (rework_task io.fs io.rs now fresh t ∷ []))

-- The table after a round, for an id.
pub round-ids :
    (io : BlockedEnv) (now fresh cooldown_ms : ℕ) (t : Task) (db : RetryDb) (id : ℕ)
    → count_if (by_id id) (requeue_blocked_task io now fresh cooldown_ms t db).0.tasks
      ≤ count_if (by_id id) db.tasks + (if fresh == id then 1 else 0)
unfolding requeue_blocked_task
round-ids io now fresh cooldown_ms t db id =
    let d = (decide_blocked io db t).1 in
    if_both
      (λ r.
        count_if (by_id id) (r.0).tasks
        ≤ count_if (by_id id) db.tasks + (if fresh == id then 1 else 0))
      (leb (t.updated_at + cooldown_ms) now)
      (apply_blocked io now fresh t db (decide_blocked io db t)) (db, 0)
      (λ h. omega (
        arith,
        update-ids id t.id (own_update now t.retry_count d) (other_writes io now fresh t d db.tasks)
            (own_update-id now t.retry_count d),
        other_writes-ids io now fresh t d id db.tasks,
      ))
      (λ h. omega arith)

pub round-active :
    (io : BlockedEnv) (now fresh cooldown_ms : ℕ) (t : Task) (db : RetryDb) (id : ℕ)
    → (id == t.id) ≡ false
    → count_if (active_with id) db.tasks
      ≤ count_if (active_with id) (requeue_blocked_task io now fresh cooldown_ms t db).0.tasks
unfolding requeue_blocked_task
round-active io now fresh cooldown_ms t db id other =
    let d = (decide_blocked io db t).1 in
    if_both (λ r. count_if (active_with id) db.tasks ≤ count_if (active_with id) (r.0).tasks)
      (leb (t.updated_at + cooldown_ms) now)
      (apply_blocked io now fresh t db (decide_blocked io db t)) (db, 0)
      (λ h. omega (
        arith,
        update-others id t.id (own_update now t.retry_count d)
            (other_writes io now fresh t d db.tasks) (own_update-id now t.retry_count d) other,
        other_writes-active io now fresh t d id db.tasks,
      ))
      (λ h. omega arith)
