-- ===== src/Dispatcher/Leases/Orphans.antt =====
-- recoverOrphanedRunningTasks against what it is for.
use open_tiger.Prelude.{
  ◌==◌, if◌then◌else◌, Bool-cases, if_same, length, filterb, any, ℕ, ◌+◌, ◌≡◌, refl, sym, ap, ◌∙◌,
  subst, inl, inr, Bool, true, false, not, ◌&&◌, List, [], ◌∷◌, arith,
}
use open_tiger.Store.{
  Task, Run, Lease, Db, run_running, update_where, delete_where, requeued, has_active_run,
}
use open_tiger.Store.Updates.{update-update, update_none, delete-delete, delete_none}
use open_tiger.Dispatcher.Leases.{
  holds_task, stale_running, idle_holders, recover_task, recover_candidates,
  recover_orphaned_running_tasks,
}

-- The stale running tasks that have no run in progress.
abbrev pub orphaned : ℕ → ℕ → Db → Task → Bool
orphaned now grace_ms db t = stale_running now grace_ms t && not (has_active_run db t.id)

abbrev pub one_of : List Task → ℕ → Bool
one_of ts id = any (λ t. t.id == id) ts

idle_holders-rest :
    (now : ℕ) (ls : List Lease) (db : Db)
    → ((idle_holders now ls db).tasks ≡ db.tasks)
      × ((idle_holders now ls db).runs ≡ db.runs)
      × ((idle_holders now ls db).leases ≡ db.leases)
unfolding idle_holders
idle_holders-rest now [] db = (refl, refl, refl)
idle_holders-rest now (l ∷ ls) db = idle_holders-rest now ls _

recover_task-lem :
    (now id : ℕ) (db : Db)
    → ((recover_task now id db).tasks ≡ update_where (λ t. t.id == id) (requeued now) db.tasks)
      × ((recover_task now id db).runs ≡ db.runs)
      × ((recover_task now id db).leases ≡ delete_where (holds_task id) db.leases)
unfolding recover_task
recover_task-lem now id db =
    let r =
      idle_holders-rest now (filterb (holds_task id) db.leases)
        (record db { leases = delete_where (holds_task id) db.leases }) in
    (ap (update_where (λ t. t.id == id) (requeued now)) r.0, r.1, r.2)

-- What the loop has done after the candidates `ts`, in terms of the table of runs.
abbrev no_run : List Run → List Task → List Task
no_run runs ts = filterb (λ t. not (any (λ r. (r.task_id == t.id) && run_running r.status) runs)) ts

record Recovered (now : ℕ) (gone : List Task) (db : Db) (n : ℕ) (r : Db × ℕ) : Type 0 where
  tasks : (r.0).tasks ≡ update_where (λ t. one_of gone t.id) (requeued now) db.tasks
  runs : (r.0).runs ≡ db.runs
  leases : (r.0).leases ≡ delete_where (λ l. one_of gone l.task_id) db.leases
  counted : r.1 ≡ n + length gone

requeue_both :
    (now : ℕ) (c : Task) (ts : List Task) (t : Task)
    → (let u = (if t.id == c.id then requeued now t else t) in
        if one_of ts u.id then requeued now u else u)
      ≡ (if one_of (c ∷ ts) t.id then requeued now t else t)
requeue_both now c ts t = elim (Bool-cases (t.id == c.id)) [
  | inl same ↦
      let back : (c.id == t.id) ≡ true = ground arith in
      rw (same, back) (if_same (one_of ts t.id) (requeued now t))
  | inr other ↦ let back : (c.id == t.id) ≡ false = ground arith in rw (other, back)
]

Recovered-cons :
    (now : ℕ) (c : Task) (gone : List Task) (db : Db) (n : ℕ) (r : Db × ℕ)
    → Recovered now gone (recover_task now c.id db) (n + 1) r
    → Recovered now (c ∷ gone) db n r
Recovered-cons now c gone db n r h =
    let step = recover_task-lem now c.id db in
    record {
      tasks =
          h.tasks
          ∙ rw (step.0) (
              update-update (λ t. t.id == c.id) (λ t. one_of gone t.id)
                (λ t. one_of (c ∷ gone) t.id) (requeued now) (requeued now) (requeued now)
                (requeue_both now c gone) db.tasks);
      runs = h.runs ∙ step.1;
      leases =
          h.leases
          ∙ rw (step.2) (
              delete-delete (holds_task c.id) (λ l. one_of gone l.task_id)
                (λ l. one_of (c ∷ gone) l.task_id) (λ l. ground arith) db.leases);
      counted = omega (arith, h.counted);
    }

recover_candidates-Recovered :
    (now : ℕ) (ts : List Task) (db : Db) (n : ℕ)
    → Recovered now (no_run db.runs ts) db n (recover_candidates now ts db n)
unfolding recover_candidates
recover_candidates-Recovered now [] db n = record {
  tasks = sym (update_none (λ t. false) (requeued now) (λ t. refl) db.tasks);
  runs = refl;
  leases = sym (delete_none (λ l. false) db.leases (λ l. refl));
  counted = omega arith;
}
recover_candidates-Recovered now (c ∷ ts) db n =
    let skip = recover_candidates-Recovered now ts db n in
    let took = recover_candidates-Recovered now ts (recover_task now c.id db) (n + 1) in
    elim (Bool-cases (has_active_run db c.id)) [
      | inl e ↦ rw (e, recover_candidates) skip
      | inr e ↦
          rw (e, recover_candidates)
            (Recovered-cons now c (no_run db.runs ts) db n _ (
              subst
                (λ runs.
                  Recovered now (no_run runs ts) (recover_task now c.id db) (n + 1)
                    (recover_candidates now ts (recover_task now c.id db) (n + 1)))
                ((recover_task-lem now c.id db).1) took))
    ]

filter-filter :
    (p q r : Task → Bool) (ts : List Task)
    → ((t : Task) → (p t && q t) ≡ r t)
    → filterb q (filterb p ts) ≡ filterb r ts
filter-filter p q r [] same = refl
filter-filter p q r (t ∷ ts) same = ground (arith, same t, filter-filter p q r ts same)

-- What the recovery of orphaned tasks leaves, and its answer.
pub record RecoversOrphans (now grace_ms : ℕ) (db : Db) (r : Db × ℕ) : Type 0 where
  pub tasks :
      (r.0).tasks
      ≡ update_where
          (λ t. one_of (filterb (orphaned now grace_ms db) db.tasks) t.id)
          (requeued now)
          db.tasks
  pub runs : (r.0).runs ≡ db.runs
  pub leases :
      (r.0).leases
      ≡ delete_where (λ l. one_of (filterb (orphaned now grace_ms db) db.tasks) l.task_id) db.leases
  pub counted : r.1 ≡ length (filterb (orphaned now grace_ms db) db.tasks)

-- Exactly the tasks that have been running for longer than the grace period with no run in
-- progress go back to the queue, with no block reason, and their leases are deleted; no other
-- task or lease changes, nor do the runs; and the answer is how many there were.
pub recover_orphaned_running_tasks-RecoversOrphans :
    (now grace_ms : ℕ) (db : Db)
    → RecoversOrphans now grace_ms db (recover_orphaned_running_tasks now grace_ms db)
unfolding recover_orphaned_running_tasks
recover_orphaned_running_tasks-RecoversOrphans now grace_ms db =
    let same =
      filter-filter (stale_running now grace_ms) (λ t. not (has_active_run db t.id))
        (orphaned now grace_ms db) db.tasks (λ t. refl) in
    let h = recover_candidates-Recovered now (filterb (stale_running now grace_ms) db.tasks) db 0 in
    let k : Recovered now (filterb (orphaned now grace_ms db) db.tasks) db 0
        (recover_orphaned_running_tasks now grace_ms db) =
      rw same at h in
    record { tasks = k.tasks; runs = k.runs; leases = k.leases; counted = omega (arith, k.counted) }
