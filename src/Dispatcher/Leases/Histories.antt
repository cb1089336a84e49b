-- ===== src/Dispatcher/Leases/Histories.antt =====
-- A lease through any sequence of the lease functions.
use open_tiger.Prelude.{
  leb, ◌==◌, ==→eq, Bool-cases, filterb, any, find_first, All, All-append, ℕ, ◌+◌, ◌*◌, ◌≤◌, String,
  ◌≡◌, refl, sym, ◌∙◌, subst, inl, inr, Bool, true, false, ◌&&◌, List, [], ◌∷◌, arith,
}
use open_tiger.Store.{Lease, Db, run_running, delete_where, has_active_run}
use open_tiger.Dispatcher.Leases.{
  already_leased, refused, leased_by, holds_task, task_exists, insert_result, acquire_lease,
  release_lease, extend_lease, expired, cleanup_expired_leases, dangling, cleanup_dangling_leases,
  recover_orphaned_running_tasks,
}
use open_tiger.Dispatcher.Leases.Expiry.{cleanup_expired_leases-ExpiresLeases}
use open_tiger.Dispatcher.Leases.Recovery.{named_in, cleanup_dangling_leases-tables}
use open_tiger.Dispatcher.Leases.Kept.{
  any-kept, any-update_kept, any-more, All-delete, All-update, task_exists-requeued,
  idle_holder-rest, not_dangling, not_orphaned,
}
use open_tiger.Dispatcher.Leases.Orphans.{
  orphaned, one_of, recover_orphaned_running_tasks-RecoversOrphans,
}

-- The lease functions of one process, at a time each.
pub data LeaseCall : Type 0 where
  acquire : (fresh task_id : ℕ) → String → (minutes : ℕ) → LeaseCall
  release : (task_id : ℕ) → LeaseCall
  extend : (task_id minutes : ℕ) → LeaseCall
  expire : LeaseCall
  reclaim_idle : LeaseCall
  recover : (grace_ms : ℕ) → LeaseCall

pub call : Db → ℕ × LeaseCall → Db
call db (now, acquire fresh task_id agent_id minutes) =
    (acquire_lease now fresh (λ d. d) task_id agent_id minutes db).0
call db (now, release task_id) = release_lease now task_id db
call db (now, extend task_id minutes) = (extend_lease now task_id minutes db).0
call db (now, expire) = (cleanup_expired_leases now db).0
call db (now, reclaim_idle) = (cleanup_dangling_leases now db).0
call db (now, recover grace_ms) = (recover_orphaned_running_tasks now grace_ms db).0

pub calls : Db → List (ℕ × LeaseCall) → Db
calls db [] = db
calls db (c ∷ cs) = calls (call db c) cs

module _ (lease_id task_id : ℕ) (agent_id : String) (until : ℕ) where
  -- The agent's lease on the task, which does not end before `until`.
  abbrev pub its_lease : Lease → Bool
  its_lease l =
      (l.id == lease_id)
      && (holds_task task_id l && (leased_by agent_id l && leb until l.expires_at))

  abbrev pub OnTask : Lease → Type 0
  OnTask l = (l.id == lease_id) ≡ true → holds_task task_id l ≡ true

  -- The lease is there, no lease on another task has its id, and its task has a run in progress.
  pub record Guarded (db : Db) : Type 0 where
    pub held : any its_lease db.leases ≡ true
    pub alone : All OnTask db.leases
    pub known : task_exists task_id db.tasks ≡ true
    pub working : has_active_run db task_id ≡ true

  -- The calls that leave the lease alone: an insert has an id of its own; a release is of another
  -- task; an extension of this task reaches as far; and leases are expired up to `until` only.
  abbrev pub Spares : ℕ × LeaseCall → Type 0
  Spares (now, acquire fresh t a m) = (fresh == lease_id) ≡ false
  Spares (now, release t) = (t == task_id) ≡ false
  Spares (now, extend t m) = (t == task_id) ≡ true → until ≤ now + m * 60 * 1000
  Spares (now, expire) = now ≤ until
  Spares (now, reclaim_idle) = Unit {0}
  Spares (now, recover grace_ms) = Unit {0}

  working-same : (db d : Db) → d.runs ≡ db.runs → Guarded db → has_active_run d task_id ≡ true
  working-same db d same g =
      subst (λ rs. any (λ r. (r.task_id == task_id) && run_running r.status) rs ≡ true) (sym same)
        g.working

  delete-Guarded :
      (q : Lease → Bool) (db d : Db)
      → d.leases ≡ delete_where q db.leases
      → task_exists task_id d.tasks ≡ true
      → d.runs ≡ db.runs
      → ((l : Lease) → its_lease l ≡ true → q l ≡ false)
      → Guarded db
      → Guarded d
  delete-Guarded q db d ls ts rs spares g = record {
    held =
        subst (λ xs. any its_lease xs ≡ true) (sym ls)
          (any-kept its_lease q db.leases spares g.held);
    alone = subst (λ xs. All OnTask xs) (sym ls) (All-delete OnTask q db.leases g.alone);
    known = ts;
    working = working-same db d rs g;
  }

  not_named :
      (db : Db) (ls : List Lease) (l : Lease)
      → Guarded db
      → All OnTask ls
      → its_lease l ≡ true
      → named_in (filterb (dangling db) ls) l ≡ false
  not_named db [] l g on it = refl
  not_named db (m ∷ ls) l g on it =
      let rest = not_named db ls l g on.1 it in
      elim (Bool-cases (m.id == lease_id)) [
        | inl e ↦
            let same = ==→eq m.task_id task_id (on.0 e) in
            let off =
              not_dangling db m (subst (λ i. has_active_run db i ≡ true) (sym same) g.working)
                (subst (λ i. task_exists i db.tasks ≡ true) (sym same) g.known) in
            rw off rest
        | inr e ↦ elim (Bool-cases (dangling db m)) [
          | inl o ↦ rw o (ground (arith, rest))
          | inr o ↦ rw o rest
        ]
      ]

  acquire-Guarded :
      (now fresh t minutes : ℕ) (a : String) (db : Db)
      → (fresh == lease_id) ≡ false
      → Guarded db
      → Guarded (acquire_lease now fresh (λ d. d) t a minutes db).0
  unfolding acquire_lease insert_result
  acquire-Guarded now fresh t minutes a db new g =
      elim (Bool-cases (any (holds_task t) db.leases)) [
        | inl e ↦ rw e g
        | inr e ↦ elim (Bool-cases (task_exists t db.tasks)) [
          | inl k ↦
              rw (e, k)
                (record {
                  held = any-more its_lease db.leases _ g.held;
                  alone = All-append OnTask db.leases _ g.alone ((λ same. cc (same, new)), tt);
                  known = g.known;
                  working = g.working;
                })
          | inr k ↦ rw (e, k) g
        ]
      ]

  call-Guarded : (db : Db) (c : ℕ × LeaseCall) → Spares c → Guarded db → Guarded (call db c)
  unfolding call release_lease extend_lease
  call-Guarded db (now, acquire fresh t a minutes) new g =
      acquire-Guarded now fresh t minutes a db new g
  call-Guarded db (now, release t) other g =
      let (ls, ts, rs) =
        idle_holder-rest now (find_first (holds_task t) db.leases)
          (record db { leases = delete_where (holds_task t) db.leases }) in
      delete-Guarded (holds_task t) db (release_lease now t db) ls
        (subst (λ xs. task_exists task_id xs ≡ true) (sym ts) g.known) rs (λ l it. ground arith) g
  call-Guarded db (now, extend t minutes) longer g = record {
    held =
        any-update_kept its_lease (holds_task t)
          (λ l. record l { expires_at = now + minutes * 60 * 1000 }) db.leases
          (λ l it on. let far = longer (ground arith) in ground (arith, far)) g.held;
    alone = All-update OnTask (holds_task t) _ db.leases (λ l on. on) g.alone;
    known = g.known;
    working = g.working;
  }
  call-Guarded db (now, expire) early g =
      let e = cleanup_expired_leases-ExpiresLeases now db in
      delete-Guarded (expired now) db (cleanup_expired_leases now db).0 e.leases
        (subst (λ xs. task_exists task_id xs ≡ true) (sym e.tasks)
          (task_exists-requeued now task_id _ db.tasks ∙ g.known))
        e.runs (λ l it. ground (arith, early)) g
  call-Guarded db (now, reclaim_idle) _ g =
      let (ls, ts, rs) = cleanup_dangling_leases-tables now db in
      delete-Guarded (named_in (filterb (dangling db) db.leases)) db
        (cleanup_dangling_leases now db).0 ls
        (subst (λ xs. task_exists task_id xs ≡ true) (sym ts) g.known) rs
        (λ l it. not_named db db.leases l g g.alone it) g
  call-Guarded db (now, recover grace_ms) _ g =
      let e = recover_orphaned_running_tasks-RecoversOrphans now grace_ms db in
      delete-Guarded (λ l. one_of (filterb (orphaned now grace_ms db) db.tasks) l.task_id) db
        (recover_orphaned_running_tasks now grace_ms db).0 e.leases
        (subst (λ xs. task_exists task_id xs ≡ true) (sym e.tasks)
          (task_exists-requeued now task_id _ db.tasks ∙ g.known))
        e.runs
        (λ l it.
          let on : (l.task_id == task_id) ≡ true = ground arith in
          subst (λ i. one_of (filterb (orphaned now grace_ms db) db.tasks) i ≡ false)
            (sym (==→eq l.task_id task_id on))
            (not_orphaned now grace_ms task_id db db.tasks g.working))
        g

  calls-Guarded :
      (db : Db) (cs : List (ℕ × LeaseCall)) → All Spares cs → Guarded db → Guarded (calls db cs)
  unfolding calls
  calls-Guarded db [] spares g = g
  calls-Guarded db (c ∷ cs) spares g =
      calls-Guarded (call db c) cs spares.1 (call-Guarded db c spares.0 g)

  its_task_held : (ls : List Lease) → any its_lease ls ≡ true → any (holds_task task_id) ls ≡ true
  its_task_held [] h = cc h
  its_task_held (l ∷ ls) h = ground (arith, its_task_held ls)

  -- The agent still has its lease, and anyone who asks for the task is told that it is leased.
  pub record StaysLeased (db : Db) : Type 0 where
    pub held : any its_lease db.leases ≡ true
    pub refuses :
        (now fresh minutes : ℕ) (other : String) (between : Db → Db)
        → acquire_lease now fresh between task_id other minutes db ≡ (db, refused already_leased)

-- While a task has a run in progress, its lease is safe until it ends: through any sequence of
-- acquisitions, releases of other tasks, extensions that reach as far, clean-ups of expired leases
-- up to that time, and at any time clean-ups of dangling leases and of orphaned tasks, the agent
-- keeps it, and whoever asks for the task is told that it is leased, with nothing written. New
-- leases do not reuse its id, at the start no other task's lease has it, and the task stands in
-- the table; the runs are not written meanwhile.
pub calls-StaysLeased :
    (lease_id task_id : ℕ) (agent_id : String) (until : ℕ) (db : Db) (cs : List (ℕ × LeaseCall))
    → Guarded lease_id task_id agent_id until db
    → All (Spares lease_id task_id agent_id until) cs
    → StaysLeased lease_id task_id agent_id until (calls db cs)
unfolding acquire_lease
calls-StaysLeased lease_id task_id agent_id until db cs g spares =
    let kept = calls-Guarded lease_id task_id agent_id until db cs spares g in
    let taken = its_task_held lease_id task_id agent_id until (calls db cs).leases kept.held in
    record { held = kept.held; refuses = λ now fresh minutes other between. rw taken refl }
