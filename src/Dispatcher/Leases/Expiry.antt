-- ===== src/Dispatcher/Leases/Expiry.antt =====
-- cleanupExpiredLeases against what it is for.
use open_tiger.Prelude.{
  ◌==◌, if◌then◌else◌, ===_refl, Bool-cases, length, is_empty, filterb, any, Within, here, there,
  All, is_empty→eq, ℕ, ◌+◌, ◌≡◌, refl, sym, ◌∙◌, inl, inr, Bool, true, false, ◌&&◌, List, [], ◌∷◌,
  arith,
}
use open_tiger.Store.{Task, Lease, Db, task_running, update_where, delete_where, requeued}
use open_tiger.Store.Updates.{update-update, update_none, length-delete, delete_of_filter_nil}
use open_tiger.Dispatcher.Leases.{
  leased_by, idle_if_no_active_work, holds_task, expired, running_task, requeue_expired,
  cleanup_expired_leases,
}

-- A running task that one of these leases names.
abbrev pub held_running : List Lease → Task → Bool
held_running ls t = task_running t.status && any (holds_task t.id) ls

pub requeue_one :
    (now : ℕ) (l : Lease) (ls : List Lease) (t : Task)
    → (let u = (if running_task l.task_id t then requeued now t else t) in
        if held_running ls u then requeued now u else u)
      ≡ (if held_running (l ∷ ls) t then requeued now t else t)
requeue_one now l ls t = elim (Bool-cases (task_running t.status)) [
  | inl e ↦ elim (Bool-cases (t.id == l.task_id)) [
    | inl same ↦ let back : (l.task_id == t.id) ≡ true = ground arith in rw (e, same, back)
    | inr other ↦
        let back : (l.task_id == t.id) ≡ false = ground arith in rw (e, other, back) (rw e)
  ]
  | inr e ↦ ground arith
]

requeue_expired-tasks :
    (now : ℕ) (ls : List Lease) (db : Db)
    → (requeue_expired now ls db).tasks ≡ update_where (held_running ls) (requeued now) db.tasks
unfolding requeue_expired
requeue_expired-tasks now [] db =
    sym (update_none (held_running []) (requeued now) (λ t. ground arith) db.tasks)
requeue_expired-tasks now (l ∷ ls) db =
    requeue_expired-tasks now ls _
    ∙ update-update (running_task l.task_id) (held_running ls) (held_running (l ∷ ls))
        (requeued now) (requeued now) (requeued now) (requeue_one now l ls) db.tasks

requeue_expired-leases :
    (now : ℕ) (ls : List Lease) (db : Db) → (requeue_expired now ls db).leases ≡ db.leases
unfolding requeue_expired
requeue_expired-leases now [] db = refl
requeue_expired-leases now (l ∷ ls) db = requeue_expired-leases now ls _

requeue_expired-runs :
    (now : ℕ) (ls : List Lease) (db : Db) → (requeue_expired now ls db).runs ≡ db.runs
unfolding requeue_expired
requeue_expired-runs now [] db = refl
requeue_expired-runs now (l ∷ ls) db = requeue_expired-runs now ls _

-- The leases that a list holds are held by their agents.
any_self : (l : Lease) (ls : List Lease) → Within l ls → any (leased_by l.agent_id) ls ≡ true
any_self l [] w = elim w [ ]
any_self l (x ∷ ls) here = rw (===_refl l.agent_id)
any_self l (x ∷ ls) (there w) = ground (arith, any_self l ls w)

requeue_expired-agents :
    (now : ℕ) (ls : List Lease) (db : Db)
    → All (λ l. any (leased_by l.agent_id) db.leases ≡ true) ls
    → (requeue_expired now ls db).agents ≡ db.agents
unfolding requeue_expired idle_if_no_active_work
requeue_expired-agents now [] db h = refl
requeue_expired-agents now (l ∷ ls) db h = requeue_expired-agents now ls _ h.1 ∙ rw (h.0)

filter_holders :
    (now : ℕ) (ls all_leases : List Lease)
    → ((l : Lease) → Within l ls → Within l all_leases)
    → All (λ l. any (leased_by l.agent_id) all_leases ≡ true) (filterb (expired now) ls)
filter_holders now [] whole inside = tt
filter_holders now (l ∷ ls) whole inside =
    let rest = filter_holders now ls whole (λ m w. inside m (there w)) in
    elim (Bool-cases (expired now l)) [
      | inl e ↦ rw e (any_self l whole (inside l here), rest)
      | inr e ↦ rw e rest
    ]

-- What the clean-up of expired leases leaves, and its answer.
pub record ExpiresLeases (now : ℕ) (db : Db) (r : Db × ℕ) : Type 0 where
  pub tasks :
      (r.0).tasks
      ≡ update_where (held_running (filterb (expired now) db.leases)) (requeued now) db.tasks
  pub leases : (r.0).leases ≡ delete_where (expired now) db.leases
  pub runs : (r.0).runs ≡ db.runs
  pub counted : length (r.0).leases + r.1 ≡ length db.leases

-- Running tasks whose lease has expired are queued again, with no block reason, and no other
-- task changes; expired leases are deleted and the others kept; runs are left alone; and the
-- answer is the number of leases deleted.
pub cleanup_expired_leases-ExpiresLeases :
    (now : ℕ) (db : Db) → ExpiresLeases now db (cleanup_expired_leases now db)
unfolding cleanup_expired_leases
cleanup_expired_leases-ExpiresLeases now db =
    elim (Bool-cases (is_empty (filterb (expired now) db.leases))) [
      | inl none_expired ↦
          let empty = is_empty→eq _ none_expired in
          rw (none_expired, cleanup_expired_leases)
            (record {
              tasks =
                  rw empty (
                    sym
                      (update_none (held_running []) (requeued now) (λ t. ground arith) db.tasks));
              leases = sym (delete_of_filter_nil (expired now) db.leases empty);
              runs = refl;
              counted = omega arith;
            })
      | inr some_expired ↦
          rw (some_expired, cleanup_expired_leases)
            (record {
              tasks = requeue_expired-tasks now (filterb (expired now) db.leases) db;
              leases = rw (requeue_expired-leases now (filterb (expired now) db.leases) db);
              runs = requeue_expired-runs now (filterb (expired now) db.leases) db;
              counted =
                  rw (requeue_expired-leases now (filterb (expired now) db.leases) db)
                    (length-delete (expired now) db.leases);
            })
    ]

-- An agent whose last lease expires is not set idle here: the lease is deleted only after the
-- check for active work, which still finds it. The agents table never changes.
pub cleanup_expired_leases-agents :
    (now : ℕ) (db : Db) → ((cleanup_expired_leases now db).0).agents ≡ db.agents
unfolding cleanup_expired_leases
cleanup_expired_leases-agents now db =
    elim (Bool-cases (is_empty (filterb (expired now) db.leases))) [
      | inl e ↦ rw (e, cleanup_expired_leases)
      | inr e ↦
          rw (e, cleanup_expired_leases)
            (requeue_expired-agents now (filterb (expired now) db.leases) db
              (filter_holders now db.leases db.leases (λ l w. w)))
    ]
