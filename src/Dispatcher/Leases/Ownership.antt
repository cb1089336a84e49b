-- ===== src/Dispatcher/Leases/Ownership.antt =====
-- acquireLease when two agents ask for the same task.
use open_tiger.Prelude.{◌==◌, ==_refl, any, ℕ, String, ◌≡◌, true, false, List, [], ◌∷◌, ◌++◌, arith}
use open_tiger.Store.{Lease, Db}
use open_tiger.Dispatcher.Leases.{
  insert_failed, acquired, refused, holds_task, task_exists, acquire_lease,
}

any_held-append :
    (t : ℕ) (ls : List Lease) (l : Lease)
    → (l.task_id == t) ≡ true
    → any (holds_task t) (ls ++ l ∷ []) ≡ true
any_held-append t [] l e = ground arith
any_held-append t (x ∷ ls) l e = ground (arith, any_held-append t ls l e)

granted_of :
    (now fresh task_id minutes : ℕ) (agent_id : String) (db : Db)
    → any (holds_task task_id) db.leases ≡ false
    → task_exists task_id db.tasks ≡ true
    → any
        (holds_task task_id)
        ((acquire_lease now fresh (λ d. d) task_id agent_id minutes db).0).leases
      ≡ true
unfolding acquire_lease
granted_of now fresh task_id minutes agent_id db e known =
    rw (e, known) (any_held-append task_id db.leases _ (==_refl task_id))

acquire_loses :
    (now fresh : ℕ) (between : Db → Db) (task_id : ℕ) (agent_id : String) (minutes : ℕ) (db : Db)
    → any (holds_task task_id) db.leases ≡ false
    → any (holds_task task_id) (between db).leases ≡ true
    → acquire_lease now fresh between task_id agent_id minutes db
      ≡ (between db, refused insert_failed)
unfolding acquire_lease
acquire_loses now fresh between task_id agent_id minutes db e f = rw (e, f)

-- Two agents race for a task that stands in the table and is free. The first inserts its lease between the second's
-- check and insert: the first gets the lease, and the second is refused and changes nothing.
pub acquire_race :
    (now id_a id_b task_id minutes : ℕ) (agent_a agent_b : String) (db : Db)
    → any (holds_task task_id) db.leases ≡ false
    → task_exists task_id db.tasks ≡ true
    → let first = acquire_lease now id_a (λ d. d) task_id agent_a minutes db in
      (first.1 ≡ acquired id_a)
      × (acquire_lease now id_b (λ d. first.0) task_id agent_b minutes db
          ≡ (first.0, refused insert_failed))
unfolding acquire_lease
acquire_race now id_a id_b task_id minutes agent_a agent_b db e known =
    let held = granted_of now id_a task_id minutes agent_a db e known in
    (
      rw (e, known),
      acquire_loses now id_b (λ d. (acquire_lease now id_a (λ c. c) task_id agent_a minutes db).0)
          task_id agent_b minutes db e held,
    )
