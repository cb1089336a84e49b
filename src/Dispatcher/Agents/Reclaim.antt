-- ===== src/Dispatcher/Agents/Reclaim.antt =====
-- One agent of reclaimDeadAgentLeases (apps/dispatcher/src/scheduler/heartbeat.ts): whether it
-- waits for a young run, and the loop over its leases.
use open_tiger.Store.Updates.{
  update-update, update_none, delete-delete, length-delete, delete-congr, delete_none, update-congr,
}
use open_tiger.Dispatcher.Leases.Recovery.{lease_ids, named_in, reclaimed_one, named_iff}
use open_tiger.Dispatcher.Leases.Expiry.{held_running, requeue_one}
use open_tiger.Store.{
  Task, Run, Lease, Agent, Db, task_running, update_where, delete_where, requeued, insert_recent,
  most_recent_first, head,
}
use open_tiger.Prelude.{
  leb, ◌==◌, ◌===◌, Bool-cases, length, filterb, any, has_id, DistinctIds, ℕ, ◌+◌, String, ◌≡◌,
  refl, sym, ap, ◌∙◌, inl, inr, Bool, false, ◌&&◌, ◌||◌, List, [], ◌∷◌, arith,
}
use open_tiger.Dispatcher.Agents.{
  started_recently, is_recently_active, reclaim_leases, set_offline, reclaim_agent,
}
use open_tiger.Dispatcher.Leases.{leased_by, running_for, holds_task, running_task}

-- A run of the agent in progress that started within the grace period.
abbrev pub young_run : ℕ → ℕ → String → Run → Bool
young_run grace now agent_id r = running_for agent_id r && leb now (r.started_at + grace)

-- A lease of one of these agents.
abbrev pub of_agents : (String → Bool) → Lease → Bool
of_agents gone l = gone l.agent_id

-- Whether one of these agents has leased a task.
abbrev pub held_by_gone : (String → Bool) → List Lease → ℕ → Bool
held_by_gone gone ls id = any (λ l. of_agents gone l && holds_task id l) ls

-- A running task that one of these agents has leased.
abbrev pub running_at : (String → Bool) → List Lease → Task → Bool
running_at gone ls t = task_running t.status && held_by_gone gone ls t.id

-- The latest of the runs is young if any is.
insert-recently :
    (grace now : ℕ) (r : Run) (rs : List Run)
    → started_recently grace now (head (insert_recent r rs))
      ≡ (leb now (r.started_at + grace) || started_recently grace now (head rs))
insert-recently grace now r [] = ground arith
insert-recently grace now r (x ∷ xs) = ground arith

latest-recently :
    (grace now : ℕ) (rs : List Run)
    → started_recently grace now (head (most_recent_first rs))
      ≡ any (λ r. leb now (r.started_at + grace)) rs
unfolding most_recent_first
latest-recently grace now [] = refl
latest-recently grace now (r ∷ rs) =
    insert-recently grace now r (most_recent_first rs) ∙ rw (latest-recently grace now rs)

any-filterb {ℓ} :
    {A : Type ℓ} (p q : A → Bool) (xs : List A) → any q (filterb p xs) ≡ any (λ x. p x && q x) xs
any-filterb p q [] = refl
any-filterb p q (x ∷ xs) = ground (arith, any-filterb p q xs)

pub is_recently_active-young :
    (grace now : ℕ) (runs : List Run) (agent_id : String)
    → is_recently_active grace now runs agent_id ≡ any (young_run grace now agent_id) runs
unfolding is_recently_active
is_recently_active-young grace now runs agent_id =
    latest-recently grace now (filterb (running_for agent_id) runs)
    ∙ any-filterb (running_for agent_id) (λ r. leb now (r.started_at + grace)) runs

reclaim_leases-leases :
    (now : ℕ) (ls : List Lease) (db : Db) (n : ℕ)
    → ((reclaim_leases now ls db n).0).leases ≡ delete_where (named_in ls) db.leases
unfolding reclaim_leases
reclaim_leases-leases now [] db n = sym (delete_none (named_in []) db.leases (λ l. refl))
reclaim_leases-leases now (m ∷ ls) db n =
    reclaim_leases-leases now ls _ (n + 1)
    ∙ delete-delete (λ l. l.id == m.id) (named_in ls) (named_in (m ∷ ls))
        (λ l. reclaimed_one m l ls) db.leases

reclaim_leases-tasks :
    (now : ℕ) (ls : List Lease) (db : Db) (n : ℕ)
    → ((reclaim_leases now ls db n).0).tasks
      ≡ update_where (held_running ls) (requeued now) db.tasks
unfolding reclaim_leases
reclaim_leases-tasks now [] db n =
    sym (update_none (held_running []) (requeued now) (λ t. ground arith) db.tasks)
reclaim_leases-tasks now (l ∷ ls) db n =
    reclaim_leases-tasks now ls _ (n + 1)
    ∙ update-update (running_task l.task_id) (held_running ls) (held_running (l ∷ ls))
        (requeued now) (requeued now) (requeued now) (requeue_one now l ls) db.tasks

reclaim_leases-rest :
    (now : ℕ) (ls : List Lease) (db : Db) (n : ℕ)
    → (((reclaim_leases now ls db n).0).runs ≡ db.runs)
      × (((reclaim_leases now ls db n).0).agents ≡ db.agents)
      × ((reclaim_leases now ls db n).1 ≡ n + length ls)
unfolding reclaim_leases
reclaim_leases-rest now [] db n = (refl, refl, omega arith)
reclaim_leases-rest now (l ∷ ls) db n =
    let later = reclaim_leases-rest now ls _ (n + 1) in (later.0, later.1, omega (arith, later.2))

-- What the reclaiming for these agents leaves, and its count.
pub record Reclaims (now : ℕ) (gone : String → Bool) (db : Db) (n : ℕ) (r : Db × ℕ) : Type 0 where
  pub tasks : (r.0).tasks ≡ update_where (running_at gone db.leases) (requeued now) db.tasks
  pub leases : (r.0).leases ≡ delete_where (of_agents gone) db.leases
  pub agents : (r.0).agents ≡ update_where (λ a. gone a.id) set_offline db.agents
  pub runs : (r.0).runs ≡ db.runs
  pub counted : length (r.0).leases + r.1 ≡ length db.leases + n

pub reclaim_agent-Reclaims :
    (now : ℕ) (a : Agent) (db : Db) (n : ℕ)
    → DistinctIds (lease_ids db.leases)
    → Reclaims now (λ id. id === a.id) db n (reclaim_agent now a db n)
reclaim_agent-Reclaims now a db n d =
    let mine = filterb (leased_by a.id) db.leases in
    let rest = reclaim_leases-rest now mine db n in
    let deleted =
      reclaim_leases-leases now mine db n
      ∙ delete-congr (named_in mine) (leased_by a.id) db.leases
          (λ l w. named_iff (leased_by a.id) l db.leases d w) in
    record {
      tasks =
          reclaim_leases-tasks now mine db n
          ∙ update-congr (held_running mine) (running_at (λ id. id === a.id) db.leases)
              (requeued now) db.tasks
              (λ t.
                ap (λ b. task_running t.status && b)
                  (any-filterb (leased_by a.id) (holds_task t.id) db.leases));
      leases = deleted;
      agents = rw (rest.1);
      runs = rest.0;
      counted = omega (arith, rest.2, ap length deleted, length-delete (leased_by a.id) db.leases);
    }

has_id-delete :
    (p : Lease → Bool) (x : ℕ) (ls : List Lease)
    → has_id (lease_ids ls) x ≡ false
    → has_id (lease_ids (delete_where p ls)) x ≡ false
has_id-delete p x [] h = refl
has_id-delete p x (l ∷ ls) h = elim (Bool-cases (p l)) [
  | inl out ↦ rw out (has_id-delete p x ls (ground arith))
  | inr kept ↦ let rest = has_id-delete p x ls (ground arith) in rw kept (ground arith)
]

pub DistinctIds-delete :
    (p : Lease → Bool) (ls : List Lease)
    → DistinctIds (lease_ids ls)
    → DistinctIds (lease_ids (delete_where p ls))
DistinctIds-delete p [] d = tt
DistinctIds-delete p (l ∷ ls) d = elim (Bool-cases (p l)) [
  | inl out ↦ rw out (DistinctIds-delete p ls d.1)
  | inr kept ↦ rw kept (has_id-delete p l.id ls d.0, DistinctIds-delete p ls d.1)
]

-- A task is held by the one or by the others' remaining leases, or by one of either.
pub any-split :
    (p q : Lease → Bool) (h : Lease → Bool) (ls : List Lease)
    → (any (λ l. p l && h l) ls || any (λ l. q l && h l) (delete_where p ls))
      ≡ any (λ l. (p l || q l) && h l) ls
any-split p q h [] = refl
any-split p q h (l ∷ ls) = elim (Bool-cases (p l)) [
  | inl out ↦ let rest = any-split p q h ls in rw out (ground arith)
  | inr kept ↦ let rest = any-split p q h ls in rw kept (ground arith)
]
