-- ===== src/Dispatcher/Dispatch/Laws.antt =====
-- What one dispatch leaves, and the bounds of the poll delay and of the slots.
use open_tiger.Dispatcher.Dispatch.{
  LaunchMode, process, docker, Surroundings, queued_task, set_running, enqueue_and_launch,
  start_task, dispatch_task, compute_backoff_delay_ms, available_slots,
}
use open_tiger.Prelude.{
  ◌==◌, ◌===◌, if◌then◌else◌, ==_refl, ===_refl, Bool-cases, if_both, any, find_first, ℕ, ◌+◌, ◌*◌,
  ◌^◌, ◌≤◌, min, max, String, ◌≡◌, refl, ◌∙◌, inl, inr, Bool, true, false, not, ◌&&◌, Option, none,
  some, List, [], ◌∷◌, ◌++◌, arith,
}
use native.Mathlib.Nat.{mul-le-mul_left, pow-le-pow_right}
use open_tiger.Store.{Task, Lease, Agent, Db, update_where, delete_where, has_active_run}
use open_tiger.Dispatcher.Leases.{
  already_leased, insert_failed, acquired, refused, leased_by, mark_agent_idle_if_no_active_work,
  holds_task, task_exists, insert_result, acquire_lease, idle_holder, release_lease,
}

delete-none :
    (task_id : ℕ) (ls : List Lease)
    → any (holds_task task_id) ls ≡ false
    → delete_where (holds_task task_id) ls ≡ ls
delete-none task_id [] h = refl
delete-none task_id (l ∷ ls) h =
    let rest = delete-none task_id ls (ground arith) in
    let off : holds_task task_id l ≡ false = ground arith in rw (off, rest) refl

delete-snoc :
    (task_id : ℕ) (l : Lease) (ls : List Lease)
    → any (holds_task task_id) ls ≡ false
    → l.task_id ≡ task_id
    → delete_where (holds_task task_id) (ls ++ l ∷ []) ≡ ls
delete-snoc task_id l [] h e = ground arith
delete-snoc task_id l (x ∷ ls) h e =
    let rest = delete-snoc task_id l ls (ground arith) e in
    let off : holds_task task_id x ≡ false = ground arith in rw (off, rest) refl

idle_holder-leases :
    (now : ℕ) (o : Option Lease) (db : Db) → (idle_holder now o db).leases ≡ db.leases
unfolding idle_holder
idle_holder-leases now none db = refl
idle_holder-leases now (some l) db =
    if_both (λ x. x.leases ≡ db.leases) (l.agent_id === "") db
      (mark_agent_idle_if_no_active_work now l.agent_id db) (λ e. refl) (λ e. refl)

release-leases :
    (now task_id : ℕ) (db : Db)
    → (release_lease now task_id db).leases ≡ delete_where (holds_task task_id) db.leases
unfolding release_lease
release-leases now task_id db =
    idle_holder-leases now (find_first (holds_task task_id) db.leases)
      (record db { leases = delete_where (holds_task task_id) db.leases })

-- No other process writes during the dispatch; the launcher updates the agents.
abbrev pub undisturbed : LaunchMode → (List Agent → List Agent) → Bool → Bool → Surroundings
undisturbed mode set_busy enqueued launched = record {
  mode = mode;
  in_acquire = λ db. db;
  before_claim = λ db. db;
  in_enqueue = λ db. db;
  enqueued = enqueued;
  in_launch = λ db. record db { agents = set_busy db.agents };
  launched = launched;
}

-- The task runs under a lease of the agent, and no other task has changed.
abbrev pub Started : ℕ → ℕ → String → Db → Db → Type 0
Started now task_id agent_id db db' =
    (any (λ l. holds_task task_id l && leased_by agent_id l) db'.leases ≡ true)
    × (db'.tasks ≡ update_where (queued_task task_id) (set_running now) db.tasks)

-- What a dispatch leaves. One that has thrown leaves what one that succeeds does.
abbrev pub Leaves : ℕ → ℕ → String → Db → Db × Option Bool → Type 0
Leaves now task_id agent_id db (db', some true) = Started now task_id agent_id db db'
Leaves now task_id agent_id db (db', some false) = db'.leases ≡ db.leases
Leaves now task_id agent_id db (db', none) = Started now task_id agent_id db db'

-- The answer for a task that can be started.
abbrev pub answer : LaunchMode → (enqueued launched : Bool) → Option Bool
answer docker enqueued launched = some launched
answer process enqueued launched = if enqueued then some true else none

pub record Dispatches (now task_id : ℕ) (agent_id : String) (mode : LaunchMode)
    (enqueued launched : Bool) (db : Db) (r : Db × Option Bool) : Type 0 where
  pub leaves : Leaves now task_id agent_id db r
  pub answers : r.1 ≡ (
      if not (has_active_run db task_id)
        && (not (any (holds_task task_id) db.leases) && any (queued_task task_id) db.tasks)
      then answer mode enqueued launched
      else some false)

any-lease :
    (task_id : ℕ) (agent_id : String) (l : Lease) (ls : List Lease)
    → l.task_id ≡ task_id
    → l.agent_id ≡ agent_id
    → any (λ x. holds_task task_id x && leased_by agent_id x) (ls ++ l ∷ []) ≡ true
any-lease task_id agent_id l [] e f = rw (e, f, ==_refl task_id, ===_refl agent_id) refl
any-lease task_id agent_id l (x ∷ ls) e f = ground (arith, any-lease task_id agent_id l ls e f)

abbrev lease_of : (now fresh minutes task_id : ℕ) → String → Lease
lease_of now fresh minutes task_id agent_id = record {
  id = fresh;
  task_id = task_id;
  agent_id = agent_id;
  expires_at = now + minutes * 60 * 1000;
  created_at = now;
}

acquire-taken :
    (now fresh minutes task_id : ℕ) (agent_id : String) (db : Db)
    → any (holds_task task_id) db.leases ≡ true
    → acquire_lease now fresh (λ d. d) task_id agent_id minutes db ≡ (db, refused already_leased)
unfolding acquire_lease
acquire-taken now fresh minutes task_id agent_id db h = rw h refl

acquire-unknown :
    (now fresh minutes task_id : ℕ) (agent_id : String) (db : Db)
    → any (holds_task task_id) db.leases ≡ false
    → task_exists task_id db.tasks ≡ false
    → acquire_lease now fresh (λ d. d) task_id agent_id minutes db ≡ (db, refused insert_failed)
unfolding acquire_lease insert_result
acquire-unknown now fresh minutes task_id agent_id db h k = rw (h, k) refl

acquire-free :
    (now fresh minutes task_id : ℕ) (agent_id : String) (db : Db)
    → any (holds_task task_id) db.leases ≡ false
    → task_exists task_id db.tasks ≡ true
    → acquire_lease now fresh (λ d. d) task_id agent_id minutes db ≡ (
      record db { leases = db.leases ++ lease_of now fresh minutes task_id agent_id ∷ [] },
      acquired fresh,
    )
unfolding acquire_lease insert_result
acquire-free now fresh minutes task_id agent_id db h k = rw (h, k) refl

unknown-not_queued :
    (task_id : ℕ) (ts : List Task)
    → task_exists task_id ts ≡ false
    → any (queued_task task_id) ts ≡ false
unknown-not_queued task_id [] k = refl
unknown-not_queued task_id (t ∷ ts) k = ground (arith, unknown-not_queued task_id ts)

module _ (now fresh minutes task_id : ℕ) (agent_id : String) (set_busy : List Agent → List Agent)
    (db : Db) (idle : has_active_run db task_id ≡ false)
    (free : any (holds_task task_id) db.leases ≡ false) where
  abbrev leased : Db
  leased = record db { leases = db.leases ++ lease_of now fresh minutes task_id agent_id ∷ [] }

  held : any (λ l. holds_task task_id l && leased_by agent_id l) leased.leases ≡ true
  held =
      any-lease task_id agent_id (lease_of now fresh minutes task_id agent_id) db.leases refl refl

  released : (d : Db) → d.leases ≡ leased.leases → (release_lease now task_id d).leases ≡ db.leases
  released d e =
      release-leases now task_id d
      ∙ rw e (delete-snoc task_id (lease_of now fresh minutes task_id agent_id) db.leases free refl)

  start-Dispatches :
      (mode : LaunchMode) (enqueued launched : Bool)
      → Dispatches now task_id agent_id mode enqueued launched db
          (start_task now (undisturbed mode set_busy enqueued launched) task_id leased)
  unfolding start_task
  start-Dispatches mode enqueued launched = elim (Bool-cases (any (queued_task task_id) db.tasks)) [
    | inl e ↦ rw (start_task, e) (launches mode enqueued launched e)
    | inr e ↦
        rw (start_task, e)
          (record { leaves = released leased refl; answers = rw (idle, free, e) refl })
  ]
    where
      launches :
          (mode : LaunchMode) (enqueued launched : Bool)
          → any (queued_task task_id) db.tasks ≡ true
          → Dispatches now task_id agent_id mode enqueued launched db (
              enqueue_and_launch mode now
                (undisturbed mode set_busy enqueued launched)
                task_id
                (record leased {
                  tasks = update_where (queued_task task_id) (set_running now) db.tasks;
                }))
      launches docker enqueued true e = record {
        leaves = (held, refl);
        answers = rw (idle, free, e) refl;
      }
      launches docker enqueued false e = record {
        leaves = released _ refl;
        answers = rw (idle, free, e) refl;
      }
      launches process true launched e = record {
        leaves = (held, refl);
        answers = rw (idle, free, e) refl;
      }
      launches process false launched e = record {
        leaves = (held, refl);
        answers = rw (idle, free, e) refl;
      }

-- With no other writer, a dispatch gets past its checks just if the task has no run in progress
-- and no lease and is queued; otherwise it answers no and leaves the leases as they were. Past
-- them, in docker mode it succeeds if the worker launches, and if not answers no with the leases
-- as they were; in process mode it succeeds if the task can be enqueued, and if not throws. Where
-- it succeeds, and also where it throws, the agent holds a lease on the task, and the task is
-- running, the only change to the tasks.
pub dispatch_task-Dispatches :
    (now fresh minutes task_id : ℕ) (agent_id : String) (mode : LaunchMode)
    (set_busy : List Agent → List Agent) (enqueued launched : Bool) (db : Db)
    → Dispatches now task_id agent_id mode enqueued launched db (
        dispatch_task now fresh minutes
          (undisturbed mode set_busy enqueued launched)
          task_id
          agent_id
          db)
unfolding dispatch_task
dispatch_task-Dispatches now fresh minutes task_id agent_id mode set_busy enqueued launched db =
    elim (Bool-cases (has_active_run db task_id)) [
      | inl a ↦ rw (dispatch_task, a) (record { leaves = refl; answers = rw a refl })
      | inr a ↦ elim (Bool-cases (any (holds_task task_id) db.leases)) [
        | inl h ↦
            rw (dispatch_task, a, acquire-taken now fresh minutes task_id agent_id db h)
              (record { leaves = refl; answers = rw (a, h) refl })
        | inr h ↦ elim (Bool-cases (task_exists task_id db.tasks)) [
          | inl k ↦
              rw (dispatch_task, a, acquire-free now fresh minutes task_id agent_id db h k)
                (start-Dispatches now fresh minutes task_id agent_id set_busy db a h mode enqueued
                  launched)
          | inr k ↦
              rw (dispatch_task, a, acquire-unknown now fresh minutes task_id agent_id db h k)
                (record {
                  leaves = refl;
                  answers = rw (a, h, unknown-not_queued task_id db.tasks k) refl;
                })
        ]
      ]
    ]

grows : (base : ℕ) {i j : ℕ} → i ≤ j → base * 2 ^ i ≤ base * 2 ^ j
grows base h = mul-le-mul_left base (pow-le-pow_right (omega arith) h)

abbrev delay_of : (max_poll base streak scaled : ℕ) → ℕ
delay_of max_poll base streak scaled = if streak == 0 then base else min scaled (max base max_poll)

delay_of-bounds :
    (max_poll base streak longer a b : ℕ)
    → streak ≤ longer
    → base ≤ a
    → a ≤ b
    → (base ≤ delay_of max_poll base streak a)
      × (delay_of max_poll base streak a ≤ max base max_poll)
      × (delay_of max_poll base streak a ≤ delay_of max_poll base longer b)
delay_of-bounds max_poll base streak longer a b h k l = (ground arith, ground arith, ground arith)

-- The poll delay never falls below the base, never exceeds the maximal poll interval or the base,
-- whichever is greater, and does not shrink as the idle loops add up.
pub compute_backoff_delay_ms-bounds :
    (max_poll base streak longer : ℕ)
    → streak ≤ longer
    → (base ≤ compute_backoff_delay_ms max_poll base streak)
      × (compute_backoff_delay_ms max_poll base streak ≤ max base max_poll)
      × (compute_backoff_delay_ms max_poll base streak
          ≤ compute_backoff_delay_ms max_poll base longer)
unfolding compute_backoff_delay_ms
compute_backoff_delay_ms-bounds max_poll base streak longer h =
    delay_of-bounds max_poll base streak longer (base * 2 ^ min streak 6) (base * 2 ^ min longer 6)
      h (let least = grows base {i = 0} {j = min streak 6} (omega arith) in omega (arith, least))
      (grows base (omega (arith, h)))

-- The busy agents and the free slots together stay within the configured limit, and within one
-- worker while tasks wait for quota, unless more agents are busy already; then no slot is free.
pub available_slots-bounds :
    (limit busy : ℕ) (cap : Option ℕ)
    → (busy + available_slots false (some limit) busy ≡ max limit busy)
      × (busy + available_slots true cap busy ≤ max 1 busy)
unfolding available_slots
available_slots-bounds limit busy none = (omega arith, omega arith)
available_slots-bounds limit busy (some n) = (omega arith, omega arith)
