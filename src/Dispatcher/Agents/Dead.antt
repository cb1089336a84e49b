-- ===== src/Dispatcher/Agents/Dead.antt =====
-- reclaimDeadAgentLeases of apps/dispatcher/src/scheduler/heartbeat.ts against what it is for.
use open_tiger.Store.Updates.{update-update, update_none, delete-delete, delete_none}
use open_tiger.Dispatcher.Leases.Recovery.{lease_ids}
use open_tiger.Store.{Task, Run, Lease, Agent, Db, task_running, delete_where, requeued}
use open_tiger.Prelude.{
  ◌===◌, if◌then◌else◌, Bool-cases, if_same, filterb, any, has_text, DistinctIds, any-congr, ℕ,
  String, ◌≡◌, refl, sym, ap, ◌∙◌, subst, inl, inr, Bool, true, false, not, ◌&&◌, ◌||◌, List, [],
  ◌∷◌, map, arith,
}
use open_tiger.Dispatcher.Agents.{
  overdue, is_recently_active, set_offline, reclaim_agent, reclaim_agents,
  reclaim_dead_agent_leases,
}
use open_tiger.Dispatcher.Leases.{leased_by, holds_task}
use open_tiger.Dispatcher.Agents.Reclaim.{
  young_run, of_agents, held_by_gone, running_at, is_recently_active-young, Reclaims,
  reclaim_agent-Reclaims, DistinctIds-delete, any-split,
}

-- What makes an agent dead: its heartbeat is overdue and no run of it is young.
abbrev pub is_dead : ℕ → ℕ → ℕ → Db → Agent → Bool
is_dead timeout grace now db a =
    overdue timeout now a.last_heartbeat && not (any (young_run grace now a.id) db.runs)

abbrev pub dead_ids : ℕ → ℕ → ℕ → Db → List Agent → List String
dead_ids timeout grace now db rows = map (λ a. a.id) (filterb (is_dead timeout grace now db) rows)

requeued_once :
    (now : ℕ) (p q r : ℕ → Bool) (t : Task)
    → ((id : ℕ) → (p id || q id) ≡ r id)
    → (let u = (if task_running t.status && p t.id then requeued now t else t) in
        if task_running u.status && q u.id then requeued now u else u)
      ≡ (if task_running t.status && r t.id then requeued now t else t)
requeued_once now p q r t e = elim (Bool-cases (task_running t.status)) [
  | inl runs ↦ elim (Bool-cases (p t.id)) [
    | inl first ↦
        let either : r t.id ≡ true = (rw first at (sym (e t.id))) in rw (runs, first, either)
    | inr later ↦
        let either : r t.id ≡ q t.id = (rw later at (sym (e t.id))) in
        rw (runs, later, either) (rw runs)
  ]
  | inr idle_one ↦ rw idle_one (rw idle_one)
]

set_offline_once :
    (p q r : String → Bool) (a : Agent)
    → ((id : String) → (p id || q id) ≡ r id)
    → (let u = (if p a.id then set_offline a else a) in if q u.id then set_offline u else u)
      ≡ (if r a.id then set_offline a else a)
set_offline_once p q r a e = elim (Bool-cases (p a.id)) [
  | inl first ↦
      let either : r a.id ≡ true = (rw first at (sym (e a.id))) in
      rw (first, either) (if_same (q a.id) (set_offline a))
  | inr later ↦ let either : r a.id ≡ q a.id = (rw later at (sym (e a.id))) in rw (later, either)
]

Reclaims-trans :
    (now : ℕ) (p q r : String → Bool) (db : Db) (n : ℕ) (s t : Db × ℕ)
    → ((id : String) → (p id || q id) ≡ r id)
    → Reclaims now p db n s
    → Reclaims now q s.0 s.1 t
    → Reclaims now r db n t
Reclaims-trans now p q r db n s t e a b = record {
  tasks =
      b.tasks
      ∙ rw (a.tasks, a.leases)
          (update-update (running_at p db.leases)
            (running_at q (delete_where (of_agents p) db.leases)) (running_at r db.leases)
            (requeued now) (requeued now) (requeued now)
            (λ x.
              requeued_once now (held_by_gone p db.leases)
                (held_by_gone q (delete_where (of_agents p) db.leases)) (held_by_gone r db.leases) x
                (λ id.
                  any-split (of_agents p) (of_agents q) (holds_task id) db.leases
                  ∙ any-congr _ _ db.leases (λ l. ap (λ c. c && holds_task id l) (e l.agent_id))))
            db.tasks);
  leases =
      b.leases
      ∙ rw (a.leases)
          (delete-delete (of_agents p) (of_agents q) (of_agents r) (λ l. e l.agent_id) db.leases);
  agents =
      b.agents
      ∙ rw (a.agents) (
          update-update (λ x. p x.id) (λ x. q x.id) (λ x. r x.id) set_offline set_offline
            set_offline (λ x. set_offline_once p q r x e) db.agents);
  runs = b.runs ∙ a.runs;
  counted = omega (arith, a.counted, b.counted);
}

held_none : (ls : List Lease) (id : ℕ) → held_by_gone (λ x. false) ls id ≡ false
held_none [] id = refl
held_none (l ∷ ls) id = held_none ls id

Reclaims-none : (now : ℕ) (db : Db) (n : ℕ) → Reclaims now (λ id. false) db n (db, n)
Reclaims-none now db n = record {
  tasks =
      sym
        (update_none _ (requeued now) (λ t. rw (held_none db.leases t.id) (ground arith)) db.tasks);
  leases = sym (delete_none (of_agents (λ id. false)) db.leases (λ l. refl));
  agents = sym (update_none (λ a. false) set_offline (λ a. refl) db.agents);
  runs = refl;
  counted = omega arith;
}

-- The agents of a list with no young run.
abbrev gone_ids : ℕ → ℕ → List Run → List Agent → List String
gone_ids grace now runs rows =
    map (λ a. a.id) (filterb (λ a. not (any (young_run grace now a.id) runs)) rows)

reclaim_agents-Reclaims :
    (grace now : ℕ) (rows : List Agent) (db : Db) (n : ℕ)
    → DistinctIds (lease_ids db.leases)
    → Reclaims now
        (has_text (gone_ids grace now db.runs rows))
        db
        n
        (reclaim_agents grace now rows db n)
unfolding reclaim_agents
reclaim_agents-Reclaims grace now [] db n d = Reclaims-none now db n
reclaim_agents-Reclaims grace now (a ∷ rest) db n d =
    let young = is_recently_active-young grace now db.runs a.id in
    elim (Bool-cases (is_recently_active grace now db.runs a.id)) [
      | inl waits ↦
          let kept = sym young ∙ waits in
          rw (waits, reclaim_agents, kept) (reclaim_agents-Reclaims grace now rest db n d)
      | inr reclaims ↦
          let kept = sym young ∙ reclaims in
          let step = reclaim_agent-Reclaims now a db n d in
          let after = reclaim_agent now a db n in
          let later =
            reclaim_agents-Reclaims grace now rest (after.0) (after.1)
              (rw (step.leases) (DistinctIds-delete (leased_by a.id) db.leases d)) in
          rw (reclaims, reclaim_agents, kept)
            (Reclaims-trans now (λ id. id === a.id) (has_text (gone_ids grace now db.runs rest)) _
              db n after _ (λ id. refl) step
              (subst
                (λ runs.
                  Reclaims now (has_text (gone_ids grace now runs rest)) (after.0) (after.1)
                    (reclaim_agents grace now rest (after.0) (after.1)))
                step.runs later))
    ]

filterb-filterb {ℓ} :
    {A : Type ℓ} (p q : A → Bool) (xs : List A)
    → filterb q (filterb p xs) ≡ filterb (λ x. p x && q x) xs
filterb-filterb p q [] = refl
filterb-filterb p q (x ∷ xs) = ground (arith, filterb-filterb p q xs)

-- With lease ids unique: exactly the leases of dead agents are deleted, an agent being dead whose
-- heartbeat is overdue and who has no run in progress that started within the grace period; the
-- running tasks under those leases are queued again, with no block reason; the dead agents are set
-- offline; nothing else changes; and the answer is the number of leases deleted.
pub reclaim_dead_agent_leases-Reclaims :
    (timeout grace now : ℕ) (db : Db)
    → DistinctIds (lease_ids db.leases)
    → Reclaims now
        (has_text (dead_ids timeout grace now db db.agents))
        db
        0
        (reclaim_dead_agent_leases timeout grace now db)
unfolding reclaim_dead_agent_leases
reclaim_dead_agent_leases-Reclaims timeout grace now db d =
    let same =
      filterb-filterb (λ a. overdue timeout now a.last_heartbeat)
        (λ a. not (any (young_run grace now a.id) db.runs)) db.agents in
    subst
      (λ rows.
        Reclaims now (has_text (map (λ a. a.id) rows)) db 0
          (reclaim_dead_agent_leases timeout grace now db))
      same
      (reclaim_agents-Reclaims grace now
        (filterb (λ a. overdue timeout now a.last_heartbeat) db.agents) db 0 d)
