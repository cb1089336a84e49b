-- ===== src/Dispatcher/Agents/Counts.antt =====
-- The counts of agents in apps/dispatcher/src/scheduler/heartbeat.ts.
use open_tiger.Store.{AgentStatus, Agent, Db, agent_idle, agent_busy}
use open_tiger.Prelude.{
  Bool-cases, length, filterb, ℕ, ◌+◌, ◌≤◌, String, ◌≡◌, refl, ◌∙◌, inl, inr, true, false, ◌&&◌,
  Option, List, [], ◌∷◌, map, arith,
}
use open_tiger.Dispatcher.Agents.{
  recent, has_role, get_available_agents, AgentStats, count_agent, count_agents, get_agent_stats,
}

abbrev available_ids : ℕ → ℕ → Option String → List Agent → List String
available_ids timeout now role rows =
    map (λ a. a.id)
      (filterb (λ a. recent timeout now a.last_heartbeat)
        (filterb (λ a. agent_idle a.status && has_role role a) rows))

-- The counts add up to the number of agents, and an available agent counts as idle.
pub record CountsAgents (s : AgentStats) (available : ℕ) : Type 0 where
  pub adds_up : s.idle + s.busy + s.offline ≡ s.total
  pub available_idle : available ≤ s.idle

idle_not_busy : (s : AgentStatus) → agent_idle s ≡ true → agent_busy s ≡ false
idle_not_busy AgentStatus.idle h = refl
idle_not_busy AgentStatus.busy h = cc
idle_not_busy AgentStatus.offline h = cc

one_more :
    (timeout now : ℕ) (role : Option String) (a : Agent) (rest : List Agent) (s : AgentStats)
    → ((count_agent timeout now a s).idle
          + (count_agent timeout now a s).busy
          + (count_agent timeout now a s).offline
        ≡ s.idle + s.busy + s.offline + 1)
      × ((count_agent timeout now a s).total ≡ s.total)
      × (s.idle + length (available_ids timeout now role (a ∷ rest))
          ≤ (count_agent timeout now a s).idle + length (available_ids timeout now role rest))
one_more timeout now role a rest s = elim (Bool-cases (recent timeout now a.last_heartbeat)) [
  | inl fresh ↦ elim (Bool-cases (agent_busy a.status)) [
    | inl busy_one ↦ elim (Bool-cases (agent_idle a.status)) [
      | inl idle_one ↦ let bad = idle_not_busy a.status idle_one in absurd (cc)
      | inr other ↦ rw (fresh, busy_one, other) (omega arith, refl, omega arith)
    ]
    | inr calm ↦ elim (Bool-cases (agent_idle a.status && has_role role a)) [
      | inl takes ↦ rw (fresh, calm, takes) (rw fresh (omega arith, refl, omega arith))
      | inr skips ↦ rw (fresh, calm, skips) (omega arith, refl, omega arith)
    ]
  ]
  | inr stale ↦ elim (Bool-cases (agent_idle a.status && has_role role a)) [
    | inl takes ↦ rw (stale, takes) (rw stale (omega arith, refl, omega arith))
    | inr skips ↦ rw (stale, skips) (omega arith, refl, omega arith)
  ]
]

count_agents-adds :
    (timeout now : ℕ) (role : Option String) (rows : List Agent) (s : AgentStats)
    → ((count_agents timeout now rows s).idle
          + (count_agents timeout now rows s).busy
          + (count_agents timeout now rows s).offline
        ≡ s.idle + s.busy + s.offline + length rows)
      × ((count_agents timeout now rows s).total ≡ s.total)
      × (s.idle + length (available_ids timeout now role rows)
          ≤ (count_agents timeout now rows s).idle)
unfolding count_agents
count_agents-adds timeout now role [] s = (omega arith, refl, omega arith)
count_agents-adds timeout now role (a ∷ rest) s =
    let one = one_more timeout now role a rest s in
    let later = count_agents-adds timeout now role rest (count_agent timeout now a s) in
    (omega (arith, one.0, later.0), later.1 ∙ one.1, omega (arith, one.2, later.2))

-- The idle, busy and offline agents of the statistics add up to all agents, and the agents that
-- are available, of any role asked for, are at most the idle ones.
pub get_agent_stats-CountsAgents :
    (timeout now : ℕ) (role : Option String) (db : Db)
    → CountsAgents
        (get_agent_stats timeout now db)
        (length (get_available_agents timeout now role db))
unfolding get_agent_stats get_available_agents
get_agent_stats-CountsAgents timeout now role db =
    let all_counted =
      count_agents-adds timeout now role db.agents
        (record { total = length db.agents; idle = 0; busy = 0; offline = 0 }) in
    record {
      adds_up = omega (arith, all_counted.0, all_counted.1);
      available_idle = omega (arith, all_counted.2);
    }
