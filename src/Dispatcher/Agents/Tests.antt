-- ===== src/Dispatcher/Agents/Tests.antt =====
-- Three agents: one gone with a lease, one overdue with a young run, one that is fine.
use open_tiger.Store.{TaskStatus, RunStatus, AgentStatus, Db, most_recent_first}
use open_tiger.Store.Samples.{task_row, run_row, lease_row, agent_row}
use open_tiger.Prelude.{has_text, ◌≡◌, refl, some, [], ◌∷◌}
use open_tiger.Dispatcher.Agents.{
  is_recently_active, reclaim_leases, reclaim_agents, reclaim_dead_agent_leases,
}
use open_tiger.Dispatcher.Agents.Reclaim.{Reclaims}
use open_tiger.Dispatcher.Agents.Dead.{dead_ids, reclaim_dead_agent_leases-Reclaims}

abbrev floor : Db
floor = record {
  tasks = task_row 1 TaskStatus.running 0 ∷ task_row 2 TaskStatus.running 0 ∷ [];
  runs = run_row 7 2 "slow" RunStatus.running ∷ [];
  leases = lease_row 11 1 "gone" 900000 ∷ lease_row 12 2 "slow" 900000 ∷ [];
  agents =
      agent_row "gone" AgentStatus.busy (some 1000)
      ∷ agent_row "slow" AgentStatus.busy (some 1000)
      ∷ agent_row "fine" AgentStatus.idle (some 290000)
      ∷ [];
}

one_reclaimed : (reclaim_dead_agent_leases 120000 600000 300000 floor).1 ≡ 1
unfolding reclaim_dead_agent_leases reclaim_agents reclaim_leases is_recently_active
    most_recent_first
one_reclaimed = refl

reclaim_dead_agent_leases-Reclaims_example :
    Reclaims 300000
      (has_text (dead_ids 120000 600000 300000 floor floor.agents))
      floor
      0
      (reclaim_dead_agent_leases 120000 600000 300000 floor)
reclaim_dead_agent_leases-Reclaims_example =
    reclaim_dead_agent_leases-Reclaims 120000 600000 300000 floor (refl, (refl, tt))
