-- ===== src/Store/Samples.antt =====
-- Rows for tests.
use open_tiger.Prelude.{pos, ℕ, String, Option, none, some, [], ◌∷◌}
use open_tiger.Store.{TaskStatus, RunStatus, AgentStatus, Task, Run, Lease, Agent, Db}

abbrev pub task_row : ℕ → TaskStatus → ℕ → Task
task_row id status updated_at = record {
  id = id;
  title = "Add a route";
  goal = "the tests pass";
  context = none;
  allowed_paths = "apps/api/**" ∷ [];
  commands = "pnpm test" ∷ [];
  priority = pos 10;
  risk_level = "low";
  role = "worker";
  lane = "feature";
  kind = "code";
  status = status;
  block_reason = none;
  target_area = none;
  touches = [];
  dependencies = [];
  timebox_minutes = 60;
  retry_count = 0;
  created_at = 0;
  updated_at = updated_at;
}

abbrev pub run_row : ℕ → ℕ → String → RunStatus → Run
run_row id task_id agent_id status = record {
  id = id;
  task_id = task_id;
  agent_id = agent_id;
  status = status;
  started_at = 0;
  finished_at = none;
  cost_tokens = none;
  log_path = none;
  error_message = none;
  error_meta = none;
  judged_at = none;
  judgement_version = 0;
}

abbrev pub lease_row : ℕ → ℕ → String → ℕ → Lease
lease_row id task_id agent_id expires_at = record {
  id = id;
  task_id = task_id;
  agent_id = agent_id;
  expires_at = expires_at;
  created_at = 0;
}

abbrev pub agent_row : String → AgentStatus → Option ℕ → Agent
agent_row id status heartbeat = record {
  id = id;
  role = "worker";
  status = status;
  current_task_id = none;
  last_heartbeat = heartbeat;
  metadata = none;
  created_at = 0;
}

-- Task 1 runs under a lease of worker-1 that ends at 100; task 2 runs with no run left; task 3 is
-- queued but still leased.
abbrev pub sample : Db
sample = record {
  tasks =
      task_row 1 TaskStatus.running 40
      ∷ task_row 2 TaskStatus.running 10
      ∷ task_row 3 TaskStatus.queued 5
      ∷ [];
  runs = run_row 11 1 "worker-1" RunStatus.running ∷ run_row 12 2 "worker-2" RunStatus.failed ∷ [];
  leases =
      lease_row 21 1 "worker-1" 100
      ∷ lease_row 22 2 "worker-2" 900
      ∷ lease_row 23 3 "worker-3" 900
      ∷ [];
  agents =
      agent_row "worker-1" AgentStatus.busy (some 90)
      ∷ agent_row "worker-2" AgentStatus.busy (some 20)
      ∷ agent_row "worker-3" AgentStatus.busy none
      ∷ [];
}
