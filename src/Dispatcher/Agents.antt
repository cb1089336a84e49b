-- ===== src/Dispatcher/Agents.antt =====
-- apps/dispatcher/src/scheduler/heartbeat.ts: the health of agents, and the leases of agents that
-- are gone. `timeout` and `grace` are the two settings in milliseconds, `now` the time that is
-- read; a date `x > now - d` is written `now < x + d`.
pub mod Reclaim
pub mod Dead
pub mod Counts
mod Tests
use open_tiger.Store.{
  AgentStatus, Run, Lease, Agent, Db, agent_idle, agent_busy, update_where, delete_where, requeued,
  most_recent_first, head,
}
use open_tiger.Prelude.{
  ltb, leb, ◌==◌, ◌===◌, if◌then◌else◌, length, filterb, any, find_first, has_text, ℕ, ◌+◌, String,
  Bool, true, false, not, ◌&&◌, ◌||◌, Option, none, some, List, [], ◌∷◌, ◌++◌, map,
}
use open_tiger.Json.{Json}
use open_tiger.Dispatcher.Leases.{leased_by, running_for, running_task}

pub record AgentHealth : Type 0 where
  pub id : String
  pub role : String
  pub status : AgentStatus
  pub last_heartbeat : Option ℕ
  pub is_healthy : Bool
  pub current_task_id : Option ℕ

-- `lastHeartbeat && now - lastHeartbeat < timeout`
abbrev pub recent : ℕ → ℕ → Option ℕ → Bool
recent timeout now none = false
recent timeout now (some beat) = ltb now (beat + timeout)

abbrev pub first_task : List Lease → Option ℕ
first_task [] = none
first_task (l ∷ ls) = some l.task_id

abbrev pub health_of : ℕ → ℕ → Db → Option Agent → Option AgentHealth
health_of timeout now db none = none
health_of timeout now db (some a) = some (record {
  id = a.id;
  role = a.role;
  status = a.status;
  last_heartbeat = a.last_heartbeat;
  is_healthy = recent timeout now a.last_heartbeat;
  current_task_id = first_task (filterb (leased_by a.id) db.leases);
})

pub check_agent_health : ℕ → ℕ → Db → String → Option AgentHealth
check_agent_health timeout now db agent_id =
    health_of timeout now db (find_first (λ a. a.id === agent_id) db.agents)

abbrev pub collect : Option AgentHealth → List AgentHealth → List AgentHealth
collect none rest = rest
collect (some h) rest = h ∷ rest

pub check_all : ℕ → ℕ → Db → List Agent → List AgentHealth
check_all timeout now db [] = []
check_all timeout now db (a ∷ as_) =
    collect (check_agent_health timeout now db a.id) (check_all timeout now db as_)

pub check_all_agents_health : ℕ → ℕ → Db → List AgentHealth
check_all_agents_health timeout now db = check_all timeout now db db.agents

-- An empty role is as good as none.
abbrev pub has_role : Option String → Agent → Bool
has_role none a = true
has_role (some role) a = (role === "") || (a.role === role)

unfoldable pub get_available_agents : ℕ → ℕ → Option String → Db → List String
get_available_agents timeout now role db =
    map (λ a. a.id)
      (filterb (λ a. recent timeout now a.last_heartbeat)
        (filterb (λ a. agent_idle a.status && has_role role a) db.agents))

-- `lt(agents.lastHeartbeat, threshold)`, which a null does not pass.
abbrev pub overdue : ℕ → ℕ → Option ℕ → Bool
overdue timeout now none = false
overdue timeout now (some beat) = ltb (beat + timeout) now

abbrev pub started_recently : ℕ → ℕ → Option Run → Bool
started_recently grace now none = false
started_recently grace now (some r) = leb now (r.started_at + grace)

-- Whether the agent's latest running run is young enough to wait for it.
unfoldable pub is_recently_active : ℕ → ℕ → List Run → String → Bool
unfolding most_recent_first
is_recently_active grace now runs agent_id =
    started_recently grace now (head (most_recent_first (filterb (running_for agent_id) runs)))

-- The loop over the leases of one agent, with the count so far.
unfoldable pub reclaim_leases : ℕ → List Lease → Db → ℕ → Db × ℕ
reclaim_leases now [] db n = (db, n)
reclaim_leases now (l ∷ ls) db n =
    reclaim_leases now ls
      (record db {
        tasks = update_where (running_task l.task_id) (requeued now) db.tasks;
        leases = delete_where (λ m. m.id == l.id) db.leases;
      })
      (n + 1)

abbrev pub set_offline : Agent → Agent
set_offline a = record a { status = AgentStatus.offline }

abbrev pub mark_offline : String → Db × ℕ → Db × ℕ
mark_offline agent_id r =
    (record (r.0) { agents = update_where (λ a. a.id === agent_id) set_offline (r.0).agents }, r.1)

abbrev pub reclaim_agent : ℕ → Agent → Db → ℕ → Db × ℕ
reclaim_agent now a db n =
    mark_offline a.id (reclaim_leases now (filterb (leased_by a.id) db.leases) db n)

unfoldable pub reclaim_agents : ℕ → ℕ → List Agent → Db → ℕ → Db × ℕ
reclaim_agents grace now [] db n = (db, n)
reclaim_agents grace now (a ∷ rest) db n =
    let again = reclaim_agents grace now rest in
    if is_recently_active grace now db.runs a.id
    then again db n
    else again (reclaim_agent now a db n).0 (reclaim_agent now a db n).1

pub reclaim_dead_agent_leases : ℕ → ℕ → ℕ → Db → Db × ℕ
reclaim_dead_agent_leases timeout grace now db =
    reclaim_agents grace now (filterb (λ a. overdue timeout now a.last_heartbeat) db.agents) db 0

-- The new table, and whether a row matched.
pub record_heartbeat : ℕ → String → Db → Db × Bool
record_heartbeat now agent_id db = (
  record db {
    agents =
        update_where (λ a. a.id === agent_id)
          (λ a. record a { last_heartbeat = some now; status = AgentStatus.idle }) db.agents;
  },
  any (λ a. a.id === agent_id) db.agents,
)

-- The conflict on the key updates the row's status and heartbeat only. The model and provider are
-- an argument, as the environment gives them.
unfoldable pub register_agent : ℕ → Json → String → String → Db → Db
register_agent now metadata agent_id role db = record db {
  agents =
      if any (λ a. a.id === agent_id) db.agents
      then update_where (λ a. a.id === agent_id)
          (λ a. record a { last_heartbeat = some now; status = AgentStatus.idle }) db.agents
      else db.agents
        ++ record {
          id = agent_id;
          role = role;
          status = AgentStatus.idle;
          current_task_id = none;
          last_heartbeat = some now;
          metadata = some metadata;
          created_at = now;
        }
          ∷ [];
}

pub record AgentStats : Type 0 where
  pub total : ℕ
  pub idle : ℕ
  pub busy : ℕ
  pub offline : ℕ

-- One round of the count.
abbrev pub count_agent : ℕ → ℕ → Agent → AgentStats → AgentStats
count_agent timeout now a s =
    if not (recent timeout now a.last_heartbeat)
    then record s { offline = s.offline + 1 }
    else if agent_busy a.status
    then record s { busy = s.busy + 1 }
    else record s { idle = s.idle + 1 }

unfoldable pub count_agents : ℕ → ℕ → List Agent → AgentStats → AgentStats
count_agents timeout now [] s = s
count_agents timeout now (a ∷ rest) s = count_agents timeout now rest (count_agent timeout now a s)

unfoldable pub get_agent_stats : ℕ → ℕ → Db → AgentStats
unfolding count_agents
get_agent_stats timeout now db =
    count_agents timeout now db.agents
      (record { total = length db.agents; idle = 0; busy = 0; offline = 0 })

abbrev pub executable_roles : List String
executable_roles = "worker" ∷ "tester" ∷ "docser" ∷ []

unfoldable pub get_busy_agent_count : Db → ℕ
get_busy_agent_count db =
    length (filterb (λ a. agent_busy a.status && has_text executable_roles a.role) db.agents)
