-- ===== src/Store.antt =====
-- The tables of packages/db/src/schema.ts that the scheduler reads and writes, as lists of rows,
-- and the statements that the source sends: a select is a filter, an update rewrites the rows
-- that match, a delete keeps the others. Uuids are 128-bit numbers, timestamps are milliseconds.
pub mod Updates
pub mod Samples
use open_tiger.Prelude.{
  ltb, ◌==◌, if◌then◌else◌, any, ℤ, ℕ, String, Bool, true, false, ◌&&◌, Option, none, some, List,
  [], ◌∷◌,
}
use open_tiger.Json.{Json}

pub data TaskStatus : Type 0 where
  queued running done failed blocked cancelled : TaskStatus

-- The vocabulary of `block_reason`, with the legacy `needs_human`.
pub data BlockReason : Type 0 where
  awaiting_judge quota_wait needs_rework issue_linking needs_human : BlockReason

pub data RunStatus : Type 0 where
  running success failed cancelled : RunStatus

pub data AgentStatus : Type 0 where
  idle busy offline : AgentStatus

pub record Task : Type 0 where
  pub id : ℕ
  pub title : String
  pub goal : String
  pub context : Option Json
  pub allowed_paths : List String
  pub commands : List String
  pub priority : ℤ
  pub risk_level : String
  pub role : String
  pub lane : String
  pub kind : String
  pub status : TaskStatus
  pub block_reason : Option BlockReason
  pub target_area : Option String
  pub touches : List String
  pub dependencies : List ℕ
  pub timebox_minutes : ℕ
  pub retry_count : ℕ
  pub created_at : ℕ
  pub updated_at : ℕ

pub record Run : Type 0 where
  pub id : ℕ
  pub task_id : ℕ
  pub agent_id : String
  pub status : RunStatus
  pub started_at : ℕ
  pub finished_at : Option ℕ
  pub cost_tokens : Option ℕ
  pub log_path : Option String
  pub error_message : Option String
  pub error_meta : Option Json
  pub judged_at : Option ℕ
  pub judgement_version : ℕ

pub record Lease : Type 0 where
  pub id : ℕ
  pub task_id : ℕ
  pub agent_id : String
  pub expires_at : ℕ
  pub created_at : ℕ

pub record Agent : Type 0 where
  pub id : String
  pub role : String
  pub status : AgentStatus
  pub current_task_id : Option ℕ
  pub last_heartbeat : Option ℕ
  pub metadata : Option Json
  pub created_at : ℕ

pub record Db : Type 0 where
  pub tasks : List Task
  pub runs : List Run
  pub leases : List Lease
  pub agents : List Agent

abbrev pub task_running : TaskStatus → Bool
task_running TaskStatus.running = true
task_running _ = false

abbrev pub task_queued : TaskStatus → Bool
task_queued TaskStatus.queued = true
task_queued _ = false

abbrev pub active_status : TaskStatus → Bool
active_status TaskStatus.queued = true
active_status TaskStatus.running = true
active_status TaskStatus.blocked = true
active_status _ = false

abbrev pub run_running : RunStatus → Bool
run_running RunStatus.running = true
run_running _ = false

abbrev pub agent_idle : AgentStatus → Bool
agent_idle AgentStatus.idle = true
agent_idle _ = false

abbrev pub agent_busy : AgentStatus → Bool
agent_busy AgentStatus.busy = true
agent_busy _ = false

module _ {ℓ} {A : Type ℓ} where
  -- `update … set … where`
  abbrev pub update_where : (A → Bool) → (A → A) → List A → List A
  update_where p f [] = []
  update_where p f (x ∷ xs) = (if p x then f x else x) ∷ update_where p f xs

  -- `delete … where`
  abbrev pub delete_where : (A → Bool) → List A → List A
  delete_where p [] = []
  delete_where p (x ∷ xs) = if p x then delete_where p xs else x ∷ delete_where p xs

-- `set({ status: "queued", blockReason: null, updatedAt: now })`
abbrev pub requeued : ℕ → Task → Task
requeued now t = record t { status = TaskStatus.queued; block_reason = none; updated_at = now }

-- Whether a task has a run in progress, `runs.taskId = id and runs.status = 'running'`.
abbrev pub has_active_run : Db → ℕ → Bool
has_active_run db task_id = any (λ r. (r.task_id == task_id) && run_running r.status) db.runs

-- `orderBy(desc(startedAt))`, earlier rows first among equals.
abbrev pub insert_recent : Run → List Run → List Run
insert_recent r [] = r ∷ []
insert_recent r (x ∷ xs) =
    let rest = insert_recent r xs in if ltb r.started_at x.started_at then x ∷ rest else r ∷ x ∷ xs

unfoldable pub most_recent_first : List Run → List Run
most_recent_first [] = []
most_recent_first (r ∷ rs) = insert_recent r (most_recent_first rs)

abbrev pub head : List Run → Option Run
head [] = none
head (r ∷ rs) = some r
