-- ===== src/MergeQueue/Rows.antt =====
-- The table pr_merge_queue and what is written beside it.
use open_tiger.Prelude.{
  ltb, leb, ◌==◌, ◌===◌, if◌then◌else◌, ℤ, ℕ, String, Bool, true, false, Option, none, some, List,
  [], ◌∷◌, ◌++◌,
}
use open_tiger.Store.{Task}

pub data MergeQueueStatus : Type 0 where
  pending processing merged failed cancelled : MergeQueueStatus

-- `MergeQueueRow`. A claim token is a random uuid, a number.
pub record Row : Type 0 where
  pub id : ℕ
  pub pr_number : ℕ
  pub task_id : ℕ
  pub run_id : ℕ
  pub status : MergeQueueStatus
  pub priority : ℤ
  pub attempt_count : ℕ
  pub max_attempts : ℕ
  pub next_attempt_at : ℕ
  pub last_error : Option String
  pub claim_owner : Option String
  pub claim_token : Option ℕ
  pub claim_expires_at : Option ℕ
  pub claimed_at : Option ℕ
  pub created_at : ℕ
  pub updated_at : ℕ

-- The events of `recordMergeQueueEvent`, with the queue row that each is about.
pub data MergeEventType : Type 0 where
  enqueued claim_recovered merge_done retried merge_failed : MergeEventType

pub record MergeEvent : Type 0 where
  pub type : MergeEventType
  pub entity_id : ℕ
  pub queue_id : ℕ

pub record MergeDb : Type 0 where
  pub rows : List Row
  pub tasks : List Task
  pub events : List MergeEvent

abbrev pub is_pending : MergeQueueStatus → Bool
is_pending pending = true
is_pending _ = false

abbrev pub is_processing : MergeQueueStatus → Bool
is_processing processing = true
is_processing _ = false

abbrev pub is_active : MergeQueueStatus → Bool
is_active pending = true
is_active processing = true
is_active _ = false

abbrev pub same_number : Option ℕ → ℕ → Bool
same_number none n = false
same_number (some m) n = m == n

abbrev pub same_text : Option String → String → Bool
same_text none s = false
same_text (some t) s = t === s

-- `lte(column, now)`, false on null.
abbrev pub at_most : Option ℕ → ℕ → Bool
at_most none n = false
at_most (some m) n = leb m n

abbrev pub record_event : MergeEventType → Row → MergeDb → MergeDb
record_event type r db = record db {
  events = db.events ++ record { type = type; entity_id = r.task_id; queue_id = r.id } ∷ [];
}

-- The claim columns set to null.
abbrev pub unclaimed : Row → Row
unclaimed r = record r {
  claim_owner = none;
  claim_token = none;
  claim_expires_at = none;
  claimed_at = none;
}

-- judge-config.ts, after the checks of `resolveRetryDelayMs`, `resolveClaimTtlMs` and
-- `resolveMaxAttempts`; `none` is a value that is not finite.
pub record MergeConfig : Type 0 where
  pub retry_delay_ms : Option ℕ
  pub claim_ttl_ms : Option ℕ
  pub max_attempts : Option ℕ

abbrev pub or_default : (ℕ → Bool) → ℕ → Option ℕ → ℕ
or_default valid d none = d
or_default valid d (some n) = if valid n then n else d

unfoldable pub resolve_retry_delay_ms : MergeConfig → ℕ
resolve_retry_delay_ms c = or_default (λ n. true) 30000 c.retry_delay_ms

unfoldable pub resolve_claim_ttl_ms : MergeConfig → ℕ
resolve_claim_ttl_ms c = or_default (ltb 0) 120000 c.claim_ttl_ms

unfoldable pub resolve_max_attempts : MergeConfig → ℕ
resolve_max_attempts c = or_default (ltb 0) 3 c.max_attempts
