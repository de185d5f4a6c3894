-- ===== src/Jobs/Tables.antt =====
-- The tables of the job queue that internal/database/sqlc/jobs.sql.go reads and writes. The rows of
-- other components that `LockEligibleJob` reads are fields of `Db`.
use command_prompter_doc_bot.Prelude.{ℕ, String, Option, List}
use command_prompter_doc_bot.Jobs.Types.{JobType, Status}

pub record Job : Type 0 where
  pub id : ℕ
  pub job_type : JobType
  pub target_type : String
  pub target_id : ℕ
  pub payload : String
  pub operation_key : String
  pub concurrency_key : String
  pub concurrency_limit : ℕ
  pub status : Status
  pub attempt_count : ℕ
  pub max_attempts : ℕ
  pub progress : ℕ
  pub lease_owner : Option String
  pub lease_expires_at : Option ℕ
  pub lease_generation : ℕ
  pub not_before : Option ℕ
  pub result : Option String
  pub sanitized_error : Option String
  pub created_at : ℕ
  pub updated_at : ℕ
  pub started_at : Option ℕ
  pub finished_at : Option ℕ

pub data Outcome : Type 0 where
  succeeded_outcome failed_outcome retry_outcome cancelled_outcome lease_expired : Outcome

pub record JobAttempt : Type 0 where
  pub job_id : ℕ
  pub attempt_number : ℕ
  pub lease_generation : ℕ
  pub worker_id : String
  pub heartbeat_at : ℕ
  pub outcome : Option Outcome
  pub sanitized_error : Option String
  pub started_at : ℕ
  pub finished_at : Option ℕ

pub data EventKind : Type 0 where
  enqueued claimed heartbeat_event : EventKind
  became : Status → EventKind

pub record JobEvent : Type 0 where
  pub job_id : ℕ
  pub attempt_number : Option ℕ
  pub event_kind : EventKind
  pub status : Status
  pub created_at : ℕ

-- A row of `event_log`: the row of the job as it stood.
pub record ResourceEvent : Type 0 where
  pub event_kind : EventKind
  pub snapshot : Job
  pub created_at : ℕ

-- A model profile with the concurrency of its current version.
pub record Profile : Type 0 where
  pub id : String
  pub endpoint_id : ℕ
  pub max_concurrent_tasks : ℕ

pub record CallLease : Type 0 where
  pub endpoint_id : ℕ
  pub expires_at : ℕ

-- `notified` lists the jobs that the terminal callback was run for, the latest first.
pub record Db : Type 0 where
  pub jobs : List Job
  pub attempts : List JobAttempt
  pub job_events : List JobEvent
  pub event_log : List ResourceEvent
  pub profiles : List Profile
  pub call_leases : List CallLease
  pub notified : List Job
