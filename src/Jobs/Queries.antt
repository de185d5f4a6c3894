-- ===== src/Jobs/Queries.antt =====
-- The statements of internal/database/sqlc/jobs.sql.go that write a row or find one by its key.
-- `id` is the primary key of `jobs`, so a statement `WHERE id = $1` reads or writes the first row
-- that has it.
use command_prompter_doc_bot.Prelude.{
  ℕ, ◌+◌, String, str_eq, Bool, true, false, ◌&&◌, Option, none, some, List, [], ◌∷◌, ltb, leb,
  ◌==◌, if◌then◌else◌,
}
use command_prompter_doc_bot.Jobs.Types.{
  Status, pending, leased, succeeded, retry_wait, cancel_requested, cancelled, same_status, Command,
}
use command_prompter_doc_bot.Jobs.Tables.{Job, Outcome, JobAttempt, EventKind, Db}

-- The rows `WHERE id = $1`.
abbrev pub find_job : ℕ → List Job → Option Job
find_job id [] = none
find_job id (j ∷ js) = if j.id == id then some j else find_job id js

abbrev pub update_job : ℕ → (Job → Job) → List Job → List Job
update_job id f [] = []
update_job id f (j ∷ js) = if j.id == id then f j ∷ js else j ∷ update_job id f js

-- status IN ('PENDING', 'LEASED', 'RETRY_WAIT', 'CANCEL_REQUESTED')
abbrev pub is_active : Status → Bool
is_active pending = true
is_active leased = true
is_active retry_wait = true
is_active cancel_requested = true
is_active _ = false

-- status IN ('LEASED', 'CANCEL_REQUESTED')
abbrev pub is_held : Status → Bool
is_held leased = true
is_held cancel_requested = true
is_held _ = false

-- A comparison with NULL does not hold.
abbrev pub at_or_before : Option ℕ → ℕ → Bool
at_or_before none now = false
at_or_before (some t) now = leb t now

abbrev pub after : Option ℕ → ℕ → Bool
after none now = false
after (some t) now = ltb now t

abbrev pub has_key : String → Job → Bool
has_key key j = is_active j.status && str_eq j.operation_key key

-- FindActiveJobIDByOperationKey
unfoldable pub find_active : String → List Job → Option Job
find_active key [] = none
find_active key (j ∷ js) = if has_key key j then some j else find_active key js

-- InsertJob with the id that the table's default draws: `none` on a conflict of the partial
-- index on the operation keys of active jobs.
unfoldable pub new_job : ℕ → Command → String → ℕ → Job
new_job id c payload now = record {
  id = id;
  job_type = c.job_type;
  target_type = c.target_type;
  target_id = c.target_id;
  payload = payload;
  operation_key = c.operation_key;
  concurrency_key = c.concurrency_key;
  concurrency_limit = c.concurrency_limit;
  status = pending;
  attempt_count = 0;
  max_attempts = c.max_attempts;
  progress = 0;
  lease_owner = none;
  lease_expires_at = none;
  lease_generation = 0;
  not_before = c.not_before;
  result = none;
  sanitized_error = none;
  created_at = now;
  updated_at = now;
  started_at = none;
  finished_at = none;
}

unfoldable pub lease_job : ℕ → String → ℕ → ℕ → ℕ → Job → Job
lease_job attempt_number worker now lease_for generation j = record j {
  status = leased;
  attempt_count = attempt_number;
  lease_owner = some worker;
  lease_expires_at = some (now + lease_for);
  lease_generation = generation;
  not_before = none;
  updated_at = now;
  started_at = elim j.started_at [ none ↦ some now | some t ↦ some t ];
}

unfoldable pub heartbeat_job : ℕ → ℕ → Job → Job
heartbeat_job now lease_for j = record j {
  lease_expires_at = some (now + lease_for);
  updated_at = now;
}

unfoldable pub finish_job : Status → Option ℕ → Option String → Option String → ℕ → Bool → Job → Job
finish_job status not_before result sanitized_error now terminal j = record j {
  status = status;
  progress = if same_status status succeeded then 100 else j.progress;
  lease_owner = none;
  lease_expires_at = none;
  not_before = not_before;
  result = result;
  sanitized_error = sanitized_error;
  updated_at = now;
  finished_at = if terminal then some now else none;
}

unfoldable pub cancel_job : ℕ → Job → Job
cancel_job now j = record j {
  status = cancelled;
  lease_owner = none;
  lease_expires_at = none;
  not_before = none;
  result = none;
  sanitized_error = none;
  updated_at = now;
  finished_at = some now;
}

unfoldable pub request_job_cancellation : ℕ → Job → Job
request_job_cancellation now j = record j { status = cancel_requested; updated_at = now }

-- InsertJobAttempt
unfoldable pub insert_job_attempt : ℕ → ℕ → ℕ → String → ℕ → Db → Db
insert_job_attempt job_id attempt_number generation worker now db = record db {
  attempts =
      record {
        job_id = job_id;
        attempt_number = attempt_number;
        lease_generation = generation;
        worker_id = worker;
        heartbeat_at = now;
        outcome = none;
        sanitized_error = none;
        started_at = now;
        finished_at = none;
      }
      ∷ db.attempts;
}

abbrev pub update_attempts : ℕ → ℕ → (JobAttempt → JobAttempt) → List JobAttempt → List JobAttempt
update_attempts job_id generation f [] = []
update_attempts job_id generation f (a ∷ as') =
    (if a.job_id == job_id && a.lease_generation == generation then f a else a)
    ∷ update_attempts job_id generation f as'

-- FinishAttempt, and ExpireAttempt, which writes the outcome LEASE_EXPIRED.
unfoldable pub finish_attempt : ℕ → Outcome → Option String → ℕ → ℕ → Db → Db
finish_attempt now outcome sanitized_error job_id generation db = record db {
  attempts =
      update_attempts job_id generation
        (λ a. record a {
          heartbeat_at = now;
          outcome = some outcome;
          sanitized_error = sanitized_error;
          finished_at = some now;
        })
        db.attempts;
}

unfoldable pub heartbeat_attempt : ℕ → ℕ → ℕ → Db → Db
heartbeat_attempt now job_id generation db = record db {
  attempts = update_attempts job_id generation (λ a. record a { heartbeat_at = now }) db.attempts;
}

-- InsertJobEvent and InsertJobResourceEvent: INSERT … SELECT … FROM jobs WHERE id = $1.
unfoldable pub insert_job_events : ℕ → Option ℕ → EventKind → ℕ → Db → Db
insert_job_events id attempt_number kind now db = elim (find_job id db.jobs) [
  | none ↦ db
  | some j ↦ record db {
    job_events =
        record {
          job_id = id;
          attempt_number = attempt_number;
          event_kind = kind;
          status = j.status;
          created_at = now;
        }
        ∷ db.job_events;
    event_log = record { event_kind = kind; snapshot = j; created_at = now } ∷ db.event_log;
  }
]
