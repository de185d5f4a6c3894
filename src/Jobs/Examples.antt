-- ===== src/Jobs/Examples.antt =====
-- The queue at concrete tables: tests, and the theorems at inputs that meet their hypotheses.
use command_prompter_doc_bot.Prelude.{
  ℕ, ◌≤◌, ◌≡◌, ◌⊎◌, refl, str_eq, Bool, true, false, none, some, List, [], ◌∷◌, arith, Result, ok,
  err, All, count_if, if◌then◌else◌, ltb,
}
use mathlib.Core.List.{Memᴰ}
use command_prompter_doc_bot.Jobs.Types.{
  validate_source, discover_endpoint, pending, leased, succeeded, retry_wait, failed, cancelled,
  cancel_requested, Status, stale_permit, Error, Command, Permit, validate_permit, validate_command,
  retry_status,
}
use command_prompter_doc_bot.Jobs.Tables.{Job, Db}
use command_prompter_doc_bot.Jobs.Queries.{find_job, new_job, find_active}
use command_prompter_doc_bot.Jobs.Eligible.{holds_key}
use command_prompter_doc_bot.Jobs.Store.{
  Callback, agrees, lock_permit, enqueue_loop, retry_after_tx, retry_time, request_cancel_tx,
}
use command_prompter_doc_bot.Jobs.Claim.{Round, returns, claim_round, claim_loop}
use command_prompter_doc_bot.Jobs.Runs.{Operation, enqueue, claim, heartbeat, succeed, perform, run}
use command_prompter_doc_bot.Jobs.Store.{
  enqueue_tx, complete_tx, contains_status, finish, notify_terminal, react, cancel_by_status,
}
use command_prompter_doc_bot.Jobs.Claim.{claim_tx, claim_row, lease_row}
use command_prompter_doc_bot.Jobs.Queries.{
  lease_job, finish_attempt, insert_job_attempt, insert_job_events, finish_job,
  request_job_cancellation,
}
use command_prompter_doc_bot.Jobs.Eligible.{
  lock_eligible_job, is_eligible, is_due, key_is_open, model_is_full,
}
use command_prompter_doc_bot.Jobs.Selection.{In, may_claim, UniqueIds}
use command_prompter_doc_bot.Jobs.WellFormed.{WellFormed, run-WellFormed}
use command_prompter_doc_bot.Jobs.Tracking.{run-terminal, run-stale_permit}
use command_prompter_doc_bot.Jobs.Claiming.Leases.{
  Granted, claim_round-Granted, claim_round-lock_permit, claim_round-concurrency,
}
use command_prompter_doc_bot.Jobs.Claiming.Rounds.{claim_loop-idle}
use command_prompter_doc_bot.Jobs.OperationKeys.{enqueue_loop-find_active}
use command_prompter_doc_bot.Jobs.Outcomes.{retry_after_tx-row, request_cancel_tx-row}

abbrev pub empty : Db
empty = record {
  jobs = [];
  attempts = [];
  job_events = [];
  event_log = [];
  profiles = [];
  call_leases = [];
  notified = [];
}

abbrev sync : Command
sync = record {
  job_type = validate_source;
  target_type = "source";
  target_id = 40;
  payload = some "{}";
  operation_key = "sync:40";
  max_attempts = 2;
  not_before = none;
  concurrency_key = "source:40";
  concurrency_limit = 1;
}

abbrev pub unlocked : ℕ → Bool
unlocked id = false

abbrev silent : Callback
silent = some (λ j db. agrees)

-- A fresh row, the row that a claim at time 10 leaves, and the row after its success.
abbrev fresh : Job
fresh = record {
  id = 7;
  job_type = validate_source;
  target_type = "source";
  target_id = 40;
  payload = "{}";
  operation_key = "sync:40";
  concurrency_key = "source:40";
  concurrency_limit = 1;
  status = pending;
  attempt_count = 0;
  max_attempts = 2;
  progress = 0;
  lease_owner = none;
  lease_expires_at = none;
  lease_generation = 0;
  not_before = none;
  result = none;
  sanitized_error = none;
  created_at = 5;
  updated_at = 5;
  started_at = none;
  finished_at = none;
}

abbrev queued : Db
queued = record empty { jobs = fresh ∷ [] }

abbrev claiming : Operation
claiming = claim unlocked "w1" 30 ((10, 10) ∷ (10, 10) ∷ [])

abbrev first : Permit
first = record { job_id = 7; worker_id = "w1"; lease_generation = 1 }

abbrev pub second : Permit
second = record { job_id = 7; worker_id = "w2"; lease_generation = 2 }

abbrev reclaiming : Operation
reclaiming = claim unlocked "w2" 30 ((50, 50) ∷ [])

-- The row is enqueued, leased, lost, leased again and finished by the second worker; the first one
-- is refused.
abbrev history : List (ℕ × Operation)
history =
    (5, enqueue 1 7 sync)
    ∷ (10, claiming)
    ∷ (50, reclaiming)
    ∷ (55, succeed first (some "{}"))
    ∷ (60, succeed second (some "{}"))
    ∷ []

abbrev pub statuses : List Job → List Status
statuses [] = []
statuses (j ∷ js) = j.status ∷ statuses js

history_succeeds : statuses (run silent history empty).jobs ≡ succeeded ∷ []
unfolding run perform enqueue_tx validate_command find_active new_job claim_tx claim_loop
    claim_round lock_eligible_job is_eligible is_due key_is_open model_is_full claim_row lease_row
    lease_job finish_attempt insert_job_attempt insert_job_events complete_tx lock_permit
    validate_permit contains_status finish finish_job
history_succeeds = refl

queued-UniqueIds : UniqueIds queued.jobs
queued-UniqueIds = (refl, tt)

queued-WellFormed : All WellFormed queued.jobs
queued-WellFormed = (ground arith, tt)

run-WellFormed_example : All WellFormed (run silent history queued).jobs
run-WellFormed_example = run-WellFormed silent history queued queued-UniqueIds queued-WellFormed

-- A row that has failed, and one that is leased for the second time.
abbrev lost : Job
lost = record fresh {
  status = failed;
  attempt_count = 2;
  lease_generation = 2;
  finished_at = some 90;
}

abbrev pub running : Job
running = record fresh {
  status = leased;
  attempt_count = 2;
  lease_generation = 2;
  lease_owner = some "w2";
  lease_expires_at = some 80;
}

run-terminal_example :
    find_job 7 (run silent history (record empty { jobs = lost ∷ [] })).jobs ≡ some lost
run-terminal_example =
    run-terminal silent history (record empty { jobs = lost ∷ [] }) 7 lost (refl, tt) refl refl

run-stale_permit_example :
    lock_permit first
      (leased ∷ [])
      60
      (run silent ((55, heartbeat second 30) ∷ []) (record empty { jobs = running ∷ [] }))
    ≡ err stale_permit
unfolding validate_permit
run-stale_permit_example =
    run-stale_permit silent ((55, heartbeat second 30) ∷ []) (record empty { jobs = running ∷ [] })
      first running (leased ∷ []) 60 (refl, tt) refl refl (omega arith)

abbrev table_after : Round → Db
table_after (returns p db) = db
table_after _ = queued

abbrev round : Round
round = claim_round silent unlocked "w1" 30 10 10 queued

round-returns : round ≡ returns (some first) (table_after round)
unfolding claim_round lock_eligible_job is_eligible is_due key_is_open model_is_full claim_row
    lease_row lease_job finish_attempt insert_job_attempt insert_job_events
round-returns = refl

claim_round-Granted_example :
    (row : Job) × Granted unlocked "w1" 30 10 10 queued (table_after round) first row
claim_round-Granted_example =
    claim_round-Granted silent unlocked "w1" 30 10 10 queued (table_after round) first round-returns

claim_round-lock_permit_example :
    (row : Job) × (lock_permit first (leased ∷ []) 10 (table_after round) ≡ ok row)
claim_round-lock_permit_example =
    claim_round-lock_permit silent unlocked "w1" 30 10 10 queued (table_after round) first
      queued-UniqueIds refl (omega arith) round-returns

claim_round-concurrency_example :
    (row : Job) × In row queued.jobs
    × (first.job_id ≡ row.id)
    × ((str_eq row.concurrency_key "" ≡ true)
        ⊎ (count_if (holds_key row.concurrency_key 10) (table_after round).jobs
            ≤ row.concurrency_limit))
claim_round-concurrency_example =
    claim_round-concurrency silent unlocked "w1" 30 10 10 queued (table_after round) first
      round-returns

-- Nothing is due before the expiry of the lease at time 80.
abbrev busy : Db
busy = record empty { jobs = running ∷ [] }

claim_loop-idle_example :
    (reading : ℕ × ℕ) × Memᴰ reading ((60, 60) ∷ [])
    × All (λ j. may_claim unlocked reading.0 busy j ≡ false) busy.jobs
unfolding claim_loop claim_round lock_eligible_job is_eligible is_due key_is_open model_is_full
claim_loop-idle_example = claim_loop-idle silent unlocked "w3" 30 ((60, 60) ∷ []) busy busy refl

-- Another command of the same key.
abbrev discovery : Command
discovery = record sync { job_type = discover_endpoint; target_type = "endpoint"; max_attempts = 5 }

-- The key of the fresh row is taken, so its id is the answer.
enqueue_loop-find_active_example :
    (row : Job) × (find_active "sync:40" queued.jobs ≡ some row)
    × (row.id ≡ 7)
    × (enqueue_loop 1 10 discovery "[]" 6 queued ≡ some (ok (7, queued)))
unfolding enqueue_loop find_active
enqueue_loop-find_active_example =
    enqueue_loop-find_active 0 9 sync "{}" 5 queued queued 7 10 discovery "[]" 6 refl refl

abbrev table_of : {A : Type 0} → Result Error (A × Db) → Db
table_of (ok (a, db)) = db
table_of (err e) = empty

abbrev retried : Result Error (Status × Db)
retried = retry_after_tx silent second "timeout" 15 60 busy

retried-ok : retried ≡ ok (failed, table_of retried)
unfolding retry_after_tx lock_permit validate_permit contains_status retry_status finish finish_job
    finish_attempt insert_job_events notify_terminal react
retried-ok = refl

retry_after_tx-row_example :
    (row row' : Job) × (find_job 7 busy.jobs ≡ some row)
    × (find_job 7 (table_of retried).jobs ≡ some row')
    × (failed ≡ (if ltb row.attempt_count row.max_attempts then retry_wait else failed))
    × (row'.status ≡ failed)
    × (row'.lease_owner ≡ none)
    × (row'.not_before ≡ retry_time failed 75)
retry_after_tx-row_example =
    retry_after_tx-row silent second "timeout" 15 60 busy (table_of retried) failed retried-ok

abbrev cancelling : Result Error (Status × Db)
cancelling = request_cancel_tx silent 7 60 busy

cancelling-ok : cancelling ≡ ok (cancel_requested, table_of cancelling)
unfolding request_cancel_tx cancel_by_status request_job_cancellation insert_job_events
cancelling-ok = refl

request_cancel_tx-row_example :
    (row' : Job) × (find_job 7 (table_of cancelling).jobs ≡ some row')
    × (row'.status ≡ cancel_requested)
    × ((cancel_requested ≡ cancelled) ⊎ (cancel_requested ≡ cancel_requested))
request_cancel_tx-row_example =
    request_cancel_tx-row silent 7 60 busy (table_of cancelling) cancel_requested cancelling-ok
