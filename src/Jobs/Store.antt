-- ===== src/Jobs/Store.antt =====
-- internal/jobs/store.go: the operations of the queue. An operation runs in one transaction, which
-- the row locks and the admission lock make atomic; `now` is the reading of the database clock.
use command_prompter_doc_bot.Prelude.{
  ℕ, zero, suc, ◌+◌, String, str_eq, Bool, true, false, ◌&&◌, Option, none, some, List, [], ◌∷◌,
  ◌++◌, leb, ◌==◌, if◌then◌else◌, any, Result, ok, err, ◌>>=◌,
}
use command_prompter_doc_bot.Jobs.Types.{
  Status, pending, leased, succeeded, retry_wait, failed, cancel_requested, cancelled, same_status,
  Error, stale_permit, job_not_found, job_conflict, invalid_argument, duplicate_id, callback_failed,
  Command, validate_command, Permit, validate_permit, retry_status,
}
use command_prompter_doc_bot.Jobs.Tables.{
  Job, Outcome, succeeded_outcome, failed_outcome, retry_outcome, cancelled_outcome, lease_expired,
  enqueued, heartbeat_event, became, Db,
}
use command_prompter_doc_bot.Jobs.Queries.{
  find_job, update_job, after, find_active, new_job, heartbeat_job, finish_job, cancel_job,
  request_job_cancellation, finish_attempt, heartbeat_attempt, insert_job_events,
}

-- What the store's terminal callback does with a snapshot: it fails, it agrees, or it enqueues a
-- command in the same transaction, under the id that the table draws and at a time of its own
-- (`EnqueueTxAt`). It writes the table `jobs` in no other way.
pub data Reaction : Type 0 where
  refuses agrees : Reaction
  enqueues : ℕ → Command → ℕ → Reaction

-- The callback reads the snapshot and the tables.
abbrev pub Callback : Type 0
Callback = Option (Job → Db → Reaction)

abbrev pub on_job : ℕ → (Job → Job) → Db → Db
on_job id f db = record db { jobs = update_job id f db.jobs }

-- An error rolls the transaction back.
abbrev pub transaction : {A : Type 0} → Db → Result Error (A × Db) → Result Error A × Db
transaction db (ok (a, db')) = (ok a, db')
transaction db (err e) = (err e, db)

abbrev owner_is : Option String → String → Bool
owner_is none worker = false
owner_is (some owner) worker = str_eq owner worker

unfoldable pub contains_status : List Status → Status → Bool
contains_status statuses wanted = any (λ s. same_status s wanted) statuses

abbrev pub fits_permit : Permit → List Status → ℕ → Job → Bool
fits_permit permit statuses now row =
    contains_status statuses row.status
    && (owner_is row.lease_owner permit.worker_id
        && (row.lease_generation == permit.lease_generation && after row.lease_expires_at now))

unfoldable pub lock_permit : Permit → List Status → ℕ → Db → Result Error Job
lock_permit permit statuses now db =
    if validate_permit permit
    then elim (find_job permit.job_id db.jobs) [
      | none ↦ err stale_permit
      | some row ↦ if fits_permit permit statuses now row then ok row else err stale_permit
    ]
    else err invalid_argument

-- Enqueue, EnqueueTx, EnqueueTxAt: `id` is the one that the table draws for a new row. A round of
-- the loop whose insertion conflicts and whose search finds nothing is repeated.
unfoldable pub insert_job : ℕ → Command → String → ℕ → Db → Result Error (Option Db)
insert_job id c payload now db = elim (find_active c.operation_key db.jobs) [
  | some j ↦ ok none
  | none ↦ elim (find_job id db.jobs) [
    | some j ↦ err duplicate_id
    | none ↦ ok (some (record db { jobs = db.jobs ++ new_job id c payload now ∷ [] }))
  ]
]

unfoldable pub enqueue_loop : ℕ → ℕ → Command → String → ℕ → Db → Option (Result Error (ℕ × Db))
unfolding insert_job
enqueue_loop zero id c payload now db = none
enqueue_loop (suc fuel) id c payload now db = elim (insert_job id c payload now db) [
  | err e ↦ some (err e)
  | ok (some db1) ↦ some (ok (id, insert_job_events id none enqueued now db1))
  | ok none ↦ elim (find_active c.operation_key db.jobs) [
    | some j ↦ some (ok (j.id, db))
    | none ↦ enqueue_loop fuel id c payload now db
  ]
]

-- A `MaxAttempts` of zero means three.
abbrev pub with_defaults : Command → Command
with_defaults c = record c { max_attempts = if c.max_attempts == 0 then 3 else c.max_attempts }

unfoldable pub enqueue_tx : ℕ → ℕ → Command → ℕ → Db → Option (Result Error (ℕ × Db))
unfolding enqueue_loop
enqueue_tx fuel id c now db =
    if validate_command (with_defaults c)
    then elim c.payload [
      | none ↦ some (err invalid_argument)
      | some payload ↦ enqueue_loop fuel id (with_defaults c) payload now db
    ]
    else some (err invalid_argument)

unfoldable pub react : Reaction → Db → Result Error Db
react refuses db = err callback_failed
react agrees db = ok db
react (enqueues id c time) db = elim (enqueue_tx 1 id c time db) [
  | none ↦ err callback_failed
  | some (err e) ↦ err e
  | some (ok (_, db')) ↦ ok db'
]

unfoldable pub notify_terminal : Callback → ℕ → Db → Result Error Db
notify_terminal none id db = ok db
notify_terminal (some f) id db = elim (find_job id db.jobs) [
  | none ↦ err job_not_found
  | some j ↦ react (f j db) (record db { notified = j ∷ db.notified })
]

unfoldable pub cancel_locked : Callback → Job → ℕ → Bool → Db → Result Error Db
cancel_locked callback row now finish_it db =
    let db1 =
      if finish_it
      then finish_attempt now cancelled_outcome none row.id row.lease_generation db
      else db in
    let db2 = on_job row.id (cancel_job now) db1 in
    notify_terminal callback row.id (
      insert_job_events row.id (if finish_it then some row.attempt_count else none)
        (became cancelled) now db2)

abbrev pub exhausted_message : Option String
exhausted_message = some "lease expired after final attempt"

unfoldable pub expire_exhausted : Callback → Job → ℕ → Db → Result Error Db
expire_exhausted callback row now db =
    let db1 = finish_attempt now lease_expired exhausted_message row.id row.lease_generation db in
    let db2 = on_job row.id (finish_job failed none none exhausted_message now true) db1 in
    notify_terminal callback row.id
      (insert_job_events row.id (some row.attempt_count) (became failed) now db2)

abbrev pub is_terminal : Status → Bool
is_terminal succeeded = true
is_terminal failed = true
is_terminal cancelled = true
is_terminal _ = false

abbrev pub calls_back : Status → Bool
calls_back failed = true
calls_back cancelled = true
calls_back _ = false

unfoldable pub finish :
    Callback
    → Permit
    → ℕ
    → Status
    → Outcome
    → ℕ
    → Option String
    → Option String
    → Option ℕ
    → Db
    → Result Error Db
finish callback permit attempt_number status outcome now result sanitized_error not_before db =
    let db1 =
      on_job permit.job_id
        (finish_job status not_before result sanitized_error now (is_terminal status)) db in
    let db2 =
      finish_attempt now outcome sanitized_error permit.job_id permit.lease_generation db1 in
    let db3 = insert_job_events permit.job_id (some attempt_number) (became status) now db2 in
    if calls_back status then notify_terminal callback permit.job_id db3 else ok db3

-- Heartbeat
unfoldable pub heartbeat_tx : Permit → ℕ → ℕ → Db → Result Error (Unit {0} × Db)
heartbeat_tx permit lease_for now db = if leb lease_for 0 then err invalid_argument else do
  row ← lock_permit permit (leased ∷ []) now db
  let db1 = on_job row.id (heartbeat_job now lease_for) db
  let db2 = heartbeat_attempt now row.id permit.lease_generation db1
  ok (tt, insert_job_events permit.job_id (some row.attempt_count) heartbeat_event now db2)

abbrev encoded : Option String → Result Error String
encoded none = err invalid_argument
encoded (some text) = ok text

-- Succeed and CompleteAcceptedResult are `complete_tx` at their statuses.
unfoldable pub complete_tx :
    Callback → List Status → Permit → Option String → ℕ → Db → Result Error (Unit {0} × Db)
complete_tx callback statuses permit result now db = do
  text ← encoded result
  row ← lock_permit permit statuses now db
  db' ←
      finish callback permit row.attempt_count succeeded succeeded_outcome now (some text) none none
        db
  ok (tt, db')

abbrev pub outcome_of : Status → Outcome
outcome_of retry_wait = retry_outcome
outcome_of _ = failed_outcome

abbrev pub retry_time : Status → ℕ → Option ℕ
retry_time retry_wait t = some t
retry_time _ t = none

unfoldable pub retry_at_tx : Callback → Permit → String → ℕ → ℕ → Db → Result Error (Status × Db)
retry_at_tx callback permit message not_before now db = do
  row ← lock_permit permit (leased ∷ []) now db
  let status = retry_status row.attempt_count row.max_attempts
  if same_status status retry_wait && leb not_before now then err invalid_argument else do
    db' ←
        finish callback permit row.attempt_count status (outcome_of status) now none (some message)
          (retry_time status not_before) db
    ok (status, db')

unfoldable pub retry_after_tx : Callback → Permit → String → ℕ → ℕ → Db → Result Error (Status × Db)
retry_after_tx callback permit message delay now db =
    if leb delay 0 then err invalid_argument else do
      row ← lock_permit permit (leased ∷ []) now db
      let status = retry_status row.attempt_count row.max_attempts
      db' ←
          finish callback permit row.attempt_count status (outcome_of status) now none
            (some message) (retry_time status (now + delay)) db
      ok (status, db')

unfoldable pub fail_tx : Callback → Permit → String → ℕ → Db → Result Error (Unit {0} × Db)
fail_tx callback permit message now db = do
  row ← lock_permit permit (leased ∷ []) now db
  db' ←
      finish callback permit row.attempt_count failed failed_outcome now none (some message) none db
  ok (tt, db')

-- The `switch` of `requestCancel`.
unfoldable pub cancel_by_status : Status → Callback → ℕ → Job → ℕ → Db → Result Error (Status × Db)
cancel_by_status pending callback id row now db = do
  db' ← cancel_locked callback row now false db
  ok (cancelled, db')
cancel_by_status retry_wait callback id row now db = do
  db' ← cancel_locked callback row now false db
  ok (cancelled, db')
cancel_by_status leased callback id row now db =
    if after row.lease_expires_at now
    then ok (
      cancel_requested,
      insert_job_events id (some row.attempt_count) (became cancel_requested) now
          (on_job row.id (request_job_cancellation now) db),
    )
    else do db' ← cancel_locked callback row now true db; ok (cancelled, db')
cancel_by_status cancel_requested callback id row now db =
    if after row.lease_expires_at now
    then ok (cancel_requested, db)
    else do db' ← cancel_locked callback row now true db; ok (cancelled, db')
cancel_by_status cancelled callback id row now db = ok (cancelled, db)
cancel_by_status _ callback id row now db = err job_conflict

unfoldable pub request_cancel_tx : Callback → ℕ → ℕ → Db → Result Error (Status × Db)
unfolding cancel_by_status
request_cancel_tx callback id now db = elim (find_job id db.jobs) [
  | none ↦ err job_not_found
  | some row ↦ cancel_by_status row.status callback id row now db
]

unfoldable pub acknowledge_cancel_tx : Callback → Permit → ℕ → Db → Result Error (Unit {0} × Db)
acknowledge_cancel_tx callback permit now db = do
  row ← lock_permit permit (cancel_requested ∷ []) now db
  db' ← cancel_locked callback row now true db
  ok (tt, db')

-- AssertPermit fences a domain write; GetCommand reads the command back.
unfoldable pub assert_permit : Permit → ℕ → Db → Result Error (Unit {0})
assert_permit permit now db = do row ← lock_permit permit (leased ∷ []) now db; ok tt

unfoldable pub get_command_tx : Permit → ℕ → Db → Result Error Command
get_command_tx permit now db = do
  row ← lock_permit permit (leased ∷ []) now db
  ok (record {
    job_type = row.job_type;
    target_type = row.target_type;
    target_id = row.target_id;
    payload = some row.payload;
    operation_key = row.operation_key;
    max_attempts = row.max_attempts;
    not_before = row.not_before;
    concurrency_key = row.concurrency_key;
    concurrency_limit = row.concurrency_limit;
  })
