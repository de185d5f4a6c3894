-- ===== src/Jobs/Refine/Permits.antt =====
-- The operations under a permit: Heartbeat, Succeed, CompleteAcceptedResult, RetryAt, RetryAfter,
-- Fail (internal/jobs/store.go).
use command_prompter_doc_bot.Prelude.{
  ℕ, ◌+◌, ◌≡◌, refl, inl, inr, String, true, ◌&&◌, Option, none, some, List, [], ◌∷◌, ltb, leb,
  ltb→lt, arith, Bool-cases, ok, ◌>>=◌, >>=-eq-ok,
}
use command_prompter_doc_bot.Jobs.Types.{
  Permit, Status, cancel_requested, failed, leased, retry_status, retry_wait, same_status,
  succeeded,
}
use command_prompter_doc_bot.Jobs.Tables.{Db, Job, Outcome}
use command_prompter_doc_bot.Jobs.Queries.{
  find_job, finish_job, heartbeat_attempt, heartbeat_job, is_held,
}
use command_prompter_doc_bot.Jobs.Store.{
  Callback, complete_tx, contains_status, fail_tx, finish, heartbeat_tx, is_terminal,
  retry_after_tx, retry_at_tx, retry_time, transaction,
}
use command_prompter_doc_bot.Jobs.Machine.{
  Advances, Move, completes, gives_up, heartbeats, retries, still,
}
use command_prompter_doc_bot.Jobs.Refine.Enqueues.{insert_job_events-jobs}
use command_prompter_doc_bot.Jobs.Refine.Writes.{
  find_job-id, finish-Rewrites, fits-leased, moved, only, transaction-Advances, with_permit,
}

pub heartbeat_tx-Advances :
    (p : Permit) (lease_for now : ℕ) (db : Db)
    → Advances db.jobs (transaction db (heartbeat_tx p lease_for now db)).1.jobs
unfolding heartbeat_tx heartbeat_attempt
heartbeat_tx-Advances p lease_for now db = elim (Bool-cases (leb lease_for 0)) [
  | inl bad ↦ rw (bad, heartbeat_tx) still
  | inr fine ↦
      rw (fine, heartbeat_tx)
        (transaction-Advances db _ (
          with_permit p (leased ∷ []) now db _ (λ row found fits a db' e.
            moved p.job_id (heartbeat_job now lease_for) db db' row
              (only p.job_id (heartbeat_job now lease_for) db db'
                (grind (arith, insert_job_events-jobs, find_job-id p.job_id db.jobs row found)))
              found (heartbeats now lease_for (fits-leased p now row fits)))))
]

-- An operation that ends in `finish` writes the row of its permit.
finishes :
    (cb : Callback) (p : Permit) (n : ℕ) (status : Status) (outcome : Outcome) (now : ℕ)
    (result message : Option String) (t : Option ℕ) (db : Db) (row : Job) {A : Type 0} (a b : A)
    (db' : Db)
    → find_job p.job_id db.jobs ≡ some row
    → Move row (finish_job status t result message now (is_terminal status) row)
    → ◌>>=◌ {B = A × Db} (finish cb p n status outcome now result message t db) (λ d. ok (a, d))
      ≡ ok (b, db')
    → Advances db.jobs db'.jobs
finishes cb p n status outcome now result message t db row a b db' found m e =
    let (d, done, last) = >>=-eq-ok (finish cb p n status outcome now result message t db) _ e in
    moved p.job_id _ db db' row
      (finish-Rewrites cb p n status outcome now result message t db db'
        (ground (arith, done, last)))
      found m

pub held_of_contains :
    (s : Status) → contains_status (leased ∷ cancel_requested ∷ []) s ≡ true → is_held s ≡ true
unfolding contains_status
held_of_contains leased h = refl
held_of_contains cancel_requested h = refl
held_of_contains _ h = cc

pub complete_tx-Advances :
    (cb : Callback) (p : Permit) (result : Option String) (now : ℕ) (db : Db)
    (statuses : List Status)
    → ((s : Status) → contains_status statuses s ≡ true → is_held s ≡ true)
    → Advances db.jobs (transaction db (complete_tx cb statuses p result now db)).1.jobs
unfolding complete_tx
complete_tx-Advances cb p none now db statuses held = still
complete_tx-Advances cb p (some text) now db statuses held = transaction-Advances db _ (
    with_permit p statuses now db _ (λ row found fits a db' e.
      finishes cb p _ succeeded _ now (some text) none none db row tt a db' found
        (completes text now (held row.status (ground arith))) e))

retry-Move :
    (j : Job) (message : String) (t now : ℕ)
    → j.status ≡ leased
    → let status = retry_status j.attempt_count j.max_attempts in
      Move j
        (finish_job status (retry_time status t) none (some message) now (is_terminal status) j)
unfolding retry_status
retry-Move j message t now h = elim (Bool-cases (ltb j.attempt_count j.max_attempts)) [
  | inl more ↦ rw (more, retry_status) (retries message t now h (ltb→lt _ _ more))
  | inr last ↦ rw (last, retry_status) (gives_up message now h)
]

pub retry_after_tx-Advances :
    (cb : Callback) (p : Permit) (message : String) (delay now : ℕ) (db : Db)
    → Advances db.jobs (transaction db (retry_after_tx cb p message delay now db)).1.jobs
unfolding retry_after_tx
retry_after_tx-Advances cb p message delay now db = elim (Bool-cases (leb delay 0)) [
  | inl bad ↦ rw (bad, retry_after_tx) still
  | inr fine ↦
      rw (fine, retry_after_tx)
        (transaction-Advances db _ (
          with_permit p (leased ∷ []) now db _ (λ row found fits a db' e.
            finishes cb p _ _ _ now none (some message) _ db row _ a db' found
              (retry-Move row message (now + delay) now (fits-leased p now row fits)) e)))
]

pub retry_at_tx-Advances :
    (cb : Callback) (p : Permit) (message : String) (not_before now : ℕ) (db : Db)
    → Advances db.jobs (transaction db (retry_at_tx cb p message not_before now db)).1.jobs
unfolding retry_at_tx
retry_at_tx-Advances cb p message not_before now db = transaction-Advances db _ (
    with_permit p (leased ∷ []) now db _ (λ row found fits a db' e.
      let status : Status = retry_status row.attempt_count row.max_attempts in
      elim (Bool-cases (same_status status retry_wait && leb not_before now)) [
        | inl late ↦ absurd (ground (arith, e, late))
        | inr fine ↦
            finishes cb p _ _ _ now none (some message) _ db row status a db' found
              (retry-Move row message not_before now (fits-leased p now row fits)) (rw fine at e)
      ]))

pub fail_tx-Advances :
    (cb : Callback) (p : Permit) (message : String) (now : ℕ) (db : Db)
    → Advances db.jobs (transaction db (fail_tx cb p message now db)).1.jobs
unfolding fail_tx
fail_tx-Advances cb p message now db = transaction-Advances db _ (
    with_permit p (leased ∷ []) now db _ (λ row found fits a db' e.
      finishes cb p _ failed _ now none (some message) none db row tt a db' found
        (gives_up message now (fits-leased p now row fits)) e))
