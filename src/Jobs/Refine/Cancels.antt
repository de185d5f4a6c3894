-- ===== src/Jobs/Refine/Cancels.antt =====
-- RequestCancel and AcknowledgeCancel (internal/jobs/store.go).
use command_prompter_doc_bot.Prelude.{
  ℕ, ◌≡◌, refl, inl, inr, Bool, true, false, some, [], ◌∷◌, arith, Bool-cases, Option-cases, ok,
  ◌>>=◌, >>=-eq-ok,
}
use command_prompter_doc_bot.Jobs.Types.{
  Permit, Status, cancel_requested, cancelled, failed, leased, pending, retry_wait, succeeded,
}
use command_prompter_doc_bot.Jobs.Tables.{Db, Job}
use command_prompter_doc_bot.Jobs.Queries.{after, find_job, is_active, request_job_cancellation}
use command_prompter_doc_bot.Jobs.Store.{
  Callback, acknowledge_cancel_tx, cancel_by_status, cancel_locked, contains_status,
  request_cancel_tx, transaction,
}
use command_prompter_doc_bot.Jobs.Machine.{Advances, cancels, requests, still}
use command_prompter_doc_bot.Jobs.Refine.Enqueues.{insert_job_events-jobs}
use command_prompter_doc_bot.Jobs.Refine.Writes.{
  cancel_locked-Rewrites, find_job_own, moved, only, reaches, transaction-Advances, with_permit,
}

-- An operation that ends in `cancel_locked` cancels its row.
cancels_row :
    (cb : Callback) (row : Job) (now : ℕ) (finish_it : Bool) (db : Db) {A : Type 0} (a b : A)
    (db' : Db)
    → find_job row.id db.jobs ≡ some row
    → is_active row.status ≡ true
    → ◌>>=◌ {B = A × Db} (cancel_locked cb row now finish_it db) (λ d. ok (a, d)) ≡ ok (b, db')
    → Advances db.jobs db'.jobs
cancels_row cb row now finish_it db a b db' found active e =
    let (d, done, last) = >>=-eq-ok (cancel_locked cb row now finish_it db) _ e in
    moved row.id _ db db' row
      (cancel_locked-Rewrites cb row now finish_it db db' (ground (arith, done, last))) found
      (cancels now active)

pub acknowledge_cancel_tx-Advances :
    (cb : Callback) (p : Permit) (now : ℕ) (db : Db)
    → Advances db.jobs (transaction db (acknowledge_cancel_tx cb p now db)).1.jobs
unfolding acknowledge_cancel_tx contains_status
acknowledge_cancel_tx-Advances cb p now db = transaction-Advances db _ (
    with_permit p (cancel_requested ∷ []) now db _ (λ row found fits a db' e.
      cancels_row cb row now true db tt a db' (find_job_own p.job_id db.jobs row found)
        (ground arith) e))

cancel_by_status-Advances :
    (cb : Callback) (id : ℕ) (row : Job) (now : ℕ) (db : Db) (s : Status)
    → row.status ≡ s
    → find_job id db.jobs ≡ some row
    → (a : Status) (db' : Db) → cancel_by_status s cb id row now db ≡ ok (a, db')
    → Advances db.jobs db'.jobs
unfolding cancel_by_status
cancel_by_status-Advances cb id row now db pending st found a db' e =
    cancels_row cb row now false db cancelled a db' (find_job_own id db.jobs row found) (rw st refl)
      e
cancel_by_status-Advances cb id row now db retry_wait st found a db' e =
    cancels_row cb row now false db cancelled a db' (find_job_own id db.jobs row found) (rw st refl)
      e
cancel_by_status-Advances cb id row now db leased st found a db' e =
    elim (Bool-cases (after row.lease_expires_at now)) [
      | inl live ↦
          moved row.id (request_job_cancellation now) db db' row
            (only row.id (request_job_cancellation now) db db'
              (grind (arith, insert_job_events-jobs)))
            (find_job_own id db.jobs row found) (requests now st)
      | inr expired ↦
          cancels_row cb row now true db cancelled a db' (find_job_own id db.jobs row found)
            (rw st refl) (rw expired at e)
    ]
cancel_by_status-Advances cb id row now db cancel_requested st found a db' e =
    elim (Bool-cases (after row.lease_expires_at now)) [
      | inl live ↦ reaches db db' still (ground (arith, e, live))
      | inr expired ↦
          cancels_row cb row now true db cancelled a db' (find_job_own id db.jobs row found)
            (rw st refl) (rw expired at e)
    ]
cancel_by_status-Advances cb id row now db cancelled st found a db' e =
    reaches db db' still (ground (arith, e))
cancel_by_status-Advances cb id row now db succeeded st found a db' e = cc
cancel_by_status-Advances cb id row now db failed st found a db' e = cc

pub request_cancel_tx-Advances :
    (cb : Callback) (id now : ℕ) (db : Db)
    → Advances db.jobs (transaction db (request_cancel_tx cb id now db)).1.jobs
unfolding request_cancel_tx
request_cancel_tx-Advances cb id now db = elim (Option-cases (find_job id db.jobs)) [
  | inl e ↦ rw (e, request_cancel_tx) still
  | inr (row, e) ↦
      rw (e, request_cancel_tx)
        (transaction-Advances db _ (cancel_by_status-Advances cb id row now db row.status refl e))
]
