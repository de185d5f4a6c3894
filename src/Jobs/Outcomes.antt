-- ===== src/Jobs/Outcomes.antt =====
-- What the operations of internal/jobs/store.go answer, and the row that they leave.
use command_prompter_doc_bot.Prelude.{
  ℕ, ◌+◌, ◌≡◌, refl, sym, ap, subst, ◌∙◌, ◌⊎◌, inl, inr, String, Bool, true, false, Option, none,
  some, List, [], ◌∷◌, arith, ltb, leb, if◌then◌else◌, Bool-cases, Option-cases, Result, ok, ◌>>=◌,
  >>=-eq-ok,
}
use command_prompter_doc_bot.Jobs.Types.{
  Status, pending, leased, succeeded, retry_wait, failed, cancel_requested, cancelled, Error,
  Permit, retry_status,
}
use command_prompter_doc_bot.Jobs.Tables.{Job, Db, Outcome, became}
use command_prompter_doc_bot.Jobs.Queries.{
  find_job, update_job, after, new_job, finish_job, cancel_job, request_job_cancellation,
  insert_job_events,
}
use command_prompter_doc_bot.Jobs.Store.{
  Callback, finish, lock_permit, cancel_locked, retry_after_tx, retry_time, is_terminal, outcome_of,
  on_job, request_cancel_tx, cancel_by_status,
}
use command_prompter_doc_bot.Jobs.Keys.{find_job-update_job, find_job-append}
use command_prompter_doc_bot.Jobs.Refine.Writes.{
  finish-Rewrites, cancel_locked-Rewrites, find_job-id, lock_permit_row, Rewrites, only,
}
use command_prompter_doc_bot.Jobs.Refine.Enqueues.{
  Enqueues, nothing, one_job, insert_job_events-jobs,
}

-- A job that is added leaves the rows that are found.
Enqueues-find_job :
    (id : ℕ) (j : Job) {js ks : List Job}
    → Enqueues js ks
    → find_job id js ≡ some j
    → find_job id ks ≡ some j
Enqueues-find_job id j nothing h = h
Enqueues-find_job id j {js} (one_job i c payload now pos fresh free) h =
    rw (find_job-append id js (new_job i c payload now), h) refl

-- The row under an id, after it was written.
written :
    (id : ℕ) (f : Job → Job) (db db' : Db) (row : Job)
    → find_job id db.jobs ≡ some row
    → (f row).id ≡ row.id
    → Rewrites id f db.jobs db'.jobs
    → find_job id db'.jobs ≡ some (f row)
written id f db db' row found same w =
    Enqueues-find_job id (f row) w
      (ground (arith, find_job-update_job id id f db.jobs row found same))

answer_state :
    {A : Type 0} (a b : A) (d e : Db)
    → ◌≡◌ {A = Result Error (A × Db)} (ok (a, d)) (ok (b, e))
    → (a ≡ b) × (d ≡ e)
answer_state a b d e h = (ground (arith, h), ground (arith, h))

-- The row that an operation ending in `finish` leaves.
finished_row :
    (cb : Callback) (p : Permit) (n : ℕ) (status : Status) (outcome : Outcome) (now : ℕ)
    (result message : Option String) (t : Option ℕ) (db db' : Db) (row : Job) {A : Type 0} (a b : A)
    → find_job p.job_id db.jobs ≡ some row
    → ◌>>=◌ {B = A × Db} (finish cb p n status outcome now result message t db) (λ d. ok (a, d))
      ≡ ok (b, db')
    → (find_job p.job_id db'.jobs
        ≡ some (finish_job status t result message now (is_terminal status) row))
      × (a ≡ b)
unfolding finish_job
finished_row cb p n status outcome now result message t db db' row a b found h =
    let (d, done, last) = >>=-eq-ok (finish cb p n status outcome now result message t db) _ h in
    let (same, same_db) = answer_state a b d db' last in
    (
      written p.job_id _ db db' row found refl (
          finish-Rewrites cb p n status outcome now result message t db db' (
            subst (λ (x : Db). finish cb p n status outcome now result message t db ≡ ok x) same_db
              done)),
      same,
    )

-- A retry that is accepted schedules the job after the delay if it has attempts left, and fails it
-- otherwise; either way the answer is the status that the row then has, and its lease is gone.
pub retry_after_tx-row :
    (cb : Callback) (p : Permit) (message : String) (delay now : ℕ) (db db' : Db) (s : Status)
    → retry_after_tx cb p message delay now db ≡ ok (s, db')
    → (row row' : Job) × (find_job p.job_id db.jobs ≡ some row)
      × (find_job p.job_id db'.jobs ≡ some row')
      × (s ≡ (if ltb row.attempt_count row.max_attempts then retry_wait else failed))
      × (row'.status ≡ s)
      × (row'.lease_owner ≡ none)
      × (row'.not_before ≡ retry_time s (now + delay))
unfolding retry_after_tx retry_status finish_job
retry_after_tx-row cb p message delay now db db' s h = elim (Bool-cases (leb delay 0)) [
  | inl bad ↦ absurd (ground (arith, h, bad))
  | inr fine ↦
      let (row, locked, e) =
        >>=-eq-ok (lock_permit p (leased ∷ []) now db) _ (rw (fine, retry_after_tx) at h) in
      let (found, _) = lock_permit_row p (leased ∷ []) now db row locked in
      let status : Status = retry_status row.attempt_count row.max_attempts in
      let t : Option ℕ = retry_time status (now + delay) in
      let (there, same) =
        finished_row cb p row.attempt_count status (outcome_of status) now none (some message) t db
          db' row status s found e in
      (
        row,
        finish_job status t none (some message) now (is_terminal status) row,
        found,
        there,
        sym same,
        same,
        refl,
        ap (λ x. retry_time x (now + delay)) same,
      )
]

cancelled_row :
    (cb : Callback) (id : ℕ) (row : Job) (now : ℕ) (finish_it : Bool) (db db' : Db) (s : Status)
    → find_job id db.jobs ≡ some row
    → ◌>>=◌ {B = Status × Db} (cancel_locked cb row now finish_it db) (λ d. ok (cancelled, d))
      ≡ ok (s, db')
    → (row' : Job) × (find_job id db'.jobs ≡ some row')
      × (row'.status ≡ s)
      × ((s ≡ cancelled) ⊎ (s ≡ cancel_requested))
unfolding cancel_job
cancelled_row cb id row now finish_it db db' s found h =
    let (d, done, last) = >>=-eq-ok (cancel_locked cb row now finish_it db) _ h in
    let (same, same_db) = answer_state cancelled s d db' last in
    (
      cancel_job now row,
      written id (cancel_job now) db db' row found refl (
          subst (λ i. Rewrites i (cancel_job now) db.jobs db'.jobs)
            (find_job-id id db.jobs row found)
            (cancel_locked-Rewrites cb row now finish_it db db'
              (subst (λ (x : Db). cancel_locked cb row now finish_it db ≡ ok x) same_db done))),
      same,
      inl (sym same),
    )

requested_jobs :
    (id : ℕ) (row : Job) (now : ℕ) (db db' : Db) (s : Status)
    → row.id ≡ id
    → ◌≡◌ {A = Result Error (Status × Db)}
        (ok (
          cancel_requested,
          insert_job_events id
              (some row.attempt_count)
              (became cancel_requested)
              now
              (on_job row.id (request_job_cancellation now) db),
        ))
        (ok (s, db'))
    → db'.jobs ≡ update_job id (request_job_cancellation now) db.jobs
requested_jobs id row now db db' s own h = grind (arith, insert_job_events-jobs)

same_row :
    (id : ℕ) (row : Job) (db db' : Db) (st s : Status)
    → find_job id db.jobs ≡ some row
    → row.status ≡ st
    → ((st ≡ cancelled) ⊎ (st ≡ cancel_requested))
    → ◌≡◌ {A = Result Error (Status × Db)} (ok (st, db)) (ok (s, db'))
    → (row' : Job) × (find_job id db'.jobs ≡ some row')
      × (row'.status ≡ s)
      × ((s ≡ cancelled) ⊎ (s ≡ cancel_requested))
same_row id row db db' st s found e which h =
    let (same, same_db) = answer_state st s db db' h in
    (
      row,
      subst (λ (x : Db). find_job id x.jobs ≡ some row) same_db found,
      e ∙ same,
      subst (λ x. (x ≡ cancelled) ⊎ (x ≡ cancel_requested)) same which,
    )

-- The switch of a cancellation leaves the row with the status that it answers.
cancel_by_status-row :
    (cb : Callback) (id : ℕ) (row : Job) (now : ℕ) (db db' : Db) (st s : Status)
    → row.status ≡ st
    → find_job id db.jobs ≡ some row
    → cancel_by_status st cb id row now db ≡ ok (s, db')
    → (row' : Job) × (find_job id db'.jobs ≡ some row')
      × (row'.status ≡ s)
      × ((s ≡ cancelled) ⊎ (s ≡ cancel_requested))
unfolding cancel_by_status
cancel_by_status-row cb id row now db db' pending s e found h =
    cancelled_row cb id row now false db db' s found h
cancel_by_status-row cb id row now db db' retry_wait s e found h =
    cancelled_row cb id row now false db db' s found h
cancel_by_status-row cb id row now db db' leased s e found h =
    elim (Bool-cases (after row.lease_expires_at now)) [
      | inl live ↦
          let answered = rw (live, cancel_by_status) at h in
          let (same, _) = answer_state cancel_requested s _ db' answered in
          (
            request_job_cancellation now row,
            written id (request_job_cancellation now) db db' row found
                (unfold request_job_cancellation in refl)
                (only id (request_job_cancellation now) db db'
                  (requested_jobs id row now db db' s (find_job-id id db.jobs row found) answered)),
            unfold request_job_cancellation in same,
            inr (sym same),
          )
      | inr expired ↦ cancelled_row cb id row now true db db' s found (rw expired at h)
    ]
cancel_by_status-row cb id row now db db' cancel_requested s e found h =
    elim (Bool-cases (after row.lease_expires_at now)) [
      | inl live ↦
          same_row id row db db' cancel_requested s found e (inr refl)
            (rw (live, cancel_by_status) at h)
      | inr expired ↦ cancelled_row cb id row now true db db' s found (rw expired at h)
    ]
cancel_by_status-row cb id row now db db' cancelled s e found h =
    same_row id row db db' cancelled s found e (inl refl) h
cancel_by_status-row cb id row now db db' succeeded s e found h = cc
cancel_by_status-row cb id row now db db' failed s e found h = cc

-- A cancellation that is accepted answers CANCELLED or CANCEL_REQUESTED, and the row then has the
-- status that it answers.
pub request_cancel_tx-row :
    (cb : Callback) (id now : ℕ) (db db' : Db) (s : Status)
    → request_cancel_tx cb id now db ≡ ok (s, db')
    → (row' : Job) × (find_job id db'.jobs ≡ some row')
      × (row'.status ≡ s)
      × ((s ≡ cancelled) ⊎ (s ≡ cancel_requested))
unfolding request_cancel_tx
request_cancel_tx-row cb id now db db' s h = elim (Option-cases (find_job id db.jobs)) [
  | inl e ↦ absurd (ground (arith, h, e))
  | inr (row, e) ↦
      cancel_by_status-row cb id row now db db' row.status s refl e (rw (e, request_cancel_tx) at h)
]
