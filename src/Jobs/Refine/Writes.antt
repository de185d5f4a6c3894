-- ===== src/Jobs/Refine/Writes.antt =====
-- What the writes of internal/jobs/store.go do to the table `jobs`.
use command_prompter_doc_bot.Prelude.{
  ℕ, ◌≡◌, refl, sym, subst, inl, inr, String, Bool, true, false, Option, none, some, List, [], ◌∷◌,
  arith, Bool-cases, Option-cases, Result, ok, err, ◌>>=◌, >>=-eq-ok,
}
use command_prompter_doc_bot.Jobs.Types.{Error, Permit, Status, failed, leased}
use command_prompter_doc_bot.Jobs.Tables.{Db, EventKind, Job, Outcome}
use command_prompter_doc_bot.Jobs.Queries.{
  cancel_job, find_job, finish_attempt, finish_job, insert_job_events, update_job,
}
use command_prompter_doc_bot.Jobs.Store.{
  Callback, Reaction, agrees, calls_back, cancel_locked, contains_status, enqueue_tx, enqueues,
  exhausted_message, expire_exhausted, finish, fits_permit, is_terminal, lock_permit,
  notify_terminal, react, refuses, transaction,
}
use command_prompter_doc_bot.Jobs.Machine.{
  Advances, Move, further, one_step, row_added, row_moves, still,
}
use command_prompter_doc_bot.Jobs.Refine.Enqueues.{
  Enqueues, enqueue_tx-Enqueues, insert_job_events-jobs, nothing, one_job,
}

react-Enqueues : (r : Reaction) (db db' : Db) → react r db ≡ ok db' → Enqueues db.jobs db'.jobs
unfolding react
react-Enqueues refuses db db' h = cc
react-Enqueues agrees db db' h = subst (Enqueues db.jobs) (ground arith) nothing
react-Enqueues (enqueues id c time) db db' h = elim (Option-cases (enqueue_tx 1 id c time db)) [
  | inl e ↦ absurd (ground (arith, h, e))
  | inr (err x, e) ↦ absurd (ground (arith, h, e))
  | inr (ok (a, d), e) ↦
      subst (Enqueues db.jobs) (ground (arith, h, e)) (enqueue_tx-Enqueues 1 id c time db a d e)
]

-- The callback may add a job to the table that the writes before it left.
pub notify_terminal-Enqueues :
    (cb : Callback) (id : ℕ) (db db' : Db)
    → notify_terminal cb id db ≡ ok db'
    → Enqueues db.jobs db'.jobs
unfolding notify_terminal
notify_terminal-Enqueues none id db db' h = subst (Enqueues db.jobs) (ground arith) nothing
notify_terminal-Enqueues (some f) id db db' h = elim (Option-cases (find_job id db.jobs)) [
  | inl e ↦ absurd (ground (arith, h, e))
  | inr (j, e) ↦
      react-Enqueues (f j db) (record db { notified = j ∷ db.notified }) db'
        (rw (e, notify_terminal) at h)
]

-- One row of the table was rewritten, and a job may have been added then.
abbrev pub Rewrites : ℕ → (Job → Job) → List Job → List Job → Type 0
Rewrites id f js = Enqueues (update_job id f js)

-- What is written before the callback runs is what it adds to.
notified_after :
    (cb : Callback) (id : ℕ) (n : Option ℕ) (kind : EventKind) (now : ℕ) (db db' : Db)
    → notify_terminal cb id (insert_job_events id n kind now db) ≡ ok db'
    → Enqueues db.jobs db'.jobs
notified_after cb id n kind now db db' h =
    subst (λ js. Enqueues js db'.jobs) (insert_job_events-jobs id n kind now db)
      (notify_terminal-Enqueues cb id (insert_job_events id n kind now db) db' h)

pub finish-Rewrites :
    (cb : Callback) (p : Permit) (n : ℕ) (status : Status) (outcome : Outcome) (now : ℕ)
    (result message : Option String) (t : Option ℕ) (db db' : Db)
    → finish cb p n status outcome now result message t db ≡ ok db'
    → Rewrites p.job_id
        (finish_job status t result message now (is_terminal status))
        db.jobs
        db'.jobs
unfolding finish finish_attempt
finish-Rewrites cb p n status outcome now result message t db db' h =
    elim (Bool-cases (calls_back status)) [
      | inl calls ↦ notified_after cb p.job_id _ _ now _ db' (rw (calls, finish) at h)
      | inr quiet ↦
          subst (Rewrites p.job_id _ db.jobs) (grind (arith, insert_job_events-jobs, h, quiet))
            nothing
    ]

pub cancel_locked-Rewrites :
    (cb : Callback) (row : Job) (now : ℕ) (finish_it : Bool) (db db' : Db)
    → cancel_locked cb row now finish_it db ≡ ok db'
    → Rewrites row.id (cancel_job now) db.jobs db'.jobs
unfolding cancel_locked finish_attempt
cancel_locked-Rewrites cb row now true db db' h = notified_after cb row.id _ _ now _ db' h
cancel_locked-Rewrites cb row now false db db' h = notified_after cb row.id _ _ now _ db' h

pub expire_exhausted-Rewrites :
    (cb : Callback) (row : Job) (now : ℕ) (db db' : Db)
    → expire_exhausted cb row now db ≡ ok db'
    → Rewrites row.id (finish_job failed none none exhausted_message now true) db.jobs db'.jobs
unfolding expire_exhausted finish_attempt
expire_exhausted-Rewrites cb row now db db' h = notified_after cb row.id _ _ now _ db' h

-- What a permit that is accepted says of its row.
pub lock_permit_row :
    (p : Permit) (statuses : List Status) (now : ℕ) (db : Db) (row : Job)
    → lock_permit p statuses now db ≡ ok row
    → (find_job p.job_id db.jobs ≡ some row) × (fits_permit p statuses now row ≡ true)
unfolding lock_permit
lock_permit_row p statuses now db row h = ground arith

pub is_leased : (s : Status) → contains_status (leased ∷ []) s ≡ true → s ≡ leased
unfolding contains_status
is_leased leased h = refl
is_leased _ h = cc

pub fits-leased :
    (p : Permit) (now : ℕ) (row : Job)
    → fits_permit p (leased ∷ []) now row ≡ true
    → row.status ≡ leased
fits-leased p now row h = ground (arith, is_leased row.status)

pub find_job-id : (id : ℕ) (js : List Job) (j : Job) → find_job id js ≡ some j → j.id ≡ id
find_job-id id [] j h = cc
find_job-id id (k ∷ js) j h = ground (arith, find_job-id id js j)

pub find_job_own :
    (id : ℕ) (js : List Job) (j : Job) → find_job id js ≡ some j → find_job j.id js ≡ some j
find_job_own id js j h = subst (λ n. find_job n js ≡ some j) (sym (find_job-id id js j h)) h

pub reaches :
    (db db' : Db) {ks : List Job} → Advances db.jobs ks → db'.jobs ≡ ks → Advances db.jobs db'.jobs
reaches db db' a e = rw e a

-- What is added afterwards is one step further.
pub Enqueues-Advances : {js ks ls : List Job} → Advances js ks → Enqueues ks ls → Advances js ls
Enqueues-Advances a nothing = a
Enqueues-Advances a (one_job id c payload now pos fresh free) =
    further a (row_added id c payload now pos fresh free)

-- A row found by its key and written by its key makes one step of the table.
pub moved :
    (id : ℕ) (f : Job → Job) (db db' : Db) (j : Job)
    → Rewrites id f db.jobs db'.jobs
    → find_job id db.jobs ≡ some j
    → Move j (f j)
    → Advances db.jobs db'.jobs
moved id f db db' j w found m = Enqueues-Advances (one_step (row_moves id f j found m)) w

-- A row that is only rewritten.
pub only :
    (id : ℕ) (f : Job → Job) (db db' : Db)
    → db'.jobs ≡ update_job id f db.jobs
    → Rewrites id f db.jobs db'.jobs
only id f db db' e = subst (Rewrites id f db.jobs) (sym e) nothing

-- An operation advances the table if it does so whenever it succeeds.
pub transaction-Advances :
    {A : Type 0} (db : Db) (r : Result Error (A × Db))
    → ((a : A) (db' : Db) → r ≡ ok (a, db') → Advances db.jobs db'.jobs)
    → Advances db.jobs (transaction db r).1.jobs
transaction-Advances db (ok (a, db')) h = h a db' refl
transaction-Advances db (err e) h = still

-- So does what is done under a permit, if it does so for the row of the permit.
pub with_permit :
    {A : Type 0} (p : Permit) (statuses : List Status) (now : ℕ) (db : Db)
    (f : Job → Result Error (A × Db))
    → ((row : Job)
        → find_job p.job_id db.jobs ≡ some row
        → fits_permit p statuses now row ≡ true
        → (a : A) (db' : Db) → f row ≡ ok (a, db')
        → Advances db.jobs db'.jobs)
    → (a : A) (db' : Db) → (lock_permit p statuses now db >>= f) ≡ ok (a, db')
    → Advances db.jobs db'.jobs
with_permit p statuses now db f k a db' h =
    let (row, locked, e) = >>=-eq-ok (lock_permit p statuses now db) f h in
    let (found, fits) = lock_permit_row p statuses now db row locked in k row found fits a db' e
