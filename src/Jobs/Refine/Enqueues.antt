-- ===== src/Jobs/Refine/Enqueues.antt =====
-- What Enqueue (internal/jobs/store.go) adds to the table `jobs`.
use command_prompter_doc_bot.Prelude.{
  ℕ, zero, suc, ◌<◌, ◌≡◌, subst, inl, inr, String, true, Option, none, some, List, [], ◌∷◌, ◌++◌,
  arith, Bool-cases, Option-cases, Result-cases, ok,
}
use command_prompter_doc_bot.Jobs.Types.{Command, validate_command}
use command_prompter_doc_bot.Jobs.Tables.{Db, EventKind, Job}
use command_prompter_doc_bot.Jobs.Queries.{find_active, find_job, insert_job_events, new_job}
use command_prompter_doc_bot.Jobs.Store.{enqueue_loop, enqueue_tx, insert_job, with_defaults}

pub insert_job_events-jobs :
    (id : ℕ) (n : Option ℕ) (kind : EventKind) (now : ℕ) (db : Db)
    → (insert_job_events id n kind now db).jobs ≡ db.jobs
unfolding insert_job_events
insert_job_events-jobs id n kind now db = ground arith

-- Nothing was added to the table, or one job was that Enqueue may add.
pub data Enqueues (js : List Job) : List Job → Type 0 where
  nothing : Enqueues js js
  one_job :
      (id : ℕ) (c : Command) (payload : String) (now : ℕ)
      → 0 < c.max_attempts
      → find_job id js ≡ none
      → find_active c.operation_key js ≡ none
      → Enqueues js (js ++ new_job id c payload now ∷ [])

-- What an insertion writes.
insert_job-Enqueues :
    (id : ℕ) (c : Command) (payload : String) (now : ℕ) (db db1 : Db)
    → 0 < c.max_attempts
    → insert_job id c payload now db ≡ ok (some db1)
    → Enqueues db.jobs db1.jobs
unfolding insert_job
insert_job-Enqueues id c payload now db db1 h e =
    elim (Option-cases (find_active c.operation_key db.jobs)) [
      | inr (k, active) ↦ cc
      | inl free ↦ elim (Option-cases (find_job id db.jobs)) [
        | inr (k, old) ↦ cc
        | inl fresh ↦
            subst (Enqueues db.jobs) (ground (arith, e, free, fresh))
              (one_job id c payload now h fresh free)
      ]
    ]

enqueue_loop-Enqueues :
    (fuel id : ℕ) (c : Command) (payload : String) (now : ℕ) (db : Db)
    → 0 < c.max_attempts
    → (a : ℕ) (db' : Db) → enqueue_loop fuel id c payload now db ≡ some (ok (a, db'))
    → Enqueues db.jobs db'.jobs
unfolding enqueue_loop
enqueue_loop-Enqueues zero id c payload now db h a db' e = cc
enqueue_loop-Enqueues (suc fuel) id c payload now db h a db' e =
    elim (Result-cases (insert_job id c payload now db)) [
      | inr (x, bad) ↦ absurd (ground (arith, e, bad))
      | inl (some db1, good) ↦
          subst (Enqueues db.jobs) (grind (arith, insert_job_events-jobs, e, good))
            (insert_job-Enqueues id c payload now db db1 h good)
      | inl (none, taken) ↦ elim (Option-cases (find_active c.operation_key db.jobs)) [
        | inr (j, active) ↦ subst (Enqueues db.jobs) (ground (arith, e, taken, active)) nothing
        | inl free ↦
            enqueue_loop-Enqueues fuel id c payload now db h a db' (ground (arith, e, taken, free))
      ]
    ]

valid_attempts : (c : Command) → validate_command c ≡ true → 0 < c.max_attempts
unfolding validate_command
valid_attempts c h = ground arith

pub enqueue_tx-Enqueues :
    (fuel id : ℕ) (c : Command) (now : ℕ) (db : Db) (a : ℕ) (db' : Db)
    → enqueue_tx fuel id c now db ≡ some (ok (a, db'))
    → Enqueues db.jobs db'.jobs
unfolding enqueue_tx
enqueue_tx-Enqueues fuel id c now db a db' e =
    elim (Bool-cases (validate_command (with_defaults c))) [
      | inr bad ↦ absurd (ground (arith, e, bad))
      | inl good ↦ elim (Option-cases c.payload) [
        | inl no_json ↦ absurd (ground (arith, e, good, no_json))
        | inr (payload, json) ↦
            enqueue_loop-Enqueues fuel id (with_defaults c) payload now db (valid_attempts _ good) a
              db' (ground (arith, e, good, json))
      ]
    ]
