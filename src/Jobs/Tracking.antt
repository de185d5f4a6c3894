-- ===== src/Jobs/Tracking.antt =====
-- A row followed through a history: terminal rows stay as they are, and a permit whose lease was
-- superseded is refused for good (the fencing of internal/jobs/store.go).
use command_prompter_doc_bot.Prelude.{
  ℕ, ◌≤◌, ◌<◌, ◌≡◌, refl, sym, ap, subst, ◌∙◌, true, false, some, List, arith, ◌==◌, Bool-cases,
  inl, inr, err,
}
use command_prompter_doc_bot.Jobs.Types.{Status, stale_permit, Permit, validate_permit}
use command_prompter_doc_bot.Jobs.Tables.{Job, Db}
use command_prompter_doc_bot.Jobs.Queries.{
  find_job, is_active, new_job, lease_job, heartbeat_job, finish_job, cancel_job,
  request_job_cancellation,
}
use command_prompter_doc_bot.Jobs.Runs.{Operation, run}
use command_prompter_doc_bot.Jobs.Store.{Callback, lock_permit}
use command_prompter_doc_bot.Jobs.Machine.{
  Move, leases, heartbeats, completes, retries, gives_up, requests, cancels, Moves, stays, goes,
  Moves-trans, TableStep, row_moves, row_added, Advances, still, further,
}
use command_prompter_doc_bot.Jobs.Selection.{UniqueIds}
use command_prompter_doc_bot.Jobs.Keys.{
  Move-SameRow, Move-is_active, find_job-update_job, find_job-append,
}
use command_prompter_doc_bot.Jobs.Refine.Histories.{run-Advances}

-- The row under an id afterwards, and how it came about.
abbrev pub Tracks : ℕ → Job → List Job → Type 0
Tracks id j ks = (k : Job) × (find_job id ks ≡ some k) × Moves j k

TableStep-Tracks :
    (id : ℕ) (j : Job) {js ks : List Job}
    → TableStep js ks
    → find_job id js ≡ some j
    → Tracks id j ks
TableStep-Tracks id j {js} (row_moves i f k found m) h = elim (Bool-cases (id == i)) [
  | inl same ↦
      let kj : k ≡ j = ground (arith, found, h, same) in
      (
        f k,
        rw (find_job-update_job id i f js k found (Move-SameRow m).same_id, same) refl,
        subst (λ x. Moves x (f k)) kj (goes stays m),
      )
  | inr other ↦
      (j, rw (find_job-update_job id i f js k found (Move-SameRow m).same_id, other) h, stays)
]
TableStep-Tracks id j {js} (row_added i c payload now pos fresh free) h =
    (j, rw (find_job-append id js (new_job i c payload now), h) refl, stays)

pub Advances-Tracks :
    (id : ℕ) (j : Job) {js ks : List Job}
    → Advances js ks
    → find_job id js ≡ some j
    → Tracks id j ks
Advances-Tracks id j still h = (j, h, stays)
Advances-Tracks id j (further a s) h =
    let (k, found, m) = Advances-Tracks id j a h in
    let (l, found', m') = TableStep-Tracks id k s found in (l, found', Moves-trans m m')

-- Only active rows move.
Moves-inactive : {j k : Job} → Moves j k → is_active j.status ≡ false → k ≡ j
Moves-inactive stays h = refl
Moves-inactive (goes r m) h =
    let e = Moves-inactive r h in
    absurd (true_is_false (sym (Move-is_active m) ∙ ap (λ (x : Job). is_active x.status) e ∙ h))
  where
    true_is_false : true ≡ false → ⊥
    true_is_false p = cc

-- A row that has succeeded, failed or been cancelled is the same row after every history, if the
-- ids of the rows are distinct.
pub run-terminal :
    (cb : Callback) (ops : List (ℕ × Operation)) (db : Db) (id : ℕ) (j : Job)
    → UniqueIds db.jobs
    → find_job id db.jobs ≡ some j
    → is_active j.status ≡ false
    → find_job id (run cb ops db).jobs ≡ some j
run-terminal cb ops db id j u h inactive =
    let (k, found, m) = Advances-Tracks id j (run-Advances cb ops db u) h in
    found ∙ ap some (Moves-inactive m inactive)

Move-generation : {j k : Job} → Move j k → j.lease_generation ≤ k.lease_generation
unfolding lease_job heartbeat_job finish_job cancel_job request_job_cancellation
Move-generation (leases worker due now lease_for a b c) = omega arith
Move-generation (heartbeats now lease_for a) = omega arith
Move-generation (completes text now a) = omega arith
Move-generation (retries message t now a b) = omega arith
Move-generation (gives_up message now a) = omega arith
Move-generation (requests now a) = omega arith
Move-generation (cancels now a) = omega arith

Moves-generation : {j k : Job} → Moves j k → j.lease_generation ≤ k.lease_generation
Moves-generation stays = omega arith
Moves-generation (goes r m) = omega (arith, Moves-generation r, Move-generation m)

old_permit :
    (p : Permit) (statuses : List Status) (now : ℕ) (db : Db) (row : Job)
    → validate_permit p ≡ true
    → find_job p.job_id db.jobs ≡ some row
    → p.lease_generation < row.lease_generation
    → lock_permit p statuses now db ≡ err stale_permit
unfolding lock_permit
old_permit p statuses now db row valid found old = ground arith

-- A permit whose row has been leased again since is refused as stale after every history, at every
-- time and for every set of statuses, if the ids of the rows are distinct.
pub run-stale_permit :
    (cb : Callback) (ops : List (ℕ × Operation)) (db : Db) (p : Permit) (row : Job)
    (statuses : List Status) (now : ℕ)
    → UniqueIds db.jobs
    → validate_permit p ≡ true
    → find_job p.job_id db.jobs ≡ some row
    → p.lease_generation < row.lease_generation
    → lock_permit p statuses now (run cb ops db) ≡ err stale_permit
run-stale_permit cb ops db p row statuses now u valid found old =
    let (k, found', m) = Advances-Tracks p.job_id row (run-Advances cb ops db u) found in
    old_permit p statuses now (run cb ops db) k valid found'
      (omega (arith, Moves-generation m, old))
