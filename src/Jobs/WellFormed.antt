-- ===== src/Jobs/WellFormed.antt =====
-- What holds of every row of the table `jobs` (internal/jobs/store.go,
-- internal/database/sqlc/jobs.sql.go).
use command_prompter_doc_bot.Prelude.{
  ℕ, String, ◌≤◌, ◌<◌, ◌≡◌, ◌≢◌, sym, subst, true, false, none, some, List, [], ◌∷◌, arith, All,
  All-append, ◌==◌, Bool-cases, inl, inr,
}
use command_prompter_doc_bot.Jobs.Types.{pending, succeeded, retry_wait, Command}
use command_prompter_doc_bot.Jobs.Tables.{Job, Db}
use command_prompter_doc_bot.Jobs.Queries.{
  find_job, update_job, is_active, is_held, new_job, lease_job, heartbeat_job, finish_job,
  cancel_job, request_job_cancellation,
}
use command_prompter_doc_bot.Jobs.Runs.{Operation, run}
use command_prompter_doc_bot.Jobs.Store.{Callback}
use command_prompter_doc_bot.Jobs.Machine.{
  Move, leases, heartbeats, completes, retries, gives_up, requests, cancels, TableStep, row_moves,
  row_added, Advances, still, further,
}
use command_prompter_doc_bot.Jobs.Selection.{UniqueIds}
use command_prompter_doc_bot.Jobs.Refine.Claims.{is_due-is_active}
use command_prompter_doc_bot.Jobs.Refine.Histories.{run-Advances}

pub record WellFormed (j : Job) : Type 0 where
  pub attempts_left : j.attempt_count ≤ j.max_attempts
  pub generation_counts : j.lease_generation ≡ j.attempt_count
  pub pending_fresh : j.status ≡ pending → j.attempt_count ≡ 0
  pub held_owner : is_held j.status ≡ true → j.lease_owner ≢ none
  pub held_expiry : is_held j.status ≡ true → j.lease_expires_at ≢ none
  pub held_attempt : is_held j.status ≡ true → 0 < j.attempt_count
  pub free_owner : is_held j.status ≡ false → j.lease_owner ≡ none
  pub free_expiry : is_held j.status ≡ false → j.lease_expires_at ≡ none
  pub retry_scheduled : j.status ≡ retry_wait → j.not_before ≢ none
  pub retry_attempts : j.status ≡ retry_wait → j.attempt_count < j.max_attempts
  pub active_unfinished : is_active j.status ≡ true → j.finished_at ≡ none
  pub terminal_finished : is_active j.status ≡ false → j.finished_at ≢ none
  pub succeeded_progress : j.status ≡ succeeded → j.progress ≡ 100
  pub succeeded_result : j.status ≡ succeeded → j.result ≢ none

new_job-WellFormed :
    (id : ℕ) (c : Command) (payload : String) (now : ℕ) → WellFormed (new_job id c payload now)
unfolding new_job
new_job-WellFormed id c payload now = ground arith

Move-WellFormed : {j k : Job} → Move j k → WellFormed j → WellFormed k
unfolding lease_job heartbeat_job finish_job cancel_job request_job_cancellation
Move-WellFormed {j} (leases worker due now lease_for a b c) w =
    ground (arith, is_due-is_active j.status due j a)
Move-WellFormed (heartbeats now lease_for a) w = ground arith
Move-WellFormed (completes text now a) w = ground arith
Move-WellFormed (retries message t now a b) w = ground arith
Move-WellFormed (gives_up message now a) w = ground arith
Move-WellFormed (requests now a) w = ground arith
Move-WellFormed (cancels now a) w = ground arith

update_job-WellFormed :
    (id : ℕ) (f : Job → Job) (js : List Job) (j : Job)
    → find_job id js ≡ some j
    → Move j (f j)
    → All WellFormed js
    → All WellFormed (update_job id f js)
update_job-WellFormed id f [] j h m w = tt
update_job-WellFormed id f (k ∷ ks) j h m w = elim (Bool-cases (k.id == id)) [
  | inl same ↦
      let kj : k ≡ j = ground (arith, h, same) in
      rw same
        (subst (λ x. WellFormed (f x)) (sym kj) (Move-WellFormed m (subst WellFormed kj w.0)), w.1)
  | inr other ↦ rw other (w.0, update_job-WellFormed id f ks j (ground (arith, h, other)) m w.1)
]

TableStep-WellFormed : {js ks : List Job} → TableStep js ks → All WellFormed js → All WellFormed ks
TableStep-WellFormed {js} (row_moves id f j found m) w = update_job-WellFormed id f js j found m w
TableStep-WellFormed {js} (row_added id c payload now pos fresh free) w =
    All-append WellFormed js _ w (new_job-WellFormed id c payload now, tt)

pub Advances-WellFormed :
    {js ks : List Job} → Advances js ks → All WellFormed js → All WellFormed ks
Advances-WellFormed still w = w
Advances-WellFormed (further a s) w = TableStep-WellFormed s (Advances-WellFormed a w)

-- Every history of operations keeps the rows of the table well formed, if their ids are distinct.
pub run-WellFormed :
    (cb : Callback) (ops : List (ℕ × Operation)) (db : Db)
    → UniqueIds db.jobs
    → All WellFormed db.jobs
    → All WellFormed (run cb ops db).jobs
run-WellFormed cb ops db u w = Advances-WellFormed (run-Advances cb ops db u) w
