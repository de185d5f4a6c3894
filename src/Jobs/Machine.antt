-- ===== src/Jobs/Machine.antt =====
-- What a row and the table `jobs` may do, whoever does it: the abstract machine that the operations
-- of internal/jobs/store.go refine.
use command_prompter_doc_bot.Prelude.{
  ℕ, ◌+◌, ◌<◌, ◌≡◌, ◌≢◌, String, true, false, none, some, List, [], ◌∷◌, ◌++◌,
}
use command_prompter_doc_bot.Jobs.Types.{
  leased, succeeded, retry_wait, failed, cancel_requested, Command,
}
use command_prompter_doc_bot.Jobs.Tables.{Job}
use command_prompter_doc_bot.Jobs.Queries.{
  find_job, update_job, is_active, is_held, find_active, new_job, lease_job, heartbeat_job,
  finish_job, cancel_job, request_job_cancellation,
}
use command_prompter_doc_bot.Jobs.Eligible.{is_due}

pub data Move (j : Job) : Job → Type 0 where
  leases :
      (worker : String) (due now lease_for : ℕ)
      → is_due j.status due j ≡ true
      → j.status ≢ cancel_requested
      → j.attempt_count < j.max_attempts
      → Move j (lease_job (j.attempt_count + 1) worker now lease_for (j.lease_generation + 1) j)
  heartbeats : (now lease_for : ℕ) → j.status ≡ leased → Move j (heartbeat_job now lease_for j)
  completes :
      (text : String) (now : ℕ)
      → is_held j.status ≡ true
      → Move j (finish_job succeeded none (some text) none now true j)
  retries :
      (message : String) (not_before now : ℕ)
      → j.status ≡ leased
      → j.attempt_count < j.max_attempts
      → Move j (finish_job retry_wait (some not_before) none (some message) now false j)
  gives_up :
      (message : String) (now : ℕ)
      → j.status ≡ leased
      → Move j (finish_job failed none none (some message) now true j)
  requests : (now : ℕ) → j.status ≡ leased → Move j (request_job_cancellation now j)
  cancels : (now : ℕ) → is_active j.status ≡ true → Move j (cancel_job now j)

pub data Moves (j : Job) : Job → Type 0 where
  stays : Moves j j
  goes : {k l : Job} → Moves j k → Move k l → Moves j l

pub data TableStep (js : List Job) : List Job → Type 0 where
  row_moves :
      (id : ℕ) (f : Job → Job) (j : Job)
      → find_job id js ≡ some j
      → Move j (f j)
      → TableStep js (update_job id f js)
  row_added :
      (id : ℕ) (c : Command) (payload : String) (now : ℕ)
      → 0 < c.max_attempts
      → find_job id js ≡ none
      → find_active c.operation_key js ≡ none
      → TableStep js (js ++ new_job id c payload now ∷ [])

pub data Advances (js : List Job) : List Job → Type 0 where
  still : Advances js js
  further : {ks ls : List Job} → Advances js ks → TableStep ks ls → Advances js ls

pub one_step : {js ks : List Job} → TableStep js ks → Advances js ks
one_step s = further still s

pub Advances-trans : {js ks ls : List Job} → Advances js ks → Advances ks ls → Advances js ls
Advances-trans a still = a
Advances-trans a (further b s) = further (Advances-trans a b) s

pub Moves-trans : {j k l : Job} → Moves j k → Moves k l → Moves j l
Moves-trans a stays = a
Moves-trans a (goes b m) = goes (Moves-trans a b) m
