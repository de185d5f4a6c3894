-- ===== src/Jobs/Purging.antt =====
-- The queue with the terminal callback of the service: tests, and theorems at inputs that meet their
-- hypotheses.
use command_prompter_doc_bot.Prelude.{
  ℕ, ◌≡◌, refl, true, Option, none, some, List, [], ◌∷◌, arith, Result, ok, err,
}
use command_prompter_doc_bot.Jobs.Types.{
  Error, Permit, failed, pending, purge_knowledge_base, validate_command, validate_permit,
}
use command_prompter_doc_bot.Jobs.Tables.{Db, Job}
use command_prompter_doc_bot.Jobs.Queries.{
  find_active, finish_attempt, finish_job, insert_job_events, new_job,
}
use command_prompter_doc_bot.Jobs.Store.{
  contains_status, enqueue_tx, fail_tx, finish, lock_permit, notify_terminal, react,
}
use command_prompter_doc_bot.Jobs.Claim.{claim_loop}
use command_prompter_doc_bot.Jobs.Runs.{Operation, fail, perform, run}
use command_prompter_doc_bot.Jobs.Machine.{Advances}
use command_prompter_doc_bot.Jobs.Refine.Histories.{perform-Advances}
use command_prompter_doc_bot.Jobs.Claiming.Rounds.{claim_loop_total}
use command_prompter_doc_bot.Jobs.OperationKeys.{UniqueKeys, run-UniqueKeys}
use command_prompter_doc_bot.Jobs.Terminal.{
  Domain, callback, dispatch, is_latest, newest, purge_recovery, purge_terminal,
}
use command_prompter_doc_bot.Jobs.Recovering.{notify_terminal-recovers}
use command_prompter_doc_bot.Jobs.Examples.{empty, running, second, statuses, unlocked}

-- The last attempt of a purge that has begun to delete: the callback of the service enqueues a
-- recovery.
abbrev service : Domain
service = record {
  uuid_text = λ id. "4";
  recovery_delay = 60;
  draws = λ db. 8;
  pending_delete = λ id. true;
  intent_exists = λ id. true;
  succeeds = λ j db. true;
}

abbrev purging : Job
purging = record running {
  job_type = purge_knowledge_base;
  target_type = "knowledge_base";
  operation_key = "purge-knowledge-base:4";
}

abbrev deleting : Db
deleting = record empty { jobs = purging ∷ [] }

abbrev purge_fails : List (ℕ × Operation)
purge_fails = (60, fail second "the disk is full") ∷ []

purge_recovered :
    statuses (run (some (callback service)) purge_fails deleting).jobs ≡ failed ∷ pending ∷ []
unfolding run perform fail_tx lock_permit validate_permit contains_status finish finish_job
    finish_attempt insert_job_events notify_terminal react callback dispatch purge_terminal
    is_latest newest purge_recovery enqueue_tx validate_command find_active new_job
purge_recovered = refl

run-UniqueKeys_example : UniqueKeys (run (some (callback service)) purge_fails deleting).jobs
unfolding find_active
run-UniqueKeys_example =
    run-UniqueKeys (some (callback service)) purge_fails deleting (refl, tt) ((λ _. refl), tt)

perform-Advances_example :
    Advances deleting.jobs
      (perform (some (callback service)) 60 (fail second "the disk is full") deleting).jobs
perform-Advances_example =
    perform-Advances (some (callback service)) 60 (fail second "the disk is full") deleting
      (refl, tt)

-- A round of Claim ends the purge, whose lease has expired, and the next one finds nothing due.
claim_loop_total_example :
    (r : Result Error (Option Permit × Db)) × (claim_loop
        (some (callback service))
        unlocked
        "w3"
        30
        ((90, 90) ∷ (91, 91) ∷ [])
        deleting
      ≡ some r)
claim_loop_total_example =
    claim_loop_total (some (callback service)) unlocked "w3" 30 ((90, 90) ∷ (91, 91) ∷ []) deleting
      (refl, tt) (omega arith)

abbrev ended : Job
ended = record purging {
  status = failed;
  lease_owner = none;
  lease_expires_at = none;
  finished_at = some 60;
}

abbrev notified : Result Error Db
notified = notify_terminal (some (callback service)) 7 (record empty { jobs = ended ∷ [] })

abbrev db_of : Result Error Db → Db
db_of (ok db) = db
db_of (err e) = empty

notified-ok : notified ≡ ok (db_of notified)
unfolding notify_terminal react callback dispatch purge_terminal is_latest newest purge_recovery
    enqueue_tx validate_command find_active new_job insert_job_events
notified-ok = refl

ended_latest : is_latest ended (ended ∷ []) ≡ true
unfolding is_latest newest
ended_latest = refl

notify_terminal-recovers_example :
    (row : Job) × (find_active "purge-knowledge-base:4" (db_of notified).jobs ≡ some row)
notify_terminal-recovers_example =
    notify_terminal-recovers service 7 (record empty { jobs = ended ∷ [] }) (db_of notified) ended
      refl refl ended_latest refl refl notified-ok
