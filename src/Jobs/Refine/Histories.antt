-- ===== src/Jobs/Refine/Histories.antt =====
-- Any operation of the store, and any history of them (internal/jobs/store.go).
use command_prompter_doc_bot.Prelude.{
  ℕ, ◌≡◌, true, refl, Option, none, some, List, [], ◌∷◌, Result, ok, err,
}
use command_prompter_doc_bot.Jobs.Types.{leased, Status, Error}
use command_prompter_doc_bot.Jobs.Tables.{Db}
use command_prompter_doc_bot.Jobs.Queries.{is_held}
use command_prompter_doc_bot.Jobs.Store.{Callback, contains_status}
use command_prompter_doc_bot.Jobs.Runs.{
  Operation, enqueue, claim, heartbeat, succeed, complete_accepted_result, retry_at, retry_after,
  fail, request_cancel, acknowledge_cancel, committed, perform, run,
}
use command_prompter_doc_bot.Jobs.Machine.{Advances, still, Advances-trans}
use command_prompter_doc_bot.Jobs.Selection.{UniqueIds}
use command_prompter_doc_bot.Jobs.Keys.{Advances-UniqueIds}
use command_prompter_doc_bot.Jobs.Refine.Permits.{
  heartbeat_tx-Advances, complete_tx-Advances, retry_after_tx-Advances, retry_at_tx-Advances,
  fail_tx-Advances, held_of_contains,
}
use command_prompter_doc_bot.Jobs.Refine.Cancels.{
  acknowledge_cancel_tx-Advances, request_cancel_tx-Advances,
}
use command_prompter_doc_bot.Jobs.Refine.Enqueues.{enqueue_tx-Enqueues}
use command_prompter_doc_bot.Jobs.Refine.Writes.{Enqueues-Advances}
use command_prompter_doc_bot.Jobs.Refine.Claims.{claim_tx-Advances}

committed-Advances :
    {A : Type 0} (db : Db) (o : Option (Result Error (A × Db)))
    → ((a : A) (db' : Db) → o ≡ some (ok (a, db')) → Advances db.jobs db'.jobs)
    → Advances db.jobs (committed db o).jobs
committed-Advances db none h = still
committed-Advances db (some (ok (a, db'))) h = h a db' refl
committed-Advances db (some (err e)) h = still

held_of_leased : (s : Status) → contains_status (leased ∷ []) s ≡ true → is_held s ≡ true
unfolding contains_status
held_of_leased leased h = refl
held_of_leased _ h = cc

-- Every operation of the queue, whether it succeeds or not, takes the table of jobs along the steps
-- of the machine only, if the ids of the rows are distinct.
pub perform-Advances :
    (cb : Callback) (now : ℕ) (op : Operation) (db : Db)
    → UniqueIds db.jobs
    → Advances db.jobs (perform cb now op db).jobs
unfolding perform
perform-Advances cb now (enqueue fuel id c) db u =
    committed-Advances db _
      (λ a db' e. Enqueues-Advances still (enqueue_tx-Enqueues fuel id c now db a db' e))
perform-Advances cb now (claim locked worker lease_for times) db u =
    committed-Advances db _ (claim_tx-Advances cb locked worker lease_for times db u)
perform-Advances cb now (heartbeat p lease_for) db u = heartbeat_tx-Advances p lease_for now db
perform-Advances cb now (succeed p result) db u =
    complete_tx-Advances cb p result now db _ held_of_leased
perform-Advances cb now (complete_accepted_result p result) db u =
    complete_tx-Advances cb p result now db _ held_of_contains
perform-Advances cb now (retry_at p message t) db u = retry_at_tx-Advances cb p message t now db
perform-Advances cb now (retry_after p message delay) db u =
    retry_after_tx-Advances cb p message delay now db
perform-Advances cb now (fail p message) db u = fail_tx-Advances cb p message now db
perform-Advances cb now (request_cancel id) db u = request_cancel_tx-Advances cb id now db
perform-Advances cb now (acknowledge_cancel p) db u = acknowledge_cancel_tx-Advances cb p now db

-- So does every history of operations.
pub run-Advances :
    (cb : Callback) (ops : List (ℕ × Operation)) (db : Db)
    → UniqueIds db.jobs
    → Advances db.jobs (run cb ops db).jobs
unfolding run
run-Advances cb [] db u = still
run-Advances cb ((now, op) ∷ ops) db u =
    let one = perform-Advances cb now op db u in
    Advances-trans one (run-Advances cb ops (perform cb now op db) (Advances-UniqueIds one u))
