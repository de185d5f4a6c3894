-- ===== src/Jobs/Runs.antt =====
-- The operations of internal/jobs/store.go as one type, and histories of them.
use command_prompter_doc_bot.Prelude.{ℕ, String, Bool, Option, none, some, List, [], ◌∷◌, Result}
use command_prompter_doc_bot.Jobs.Types.{leased, cancel_requested, Error, Command, Permit}
use command_prompter_doc_bot.Jobs.Tables.{Db}
use command_prompter_doc_bot.Jobs.Store.{
  Callback, transaction, enqueue_tx, heartbeat_tx, complete_tx, retry_at_tx, retry_after_tx,
  fail_tx, request_cancel_tx, acknowledge_cancel_tx,
}
use command_prompter_doc_bot.Jobs.Claim.{claim_tx}

pub data Operation : Type 0 where
  enqueue : ℕ → ℕ → Command → Operation
  claim : (ℕ → Bool) → String → ℕ → List (ℕ × ℕ) → Operation
  heartbeat : Permit → ℕ → Operation
  succeed : Permit → Option String → Operation
  complete_accepted_result : Permit → Option String → Operation
  retry_at : Permit → String → ℕ → Operation
  retry_after : Permit → String → ℕ → Operation
  fail : Permit → String → Operation
  request_cancel : ℕ → Operation
  acknowledge_cancel : Permit → Operation

-- A loop that has not ended yet has committed nothing.
abbrev pub committed : {A : Type 0} → Db → Option (Result Error (A × Db)) → Db
committed db none = db
committed db (some r) = (transaction db r).1

unfoldable pub perform : Callback → ℕ → Operation → Db → Db
perform cb now (enqueue fuel id c) db = committed db (enqueue_tx fuel id c now db)
perform cb now (claim locked worker lease_for times) db =
    committed db (claim_tx cb locked worker lease_for times db)
perform cb now (heartbeat p lease_for) db = (transaction db (heartbeat_tx p lease_for now db)).1
perform cb now (succeed p result) db =
    (transaction db (complete_tx cb (leased ∷ []) p result now db)).1
perform cb now (complete_accepted_result p result) db =
    (transaction db (complete_tx cb (leased ∷ cancel_requested ∷ []) p result now db)).1
perform cb now (retry_at p message t) db = (transaction db (retry_at_tx cb p message t now db)).1
perform cb now (retry_after p message delay) db =
    (transaction db (retry_after_tx cb p message delay now db)).1
perform cb now (fail p message) db = (transaction db (fail_tx cb p message now db)).1
perform cb now (request_cancel id) db = (transaction db (request_cancel_tx cb id now db)).1
perform cb now (acknowledge_cancel p) db = (transaction db (acknowledge_cancel_tx cb p now db)).1

unfoldable pub run : Callback → List (ℕ × Operation) → Db → Db
run cb [] db = db
run cb ((now, op) ∷ ops) db = run cb ops (perform cb now op db)
