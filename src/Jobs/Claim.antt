-- ===== src/Jobs/Claim.antt =====
-- Claim of internal/jobs/store.go: the loop that clears cancelled and exhausted rows until it
-- leases one, and the operations of the queue as one type.
use command_prompter_doc_bot.Prelude.{
  ℕ, ◌+◌, String, str_eq, Bool, true, ◌&&◌, Option, none, some, List, [], ◌∷◌, leb, if◌then◌else◌,
  Result, ok, err,
}
use command_prompter_doc_bot.Jobs.Types.{
  leased, cancel_requested, same_status, Error, invalid_argument, Permit,
}
use command_prompter_doc_bot.Jobs.Tables.{Job, claimed, lease_expired, Db}
use command_prompter_doc_bot.Jobs.Queries.{
  lease_job, insert_job_attempt, finish_attempt, insert_job_events,
}
use command_prompter_doc_bot.Jobs.Eligible.{lock_eligible_job}
use command_prompter_doc_bot.Jobs.Store.{Callback, on_job, cancel_locked, expire_exhausted}

-- What a round of the loop comes to: it returns, or it goes on.
pub data Round : Type 0 where
  returns : Option Permit → Db → Round
  goes_on : Db → Round
  fails : Error → Round

abbrev pub go_on : Result Error Db → Round
go_on (ok db) = goes_on db
go_on (err e) = fails e

unfoldable pub lease_row : String → ℕ → ℕ → Job → Db → Round
lease_row worker lease_for now row db =
    let attempt_number = row.attempt_count + 1 in
    let generation = row.lease_generation + 1 in
    let db1 =
      if same_status row.status leased
      then finish_attempt now lease_expired none row.id row.lease_generation db
      else db in
    let db2 = on_job row.id (lease_job attempt_number worker now lease_for generation) db1 in
    let db3 = insert_job_attempt row.id attempt_number generation worker now db2 in
    returns (some (record { job_id = row.id; worker_id = worker; lease_generation = generation }))
      (insert_job_events row.id (some attempt_number) claimed now db3)

unfoldable pub claim_row : Callback → String → ℕ → ℕ → Job → Db → Round
claim_row callback worker lease_for now row db =
    if same_status row.status cancel_requested
    then go_on (cancel_locked callback row now true db)
    else if same_status row.status leased && leb row.max_attempts row.attempt_count
    then go_on (expire_exhausted callback row now db)
    else lease_row worker lease_for now row db

-- `query_now` is the clock inside the query, `now` the reading after it.
unfoldable pub claim_round : Callback → (ℕ → Bool) → String → ℕ → ℕ → ℕ → Db → Round
claim_round callback locked worker lease_for query_now now db =
    elim (lock_eligible_job locked query_now db) [
      | none ↦ returns none db
      | some row ↦ claim_row callback worker lease_for now row db
    ]

-- Each round takes one pair of readings of the clock; `none` means that they ran out.
unfoldable pub claim_loop :
    Callback
    → (ℕ → Bool)
    → String
    → ℕ
    → List (ℕ × ℕ)
    → Db
    → Option (Result Error (Option Permit × Db))
claim_loop callback locked worker lease_for [] db = none
claim_loop callback locked worker lease_for ((query_now, now) ∷ times) db =
    elim (claim_round callback locked worker lease_for query_now now db) [
      | returns permit db' ↦ some (ok (permit, db'))
      | goes_on db' ↦ claim_loop callback locked worker lease_for times db'
      | fails e ↦ some (err e)
    ]

unfoldable pub claim_tx :
    Callback
    → (ℕ → Bool)
    → String
    → ℕ
    → List (ℕ × ℕ)
    → Db
    → Option (Result Error (Option Permit × Db))
claim_tx callback locked worker lease_for times db =
    if str_eq worker ""
    then some (err invalid_argument)
    else if leb lease_for 0
    then some (err invalid_argument)
    else claim_loop callback locked worker lease_for times db
