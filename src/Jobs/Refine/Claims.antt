-- ===== src/Jobs/Refine/Claims.antt =====
-- Claim (internal/jobs/store.go): each round leases one row, or ends one and goes on.
use command_prompter_doc_bot.Prelude.{
  ℕ, ◌+◌, ◌<◌, ◌≡◌, ◌≢◌, refl, subst, inl, inr, String, str_eq, Bool, true, false, ◌&&◌, Option,
  some, List, [], ◌∷◌, leb, arith, Bool-cases, Option-cases, Result, ok, err,
}
use command_prompter_doc_bot.Jobs.Types.{
  Error, Permit, Status, cancel_requested, cancelled, failed, leased, pending, retry_wait,
  same_status, succeeded,
}
use command_prompter_doc_bot.Jobs.Tables.{Db, Job}
use command_prompter_doc_bot.Jobs.Queries.{
  cancel_job, find_job, finish_attempt, insert_job_attempt, is_active, lease_job, update_job,
}
use command_prompter_doc_bot.Jobs.Eligible.{is_due, is_eligible, lock_eligible_job}
use command_prompter_doc_bot.Jobs.Store.{Callback}
use command_prompter_doc_bot.Jobs.Claim.{
  Round, claim_loop, claim_round, claim_row, claim_tx, fails, go_on, goes_on, lease_row, returns,
}
use command_prompter_doc_bot.Jobs.Machine.{
  Advances, Advances-trans, cancels, gives_up, leases, still,
}
use command_prompter_doc_bot.Jobs.Selection.{UniqueIds, find_job-In, lock_eligible_job-least}
use command_prompter_doc_bot.Jobs.Keys.{Advances-UniqueIds}
use command_prompter_doc_bot.Jobs.Refine.Enqueues.{insert_job_events-jobs}
use command_prompter_doc_bot.Jobs.Refine.Writes.{
  cancel_locked-Rewrites, expire_exhausted-Rewrites, moved, only, reaches,
}

-- What is due has work left to do, and what is due to be leased has attempts left.
pub is_due-is_active : (s : Status) (now : ℕ) (j : Job) → is_due s now j ≡ true → is_active s ≡ true
unfolding is_due
is_due-is_active pending now j h = refl
is_due-is_active leased now j h = refl
is_due-is_active retry_wait now j h = refl
is_due-is_active cancel_requested now j h = refl
is_due-is_active _ now j h = cc

pub due-attempts :
    (s : Status) (now : ℕ) (j : Job)
    → is_due s now j ≡ true
    → same_status s cancel_requested ≡ false
    → (same_status s leased && leb j.max_attempts j.attempt_count) ≡ false
    → j.attempt_count < j.max_attempts
unfolding is_due
due-attempts pending now j h a b = ground arith
due-attempts leased now j h a b = ground arith
due-attempts retry_wait now j h a b = ground arith
due-attempts cancel_requested now j h a b = cc
due-attempts _ now j h a b = cc

pub lease_row-jobs :
    (worker : String) (lease_for now : ℕ) (row : Job) (db db' : Db) (p : Option Permit)
    → lease_row worker lease_for now row db ≡ returns p db'
    → db'.jobs
      ≡ update_job row.id
          (lease_job (row.attempt_count + 1) worker now lease_for (row.lease_generation + 1))
          db.jobs
unfolding lease_row finish_attempt insert_job_attempt
lease_row-jobs worker lease_for now row db db' p h = grind (arith, insert_job_events-jobs)

same_status-eq : (s t : Status) → same_status s t ≡ true → s ≡ t
same_status-eq pending pending h = refl
same_status-eq leased leased h = refl
same_status-eq succeeded succeeded h = refl
same_status-eq retry_wait retry_wait h = refl
same_status-eq failed failed h = refl
same_status-eq cancel_requested cancel_requested h = refl
same_status-eq cancelled cancelled h = refl
same_status-eq _ _ h = cc

same_status_refl : (s : Status) → same_status s s ≡ true
same_status_refl pending = refl
same_status_refl _ = refl

not_same : (s t : Status) → same_status s t ≡ false → s ≢ t
not_same s t h e = cc (same_status_refl t, subst (λ x. same_status x t ≡ false) e h)

-- A round advances the table, whichever way it ends.
abbrev pub RoundAdvances : Db → Round → Type 0
RoundAdvances db (returns p db') = Advances db.jobs db'.jobs
RoundAdvances db (goes_on db') = Advances db.jobs db'.jobs
RoundAdvances db (fails e) = Unit

go_on-Advances :
    (db : Db) (r : Result Error Db)
    → ((db' : Db) → r ≡ ok db' → Advances db.jobs db'.jobs)
    → RoundAdvances db (go_on r)
go_on-Advances db (ok db') h = h db' refl
go_on-Advances db (err e) h = tt

leased_round :
    (worker : String) (lease_for due now : ℕ) (row : Job) (db : Db)
    → find_job row.id db.jobs ≡ some row
    → is_due row.status due row ≡ true
    → row.status ≢ cancel_requested
    → row.attempt_count < row.max_attempts
    → (r : Round) → lease_row worker lease_for now row db ≡ r
    → RoundAdvances db r
leased_round worker lease_for due now row db found due_now other left (returns p db') e =
    moved row.id _ db db' row
      (only row.id _ db db' (lease_row-jobs worker lease_for now row db db' p e)) found
      (leases worker due now lease_for due_now other left)
leased_round worker lease_for due now row db found due_now other left (goes_on d) e =
    absurd (unfold lease_row in ground (arith, e))
leased_round worker lease_for due now row db found due_now other left (fails x) e = tt

claim_row-Advances :
    (cb : Callback) (worker : String) (lease_for due now : ℕ) (row : Job) (db : Db)
    → find_job row.id db.jobs ≡ some row
    → is_due row.status due row ≡ true
    → RoundAdvances db (claim_row cb worker lease_for now row db)
unfolding claim_row
claim_row-Advances cb worker lease_for due now row db found due_now =
    elim (Bool-cases (same_status row.status cancel_requested)) [
      | inl cancelling ↦
          rw (cancelling, claim_row)
            (go_on-Advances db _ (λ db' e.
              moved row.id (cancel_job now) db db' row
                (cancel_locked-Rewrites cb row now true db db' e) found
                (cancels now (is_due-is_active row.status due row due_now))))
      | inr other ↦
          elim (Bool-cases
            (same_status row.status leased && leb row.max_attempts row.attempt_count)) [
              | inl spent ↦
                  rw (other, spent, claim_row)
                    (go_on-Advances db _ (λ db' e.
                      moved row.id _ db db' row (expire_exhausted-Rewrites cb row now db db' e)
                        found
                        (gives_up _ now
                          (same_status-eq row.status leased (ground (arith, spent))))))
              | inr left ↦
                  rw (other, left, claim_row)
                    (leased_round worker lease_for due now row db found due_now
                      (not_same row.status cancel_requested other)
                      (due-attempts row.status due row due_now other left) _ refl)
            ]
    ]

pub eligible-due :
    (now : ℕ) (db : Db) (j : Job) → is_eligible now db j ≡ true → is_due j.status now j ≡ true
unfolding is_eligible
eligible-due now db j h = ground arith

pub claim_round-Advances :
    (cb : Callback) (locked : ℕ → Bool) (worker : String) (lease_for query_now now : ℕ) (db : Db)
    → UniqueIds db.jobs
    → RoundAdvances db (claim_round cb locked worker lease_for query_now now db)
unfolding claim_round
claim_round-Advances cb locked worker lease_for query_now now db u =
    elim (Option-cases (lock_eligible_job locked query_now db)) [
      | inl e ↦ rw (e, claim_round) still
      | inr (row, e) ↦
          let (inside, may, _) = lock_eligible_job-least locked query_now db row e in
          rw (e, claim_round)
            (claim_row-Advances cb worker lease_for query_now now row db
              (find_job-In row db.jobs u inside)
              (eligible-due query_now db row (ground (arith, may))))
    ]

claim_loop-Advances :
    (cb : Callback) (locked : ℕ → Bool) (worker : String) (lease_for : ℕ) (times : List (ℕ × ℕ))
    (db : Db)
    → UniqueIds db.jobs
    → (p : Option Permit) (db' : Db)
    → claim_loop cb locked worker lease_for times db ≡ some (ok (p, db'))
    → Advances db.jobs db'.jobs
unfolding claim_loop
claim_loop-Advances cb locked worker lease_for [] db u p db' h = cc
claim_loop-Advances cb locked worker lease_for ((query_now, now) ∷ times) db u p db' h =
    go (claim_round cb locked worker lease_for query_now now db) refl
      (claim_round-Advances cb locked worker lease_for query_now now db u)
      (λ d v. claim_loop-Advances cb locked worker lease_for times d v p db')
  where
    go :
        (r : Round)
        → claim_round cb locked worker lease_for query_now now db ≡ r
        → RoundAdvances db r
        → ((d : Db)
            → UniqueIds d.jobs
            → claim_loop cb locked worker lease_for times d ≡ some (ok (p, db'))
            → Advances d.jobs db'.jobs)
        → Advances db.jobs db'.jobs
    go (returns q d) e a rest = reaches db db' a (ground (arith, h, e))
    go (goes_on d) e a rest =
        Advances-trans a (rest d (Advances-UniqueIds a u) (ground (arith, h, e)))
    go (fails x) e a rest = absurd (ground (arith, h, e))

pub claim_tx-Advances :
    (cb : Callback) (locked : ℕ → Bool) (worker : String) (lease_for : ℕ) (times : List (ℕ × ℕ))
    (db : Db)
    → UniqueIds db.jobs
    → (p : Option Permit) (db' : Db)
    → claim_tx cb locked worker lease_for times db ≡ some (ok (p, db'))
    → Advances db.jobs db'.jobs
unfolding claim_tx
claim_tx-Advances cb locked worker lease_for times db u p db' h =
    elim (Bool-cases (str_eq worker "")) [
      | inl bad ↦ absurd (ground (arith, h, bad))
      | inr named ↦ elim (Bool-cases (leb lease_for 0)) [
        | inl bad ↦ absurd (ground (arith, h, named, bad))
        | inr fine ↦
            claim_loop-Advances cb locked worker lease_for times db u p db'
              (ground (arith, h, named, fine))
      ]
    ]
