-- ===== src/Jobs/Claiming/Leases.antt =====
-- The lease that a round of Claim (internal/jobs/store.go) grants.
use command_prompter_doc_bot.Prelude.{
  ℕ, ◌+◌, ◌≤◌, ◌<◌, ◌≡◌, refl, ap, ◌⊎◌, inl, inr, String, str_eq, Bool, true, false, ◌&&◌, Option,
  some, List, [], ◌∷◌, arith, leb, Bool-cases, Option-cases, Result, ok, err, count_if, All,
}
use text.Mathlib.TextPositions.{eq_refl}
use command_prompter_doc_bot.Jobs.Types.{
  leased, cancel_requested, same_status, Error, Permit, validate_permit,
}
use command_prompter_doc_bot.Jobs.Tables.{Job, Db}
use command_prompter_doc_bot.Jobs.Queries.{find_job, update_job, lease_job}
use command_prompter_doc_bot.Jobs.Eligible.{
  holds_key, key_is_open, is_eligible, is_older, lock_eligible_job,
}
use command_prompter_doc_bot.Jobs.Store.{Callback, contains_status, lock_permit}
use command_prompter_doc_bot.Jobs.Claim.{returns, go_on, lease_row, claim_row, claim_round}
use command_prompter_doc_bot.Jobs.Selection.{
  In, may_claim, lock_eligible_job-least, UniqueIds, find_job-In,
}
use command_prompter_doc_bot.Jobs.Keys.{find_job-update_job}
use command_prompter_doc_bot.Jobs.Refine.Claims.{lease_row-jobs}

abbrev pub leased_as : String → ℕ → ℕ → Job → Job → Job
leased_as worker lease_for now row =
    lease_job (row.attempt_count + 1) worker now lease_for (row.lease_generation + 1)

abbrev pub permit_of : String → Job → Permit
permit_of worker row = record {
  job_id = row.id;
  worker_id = worker;
  lease_generation = row.lease_generation + 1;
}

-- The row that a round leased, and what it wrote.
pub record Granted (locked : ℕ → Bool) (worker : String) (lease_for query_now now : ℕ) (db db' : Db)
    (p : Permit) (row : Job) : Type 0 where
  pub inside : In row db.jobs
  pub chosen : may_claim locked query_now db row ≡ true
  pub least : All (λ k. (may_claim locked query_now db k ≡ false) ⊎ (is_older row k ≡ true)) db.jobs
  pub permit : p ≡ permit_of worker row
  pub written : db'.jobs ≡ update_job row.id (leased_as worker lease_for now row) db.jobs

go_on-no_permit : (r : Result Error Db) (p : Option Permit) (db' : Db) → go_on r ≡ returns p db' → ⊥
go_on-no_permit (ok d) p db' h = cc
go_on-no_permit (err e) p db' h = cc

pub claim_row-leases :
    (cb : Callback) (worker : String) (lease_for now : ℕ) (row : Job) (db db' : Db)
    (p : Option Permit)
    → claim_row cb worker lease_for now row db ≡ returns p db'
    → lease_row worker lease_for now row db ≡ returns p db'
unfolding claim_row
claim_row-leases cb worker lease_for now row db db' p h =
    elim (Bool-cases (same_status row.status cancel_requested)) [
      | inl cancelling ↦ absurd (go_on-no_permit _ p db' (rw (cancelling, claim_row) at h))
      | inr other ↦
          elim (Bool-cases
            (same_status row.status leased && leb row.max_attempts row.attempt_count)) [
              | inl spent ↦ absurd (go_on-no_permit _ p db' (rw (other, spent, claim_row) at h))
              | inr left ↦ rw (other, left, claim_row) at h
            ]
    ]

lease_row-permit :
    (worker : String) (lease_for now : ℕ) (row : Job) (db db' : Db) (p : Permit)
    → lease_row worker lease_for now row db ≡ returns (some p) db'
    → p ≡ permit_of worker row
unfolding lease_row
lease_row-permit worker lease_for now row db db' p h = ground arith

-- A round that hands out a permit leased an eligible row that no other transaction has locked, no
-- such row is older, and the permit names the row, the worker and the row's next generation.
pub claim_round-Granted :
    (cb : Callback) (locked : ℕ → Bool) (worker : String) (lease_for query_now now : ℕ)
    (db db' : Db) (p : Permit)
    → claim_round cb locked worker lease_for query_now now db ≡ returns (some p) db'
    → (row : Job) × Granted locked worker lease_for query_now now db db' p row
unfolding claim_round
claim_round-Granted cb locked worker lease_for query_now now db db' p h =
    elim (Option-cases (lock_eligible_job locked query_now db)) [
      | inl e ↦ absurd (ground (arith, h, e))
      | inr (row, e) ↦
          let (inside, may, least) = lock_eligible_job-least locked query_now db row e in
          let granted =
            claim_row-leases cb worker lease_for now row db db' (some p)
              (rw (e, claim_round) at h) in
          (
            row,
            record {
              inside = inside;
              chosen = may;
              least = least;
              permit = lease_row-permit worker lease_for now row db db' p granted;
              written = lease_row-jobs worker lease_for now row db db' (some p) granted;
            },
          )
    ]

fresh_lease-lock_permit :
    (worker : String) (lease_for now : ℕ) (row : Job) (db : Db)
    → str_eq worker "" ≡ false
    → 0 < lease_for
    → find_job row.id db.jobs ≡ some (leased_as worker lease_for now row row)
    → lock_permit (permit_of worker row) (leased ∷ []) now db
      ≡ ok (leased_as worker lease_for now row row)
unfolding lock_permit lease_job contains_status validate_permit
fresh_lease-lock_permit worker lease_for now row db named long found =
    ground (arith, eq_refl worker)

-- The permit that a round hands out is accepted for a leased row at the time of the claim, if the
-- ids of the rows are distinct, the worker has a name and the lease has a length.
pub claim_round-lock_permit :
    (cb : Callback) (locked : ℕ → Bool) (worker : String) (lease_for query_now now : ℕ)
    (db db' : Db) (p : Permit)
    → UniqueIds db.jobs
    → str_eq worker "" ≡ false
    → 0 < lease_for
    → claim_round cb locked worker lease_for query_now now db ≡ returns (some p) db'
    → (row : Job) × (lock_permit p (leased ∷ []) now db' ≡ ok row)
unfolding lease_job
claim_round-lock_permit cb locked worker lease_for query_now now db db' p u named long h =
    let (row, g) = claim_round-Granted cb locked worker lease_for query_now now db db' p h in
    let found = find_job-In row db.jobs u g.inside in
    let kept =
      find_job-update_job row.id row.id (leased_as worker lease_for now row) db.jobs row found
        refl in
    let there : find_job row.id db'.jobs ≡ some (leased_as worker lease_for now row row) =
      rw g.written (ground (arith, kept)) in
    (
      leased_as worker lease_for now row row,
      rw g.permit (fresh_lease-lock_permit worker lease_for now row db' named long there),
    )

open_key :
    (now : ℕ) (db : Db) (row : Job)
    → is_eligible now db row ≡ true
    → str_eq row.concurrency_key "" ≡ false
    → count_if (holds_key row.concurrency_key now) db.jobs < row.concurrency_limit
unfolding is_eligible key_is_open
open_key now db row h keyed = ground arith

count_if-update_job :
    (q : Job → Bool) (id : ℕ) (f : Job → Job) (js : List Job)
    → count_if q (update_job id f js) ≤ count_if q js + 1
count_if-update_job q id f [] = omega arith
count_if-update_job q id f (j ∷ js) = ground (arith, count_if-update_job q id f js)

-- After a round that hands out a permit on a row with a concurrency key, at most as many live
-- leases as the row's concurrency limit hold that key, at the time of the query.
pub claim_round-concurrency :
    (cb : Callback) (locked : ℕ → Bool) (worker : String) (lease_for query_now now : ℕ)
    (db db' : Db) (p : Permit)
    → claim_round cb locked worker lease_for query_now now db ≡ returns (some p) db'
    → (row : Job) × In row db.jobs
      × (p.job_id ≡ row.id)
      × ((str_eq row.concurrency_key "" ≡ true)
          ⊎ (count_if (holds_key row.concurrency_key query_now) db'.jobs ≤ row.concurrency_limit))
claim_round-concurrency cb locked worker lease_for query_now now db db' p h =
    let (row, g) = claim_round-Granted cb locked worker lease_for query_now now db db' p h in
    (
      row,
      g.inside,
      ap (λ (x : Permit). x.job_id) g.permit,
      elim (Bool-cases (str_eq row.concurrency_key "")) [
        | inl unkeyed ↦ inl unkeyed
        | inr keyed ↦ inr (rw g.written (within row keyed g.chosen))
      ],
    )
  where
    within :
        (row : Job)
        → str_eq row.concurrency_key "" ≡ false
        → may_claim locked query_now db row ≡ true
        → count_if
            (holds_key row.concurrency_key query_now)
            (update_job row.id (leased_as worker lease_for now row) db.jobs)
          ≤ row.concurrency_limit
    within row keyed chosen = omega (
      arith,
      open_key query_now db row (ground (arith, chosen)) keyed,
      count_if-update_job (holds_key row.concurrency_key query_now) row.id
          (leased_as worker lease_for now row) db.jobs,
    )
