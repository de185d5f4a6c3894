-- ===== src/Jobs/Claiming/Rounds.antt =====
-- The loop of Claim (internal/jobs/store.go) ends, and hands out nothing only if nothing is due.
use command_prompter_doc_bot.Prelude.{
  ℕ, suc, ◌<◌, ◌≡◌, refl, subst, inl, inr, String, Bool, true, false, ◌&&◌, Option, none, some,
  List, [], ◌∷◌, arith, leb, ◌==◌, length, Bool-cases, Option-cases, Result, ok, err, count_if,
  count_if-append, All,
}
use mathlib.Core.List.{Memᴰ}
use command_prompter_doc_bot.Jobs.Claiming.Leases.{claim_row-leases}
use command_prompter_doc_bot.Jobs.Types.{
  Status, leased, failed, cancel_requested, same_status, Error, Permit,
}
use command_prompter_doc_bot.Jobs.Tables.{Job, Db}
use command_prompter_doc_bot.Jobs.Queries.{
  find_job, update_job, is_held, new_job, finish_job, cancel_job,
}
use command_prompter_doc_bot.Jobs.Eligible.{lock_eligible_job}
use command_prompter_doc_bot.Jobs.Store.{Callback, exhausted_message}
use command_prompter_doc_bot.Jobs.Claim.{
  Round, returns, goes_on, fails, go_on, lease_row, claim_row, claim_round, claim_loop,
}
use command_prompter_doc_bot.Jobs.Selection.{
  may_claim, lock_eligible_job-least, lock_eligible_job-none, UniqueIds, find_job-In,
}
use command_prompter_doc_bot.Jobs.Keys.{Advances-UniqueIds}
use command_prompter_doc_bot.Jobs.Refine.Writes.{
  Rewrites, cancel_locked-Rewrites, expire_exhausted-Rewrites,
}
use command_prompter_doc_bot.Jobs.Refine.Enqueues.{Enqueues, nothing, one_job}
use command_prompter_doc_bot.Jobs.Refine.Claims.{RoundAdvances, claim_round-Advances}

abbrev pub held_jobs : List Job → ℕ
held_jobs = count_if (λ j. is_held j.status)

held_jobs-update_job :
    (id : ℕ) (f : Job → Job) (js : List Job) (j : Job)
    → find_job id js ≡ some j
    → is_held j.status ≡ true
    → is_held (f j).status ≡ false
    → suc (held_jobs (update_job id f js)) ≡ held_jobs js
held_jobs-update_job id f [] j h a b = cc
held_jobs-update_job id f (k ∷ ks) j h a b = elim (Bool-cases (k.id == id)) [
  | inl same ↦ let kj : k ≡ j = ground (arith, h, same) in rw (same, kj, a, b) refl
  | inr other ↦
      let ih = held_jobs-update_job id f ks j (ground (arith, h, other)) a b in
      ground (arith, other, ih)
]

-- A job that is added is pending.
held_jobs-Enqueues : {js ks : List Job} → Enqueues js ks → held_jobs ks ≡ held_jobs js
unfolding new_job
held_jobs-Enqueues nothing = refl
held_jobs-Enqueues {js} (one_job id c payload now pos fresh free) =
    ground
      (arith, count_if-append (λ (j : Job). is_held j.status) js (new_job id c payload now ∷ []))

held_jobs-Rewrites :
    (id : ℕ) (f : Job → Job) (js ks : List Job) (j : Job)
    → Rewrites id f js ks
    → find_job id js ≡ some j
    → is_held j.status ≡ true
    → is_held (f j).status ≡ false
    → suc (held_jobs ks) ≡ held_jobs js
held_jobs-Rewrites id f js ks j w found a b =
    rw (held_jobs-Enqueues w) (held_jobs-update_job id f js j found a b)

held_if_cancelling : (s : Status) → same_status s cancel_requested ≡ true → is_held s ≡ true
held_if_cancelling cancel_requested h = refl
held_if_cancelling _ h = cc

held_if_leased : (s : Status) (b : Bool) → (same_status s leased && b) ≡ true → is_held s ≡ true
held_if_leased leased b h = refl
held_if_leased _ b h = cc

go_on-eq : (r : Result Error Db) (d : Db) → go_on r ≡ goes_on d → r ≡ ok d
go_on-eq (ok e) d h = ground arith
go_on-eq (err e) d h = cc

-- A round that goes on has ended one job that was held.
claim_row-ends :
    (cb : Callback) (worker : String) (lease_for now : ℕ) (row : Job) (db d : Db)
    → find_job row.id db.jobs ≡ some row
    → claim_row cb worker lease_for now row db ≡ goes_on d
    → suc (held_jobs d.jobs) ≡ held_jobs db.jobs
unfolding claim_row lease_row cancel_job finish_job
claim_row-ends cb worker lease_for now row db d found h =
    elim (Bool-cases (same_status row.status cancel_requested)) [
      | inl cancelling ↦
          held_jobs-Rewrites row.id (cancel_job now) db.jobs d.jobs row
            (cancel_locked-Rewrites cb row now true db d
              (go_on-eq _ d (rw (cancelling, claim_row) at h)))
            found (held_if_cancelling row.status cancelling) refl
      | inr other ↦
          elim (Bool-cases
            (same_status row.status leased && leb row.max_attempts row.attempt_count)) [
              | inl spent ↦
                  held_jobs-Rewrites row.id (finish_job failed none none exhausted_message now true)
                    db.jobs d.jobs row
                    (expire_exhausted-Rewrites cb row now db d
                      (go_on-eq _ d (rw (other, spent, claim_row) at h)))
                    found (held_if_leased row.status _ spent) refl
              | inr left ↦ absurd (ground (arith, h, other, left))
            ]
    ]

claim_round-ends :
    (cb : Callback) (locked : ℕ → Bool) (worker : String) (lease_for query_now now : ℕ) (db d : Db)
    → UniqueIds db.jobs
    → claim_round cb locked worker lease_for query_now now db ≡ goes_on d
    → suc (held_jobs d.jobs) ≡ held_jobs db.jobs
unfolding claim_round
claim_round-ends cb locked worker lease_for query_now now db d u h =
    elim (Option-cases (lock_eligible_job locked query_now db)) [
      | inl e ↦ absurd (ground (arith, h, e))
      | inr (row, e) ↦
          let (inside, _, _) = lock_eligible_job-least locked query_now db row e in
          claim_row-ends cb worker lease_for now row db d (find_job-In row db.jobs u inside)
            (rw (e, claim_round) at h)
    ]

-- The loop ends: with more readings of the clock than jobs are leased or asked to be cancelled it comes to a result,
-- if the ids of the rows are distinct.
pub claim_loop_total :
    (cb : Callback) (locked : ℕ → Bool) (worker : String) (lease_for : ℕ) (times : List (ℕ × ℕ))
    (db : Db)
    → UniqueIds db.jobs
    → held_jobs db.jobs < length times
    → (r : Result Error (Option Permit × Db)) × (claim_loop cb locked worker lease_for times db
        ≡ some r)
unfolding claim_loop
claim_loop_total cb locked worker lease_for [] db u h = elim h [ ]
claim_loop_total cb locked worker lease_for ((query_now, now) ∷ times) db u h =
    go (claim_round cb locked worker lease_for query_now now db) refl
      (claim_round-Advances cb locked worker lease_for query_now now db u)
      (λ d v. claim_loop_total cb locked worker lease_for times d v)
  where
    go :
        (r : Round)
        → claim_round cb locked worker lease_for query_now now db ≡ r
        → RoundAdvances db r
        → ((d : Db)
            → UniqueIds d.jobs
            → held_jobs d.jobs < length times
            → (x : Result Error (Option Permit × Db)) × (claim_loop cb locked worker lease_for times
                  d
                ≡ some x))
        → (x : Result Error (Option Permit × Db)) × (claim_loop cb locked worker lease_for
              ((query_now, now) ∷ times)
              db
            ≡ some x)
    go (returns p d) e a rest = (ok (p, d), rw (e, claim_loop) refl)
    go (fails x) e a rest = (err x, rw (e, claim_loop) refl)
    go (goes_on d) e a rest =
        let (x, done) =
          rest d (Advances-UniqueIds a u)
            (omega (arith, claim_round-ends cb locked worker lease_for query_now now db d u e)) in
        (x, rw (e, claim_loop) done)

lease_row-has_permit :
    (worker : String) (lease_for now : ℕ) (row : Job) (db d : Db)
    → lease_row worker lease_for now row db ≡ returns none d
    → ⊥
unfolding lease_row
lease_row-has_permit worker lease_for now row db d h = ground (arith, h)

claim_round-idle :
    (cb : Callback) (locked : ℕ → Bool) (worker : String) (lease_for query_now now : ℕ) (db d : Db)
    → claim_round cb locked worker lease_for query_now now db ≡ returns none d
    → All (λ j. may_claim locked query_now d j ≡ false) d.jobs
unfolding claim_round
claim_round-idle cb locked worker lease_for query_now now db d h =
    elim (Option-cases (lock_eligible_job locked query_now db)) [
      | inl e ↦
          subst (λ (x : Db). All (λ j. may_claim locked query_now x j ≡ false) x.jobs) {y = d}
            (returned (rw (e, claim_round) at h)) (lock_eligible_job-none locked query_now db e)
      | inr (row, e) ↦ absurd (
          lease_row-has_permit worker lease_for now row db d
            (claim_row-leases cb worker lease_for now row db d none (rw (e, claim_round) at h)))
    ]
  where
    returned : {a b : Db} → returns none a ≡ returns none b → a ≡ b
    returned q = cc

-- The loop hands out no permit only if, at one of the readings of the clock, no unlocked row of the
-- table that it leaves is eligible.
pub claim_loop-idle :
    (cb : Callback) (locked : ℕ → Bool) (worker : String) (lease_for : ℕ) (times : List (ℕ × ℕ))
    (db db' : Db)
    → claim_loop cb locked worker lease_for times db ≡ some (ok (none, db'))
    → (reading : ℕ × ℕ) × Memᴰ reading times
      × All (λ j. may_claim locked reading.0 db' j ≡ false) db'.jobs
unfolding claim_loop
claim_loop-idle cb locked worker lease_for [] db db' h = cc
claim_loop-idle cb locked worker lease_for ((query_now, now) ∷ times) db db' h =
    go (claim_round cb locked worker lease_for query_now now db) refl
      (λ d. claim_loop-idle cb locked worker lease_for times d db')
  where
    go :
        (r : Round)
        → claim_round cb locked worker lease_for query_now now db ≡ r
        → ((d : Db)
            → claim_loop cb locked worker lease_for times d ≡ some (ok (none, db'))
            → (reading : ℕ × ℕ) × Memᴰ reading times
              × All (λ j. may_claim locked reading.0 db' j ≡ false) db'.jobs)
        → (reading : ℕ × ℕ) × Memᴰ reading ((query_now, now) ∷ times)
          × All (λ j. may_claim locked reading.0 db' j ≡ false) db'.jobs
    go (returns p d) e rest = (
      (query_now, now),
      Memᴰ.head refl,
      claim_round-idle cb locked worker lease_for query_now now db db' (ground (arith, h, e)),
    )
    go (fails x) e rest = absurd (ground (arith, h, e))
    go (goes_on d) e rest =
        let (reading, there, idle) = rest d (ground (arith, h, e)) in
        (reading, Memᴰ.tail there, idle)
