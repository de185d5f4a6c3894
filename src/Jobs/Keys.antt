-- ===== src/Jobs/Keys.antt =====
-- The two keys of the table `jobs`: its primary key, and the operation keys of active jobs
-- (the partial index that InsertJob of internal/database/sqlc/jobs.sql.go relies on).
use command_prompter_doc_bot.Prelude.{
  ℕ, ◌≡◌, refl, ap, inl, inr, true, none, some, List, [], ◌∷◌, ◌++◌, arith, ◌==◌, if◌then◌else◌,
  Bool-cases,
}
use command_prompter_doc_bot.Jobs.Tables.{Job}
use command_prompter_doc_bot.Jobs.Queries.{
  find_job, update_job, is_active, new_job, lease_job, heartbeat_job, finish_job, cancel_job,
  request_job_cancellation,
}
use command_prompter_doc_bot.Jobs.Eligible.{is_due}
use command_prompter_doc_bot.Jobs.Machine.{
  Move, leases, heartbeats, completes, retries, gives_up, requests, cancels, TableStep, row_moves,
  row_added, Advances, still, further,
}
use command_prompter_doc_bot.Jobs.Selection.{UniqueIds}

-- What no statement writes to a row.
pub record SameRow (j k : Job) : Type 0 where
  pub same_id : k.id ≡ j.id
  pub same_key : k.operation_key ≡ j.operation_key
  pub same_limit : k.max_attempts ≡ j.max_attempts
  pub same_created : k.created_at ≡ j.created_at

pub Move-SameRow : {j k : Job} → Move j k → SameRow j k
unfolding lease_job heartbeat_job finish_job cancel_job request_job_cancellation
Move-SameRow (leases worker due now lease_for a b c) = ground arith
Move-SameRow (heartbeats now lease_for a) = ground arith
Move-SameRow (completes text now a) = ground arith
Move-SameRow (retries message t now a b) = ground arith
Move-SameRow (gives_up message now a) = ground arith
Move-SameRow (requests now a) = ground arith
Move-SameRow (cancels now a) = ground arith

-- Only an active job moves.
pub Move-is_active : {j k : Job} → Move j k → is_active j.status ≡ true
unfolding is_due
Move-is_active {j} (leases worker due now lease_for a b c) = ground arith
Move-is_active (heartbeats now lease_for a) = ground arith
Move-is_active (completes text now a) = ground arith
Move-is_active (retries message t now a b) = ground arith
Move-is_active (gives_up message now a) = ground arith
Move-is_active (requests now a) = ground arith
Move-is_active (cancels now a) = a

pub find_job-update_job :
    (i id : ℕ) (f : Job → Job) (js : List Job) (j : Job)
    → find_job id js ≡ some j
    → (f j).id ≡ j.id
    → find_job i (update_job id f js) ≡ (if i == id then some (f j) else find_job i js)
find_job-update_job i id f [] j h e = cc
find_job-update_job i id f (k ∷ ks) j h e = elim (Bool-cases (k.id == id)) [
  | inl same ↦
      let kj : k ≡ j = ground (arith, h, same) in
      rw (same, kj) (ground (arith, same, e, ap (λ (x : Job). x.id) kj))
  | inr other ↦
      let ih = find_job-update_job i id f ks j (ground (arith, h, other)) e in
      rw other (ground (arith, other, ih))
]

pub find_job-append :
    (i : ℕ) (js : List Job) (k : Job)
    → find_job i (js ++ k ∷ [])
      ≡ elim (find_job i js) [ none ↦ if k.id == i then some k else none | some j ↦ some j ]
find_job-append i [] k = refl
find_job-append i (j ∷ js) k = elim (Bool-cases (j.id == i)) [
  | inl same ↦ rw same
  | inr other ↦ rw other (find_job-append i js k)
]

UniqueIds-update_job :
    (id : ℕ) (f : Job → Job) (js : List Job) (j : Job)
    → find_job id js ≡ some j
    → (f j).id ≡ j.id
    → UniqueIds js
    → UniqueIds (update_job id f js)
UniqueIds-update_job id f [] j h e u = cc
UniqueIds-update_job id f (k ∷ ks) j h e u = elim (Bool-cases (k.id == id)) [
  | inl same ↦
      let kj : k ≡ j = ground (arith, h, same) in
      rw same (ground (arith, e, u.0, kj, ap f kj, ap (λ (x : Job). x.id) kj), u.1)
  | inr other ↦
      let rest : find_job id ks ≡ some j = ground (arith, h, other) in
      rw other (
        ground (arith, find_job-update_job k.id id f ks j rest e, u.0, other),
        UniqueIds-update_job id f ks j rest e u.1,
      )
]

UniqueIds-append :
    (js : List Job) (k : Job) → find_job k.id js ≡ none → UniqueIds js → UniqueIds (js ++ k ∷ [])
UniqueIds-append [] k h u = (refl, tt)
UniqueIds-append (j ∷ js) k h u = (
  ground (arith, find_job-append j.id js k, h, u.0),
  UniqueIds-append js k (ground (arith, h)) u.1,
)

-- Every step keeps the ids distinct.
pub TableStep-UniqueIds : {js ks : List Job} → TableStep js ks → UniqueIds js → UniqueIds ks
unfolding new_job
TableStep-UniqueIds {js} (row_moves id f j found m) u =
    UniqueIds-update_job id f js j found (Move-SameRow m).same_id u
TableStep-UniqueIds {js} (row_added id c payload now pos fresh free) u =
    UniqueIds-append js (new_job id c payload now) fresh u

pub Advances-UniqueIds : {js ks : List Job} → Advances js ks → UniqueIds js → UniqueIds ks
Advances-UniqueIds still u = u
Advances-UniqueIds (further a s) u = TableStep-UniqueIds s (Advances-UniqueIds a u)
