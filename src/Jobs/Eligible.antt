-- ===== src/Jobs/Eligible.antt =====
-- LockEligibleJob of internal/database/sqlc/jobs.sql.go: which row a worker claims next.
use command_prompter_doc_bot.Prelude.{
  ℕ, ◌+◌, String, str_eq, Bool, true, false, not, ◌&&◌, ◌||◌, Option, none, some, List, [], ◌∷◌,
  ltb, leb, ◌==◌, if◌then◌else◌, count_if, keep, any,
}
use Prim.Native.String.{◌++◌ as str_append}
use command_prompter_doc_bot.Jobs.Types.{Status, pending, leased, retry_wait, cancel_requested}
use command_prompter_doc_bot.Jobs.Tables.{Job, Profile, CallLease, Db}
use command_prompter_doc_bot.Jobs.Queries.{is_held, at_or_before, after}

-- The row is due,
unfoldable pub is_due : Status → ℕ → Job → Bool
is_due pending now j =
    ltb j.attempt_count j.max_attempts && elim j.not_before [ none ↦ true | some t ↦ leb t now ]
is_due retry_wait now j = ltb j.attempt_count j.max_attempts && at_or_before j.not_before now
is_due leased now j = at_or_before j.lease_expires_at now
is_due cancel_requested now j = at_or_before j.lease_expires_at now
is_due _ now j = false

-- the lease of the row counts against its key,
abbrev pub holds_key : String → ℕ → Job → Bool
holds_key key now a =
    str_eq a.concurrency_key key && (is_held a.status && after a.lease_expires_at now)

unfoldable pub key_is_open : ℕ → List Job → Job → Bool
key_is_open now jobs j =
    str_eq j.concurrency_key ""
    || ltb (count_if (holds_key j.concurrency_key now) jobs) j.concurrency_limit

profile_key : Profile → String
profile_key p = str_append "model-profile:" p.id

-- the least `max_concurrent_tasks` over the profiles of the endpoint,
least_tasks : ℕ → List Profile → Option ℕ
least_tasks endpoint [] = none
least_tasks endpoint (p ∷ ps) =
    let rest = least_tasks endpoint ps in
    if p.endpoint_id == endpoint
    then elim rest [
      | none ↦ some p.max_concurrent_tasks
      | some n ↦ some (if ltb p.max_concurrent_tasks n then p.max_concurrent_tasks else n)
    ]
    else rest

-- the pairs of a live lease and a profile of the endpoint whose key it holds,
live_model_jobs : ℕ → ℕ → List Profile → List Job → ℕ
unfolding profile_key
live_model_jobs endpoint now [] jobs = 0
live_model_jobs endpoint now (p ∷ ps) jobs =
    (if p.endpoint_id == endpoint then count_if (holds_key (profile_key p) now) jobs else 0)
    + live_model_jobs endpoint now ps jobs

live_calls : ℕ → ℕ → List CallLease → ℕ
live_calls endpoint now calls =
    count_if (λ (c : CallLease). c.endpoint_id == endpoint && ltb now c.expires_at) calls

endpoint_is_full : ℕ → Db → ℕ → Bool
unfolding least_tasks live_model_jobs live_calls
endpoint_is_full now db endpoint = elim (least_tasks endpoint db.profiles) [
  | none ↦ false
  | some n ↦
      leb n
        (live_calls endpoint now db.call_leases + live_model_jobs endpoint now db.profiles db.jobs)
]

-- and no profile that the key names belongs to a full endpoint.
unfoldable pub model_is_full : ℕ → Db → Job → Bool
unfolding profile_key endpoint_is_full
model_is_full now db j =
    any
      (λ (p : Profile).
        str_eq j.concurrency_key (profile_key p) && endpoint_is_full now db p.endpoint_id)
      db.profiles

unfoldable pub is_eligible : ℕ → Db → Job → Bool
is_eligible now db j =
    is_due j.status now j && (key_is_open now db.jobs j && not (model_is_full now db j))

-- ORDER BY created_at, id
unfoldable pub is_older : Job → Job → Bool
is_older j k = ltb j.created_at k.created_at || (j.created_at == k.created_at && leb j.id k.id)

unfoldable pub oldest : List Job → Option Job
unfolding is_older
oldest [] = none
oldest (j ∷ js) = elim (oldest js) [ none ↦ some j | some k ↦ some (if is_older j k then j else k) ]

-- FOR UPDATE SKIP LOCKED: `locked` tells which rows another transaction holds.
unfoldable pub lock_eligible_job : (ℕ → Bool) → ℕ → Db → Option Job
unfolding oldest
lock_eligible_job locked now db =
    oldest (keep (λ j. is_eligible now db j && not (locked j.id)) db.jobs)
