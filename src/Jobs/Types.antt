-- ===== src/Jobs/Types.antt =====
-- internal/jobs/types.go: the values of the job queue. A UUID is a number, in the order of its
-- bytes; a time is a number of microseconds; a JSON value is its encoding.
use command_prompter_doc_bot.Prelude.{
  ℕ, String, str_eq, Bool, true, false, not, ◌&&◌, ◌||◌, Option, ltb, leb, ◌==◌, if◌then◌else◌,
}
use Prim.Native.String.{len}

pub data JobType : Type 0 where
  validate_source sync_source prepare_run plan_run generate_page finalize_run : JobType
  discover_endpoint probe_model refresh_discord purge_knowledge_base apply_retention : JobType

pub data Status : Type 0 where
  pending leased succeeded retry_wait failed cancel_requested cancelled : Status

abbrev pub same_status : Status → Status → Bool
same_status pending pending = true
same_status leased leased = true
same_status succeeded succeeded = true
same_status retry_wait retry_wait = true
same_status failed failed = true
same_status cancel_requested cancel_requested = true
same_status cancelled cancelled = true
same_status _ _ = false

pub data Error : Type 0 where
  stale_permit job_not_found job_conflict invalid_argument duplicate_id callback_failed : Error

-- A payload that `json.Marshal` refuses is `none`.
pub record Command : Type 0 where
  pub job_type : JobType
  pub target_type : String
  pub target_id : ℕ
  pub payload : Option String
  pub operation_key : String
  pub max_attempts : ℕ
  pub not_before : Option ℕ
  pub concurrency_key : String
  pub concurrency_limit : ℕ

abbrev is_empty : String → Bool
is_empty s = str_eq s ""

-- A command's type is one of the valid ones by its data type.
unfoldable pub validate_command : Command → Bool
validate_command c =
    if is_empty c.target_type
    then false
    else if is_empty c.operation_key
    then false
    else if leb c.max_attempts 0
    then false
    else not (
        (is_empty c.concurrency_key && not (c.concurrency_limit == 0))
        || (not (is_empty c.concurrency_key)
            && (ltb 512 (len c.concurrency_key)
                || ltb c.concurrency_limit 1
                || ltb 32 c.concurrency_limit)))

pub record Permit : Type 0 where
  pub job_id : ℕ
  pub worker_id : String
  pub lease_generation : ℕ

unfoldable pub validate_permit : Permit → Bool
validate_permit p = if is_empty p.worker_id then false else not (leb p.lease_generation 0)

unfoldable pub retry_status : ℕ → ℕ → Status
retry_status attempt_count max_attempts =
    if ltb attempt_count max_attempts then retry_wait else failed
