-- ===== src/Jobs/Terminal.antt =====
-- internal/jobterminal/terminal.go, the terminal callback that the service installs, and
-- internal/knowledgebases/terminal.go, the one of its callbacks that writes the table `jobs`.
use command_prompter_doc_bot.Prelude.{
  ℕ, ◌+◌, String, ◌<>◌, str_eq, Bool, false, not, ◌||◌, Option, none, some, List, [], ◌∷◌, ◌==◌,
  if◌then◌else◌, keep,
}
use command_prompter_doc_bot.Jobs.Types.{
  JobType, purge_knowledge_base, apply_retention, failed, cancelled, same_status, Command,
}
use command_prompter_doc_bot.Jobs.Tables.{Job, Db}
use command_prompter_doc_bot.Jobs.Eligible.{is_older}
use command_prompter_doc_bot.Jobs.Store.{Reaction, refuses, agrees, enqueues}

-- What the callbacks take from elsewhere: the text of a UUID, `purgeRecoveryDelay` in the unit of
-- the clock, the id that the table draws, the rows of knowledge bases that are pending deletion and
-- of deletion intents, and whether a domain's other reads and writes succeed.
pub record Domain : Type 0 where
  pub uuid_text : ℕ → String
  pub recovery_delay : ℕ
  pub draws : Db → ℕ
  pub pending_delete : ℕ → Bool
  pub intent_exists : ℕ → Bool
  pub succeeds : Job → Db → Bool

abbrev pub purge_operation_key : Domain → ℕ → String
purge_operation_key d id = "purge-knowledge-base:" <> d.uuid_text id

-- ORDER BY created_at DESC, id DESC LIMIT 1
unfoldable pub newest : List Job → Option Job
newest [] = none
newest (j ∷ js) = elim (newest js) [ none ↦ some j | some k ↦ some (if is_older k j then j else k) ]

-- The job is the latest of its operation key.
unfoldable pub is_latest : Job → List Job → Bool
is_latest j js = elim (newest (keep (λ k. str_eq k.operation_key j.operation_key) js)) [
  | none ↦ false
  | some k ↦ k.id == j.id
]

abbrev pub terminal_time : Job → ℕ
terminal_time j = elim j.finished_at [ none ↦ j.updated_at | some t ↦ t ]

unfoldable pub purge_recovery : Domain → Job → Command
purge_recovery d j = record {
  job_type = purge_knowledge_base;
  target_type = "knowledge_base";
  target_id = j.target_id;
  payload = some "{}";
  operation_key = purge_operation_key d j.target_id;
  max_attempts = 3;
  not_before = some (terminal_time j + d.recovery_delay);
  concurrency_key = "";
  concurrency_limit = 0;
}

-- Without an intent the knowledge base is restored, which is a write to another table.
unfoldable pub purge_terminal : Domain → Job → Db → Reaction
purge_terminal d j db =
    if not (str_eq j.target_type "knowledge_base")
      || not (str_eq j.operation_key (purge_operation_key d j.target_id))
    then refuses
    else if not (is_latest j db.jobs) || not (d.pending_delete j.target_id)
    then agrees
    else if not (d.succeeds j db)
    then refuses
    else if d.intent_exists j.target_id
    then enqueues (d.draws db) (purge_recovery d j) (terminal_time j)
    else agrees

-- The callbacks of the other domains write the rows of those domains.
unfoldable pub dispatch : JobType → Domain → Job → Db → Reaction
dispatch purge_knowledge_base d j db = purge_terminal d j db
dispatch apply_retention d j db = agrees
dispatch _ d j db = if d.succeeds j db then agrees else refuses

unfoldable pub callback : Domain → Job → Db → Reaction
callback d j db =
    if same_status j.status failed || same_status j.status cancelled
    then dispatch j.job_type d j db
    else refuses
