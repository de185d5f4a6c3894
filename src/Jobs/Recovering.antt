-- ===== src/Jobs/Recovering.antt =====
-- Enqueue in the transaction of another operation (internal/jobs/store.go): the recovery job of a purge
-- (internal/knowledgebases/terminal.go).
use command_prompter_doc_bot.Prelude.{
  ℕ, ◌≡◌, subst, inl, inr, true, some, arith, Bool-cases, Option-cases, ok, err, not, ◌||◌, str_eq,
}
use command_prompter_doc_bot.Jobs.Types.{
  purge_knowledge_base, failed, cancelled, same_status, Command, validate_command,
}
use command_prompter_doc_bot.Jobs.Tables.{Job, Db}
use command_prompter_doc_bot.Jobs.Queries.{find_job, find_active}
use command_prompter_doc_bot.Jobs.Store.{
  enqueues, react, notify_terminal, enqueue_tx, with_defaults,
}
use command_prompter_doc_bot.Jobs.Terminal.{
  Domain, purge_operation_key, is_latest, terminal_time, purge_recovery, purge_terminal, dispatch,
  callback,
}
use command_prompter_doc_bot.Jobs.OperationKeys.{enqueue_loop-names}

-- The job of an accepted command is the active one of its key.
enqueue_tx-names :
    (id : ℕ) (c : Command) (now : ℕ) (db db' : Db) (a : ℕ)
    → enqueue_tx 1 id c now db ≡ some (ok (a, db'))
    → (row : Job) × (find_active c.operation_key db'.jobs ≡ some row) × (row.id ≡ a)
unfolding enqueue_tx
enqueue_tx-names id c now db db' a e = elim (Bool-cases (validate_command (with_defaults c))) [
  | inr bad ↦ absurd (ground (arith, e, bad))
  | inl good ↦ elim (Option-cases c.payload) [
    | inl no_json ↦ absurd (ground (arith, e, good, no_json))
    | inr (payload, json) ↦
        enqueue_loop-names 0 id (with_defaults c) payload now db db' a
          (ground (arith, e, good, json))
  ]
]

react-names :
    (id : ℕ) (c : Command) (time : ℕ) (db db' : Db)
    → react (enqueues id c time) db ≡ ok db'
    → (row : Job) × (find_active c.operation_key db'.jobs ≡ some row)
unfolding react
react-names id c time db db' h = elim (Option-cases (enqueue_tx 1 id c time db)) [
  | inl e ↦ absurd (ground (arith, h, e))
  | inr (err x, e) ↦ absurd (ground (arith, h, e))
  | inr (ok (a, d), e) ↦
      let (row, there, _) = enqueue_tx-names id c time db d a e in
      (
        row,
        subst (λ (x : Db). find_active c.operation_key x.jobs ≡ some row) {x = d} {y = db'}
            (ground (arith, h, e)) there,
      )
]

module _ (d : Domain) (j : Job) (db db1 db' : Db) where
  purge_terminal-enqueues :
      is_latest j db.jobs ≡ true
      → d.pending_delete j.target_id ≡ true
      → d.intent_exists j.target_id ≡ true
      → react (purge_terminal d j db) db1 ≡ ok db'
      → react (enqueues (d.draws db) (purge_recovery d j) (terminal_time j)) db1 ≡ ok db'
  unfolding react purge_terminal
  purge_terminal-enqueues latest pending intent h =
      elim (Bool-cases (
        not (str_eq j.target_type "knowledge_base")
        || not (str_eq j.operation_key (purge_operation_key d j.target_id)))) [
          | inl bad ↦ absurd (ground (arith, h, bad))
          | inr valid ↦ elim (Bool-cases (d.succeeds j db)) [
            | inr bad ↦ absurd (ground (arith, h, valid, latest, pending, bad))
            | inl good ↦ rw (valid, latest, pending, good, intent) at h
          ]
        ]

  callback-purges :
      j.job_type ≡ purge_knowledge_base
      → react (callback d j db) db1 ≡ ok db'
      → react (purge_terminal d j db) db1 ≡ ok db'
  unfolding react callback dispatch
  callback-purges purge h =
      elim (Bool-cases (same_status j.status failed || same_status j.status cancelled)) [
        | inr other ↦ absurd (ground (arith, h, other))
        | inl ended ↦
            subst (λ t. react (dispatch t d j db) db1 ≡ ok db') purge (rw (ended, callback) at h)
      ]

-- When the service's callback has accepted that a purge ended without success, while the knowledge
-- base is pending deletion with an intent and the job is the latest of its key, there is an active
-- job of the purge's key.
pub notify_terminal-recovers :
    (d : Domain) (id : ℕ) (db db' : Db) (j : Job)
    → find_job id db.jobs ≡ some j
    → j.job_type ≡ purge_knowledge_base
    → is_latest j db.jobs ≡ true
    → d.pending_delete j.target_id ≡ true
    → d.intent_exists j.target_id ≡ true
    → notify_terminal (some (callback d)) id db ≡ ok db'
    → (row : Job) × (find_active (purge_operation_key d j.target_id) db'.jobs ≡ some row)
unfolding notify_terminal purge_recovery
notify_terminal-recovers d id db db' j found purge latest pending intent h =
    react-names _ (purge_recovery d j) _ _ db' (
      purge_terminal-enqueues d j db _ db' latest pending intent
        (callback-purges d j db _ db' purge (rw (found, notify_terminal) at h)))
