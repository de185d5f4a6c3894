-- ===== src/Idempotency/Examples.antt =====
-- A request that is made twice (internal/idempotency/idempotency.go).
use command_prompter_doc_bot.Prelude.{
  ℕ, ◌+◌, ◌<◌, ◌≡◌, refl, true, some, [], ◌∷◌, if◌then◌else◌, arith, ok, err,
}
use command_prompter_doc_bot.Idempotency.Execution.{
  Db, Entry, Made, Operation, Request, carried_out, conflict, digest_accepted, entry_of, execute,
  find_entry, is_same, is_valid, same_digest, without_expired,
}
use command_prompter_doc_bot.Idempotency.Replays.{execute-replay}

abbrev request : Request
request = record {
  scope = "agents";
  key = "k";
  operation = "create";
  digest = 1 ∷ 2 ∷ [];
  accepted_digests = [];
  ttl_nanoseconds = 5000;
}

-- The world counts the operations that were carried out.
abbrev count_one : Operation ℕ
count_one n = ok (record { kind = "agent"; id = n }, n + 1)

abbrev fresh : Db ℕ
fresh = record { entries = []; world = 7 }

abbrev first : Made
first = record { kind = "agent"; id = 7 }

abbrev stored : Db ℕ
stored = record { entries = entry_of request 100 first ∷ []; world = 8 }

carried_out_once : execute request 100 count_one fresh ≡ ok (first, stored)
unfolding execute carried_out is_valid find_entry without_expired
carried_out_once = refl

-- The operation is not carried out again before the row expires, and another one is a conflict.
replayed : execute request 104 count_one stored ≡ ok (first, stored)
unfolding execute is_valid find_entry without_expired digest_accepted same_digest
replayed = refl

execute-replay_example :
    (row : Entry) × (find_entry request stored.entries ≡ some row)
    × (100 < row.expires_at)
    × (is_same row request ≡ true)
    × (row.result ≡ first)
    × (execute (record request { operation = "delete" }) 104 count_one stored ≡ (
        if is_same row (record request { operation = "delete" })
        then ok (first, record stored { entries = without_expired request 104 stored.entries })
        else err conflict))
unfolding is_valid find_entry without_expired
execute-replay_example =
    execute-replay request (record request { operation = "delete" }) 100 104 count_one count_one
      fresh stored first carried_out_once refl refl refl (omega arith)
