-- ===== src/Idempotency/Execution.antt =====
-- Execute (internal/idempotency/idempotency.go). The advisory lock makes the calls of one scope and key
-- one after another, and a transaction that fails leaves the state as it was. Times are microseconds.
use command_prompter_doc_bot.Prelude.{
  ℕ, ◌+◌, ◌/◌, String, str_eq, Bool, true, false, not, ◌&&◌, ◌||◌, Option, none, some, List, [],
  ◌∷◌, ◌==◌, leb, if◌then◌else◌, any, Result, ok, err, ◌>>=◌,
}

pub data Failure : Type 0 where
  invalid_request conflict no_result_type : Failure
  operation_failed : ℕ → Failure

pub record Request : Type 0 where
  pub scope : String
  pub key : String
  pub operation : String
  pub digest : List ℕ
  pub accepted_digests : List (List ℕ)
  pub ttl_nanoseconds : ℕ

-- What an operation made: the type of the row, and its id.
pub record Made : Type 0 where
  pub kind : String
  pub id : ℕ

-- A row of idempotency_records.
pub record Entry : Type 0 where
  pub scope : String
  pub request_key : String
  pub operation : String
  pub request_digest : List ℕ
  pub result : Made
  pub created_at : ℕ
  pub expires_at : ℕ

abbrev pub ttl_microseconds : Request → ℕ
ttl_microseconds request = request.ttl_nanoseconds / 1000

unfoldable pub same_digest : List ℕ → List ℕ → Bool
same_digest [] [] = true
same_digest (a ∷ as') (b ∷ bs) = let rest = same_digest as' bs in (a == b) && rest
same_digest _ _ = false

unfoldable pub digest_accepted : List ℕ → Request → Bool
digest_accepted stored request =
    same_digest stored request.digest || any (λ d. same_digest stored d) request.accepted_digests

abbrev pub has_key : Request → Entry → Bool
has_key request row = str_eq row.scope request.scope && str_eq row.request_key request.key

-- DELETE of the expired row of the key.
unfoldable pub without_expired : Request → ℕ → List Entry → List Entry
without_expired request now [] = []
without_expired request now (row ∷ rows) =
    let rest = without_expired request now rows in
    if has_key request row && leb row.expires_at now then rest else row ∷ rest

-- SELECT of the row of the key.
unfoldable pub find_entry : Request → List Entry → Option Entry
find_entry request [] = none
find_entry request (row ∷ rows) =
    let rest = find_entry request rows in if has_key request row then some row else rest

unfoldable pub is_valid : Request → Bool
is_valid request =
    not (str_eq request.scope "" || str_eq request.key "" || str_eq request.operation "")
    && not (ttl_microseconds request == 0)

-- The stored request is the one that is made.
abbrev pub is_same : Entry → Request → Bool
is_same row request =
    str_eq row.operation request.operation && digest_accepted row.request_digest request

abbrev pub entry_of : Request → ℕ → Made → Entry
entry_of request now made = record {
  scope = request.scope;
  request_key = request.key;
  operation = request.operation;
  request_digest = request.digest;
  result = made;
  created_at = now;
  expires_at = now + ttl_microseconds request;
}

-- The rows, and what else the operations work on.
pub record Db (World : Type 0) : Type 0 where
  pub entries : List Entry
  pub world : World

abbrev pub Operation : Type 0 → Type 0
Operation World = World → Result Failure (Made × World)

module _ {World : Type 0} where
  unfoldable pub carried_out :
      Request → ℕ → List Entry → Made × World → Result Failure (Made × Db World)
  carried_out request now rows (made, world) =
      if str_eq made.kind ""
      then err no_result_type
      else ok (made, record { entries = entry_of request now made ∷ rows; world = world })

  unfoldable pub execute :
      Request → ℕ → Operation World → Db World → Result Failure (Made × Db World)
  execute request now operation db =
      if not (is_valid request)
      then err invalid_request
      else let rows = without_expired request now db.entries in
        elim (find_entry request rows) [
          | some row ↦
              if is_same row request
              then ok (row.result, record db { entries = rows })
              else err conflict
          | none ↦ operation db.world >>= carried_out request now rows
        ]
