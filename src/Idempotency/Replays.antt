-- ===== src/Idempotency/Replays.antt =====
-- What a request that is made again is answered (internal/idempotency/idempotency.go).
use command_prompter_doc_bot.Prelude.{
  ℕ, ◌<◌, ◌≡◌, refl, ap, subst, ◌∙◌, inl, inr, str_eq, eq_iff, true, false, ◌&&◌, none, some, List,
  [], ◌∷◌, leb, if◌then◌else◌, arith, Bool-cases, Option-cases, ok, err, ◌>>=◌, >>=-eq-ok,
}
use command_prompter_doc_bot.Idempotency.Execution.{
  Db, Entry, Made, Operation, Request, carried_out, conflict, digest_accepted, entry_of, execute,
  find_entry, has_key, is_same, is_valid, same_digest, without_expired,
}

same_digest_refl : (d : List ℕ) → same_digest d d ≡ true
unfolding same_digest
same_digest_refl [] = refl
same_digest_refl (b ∷ bs) = ground (arith, same_digest_refl bs)

-- The row of a key, if it has not expired, is there for every later request of the key before it does.
find_entry-without_expired :
    (request : Request) (now : ℕ) (rows : List Entry) (row : Entry)
    → find_entry request rows ≡ some row
    → now < row.expires_at
    → find_entry request (without_expired request now rows) ≡ some row
unfolding find_entry without_expired
find_entry-without_expired request now [] row h late = cc
find_entry-without_expired request now (r ∷ rows) row h late =
    elim (Bool-cases (has_key request r)) [
      | inl its ↦
          let same : r ≡ row = ground (arith, h, its) in
          let kept : (has_key request r && leb r.expires_at now) ≡ false =
            ground (arith, its, ap (λ x. x.expires_at) same, late) in
          rw (kept, its) (ap some same)
      | inr other ↦
          let kept : (has_key request r && leb r.expires_at now) ≡ false = ground (arith, other) in
          rw (kept, other) (find_entry-without_expired request now rows row (rw other at h) late)
    ]

-- What is left of the key's rows has not expired.
without_expired-late :
    (request : Request) (now : ℕ) (rows : List Entry) (row : Entry)
    → find_entry request (without_expired request now rows) ≡ some row
    → now < row.expires_at
unfolding find_entry without_expired
without_expired-late request now [] row h = cc
without_expired-late request now (r ∷ rows) row h =
    elim (Bool-cases (has_key request r && leb r.expires_at now)) [
      | inl gone ↦ without_expired-late request now rows row (rw gone at h)
      | inr kept ↦ elim (Bool-cases (has_key request r)) [
        | inl its ↦
            let same : r ≡ row = ground (arith, h, kept, its) in
            ground (arith, ap (λ x. x.expires_at) same, kept, its)
        | inr other ↦ without_expired-late request now rows row (ground (arith, h, kept, other))
      ]
    ]

same_key :
    (request other : Request) (rows : List Entry)
    → other.scope ≡ request.scope
    → other.key ≡ request.key
    → find_entry other rows ≡ find_entry request rows
unfolding find_entry
same_key request other [] scope key = refl
same_key request other (r ∷ rows) scope key =
    rw (scope, key, same_key request other rows scope key) refl

-- What a successful call has left: an unexpired row of the request, with the result that it answers.
record Recorded {World : Type 0} (request : Request) (now : ℕ) (made : Made) (db : Db World)
    : Type 0 where
  pub row : Entry
  pub found : find_entry request db.entries ≡ some row
  pub late : now < row.expires_at
  pub same : is_same row request ≡ true
  pub answer : row.result ≡ made

entry_of-has_key :
    (request : Request) (now : ℕ) (made : Made) → has_key request (entry_of request now made) ≡ true
entry_of-has_key request now made =
    let scope = (eq_iff request.scope request.scope).1 refl in
    let key = (eq_iff request.key request.key).1 refl in rw (scope, key) refl

entry_of-is_same :
    (request : Request) (now : ℕ) (made : Made) → is_same (entry_of request now made) request ≡ true
unfolding digest_accepted
entry_of-is_same request now made =
    rw ((eq_iff request.operation request.operation).1 refl, same_digest_refl request.digest) refl

execute-valid :
    {World : Type 0} (request : Request) (now : ℕ) (operation : Operation World) (db db' : Db World)
    (made : Made)
    → execute request now operation db ≡ ok (made, db')
    → is_valid request ≡ true
unfolding execute
execute-valid request now operation db db' made h = elim (Bool-cases (is_valid request)) [
  | inl valid ↦ valid
  | inr bad ↦ absurd (ground (arith, h, bad))
]

execute-Recorded :
    {World : Type 0} (request : Request) (now : ℕ) (operation : Operation World) (db db' : Db World)
    (made : Made)
    → execute request now operation db ≡ ok (made, db')
    → Recorded request now made db'
unfolding execute carried_out
execute-Recorded request now operation db db' made h =
    let valid = execute-valid request now operation db db' made h in
    let rows = without_expired request now db.entries in
    elim (Option-cases (find_entry request rows)) [
      | inr (row, there) ↦ elim (Bool-cases (is_same row request)) [
        | inr other ↦ absurd (ground (arith, h, valid, there, other))
        | inl same ↦ record {
          row = row;
          found =
              subst (λ x. find_entry request x ≡ some row) (ground (arith, h, valid, there, same))
                there;
          late = without_expired-late request now db.entries row there;
          same = same;
          answer = ground (arith, h, valid, there, same);
        }
      ]
      | inl missing ↦
          let done : (operation db.world >>= carried_out request now rows) ≡ ok (made, db') =
            ground (arith, h, valid, missing) in
          let ((m, world), _, last) =
            >>=-eq-ok (operation db.world) (carried_out request now rows) done in
          elim (Bool-cases (str_eq m.kind "")) [
            | inl blank ↦ absurd (ground (arith, last, blank))
            | inr named ↦
                let its : m ≡ made = ground (arith, last, named) in
                let entries : entry_of request now m ∷ rows ≡ db'.entries =
                  ground (arith, last, named) in
                record {
                  row = entry_of request now m;
                  found =
                      subst (λ x. find_entry request x ≡ some (entry_of request now m)) entries
                        (unfold find_entry in rw (entry_of-has_key request now m) refl);
                  late = unfold is_valid in ground (arith, valid);
                  same = entry_of-is_same request now m;
                  answer = its;
                }
          ]
    ]

-- When the row of a request expires; 0 without a row.
abbrev pub expiry : Request → List Entry → ℕ
expiry request rows = elim (find_entry request rows) [ none ↦ 0 | some row ↦ row.expires_at ]

-- After a successful Execute there is a row of the request that expires later, with the result that was
-- answered. Until then any valid request of the same scope and key is answered from it, without its
-- operation and without a change but the removal of expired rows: the same result if its operation is
-- the same and the stored digest is one that it accepts, as that of the request itself is, and a
-- conflict otherwise.
pub execute-replay :
    {World : Type 0} (request other : Request) (now later : ℕ)
    (operation repeated : Operation World) (db db' : Db World) (made : Made)
    → execute request now operation db ≡ ok (made, db')
    → is_valid other ≡ true
    → other.scope ≡ request.scope
    → other.key ≡ request.key
    → later < expiry request db'.entries
    → (row : Entry) × (find_entry request db'.entries ≡ some row)
      × (now < row.expires_at)
      × (is_same row request ≡ true)
      × (row.result ≡ made)
      × (execute other later repeated db' ≡ (
          if is_same row other
          then ok (made, record db' { entries = without_expired other later db'.entries })
          else err conflict))
unfolding execute
execute-replay request other now later operation repeated db db' made h valid scope key early =
    let r = execute-Recorded request now operation db db' made h in
    let soon : later < r.row.expires_at = ground (arith, early, r.found) in
    let there : find_entry other (without_expired other later db'.entries) ≡ some r.row =
      find_entry-without_expired other later db'.entries r.row
        (same_key request other db'.entries scope key ∙ r.found) soon in
    (r.row, r.found, r.late, r.same, r.answer, rw (valid, there, r.answer) refl)
