-- ===== src/Jobs/OperationKeys.antt =====
-- At most one active job per operation key, which makes Enqueue (internal/jobs/store.go) adopt a
-- job instead of creating a second one.
use command_prompter_doc_bot.Prelude.{
  ℕ, suc, ◌≡◌, refl, sym, subst, ◌∙◌, inl, inr, String, eq_iff, true, false, Option, none, some,
  List, [], ◌∷◌, ◌++◌, arith, ◌==◌, Bool-cases, Option-cases, Result, ok,
}
use text.Mathlib.TextPositions.{eq_refl}
use command_prompter_doc_bot.Jobs.Types.{Error, Command}
use command_prompter_doc_bot.Jobs.Tables.{Job, Db}
use command_prompter_doc_bot.Jobs.Queries.{
  find_job, update_job, is_active, has_key, find_active, new_job,
}
use command_prompter_doc_bot.Jobs.Store.{Callback, enqueue_loop}
use command_prompter_doc_bot.Jobs.Runs.{Operation, run}
use command_prompter_doc_bot.Jobs.Machine.{
  Move, TableStep, row_moves, row_added, Advances, still, further,
}
use command_prompter_doc_bot.Jobs.Selection.{UniqueIds}
use command_prompter_doc_bot.Jobs.Keys.{Move-SameRow, Move-is_active}
use command_prompter_doc_bot.Jobs.Refine.Enqueues.{insert_job_events-jobs}
use command_prompter_doc_bot.Jobs.Refine.Histories.{run-Advances}

abbrev pub UniqueKeys : List Job → Type 0
UniqueKeys [] = Unit
UniqueKeys (j ∷ js) =
    (is_active j.status ≡ true → find_active j.operation_key js ≡ none) × UniqueKeys js

-- A move gives a row no key that it did not have.
Move-keeps_key :
    (key : String) {j k : Job} → Move j k → has_key key j ≡ false → has_key key k ≡ false
Move-keeps_key key {j} {k} m h = ground (arith, Move-is_active m, Move-SameRow m)

find_active-update_job :
    (key : String) (id : ℕ) (f : Job → Job) (js : List Job) (j : Job)
    → find_job id js ≡ some j
    → Move j (f j)
    → find_active key js ≡ none
    → find_active key (update_job id f js) ≡ none
unfolding find_active
find_active-update_job key id f [] j h m free = refl
find_active-update_job key id f (k ∷ ks) j h m free = elim (Bool-cases (k.id == id)) [
  | inl same ↦
      let kj : k ≡ j = ground (arith, h, same) in
      let before : has_key key j ≡ false =
        subst (λ x. has_key key x ≡ false) kj (ground (arith, free)) in
      rw (same, kj, Move-keeps_key key m before) (ground (arith, free))
  | inr other ↦
      let ih =
        find_active-update_job key id f ks j (ground (arith, h, other)) m (ground (arith, free)) in
      rw other (ground (arith, free, ih))
]

UniqueKeys-update_job :
    (id : ℕ) (f : Job → Job) (js : List Job) (j : Job)
    → find_job id js ≡ some j
    → Move j (f j)
    → UniqueKeys js
    → UniqueKeys (update_job id f js)
UniqueKeys-update_job id f [] j h m u = tt
UniqueKeys-update_job id f (k ∷ ks) j h m u = elim (Bool-cases (k.id == id)) [
  | inl same ↦
      let kj : k ≡ j = ground (arith, h, same) in
      let head : find_active j.operation_key ks ≡ none =
        subst (λ (x : Job). is_active x.status ≡ true → find_active x.operation_key ks ≡ none) kj
          u.0 (Move-is_active m) in
      rw (same, kj) ((λ _. rw (Move-SameRow m).same_key head), u.1)
  | inr other ↦
      let rest : find_job id ks ≡ some j = ground (arith, h, other) in
      rw other (
        (λ a. find_active-update_job k.operation_key id f ks j rest m (u.0 a)),
        UniqueKeys-update_job id f ks j rest m u.1,
      )
]

find_active-append :
    (key : String) (js : List Job) (k : Job)
    → find_active key js ≡ none
    → has_key key k ≡ false
    → find_active key (js ++ k ∷ []) ≡ none
unfolding find_active
find_active-append key [] k h g = rw g refl
find_active-append key (j ∷ js) k h g =
    ground (arith, h, find_active-append key js k (ground (arith, h)) g)

UniqueKeys-append :
    (js : List Job) (k : Job)
    → find_active k.operation_key js ≡ none
    → UniqueKeys js
    → UniqueKeys (js ++ k ∷ [])
unfolding find_active
UniqueKeys-append [] k h u = ((λ _. refl), tt)
UniqueKeys-append (j ∷ js) k h u = (
  (λ a. find_active-append j.operation_key js k (u.0 a) (
      ground (
        arith,
        h,
        a,
        eq_iff j.operation_key k.operation_key,
        eq_iff k.operation_key j.operation_key,
      ))),
  UniqueKeys-append js k (ground (arith, h)) u.1,
)

TableStep-UniqueKeys : {js ks : List Job} → TableStep js ks → UniqueKeys js → UniqueKeys ks
unfolding new_job
TableStep-UniqueKeys {js} (row_moves id f j found m) u = UniqueKeys-update_job id f js j found m u
TableStep-UniqueKeys {js} (row_added id c payload now pos fresh free) u =
    UniqueKeys-append js (new_job id c payload now) free u

Advances-UniqueKeys : {js ks : List Job} → Advances js ks → UniqueKeys js → UniqueKeys ks
Advances-UniqueKeys still u = u
Advances-UniqueKeys (further a s) u = TableStep-UniqueKeys s (Advances-UniqueKeys a u)

-- Every history of operations keeps at most one active job per operation key, if the ids of the
-- rows are distinct.
pub run-UniqueKeys :
    (cb : Callback) (ops : List (ℕ × Operation)) (db : Db)
    → UniqueIds db.jobs
    → UniqueKeys db.jobs
    → UniqueKeys (run cb ops db).jobs
run-UniqueKeys cb ops db u k = Advances-UniqueKeys (run-Advances cb ops db u) k

find_active-found :
    (js : List Job) (key : String) (k : Job)
    → find_active key js ≡ none
    → has_key key k ≡ true
    → find_active key (js ++ k ∷ []) ≡ some k
unfolding find_active
find_active-found [] key k h g = rw g refl
find_active-found (j ∷ js) key k h g =
    ground (arith, h, find_active-found js key k (ground (arith, h)) g)

new_job-has_key :
    (id : ℕ) (c : Command) (payload : String) (now : ℕ)
    → has_key c.operation_key (new_job id c payload now) ≡ true
unfolding new_job
new_job-has_key id c payload now = eq_refl c.operation_key

enqueue_loop-adopts :
    (fuel id : ℕ) (c : Command) (payload : String) (now : ℕ) (db : Db) (j : Job)
    → find_active c.operation_key db.jobs ≡ some j
    → enqueue_loop (suc fuel) id c payload now db ≡ some (ok (j.id, db))
unfolding enqueue_loop
enqueue_loop-adopts fuel id c payload now db j taken = ground (arith, taken)

enqueue_loop-inserts :
    (fuel id : ℕ) (c : Command) (payload : String) (now : ℕ) (db db' : Db) (a : ℕ)
    → enqueue_loop (suc fuel) id c payload now db ≡ some (ok (a, db'))
    → find_active c.operation_key db.jobs ≡ none
    → find_job id db.jobs ≡ none
    → (a ≡ id) × (db'.jobs ≡ db.jobs ++ new_job id c payload now ∷ [])
unfolding enqueue_loop
enqueue_loop-inserts fuel id c payload now db db' a h free fresh =
    (ground (arith, h, free, fresh), grind (arith, insert_job_events-jobs, h, free, fresh))

answered :
    {x y : ℕ} {d e : Db}
    → ◌≡◌ {A = Option (Result Error (ℕ × Db))} (some (ok (x, d))) (some (ok (y, e)))
    → (x ≡ y) × (d ≡ e)
answered q = (ground (arith, q), ground (arith, q))

-- The job that an accepted Enqueue names is the active job of its operation key.
pub enqueue_loop-names :
    (fuel id : ℕ) (c : Command) (payload : String) (now : ℕ) (db db' : Db) (a : ℕ)
    → enqueue_loop (suc fuel) id c payload now db ≡ some (ok (a, db'))
    → (row : Job) × (find_active c.operation_key db'.jobs ≡ some row) × (row.id ≡ a)
enqueue_loop-names fuel id c payload now db db' a h =
    elim (Option-cases (find_active c.operation_key db.jobs)) [
      | inr (j, taken) ↦
          let (named, same) =
            answered (sym (enqueue_loop-adopts fuel id c payload now db j taken) ∙ h) in
          (j, subst (λ (x : Db). find_active c.operation_key x.jobs ≡ some j) same taken, named)
      | inl free ↦ elim (Option-cases (find_job id db.jobs)) [
        | inr (k, old) ↦ absurd (unfold enqueue_loop in ground (arith, h, free, old))
        | inl fresh ↦
            let (named, written) =
              enqueue_loop-inserts fuel id c payload now db db' a h free fresh in
            (
              new_job id c payload now,
              rw written (
                  find_active-found db.jobs c.operation_key (new_job id c payload now) free
                    (new_job-has_key id c payload now)),
              unfold new_job in sym named,
            )
      ]
    ]

-- The job that an accepted Enqueue names is afterwards the active job of its operation key, one
-- round of the loop is enough, and a second Enqueue names the same job and changes nothing,
-- whatever command of the same key it has.
pub enqueue_loop-find_active :
    (fuel id : ℕ) (c : Command) (payload : String) (now : ℕ) (db db' : Db) (a : ℕ) (id' : ℕ)
    (c' : Command) (payload' : String) (later : ℕ)
    → enqueue_loop (suc fuel) id c payload now db ≡ some (ok (a, db'))
    → c'.operation_key ≡ c.operation_key
    → (row : Job) × (find_active c.operation_key db'.jobs ≡ some row)
      × (row.id ≡ a)
      × (enqueue_loop 1 id' c' payload' later db' ≡ some (ok (a, db')))
enqueue_loop-find_active fuel id c payload now db db' a id' c' payload' later h key =
    let (row, there, named) = enqueue_loop-names fuel id c payload now db db' a h in
    (
      row,
      there,
      named,
      subst (λ x. enqueue_loop 1 id' c' payload' later db' ≡ some (ok (x, db'))) named
          (enqueue_loop-adopts 0 id' c' payload' later db' row
            (subst (λ x. find_active x db'.jobs ≡ some row) (sym key) there)),
    )
