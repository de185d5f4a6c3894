-- ===== src/Jobs/Selection.antt =====
-- Which row LockEligibleJob (internal/database/sqlc/jobs.sql.go) selects.
use command_prompter_doc_bot.Prelude.{
  ℕ, ◌≡◌, refl, ap, subst, ◌⊎◌, inl, inr, Bool, true, false, not, ◌&&◌, none, some, List, [], ◌∷◌,
  arith, keep, All, ◌==◌, Bool-cases, Option-cases,
}
use command_prompter_doc_bot.Jobs.Tables.{Job, Db}
use command_prompter_doc_bot.Jobs.Queries.{find_job}
use command_prompter_doc_bot.Jobs.Eligible.{is_eligible, is_older, oldest, lock_eligible_job}

-- Membership by recursion.
abbrev pub In : Job → List Job → Type 0
In j [] = ⊥
In j (k ∷ ks) = (k ≡ j) ⊎ In j ks

In-keep : (p : Job → Bool) (j : Job) (js : List Job) → In j (keep p js) → In j js × (p j ≡ true)
In-keep p j [] h = absurd h
In-keep p j (k ∷ ks) h = elim (Bool-cases (p k)) [
  | inl kept ↦
      let m : (k ≡ j) ⊎ In j (keep p ks) = rw kept at h in
      let ih : In j (keep p ks) → In j ks × (p j ≡ true) = In-keep p j ks in
      elim m [ inl e ↦ (inl e, subst (λ x. p x ≡ true) e kept) | inr i ↦ (inr (ih i).0, (ih i).1) ]
  | inr dropped ↦ let ih = In-keep p j ks (rw dropped at h) in (inr ih.0, ih.1)
]

is_older_trans : (i j k : Job) → is_older i j ≡ true → is_older j k ≡ true → is_older i k ≡ true
unfolding is_older
is_older_trans i j k h g = ground arith

is_older_total : (i j : Job) → is_older i j ≡ false → is_older j i ≡ true
unfolding is_older
is_older_total i j h = ground arith

is_older_refl : (i : Job) → is_older i i ≡ true
unfolding is_older
is_older_refl i = ground arith

All-older :
    (i j : Job) (ks : List Job)
    → is_older i j ≡ true
    → All (λ k. is_older j k ≡ true) ks
    → All (λ k. is_older i k ≡ true) ks
All-older i j [] h a = tt
All-older i j (k ∷ ks) h a = (is_older_trans i j k h a.0, All-older i j ks h a.1)

oldest-none : (js : List Job) → oldest js ≡ none → js ≡ []
unfolding oldest
oldest-none [] h = refl
oldest-none (j ∷ js) h = absurd (ground (arith, h))

-- The oldest row is one of the rows, and none is older.
pub oldest-least :
    (js : List Job) (j : Job) → oldest js ≡ some j → In j js × All (λ k. is_older j k ≡ true) js
unfolding oldest
oldest-least [] j h = cc
oldest-least (k ∷ ks) j h = elim (Option-cases (oldest ks)) [
  | inl e ↦
      let kj : k ≡ j = ground (arith, h, e) in
      (inl kj, (subst (λ x. is_older x k ≡ true) kj (is_older_refl k), rw (oldest-none ks e) tt))
  | inr (m, e) ↦
      let (found, least) = oldest-least ks m e in
      elim (Bool-cases (is_older k m)) [
        | inl first ↦
            let kj : k ≡ j = ground (arith, h, e, first) in
            (
              inl kj,
              (
                subst (λ x. is_older x k ≡ true) kj (is_older_refl k),
                subst (λ x. All (λ y. is_older x y ≡ true) ks) kj (All-older k m ks first least),
              ),
            )
        | inr later ↦
            let mj : m ≡ j = ground (arith, h, e, later) in
            (
              inr (subst (λ x. In x ks) mj found),
              (
                subst (λ x. is_older x k ≡ true) mj (is_older_total k m later),
                subst (λ x. All (λ y. is_older x y ≡ true) ks) mj least,
              ),
            )
      ]
]

All-keep :
    (p q : Job → Bool) (js : List Job)
    → All (λ k. q k ≡ true) (keep p js)
    → All (λ k. (p k ≡ false) ⊎ (q k ≡ true)) js
All-keep p q [] h = tt
All-keep p q (k ∷ ks) h = elim (Bool-cases (p k)) [
  | inl kept ↦
      let both : (q k ≡ true) × All (λ x. q x ≡ true) (keep p ks) = rw kept at h in
      (inr both.0, All-keep p q ks both.1)
  | inr dropped ↦ (inl dropped, All-keep p q ks (rw dropped at h))
]

abbrev pub may_claim : (ℕ → Bool) → ℕ → Db → Job → Bool
may_claim locked now db j = is_eligible now db j && not (locked j.id)

-- The selected row is eligible and unlocked, and every other such row is younger.
pub lock_eligible_job-least :
    (locked : ℕ → Bool) (now : ℕ) (db : Db) (row : Job)
    → lock_eligible_job locked now db ≡ some row
    → In row db.jobs
      × (may_claim locked now db row ≡ true)
      × All (λ k. (may_claim locked now db k ≡ false) ⊎ (is_older row k ≡ true)) db.jobs
unfolding lock_eligible_job
lock_eligible_job-least locked now db row h =
    let (found, least) = oldest-least (keep (may_claim locked now db) db.jobs) row h in
    let (inside, may) = In-keep (may_claim locked now db) row db.jobs found in
    (inside, may, All-keep (may_claim locked now db) (is_older row) db.jobs least)

-- A primary key.
abbrev pub UniqueIds : List Job → Type 0
UniqueIds [] = Unit
UniqueIds (j ∷ js) = (find_job j.id js ≡ none) × UniqueIds js

missing_not-In : (j : Job) (js : List Job) → In j js → find_job j.id js ≡ none → ⊥
missing_not-In j [] i h = i
missing_not-In j (k ∷ ks) (inl e) h = ground (arith, ap (λ (x : Job). x.id) e, h)
missing_not-In j (k ∷ ks) (inr m) h = ground (arith, missing_not-In j ks m)

pub find_job-In : (j : Job) (js : List Job) → UniqueIds js → In j js → find_job j.id js ≡ some j
find_job-In j [] u i = absurd i
find_job-In j (k ∷ ks) u (inl e) = ground (arith, ap (λ (x : Job). x.id) e, e)
find_job-In j (k ∷ ks) u (inr m) = elim (Bool-cases (k.id == j.id)) [
  | inl same ↦ absurd (missing_not-In j ks m (ground (arith, same, u.0)))
  | inr other ↦ rw other (find_job-In j ks u.1 m)
]

keep_nothing : (p : Job → Bool) (js : List Job) → keep p js ≡ [] → All (λ j. p j ≡ false) js
keep_nothing p [] h = tt
keep_nothing p (j ∷ js) h = elim (Bool-cases (p j)) [
  | inl kept ↦ absurd (ground (arith, h, kept))
  | inr dropped ↦ (dropped, keep_nothing p js (rw dropped at h))
]

-- Nothing is selected only if no row may be claimed.
pub lock_eligible_job-none :
    (locked : ℕ → Bool) (now : ℕ) (db : Db)
    → lock_eligible_job locked now db ≡ none
    → All (λ j. may_claim locked now db j ≡ false) db.jobs
unfolding lock_eligible_job
lock_eligible_job-none locked now db h = keep_nothing _ db.jobs (oldest-none _ h)
