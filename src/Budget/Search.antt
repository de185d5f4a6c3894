-- ===== src/Budget/Search.antt =====
-- The binary search of TruncateResult (internal/modelbudget/budget.go).
use command_prompter_doc_bot.Prelude.{
  ℕ, zero, suc, ◌+◌, ◌-◌, ◌/◌, ◌≤◌, ◌<◌, ◌≡◌, ◌≢◌, ◌⊎◌, refl, inl, inr, Bool, true, false, Option,
  none, some, ltb, if◌then◌else◌, arith, Bool-cases,
}

-- The loop, which asks `test` about the boundary with an index. It answers nothing when it runs out of
-- fuel or asks about an index that there is not.
unfoldable pub search : ℕ → (ℕ → Option Bool) → ℕ → ℕ → Option ℕ
search zero test low high = if ltb low high then none else some low
search (suc n) test low high = elim (ltb low high) [
  | false ↦ some low
  | true ↦
      let middle = low + (high - low + 1) / 2 in
      elim (test middle) [
        | none ↦ none
        | some true ↦ search n test middle high
        | some false ↦ search n test low (middle - 1)
      ]
]

-- What a search from `low` to `high` comes to: an index that passes and, if passing is inherited by
-- smaller indices, the last one that does.
pub record Found (test : ℕ → Option Bool) (low high k : ℕ) : Type 0 where
  pub from : low ≤ k
  pub to : k ≤ high
  pub passes : test k ≡ some true
  pub last :
      ((i j : ℕ) → i ≤ j → j ≤ high → test j ≡ some true → test i ≡ some true)
      → (j : ℕ) → k < j
      → j ≤ high
      → test j ≢ some true

pub search-Found :
    (n : ℕ) (test : ℕ → Option Bool) (low high : ℕ)
    → low ≤ high
    → high ≤ low + n
    → ((i : ℕ) → i ≤ high → (test i ≡ some true) ⊎ (test i ≡ some false))
    → test low ≡ some true
    → (k : ℕ) × (search n test low high ≡ some k) × Found test low high k
unfolding search
search-Found zero test low high le fuel total h = (
  low,
  ground arith,
  record { from = omega arith; to = le; passes = h; last = λ m j lt ge. absurd (omega arith) },
)
search-Found (suc n) test low high le fuel total h = elim (Bool-cases (ltb low high)) [
  | inr stop ↦ (
    low,
    rw (stop, search) refl,
    record { from = omega arith; to = le; passes = h; last = λ m j lt ge. absurd (ground arith) },
  )
  | inl go ↦
      let middle = low + (high - low + 1) / 2 in
      let above : low < middle = ground arith in
      let below : middle ≤ high = ground arith in
      elim (total middle below) [
        | inl fits ↦
            let (k, e, f) = search-Found n test middle high below (omega arith) total fits in
            (
              k,
              rw (go, fits, search) e,
              record { from = omega (arith, f.from); to = f.to; passes = f.passes; last = f.last },
            )
        | inr over ↦
            let (k, e, f) =
              search-Found n test low (middle - 1) (omega arith) (omega arith)
                (λ i ge. total i (omega arith)) h in
            (
              k,
              rw (go, over, search) e,
              record {
                from = f.from;
                to = omega (arith, f.to);
                passes = f.passes;
                last = λ m j lt ge pass. elim (Bool-cases (ltb j middle)) [
                  | inl left ↦ f.last (λ a b ab bc. m a b ab (omega arith)) j lt (ground arith) pass
                  | inr right ↦
                      let bad : test middle ≡ some true = m middle j (ground arith) ge pass in
                      ground (arith, bad, over)
                ];
              },
            )
      ]
]
