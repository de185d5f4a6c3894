-- ===== src/Guardrails/Selecting.antt =====
-- What budgetInitial keeps (internal/agents/guardrails.go).
use command_prompter_doc_bot.Prelude.{
  ℕ, zero, suc, ◌+◌, ◌≤◌, ◌<◌, ◌≡◌, refl, ap, ◌∙◌, ◌⊎◌, inl, inr, Bool, true, false, Option, none,
  some, List, [], ◌∷◌, ◌==◌, ltb, if◌then◌else◌, length, arith, Bool-cases, Option-cases,
}
use command_prompter_doc_bot.Guardrails.Initial.{
  Message, choose, choose_evidence, estimate, is_user, last_user, message_at, message_cost,
  selected,
}

-- The tokens of texts and of messages.
unfoldable pub total : List (List ℕ) → ℕ
total [] = 0
total (e ∷ es) = estimate e + total es

unfoldable pub total_cost : List Message → ℕ
total_cost [] = 0
total_cost (m ∷ ms) = message_cost m + total_cost ms

-- The last message of a user.
unfoldable pub latest : List Message → Option Message
latest [] = none
latest (m ∷ ms) = elim (latest ms) [
  | some l ↦ some l
  | none ↦ if is_user m.role then some m else none
]

pub choose_evidence-total :
    (available : ℕ) (es : List (List ℕ)) (used : ℕ)
    → used ≤ available
    → ((choose_evidence available es used).1 ≤ available)
      × ((choose_evidence available es used).1 ≡ used + total (choose_evidence available es used).0)
      × (length (choose_evidence available es used).0 ≤ length es)
unfolding choose_evidence total
choose_evidence-total available [] used le = (le, omega arith, omega arith)
choose_evidence-total available (e ∷ es) used le =
    elim (Bool-cases (ltb available (used + estimate e))) [
      | inl over ↦
          let (a, b, c) = choose_evidence-total available es used le in
          rw over (a, b, omega (arith, c))
      | inr fits ↦
          let (a, b, c) =
            choose_evidence-total available es (used + estimate e) (ground (arith, fits)) in
          rw fits (a, omega (arith, b), omega (arith, c))
    ]

-- What is kept of the evidence stands in the order in which it was found.
pub choose_evidence-selected :
    (available : ℕ) (es : List (List ℕ)) (used : ℕ)
    → (flags : List Bool) × ((choose_evidence available es used).0 ≡ selected flags es)
unfolding choose_evidence selected
choose_evidence-selected available [] used = ([], refl)
choose_evidence-selected available (e ∷ es) used =
    elim (Bool-cases (ltb available (used + estimate e))) [
      | inl over ↦
          let (flags, same) = choose_evidence-selected available es used in
          (false ∷ flags, rw over same)
      | inr fits ↦
          let (flags, same) = choose_evidence-selected available es (used + estimate e) in
          (true ∷ flags, rw fits (ap (λ rest. e ∷ rest) same))
    ]

last_user-latest-none :
    (index : ℕ) (ms : List Message)
    → last_user index ms ≡ none
    → (flags : List Bool) → latest (selected flags ms) ≡ none
unfolding last_user latest selected
last_user-latest-none index [] h [] = refl
last_user-latest-none index [] h (b ∷ flags) = refl
last_user-latest-none index (m ∷ ms) h [] = refl
last_user-latest-none index (m ∷ ms) h (b ∷ flags) =
    elim (Option-cases (last_user (suc index) ms)) [
      | inr (k, there) ↦ absurd (ground (arith, h, there))
      | inl missing ↦
          let rest = last_user-latest-none (suc index) ms missing flags in
          let other : is_user m.role ≡ false = ground (arith, h, missing) in
          elim (Bool-cases b) [
            | inl kept ↦ rw (kept, rest, latest, other) refl
            | inr dropped ↦ rw dropped rest
          ]
    ]

-- A transcript has no user's message, or one at an index that is the latest.
pub last_user-cases :
    (index : ℕ) (ms : List Message)
    → ((last_user index ms ≡ none) × (latest ms ≡ none))
      ⊎ ((j : ℕ) × (last_user index ms ≡ some (index + j))
          × (j < length ms)
          × (latest ms ≡ some (message_at j ms)))
unfolding last_user latest
last_user-cases index [] = inl (refl, refl)
last_user-cases index (m ∷ ms) = elim (last_user-cases (suc index) ms) [
  | inr (j, there, short, found) ↦
      inr (suc j, rw there (ap some (omega arith)), omega (arith, short), rw found refl)
  | inl (missing, no_user) ↦ elim (Bool-cases (is_user m.role)) [
    | inl sender ↦
        inr
          (0, rw (missing, sender) (ap some (omega arith)), omega arith, rw (no_user, sender) refl)
    | inr other ↦ inl (rw (missing, other) refl, rw (no_user, other) refl)
  ]
]

module _ (available last : ℕ) where
  pub choose_le :
      (index : ℕ) (ms : List Message) (used : ℕ)
      → used ≤ available
      → (choose available last index ms used).1 ≤ available
  unfolding choose
  choose_le index [] used le = le
  choose_le index (m ∷ ms) used le =
      let rest = choose_le (suc index) ms used le in
      let after = (choose available last (suc index) ms used).1 in
      elim (Bool-cases (index == last)) [
        | inl its ↦ rw its rest
        | inr other ↦ elim (Bool-cases (ltb available (after + message_cost m))) [
          | inl over ↦ rw (other, over) rest
          | inr fits ↦ rw (other, fits) (ground (arith, fits))
        ]
      ]

  -- After the last user's message, what is selected is what is counted.
  choose-beyond :
      (index : ℕ) (ms : List Message) (used : ℕ)
      → last < index
      → (choose available last index ms used).1
        ≡ used + total_cost (selected (choose available last index ms used).0 ms)
  unfolding choose selected total_cost
  choose-beyond index [] used past = omega arith
  choose-beyond index (m ∷ ms) used past =
      let rest = choose-beyond (suc index) ms used (omega (arith, past)) in
      let after = (choose available last (suc index) ms used).1 in
      let other : (index == last) ≡ false = ground (arith, past) in
      elim (Bool-cases (ltb available (after + message_cost m))) [
        | inl over ↦ rw (other, over) rest
        | inr fits ↦ rw (other, fits) (omega (arith, rest))
      ]

  -- Up to it, the last user's message was counted before.
  pub choose-within :
      (index : ℕ) (ms : List Message) (used k : ℕ)
      → last ≡ index + k
      → k < length ms
      → (choose available last index ms used).1 + message_cost (message_at k ms)
        ≡ used + total_cost (selected (choose available last index ms used).0 ms)
  unfolding choose selected total_cost
  choose-within index [] used k at short = absurd (omega (arith, short))
  choose-within index (m ∷ ms) used zero at short =
      let rest = choose-beyond (suc index) ms used (omega (arith, at)) in
      let its : (index == last) ≡ true = ground (arith, at) in rw its (omega (arith, rest))
  choose-within index (m ∷ ms) used (suc k) at short =
      let rest = choose-within (suc index) ms used k (omega (arith, at)) (omega (arith, short)) in
      let after = (choose available last (suc index) ms used).1 in
      let other : (index == last) ≡ false = ground (arith, at) in
      elim (Bool-cases (ltb available (after + message_cost m))) [
        | inl over ↦ rw (other, over) rest
        | inr fits ↦ rw (other, fits) (omega (arith, rest))
      ]

  pub choose-latest :
      (index : ℕ) (ms : List Message) (used : ℕ)
      → last_user index ms ≡ some last
      → latest (selected (choose available last index ms used).0 ms) ≡ latest ms
  unfolding choose selected latest last_user
  choose-latest index [] used h = cc
  choose-latest index (m ∷ ms) used h = elim (last_user-cases (suc index) ms) [
    | inl (missing, no_user) ↦
        let its : (index == last) ≡ true = ground (arith, h, missing) in
        let sender : is_user m.role ≡ true = ground (arith, h, missing) in
        let rest =
          last_user-latest-none (suc index) ms missing
            (choose available last (suc index) ms used).0 in
        rw (its, rest, latest, no_user, sender) refl
    | inr (j, there, short, found) ↦
        let same : last_user (suc index) ms ≡ some last = ground (arith, h, there) in
        let other : (index == last) ≡ false = ground (arith, h, there) in
        let rest = choose-latest (suc index) ms used same ∙ found in
        let after = (choose available last (suc index) ms used).1 in
        elim (Bool-cases (ltb available (after + message_cost m))) [
          | inl over ↦ rw (other, over, found) rest
          | inr fits ↦ rw (other, fits, latest, rest, found) refl
        ]
  ]
