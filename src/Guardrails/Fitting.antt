-- ===== src/Guardrails/Fitting.antt =====
-- What budgetInitial returns (internal/agents/guardrails.go).
use command_prompter_doc_bot.Prelude.{
  ℕ, ◌+◌, ◌-◌, ◌≤◌, ◌<◌, ◌≡◌, refl, ap, ◌∙◌, ◌⊎◌, inl, inr, Bool, false, ◌||◌, some, List, [], ◌∷◌,
  ◌==◌, ltb, leb, length, arith, Bool-cases, ok, err,
}
use command_prompter_doc_bot.Guardrails.Initial.{
  Budgeted, ExecutionError, Message, budget_initial, choose, estimate, fill, invalid, last_user,
  message_at, message_cost, selected, unavailable,
}
use command_prompter_doc_bot.Guardrails.Selecting.{
  choose-latest, choose-within, choose_evidence-selected, choose_evidence-total, choose_le,
  last_user-cases, latest, total, total_cost,
}
use command_prompter_doc_bot.Budget.Truncation.{default_safety_tokens}

-- Messages and evidence that fit the window next to the answer.
pub record Fitting (context_window max_output : ℕ) (prompt : List ℕ) (messages : List Message)
    (evidence : List (List ℕ)) (b : Budgeted) : Type 0 where
  pub fits : b.estimated_input_tokens + max_output + default_safety_tokens ≤ context_window
  pub counted :
      b.estimated_input_tokens ≡ estimate prompt + total_cost b.messages + total b.evidence
  pub newest : latest b.messages ≡ latest messages
  pub flags : List Bool
  pub in_order : b.messages ≡ selected flags messages
  pub evidence_flags : List Bool
  pub evidence_in_order : b.evidence ≡ selected evidence_flags evidence
  pub dropped_messages : b.truncated_transcript + length b.messages ≡ length messages
  pub dropped_evidence : b.truncated_evidence + length b.evidence ≡ length evidence

length-selected_le :
    {A : Type 0} (flags : List Bool) (xs : List A) → length (selected flags xs) ≤ length xs
unfolding selected
length-selected_le [] xs = omega arith
length-selected_le (b ∷ flags) [] = omega arith
length-selected_le (b ∷ flags) (x ∷ xs) =
    let rest = length-selected_le flags xs in
    elim (Bool-cases b) [
      | inl kept ↦ rw kept (omega (arith, rest))
      | inr gone ↦ rw gone (omega (arith, rest))
    ]

fill-Fitting :
    (context_window max_output : ℕ) (prompt : List ℕ) (messages : List Message)
    (evidence : List (List ℕ)) (last : ℕ)
    → max_output + default_safety_tokens < context_window
    → last_user 0 messages ≡ some last
    → last < length messages
    → estimate prompt + message_cost (message_at last messages)
      ≤ context_window - max_output - default_safety_tokens
    → Fitting context_window max_output prompt messages evidence (
        fill
          (context_window - max_output - default_safety_tokens)
          last
          messages
          evidence
          (estimate prompt + message_cost (message_at last messages)))
unfolding fill
fill-Fitting context_window max_output prompt messages evidence last room found short required =
    let available = context_window - max_output - default_safety_tokens in
    let used = estimate prompt + message_cost (message_at last messages) in
    let chosen = choose available last 0 messages used in
    let le = choose_le available last 0 messages used required in
    let cost = choose-within available last 0 messages used last (omega arith) short in
    let (within, sum, few) = choose_evidence-total available evidence chosen.1 le in
    let (evidence_kept, same) = choose_evidence-selected available evidence chosen.1 in
    record {
      fits = omega (arith, within, room);
      counted = omega (arith, sum, cost);
      newest = choose-latest available last 0 messages used found;
      flags = chosen.0;
      in_order = refl;
      evidence_flags = evidence_kept;
      evidence_in_order = same;
      dropped_messages = omega (arith, length-selected_le chosen.0 messages);
      dropped_evidence = omega (arith, few);
    }

-- A model's window has room for the answer, the reserve, the platform's prompt and the latest message of a
-- user.
abbrev pub Roomy : ℕ → ℕ → List ℕ → List Message → Type 0
Roomy context_window max_output prompt messages =
    (0 < max_output)
    × (max_output + default_safety_tokens + estimate prompt < context_window)
    × ((l : Message) × (latest messages ≡ some l)
        × (max_output + default_safety_tokens + estimate prompt + message_cost l ≤ context_window))

module _ (context_window max_output : ℕ) (prompt : List ℕ) (messages : List Message)
    (evidence : List (List ℕ)) where
  answers :
      (last : ℕ)
      → 0 < max_output
      → max_output + default_safety_tokens + estimate prompt < context_window
      → last_user 0 messages ≡ some last
      → max_output
          + default_safety_tokens
          + estimate prompt
          + message_cost (message_at last messages)
        ≤ context_window
      → budget_initial context_window max_output prompt messages evidence
        ≡ ok (
            fill
              (context_window - max_output - default_safety_tokens)
              last
              messages
              evidence
              (estimate prompt + message_cost (message_at last messages)))
  unfolding budget_initial
  answers last output room found required =
      let open_window : ((context_window == 0)
            || (max_output == 0)
            || leb context_window (max_output + default_safety_tokens))
          ≡ false =
        ground (arith, output, room) in
      let prompt_fits : leb (context_window - max_output - default_safety_tokens) (estimate prompt)
          ≡ false =
        ground (arith, room) in
      let user_fits : ltb (context_window - max_output - default_safety_tokens)
            (estimate prompt + message_cost (message_at last messages))
          ≡ false =
        ground (arith, required, room) in
      rw (open_window, prompt_fits, found, user_fits) refl

  -- budgetInitial answers exactly when the window has room, and refuses otherwise. What it answers fits the
  -- window next to the answer and the reserve, counts the tokens of the prompt and of what it kept, keeps
  -- the latest message of a user as the latest, and the messages and the evidence that it keeps in their
  -- order, and counts those that it dropped.
  pub budget_initial-Fitting :
      (Roomy context_window max_output prompt messages
        × ((b : Budgeted) × (budget_initial context_window max_output prompt messages evidence
              ≡ ok b)
            × Fitting context_window max_output prompt messages evidence b))
      ⊎ (¬ Roomy context_window max_output prompt messages
          × ((e : ExecutionError) × (budget_initial context_window max_output prompt messages
                  evidence
                ≡ err e)))
  unfolding budget_initial
  budget_initial-Fitting =
      let available = context_window - max_output - default_safety_tokens in
      elim (Bool-cases (
        (context_window == 0)
        || (max_output == 0)
        || leb context_window (max_output + default_safety_tokens))) [
          | inl closed ↦ inr (
            λ (output, room, _). ground (arith, closed, output, room),
            (unavailable, rw closed refl),
          )
          | inr roomy ↦ elim (Bool-cases (leb available (estimate prompt))) [
            | inl long ↦ inr (
              λ (output, room, _). ground (arith, long, room),
              (unavailable, rw (roomy, long) refl),
            )
            | inr short ↦
                let output : 0 < max_output = ground (arith, roomy) in
                let room : max_output + default_safety_tokens + estimate prompt < context_window =
                  ground (arith, roomy, short) in
                elim (last_user-cases 0 messages) [
                  | inl (missing, no_user) ↦ inr (
                    λ (_, _, (l, there, _)). absurd (ground (arith, no_user, there)),
                    (invalid, rw (roomy, short, missing) refl),
                  )
                  | inr (j, found, inside, newest) ↦
                      let found' : last_user 0 messages ≡ some j = found ∙ ap some (omega arith) in
                      let cost = message_cost (message_at j messages) in
                      elim (Bool-cases (ltb available (estimate prompt + cost))) [
                        | inl over ↦ inr (
                          λ (_, _, (l, there, fits)).
                              let same : message_at j messages ≡ l =
                                ground (arith, newest, there) in
                              ground (arith, over, ap message_cost same, fits),
                          (invalid, rw (roomy, short, found', over) refl),
                        )
                        | inr under ↦
                            let required : max_output
                                  + default_safety_tokens
                                  + estimate prompt
                                  + cost
                                ≤ context_window =
                              ground (arith, under, room) in
                            inl (
                              (output, room, (message_at j messages, newest, required)),
                              (
                                fill available j messages evidence (estimate prompt + cost),
                                answers j output room found' required,
                                fill-Fitting context_window max_output prompt messages evidence j
                                    (omega (arith, room)) found' inside (ground (arith, under)),
                              ),
                            )
                      ]
                ]
          ]
        ]
