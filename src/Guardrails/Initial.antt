-- ===== src/Guardrails/Initial.antt =====
-- budgetInitial (internal/agents/guardrails.go): the messages and the evidence that fit the window of a
-- model. Texts are their bytes.
use command_prompter_doc_bot.Prelude.{
  ℕ, zero, suc, ◌+◌, ◌-◌, Bool, true, false, ◌||◌, Option, none, some, List, [], ◌∷◌, ◌==◌, ltb,
  leb, if◌then◌else◌, length, Result, ok, err,
}
use command_prompter_doc_bot.Budget.Truncation.{default_safety_tokens, estimate_tokens}

pub data Role : Type 0 where
  system user assistant : Role

pub record Message : Type 0 where
  pub role : Role
  pub content : List ℕ

pub data ExecutionError : Type 0 where
  unavailable invalid : ExecutionError

pub record Budgeted : Type 0 where
  pub messages : List Message
  pub evidence : List (List ℕ)
  pub estimated_input_tokens : ℕ
  pub truncated_transcript : ℕ
  pub truncated_evidence : ℕ

-- estimateTokens, of at least one token.
unfoldable pub estimate : List ℕ → ℕ
estimate value = let count = estimate_tokens value in if ltb count 1 then 1 else count

-- `SYSTEM`, `USER` and `ASSISTANT`.
abbrev pub role_name : Role → List ℕ
role_name system = 83 ∷ 89 ∷ 83 ∷ 84 ∷ 69 ∷ 77 ∷ []
role_name user = 85 ∷ 83 ∷ 69 ∷ 82 ∷ []
role_name assistant = 65 ∷ 83 ∷ 83 ∷ 73 ∷ 83 ∷ 84 ∷ 65 ∷ 78 ∷ 84 ∷ []

unfoldable pub message_cost : Message → ℕ
message_cost m = estimate (role_name m.role) + estimate m.content

abbrev pub is_user : Role → Bool
is_user user = true
is_user _ = false

-- The last index of a user's message, of messages that start at an index.
unfoldable pub last_user : ℕ → List Message → Option ℕ
last_user index [] = none
last_user index (m ∷ ms) = elim (last_user (suc index) ms) [
  | some k ↦ some k
  | none ↦ if is_user m.role then some index else none
]

-- The loop from the last message to the first, after which `used` tokens are used.
unfoldable pub choose : ℕ → ℕ → ℕ → List Message → ℕ → List Bool × ℕ
choose available last index [] used = ([], used)
choose available last index (m ∷ ms) used =
    let later = choose available last (suc index) ms used in
    if index == last
    then (true ∷ later.0, later.1)
    else if ltb available (later.1 + message_cost m)
    then (false ∷ later.0, later.1)
    else (true ∷ later.0, later.1 + message_cost m)

unfoldable pub selected {ℓ} : {A : Type ℓ} → List Bool → List A → List A
selected [] xs = []
selected (b ∷ bs) [] = []
selected (b ∷ bs) (x ∷ xs) = let rest = selected bs xs in if b then x ∷ rest else rest

-- The evidence that still fits, the first first, and the tokens that are used after it.
unfoldable pub choose_evidence : ℕ → List (List ℕ) → ℕ → List (List ℕ) × ℕ
choose_evidence available [] used = ([], used)
choose_evidence available (e ∷ es) used =
    let over = ltb available (used + estimate e) in
    let rest = choose_evidence available es (if over then used else used + estimate e) in
    if over then rest else (e ∷ rest.0, rest.1)

abbrev pub message_at : ℕ → List Message → Message
message_at k [] = record { role = user; content = [] }
message_at zero (m ∷ ms) = m
message_at (suc k) (m ∷ ms) = message_at k ms

unfoldable pub fill : ℕ → ℕ → List Message → List (List ℕ) → ℕ → Budgeted
fill available last messages evidence used =
    let chosen = choose available last 0 messages used in
    let kept = selected chosen.0 messages in
    let found = choose_evidence available evidence chosen.1 in
    record {
      messages = kept;
      evidence = found.0;
      estimated_input_tokens = found.1;
      truncated_transcript = length messages - length kept;
      truncated_evidence = length evidence - length found.0;
    }

unfoldable pub budget_initial :
    ℕ → ℕ → List ℕ → List Message → List (List ℕ) → Result ExecutionError Budgeted
budget_initial context_window max_output prompt messages evidence =
    let available = context_window - max_output - default_safety_tokens in
    let used = estimate prompt in
    if (context_window == 0)
      || (max_output == 0)
      || leb context_window (max_output + default_safety_tokens)
    then err unavailable
    else if leb available used
    then err unavailable
    else elim (last_user 0 messages) [
      | none ↦ err invalid
      | some last ↦
          let required = message_cost (message_at last messages) in
          if ltb available (used + required)
          then err invalid
          else ok (fill available last messages evidence (used + required))
    ]
