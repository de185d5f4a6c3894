-- ===== src/Budget/Truncation.antt =====
-- EstimateTokens, Fits and TruncateResult (internal/modelbudget/budget.go). Bytes are natural numbers.
use command_prompter_doc_bot.Prelude.{
  ℕ, zero, suc, ◌+◌, ◌-◌, ◌/◌, Bool, true, false, not, ◌&&◌, Option, none, some, List, [], ◌∷◌,
  ◌++◌, ltb, leb, ◌==◌, if◌then◌else◌, length, keep, get_elem?, take, Result, ok, err,
}
use command_prompter_doc_bot.Budget.Search.{search}

abbrev pub default_safety_tokens : ℕ
default_safety_tokens = 1024

unfoldable pub estimate_tokens : List ℕ → ℕ
estimate_tokens [] = 0
estimate_tokens (b ∷ bytes) = (length (b ∷ bytes) + 3) / 4

unfoldable pub fits_window : List ℕ → ℕ → ℕ → ℕ → Bool
fits_window encoded context_window max_output safety =
    ltb 0 context_window
    && ltb 0 max_output
    && ltb 0 safety
    && leb (estimate_tokens encoded + max_output + safety) context_window

-- The envelope around a prefix.
pub record Envelope : Type 0 where
  pub content_prefix : List ℕ
  pub original_bytes : ℕ
  pub truncated : Bool

pub data TruncationError : Type 0 where
  cannot_fit : TruncationError

abbrev pub envelope : List ℕ → ℕ → Envelope
envelope encoded prefix = record {
  content_prefix = take prefix encoded;
  original_bytes = length encoded;
  truncated = true;
}

-- The bytes that a `range` over a string steps over: those of a valid encoding, or one.
abbrev within : ℕ → ℕ → ℕ → Bool
within low high b = leb low b && leb b high

abbrev continues : ℕ → List ℕ → Bool
continues zero bytes = true
continues (suc n) [] = false
continues (suc n) (b ∷ bytes) = within 128 191 b && continues n bytes

abbrev second_in : ℕ → ℕ → List ℕ → Bool
second_in low high [] = false
second_in low high (b ∷ bytes) = within low high b

unfoldable pub rune_width : ℕ → List ℕ → ℕ
rune_width b rest =
    if within 194 223 b && continues 1 rest
    then 2
    else if within 224 239 b
        && continues 2 rest
        && second_in (if b == 224 then 160 else 128) (if b == 237 then 159 else 191) rest
    then 3
    else if within 240 244 b
        && continues 3 rest
        && second_in (if b == 240 then 144 else 128) (if b == 244 then 143 else 191) rest
    then 4
    else 1

-- The indices of a `range` over a string, of which `skip` bytes belong to the last rune.
unfoldable pub range_indices : ℕ → ℕ → List ℕ → List ℕ
range_indices skip index [] = []
range_indices zero index (b ∷ bytes) =
    index ∷ range_indices (rune_width b bytes - 1) (suc index) bytes
range_indices (suc skip) index (b ∷ bytes) = range_indices skip (suc index) bytes

unfoldable pub boundaries : List ℕ → List ℕ
boundaries encoded =
    0 ∷ keep (λ index. not (index == 0)) (range_indices 0 0 encoded) ++ length encoded ∷ []

abbrev pub fits_at : List ℕ → (Envelope → Bool) → ℕ → Option Bool
fits_at encoded fits index = elim (get_elem? (boundaries encoded) index) [
  | none ↦ none
  | some b ↦ some (fits (envelope encoded b))
]

abbrev pub envelope_at : List ℕ → Option ℕ → Option (Result TruncationError Envelope)
envelope_at encoded none = none
envelope_at encoded (some b) = some (ok (envelope encoded b))

abbrev pub boundary_at : List ℕ → Option ℕ → Option ℕ
boundary_at encoded none = none
boundary_at encoded (some k) = get_elem? (boundaries encoded) k

-- No answer stands for an index out of range, or a loop that does not end.
unfoldable pub truncate_result :
    List ℕ → (Envelope → Bool) → Option (Result TruncationError Envelope)
truncate_result encoded fits =
    if not (fits (envelope encoded 0))
    then some (err cannot_fit)
    else let high = length (boundaries encoded) - 1 in
      envelope_at encoded (boundary_at encoded (search high (fits_at encoded fits) 0 high))
