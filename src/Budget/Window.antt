-- ===== src/Budget/Window.antt =====
-- Fits of internal/modelbudget/budget.go, as the attempts of a capsule use it.
use command_prompter_doc_bot.Prelude.{
  ℕ, ◌+◌, ◌*◌, ◌≤◌, ◌<◌, ◌≡◌, ◌↔◌, true, List, [], ◌∷◌, ◌/◌, length, arith,
}
use command_prompter_doc_bot.Budget.Truncation.{estimate_tokens, fits_window}

estimate_tokens_lem : (encoded : List ℕ) → estimate_tokens encoded ≡ (length encoded + 3) / 4
unfolding estimate_tokens
estimate_tokens_lem [] = omega arith
estimate_tokens_lem (b ∷ encoded) = omega arith

-- With a reserve for the output and one for safety, a request fits exactly when four bytes for each
-- token of the rest of the window hold it.
pub fits_window_iff :
    (encoded : List ℕ) (context_window max_output safety : ℕ)
    → 0 < max_output
    → 0 < safety
    → (fits_window encoded context_window max_output safety ≡ true)
      ↔ (length encoded + 4 * (max_output + safety) ≤ 4 * context_window)
unfolding fits_window
fits_window_iff encoded context_window max_output safety h k =
    ground (arith, estimate_tokens_lem encoded, h, k)
