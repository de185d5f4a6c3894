-- ===== src/Budget/Examples.antt =====
-- Tool results that are cut (internal/modelbudget/budget.go).
use command_prompter_doc_bot.Prelude.{
  ℕ, zero, suc, take, ◌+◌, ◌*◌, ◌≤◌, ◌≡◌, ◌↔◌, ◌⊎◌, refl, true, false, Bool, some, List, [], ◌∷◌,
  leb, length, get_elem?, arith, ok, err,
}
use command_prompter_doc_bot.Budget.Truncation.{
  Envelope, envelope, boundaries, cannot_fit, truncate_result, range_indices, rune_width,
  fits_window,
}
use command_prompter_doc_bot.Budget.Search.{search}
use command_prompter_doc_bot.Budget.Longest.{truncate_result_total, truncate_result-longest}
use command_prompter_doc_bot.Budget.Window.{fits_window_iff}

-- The letter a, the two bytes of é, the letter b.
abbrev word : List ℕ
word = 97 ∷ 195 ∷ 169 ∷ 98 ∷ []

abbrev at_most_two : Envelope → Bool
at_most_two e = leb (length e.content_prefix) 2

boundaries-word : boundaries word ≡ 0 ∷ 1 ∷ 3 ∷ 4 ∷ []
unfolding boundaries range_indices rune_width
boundaries-word = refl

at_most_two-truncate_result : truncate_result word at_most_two ≡ some (ok (envelope word 1))
unfolding truncate_result search boundaries range_indices rune_width
at_most_two-truncate_result = refl

length-take_le :
    {A : Type 0} (xs : List A) (m n : ℕ) → m ≤ n → length (take m xs) ≤ length (take n xs)
length-take_le xs zero n le = omega arith
length-take_le [] (suc m) n le = omega arith
length-take_le (x ∷ xs) (suc m) zero le = absurd (omega arith)
length-take_le (x ∷ xs) (suc m) (suc n) le =
    omega (arith, length-take_le xs m n (omega (arith, le)))

shorter :
    (m n : ℕ)
    → m ≤ n
    → n ≤ 4
    → at_most_two (envelope word n) ≡ true
    → at_most_two (envelope word m) ≡ true
shorter m n le four h = ground (arith, length-take_le word m n le)

truncate_result-longest_example :
    (b : ℕ) × (1 ≤ b)
    × (at_most_two (envelope word b) ≡ true)
    × (truncate_result word at_most_two ≡ some (ok (envelope word b)))
unfolding boundaries range_indices rune_width
truncate_result-longest_example = truncate_result-longest word at_most_two 1 1 shorter refl refl

truncate_result_total_example :
    ((at_most_two (envelope word 0) ≡ false)
      × (truncate_result word at_most_two ≡ some (err cannot_fit)))
    ⊎ ((b k : ℕ) × (get_elem? (boundaries word) k ≡ some b)
        × (b ≤ length word)
        × (at_most_two (envelope word b) ≡ true)
        × (truncate_result word at_most_two ≡ some (ok (envelope word b))))
truncate_result_total_example = truncate_result_total word at_most_two

fits_window_iff_example :
    (fits_window word 1026 1 1024 ≡ true) ↔ (length word + 4 * (1 + 1024) ≤ 4 * 1026)
fits_window_iff_example = fits_window_iff word 1026 1 1024 (omega arith) (omega arith)
