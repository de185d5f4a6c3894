-- ===== src/Presentation/Fences.antt =====
-- What a closing fence does to endsInsideCodeBlock (internal/discord/presentation.go).
use command_prompter_doc_bot.Prelude.{
  ℕ, zero, suc, ◌+◌, ◌≡◌, refl, ◌∙◌, ◌<◌, length, inl, inr, true, false, not, List, [], ◌∷◌, ◌++◌,
  ◌==◌, arith, Bool-cases,
}
use command_prompter_doc_bot.Presentation.Splitting.{
  Scan, outside, header, marks, newline, fence, starts_with, fence_count, ends_inside_code_block,
}

abbrev Room : Scan → List ℕ → Type 0
Room (marks n) text = n < length text
Room _ text = Unit

starts_with-fence :
    (text : List ℕ) → starts_with fence (text ++ newline ∷ fence) ≡ starts_with fence text
starts_with-fence [] = refl
starts_with-fence (a ∷ []) = ground arith
starts_with-fence (a ∷ b ∷ []) = ground arith
starts_with-fence (a ∷ b ∷ c ∷ text) = refl

fence_room : (c : ℕ) (cs : List ℕ) → starts_with fence (c ∷ cs) ≡ true → 1 < length cs
fence_room c [] h = ground arith
fence_room c (b ∷ []) h = ground arith
fence_room c (b ∷ a ∷ cs) h = omega arith

fence_opens :
    (c : ℕ) (cs : List ℕ)
    → starts_with fence (c ∷ cs) ≡ true
    → fence_count outside (c ∷ cs) ≡ suc (fence_count (marks 1) cs)
unfolding fence_count
fence_opens c cs h = rw (h, fence_count) refl

no_fence :
    (c : ℕ) (cs : List ℕ)
    → starts_with fence (c ∷ cs) ≡ false
    → fence_count outside (c ∷ cs) ≡ fence_count outside cs
unfolding fence_count
no_fence c cs h = rw (h, fence_count) refl

-- A line of its own with a fence adds one to the fences, wherever the text before it ends.
fence_count-append :
    (scan : Scan) (text : List ℕ)
    → Room scan text
    → fence_count scan (text ++ newline ∷ fence) ≡ fence_count scan text + 1
unfolding fence_count
fence_count-append outside [] r = refl
fence_count-append header [] r = refl
fence_count-append (marks n) [] r = absurd (omega (arith, r))
fence_count-append outside (c ∷ cs) r =
    let same = starts_with-fence (c ∷ cs) in
    elim (Bool-cases (starts_with fence (c ∷ cs))) [
      | inl opens ↦ omega (
        arith,
        fence_opens c (cs ++ newline ∷ fence) (same ∙ opens),
        fence_opens c cs opens,
        fence_count-append (marks 1) cs (fence_room c cs opens),
      )
      | inr goes_on ↦ omega (
        arith,
        no_fence c (cs ++ newline ∷ fence) (same ∙ goes_on),
        no_fence c cs goes_on,
        fence_count-append outside cs tt,
      )
    ]
fence_count-append (marks zero) (c ∷ cs) r = fence_count-append header cs tt
fence_count-append (marks (suc n)) (c ∷ cs) r = fence_count-append (marks n) cs (omega (arith, r))
fence_count-append header (c ∷ cs) r = elim (Bool-cases (c == newline)) [
  | inl ends ↦ rw (ends, fence_count) (fence_count-append outside cs tt)
  | inr goes_on ↦ rw (goes_on, fence_count) (fence_count-append header cs tt)
]

-- Closing a chunk turns the answer of endsInsideCodeBlock around.
pub ends_inside_code_block-append :
    (text : List ℕ)
    → ends_inside_code_block (text ++ newline ∷ fence) ≡ not (ends_inside_code_block text)
unfolding ends_inside_code_block
ends_inside_code_block-append text = ground (arith, fence_count-append outside text tt)
