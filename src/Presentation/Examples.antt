-- ===== src/Presentation/Examples.antt =====
-- Messages that are split at a small limit (internal/discord/presentation.go).
use command_prompter_doc_bot.Prelude.{
  ℕ, ◌≤◌, ◌≡◌, refl, false, none, some, List, [], ◌∷◌, ◌++◌, length, flatten, All, arith, ok,
}
use command_prompter_doc_bot.Presentation.Splitting.{
  newline, space, fence, ends_inside_code_block, split_message, split_loop, split_once, split_at,
  split_point, split_among, last_index, fence_count, starts_with_plain_fence, Cut, closed_cut,
}
use command_prompter_doc_bot.Presentation.Cuts.{split_once-ends_inside_code_block}
use command_prompter_doc_bot.Presentation.Messages.{Pages, split_message-Pages}
use command_prompter_doc_bot.Presentation.Stuck.{after_paragraph, split_loop-after_paragraph}
use command_prompter_doc_bot.Presentation.Prose.{split_message_total}

-- Two lines of a code block, whose letters are a.
abbrev code : List ℕ
code = fence ++ newline ∷ 97 ∷ 97 ∷ 97 ∷ newline ∷ 97 ∷ 97 ∷ 97 ∷ 97 ∷ newline ∷ fence

abbrev code_pages : List (List ℕ)
code_pages =
    (fence ++ newline ∷ 97 ∷ 97 ∷ 97 ∷ newline ∷ fence)
    ∷ (fence ++ newline ∷ newline ∷ 97 ∷ 97 ∷ 97 ∷ newline ∷ fence)
    ∷ (fence ++ newline ∷ 97 ∷ newline ∷ fence)
    ∷ []

code-split_message : split_message 9 code 12 ≡ some (ok code_pages)
unfolding split_message split_loop split_once split_at split_point split_among last_index
    fence_count starts_with_plain_fence ends_inside_code_block
code-split_message = refl

split_message-Pages_example : All (λ chunk. length chunk ≤ 12) code_pages × Pages 12 code code_pages
split_message-Pages_example = split_message-Pages 9 code 12 code_pages code-split_message (λ e. cc)

-- Ten letters without an empty line.
abbrev line : List ℕ
line = 97 ∷ 97 ∷ 97 ∷ 97 ∷ 97 ∷ 97 ∷ 97 ∷ 97 ∷ 97 ∷ 97 ∷ []

split_loop-after_paragraph_example : split_loop 1000 10 (after_paragraph line) ≡ none
unfolding last_index
split_loop-after_paragraph_example =
    split_loop-after_paragraph 1000 10 line (omega arith) (omega arith) refl

abbrev prose : List ℕ
prose = 97 ∷ 97 ∷ space ∷ 97 ∷ 97 ∷ newline ∷ 97 ∷ space ∷ 97 ∷ []

split_message_total_example :
    (chunks : List (List ℕ)) × (split_message 9 prose 4 ≡ some (ok chunks))
    × (flatten chunks ≡ prose)
unfolding fence_count
split_message_total_example = split_message_total prose 4 (omega arith) refl

abbrev first_page : Cut
first_page = closed_cut 7 code

code-split_once : split_once 12 code ≡ ok first_page
unfolding split_once split_at split_point split_among last_index fence_count starts_with_plain_fence
    ends_inside_code_block
code-split_once = refl

split_once-ends_inside_code_block_example : ends_inside_code_block first_page.chunk ≡ false
unfolding split_at split_point split_among last_index starts_with_plain_fence
split_once-ends_inside_code_block_example =
    split_once-ends_inside_code_block 12 code first_page code-split_once refl

-- The second split stands before the fence, so that the fence that closes the chunk opens a block.
abbrev late_fence : List ℕ
late_fence =
    97 ∷ 97 ∷ newline ∷ (fence ++ 97 ∷ 97 ∷ 97 ∷ 97 ∷ newline ∷ 97 ∷ 97 ∷ 97 ∷ newline ∷ fence)

split_once-late_fence :
    split_once 12 late_fence
    ≡ ok (record {
      chunk = 97 ∷ 97 ∷ newline ∷ fence;
      remaining =
          (fence ++ newline ∷ [])
          ++ newline ∷ (fence ++ 97 ∷ 97 ∷ 97 ∷ 97 ∷ newline ∷ 97 ∷ 97 ∷ 97 ∷ newline ∷ fence);
    })
unfolding split_once split_at split_point split_among last_index fence_count starts_with_plain_fence
    ends_inside_code_block
split_once-late_fence = refl
