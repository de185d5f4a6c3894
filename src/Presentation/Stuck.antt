-- ===== src/Presentation/Stuck.antt =====
-- A text on which the loop of SplitMessage does not end (internal/discord/presentation.go).
use command_prompter_doc_bot.Prelude.{
  ℕ, zero, suc, ◌≤◌, ◌<◌, ◌≡◌, refl, true, false, none, some, List, [], ◌∷◌, ◌++◌, ltb, length,
  take, arith, ok, lt→ltb,
}
use command_prompter_doc_bot.Presentation.Splitting.{
  newline, fence, last_index, split_among, split_point, split_at, starts_with_plain_fence,
  fence_count, ends_inside_code_block, split_once, split_loop, closed_cut,
}

-- A fence that was opened again before a paragraph that follows an empty line.
abbrev pub after_paragraph : List ℕ → List ℕ
after_paragraph tail = (fence ++ newline ∷ []) ++ newline ∷ newline ∷ tail

split_point_four :
    (limit : ℕ) (text : List ℕ)
    → last_index (newline ∷ newline ∷ []) (take limit text) ≡ some 4
    → split_point text limit ≡ 4
unfolding split_point split_among
split_point_four limit text h = rw (h, split_among) refl

same_again :
    (limit : ℕ) (tail : List ℕ)
    → 8 ≤ limit
    → last_index (newline ∷ newline ∷ []) (take limit (after_paragraph tail)) ≡ some 4
    → split_once limit (after_paragraph tail) ≡ ok (closed_cut 4 (after_paragraph tail))
unfolding split_once split_at starts_with_plain_fence ends_inside_code_block fence_count
same_again limit tail h e =
    let room : ltb limit 8 ≡ false = ground (arith, h) in
    rw (split_point_four limit (after_paragraph tail) e, room) refl

-- If the rest of the limit has no further empty line, an iteration cuts off the fence alone and leaves
-- the text as it was, so that SplitMessage never returns.
pub split_loop-after_paragraph :
    (fuel limit : ℕ) (tail : List ℕ)
    → 8 ≤ limit
    → limit < length (after_paragraph tail)
    → last_index (newline ∷ newline ∷ []) (take limit (after_paragraph tail)) ≡ some 4
    → split_loop fuel limit (after_paragraph tail) ≡ none
unfolding split_loop
split_loop-after_paragraph zero limit tail h long e =
    let more : ltb limit (length (after_paragraph tail)) ≡ true = lt→ltb _ _ long in
    rw (more, split_loop) refl
split_loop-after_paragraph (suc fuel) limit tail h long e =
    let more : ltb limit (length (after_paragraph tail)) ≡ true = lt→ltb _ _ long in
    rw
      (
        more,
        same_again limit tail h e,
        split_loop-after_paragraph fuel limit tail h long e,
        split_loop,
      )
      refl
