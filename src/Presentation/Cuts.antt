-- ===== src/Presentation/Cuts.antt =====
-- What an iteration of SplitMessage cuts off (internal/discord/presentation.go).
use command_prompter_doc_bot.Prelude.{
  ℕ, ◌+◌, ◌-◌, ◌≤◌, ◌<◌, ◌≡◌, ap, subst, ◌∙◌, ◌⊎◌, inl, inr, false, not, ◌&&◌, List, ltb, leb,
  length, take, length-take, arith, Bool-cases, ok,
}
use command_prompter_doc_bot.Presentation.Splitting.{
  split_point, split_at, starts_with_plain_fence, ends_inside_code_block, Cut, cut, closed_cut,
  split_once,
}
use command_prompter_doc_bot.Presentation.Fences.{ends_inside_code_block-append}
use command_prompter_doc_bot.Presentation.Points.{split_point_between, split_at_between}

-- An iteration cuts the text at a place within the limit, and closes the chunk or not.
pub record Cutting (limit : ℕ) (text : List ℕ) (c : Cut) : Type 0 where
  pub at : ℕ
  pub some_progress : 0 < at
  pub cuts :
      ((c ≡ cut at text) × (at ≤ limit) × (ends_inside_code_block (take at text) ≡ false))
      ⊎ ((c ≡ closed_cut at text) × (length (take at text) + 4 ≤ limit))

first_between :
    (limit : ℕ) (text : List ℕ)
    → 0 < limit
    → (starts_with_plain_fence text && leb (split_point text limit) 3 && leb limit 4) ≡ false
    → (0 < split_at text limit limit) × (split_at text limit limit ≤ limit)
first_between limit text k h = elim (Bool-cases (leb limit 4)) [
  | inr large ↦ split_at_between text limit limit k (ground arith) (omega arith) (omega arith)
  | inl small ↦
      let kept : (starts_with_plain_fence text && leb (split_point text limit) 3) ≡ false =
        ground (arith, h, small) in
      unfold split_at in rw kept (split_point_between text limit k)
]

pub split_once-Cutting :
    (limit : ℕ) (text : List ℕ) (c : Cut)
    → 0 < limit
    → split_once limit text ≡ ok c
    → Cutting limit text c
unfolding split_once
split_once-Cutting limit text c k h =
    let at = split_at text limit limit in
    elim (Bool-cases
      (starts_with_plain_fence text && leb (split_point text limit) 3 && leb limit 4)) [
        | inl refused ↦ absurd (ground (arith, h, refused))
        | inr going ↦
            let (low, high) = first_between limit text k going in
            elim (Bool-cases (ends_inside_code_block (take at text))) [
              | inr whole ↦ record {
                at = at;
                some_progress = low;
                cuts = inl (ground (arith, h, going, whole), high, whole);
              }
              | inl inside ↦ elim (Bool-cases (ltb limit (length (take at text) + 4))) [
                | inr fits ↦ record {
                  at = at;
                  some_progress = low;
                  cuts = inr (ground (arith, h, going, inside, fits), ground arith);
                }
                | inl long ↦ elim (Bool-cases (leb limit 4)) [
                  | inl small ↦ absurd (ground (arith, h, going, inside, long, small))
                  | inr large ↦
                      let again = split_at text limit (limit - 4) in
                      let (low2, high2) =
                        split_at_between text limit (limit - 4) (ground arith) (ground arith)
                          (omega arith) (omega arith) in
                      record {
                        at = again;
                        some_progress = low2;
                        cuts = inr (
                          ground (arith, h, going, inside, long, large),
                          ground (arith, high2, large, length-take again text),
                        );
                      }
                ]
              ]
            ]
      ]

-- A chunk of an iteration does not end inside a code block, if there is room for a closing fence after
-- the first split.
pub split_once-ends_inside_code_block :
    (limit : ℕ) (text : List ℕ) (c : Cut)
    → split_once limit text ≡ ok c
    → ltb limit (length (take (split_at text limit limit) text) + 4) ≡ false
    → ends_inside_code_block c.chunk ≡ false
unfolding split_once
split_once-ends_inside_code_block limit text c h room =
    let piece = take (split_at text limit limit) text in
    elim (Bool-cases
      (starts_with_plain_fence text && leb (split_point text limit) 3 && leb limit 4)) [
        | inl refused ↦ absurd (ground (arith, h, refused))
        | inr going ↦ elim (Bool-cases (ends_inside_code_block piece)) [
          | inr balanced ↦
              let e : cut (split_at text limit limit) text ≡ c =
                ground (arith, h, going, balanced) in
              subst (λ (d : Cut). ends_inside_code_block d.chunk ≡ false) e balanced
          | inl inside ↦
              let e : closed_cut (split_at text limit limit) text ≡ c =
                ground (arith, h, going, inside, room) in
              subst (λ (d : Cut). ends_inside_code_block d.chunk ≡ false) e
                (ends_inside_code_block-append piece ∙ ap not inside)
        ]
      ]
