-- ===== src/Presentation/Prose.antt =====
-- SplitMessage on a text without code blocks (internal/discord/presentation.go).
use command_prompter_doc_bot.Prelude.{
  ℕ, zero, suc, ◌-◌, ◌≤◌, ◌<◌, ◌≡◌, refl, ap, ◌∙◌, inl, inr, false, ◌==◌, some, List, [], ◌∷◌, ◌++◌,
  ltb, leb, length, flatten, append-nil, take, drop, take-drop, arith, Bool-cases, ok,
}
use command_prompter_doc_bot.Presentation.Splitting.{
  newline, fence, starts_with, outside, fence_count, ends_inside_code_block, cut, split_at,
  split_point, split_once, split_loop, split_message, last_chunk, starts_with_plain_fence,
}
use command_prompter_doc_bot.Presentation.Points.{split_point_between}

starts_with-take :
    (p text : List ℕ) (n : ℕ) → starts_with p text ≡ false → starts_with p (take n text) ≡ false
starts_with-take [] text n h = cc
starts_with-take (a ∷ p) text zero h = refl
starts_with-take (a ∷ p) [] (suc n) h = refl
starts_with-take (a ∷ p) (c ∷ text) (suc n) h = elim (Bool-cases (a == c)) [
  | inl same ↦ rw same (starts_with-take p text n (ground (arith, h, same)))
  | inr other ↦ rw other refl
]

-- No fence stands in the text.
no_fence_step :
    (c : ℕ) (text : List ℕ)
    → fence_count outside (c ∷ text) ≡ 0
    → (starts_with fence (c ∷ text) ≡ false) × (fence_count outside text ≡ 0)
unfolding fence_count
no_fence_step c text h = elim (Bool-cases (starts_with fence (c ∷ text))) [
  | inl opens ↦ absurd (omega (arith, (rw (opens, fence_count) at h)))
  | inr goes_on ↦ (goes_on, rw (goes_on, fence_count) at h)
]

fence_count-take :
    (n : ℕ) (text : List ℕ) → fence_count outside text ≡ 0 → fence_count outside (take n text) ≡ 0
unfolding fence_count
fence_count-take zero text h = refl
fence_count-take (suc n) [] h = refl
fence_count-take (suc n) (c ∷ text) h =
    let (goes_on, rest) = no_fence_step c text h in
    rw (starts_with-take fence (c ∷ text) (suc n) goes_on, fence_count)
      (fence_count-take n text rest)

fence_count-drop :
    (n : ℕ) (text : List ℕ) → fence_count outside text ≡ 0 → fence_count outside (drop n text) ≡ 0
unfolding fence_count
fence_count-drop zero text h = h
fence_count-drop (suc n) [] h = refl
fence_count-drop (suc n) (c ∷ text) h = fence_count-drop n text (no_fence_step c text h).1

starts_with-append :
    (p q text : List ℕ) → starts_with p text ≡ false → starts_with (p ++ q) text ≡ false
starts_with-append [] q text h = cc
starts_with-append (a ∷ p) q [] h = refl
starts_with-append (a ∷ p) q (c ∷ text) h = elim (Bool-cases (a == c)) [
  | inl same ↦ rw same (starts_with-append p q text (ground (arith, h, same)))
  | inr other ↦ rw other refl
]

not_reopened : (text : List ℕ) → fence_count outside text ≡ 0 → starts_with_plain_fence text ≡ false
unfolding starts_with_plain_fence
not_reopened [] h = refl
not_reopened (c ∷ text) h =
    starts_with-append fence (newline ∷ []) (c ∷ text) (no_fence_step c text h).0

split_once-cut :
    (limit : ℕ) (text : List ℕ)
    → fence_count outside text ≡ 0
    → split_once limit text ≡ ok (cut (split_point text limit) text)
unfolding split_once split_at ends_inside_code_block
split_once-cut limit text h =
    rw (not_reopened text h, fence_count-take (split_point text limit) text h) refl

flatten-last_chunk : (text : List ℕ) → flatten (last_chunk text) ≡ text
unfolding flatten
flatten-last_chunk [] = refl
flatten-last_chunk (c ∷ text) = ap (λ xs. c ∷ xs) (append-nil text)

length-drop : {A : Type 0} (n : ℕ) (xs : List A) → length (drop n xs) ≡ length xs - n
length-drop zero xs = omega arith
length-drop (suc n) [] = omega arith
length-drop (suc n) (x ∷ xs) = omega (arith, length-drop n xs)

split_loop-flatten :
    (fuel limit : ℕ) (text : List ℕ)
    → 0 < limit
    → length text ≤ fuel
    → fence_count outside text ≡ 0
    → (chunks : List (List ℕ)) × (split_loop fuel limit text ≡ some (ok chunks))
      × (flatten chunks ≡ text)
unfolding split_loop flatten
split_loop-flatten zero limit text k le h =
    (last_chunk text, ground (arith, le), flatten-last_chunk text)
split_loop-flatten (suc fuel) limit text k le h = elim (Bool-cases (ltb limit (length text))) [
  | inr short ↦ (last_chunk text, rw (short, split_loop) refl, flatten-last_chunk text)
  | inl long ↦
      let at = split_point text limit in
      let (low, high) = split_point_between text limit k in
      let (chunks, e, joined) =
        split_loop-flatten fuel limit (drop at text) k (ground (arith, length-drop at text))
          (fence_count-drop at text h) in
      (
        take at text ∷ chunks,
        rw (long, split_once-cut limit text h, e, split_loop) refl,
        ap (λ rest. take at text ++ rest) joined ∙ take-drop at text,
      )
]

-- On a text without a fence, and with a positive limit, SplitMessage returns: fuel for one iteration
-- for each rune is enough. The chunks put together are the text, rune for rune.
pub split_message_total :
    (text : List ℕ) (limit : ℕ)
    → 0 < limit
    → fence_count outside text ≡ 0
    → (chunks : List (List ℕ)) × (split_message (length text) text limit ≡ some (ok chunks))
      × (flatten chunks ≡ text)
unfolding split_message flatten
split_message_total [] limit k h =
    let some_limit : leb limit 0 ≡ false = ground (arith, k) in
    ([] ∷ [], rw (some_limit, split_message) refl, refl)
split_message_total (c ∷ text) limit k h =
    let some_limit : leb limit 0 ≡ false = ground (arith, k) in
    elim (Bool-cases (leb (length (c ∷ text)) limit)) [
      | inl short ↦ (
        (c ∷ text) ∷ [],
        rw (some_limit, short, split_message) refl,
        flatten-last_chunk (c ∷ text),
      )
      | inr long ↦
          let (chunks, e, joined) =
            split_loop-flatten (length (c ∷ text)) limit (c ∷ text) k (omega arith) h in
          (chunks, rw (some_limit, long, e, split_message) refl, joined)
    ]
