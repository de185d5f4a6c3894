-- ===== src/Presentation/Points.antt =====
-- Where splitPoint splits (internal/discord/presentation.go).
use command_prompter_doc_bot.Prelude.{
  ℕ, zero, suc, ◌-◌, ◌≤◌, ◌<◌, ◌≡◌, refl, inl, inr, ◌&&◌, Option, none, some, List, [], ◌∷◌, leb,
  length, take, length-take, arith, Bool-cases, Option-cases,
}
use command_prompter_doc_bot.Presentation.Splitting.{
  last_index, split_among, split_point, separators, split_at, starts_with_plain_fence,
}

last_index_lt :
    (separator text : List ℕ) (i : ℕ) → last_index separator text ≡ some i → i < length text
unfolding last_index
last_index_lt separator [] i h = cc
last_index_lt separator (c ∷ cs) i h = elim (Option-cases (last_index separator cs)) [
  | inl none_later ↦ ground (arith, none_later, h)
  | inr (j, later) ↦ ground (arith, later, h, last_index_lt separator cs j later)
]

split_among_between :
    (all : List (List ℕ)) (window : List ℕ) (limit : ℕ)
    → length window ≤ limit
    → 0 < limit
    → (0 < split_among all window limit) × (split_among all window limit ≤ limit)
unfolding split_among
split_among_between [] window limit h k = (k, omega arith)
split_among_between (separator ∷ others) window limit h k =
    go (last_index separator window) refl (split_among_between others window limit h k)
  where
    go :
        (o : Option ℕ)
        → last_index separator window ≡ o
        → (0 < split_among others window limit) × (split_among others window limit ≤ limit)
        → (0 < split_among (separator ∷ others) window limit)
          × (split_among (separator ∷ others) window limit ≤ limit)
    go none e ih = rw (e, split_among) ih
    go (some zero) e ih = rw (e, split_among) ih
    go (some (suc i)) e ih =
        rw (e, split_among)
          (omega arith, omega (arith, last_index_lt separator window (suc i) e, h))

-- splitPoint splits after at least one rune and within the limit.
pub split_point_between :
    (text : List ℕ) (limit : ℕ)
    → 0 < limit
    → (0 < split_point text limit) × (split_point text limit ≤ limit)
unfolding split_point
split_point_between text limit k =
    split_among_between separators (take limit text) limit (length-take limit text) k

pub split_at_between :
    (text : List ℕ) (limit window : ℕ)
    → 0 < window
    → 4 < limit
    → limit - 4 ≤ window
    → window ≤ limit
    → (0 < split_at text limit window) × (split_at text limit window ≤ window)
unfolding split_at
split_at_between text limit window k l m n =
    let (low, high) = split_point_between text window k in
    elim (Bool-cases (starts_with_plain_fence text && leb (split_point text window) 3)) [
      | inl reopened ↦ rw reopened (omega (arith, l), omega (arith, m))
      | inr free ↦ rw free (low, high)
    ]
