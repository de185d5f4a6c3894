-- ===== src/Presentation/Messages.antt =====
-- Whole messages of SplitMessage (internal/discord/presentation.go).
use command_prompter_doc_bot.Prelude.{
  ℕ, zero, suc, ◌+◌, ◌≤◌, ◌<◌, ◌≡◌, ◌≢◌, refl, sym, subst, inl, inr, false, Option, none, some,
  List, [], ◌∷◌, ◌++◌, ltb, leb, length, take, drop, take-drop, length-append, length-take, All,
  arith, Bool-cases, Result, Result-cases, ok, err,
}
use command_prompter_doc_bot.Presentation.Splitting.{
  newline, fence, ends_inside_code_block, Cut, split_once, SplitError, split_loop, split_message,
  last_chunk, and_chunk,
}
use command_prompter_doc_bot.Presentation.Cuts.{Cutting, split_once-Cutting}

-- A text as chunks of at most `limit` runes. A chunk is a piece of the text that does not end inside a
-- code block, or a piece with a fence that closes it, after which the text goes on behind a fence that
-- opens a block again.
pub data Pages (limit : ℕ) : List ℕ → List (List ℕ) → Type 0 where
  last : (text : List ℕ) → length text ≤ limit → Pages limit text (last_chunk text)
  whole :
      (piece rest : List ℕ) (chunks : List (List ℕ))
      → length piece ≤ limit
      → ends_inside_code_block piece ≡ false
      → Pages limit rest chunks
      → Pages limit (piece ++ rest) (piece ∷ chunks)
  closed :
      (piece rest : List ℕ) (chunks : List (List ℕ))
      → length piece + 4 ≤ limit
      → Pages limit ((fence ++ newline ∷ []) ++ rest) chunks
      → Pages limit (piece ++ rest) ((piece ++ newline ∷ fence) ∷ chunks)

cut-Pages :
    (limit : ℕ) (text : List ℕ) (c : Cut) (chunks : List (List ℕ))
    → Cutting limit text c
    → Pages limit c.remaining chunks
    → Pages limit text (c.chunk ∷ chunks)
cut-Pages limit text c chunks k ih = elim k.cuts [
  | inl p ↦
      let (e, le, balanced) = p in
      subst (λ (d : Cut). Pages limit text (d.chunk ∷ chunks)) (sym e)
        (subst (λ t. Pages limit t (take k.at text ∷ chunks)) (take-drop k.at text)
          (whole (take k.at text) (drop k.at text) chunks (omega (arith, le, length-take k.at text))
            balanced (subst (λ (d : Cut). Pages limit d.remaining chunks) e ih)))
  | inr p ↦
      let (e, le) = p in
      subst (λ (d : Cut). Pages limit text (d.chunk ∷ chunks)) (sym e)
        (subst (λ t. Pages limit t ((take k.at text ++ newline ∷ fence) ∷ chunks))
          (take-drop k.at text)
          (closed (take k.at text) (drop k.at text) chunks le
            (subst (λ (d : Cut). Pages limit d.remaining chunks) e ih)))
]

and_chunk-ok :
    (chunk : List ℕ) (r : Option (Result SplitError (List (List ℕ)))) (chunks : List (List ℕ))
    → and_chunk chunk r ≡ some (ok chunks)
    → (others : List (List ℕ)) × (r ≡ some (ok others)) × (chunks ≡ chunk ∷ others)
and_chunk-ok chunk none chunks h = cc
and_chunk-ok chunk (some (err e)) chunks h = cc
and_chunk-ok chunk (some (ok others)) chunks h = (others, refl, ground (arith, h))

pub split_loop-Pages :
    (fuel limit : ℕ) (text : List ℕ) (chunks : List (List ℕ))
    → 0 < limit
    → split_loop fuel limit text ≡ some (ok chunks)
    → Pages limit text chunks
unfolding split_loop
split_loop-Pages zero limit text chunks k h = elim (Bool-cases (ltb limit (length text))) [
  | inl long ↦ absurd (ground (arith, h, long))
  | inr short ↦
      let e : last_chunk text ≡ chunks = ground (arith, h, short) in
      subst (Pages limit text) e (last text (ground arith))
]
split_loop-Pages (suc fuel) limit text chunks k h = elim (Bool-cases (ltb limit (length text))) [
  | inr short ↦
      let e : last_chunk text ≡ chunks = ground (arith, h, short) in
      subst (Pages limit text) e (last text (ground arith))
  | inl long ↦ elim (Result-cases (split_once limit text)) [
    | inr (e, bad) ↦ absurd (ground (arith, h, long, bad))
    | inl (c, good) ↦
        let (others, rest, e) =
          and_chunk-ok c.chunk (split_loop fuel limit c.remaining) chunks (rw (long, good) at h) in
        subst (Pages limit text) (sym e) (
          cut-Pages limit text c others (split_once-Cutting limit text c k good)
            (split_loop-Pages fuel limit c.remaining others k rest))
  ]
]

bounded :
    (limit : ℕ) (text : List ℕ) (chunks : List (List ℕ))
    → Pages limit text chunks
    → All (λ chunk. length chunk ≤ limit) chunks
bounded limit _ _ (last [] le) = tt
bounded limit _ _ (last (c ∷ text) le) = (le, tt)
bounded limit _ _ (whole piece rest chunks le balanced p) = (le, bounded limit rest chunks p)
bounded limit _ _ (closed piece rest chunks le p) =
    (omega (arith, le, length-append piece (newline ∷ fence)), bounded limit _ chunks p)

-- When SplitMessage returns chunks, each has at most `limit` runes, and they are the pages of the
-- text: put together without the fences that were added they are the text, and a chunk to which no
-- fence was added, other than the last one, does not end inside a code block.
pub split_message-Pages :
    (fuel : ℕ) (text : List ℕ) (limit : ℕ) (chunks : List (List ℕ))
    → split_message fuel text limit ≡ some (ok chunks)
    → text ≢ []
    → All (λ chunk. length chunk ≤ limit) chunks × Pages limit text chunks
unfolding split_message
split_message-Pages fuel [] limit chunks h full = absurd (full refl)
split_message-Pages fuel (c ∷ text) limit chunks h full = elim (Bool-cases (leb limit 0)) [
  | inl bad ↦ absurd (ground (arith, h, bad))
  | inr good ↦ elim (Bool-cases (leb (length (c ∷ text)) limit)) [
    | inl short ↦
        let e : (c ∷ text) ∷ [] ≡ chunks = ground (arith, h, good, short) in
        let p : Pages limit (c ∷ text) chunks =
          subst (Pages limit (c ∷ text)) e (last (c ∷ text) (ground arith)) in
        (bounded limit (c ∷ text) chunks p, p)
    | inr long ↦
        let p : Pages limit (c ∷ text) chunks =
          split_loop-Pages fuel limit (c ∷ text) chunks (ground arith) (rw (good, long) at h) in
        (bounded limit (c ∷ text) chunks p, p)
  ]
]
