-- ===== src/Presentation/Splitting.antt =====
-- SplitMessage with splitPoint, startsWithPlainFence and endsInsideCodeBlock
-- (internal/discord/presentation.go). A text is the list of its runes.
use command_prompter_doc_bot.Prelude.{
  ℕ, zero, suc, ◌+◌, ◌-◌, ◌%◌, Bool, true, false, not, ◌&&◌, Option, none, some, List, [], ◌∷◌,
  ◌++◌, ltb, leb, ◌==◌, if◌then◌else◌, length, take, drop, Result, ok, err,
}

abbrev pub newline : ℕ
newline = 10

abbrev pub space : ℕ
space = 32

abbrev pub backtick : ℕ
backtick = 96

abbrev pub fence : List ℕ
fence = backtick ∷ backtick ∷ backtick ∷ []

abbrev pub starts_with : List ℕ → List ℕ → Bool
starts_with [] text = true
starts_with (p ∷ ps) [] = false
starts_with (p ∷ ps) (c ∷ cs) = (p == c) && starts_with ps cs

-- strings.LastIndex, for a separator that is not empty.
unfoldable pub last_index : List ℕ → List ℕ → Option ℕ
last_index separator [] = none
last_index separator (c ∷ cs) = elim (last_index separator cs) [
  | some i ↦ some (suc i)
  | none ↦ if starts_with separator (c ∷ cs) then some 0 else none
]

abbrev pub separators : List (List ℕ)
separators = (newline ∷ newline ∷ []) ∷ (newline ∷ []) ∷ (space ∷ []) ∷ []

-- The loop of splitPoint over the separators.
unfoldable pub split_among : List (List ℕ) → List ℕ → ℕ → ℕ
split_among [] window limit = limit
split_among (separator ∷ others) window limit = elim (last_index separator window) [
  | some (suc i) ↦ suc i
  | _ ↦ split_among others window limit
]

unfoldable pub split_point : List ℕ → ℕ → ℕ
split_point text limit = split_among separators (take limit text) limit

unfoldable pub starts_with_plain_fence : List ℕ → Bool
starts_with_plain_fence = starts_with (fence ++ newline ∷ [])

-- Where the loop of endsInsideCodeBlock stands: between fences, within the marks of one, of which so
-- many and one more follow, or in the rest of its line.
pub data Scan : Type 0 where
  outside header : Scan
  marks : ℕ → Scan

unfoldable pub fence_count : Scan → List ℕ → ℕ
fence_count scan [] = 0
fence_count outside (c ∷ cs) = elim (starts_with fence (c ∷ cs)) [
  | true ↦ suc (fence_count (marks 1) cs)
  | false ↦ fence_count outside cs
]
fence_count (marks zero) (c ∷ cs) = fence_count header cs
fence_count (marks (suc n)) (c ∷ cs) = fence_count (marks n) cs
fence_count header (c ∷ cs) = elim (c == newline) [
  | true ↦ fence_count outside cs
  | false ↦ fence_count header cs
]

unfoldable pub ends_inside_code_block : List ℕ → Bool
ends_inside_code_block text = fence_count outside text % 2 == 1

pub data SplitError : Type 0 where
  limit_not_positive limit_too_small : SplitError

-- splitPoint, past the fence that was opened again.
unfoldable pub split_at : List ℕ → ℕ → ℕ → ℕ
split_at remaining limit window =
    let at = split_point remaining window in
    if starts_with_plain_fence remaining && leb at 3 then limit - 4 else at

-- A chunk, and what remains after it.
pub record Cut : Type 0 where
  pub chunk : List ℕ
  pub remaining : List ℕ

abbrev pub cut : ℕ → List ℕ → Cut
cut at text = record { chunk = take at text; remaining = drop at text }

-- A fence closes the chunk, and one opens the remaining text.
abbrev pub closed_cut : ℕ → List ℕ → Cut
closed_cut at text = record {
  chunk = take at text ++ newline ∷ fence;
  remaining = (fence ++ newline ∷ []) ++ drop at text;
}

-- An iteration of the loop of SplitMessage.
unfoldable pub split_once : ℕ → List ℕ → Result SplitError Cut
split_once limit text =
    let at = split_at text limit limit in
    if starts_with_plain_fence text && leb (split_point text limit) 3 && leb limit 4
    then err limit_too_small
    else if not (ends_inside_code_block (take at text))
    then ok (cut at text)
    else if not (ltb limit (length (take at text) + 4))
    then ok (closed_cut at text)
    else if leb limit 4
    then err limit_too_small
    else ok (closed_cut (split_at text limit (limit - 4)) text)

abbrev pub and_chunk :
    List ℕ → Option (Result SplitError (List (List ℕ))) → Option (Result SplitError (List (List ℕ)))
and_chunk chunk (some (ok chunks)) = some (ok (chunk ∷ chunks))
and_chunk chunk other = other

abbrev pub last_chunk : List ℕ → List (List ℕ)
last_chunk [] = []
last_chunk (c ∷ cs) = (c ∷ cs) ∷ []

-- `none` stands for a loop that has used up its fuel.
unfoldable pub split_loop : ℕ → ℕ → List ℕ → Option (Result SplitError (List (List ℕ)))
split_loop zero limit text = if ltb limit (length text) then none else some (ok (last_chunk text))
split_loop (suc fuel) limit text =
    if ltb limit (length text)
    then elim (split_once limit text) [
      | err e ↦ some (err e)
      | ok c ↦ and_chunk c.chunk (split_loop fuel limit c.remaining)
    ]
    else some (ok (last_chunk text))

unfoldable pub split_message : ℕ → List ℕ → ℕ → Option (Result SplitError (List (List ℕ)))
split_message fuel [] limit =
    if leb limit 0 then some (err limit_not_positive) else some (ok ([] ∷ []))
split_message fuel (c ∷ text) limit =
    if leb limit 0
    then some (err limit_not_positive)
    else if leb (length (c ∷ text)) limit
    then some (ok ((c ∷ text) ∷ []))
    else split_loop fuel limit (c ∷ text)
