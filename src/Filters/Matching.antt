-- ===== src/Filters/Matching.antt =====
-- filterPattern.matches (internal/sourcegit/filter.go). A path and a segment are lists of runes, and a
-- set of states is the list of its members. `path_match` says whether path.Match finds a segment of
-- the path without an error.
use command_prompter_doc_bot.Prelude.{
  ℕ, zero, suc, ◌+◌, Bool, true, false, not, ◌&&◌, Option, none, some, List, [], ◌∷◌, ◌++◌, ◌==◌,
  if◌then◌else◌, length, any, get_elem?,
}

abbrev pub slash : ℕ
slash = 47

abbrev pub to_first : ℕ → List (List ℕ) → List (List ℕ)
to_first c [] = (c ∷ []) ∷ []
to_first c (segment ∷ segments) = (c ∷ segment) ∷ segments

-- strings.Split at a slash.
unfoldable pub split_path : List ℕ → List (List ℕ)
split_path [] = [] ∷ []
split_path (c ∷ cs) =
    let segments = split_path cs in if c == slash then [] ∷ segments else to_first c segments

abbrev pub is_stars : List ℕ → Bool
is_stars (a ∷ b ∷ []) = (a == 42) && (b == 42)
is_stars _ = false

-- The segment at an index is `**`.
abbrev pub stars_at : List (List ℕ) → ℕ → Bool
stars_at [] i = false
stars_at (p ∷ ps) zero = is_stars p
stars_at (p ∷ ps) (suc i) = stars_at ps i

abbrev pub has_state : ℕ → List ℕ → Bool
has_state i states = any (λ j. j == i) states

-- The loop of the closure, whose fuel bounds its iterations.
unfoldable pub close_states : ℕ → List (List ℕ) → List ℕ → List ℕ → Option (List ℕ)
close_states fuel segments [] result = some result
close_states zero segments (index ∷ pending) result = none
close_states (suc n) segments (index ∷ pending) result =
    elim (stars_at segments index && not (has_state (suc index) result)) [
      | true ↦ close_states n segments (suc index ∷ pending) (suc index ∷ result)
      | false ↦ close_states n segments pending result
    ]

unfoldable pub closure : List (List ℕ) → List ℕ → Option (List ℕ)
closure segments states =
    close_states (length states + suc (length segments)) segments states states

module _ (path_match : List ℕ → List ℕ → Bool) where
  -- The states that one state leads to at a segment of the path.
  unfoldable pub following : List (List ℕ) → List ℕ → ℕ → List ℕ
  following segments value index = elim (get_elem? segments index) [
    | none ↦ []
    | some segment ↦
        if is_stars segment
        then index ∷ []
        else if path_match segment value
        then suc index ∷ []
        else []
  ]

  unfoldable pub all_following : List (List ℕ) → List ℕ → List ℕ → List ℕ
  all_following segments value [] = []
  all_following segments value (index ∷ states) =
      following segments value index ++ all_following segments value states

  -- The loop over the segments of the path.
  unfoldable pub match_values : List (List ℕ) → List (List ℕ) → List ℕ → Option Bool
  match_values segments [] states = some (has_state (length segments) states)
  match_values segments (value ∷ values) states =
      elim (closure segments (all_following segments value states)) [
        | none ↦ none
        | some [] ↦ some false
        | some (s ∷ rest) ↦ match_values segments values (s ∷ rest)
      ]

  unfoldable pub matches : List (List ℕ) → List ℕ → Option Bool
  matches segments raw_path = elim (closure segments (0 ∷ [])) [
    | none ↦ none
    | some states ↦ match_values segments (split_path raw_path) states
  ]
