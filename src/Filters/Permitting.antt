-- ===== src/Filters/Permitting.antt =====
-- Whether a pathFilter permits a path: the decision of partition (internal/sourcegit/filter.go).
use command_prompter_doc_bot.Prelude.{
  ℕ, ◌≡◌, refl, ◌⊎◌, inl, inr, ◌↔◌, Bool, true, false, not, Option, none, some, List, [], ◌∷◌, All,
  arith, Bool-cases,
}
use command_prompter_doc_bot.Filters.Matching.{matches, split_path}
use command_prompter_doc_bot.Filters.Globs.{Glob}
use command_prompter_doc_bot.Filters.Verdicts.{matches_iff}

pub record FilterPattern : Type 0 where
  pub segments : List (List ℕ)
  pub ignored : Bool

pub record PathFilter : Type 0 where
  pub include : List FilterPattern
  pub exclude : List FilterPattern
  pub ignore : List FilterPattern

module _ (path_match : List ℕ → List ℕ → Bool) (path : List ℕ) where
  -- A loop that stops at the first pattern that matches.
  unfoldable pub any_matches : List FilterPattern → Option Bool
  any_matches [] = some false
  any_matches (p ∷ ps) = elim (matches path_match p.segments path) [
    | none ↦ none
    | some true ↦ some true
    | some false ↦ any_matches ps
  ]

  -- The loop over the patterns of the ignore file, of which the last one that matches decides.
  unfoldable pub last_matching : Bool → List FilterPattern → Option Bool
  last_matching permitted [] = some permitted
  last_matching permitted (p ∷ ps) = elim (matches path_match p.segments path) [
    | none ↦ none
    | some true ↦ last_matching (not p.ignored) ps
    | some false ↦ last_matching permitted ps
  ]

  unfoldable pub included : List FilterPattern → Option Bool
  included [] = some true
  included (p ∷ ps) = any_matches (p ∷ ps)

  unfoldable pub is_permitted : PathFilter → Option Bool
  is_permitted filter = elim (included filter.include) [
    | none ↦ none
    | some false ↦ some false
    | some true ↦ elim (any_matches filter.exclude) [
      | none ↦ none
      | some true ↦ some false
      | some false ↦ last_matching true filter.ignore
    ]
  ]

  abbrev pub Matches : FilterPattern → Type 0
  Matches p = Glob path_match p.segments (split_path path)

  abbrev pub AnyMatches : List FilterPattern → Type 0
  AnyMatches [] = ⊥
  AnyMatches (p ∷ ps) = Matches p ⊎ AnyMatches ps

  abbrev pub NoneMatches : List FilterPattern → Type 0
  NoneMatches = All (λ p. ¬ Matches p)

  -- The last pattern that matches is a negated one.
  abbrev pub Negated : List FilterPattern → Type 0
  Negated [] = ⊥
  Negated (p ∷ ps) = (Matches p × (p.ignored ≡ false) × NoneMatches ps) ⊎ Negated ps

  abbrev pub Included : List FilterPattern → Type 0
  Included [] = Unit
  Included (p ∷ ps) = AnyMatches (p ∷ ps)

  abbrev pub Permitted : PathFilter → Type 0
  Permitted filter =
      Included filter.include
      × (¬ AnyMatches filter.exclude)
      × (NoneMatches filter.ignore ⊎ Negated filter.ignore)

  any_matches_iff :
      (ps : List FilterPattern)
      → (b : Bool) × (any_matches ps ≡ some b) × ((b ≡ true) ↔ AnyMatches ps)
  unfolding any_matches
  any_matches_iff [] = (false, refl, ((λ h. cc), λ a. absurd a))
  any_matches_iff (p ∷ ps) =
      let (b, e, iff) = matches_iff path_match p.segments path in
      let (c, m, rest) = any_matches_iff ps in
      elim (Bool-cases b) [
        | inl hit ↦ (true, rw (e, hit, any_matches) refl, ((λ h. inl (iff.0 hit)), λ a. refl))
        | inr miss ↦ (
          c,
          rw (e, miss, any_matches) m,
          (
            (λ h. inr (rest.0 h)),
            λ a. elim a [
              | inl first ↦ absurd (ground (arith, iff.1 first, miss))
              | inr later ↦ rest.1 later
            ],
          ),
        )
      ]

  last_matching_iff :
      (start : Bool) (ps : List FilterPattern)
      → (b : Bool) × (last_matching start ps ≡ some b)
        × ((b ≡ true) ↔ (((start ≡ true) × NoneMatches ps) ⊎ Negated ps))
  unfolding last_matching
  last_matching_iff start [] = (
    start,
    refl,
    ((λ h. inl (h, tt)), λ a. elim a [ inl kept ↦ kept.0 | inr never ↦ absurd never ]),
  )
  last_matching_iff start (p ∷ ps) =
      let (b, e, iff) = matches_iff path_match p.segments path in
      let (c, m, now) = last_matching_iff (not p.ignored) ps in
      let (d, n, same) = last_matching_iff start ps in
      elim (Bool-cases b) [
        | inl hit ↦ (
          c,
          rw (e, hit, last_matching) m,
          (
            (λ h. elim (now.0 h) [
              | inl kept ↦ inr (inl (iff.0 hit, ground (arith, kept.0), kept.1))
              | inr later ↦ inr (inr later)
            ]),
            λ a. elim a [
              | inl kept ↦ absurd (kept.1.0 (iff.0 hit))
              | inr negated ↦ elim negated [
                | inl here ↦ now.1 (inl (ground (arith, here.1), here.2))
                | inr later ↦ now.1 (inr later)
              ]
            ],
          ),
        )
        | inr miss ↦
            let never : ¬ Matches p = λ g. ground (arith, iff.1 g, miss) in
            (
              d,
              rw (e, miss, last_matching) n,
              (
                (λ h. elim (same.0 h) [
                  | inl kept ↦ inl (kept.0, (never, kept.1))
                  | inr later ↦ inr (inr later)
                ]),
                λ a. elim a [
                  | inl kept ↦ same.1 (inl (kept.0, kept.1.1))
                  | inr negated ↦ elim negated [
                    | inl here ↦ absurd (never here.0)
                    | inr later ↦ same.1 (inr later)
                  ]
                ],
              ),
            )
      ]

  included_iff :
      (ps : List FilterPattern) → (b : Bool) × (included ps ≡ some b) × ((b ≡ true) ↔ Included ps)
  unfolding included
  included_iff [] = (true, refl, ((λ h. tt), λ h. refl))
  included_iff (p ∷ ps) = any_matches_iff (p ∷ ps)

  -- The decision of partition always comes about. A path is permitted exactly if an include pattern
  -- matches it or there is none, no exclude pattern matches it, and among the patterns of the ignore
  -- file none matches it or the last one that does is negated.
  pub is_permitted_iff :
      (filter : PathFilter)
      → (b : Bool) × (is_permitted filter ≡ some b) × ((b ≡ true) ↔ Permitted filter)
  unfolding is_permitted
  is_permitted_iff filter =
      let (i, e, inside) = included_iff filter.include in
      let (x, f, outside) = any_matches_iff filter.exclude in
      let (g, l, last) = last_matching_iff true filter.ignore in
      elim (Bool-cases i) [
        | inr out ↦ (
          false,
          rw (e, out, is_permitted) refl,
          ((λ h. cc), λ a. absurd (ground (arith, inside.1 a.0, out))),
        )
        | inl in_reach ↦ elim (Bool-cases x) [
          | inl shut ↦ (
            false,
            rw (e, in_reach, f, shut, is_permitted) refl,
            ((λ h. cc), λ a. absurd (a.1 (outside.0 shut))),
          )
          | inr open_to ↦ (
            g,
            rw (e, in_reach, f, open_to, is_permitted) l,
            (
              (λ h. (
                inside.0 in_reach,
                (λ a. ground (arith, outside.1 a, open_to)),
                strip (last.0 h),
              )),
              λ a. elim a.2 [
                | inl kept ↦ last.1 (inl (refl, kept))
                | inr negated ↦ last.1 (inr negated)
              ],
            ),
          )
        ]
      ]
    where
      strip :
          ((true ≡ true) × NoneMatches filter.ignore) ⊎ Negated filter.ignore
          → NoneMatches filter.ignore ⊎ Negated filter.ignore
      strip (inl kept) = inl kept.1
      strip (inr negated) = inr negated
