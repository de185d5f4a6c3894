-- ===== src/Filters/Verdicts.antt =====
-- filterPattern.matches decides the relation of globs (internal/sourcegit/filter.go).
use command_prompter_doc_bot.Prelude.{
  ℕ, zero, suc, ◌≤◌, ◌<◌, ◌≡◌, refl, sym, ap, subst, ◌∙◌, ◌⊎◌, inl, inr, ◌↔◌, Bool, true, false,
  some, List, [], ◌∷◌, length, get_elem?, drop, arith, leb, leb→le, Bool-cases, Option-cases,
}
use command_prompter_doc_bot.Filters.Matching.{
  is_stars, stars_at, has_state, following, all_following, closure, match_values, matches,
  split_path,
}
use command_prompter_doc_bot.Filters.Closing.{Closure, closure-Closure, stars_at_lt}
use command_prompter_doc_bot.Filters.Globs.{
  Glob, finish, skip, more, one, Accepts, Closure-Accepts, drop-cons, get_elem?-drop,
  has_state-all_following, all_following-has_state,
}

abbrev Within : List (List ℕ) → List ℕ → Type 0
Within segments states = (i : ℕ) → has_state i states ≡ true → i ≤ length segments

Closure-Within :
    (segments : List (List ℕ)) (start out : List ℕ)
    → Closure segments start out
    → Within segments start
    → Within segments out
Closure-Within segments start out c w i h = elim (Bool-cases (leb i (length segments))) [
  | inl within ↦ leb→le i (length segments) within
  | inr beyond ↦
      let (j, old, far) =
        c.sound (λ x. length segments < x)
          (λ x stars far. absurd (omega (arith, far, stars_at_lt segments x stars))) i h
          (ground (arith, beyond)) in
      absurd (omega (arith, w j old, far))
]

drop-length : {A : Type 0} (xs : List A) → drop (length xs) xs ≡ []
drop-length [] = refl
drop-length (x ∷ xs) = drop-length xs

drop-nil : {A : Type 0} (xs : List A) (i : ℕ) → i ≤ length xs → drop i xs ≡ [] → i ≡ length xs
drop-nil [] zero le h = refl
drop-nil [] (suc i) le h = absurd (omega (arith, le))
drop-nil (x ∷ xs) zero le h = cc
drop-nil (x ∷ xs) (suc i) le h = ap suc (drop-nil xs i (omega (arith, le)) h)

module _ (path_match : List ℕ → List ℕ → Bool) where
  following-Within :
      (segments : List (List ℕ)) (v : List ℕ) (i j : ℕ)
      → has_state j (following path_match segments v i) ≡ true
      → (p : List ℕ) × (get_elem? segments i ≡ some p)
        × (((is_stars p ≡ true) × (j ≡ i))
            ⊎ ((is_stars p ≡ false) × (path_match p v ≡ true) × (j ≡ suc i)))
  unfolding following
  following-Within segments v i j h = elim (Option-cases (get_elem? segments i)) [
    | inl nothing ↦ absurd (ground (arith, h, nothing))
    | inr (p, e) ↦ elim (Bool-cases (is_stars p)) [
      | inl stars ↦ (p, e, inl (stars, ground (arith, h, e, stars)))
      | inr plain ↦ elim (Bool-cases (path_match p v)) [
        | inl matched ↦ (p, e, inr (plain, matched, ground (arith, h, e, plain, matched)))
        | inr other ↦ absurd (ground (arith, h, e, plain, other))
      ]
    ]
  ]

  -- A step to the next segment of the path, from a closed set.
  step_forth :
      (segments : List (List ℕ)) (states : List ℕ) (v : List ℕ) (qs values : List (List ℕ)) (i : ℕ)
      → ((i : ℕ)
          → has_state i states ≡ true
          → stars_at segments i ≡ true
          → has_state (suc i) states ≡ true)
      → has_state i states ≡ true
      → drop i segments ≡ qs
      → Glob path_match qs (v ∷ values)
      → Accepts path_match segments (all_following path_match segments v states) values
  unfolding following
  step_forth segments states v _ values i closed h e (skip p ps _ stars g) =
      let (_, rest, same) = drop-cons segments i p ps e in
      step_forth segments states v ps values (suc i) closed (closed i h (same ∙ stars)) rest g
  step_forth segments states v _ _ i closed h e (more p _ ps values stars g) =
      let (at, rest, _) = drop-cons segments i p ps e in
      (
        i,
        has_state-all_following path_match segments v states i i h (ground (arith, at, stars)),
        subst (λ qs. Glob path_match qs values) (sym e) g,
      )
  step_forth segments states v _ _ i closed h e (one p _ ps values plain matched g) =
      let (at, rest, _) = drop-cons segments i p ps e in
      (
        suc i,
        has_state-all_following path_match segments v states i (suc i) h
            (ground (arith, at, plain, matched)),
        subst (λ qs. Glob path_match qs values) (sym rest) g,
      )

  step_back :
      (segments : List (List ℕ)) (states : List ℕ) (v : List ℕ) (values : List (List ℕ))
      → Accepts path_match segments (all_following path_match segments v states) values
      → Accepts path_match segments states (v ∷ values)
  step_back segments states v values (j, h, g) =
      let (i, there, k) = all_following-has_state path_match segments v states j h in
      let (p, at, how) = following-Within segments v i j k in
      let (e, _) = get_elem?-drop segments i p at in
      elim how [
        | inl (stars, same) ↦ (
          i,
          there,
          subst (λ qs. Glob path_match qs (v ∷ values)) (sym e)
              (more p v (drop (suc i) segments) values stars
                (subst (λ qs. Glob path_match qs values) (ap (λ x. drop x segments) same ∙ e) g)),
        )
        | inr (plain, matched, same) ↦ (
          i,
          there,
          subst (λ qs. Glob path_match qs (v ∷ values)) (sym e)
              (one p v (drop (suc i) segments) values plain matched
                (subst (λ x. Glob path_match (drop x segments) values) same g)),
        )
      ]

  all_following-Within :
      (segments : List (List ℕ)) (v : List ℕ) (states : List ℕ)
      → Within segments (all_following path_match segments v states)
  all_following-Within segments v states j h =
      let (i, there, k) = all_following-has_state path_match segments v states j h in
      let (p, at, how) = following-Within segments v i j k in
      let (_, lt) = get_elem?-drop segments i p at in
      elim how [
        | inl (stars, same) ↦ omega (arith, same, lt)
        | inr (plain, matched, same) ↦ omega (arith, same, lt)
      ]

  -- At the end of the path, a closed set accepts when it has the last state.
  ended :
      (segments : List (List ℕ)) (states : List ℕ) (qs : List (List ℕ)) (i : ℕ)
      → ((i : ℕ)
          → has_state i states ≡ true
          → stars_at segments i ≡ true
          → has_state (suc i) states ≡ true)
      → Within segments states
      → has_state i states ≡ true
      → drop i segments ≡ qs
      → Glob path_match qs []
      → has_state (length segments) states ≡ true
  ended segments states _ i closed w h e finish =
      subst (λ n. has_state n states ≡ true) (drop-nil segments i (w i h) e) h
  ended segments states _ i closed w h e (skip p ps _ stars g) =
      let (_, rest, same) = drop-cons segments i p ps e in
      ended segments states ps (suc i) closed w (closed i h (same ∙ stars)) rest g

  match_values_iff :
      (segments values : List (List ℕ)) (states : List ℕ)
      → ((i : ℕ)
          → has_state i states ≡ true
          → stars_at segments i ≡ true
          → has_state (suc i) states ≡ true)
      → Within segments states
      → (b : Bool) × (match_values path_match segments values states ≡ some b)
        × ((b ≡ true) ↔ Accepts path_match segments states values)
  unfolding match_values
  match_values_iff segments [] states closed w = (
    has_state (length segments) states,
    refl,
    (
      (λ h. (
        length segments,
        h,
        subst (λ qs. Glob path_match qs []) (sym (drop-length segments)) finish,
      )),
      λ a. ended segments states (drop a.0 segments) a.0 closed w a.1 refl a.2,
    ),
  )
  match_values_iff segments (v ∷ values) states closed w =
      let (out, e, c) = closure-Closure segments (all_following path_match segments v states) in
      let (forth, back) =
        Closure-Accepts path_match segments (all_following path_match segments v states) out values
          c in
      let w' = Closure-Within segments _ out c (all_following-Within segments v states) in
      let (b, m, iff) = match_values_iff segments values out c.closed w' in
      let through : Accepts path_match segments states (v ∷ values)
          → Accepts path_match segments out values =
        λ a. forth (step_forth segments states v _ values a.0 closed a.1 refl a.2) in
      let next : (b ≡ true) ↔ Accepts path_match segments states (v ∷ values) =
        ((λ h. step_back segments states v values (back (iff.0 h))), λ a. iff.1 (through a)) in
      go out e through b m next
    where
      go :
          (out : List ℕ)
          → closure segments (all_following path_match segments v states) ≡ some out
          → (Accepts path_match segments states (v ∷ values)
              → Accepts path_match segments out values)
          → (b : Bool) → match_values path_match segments values out ≡ some b
          → (b ≡ true) ↔ Accepts path_match segments states (v ∷ values)
          → (b : Bool) × (match_values path_match segments (v ∷ values) states ≡ some b)
            × ((b ≡ true) ↔ Accepts path_match segments states (v ∷ values))
      go (s ∷ rest) e through b m next = (b, rw (e, match_values) m, next)
      go [] e through b m next = (
        false,
        rw (e, match_values) refl,
        ((λ h. cc), λ a. let (i, never, _) = through a in absurd (ground (arith, never))),
      )

  -- filterPattern.matches always answers, and it answers true exactly for a path whose segments the
  -- segments of the pattern match.
  pub matches_iff :
      (segments : List (List ℕ)) (raw_path : List ℕ)
      → (b : Bool) × (matches path_match segments raw_path ≡ some b)
        × ((b ≡ true) ↔ Glob path_match segments (split_path raw_path))
  unfolding matches
  matches_iff segments raw_path =
      let (out, e, c) = closure-Closure segments (0 ∷ []) in
      let (forth, back) =
        Closure-Accepts path_match segments (0 ∷ []) out (split_path raw_path) c in
      let w : Within segments (0 ∷ []) = λ i h. ground arith in
      let (b, m, iff) =
        match_values_iff segments (split_path raw_path) out c.closed
          (Closure-Within segments (0 ∷ []) out c w) in
      (
        b,
        rw (e, matches) m,
        ((λ h. start_at_zero (back (iff.0 h))), λ g. iff.1 (forth (0, refl, g))),
      )
    where
      start_at_zero :
          Accepts path_match segments (0 ∷ []) (split_path raw_path)
          → Glob path_match segments (split_path raw_path)
      start_at_zero (zero, h, g) = g
      start_at_zero (suc i, h, g) = absurd (ground (arith, h))
