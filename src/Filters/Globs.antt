-- ===== src/Filters/Globs.antt =====
-- What a pattern with `**` matches, as a relation, and the states of filterPattern.matches
-- (internal/sourcegit/filter.go).
use command_prompter_doc_bot.Prelude.{
  ℕ, zero, suc, ◌<◌, ◌≡◌, refl, sym, subst, inl, inr, Bool, true, false, ◌||◌, some, List, [], ◌∷◌,
  ◌++◌, ◌==◌, length, get_elem?, drop, arith, Bool-cases,
}
use command_prompter_doc_bot.Filters.Matching.{
  is_stars, stars_at, has_state, following, all_following,
}
use command_prompter_doc_bot.Filters.Closing.{Closure}

pub drop-cons :
    (segments : List (List ℕ)) (i : ℕ) (p : List ℕ) (ps : List (List ℕ))
    → drop i segments ≡ p ∷ ps
    → (get_elem? segments i ≡ some p)
      × (drop (suc i) segments ≡ ps)
      × (stars_at segments i ≡ is_stars p)
drop-cons [] zero p ps h = cc
drop-cons [] (suc i) p ps h = cc
drop-cons (s ∷ segments) zero p ps h = (ground (arith, h), ground (arith, h), ground (arith, h))
drop-cons (s ∷ segments) (suc i) p ps h = drop-cons segments i p ps h

pub get_elem?-drop :
    (segments : List (List ℕ)) (i : ℕ) (p : List ℕ)
    → get_elem? segments i ≡ some p
    → (drop i segments ≡ p ∷ drop (suc i) segments) × (i < length segments)
get_elem?-drop [] i p h = cc
get_elem?-drop (s ∷ segments) zero p h = (ground (arith, h), omega arith)
get_elem?-drop (s ∷ segments) (suc i) p h =
    let (e, lt) = get_elem?-drop segments i p h in (e, omega (arith, lt))

stars_at-drop :
    (segments : List (List ℕ)) (i : ℕ)
    → stars_at segments i ≡ true
    → (p : List ℕ) × (is_stars p ≡ true) × (drop i segments ≡ p ∷ drop (suc i) segments)
stars_at-drop [] i h = cc
stars_at-drop (s ∷ segments) zero h = (s, h, refl)
stars_at-drop (s ∷ segments) (suc i) h = stars_at-drop segments i h

pub has_state-append :
    (i : ℕ) (xs ys : List ℕ) → has_state i (xs ++ ys) ≡ (has_state i xs || has_state i ys)
has_state-append i [] ys = refl
has_state-append i (x ∷ xs) ys = ground (arith, has_state-append i xs ys)

module _ (path_match : List ℕ → List ℕ → Bool) where
  -- `**` stands for any number of segments, and another segment for one that path.Match accepts.
  pub data Glob : List (List ℕ) → List (List ℕ) → Type 0 where
    finish : Glob [] []
    skip :
        (p : List ℕ) (ps values : List (List ℕ))
        → is_stars p ≡ true
        → Glob ps values
        → Glob (p ∷ ps) values
    more :
        (p v : List ℕ) (ps values : List (List ℕ))
        → is_stars p ≡ true
        → Glob (p ∷ ps) values
        → Glob (p ∷ ps) (v ∷ values)
    one :
        (p v : List ℕ) (ps values : List (List ℕ))
        → is_stars p ≡ false
        → path_match p v ≡ true
        → Glob ps values
        → Glob (p ∷ ps) (v ∷ values)

  -- One of the states accepts the rest of the path.
  abbrev pub Accepts : List (List ℕ) → List ℕ → List (List ℕ) → Type 0
  Accepts segments states values =
      (i : ℕ) × (has_state i states ≡ true) × Glob (drop i segments) values

  -- A state of the closure accepts what a state before it does.
  pub Closure-Accepts :
      (segments : List (List ℕ)) (start out : List ℕ) (values : List (List ℕ))
      → Closure segments start out
      → (Accepts segments start values → Accepts segments out values)
        × (Accepts segments out values → Accepts segments start values)
  Closure-Accepts segments start out values c = (
    (λ a. (a.0, c.grows a.0 a.1, a.2)),
    λ a.
        c.sound (λ i. Glob (drop i segments) values)
          (λ i stars g.
            let (p, is, e) = stars_at-drop segments i stars in
            subst (λ qs. Glob qs values) (sym e) (skip p (drop (suc i) segments) values is g))
          a.0 a.1 a.2,
  )

  pub has_state-all_following :
      (segments : List (List ℕ)) (v : List ℕ) (states : List ℕ) (i j : ℕ)
      → has_state i states ≡ true
      → has_state j (following path_match segments v i) ≡ true
      → has_state j (all_following path_match segments v states) ≡ true
  unfolding all_following
  has_state-all_following segments v [] i j h k = cc
  has_state-all_following segments v (s ∷ states) i j h k = elim (Bool-cases (s == i)) [
    | inl same ↦
        let e : s ≡ i = ground (arith, same) in
        let first = subst (λ x. has_state j (following path_match segments v x) ≡ true) (sym e) k in
        ground (
          arith,
          first,
          has_state-append j (following path_match segments v s)
              (all_following path_match segments v states),
        )
    | inr other ↦
        let rest = has_state-all_following segments v states i j (ground (arith, h, other)) k in
        ground (
          arith,
          rest,
          has_state-append j (following path_match segments v s)
              (all_following path_match segments v states),
        )
  ]

  pub all_following-has_state :
      (segments : List (List ℕ)) (v : List ℕ) (states : List ℕ) (j : ℕ)
      → has_state j (all_following path_match segments v states) ≡ true
      → (i : ℕ) × (has_state i states ≡ true)
        × (has_state j (following path_match segments v i) ≡ true)
  unfolding all_following
  all_following-has_state segments v [] j h = cc
  all_following-has_state segments v (s ∷ states) j h =
      elim (Bool-cases (has_state j (following path_match segments v s))) [
        | inl first ↦ (s, ground arith, first)
        | inr later ↦
            let (i, there, k) = all_following-has_state segments v states j (
              ground (
                arith,
                h,
                later,
                has_state-append j (following path_match segments v s)
                    (all_following path_match segments v states),
              )) in
            (i, ground (arith, there), k)
      ]
