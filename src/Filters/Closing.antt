-- ===== src/Filters/Closing.antt =====
-- The closure of a set of states over the segments `**` (internal/sourcegit/filter.go).
use command_prompter_doc_bot.Prelude.{
  ℕ, zero, suc, ◌+◌, ◌≤◌, ◌<◌, ◌≡◌, refl, sym, subst, ◌⊎◌, inl, inr, true, false, not, ◌&&◌, some,
  List, [], ◌∷◌, ◌==◌, if◌then◌else◌, length, arith, Bool-cases,
}
use command_prompter_doc_bot.Filters.Matching.{stars_at, has_state, close_states, closure}

-- How many of the indices below `n` are not states.
absent : ℕ → List ℕ → ℕ
absent zero states = 0
absent (suc n) states = (if has_state n states then 0 else 1) + absent n states

absent_le : (n : ℕ) (states : List ℕ) → absent n states ≤ n
unfolding absent
absent_le zero states = omega arith
absent_le (suc n) states = ground (arith, absent_le n states)

absent-cons_le : (n x : ℕ) (states : List ℕ) → absent n (x ∷ states) ≤ absent n states
unfolding absent
absent-cons_le zero x states = omega arith
absent-cons_le (suc n) x states = ground (arith, absent-cons_le n x states)

absent-cons_lt :
    (n x : ℕ) (states : List ℕ)
    → x < n
    → has_state x states ≡ false
    → absent n (x ∷ states) < absent n states
unfolding absent
absent-cons_lt zero x states lt h = absurd (omega (arith, lt))
absent-cons_lt (suc n) x states lt h = elim (Bool-cases (x == n)) [
  | inl same ↦
      let e : x ≡ n = ground (arith, same) in
      let new : has_state n states ≡ false = subst (λ y. has_state y states ≡ false) e h in
      rw (same, new) (omega (arith, absent-cons_le n x states))
  | inr other ↦
      let ih = absent-cons_lt n x states (ground (arith, other, lt)) h in
      rw other (omega (arith, ih))
]

pub stars_at_lt :
    (segments : List (List ℕ)) (i : ℕ) → stars_at segments i ≡ true → i < length segments
stars_at_lt [] i h = cc
stars_at_lt (p ∷ ps) zero h = omega arith
stars_at_lt (p ∷ ps) (suc i) h = omega (arith, stars_at_lt ps i h)

-- The smallest set with `start` that has the index after each `**` in it.
pub record Closure (segments : List (List ℕ)) (start out : List ℕ) : Type 1 where
  pub grows : (i : ℕ) → has_state i start ≡ true → has_state i out ≡ true
  pub closed :
      (i : ℕ) → has_state i out ≡ true → stars_at segments i ≡ true → has_state (suc i) out ≡ true
  pub sound :
      (Q : ℕ → Type 0)
      → ((i : ℕ) → stars_at segments i ≡ true → Q (suc i) → Q i)
      → (i : ℕ) → has_state i out ≡ true
      → Q i
      → (j : ℕ) × (has_state j start ≡ true) × Q j

add_state :
    (i x : ℕ) (states : List ℕ)
    → has_state i (x ∷ states) ≡ true
    → (x ≡ i) ⊎ (has_state i states ≡ true)
add_state i x states h = elim (Bool-cases (x == i)) [
  | inl same ↦ inl (ground (arith, same))
  | inr other ↦ inr (ground (arith, h, other))
]

head_state : (i : ℕ) (states : List ℕ) → has_state i (i ∷ states) ≡ true
head_state i states = ground arith

old_state :
    (i x : ℕ) (states : List ℕ) → has_state i states ≡ true → has_state i (x ∷ states) ≡ true
old_state i x states h = ground (arith, h)

-- What is left to do for a state, when one pending state has been dealt with.
todo_rest :
    (segments : List (List ℕ)) (x i : ℕ) (pending result : List ℕ)
    → (stars_at segments x ≡ true → has_state (suc x) result ≡ true)
    → (has_state (suc i) result ≡ true) ⊎ (has_state i (x ∷ pending) ≡ true)
    → stars_at segments i ≡ true
    → (has_state (suc i) result ≡ true) ⊎ (has_state i pending ≡ true)
todo_rest segments x i pending result dealt t s = elim t [
  | inl there ↦ inl there
  | inr waits ↦ elim (add_state i x pending waits) [
    | inr still ↦ inr still
    | inl same ↦ inl (
        subst (λ y. has_state (suc y) result ≡ true) same
          (dealt (subst (λ y. stars_at segments y ≡ true) (sym same) s)))
  ]
]

todo_added :
    (segments : List (List ℕ)) (x i : ℕ) (pending result : List ℕ)
    → ((i : ℕ)
        → has_state i result ≡ true
        → stars_at segments i ≡ true
        → (has_state (suc i) result ≡ true) ⊎ (has_state i (x ∷ pending) ≡ true))
    → has_state i (suc x ∷ result) ≡ true
    → stars_at segments i ≡ true
    → (has_state (suc i) (suc x ∷ result) ≡ true) ⊎ (has_state i (suc x ∷ pending) ≡ true)
todo_added segments x i pending result todo h s = elim (add_state i (suc x) result h) [
  | inl same ↦
      inr (subst (λ y. has_state y (suc x ∷ pending) ≡ true) same (head_state (suc x) pending))
  | inr old ↦ elim (todo i old s) [
    | inl there ↦ inl (old_state (suc i) (suc x) result there)
    | inr waits ↦ elim (add_state i x pending waits) [
      | inl now ↦
          inl
            (subst (λ y. has_state (suc y) (suc x ∷ result) ≡ true) now (head_state (suc x) result))
      | inr still ↦ inr (old_state i (suc x) pending still)
    ]
  ]
]

close_states-Closure :
    (fuel : ℕ) (segments : List (List ℕ)) (pending result : List ℕ)
    → length pending + absent (suc (length segments)) result ≤ fuel
    → ((i : ℕ) → has_state i pending ≡ true → has_state i result ≡ true)
    → ((i : ℕ)
        → has_state i result ≡ true
        → stars_at segments i ≡ true
        → (has_state (suc i) result ≡ true) ⊎ (has_state i pending ≡ true))
    → (out : List ℕ) × (close_states fuel segments pending result ≡ some out)
      × Closure segments result out
unfolding close_states
close_states-Closure fuel segments [] result le known todo = (
  result,
  refl,
  record {
    grows = λ i h. h;
    closed = λ i h s. elim (todo i h s) [ inl there ↦ there | inr never ↦ cc ];
    sound = λ Q back i h q. (i, h, q);
  },
)
close_states-Closure zero segments (x ∷ pending) result le known todo = absurd (omega (arith, le))
close_states-Closure (suc n) segments (x ∷ pending) result le known todo =
    let x_known : has_state x result ≡ true = known x (ground arith) in
    elim (Bool-cases (stars_at segments x && not (has_state (suc x) result))) [
      | inl adds ↦
          let stars : stars_at segments x ≡ true = ground (arith, adds) in
          let fresh : has_state (suc x) result ≡ false = ground (arith, adds) in
          let below : suc x < suc (length segments) = omega (arith, stars_at_lt segments x stars) in
          let fewer = absent-cons_lt (suc (length segments)) (suc x) result below fresh in
          let (out, e, c) =
            close_states-Closure n segments (suc x ∷ pending) (suc x ∷ result)
              (omega (arith, le, fewer))
              (λ i h. elim (add_state i (suc x) pending h) [
                | inl same ↦ ground (arith, same)
                | inr there ↦ ground (arith, known i (ground (arith, there)))
              ])
              (λ i h s. todo_added segments x i pending result todo h s) in
          (
            out,
            rw (adds, close_states) e,
            record {
              grows = λ i h. c.grows i (ground (arith, h));
              closed = c.closed;
              sound = λ Q back i h q.
                  let (j, there, qj) = c.sound Q back i h q in
                  elim (add_state j (suc x) result there) [
                    | inl same ↦ (x, x_known, back x stars (subst Q (sym same) qj))
                    | inr old ↦ (j, old, qj)
                  ];
            },
          )
      | inr done ↦
          let (out, e, c) =
            close_states-Closure n segments pending result (omega (arith, le))
              (λ i h. known i (ground (arith, h)))
              (λ i h s.
                todo_rest segments x i pending result (λ stars. ground (arith, done, stars))
                  (todo i h s) s) in
          (out, rw (done, close_states) e, c)
    ]

-- The closure always comes to an end.
pub closure-Closure :
    (segments : List (List ℕ)) (states : List ℕ)
    → (out : List ℕ) × (closure segments states ≡ some out) × Closure segments states out
unfolding closure
closure-Closure segments states =
    close_states-Closure (length states + suc (length segments)) segments states states
      (omega (arith, absent_le (suc (length segments)) states)) (λ i h. h) (λ i h s. inr h)
