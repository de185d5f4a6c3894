-- ===== src/Budget/Longest.antt =====
-- What TruncateResult returns (internal/modelbudget/budget.go).
use command_prompter_doc_bot.Prelude.{
  ℕ, ◌-◌, ◌≤◌, ◌<◌, ◌≡◌, refl, ap, ◌∙◌, ◌⊎◌, inl, inr, Bool, true, false, some, List, length,
  get_elem?, arith, Bool-cases, ok, err, ltb,
}
use command_prompter_doc_bot.Budget.Search.{search, Found, search-Found}
use command_prompter_doc_bot.Budget.Truncation.{
  Envelope, envelope, cannot_fit, boundaries, fits_at, truncate_result,
}
use command_prompter_doc_bot.Budget.Boundaries.{
  boundaries-Rising, get_elem?-Rising, get_elem?-mono, get_elem?_total, get_elem?_lt,
}

high : List ℕ → ℕ
high encoded = length (boundaries encoded) - 1

below_high : (encoded : List ℕ) (i : ℕ) → i ≤ high encoded → i < length (boundaries encoded)
unfolding high boundaries
below_high encoded i h = omega (arith, h)

fits_at_total :
    (encoded : List ℕ) (fits : Envelope → Bool) (i : ℕ)
    → i ≤ high encoded
    → (fits_at encoded fits i ≡ some true) ⊎ (fits_at encoded fits i ≡ some false)
unfolding boundaries
fits_at_total encoded fits i h =
    let (b, e) = get_elem?_total (boundaries encoded) i (below_high encoded i h) in
    elim (Bool-cases (fits (envelope encoded b))) [
      | inl fit ↦ inl (rw (e, fit) refl)
      | inr over ↦ inr (rw (e, over) refl)
    ]

fits_at_zero :
    (encoded : List ℕ) (fits : Envelope → Bool)
    → fits (envelope encoded 0) ≡ true
    → fits_at encoded fits 0 ≡ some true
unfolding boundaries
fits_at_zero encoded fits h = rw h refl

-- The search, with what it found.
found :
    (encoded : List ℕ) (fits : Envelope → Bool)
    → fits (envelope encoded 0) ≡ true
    → (k : ℕ) × (search (high encoded) (fits_at encoded fits) 0 (high encoded) ≡ some k)
      × Found (fits_at encoded fits) 0 (high encoded) k
found encoded fits h =
    search-Found (high encoded) (fits_at encoded fits) 0 (high encoded) (omega arith) (omega arith)
      (fits_at_total encoded fits) (fits_at_zero encoded fits h)

-- The answer at the index that the search found.
answer :
    (encoded : List ℕ) (fits : Envelope → Bool) (k b : ℕ)
    → fits (envelope encoded 0) ≡ true
    → search (high encoded) (fits_at encoded fits) 0 (high encoded) ≡ some k
    → get_elem? (boundaries encoded) k ≡ some b
    → truncate_result encoded fits ≡ some (ok (envelope encoded b))
unfolding truncate_result high
answer encoded fits k b h s e = rw (h, s, e) refl

-- TruncateResult always returns. It refuses exactly a test that an empty prefix does not pass, and
-- otherwise answers an envelope that passes the test, whose prefix ends at a boundary between runes.
pub truncate_result_total :
    (encoded : List ℕ) (fits : Envelope → Bool)
    → ((fits (envelope encoded 0) ≡ false) × (truncate_result encoded fits ≡ some (err cannot_fit)))
      ⊎ ((b k : ℕ) × (get_elem? (boundaries encoded) k ≡ some b)
          × (b ≤ length encoded)
          × (fits (envelope encoded b) ≡ true)
          × (truncate_result encoded fits ≡ some (ok (envelope encoded b))))
truncate_result_total encoded fits = elim (Bool-cases (fits (envelope encoded 0))) [
  | inr over ↦ inl (over, unfold truncate_result in rw over refl)
  | inl fit ↦
      let (k, s, f) = found encoded fits fit in
      let (b, e) = get_elem?_total (boundaries encoded) k (below_high encoded k f.to) in
      inr (
        b,
        k,
        e,
        (get_elem?-Rising 0 (length encoded) (boundaries encoded) k b (boundaries-Rising encoded)
            e).1,
        ground (arith, f.passes, e),
        answer encoded fits k b fit s e,
      )
]

fits_at-some :
    (encoded : List ℕ) (fits : Envelope → Bool) (j c : ℕ)
    → get_elem? (boundaries encoded) j ≡ some c
    → fits_at encoded fits j ≡ some (fits (envelope encoded c))
unfolding boundaries
fits_at-some encoded fits j c e = rw e refl

-- Passing at an index is inherited by smaller indices.
fits_at_inherited :
    (encoded : List ℕ) (fits : Envelope → Bool)
    → ((m n : ℕ)
        → m ≤ n
        → n ≤ length encoded
        → fits (envelope encoded n) ≡ true
        → fits (envelope encoded m) ≡ true)
    → (i j : ℕ) → i ≤ j
    → j ≤ high encoded
    → fits_at encoded fits j ≡ some true
    → fits_at encoded fits i ≡ some true
fits_at_inherited encoded fits mono i j le top pass =
    let rising = boundaries-Rising encoded in
    let (a, ea) =
      get_elem?_total (boundaries encoded) i (below_high encoded i (omega (arith, le, top))) in
    let (b, eb) = get_elem?_total (boundaries encoded) j (below_high encoded j top) in
    let pass_b : fits (envelope encoded b) ≡ true =
      ground (arith, pass, fits_at-some encoded fits j b eb) in
    let pass_a : fits (envelope encoded a) ≡ true =
      mono a b (get_elem?-mono 0 (length encoded) (boundaries encoded) i j a b rising le ea eb)
        (get_elem?-Rising 0 (length encoded) (boundaries encoded) j b rising eb).1 pass_b in
    fits_at-some encoded fits i a ea ∙ ap some pass_a

-- If a test that a prefix passes is passed by every shorter prefix, the answer is the longest prefix
-- that ends at a boundary and passes: whenever one of `c` bytes passes, TruncateResult returns one of
-- at least `c` bytes.
pub truncate_result-longest :
    (encoded : List ℕ) (fits : Envelope → Bool) (j c : ℕ)
    → ((m n : ℕ)
        → m ≤ n
        → n ≤ length encoded
        → fits (envelope encoded n) ≡ true
        → fits (envelope encoded m) ≡ true)
    → get_elem? (boundaries encoded) j ≡ some c
    → fits (envelope encoded c) ≡ true
    → (b : ℕ) × (c ≤ b)
      × (fits (envelope encoded b) ≡ true)
      × (truncate_result encoded fits ≡ some (ok (envelope encoded b)))
truncate_result-longest encoded fits j c mono e pass =
    let rising = boundaries-Rising encoded in
    let (_, short) = get_elem?-Rising 0 (length encoded) (boundaries encoded) j c rising e in
    let fit : fits (envelope encoded 0) ≡ true = mono 0 c (omega arith) short pass in
    let (k, s, f) = found encoded fits fit in
    let (b, eb) = get_elem?_total (boundaries encoded) k (below_high encoded k f.to) in
    let pass_b : fits (envelope encoded b) ≡ true =
      ground (arith, f.passes, fits_at-some encoded fits k b eb) in
    let longest : c ≤ b = elim (Bool-cases (ltb k j)) [
      | inr before ↦
          get_elem?-mono 0 (length encoded) (boundaries encoded) j k c b rising (ground arith) e eb
      | inl after ↦ absurd (
          f.last (fits_at_inherited encoded fits mono) j (ground arith)
            (unfold high in omega (arith, get_elem?_lt (boundaries encoded) j c e))
            (fits_at-some encoded fits j c e ∙ ap some pass))
    ] in
    (b, longest, pass_b, answer encoded fits k b fit s eb)
