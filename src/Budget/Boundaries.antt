-- ===== src/Budget/Boundaries.antt =====
-- The boundaries between runes, from which TruncateResult chooses (internal/modelbudget/budget.go).
use command_prompter_doc_bot.Prelude.{
  ℕ, zero, suc, ◌+◌, ◌-◌, ◌≤◌, ◌<◌, ◌≡◌, refl, subst, inl, inr, Bool, not, some, List, [], ◌∷◌,
  ◌++◌, ◌==◌, length, keep, get_elem?, arith, Bool-cases,
}
use command_prompter_doc_bot.Budget.Truncation.{range_indices, rune_width, boundaries}

-- Ascending, from `low` to `high`.
abbrev pub Rising : ℕ → ℕ → List ℕ → Type 0
Rising low high [] = low ≤ high
Rising low high (x ∷ xs) = (low ≤ x) × Rising x high xs

Rising-le : (low high : ℕ) (xs : List ℕ) → Rising low high xs → low ≤ high
Rising-le low high [] h = h
Rising-le low high (x ∷ xs) h = omega (arith, h.0, Rising-le x high xs h.1)

lower : (a b high : ℕ) (xs : List ℕ) → a ≤ b → Rising b high xs → Rising a high xs
lower a b high [] le h = omega (arith, le, h)
lower a b high (x ∷ xs) le h = (omega (arith, le, h.0), h.1)

Rising-keep :
    (p : ℕ → Bool) (low high : ℕ) (xs : List ℕ) → Rising low high xs → Rising low high (keep p xs)
Rising-keep p low high [] h = h
Rising-keep p low high (x ∷ xs) h = elim (Bool-cases (p x)) [
  | inl kept ↦ rw kept (h.0, Rising-keep p x high xs h.1)
  | inr dropped ↦ rw dropped (Rising-keep p low high xs (lower low x high xs h.0 h.1))
]

range_indices-Rising :
    (skip index : ℕ) (bytes : List ℕ)
    → Rising index (index + length bytes) (range_indices skip index bytes)
unfolding range_indices
range_indices-Rising skip index [] = omega arith
range_indices-Rising zero index (b ∷ bytes) = (
  omega arith,
  lower index (suc index) _ _ (omega arith) (
      subst (λ n. Rising (suc index) n (range_indices (rune_width b bytes - 1) (suc index) bytes))
        (omega arith) (range_indices-Rising (rune_width b bytes - 1) (suc index) bytes)),
)
range_indices-Rising (suc skip) index (b ∷ bytes) = lower index (suc index) _ _ (omega arith) (
    subst (λ n. Rising (suc index) n (range_indices skip (suc index) bytes)) (omega arith)
      (range_indices-Rising skip (suc index) bytes))

ended : (low high : ℕ) (xs : List ℕ) → Rising low high xs → Rising low high (xs ++ high ∷ [])
ended low high [] h = (h, omega arith)
ended low high (x ∷ xs) h = (h.0, ended x high xs h.1)

pub boundaries-Rising : (encoded : List ℕ) → Rising 0 (length encoded) (boundaries encoded)
unfolding boundaries
boundaries-Rising encoded = (
  omega arith,
  ended 0 (length encoded) _ (
      Rising-keep (λ index. not (index == 0)) 0 (length encoded) _
        (subst (λ n. Rising 0 n (range_indices 0 0 encoded)) (omega arith)
          (range_indices-Rising 0 0 encoded))),
)

pub get_elem?-Rising :
    (low high : ℕ) (xs : List ℕ) (i c : ℕ)
    → Rising low high xs
    → get_elem? xs i ≡ some c
    → (low ≤ c) × (c ≤ high)
get_elem?-Rising low high [] i c h e = cc
get_elem?-Rising low high (x ∷ xs) zero c h e =
    let le = Rising-le x high xs h.1 in (ground (arith, e, h.0), ground (arith, e, le))
get_elem?-Rising low high (x ∷ xs) (suc i) c h e =
    let ih = get_elem?-Rising x high xs i c h.1 e in (omega (arith, ih.0, h.0), ih.1)

pub get_elem?-mono :
    (low high : ℕ) (xs : List ℕ) (i j a b : ℕ)
    → Rising low high xs
    → i ≤ j
    → get_elem? xs i ≡ some a
    → get_elem? xs j ≡ some b
    → a ≤ b
get_elem?-mono low high [] i j a b h le ea eb = cc
get_elem?-mono low high (x ∷ xs) zero zero a b h le ea eb = ground (arith, ea, eb)
get_elem?-mono low high (x ∷ xs) zero (suc j) a b h le ea eb =
    ground (arith, ea, (get_elem?-Rising x high xs j b h.1 eb).0)
get_elem?-mono low high (x ∷ xs) (suc i) zero a b h le ea eb = absurd (omega arith)
get_elem?-mono low high (x ∷ xs) (suc i) (suc j) a b h le ea eb =
    get_elem?-mono x high xs i j a b h.1 (omega (arith, le)) ea eb

pub get_elem?_total :
    {A : Type 0} (xs : List A) (i : ℕ) → i < length xs → (a : A) × (get_elem? xs i ≡ some a)
get_elem?_total [] i h = absurd (omega (arith, h))
get_elem?_total (x ∷ xs) zero h = (x, refl)
get_elem?_total (x ∷ xs) (suc i) h = get_elem?_total xs i (omega (arith, h))

pub get_elem?_lt : (xs : List ℕ) (i c : ℕ) → get_elem? xs i ≡ some c → i < length xs
get_elem?_lt [] i c e = cc
get_elem?_lt (x ∷ xs) zero c e = omega arith
get_elem?_lt (x ∷ xs) (suc i) c e = omega (arith, get_elem?_lt xs i c e)
