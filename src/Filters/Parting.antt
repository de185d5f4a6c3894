-- ===== src/Filters/Parting.antt =====
-- What pathFilter.partition returns (internal/sourcegit/filter.go).
use command_prompter_doc_bot.Prelude.{
  ℕ, ◌≡◌, refl, ap, sym, ◌∙◌, ◌⊎◌, inl, inr, Bool, true, false, not, ◌||◌, some, List, [], ◌∷◌, any,
  arith, Bool-cases, ok, err,
}
use command_prompter_doc_bot.Filters.Permitting.{PathFilter}
use command_prompter_doc_bot.Filters.Partition.{
  same_path, path_lt, insert_path, sort_paths, validate_source_path, Parts, partition, Partitioned,
  partition_values-Partitioned, invalid_source_path,
}

same_path-eq : (p q : List ℕ) → same_path p q ≡ true → p ≡ q
same_path-eq [] [] h = refl
same_path-eq [] (b ∷ q) h = cc
same_path-eq (a ∷ p) [] h = cc
same_path-eq (a ∷ p) (b ∷ q) h =
    let e : a ≡ b = ground (arith, h) in
    let rest : p ≡ q = same_path-eq p q (ground (arith, h)) in cc

any-insert_path :
    (P : List ℕ → Bool) (p : List ℕ) (qs : List (List ℕ))
    → any P (insert_path p qs) ≡ (P p || any P qs)
unfolding insert_path
any-insert_path P p [] = ground arith
any-insert_path P p (q ∷ qs) = elim (Bool-cases (same_path p q)) [
  | inl same ↦ let e : P p ≡ P q = ap P (same_path-eq p q same) in rw same (ground (arith, e))
  | inr other ↦ elim (Bool-cases (path_lt p q)) [
    | inl before ↦ rw (other, before) (ground arith)
    | inr later ↦ rw (other, later) (ground (arith, any-insert_path P p qs))
  ]
]

any-sort_paths : (P : List ℕ → Bool) (ps : List (List ℕ)) → any P (sort_paths ps) ≡ any P ps
unfolding sort_paths
any-sort_paths P [] = refl
any-sort_paths P (p ∷ ps) = ground (arith, any-insert_path P p (sort_paths ps), any-sort_paths P ps)

-- partition always returns. It refuses exactly paths of which one is not a valid source path, and
-- otherwise its two lists together hold the given paths, the first only permitted ones and the second
-- only others.
pub partition_total :
    (path_match : List ℕ → List ℕ → Bool) (filter : PathFilter) (paths : List (List ℕ))
    → ((parts : Parts) × (partition path_match filter paths ≡ some (ok parts))
        × Partitioned path_match filter paths parts
        × (any (λ p. not (validate_source_path p)) paths ≡ false))
      ⊎ ((partition path_match filter paths ≡ some (err invalid_source_path))
          × (any (λ p. not (validate_source_path p)) paths ≡ true))
unfolding partition
partition_total path_match filter paths =
    elim (partition_values-Partitioned path_match filter (sort_paths paths)) [
      | inl rest ↦
          let (parts, e, h, valid) = rest in
          inl (
            parts,
            e,
            record {
              all_permitted = h.all_permitted;
              none_permitted = h.none_permitted;
              together = λ p. sym (any-sort_paths (same_path p) paths) ∙ h.together p;
            },
            sym (any-sort_paths (λ p. not (validate_source_path p)) paths) ∙ valid,
          )
      | inr rest ↦
          inr (rest.0, sym (any-sort_paths (λ p. not (validate_source_path p)) paths) ∙ rest.1)
    ]
