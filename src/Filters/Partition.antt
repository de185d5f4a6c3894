-- ===== src/Filters/Partition.antt =====
-- pathFilter.partition (internal/sourcegit/filter.go) with ValidateSourcePath
-- (internal/sourcefiles/content.go). Paths are valid UTF-8, as lists of their runes are.
use command_prompter_doc_bot.Prelude.{
  byte_length, ℕ, ◌≡◌, refl, ◌⊎◌, inl, inr, ◌↔◌, Bool, true, false, not, ◌&&◌, ◌||◌, Option, none,
  some, List, [], ◌∷◌, ◌==◌, ltb, if◌then◌else◌, any, All, arith, Bool-cases, Result, ok, err,
}
use command_prompter_doc_bot.Filters.Matching.{slash, split_path}
use command_prompter_doc_bot.Filters.Permitting.{
  PathFilter, is_permitted, Permitted, is_permitted_iff,
}

pub data PathError : Type 0 where
  invalid_source_path : PathError

abbrev pub same_path : List ℕ → List ℕ → Bool
same_path [] [] = true
same_path (a ∷ p) (b ∷ q) = (a == b) && same_path p q
same_path _ _ = false

abbrev pub path_lt : List ℕ → List ℕ → Bool
path_lt [] [] = false
path_lt [] (b ∷ q) = true
path_lt (a ∷ p) [] = false
path_lt (a ∷ p) (b ∷ q) = if a == b then path_lt p q else ltb a b

abbrev pub has_path : List ℕ → List (List ℕ) → Bool
has_path p = any (same_path p)

-- slices.Sort and slices.Compact.
unfoldable pub insert_path : List ℕ → List (List ℕ) → List (List ℕ)
insert_path p [] = p ∷ []
insert_path p (q ∷ qs) =
    let rest = insert_path p qs in
    if same_path p q then q ∷ qs else if path_lt p q then p ∷ q ∷ qs else q ∷ rest

unfoldable pub sort_paths : List (List ℕ) → List (List ℕ)
sort_paths [] = []
sort_paths (p ∷ ps) = insert_path p (sort_paths ps)

abbrev pub maximum_bytes : ℕ
maximum_bytes = 4096

abbrev pub starts_at_root : List ℕ → Bool
starts_at_root [] = false
starts_at_root (c ∷ cs) = c == slash

unfoldable pub ends_in_slash : List ℕ → Bool
ends_in_slash [] = false
ends_in_slash (c ∷ []) = c == slash
ends_in_slash (c ∷ d ∷ cs) = ends_in_slash (d ∷ cs)

-- The empty segment, `.` and `..`.
abbrev pub is_special : List ℕ → Bool
is_special [] = true
is_special (a ∷ []) = a == 46
is_special (a ∷ b ∷ []) = (a == 46) && (b == 46)
is_special _ = false

unfoldable pub validate_source_path : List ℕ → Bool
validate_source_path raw = not (
    same_path raw []
    || starts_at_root raw
    || ends_in_slash raw
    || any (λ c. c == 92) raw
    || ltb maximum_bytes (byte_length raw)
    || any (λ c. ltb c 32 || (c == 127)) raw
    || any is_special (split_path raw))

-- The selected and the ignored paths.
pub record Parts : Type 0 where
  pub selected : List (List ℕ)
  pub ignored : List (List ℕ)

abbrev pub add_path : Bool → List ℕ → Parts → Parts
add_path true p parts = record parts { selected = p ∷ parts.selected }
add_path false p parts = record parts { ignored = p ∷ parts.ignored }

abbrev pub with_path :
    Bool → List ℕ → Option (Result PathError Parts) → Option (Result PathError Parts)
with_path b p (some (ok parts)) = some (ok (add_path b p parts))
with_path b p other = other

module _ (path_match : List ℕ → List ℕ → Bool) (filter : PathFilter) where
  unfoldable pub partition_values : List (List ℕ) → Option (Result PathError Parts)
  partition_values [] = some (ok (record { selected = []; ignored = [] }))
  partition_values (p ∷ ps) =
      let rest = partition_values ps in
      if not (validate_source_path p)
      then some (err invalid_source_path)
      else elim (is_permitted path_match p filter) [ none ↦ none | some b ↦ with_path b p rest ]

  unfoldable pub partition : List (List ℕ) → Option (Result PathError Parts)
  partition paths = partition_values (sort_paths paths)

  -- A partition of the paths by the filter.
  pub record Partitioned (paths : List (List ℕ)) (parts : Parts) : Type 0 where
    pub all_permitted : All (λ p. Permitted path_match p filter) parts.selected
    pub none_permitted : All (λ p. ¬ Permitted path_match p filter) parts.ignored
    pub together :
        (p : List ℕ) → has_path p paths ≡ (has_path p parts.selected || has_path p parts.ignored)

  add-Partitioned :
      (p : List ℕ) (paths : List (List ℕ)) (parts : Parts) (b : Bool)
      → (b ≡ true) ↔ Permitted path_match p filter
      → Partitioned paths parts
      → Partitioned (p ∷ paths) (add_path b p parts)
  add-Partitioned p paths parts true iff h = record {
    all_permitted = (iff.0 refl, h.all_permitted);
    none_permitted = h.none_permitted;
    together = λ q. ground (arith, h.together q);
  }
  add-Partitioned p paths parts false iff h = record {
    all_permitted = h.all_permitted;
    none_permitted = ((λ a. ground (arith, iff.1 a)), h.none_permitted);
    together = λ q. ground (arith, h.together q);
  }

  pub partition_values-Partitioned :
      (paths : List (List ℕ))
      → ((parts : Parts) × (partition_values paths ≡ some (ok parts))
          × Partitioned paths parts
          × (any (λ p. not (validate_source_path p)) paths ≡ false))
        ⊎ ((partition_values paths ≡ some (err invalid_source_path))
            × (any (λ p. not (validate_source_path p)) paths ≡ true))
  unfolding partition_values
  partition_values-Partitioned [] = inl (
    record { selected = []; ignored = [] },
    refl,
    record { all_permitted = tt; none_permitted = tt; together = λ p. refl },
    refl,
  )
  partition_values-Partitioned (p ∷ ps) = elim (Bool-cases (validate_source_path p)) [
    | inr bad ↦ inr (rw (bad, partition_values) refl, rw bad refl)
    | inl good ↦
        let (b, e, iff) = is_permitted_iff path_match p filter in
        elim (partition_values-Partitioned ps) [
          | inl rest ↦
              let (parts, m, h, valid) = rest in
              inl (
                add_path b p parts,
                rw (good, e, m, partition_values) refl,
                add-Partitioned p ps parts b iff h,
                rw good valid,
              )
          | inr rest ↦ inr (rw (good, e, rest.0, partition_values) refl, rw good rest.1)
        ]
  ]
