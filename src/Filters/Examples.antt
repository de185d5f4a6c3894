-- ===== src/Filters/Examples.antt =====
-- A pattern with `**` on two paths (internal/sourcegit/filter.go).
use command_prompter_doc_bot.Prelude.{
  byte_length, ℕ, ◌≡◌, ◌↔◌, ◌⊎◌, ◌≤◌, All, length, refl, any, not, ok, err, Bool, true, false, ◌&&◌,
  some, List, [], ◌∷◌, ◌==◌,
}
use command_prompter_doc_bot.Filters.Matching.{
  matches, match_values, closure, close_states, following, all_following, split_path,
}
use command_prompter_doc_bot.Filters.Globs.{Glob}
use command_prompter_doc_bot.Filters.Permitting.{
  PathFilter, is_permitted, included, any_matches, last_matching, Permitted, is_permitted_iff,
}
use command_prompter_doc_bot.Filters.Partition.{
  ends_in_slash, Parts, partition, Partitioned, validate_source_path, invalid_source_path,
}
use command_prompter_doc_bot.Filters.Parting.{partition_total}
use command_prompter_doc_bot.Filters.Reading.{
  IgnoreFile, file, new_path_filter, new_patterns, read_ignore_file, read_lines, fields,
  new_filter_pattern, pattern_of, trim_left, trim_right, has_bad_rune, contains_stars, without_last,
  string_bytes, maximum_pattern_count,
}
use command_prompter_doc_bot.Filters.Limits.{WellFormed, new_path_filter-Limits}
use command_prompter_doc_bot.Filters.Verdicts.{matches_iff}

-- path.Match on segments without special characters.
abbrev plain_match : List ℕ → List ℕ → Bool
plain_match [] [] = true
plain_match (a ∷ pattern) (b ∷ value) = (a == b) && plain_match pattern value
plain_match _ _ = false

-- `a/**/b` and the path `a/c/c/b`.
abbrev a_stars_b : List (List ℕ)
a_stars_b = (97 ∷ []) ∷ (42 ∷ 42 ∷ []) ∷ (98 ∷ []) ∷ []

abbrev a_c_c_b : List ℕ
a_c_c_b = 97 ∷ 47 ∷ 99 ∷ 47 ∷ 99 ∷ 47 ∷ 98 ∷ []

matches-a_c_c_b : matches plain_match a_stars_b a_c_c_b ≡ some true
unfolding matches match_values closure close_states following all_following split_path
matches-a_c_c_b = refl

matches_iff_example :
    (b : Bool) × (matches plain_match a_stars_b a_c_c_b ≡ some b)
    × ((b ≡ true) ↔ Glob plain_match a_stars_b (split_path a_c_c_b))
matches_iff_example = matches_iff plain_match a_stars_b a_c_c_b

-- Everything below `a` is ignored, but not `a/**/b`.
abbrev below_a : PathFilter
below_a = record {
  include = [];
  exclude = [];
  ignore =
      record { segments = (97 ∷ []) ∷ (42 ∷ 42 ∷ []) ∷ []; ignored = true }
      ∷ record { segments = a_stars_b; ignored = false }
      ∷ [];
}

is_permitted-below_a : is_permitted plain_match a_c_c_b below_a ≡ some true
unfolding is_permitted included any_matches last_matching matches match_values closure close_states
    following all_following split_path
is_permitted-below_a = refl

is_permitted_iff_example :
    (b : Bool) × (is_permitted plain_match a_c_c_b below_a ≡ some b)
    × ((b ≡ true) ↔ Permitted plain_match a_c_c_b below_a)
is_permitted_iff_example = is_permitted_iff plain_match a_c_c_b below_a

partition_total_example :
    ((parts : Parts) × (partition plain_match below_a (a_c_c_b ∷ (97 ∷ []) ∷ []) ≡ some (ok parts))
      × Partitioned plain_match below_a (a_c_c_b ∷ (97 ∷ []) ∷ []) parts
      × (any (λ p. not (validate_source_path p)) (a_c_c_b ∷ (97 ∷ []) ∷ []) ≡ false))
    ⊎ ((partition plain_match below_a (a_c_c_b ∷ (97 ∷ []) ∷ []) ≡ some (err invalid_source_path))
        × (any (λ p. not (validate_source_path p)) (a_c_c_b ∷ (97 ∷ []) ∷ []) ≡ true))
partition_total_example = partition_total plain_match below_a (a_c_c_b ∷ (97 ∷ []) ∷ [])

-- The include pattern `a/`, and an ignore file with a comment and the line `!b`.
abbrev directory_a : List (List ℕ)
directory_a = (97 ∷ 47 ∷ []) ∷ []

abbrev not_b : IgnoreFile
not_b = file (35 ∷ 97 ∷ 10 ∷ 33 ∷ 98 ∷ [])

abbrev only_a : PathFilter
only_a = record {
  include =
      record { segments = (42 ∷ 42 ∷ []) ∷ (97 ∷ []) ∷ (42 ∷ 42 ∷ []) ∷ []; ignored = false } ∷ [];
  exclude = [];
  ignore = record { segments = (42 ∷ 42 ∷ []) ∷ (98 ∷ []) ∷ []; ignored = false } ∷ [];
}

new_path_filter-only_a : new_path_filter directory_a [] not_b ≡ ok only_a
unfolding new_path_filter new_patterns read_ignore_file read_lines fields new_filter_pattern
    pattern_of trim_left trim_right has_bad_rune contains_stars without_last ends_in_slash
    split_path string_bytes byte_length
new_path_filter-only_a = refl

new_path_filter-Limits_example :
    (All (λ p. WellFormed p × (p.ignored ≡ false)) only_a.include × (length only_a.include ≤ 100))
    × (All (λ p. WellFormed p × (p.ignored ≡ true)) only_a.exclude × (length only_a.exclude ≤ 100))
    × (All WellFormed only_a.ignore × (length only_a.ignore ≤ maximum_pattern_count))
new_path_filter-Limits_example =
    new_path_filter-Limits directory_a [] not_b only_a new_path_filter-only_a
