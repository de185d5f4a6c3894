-- ===== src/Filters/Limits.antt =====
-- What a pathFilter that newPathFilter makes is bound to (internal/sourcegit/filter.go).
use command_prompter_doc_bot.Prelude.{
  byte_length, ℕ, suc, ◌≤◌, ◌≡◌, refl, ap, subst, sym, inl, inr, Bool, true, false, ◌&&◌, ◌||◌,
  List, [], ◌∷◌, ◌++◌, ltb, if◌then◌else◌, any, length, All, All-append, arith, Bool-cases, ok,
  >>=-eq-ok,
}
use command_prompter_doc_bot.Filters.Matching.{split_path}
use command_prompter_doc_bot.Filters.Permitting.{FilterPattern, PathFilter}
use command_prompter_doc_bot.Filters.Partition.{starts_at_root, ends_in_slash}
use command_prompter_doc_bot.Filters.Reading.{
  pattern_of, is_bad_segment, any_depth, new_filter_pattern, new_patterns, read_lines,
  read_ignore_file, IgnoreFile, no_file, not_utf8, file, new_path_filter, trim_space,
  starts_with_rune, without_first, without_last, contains_stars, maximum_pattern_count, is_nil,
  has_bad_rune, fields, maximum_pattern_length, maximum_pattern_bytes, string_bytes,
}

-- Each segment is `**` or contains no `**`, and none is empty, `.` or `..`.
abbrev pub WellFormed : FilterPattern → Type 0
WellFormed p = any is_bad_segment p.segments ≡ false

any_depth-any :
    (segments : List (List ℕ))
    → any is_bad_segment segments ≡ false
    → any is_bad_segment (any_depth segments) ≡ false
unfolding contains_stars
any_depth-any [] h = h
any_depth-any (s ∷ []) h = h
any_depth-any (s ∷ t ∷ segments) h = h

any-below :
    (segments : List (List ℕ))
    → any is_bad_segment segments ≡ false
    → any is_bad_segment (segments ++ (42 ∷ 42 ∷ []) ∷ []) ≡ false
unfolding contains_stars
any-below [] h = refl
any-below (s ∷ segments) h = elim (Bool-cases (is_bad_segment s)) [
  | inl bad ↦ absurd (ground (arith, h, bad))
  | inr good ↦ rw good (any-below segments (rw good at h))
]

abbrev below_directory : Bool → List (List ℕ) → List (List ℕ)
below_directory directory segments = if directory then segments ++ (42 ∷ 42 ∷ []) ∷ [] else segments

below_directory-any :
    (directory : Bool) (segments : List (List ℕ))
    → any is_bad_segment segments ≡ false
    → any is_bad_segment (below_directory directory segments) ≡ false
below_directory-any true segments h = any-below segments h
below_directory-any false segments h = h

pattern_of-WellFormed :
    (value : List ℕ) (ignored : Bool) (p : FilterPattern)
    → pattern_of value ignored ≡ ok p
    → WellFormed p × (p.ignored ≡ ignored)
unfolding pattern_of
pattern_of-WellFormed value ignored p h =
    let rooted = if starts_at_root value then without_first value else value in
    let directory = ends_in_slash rooted in
    let segments = split_path (if directory then without_last rooted else rooted) in
    elim (Bool-cases
      (is_nil value || ltb maximum_pattern_length (length value) || has_bad_rune value)) [
        | inl refused ↦ absurd (ground (arith, h, refused))
        | inr taken ↦ elim (Bool-cases (any is_bad_segment segments)) [
          | inl bad ↦ absurd (ground (arith, h, taken, bad))
          | inr good ↦
              let made : (FilterPattern) = record {
                segments = below_directory directory (any_depth segments);
                ignored = ignored;
              } in
              let e : made ≡ p = ground (arith, h, taken, good) in
              (
                subst WellFormed e (
                    below_directory-any directory (any_depth segments)
                      (any_depth-any segments good)),
                sym (ap (λ (x : FilterPattern). x.ignored) e),
              )
        ]
      ]

new_filter_pattern-WellFormed :
    (raw : List ℕ) (allow_negation default_ignored : Bool) (p : FilterPattern)
    → new_filter_pattern raw allow_negation default_ignored ≡ ok p
    → WellFormed p × (allow_negation ≡ false → p.ignored ≡ default_ignored)
unfolding new_filter_pattern
new_filter_pattern-WellFormed raw allow_negation default_ignored p h =
    let value = trim_space raw in
    elim (Bool-cases (allow_negation && starts_with_rune 33 value)) [
      | inl negated ↦
          let (w, _) = pattern_of-WellFormed (without_first value) false p (rw negated at h) in
          (w, λ never. ground (arith, never, negated))
      | inr plain ↦
          let (w, e) = pattern_of-WellFormed value default_ignored p (rw plain at h) in (w, λ _. e)
    ]

new_patterns-All :
    (ignored : Bool) (values : List (List ℕ)) (ps : List FilterPattern)
    → new_patterns ignored values ≡ ok ps
    → All (λ p. WellFormed p × (p.ignored ≡ ignored)) ps × (length ps ≡ length values)
unfolding new_patterns
new_patterns-All ignored [] ps h =
    let e : [] ≡ ps = ground (arith, h) in
    subst (λ x. All (λ p. WellFormed p × (p.ignored ≡ ignored)) x × (length x ≡ 0)) e (tt, refl)
new_patterns-All ignored (value ∷ values) ps h =
    let (p, made, rest) = >>=-eq-ok (new_filter_pattern value false ignored) _ h in
    let (others, more, last) = >>=-eq-ok (new_patterns ignored values) _ rest in
    let (w, same) = new_filter_pattern-WellFormed value false ignored p made in
    let (all, count) = new_patterns-All ignored values others more in
    let e : p ∷ others ≡ ps = ground (arith, last) in
    subst
      (λ x. All (λ p. WellFormed p × (p.ignored ≡ ignored)) x × (length x ≡ suc (length values))) e
      (((w, same refl), all), ap suc count)

read_lines-All :
    (patterns : List FilterPattern) (lines : List (List ℕ)) (ps : List FilterPattern)
    → All WellFormed patterns
    → length patterns ≤ maximum_pattern_count
    → read_lines patterns lines ≡ ok ps
    → All WellFormed ps × (length ps ≤ maximum_pattern_count)
unfolding read_lines
read_lines-All patterns [] ps a le h =
    let e : patterns ≡ ps = ground (arith, h) in
    subst (λ x. All WellFormed x × (length x ≤ maximum_pattern_count)) e (a, le)
read_lines-All patterns (line ∷ lines) ps a le h =
    elim (Bool-cases (is_nil (trim_space line) || starts_with_rune 35 (trim_space line))) [
      | inl skipped ↦ read_lines-All patterns lines ps a le (rw skipped at h)
      | inr taken ↦
          let (p, made, rest) =
            >>=-eq-ok (new_filter_pattern (trim_space line) true true) _ (rw taken at h) in
          let (w, _) = new_filter_pattern-WellFormed (trim_space line) true true p made in
          elim (Bool-cases (ltb maximum_pattern_count (length (patterns ++ p ∷ [])))) [
            | inl many ↦ absurd (ground (arith, rest, many))
            | inr few ↦
                read_lines-All (patterns ++ p ∷ []) lines ps
                  (All-append WellFormed patterns (p ∷ []) a (w, tt)) (ground (arith, few))
                  (rw few at rest)
          ]
    ]

read_ignore_file-All :
    (ignore_file : IgnoreFile) (ps : List FilterPattern)
    → read_ignore_file ignore_file ≡ ok ps
    → All WellFormed ps × (length ps ≤ maximum_pattern_count)
unfolding read_ignore_file
read_ignore_file-All no_file ps h =
    let e : [] ≡ ps = ground (arith, h) in
    subst (λ x. All WellFormed x × (length x ≤ maximum_pattern_count)) e (tt, omega arith)
read_ignore_file-All not_utf8 ps h = cc
read_ignore_file-All (file text) ps h =
    elim (Bool-cases (ltb maximum_pattern_bytes (byte_length text))) [
      | inl long ↦ absurd (ground (arith, h, long))
      | inr short ↦ read_lines-All [] (fields text) ps tt (omega arith) (rw short at h)
    ]

-- A filter that newPathFilter makes has well-formed patterns: at most 100 to include, which are not
-- ignored, at most 100 to exclude, which are, and at most 1000 of the ignore file.
pub new_path_filter-Limits :
    (include_values exclude_values : List (List ℕ)) (ignore_file : IgnoreFile) (f : PathFilter)
    → new_path_filter include_values exclude_values ignore_file ≡ ok f
    → (All (λ p. WellFormed p × (p.ignored ≡ false)) f.include × (length f.include ≤ 100))
      × (All (λ p. WellFormed p × (p.ignored ≡ true)) f.exclude × (length f.exclude ≤ 100))
      × (All WellFormed f.ignore × (length f.ignore ≤ maximum_pattern_count))
unfolding new_path_filter
new_path_filter-Limits include_values exclude_values ignore_file f h =
    elim (Bool-cases (
      ltb 100 (length include_values)
      || ltb 100 (length exclude_values)
      || ltb maximum_pattern_bytes (string_bytes include_values)
      || ltb maximum_pattern_bytes (string_bytes exclude_values))) [
        | inl refused ↦ absurd (ground (arith, h, refused))
        | inr taken ↦
            let (include, a, rest) =
              >>=-eq-ok (new_patterns false include_values) _ (rw taken at h) in
            let (exclude, b, rest2) = >>=-eq-ok (new_patterns true exclude_values) _ rest in
            let (ignore, c, last) = >>=-eq-ok (read_ignore_file ignore_file) _ rest2 in
            let (ai, ni) = new_patterns-All false include_values include a in
            let (ae, ne) = new_patterns-All true exclude_values exclude b in
            let (ag, ng) = read_ignore_file-All ignore_file ignore c in
            let e : (record { include = include; exclude = exclude; ignore = ignore }) ≡ f =
              ground (arith, last) in
            subst
              (λ (x : PathFilter).
                (All (λ p. WellFormed p × (p.ignored ≡ false)) x.include × (length x.include ≤ 100))
                × (All (λ p. WellFormed p × (p.ignored ≡ true)) x.exclude
                    × (length x.exclude ≤ 100))
                × (All WellFormed x.ignore × (length x.ignore ≤ maximum_pattern_count)))
              e ((ai, ground (arith, taken, ni)), (ae, ground (arith, taken, ne)), (ag, ng))
      ]
