-- ===== src/Filters/Reading.antt =====
-- newFilterPattern and newPathFilter (internal/sourcegit/filter.go). A text is the list of its runes.
use command_prompter_doc_bot.Prelude.{
  byte_length, ℕ, ◌+◌, Bool, true, false, not, ◌&&◌, ◌||◌, List, [], ◌∷◌, ◌++◌, ◌==◌, ltb, leb,
  if◌then◌else◌, any, length, Result, ok, err, ◌>>=◌,
}
use command_prompter_doc_bot.Filters.Matching.{split_path, is_stars}
use command_prompter_doc_bot.Filters.Permitting.{FilterPattern, PathFilter}
use command_prompter_doc_bot.Filters.Partition.{is_special, starts_at_root, ends_in_slash}

pub data PatternError : Type 0 where
  invalid_pattern : PatternError

abbrev pub maximum_pattern_count : ℕ
maximum_pattern_count = 1000

abbrev pub maximum_pattern_bytes : ℕ
maximum_pattern_bytes = 65536

abbrev pub maximum_pattern_length : ℕ
maximum_pattern_length = 4096

-- unicode.IsSpace
abbrev pub is_space : ℕ → Bool
is_space c =
    (leb 9 c && leb c 13)
    || (c == 32)
    || (c == 133)
    || (c == 160)
    || (c == 5760)
    || (leb 8192 c && leb c 8202)
    || (c == 8232)
    || (c == 8233)
    || (c == 8239)
    || (c == 8287)
    || (c == 12288)

unfoldable pub trim_left : List ℕ → List ℕ
trim_left [] = []
trim_left (c ∷ cs) = let rest = trim_left cs in if is_space c then rest else c ∷ cs

abbrev pub keep_unless_space : ℕ → List ℕ → List ℕ
keep_unless_space c [] = if is_space c then [] else c ∷ []
keep_unless_space c (d ∷ ds) = c ∷ d ∷ ds

unfoldable pub trim_right : List ℕ → List ℕ
trim_right [] = []
trim_right (c ∷ cs) = keep_unless_space c (trim_right cs)

abbrev pub trim_space : List ℕ → List ℕ
trim_space text = trim_right (trim_left text)

abbrev pub starts_with_rune : ℕ → List ℕ → Bool
starts_with_rune r [] = false
starts_with_rune r (c ∷ cs) = c == r

abbrev pub without_first : List ℕ → List ℕ
without_first [] = []
without_first (c ∷ cs) = cs

unfoldable pub without_last : List ℕ → List ℕ
without_last [] = []
without_last (c ∷ []) = []
without_last (c ∷ d ∷ cs) = c ∷ without_last (d ∷ cs)

-- strings.Contains of `**`.
unfoldable pub contains_stars : List ℕ → Bool
contains_stars [] = false
contains_stars (a ∷ []) = false
contains_stars (a ∷ b ∷ cs) = ((a == 42) && (b == 42)) || contains_stars (b ∷ cs)

abbrev pub is_bad_segment : List ℕ → Bool
is_bad_segment segment = is_special segment || (contains_stars segment && not (is_stars segment))

abbrev pub is_nil : List ℕ → Bool
is_nil [] = true
is_nil _ = false

abbrev pub any_depth : List (List ℕ) → List (List ℕ)
any_depth (segment ∷ []) = (42 ∷ 42 ∷ []) ∷ segment ∷ []
any_depth segments = segments

unfoldable pub has_bad_rune : List ℕ → Bool
has_bad_rune value = any (λ c. (c == 92) || (c == 91) || (c == 93) || ltb c 32 || (c == 127)) value

-- The rest of newFilterPattern, for the trimmed value without its negation.
unfoldable pub pattern_of : List ℕ → Bool → Result PatternError FilterPattern
pattern_of value ignored =
    let rooted = if starts_at_root value then without_first value else value in
    let directory = ends_in_slash rooted in
    let segments = split_path (if directory then without_last rooted else rooted) in
    if is_nil value || ltb maximum_pattern_length (length value) || has_bad_rune value
    then err invalid_pattern
    else if any is_bad_segment segments
    then err invalid_pattern
    else ok (record {
      segments =
          if directory then any_depth segments ++ (42 ∷ 42 ∷ []) ∷ [] else any_depth segments;
      ignored = ignored;
    })

unfoldable pub new_filter_pattern : List ℕ → Bool → Bool → Result PatternError FilterPattern
new_filter_pattern raw allow_negation default_ignored =
    let value = trim_space raw in
    if allow_negation && starts_with_rune 33 value
    then pattern_of (without_first value) false
    else pattern_of value default_ignored

unfoldable pub string_bytes : List (List ℕ) → ℕ
string_bytes [] = 0
string_bytes (value ∷ values) = byte_length value + string_bytes values

-- The loops over the include and the exclude patterns.
unfoldable pub new_patterns : Bool → List (List ℕ) → Result PatternError (List FilterPattern)
new_patterns ignored [] = ok []
new_patterns ignored (value ∷ values) =
    let rest = new_patterns ignored values in
    do p ← new_filter_pattern value false ignored; ps ← rest; ok (p ∷ ps)

abbrev pub ends_line : ℕ → Bool
ends_line c =
    (c == 10)
    || (c == 13)
    || (c == 11)
    || (c == 12)
    || (c == 28)
    || (c == 29)
    || (c == 30)
    || (c == 133)
    || (c == 8232)
    || (c == 8233)

abbrev pub cons_line : ℕ → List (List ℕ) → List (List ℕ)
cons_line c [] = (c ∷ []) ∷ []
cons_line c (line ∷ lines) = (c ∷ line) ∷ lines

-- strings.FieldsFunc; empty lines are skipped by the loop that reads them.
unfoldable pub fields : List ℕ → List (List ℕ)
fields [] = [] ∷ []
fields (c ∷ cs) = let rest = fields cs in if ends_line c then [] ∷ rest else cons_line c rest

-- The loop over the lines of the ignore file, with the patterns so far.
unfoldable pub read_lines :
    List FilterPattern → List (List ℕ) → Result PatternError (List FilterPattern)
read_lines patterns [] = ok patterns
read_lines patterns (line ∷ lines) =
    let skipped = read_lines patterns lines in
    let added = λ (p : FilterPattern). read_lines (patterns ++ p ∷ []) lines in
    if is_nil (trim_space line) || starts_with_rune 35 (trim_space line) then skipped else do
      p ← new_filter_pattern (trim_space line) true true
      if ltb maximum_pattern_count (length (patterns ++ p ∷ []))
          then err invalid_pattern
          else added p

pub data IgnoreFile : Type 0 where
  no_file not_utf8 : IgnoreFile
  file : List ℕ → IgnoreFile

unfoldable pub read_ignore_file : IgnoreFile → Result PatternError (List FilterPattern)
read_ignore_file no_file = ok []
read_ignore_file not_utf8 = err invalid_pattern
read_ignore_file (file text) =
    if ltb maximum_pattern_bytes (byte_length text)
    then err invalid_pattern
    else read_lines [] (fields text)

unfoldable pub new_path_filter :
    List (List ℕ) → List (List ℕ) → IgnoreFile → Result PatternError PathFilter
new_path_filter include_values exclude_values ignore_file =
    if ltb 100 (length include_values)
      || ltb 100 (length exclude_values)
      || ltb maximum_pattern_bytes (string_bytes include_values)
      || ltb maximum_pattern_bytes (string_bytes exclude_values)
    then err invalid_pattern
    else do
      include ← new_patterns false include_values
      exclude ← new_patterns true exclude_values
      ignore ← read_ignore_file ignore_file
      ok (record { include = include; exclude = exclude; ignore = ignore })
