-- ===== src/Capsule/Canonical.antt =====
-- canonicalJSON and unescapeJSONLineSeparators (internal/capsule/json.go).
use command_prompter_doc_bot.Prelude.{
  ℕ, zero, suc, Bool, true, false, not, ◌&&◌, Option, none, some, List, [], ◌∷◌, ◌==◌,
  if◌then◌else◌, String, cut_prefix,
}
use command_prompter_doc_bot.Capsule.Json.{Json}
use command_prompter_doc_bot.Capsule.Values.{Codec}

-- `\u2028` and `\u2029`, up to their last digit.
abbrev pub separator_escape : ℕ → List ℕ
separator_escape digit = 92 ∷ 117 ∷ 50 ∷ 48 ∷ 50 ∷ digit ∷ []

abbrev pub has_prefix : List ℕ → List ℕ → Bool
has_prefix prefix bytes = elim (cut_prefix prefix bytes) [ none ↦ false | some rest ↦ true ]

-- `skip` bytes belong to an escape that is replaced; `odd` says that the number of backslashes just
-- before is odd.
unfoldable pub unescape : ℕ → Bool → List ℕ → List ℕ
unescape skip odd [] = []
unescape (suc skip) odd (b ∷ bytes) = unescape skip false bytes
unescape zero odd (b ∷ bytes) =
    let inside = unescape 5 false bytes in
    let after = unescape 0 ((b == 92) && not odd) bytes in
    if has_prefix (separator_escape 56) (b ∷ bytes) && not odd
    then 226 ∷ 128 ∷ 168 ∷ inside
    else if has_prefix (separator_escape 57) (b ∷ bytes) && not odd
    then 226 ∷ 128 ∷ 169 ∷ inside
    else b ∷ after

abbrev pub unescape_line_separators : List ℕ → List ℕ
unescape_line_separators = unescape 0 false

unfoldable pub canonical_json : Codec → Json → Option String
canonical_json codec v = elim (codec.encode v) [
  | none ↦ none
  | some encoded ↦ some (codec.of_bytes (unescape_line_separators (codec.bytes encoded)))
]
