-- ===== src/Capsule/Values.antt =====
-- Reading decoded JSON: closedObject, jsonInteger, numberInt (internal/capsule/sse.go, json.go). An
-- object is the list of its members, as no name stands twice.
use command_prompter_doc_bot.Prelude.{
  ℕ, zero, String, str_eq, Bool, true, false, Option, none, some, List, leb, if◌then◌else◌, any,
  Result, ok, err,
}
use command_prompter_doc_bot.Capsule.Json.{
  Number, natural, negative, Json, Members, null, number, text, array, object, end_items, and_item,
  end_members, and_member, Token,
}

-- What the code calls of encoding/json, regexp, strconv and utf8: the tokens of a line of runes and of a
-- string, the encoding of a value with the members of its objects in the order of their names, whether
-- a string is an operation id, the test of a regular expression if there is one, the order of the floats
-- that numbers denote, whether bytes are UTF-8, the conversions between strings and bytes, and the
-- decimal digits of a number.
pub record Codec : Type 0 where
  pub lex_line : List ℕ → List Token
  pub lex : String → List Token
  pub encode : Json → Option String
  pub is_operation_id : String → Bool
  pub compile_pattern : String → Option (String → Bool)
  pub less : Number → Number → Bool
  pub is_utf8 : List ℕ → Bool
  pub bytes : String → List ℕ
  pub of_bytes : List ℕ → String
  pub decimal : ℕ → String

pub data ProviderError : Type 0 where
  invalid_response : ProviderError

abbrev pub find_member : String → Members → Option Json
find_member name end_members = none
find_member name (and_member s v ms) = if str_eq s name then some v else find_member name ms

unfoldable pub only_names : List String → Members → Bool
only_names allowed end_members = true
only_names allowed (and_member s v ms) =
    let rest = only_names allowed ms in if any (λ t. str_eq t s) allowed then rest else false

-- An absent member reads as null.
abbrev pub field : String → Members → Json
field name ms = elim (find_member name ms) [ none ↦ null | some v ↦ v ]

unfoldable pub closed_object : List String → Json → Result ProviderError Members
closed_object allowed (object ms) = if only_names allowed ms then ok ms else err invalid_response
closed_object allowed _ = err invalid_response

abbrev pub is_null : Json → Bool
is_null null = true
is_null _ = false

abbrev pub is_text : String → Json → Bool
is_text s (text t) = str_eq t s
is_text s _ = false

-- A member that may be absent, and otherwise passes a test.
unfoldable pub absent_or : (Json → Bool) → String → Members → Bool
absent_or test name ms = elim (find_member name ms) [ none ↦ true | some v ↦ test v ]

abbrev pub is_zero : Json → Bool
is_zero (number (natural zero)) = true
is_zero (number (negative zero)) = true
is_zero _ = false

unfoldable pub number_int : Json → Result ProviderError ℕ
number_int (number (natural n)) = if leb n 1000000000 then ok n else err invalid_response
number_int (number (negative zero)) = ok 0
number_int _ = err invalid_response

unfoldable pub text_of : Json → Result ProviderError String
text_of (text s) = ok s
text_of _ = err invalid_response

unfoldable pub single : Json → Result ProviderError Json
single (array (and_item v end_items)) = ok v
single _ = err invalid_response
