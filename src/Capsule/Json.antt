-- ===== src/Capsule/Json.antt =====
-- parseStrictJSON and decodeJSONValue (internal/capsule/json.go) over the tokens of the decoder of the
-- standard library, which has matched brackets, commas and colons: where it reports a syntax error the
-- list has `broken`. Tokens have texts: the check that the bytes are UTF-8, which comes first, stands
-- in `read_message` of Capsule/Wire.antt. A number that is not an `int64` carries whether it is a
-- finite float.
use command_prompter_doc_bot.Prelude.{
  ℕ, zero, suc, String, str_eq, Bool, true, List, [], ◌∷◌, not, ◌||◌, ltb, leb, if◌then◌else◌, any,
  length, Result, ok, err, ◌>>=◌,
}
use Prim.Native.String.{len}
pub mod Printing
pub mod Accepting
pub mod Refusing

pub data Number : Type 0 where
  natural negative : ℕ → Number
  float : String → Bool → Number

mutual
  pub data Json : Type 0 where
    null : Json
    boolean : Bool → Json
    number : Number → Json
    text : String → Json
    array : Items → Json
    object : Members → Json

  pub data Items : Type 0 where
    end_items : Items
    and_item : Json → Items → Items

  pub data Members : Type 0 where
    end_members : Members
    and_member : String → Json → Members → Members

pub data Token : Type 0 where
  null_token open_array close_array open_object close_object broken : Token
  bool_token : Bool → Token
  number_token : Number → Token
  text_token : String → Token

pub record Complexity : Type 0 where
  pub max_depth : ℕ
  pub max_string_bytes : ℕ
  pub max_keys : ℕ

pub data JsonError : Type 0 where
  invalid_json out_of_fuel : JsonError

abbrev pub is_finite : Number → Bool
is_finite (float s b) = b
is_finite _ = true

-- A value, the number of keys so far, and the tokens that are left.
abbrev pub Decoded : Type 0 → Type 0
Decoded A = Result JsonError (A × ℕ × List Token)

abbrev pub checked : Bool → Json → ℕ → List Token → Decoded Json
checked b v keys rest = if b then ok (v, keys, rest) else err invalid_json

abbrev pub has_name : String → List String → Bool
has_name s = any (λ t. str_eq t s)

abbrev pub within_depth : Complexity → ℕ → Decoded Json → Decoded Json
within_depth lim depth r = if ltb lim.max_depth depth then err invalid_json else r

unfoldable mutual
  pub decode_value : ℕ → Complexity → ℕ → ℕ → List Token → Decoded Json
  decode_value zero lim depth keys ts = err out_of_fuel
  decode_value (suc f) lim depth keys (null_token ∷ rest) =
      within_depth lim depth (ok (null, keys, rest))
  decode_value (suc f) lim depth keys (bool_token b ∷ rest) =
      within_depth lim depth (ok (boolean b, keys, rest))
  decode_value (suc f) lim depth keys (number_token n ∷ rest) =
      within_depth lim depth (checked (is_finite n) (number n) keys rest)
  decode_value (suc f) lim depth keys (text_token s ∷ rest) =
      within_depth lim depth (checked (leb (len s) lim.max_string_bytes) (text s) keys rest)
  decode_value (suc f) lim depth keys (open_array ∷ rest) =
      within_depth lim depth do
        (items, keys', rest') ← decode_items f lim depth keys rest
        ok (array items, keys', rest')
  decode_value (suc f) lim depth keys (open_object ∷ rest) = within_depth lim depth do
    (members, keys', rest') ← decode_members f lim depth keys [] rest
    ok (object members, keys', rest')
  decode_value (suc f) lim depth keys _ = err invalid_json

  pub decode_items : ℕ → Complexity → ℕ → ℕ → List Token → Decoded Items
  decode_items zero lim depth keys ts = err out_of_fuel
  decode_items (suc f) lim depth keys (close_array ∷ rest) = ok (end_items, keys, rest)
  decode_items (suc f) lim depth keys ts = do
    (v, keys', rest) ← decode_value f lim (suc depth) keys ts
    (items, keys'', rest') ← decode_items f lim depth keys' rest
    ok (and_item v items, keys'', rest')

  pub decode_members : ℕ → Complexity → ℕ → ℕ → List String → List Token → Decoded Members
  decode_members zero lim depth keys names ts = err out_of_fuel
  decode_members (suc f) lim depth keys names (close_object ∷ rest) = ok (end_members, keys, rest)
  decode_members (suc f) lim depth keys names (text_token s ∷ rest) =
      if not (leb (len s) lim.max_string_bytes) || has_name s names || ltb lim.max_keys (suc keys)
      then err invalid_json
      else do
        (v, keys', rest') ← decode_value f lim (suc depth) (suc keys) rest
        (members, keys'', rest'') ← decode_members f lim depth keys' (s ∷ names) rest'
        ok (and_member s v members, keys'', rest'')
  decode_members (suc f) lim depth keys names _ = err invalid_json

-- The value must be all of the text, and a token costs at most one unit of fuel.
unfoldable pub at_end : Json × ℕ × List Token → Result JsonError (Json × ℕ)
at_end (v, keys, []) = ok (v, keys)
at_end (v, keys, t ∷ ts) = err invalid_json

unfoldable pub parse_strict_json : Complexity → List Token → Result JsonError (Json × ℕ)
parse_strict_json lim ts = do r ← decode_value (length ts) lim 1 0 ts; at_end r
