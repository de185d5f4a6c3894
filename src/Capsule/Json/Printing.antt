-- ===== src/Capsule/Json/Printing.antt =====
-- The tokens of a JSON value, and the limits that parseStrictJSON sets it (internal/capsule/json.go).
use command_prompter_doc_bot.Prelude.{
  ℕ, suc, ◌+◌, ◌≤◌, ◌≡◌, String, true, false, List, [], ◌∷◌, length, arith,
}
use command_prompter_doc_bot.Capsule.Json.{
  Json, Items, Members, null, boolean, number, text, array, object, end_items, and_item,
  end_members, and_member, Token, null_token, bool_token, number_token, text_token, open_array,
  close_array, open_object, close_object, Complexity, is_finite, has_name,
}
use Prim.Native.String.{len}

-- The tokens of a value, with other tokens behind them.
unfoldable mutual
  pub emit : Json → List Token → List Token
  emit null rest = null_token ∷ rest
  emit (boolean b) rest = bool_token b ∷ rest
  emit (number n) rest = number_token n ∷ rest
  emit (text s) rest = text_token s ∷ rest
  emit (array xs) rest = open_array ∷ emit_items xs rest
  emit (object ms) rest = open_object ∷ emit_members ms rest

  pub emit_items : Items → List Token → List Token
  emit_items end_items rest = close_array ∷ rest
  emit_items (and_item v xs) rest = emit v (emit_items xs rest)

  pub emit_members : Members → List Token → List Token
  emit_members end_members rest = close_object ∷ rest
  emit_members (and_member s v ms) rest = text_token s ∷ emit v (emit_members ms rest)

unfoldable mutual
  pub token_count : Json → ℕ
  token_count (array xs) = suc (items_token_count xs)
  token_count (object ms) = suc (members_token_count ms)
  token_count _ = 1

  pub items_token_count : Items → ℕ
  items_token_count end_items = 1
  items_token_count (and_item v xs) = token_count v + items_token_count xs

  pub members_token_count : Members → ℕ
  members_token_count end_members = 1
  members_token_count (and_member s v ms) = suc (token_count v + members_token_count ms)

-- How many members the objects of a value have together.
unfoldable mutual
  pub key_count : Json → ℕ
  key_count (array xs) = items_key_count xs
  key_count (object ms) = members_key_count ms
  key_count _ = 0

  pub items_key_count : Items → ℕ
  items_key_count end_items = 0
  items_key_count (and_item v xs) = key_count v + items_key_count xs

  pub members_key_count : Members → ℕ
  members_key_count end_members = 0
  members_key_count (and_member s v ms) = suc (key_count v + members_key_count ms)

-- A value at a depth keeps to the limits, apart from the number of keys: no part is too deep, strings
-- and names are short enough, numbers are finite, and no object has a name twice.
unfoldable mutual
  pub Fits : Complexity → ℕ → Json → Type 0
  Fits lim depth (number n) = (depth ≤ lim.max_depth) × (is_finite n ≡ true)
  Fits lim depth (text s) = (depth ≤ lim.max_depth) × (len s ≤ lim.max_string_bytes)
  Fits lim depth (array xs) = (depth ≤ lim.max_depth) × ItemsFit lim depth xs
  Fits lim depth (object ms) = (depth ≤ lim.max_depth) × MembersFit lim depth [] ms
  Fits lim depth _ = depth ≤ lim.max_depth

  pub ItemsFit : Complexity → ℕ → Items → Type 0
  ItemsFit lim depth end_items = Unit
  ItemsFit lim depth (and_item v xs) = Fits lim (suc depth) v × ItemsFit lim depth xs

  pub MembersFit : Complexity → ℕ → List String → Members → Type 0
  MembersFit lim depth names end_members = Unit
  MembersFit lim depth names (and_member s v ms) =
      (len s ≤ lim.max_string_bytes)
      × (has_name s names ≡ false)
      × Fits lim (suc depth) v
      × MembersFit lim depth (s ∷ names) ms

mutual
  unfolding token_count

  positive : (v : Json) → 1 ≤ token_count v
  positive (array xs) = omega arith
  positive (object ms) = omega arith
  positive _ = omega arith

  items_positive : (xs : Items) → 1 ≤ items_token_count xs
  items_positive end_items = omega arith
  items_positive (and_item v xs) = omega (arith, positive v)

  members_positive : (ms : Members) → 1 ≤ members_token_count ms
  members_positive end_members = omega arith
  members_positive (and_member s v ms) = omega arith

pub token_count_positive : (v : Json) → 1 ≤ token_count v
token_count_positive v = positive v

pub items_token_count_positive : (xs : Items) → 1 ≤ items_token_count xs
items_token_count_positive xs = items_positive xs

mutual
  unfolding emit token_count

  value_length : (v : Json) (rest : List Token) → length (emit v rest) ≡ token_count v + length rest
  value_length (array xs) rest = omega (arith, items_length xs rest)
  value_length (object ms) rest = omega (arith, members_length ms rest)
  value_length null rest = omega arith
  value_length (boolean b) rest = omega arith
  value_length (number n) rest = omega arith
  value_length (text s) rest = omega arith

  items_length :
      (xs : Items) (rest : List Token)
      → length (emit_items xs rest) ≡ items_token_count xs + length rest
  items_length end_items rest = omega arith
  items_length (and_item v xs) rest =
      omega (arith, value_length v (emit_items xs rest), items_length xs rest)

  members_length :
      (ms : Members) (rest : List Token)
      → length (emit_members ms rest) ≡ members_token_count ms + length rest
  members_length end_members rest = omega arith
  members_length (and_member s v ms) rest =
      omega (arith, value_length v (emit_members ms rest), members_length ms rest)

pub length-emit :
    (v : Json) (rest : List Token) → length (emit v rest) ≡ token_count v + length rest
length-emit v rest = value_length v rest
