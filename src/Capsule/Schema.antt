-- ===== src/Capsule/Schema.antt =====
-- compiledSchema and its method valid (internal/capsule/json.go). The pattern and the comparisons of
-- numbers with floats are tests, and null stands for no constant where `has_constant` is false.
use command_prompter_doc_bot.Prelude.{
  ℕ, suc, String, str_eq, Bool, true, false, not, ◌&&◌, ◌||◌, Option, none, some, List, [], ◌∷◌,
  ltb, if◌then◌else◌, any,
}
use command_prompter_doc_bot.Capsule.Json.{
  Number, float, Json, Items, Members, null, boolean, number, text, array, object, end_items,
  and_item, end_members, and_member,
}
use command_prompter_doc_bot.Capsule.Canonical.{canonical_json}
use command_prompter_doc_bot.Capsule.Values.{Codec, find_member}
use Prim.Native.String.{count}

pub record Bounds : Type 0 where
  pub min_items : Option ℕ
  pub max_items : Option ℕ
  pub min_length : Option ℕ
  pub max_length : Option ℕ
  pub in_range : Number → Bool
  pub pattern : Option (String → Bool)

mutual
  pub data Schema : Type 0 where
    no_schema : Schema
    compiled :
        List String
        → Properties
        → List String
        → Bool
        → Schema
        → Bounds
        → List Json
        → Option Json
        → Schema

  pub data Properties : Type 0 where
    end_properties : Properties
    and_property : String → Schema → Properties → Properties

unfoldable pub same_json : Codec → Json → Json → Bool
same_json codec left right = elim (canonical_json codec left) [
  | none ↦ false
  | some a ↦ elim (canonical_json codec right) [ none ↦ false | some b ↦ str_eq a b ]
]

-- A number that is not a finite float is not decoded.
unfoldable pub matches_json_type : Json → String → Bool
matches_json_type null name = str_eq name "null"
matches_json_type (boolean b) name = str_eq name "boolean"
matches_json_type (object ms) name = str_eq name "object"
matches_json_type (array xs) name = str_eq name "array"
matches_json_type (number (float s b)) name = str_eq name "number"
matches_json_type (number n) name = str_eq name "number" || str_eq name "integer"
matches_json_type (text s) name = str_eq name "string"

abbrev pub at_least : Option ℕ → ℕ → Bool
at_least none n = true
at_least (some m) n = not (ltb n m)

abbrev pub at_most : Option ℕ → ℕ → Bool
at_most none n = true
at_most (some m) n = not (ltb m n)

abbrev pub item_count : Items → ℕ
item_count end_items = 0
item_count (and_item v xs) = suc (item_count xs)

abbrev pub is_nil {ℓ} : {A : Type ℓ} → List A → Bool
is_nil [] = true
is_nil (x ∷ xs) = false

abbrev pub has_member : Members → String → Bool
has_member ms name = elim (find_member name ms) [ none ↦ false | some v ↦ true ]

abbrev pub all_of : (String → Bool) → List String → Bool
all_of p [] = true
all_of p (s ∷ ss) = p s && all_of p ss

abbrev pub property : String → Properties → Option Schema
property name end_properties = none
property name (and_property s t ps) = if str_eq s name then some t else property name ps

abbrev pub pattern_accepts : Option (String → Bool) → String → Bool
pattern_accepts none s = true
pattern_accepts (some p) s = p s

-- The tests of the value itself: its type, the constant and the enumeration.
unfoldable pub allowed_value : Codec → List String → List Json → Option Json → Json → Bool
allowed_value codec types enum constant v =
    (is_nil types || any (matches_json_type v) types)
    && elim constant [ none ↦ true | some c ↦ same_json codec v c ]
    && (is_nil enum || any (same_json codec v) enum)

module _ (codec : Codec) where
  unfoldable mutual
    pub valid : Schema → Json → Bool
    valid no_schema v = false
    valid (compiled types properties required additional items bounds enum constant) (object ms) =
        allowed_value codec types enum constant (object ms)
        && all_of (has_member ms) required
        && valid_members properties additional ms
    valid (compiled types properties required additional items bounds enum constant) (array xs) =
        allowed_value codec types enum constant (array xs)
        && at_least bounds.min_items (item_count xs)
        && at_most bounds.max_items (item_count xs)
        && valid_items items xs
    valid (compiled types properties required additional items bounds enum constant) (text s) =
        allowed_value codec types enum constant (text s)
        && at_least bounds.min_length (count s)
        && at_most bounds.max_length (count s)
        && pattern_accepts bounds.pattern s
    valid (compiled types properties required additional items bounds enum constant) (number n) =
        allowed_value codec types enum constant (number n) && bounds.in_range n
    valid (compiled types properties required additional items bounds enum constant) null =
        allowed_value codec types enum constant null
    valid (compiled types properties required additional items bounds enum constant) (boolean b) =
        allowed_value codec types enum constant (boolean b)

    pub valid_members : Properties → Bool → Members → Bool
    valid_members properties additional end_members = true
    valid_members properties additional (and_member s v ms) =
        elim (property s properties) [ none ↦ additional | some t ↦ valid t v ]
        && valid_members properties additional ms

    pub valid_items : Schema → Items → Bool
    valid_items no_schema xs = true
    valid_items items end_items = true
    valid_items items (and_item v xs) = valid items v && valid_items items xs
