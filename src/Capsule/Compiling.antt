-- ===== src/Capsule/Compiling.antt =====
-- compileSchema and normalizeJSONObject (internal/capsule/json.go).
use command_prompter_doc_bot.Prelude.{
  ℕ, zero, String, str_eq, Bool, true, not, ◌&&◌, Option, none, some, List, [], ◌∷◌, leb,
  if◌then◌else◌, any, Result, ok, err, ◌>>=◌, ◌>>◌,
}
use command_prompter_doc_bot.Capsule.Json.{
  Number, natural, negative, Json, Items, Members, boolean, number, text, array, object, end_items,
  and_item, end_members, and_member, Complexity, parse_strict_json,
}
use command_prompter_doc_bot.Capsule.Canonical.{canonical_json}
use command_prompter_doc_bot.Capsule.Values.{Codec, find_member, only_names}
use command_prompter_doc_bot.Capsule.Schema.{
  Schema, compiled, no_schema, Properties, end_properties, and_property, Bounds,
}
use Prim.Native.String.{len}

pub data SchemaError : Type 0 where
  invalid_schema : SchemaError

abbrev pub demand : Bool → Result SchemaError (Unit {0})
demand b = if b then ok tt else err invalid_schema

abbrev pub limits_of : ℕ → ℕ → ℕ → Complexity
limits_of depth string_bytes keys = record {
  max_depth = depth;
  max_string_bytes = string_bytes;
  max_keys = keys;
}

-- A nil map is the empty one.
unfoldable pub normalize_json_object : Codec → Members → ℕ → Complexity → Result SchemaError Members
normalize_json_object codec value maximum limits = elim (canonical_json codec (object value)) [
  | none ↦ err invalid_schema
  | some encoded ↦
      if not (leb (len encoded) maximum)
      then err invalid_schema
      else elim (parse_strict_json limits (codec.lex encoded)) [
        | err e ↦ err invalid_schema
        | ok (object ms, keys) ↦ ok ms
        | ok (v, keys) ↦ err invalid_schema
      ]
]

abbrev pub is_json_type : String → Bool
is_json_type name =
    any (λ t. str_eq t name)
      ("null" ∷ "boolean" ∷ "object" ∷ "array" ∷ "number" ∷ "integer" ∷ "string" ∷ [])

-- The strings of an array that pass a test.
unfoldable pub texts : (String → Bool) → Items → Result SchemaError (List String)
texts test end_items = ok []
texts test (and_item (text s) xs) = do demand (test s); rest ← texts test xs; ok (s ∷ rest)
texts test _ = err invalid_schema

unfoldable pub compile_types : Option Json → Result SchemaError (List String)
compile_types none = ok []
compile_types (some (array end_items)) = err invalid_schema
compile_types (some (array xs)) = texts is_json_type xs
compile_types (some v) = texts is_json_type (and_item v end_items)

unfoldable pub distinct : List String → Bool
distinct [] = true
distinct (s ∷ ss) = not (any (λ t. str_eq t s) ss) && distinct ss

unfoldable pub compile_required : Option Json → Result SchemaError (List String)
compile_required none = ok []
compile_required (some (array xs)) = do
  names ← texts (λ s. not (str_eq s "")) xs
  demand (distinct names)
  ok names
compile_required _ = err invalid_schema

unfoldable pub compile_additional : Option Json → Result SchemaError Bool
compile_additional none = ok true
compile_additional (some (boolean b)) = ok b
compile_additional _ = err invalid_schema

-- An integer that is not negative.
unfoldable pub compile_count : Option Json → Result SchemaError (Option ℕ)
compile_count none = ok none
compile_count (some (number (natural n))) = ok (some n)
compile_count (some (number (negative zero))) = ok (some 0)
compile_count _ = err invalid_schema

unfoldable pub compile_number : Option Json → Result SchemaError (Option Number)
compile_number none = ok none
compile_number (some (number n)) = ok (some n)
compile_number _ = err invalid_schema

unfoldable pub compile_pattern : Codec → Option Json → Result SchemaError (Option (String → Bool))
compile_pattern codec none = ok none
compile_pattern codec (some (text s)) = elim (codec.compile_pattern s) [
  | none ↦ err invalid_schema
  | some p ↦ ok (some p)
]
compile_pattern codec _ = err invalid_schema

unfoldable pub compile_format : Option Json → Result SchemaError (Unit {0})
compile_format none = ok tt
compile_format (some (text s)) = ok tt
compile_format _ = err invalid_schema

abbrev pub values_of : Items → List Json
values_of end_items = []
values_of (and_item v xs) = v ∷ values_of xs

unfoldable pub compile_enum : Option Json → Result SchemaError (List Json)
compile_enum none = ok []
compile_enum (some (array (and_item v xs))) = ok (v ∷ values_of xs)
compile_enum _ = err invalid_schema

-- Neither below the minimum nor above the maximum.
abbrev pub between : Codec → Option Number → Option Number → Number → Bool
between codec minimum maximum n =
    elim minimum [ none ↦ true | some m ↦ not (codec.less n m) ]
    && elim maximum [ none ↦ true | some m ↦ not (codec.less m n) ]

unfoldable pub compile_bounds : Codec → Members → Result SchemaError Bounds
compile_bounds codec raw = do
  min_items ← compile_count (find_member "minItems" raw)
  max_items ← compile_count (find_member "maxItems" raw)
  min_length ← compile_count (find_member "minLength" raw)
  max_length ← compile_count (find_member "maxLength" raw)
  minimum ← compile_number (find_member "minimum" raw)
  maximum ← compile_number (find_member "maximum" raw)
  pattern ← compile_pattern codec (find_member "pattern" raw)
  compile_format (find_member "format" raw)
  ok (record {
    min_items = min_items;
    max_items = max_items;
    min_length = min_length;
    max_length = max_length;
    in_range = between codec minimum maximum;
    pattern = pattern;
  })

abbrev pub keywords : List String
keywords =
    "$schema" ∷ "$id" ∷ "$comment" ∷ "title" ∷ "description" ∷ "default" ∷ "examples" ∷ "deprecated"
    ∷ "readOnly" ∷ "writeOnly" ∷ "type" ∷ "properties" ∷ "required" ∷ "additionalProperties"
    ∷ "items" ∷ "minItems" ∷ "maxItems" ∷ "minLength" ∷ "maxLength" ∷ "minimum" ∷ "maximum"
    ∷ "pattern" ∷ "format" ∷ "enum" ∷ "const" ∷ []

-- The keywords but `properties` and `items`.
unfoldable pub compile_keywords :
    Codec
    → Members
    → Result SchemaError Properties
    → Result SchemaError Schema
    → Result SchemaError Schema
compile_keywords codec raw inner each = do
  demand (only_names keywords raw)
  types ← compile_types (find_member "type" raw)
  properties ← inner
  required ← compile_required (find_member "required" raw)
  additional ← compile_additional (find_member "additionalProperties" raw)
  items ← each
  bounds ← compile_bounds codec raw
  enum ← compile_enum (find_member "enum" raw)
  ok (compiled types properties required additional items bounds enum (find_member "const" raw))

module _ (codec : Codec) where
  unfoldable mutual
    -- compileSchemaObject, which a value that is no object does not reach.
    pub compile_schema_object : Json → Result SchemaError Schema
    compile_schema_object (object raw) =
        let inner = compile_properties raw in
        let each = compile_items raw in compile_keywords codec raw inner each
    compile_schema_object _ = err invalid_schema

    -- The schemas of the member `properties`.
    pub compile_properties : Members → Result SchemaError Properties
    compile_properties end_members = ok end_properties
    compile_properties (and_member s (object ms) rest) =
        let here = compile_each ms in
        let others = compile_properties rest in if str_eq s "properties" then here else others
    compile_properties (and_member s v rest) =
        let others = compile_properties rest in
        if str_eq s "properties" then err invalid_schema else others

    pub compile_each : Members → Result SchemaError Properties
    compile_each end_members = ok end_properties
    compile_each (and_member s v rest) = do
      property ← compile_schema_object v
      properties ← compile_each rest
      ok (and_property s property properties)

    -- The schema of the member `items`.
    pub compile_items : Members → Result SchemaError Schema
    compile_items end_members = ok no_schema
    compile_items (and_member s v rest) =
        let here = compile_schema_object v in
        let others = compile_items rest in if str_eq s "items" then here else others

  unfoldable pub compile_schema : Members → Result SchemaError Schema
  compile_schema raw = do
    normalized ← normalize_json_object codec raw 1048576 (limits_of 64 1048576 100000)
    compile_schema_object (object normalized)
