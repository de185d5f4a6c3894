-- ===== src/Capsule/Shapes.antt =====
-- The shapes of the messages between a session and a capsule: validateWireMessage
-- (internal/capsule/wire.go).
use command_prompter_doc_bot.Prelude.{
  ℕ, zero, suc, String, str_eq, Bool, true, false, ◌&&◌, Option, none, some, List, [], ◌∷◌, ◌==◌,
  leb, if◌then◌else◌, any, ok, err,
}
use command_prompter_doc_bot.Capsule.Json.{
  Items, Json, Members, and_item, and_member, array, end_items, end_members, natural, negative,
  number, object, text,
}
use command_prompter_doc_bot.Capsule.Values.{Codec, field, find_member, is_text, only_names}
use command_prompter_doc_bot.Capsule.Schema.{item_count}
use command_prompter_doc_bot.Capsule.Creating.{validate_sampling_options}
use command_prompter_doc_bot.Capsule.Methods.{is_object}
use Prim.Native.String.{count}

-- A member and the test of its value.
abbrev pub Field : Type 0
Field = String × (Json → Bool)

abbrev pub any_field : Json → Bool
any_field v = true

abbrev pub exact_string : String → Json → Bool
exact_string want v = is_text want v

unfoldable pub integer_range : ℕ → ℕ → Json → Bool
integer_range low high (number (natural n)) = leb low n && leb n high
integer_range low high (number (negative zero)) = low == 0
integer_range low high _ = false

unfoldable pub string_field : ℕ → Option ℕ → Json → Bool
string_field minimum none (text s) = leb minimum (count s)
string_field minimum (some maximum) (text s) = leb minimum (count s) && leb (count s) maximum
string_field minimum maximum _ = false

abbrev pub enum_string : List String → Json → Bool
enum_string values v = any (λ s. exact_string s v) values

abbrev pub operation_id_field : Codec → Json → Bool
operation_id_field codec (text s) = codec.is_operation_id s
operation_id_field codec _ = false

abbrev pub member_count : Members → ℕ
member_count end_members = 0
member_count (and_member s v ms) = suc (member_count ms)

-- An absent member reads as null, as a map gives nil.
unfoldable pub all_fields : List Field → Members → Bool
all_fields [] ms = true
all_fields ((name, test) ∷ fields) ms = test (field name ms) && all_fields fields ms

-- Every name of a field stands as a member, with a value that passes.
unfoldable pub all_required : List Field → Members → Bool
all_required [] ms = true
all_required ((name, test) ∷ fields) ms =
    elim (find_member name ms) [ none ↦ false | some v ↦ test v ] && all_required fields ms

abbrev pub find_field : String → List Field → Option (Json → Bool)
find_field name [] = none
find_field name ((s, test) ∷ fields) = if str_eq s name then some test else find_field name fields

-- Every member is a field's, with a value that passes.
unfoldable pub all_known : List Field → Members → Bool
all_known fields end_members = true
all_known fields (and_member name v ms) =
    elim (find_field name fields) [ none ↦ false | some test ↦ test v ] && all_known fields ms

-- No other names than those of the fields.
unfoldable pub only_fields : List Field → Members → Bool
only_fields fields end_members = true
only_fields fields (and_member name v ms) =
    elim (find_field name fields) [ none ↦ false | some test ↦ true ] && only_fields fields ms

unfoldable pub tool_shape : Json → Bool
tool_shape (object tool) =
    (member_count tool == 3)
    && string_field 1 (some 128) (field "name" tool)
    && string_field 0 (some 4096) (field "description" tool)
    && is_object (field "parameters" tool)
    && only_names ("name" ∷ "description" ∷ "parameters" ∷ []) tool
tool_shape _ = false

abbrev pub all_tools : Items → Bool
all_tools end_items = true
all_tools (and_item v xs) = tool_shape v && all_tools xs

unfoldable pub tool_array_field : Json → Bool
tool_array_field (array xs) = leb (item_count xs) 64 && all_tools xs
tool_array_field _ = false

unfoldable pub sampling_field : Codec → Json → Bool
sampling_field codec (object options) = elim (validate_sampling_options codec options) [
  | err e ↦ false
  | ok normalized ↦ true
]
sampling_field codec _ = false

-- MinModelTimeout and MaxModelTimeout of internal/safenet, in milliseconds.
abbrev pub provider_fields : Codec → List Field
provider_fields codec =
    ("model_id", string_field 1 (some 512))
    ∷ ("body_options", sampling_field codec)
    ∷ (
      "reasoning_effort",
      enum_string ("none" ∷ "minimal" ∷ "low" ∷ "medium" ∷ "high" ∷ "max" ∷ []),
    )
    ∷ ("context_window", integer_range 1024 10000000)
    ∷ ("max_output_tokens", integer_range 1 1000000)
    ∷ ("timeout_ms", integer_range 1000 60000)
    ∷ ("capsule_runtime_revision", string_field 1 (some 128))
    ∷ []

abbrev pub limits_fields : List Field
limits_fields =
    ("max_frame_bytes", integer_range 1024 4194304)
    ∷ ("max_aggregate_bytes", integer_range 4096 33554432)
    ∷ ("max_string_bytes", integer_range 256 2097152)
    ∷ ("max_depth", integer_range 4 64)
    ∷ ("max_keys", integer_range 32 100000)
    ∷ ("max_fetch_body_bytes", integer_range 1024 1048576)
    ∷ ("max_fetches", integer_range 1 1000)
    ∷ ("max_model_requests", integer_range 1 1000)
    ∷ []

-- An object of as many members, with these fields.
unfoldable pub record_field : ℕ → List Field → Json → Bool
record_field size fields (object ms) =
    (member_count ms == size) && all_fields fields ms && only_fields fields ms
record_field size fields _ = false

unfoldable pub fields_of : Codec → String → Option (List Field)
fields_of codec name =
    let kind : Field = ("type", exact_string name) in
    let id : Field = ("id", operation_id_field codec) in
    if str_eq name "start"
    then some (
        kind
        ∷ ("protocol_version", integer_range 1 1)
        ∷ ("attempt_id", operation_id_field codec)
        ∷ ("role", enum_string ("PLANNER" ∷ "PAGE_WRITER" ∷ []))
        ∷ ("system_prompt", string_field 0 none)
        ∷ ("prompt", string_field 0 none)
        ∷ ("tools", tool_array_field)
        ∷ ("output_schema", is_object)
        ∷ ("provider", record_field 7 (provider_fields codec))
        ∷ ("limits", record_field 8 limits_fields)
        ∷ [])
    else if str_eq name "tool_result"
    then some (kind ∷ id ∷ ("result", any_field) ∷ ("content", string_field 0 none) ∷ [])
    else if str_eq name "model_result"
    then some (kind ∷ id ∷ ("body_base64", string_field 0 none) ∷ [])
    else if str_eq name "cancel"
    then some (kind ∷ ("reason", string_field 0 (some 256)) ∷ [])
    else if str_eq name "tool_call"
    then some (
        kind
        ∷ id
        ∷ ("provider_call_id", operation_id_field codec)
        ∷ ("name", string_field 1 (some 128))
        ∷ ("arguments", is_object)
        ∷ [])
    else if str_eq name "model_request"
    then some (kind ∷ id ∷ ("turn", integer_range 1 1000) ∷ [])
    else if str_eq name "complete"
    then some (kind ∷ ("output", is_object) ∷ [])
    else if str_eq name "failed"
    then some (
        kind
        ∷ (
          "code",
          enum_string
              ("cancelled" ∷ "protocol" ∷ "provider" ∷ "tool" ∷ "invalid_result" ∷ "internal" ∷ []),
        )
        ∷ ("message", string_field 1 (some 400))
        ∷ [])
    else none

unfoldable pub validate_wire_message : Codec → Members → Bool
validate_wire_message codec message = elim (field "type" message) [
  | text name ↦ elim (fields_of codec name) [
    | none ↦ false
    | some fields ↦ all_required fields message && all_known fields message
  ]
  | _ ↦ false
]
