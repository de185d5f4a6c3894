-- ===== src/Capsule/Creating.antt =====
-- NewOpenAIAttempt (internal/capsule/attempt.go) and validateSamplingOptions (internal/capsule/types.go).
use command_prompter_doc_bot.Prelude.{
  ℕ, String, str_eq, Bool, true, false, not, ◌&&◌, none, List, [], ◌∷◌, ltb, leb, if◌then◌else◌,
  any, Result, ok, ◌>>=◌, ◌>>◌,
}
use command_prompter_doc_bot.Capsule.Json.{
  Number, natural, negative, Json, Items, Members, number, text, array, end_items, and_item,
  end_members, and_member,
}
use command_prompter_doc_bot.Capsule.Values.{Codec, only_names, absent_or}
use command_prompter_doc_bot.Capsule.Schema.{Schema, item_count}
use command_prompter_doc_bot.Capsule.Stream.{ResponseLimits, Usage}
use command_prompter_doc_bot.Capsule.Responses.{Validators, single_item}
use command_prompter_doc_bot.Capsule.Compiling.{
  SchemaError, demand, limits_of, normalize_json_object, compile_schema,
}
use command_prompter_doc_bot.Capsule.Attempt.{Tool, Attempt, ready_model, message_of}
use Prim.Native.String.{len}

abbrev pub sampling_names : List String
sampling_names =
    "temperature" ∷ "top_p" ∷ "frequency_penalty" ∷ "presence_penalty" ∷ "seed" ∷ "stop" ∷ []

abbrev pub host_request_names : List String
host_request_names =
    "max_tokens" ∷ "messages" ∷ "model" ∷ "n" ∷ "parallel_tool_calls" ∷ "stream" ∷ "stream_options"
    ∷ "tool_choice" ∷ "tools" ∷ []

abbrev pub in_bounds : Codec → Number → Number → Json → Bool
in_bounds codec low high (number n) = not (codec.less n low) && not (codec.less high n)
in_bounds codec low high _ = false

-- A 32-bit integer.
abbrev pub is_seed : Json → Bool
is_seed (number (natural n)) = ltb n 2147483648
is_seed (number (negative n)) = leb n 2147483648
is_seed _ = false

abbrev pub is_stop : Json → Bool
is_stop (text s) = not (str_eq s "") && leb (len s) 1024
is_stop _ = false

abbrev pub all_stops : Items → Bool
all_stops end_items = true
all_stops (and_item v xs) = is_stop v && all_stops xs

abbrev pub are_stops : Json → Bool
are_stops (array xs) = leb 1 (item_count xs) && leb (item_count xs) 4 && all_stops xs
are_stops _ = false

-- A text as the only item of an array.
abbrev pub listed : Json → Json
listed (text s) = single_item (text s)
listed v = v

abbrev pub listed_stop : Members → Members
listed_stop end_members = end_members
listed_stop (and_member s v ms) =
    if str_eq s "stop" then and_member s (listed v) ms else and_member s v (listed_stop ms)

unfoldable pub validate_sampling_options : Codec → Members → Result SchemaError Members
validate_sampling_options codec value = do
  options ← normalize_json_object codec value 65536 (limits_of 32 65536 50000)
  demand (only_names sampling_names options)
  demand (
      absent_or (in_bounds codec (natural 0) (natural 2)) "temperature" options
      && absent_or (in_bounds codec (natural 0) (natural 1)) "top_p" options
      && absent_or (in_bounds codec (negative 2) (natural 2)) "frequency_penalty" options
      && absent_or (in_bounds codec (negative 2) (natural 2)) "presence_penalty" options)
  demand (absent_or is_seed "seed" options)
  demand (absent_or are_stops "stop" (listed_stop options))
  ok (listed_stop options)

abbrev pub valid_tool_name : Codec → String → Bool
valid_tool_name codec value =
    not (str_eq value "") && leb (len value) 128 && codec.is_operation_id value

-- The names of reasoning options are the provider's own.
abbrev pub own_names : Members → Bool
own_names end_members = true
own_names (and_member s v ms) =
    not (str_eq s "")
    && not (any (λ t. str_eq t s) sampling_names)
    && not (any (λ t. str_eq t s) host_request_names)
    && own_names ms

abbrev pub at_most_one : Members → Bool
at_most_one (and_member s v (and_member t w ms)) = false
at_most_one _ = true

-- The tools with normalized parameters, and their validators; `seen` holds the names before.
unfoldable pub compile_tools :
    Codec → ResponseLimits → List String → List Tool → Result SchemaError (List Tool × Validators)
compile_tools codec limits seen [] = ok ([], [])
compile_tools codec limits seen (t ∷ ts) = do
  demand (valid_tool_name codec t.name && not (str_eq t.name "submit_result") && t.has_handler)
  demand (not (any (λ s. str_eq s t.name) seen))
  schema ← compile_schema codec t.parameters
  cloned ← normalize_json_object codec t.parameters limits.max_bytes limits.complexity
  (tools, validators) ← compile_tools codec limits (t.name ∷ seen) ts
  ok (record t { parameters = cloned } ∷ tools, (t.name, schema) ∷ validators)

-- What an attempt is made of.
pub record Setup : Type 0 where
  pub model_id : String
  pub system_prompt : String
  pub prompt : String
  pub tools : List Tool
  pub output_schema : Members
  pub sampling_options : Members
  pub reasoning_options : Members
  pub context_window : ℕ
  pub max_output_tokens : ℕ
  pub max_model_requests : ℕ
  pub limits : ResponseLimits

abbrev pub no_usage : Usage
no_usage = record {
  model_calls = 0;
  input_tokens = 0;
  output_tokens = 0;
  total_tokens = 0;
  truncated_tool_results = 0;
}

-- The attempt with its options, tools and schemas.
abbrev pub first_attempt :
    Setup → Members → Members → List Tool → Validators → Members → Schema → Attempt
first_attempt setup sampling reasoning tools validators output output_validator = record {
  state = ready_model;
  usage = no_usage;
  model_id = setup.model_id;
  sampling_options = sampling;
  reasoning_options = reasoning;
  context_window = setup.context_window;
  max_output_tokens = setup.max_output_tokens;
  max_model_requests = setup.max_model_requests;
  response_limits = setup.limits;
  messages =
      message_of "system" (text setup.system_prompt) ∷ message_of "user" (text setup.prompt) ∷ [];
  tools = tools;
  output_schema = output;
  validators = ("submit_result", output_validator) ∷ validators;
  output_validator = output_validator;
  pending = none;
  next_turn = 1;
  current_turn = 0;
}

unfoldable pub new_openai_attempt : Codec → Setup → Result SchemaError Attempt
new_openai_attempt codec setup = do
  demand (
      ltb 0 setup.context_window
      && ltb 0 setup.max_output_tokens
      && leb 1 setup.max_model_requests
      && leb setup.max_model_requests 1000)
  sampling ← validate_sampling_options codec setup.sampling_options
  reasoning ←
      normalize_json_object codec setup.reasoning_options setup.limits.max_bytes
        setup.limits.complexity
  demand (at_most_one reasoning && own_names reasoning)
  output_validator ← compile_schema codec setup.output_schema
  (tools, validators) ← compile_tools codec setup.limits [] setup.tools
  output ←
      normalize_json_object codec setup.output_schema setup.limits.max_bytes setup.limits.complexity
  ok (first_attempt setup sampling reasoning tools validators output output_validator)
