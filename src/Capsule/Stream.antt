-- ===== src/Capsule/Stream.antt =====
-- The events of a provider's answer: the loop of ParseOpenAISSE (internal/capsule/sse.go).
use command_prompter_doc_bot.Prelude.{
  ℕ, ◌+◌, String, str_eq, Bool, true, false, not, ◌&&◌, ◌||◌, Option, none, some, List, [], ◌∷◌,
  ◌++◌, ◌==◌, if◌then◌else◌, any, Result, ok, err, ◌>>=◌, ◌>>◌,
}
use command_prompter_doc_bot.Capsule.Json.{Json, Members, end_members, and_member, Complexity}
use command_prompter_doc_bot.Capsule.Values.{
  Codec, ProviderError, invalid_response, find_member, field, closed_object, is_null, is_text,
  absent_or, is_zero, number_int, text_of, single,
}

pub record ResponseLimits : Type 0 where
  pub max_bytes : ℕ
  pub max_events : ℕ
  pub max_line_bytes : ℕ
  pub complexity : Complexity

pub record Usage : Type 0 where
  pub model_calls : ℕ
  pub input_tokens : ℕ
  pub output_tokens : ℕ
  pub total_tokens : ℕ
  pub truncated_tool_results : ℕ

-- The variables of the loop. A call id and a name that have not come are empty strings.
pub record Stream : Type 0 where
  pub content : List String
  pub reasoning : List String
  pub argument_parts : List String
  pub call_id : String
  pub call_name : String
  pub saw_tool : Bool
  pub finish_reason : Option String
  pub usage : Option Usage
  pub is_done : Bool
  pub total_keys : ℕ

abbrev pub no_stream : Stream
no_stream = record {
  content = [];
  reasoning = [];
  argument_parts = [];
  call_id = "";
  call_name = "";
  saw_tool = false;
  finish_reason = none;
  usage = none;
  is_done = false;
  total_keys = 0;
}

abbrev pub require : Bool → Result ProviderError (Unit {0})
require b = if b then ok tt else err invalid_response

-- Each detail that is not null is a count.
unfoldable pub counts_only : Members → Result ProviderError (Unit {0})
counts_only end_members = ok tt
counts_only (and_member s v ms) = do
  if is_null v then ok tt else (do n ← number_int v; ok tt)
  counts_only ms

unfoldable pub usage_details : Members → Result ProviderError (Unit {0})
usage_details ms = elim (find_member "completion_tokens_details" ms) [
  | none ↦ ok tt
  | some v ↦ do
    details ←
        closed_object
          ("accepted_prediction_tokens" ∷ "audio_tokens" ∷ "reasoning_tokens"
            ∷ "rejected_prediction_tokens" ∷ [])
          v
    counts_only details
]

unfoldable pub parse_usage : Json → Result ProviderError Usage
parse_usage v = do
  ms ←
      closed_object
        ("prompt_tokens" ∷ "completion_tokens" ∷ "completion_tokens_details" ∷ "total_tokens" ∷ [])
        v
  usage_details ms
  input ← number_int (field "prompt_tokens" ms)
  output ← number_int (field "completion_tokens" ms)
  total ← number_int (field "total_tokens" ms)
  require (total == input + output)
  ok (record {
    model_calls = 1;
    input_tokens = input;
    output_tokens = output;
    total_tokens = total;
    truncated_tool_results = 0;
  })

unfoldable pub take_usage : Members → Stream → Result ProviderError Stream
take_usage chunk s = elim (find_member "usage" chunk) [
  | none ↦ ok s
  | some v ↦ elim s.usage [
    | some u ↦ err invalid_response
    | none ↦ do u ← parse_usage v; ok (record s { usage = some u })
  ]
]

abbrev pub is_some {ℓ} : {A : Type ℓ} → Option A → Bool
is_some none = false
is_some (some a) = true

abbrev pub is_empty : Members → Bool
is_empty end_members = true
is_empty _ = false

-- A choice after the finish reason is empty, and comes with the usage.
unfoldable pub after_finish : Members → Json → Result ProviderError (Unit {0})
after_finish chunk first = do
  choice ← closed_object ("index" ∷ "delta" ∷ "finish_reason" ∷ "logprobs" ∷ []) first
  delta ← closed_object ("role" ∷ "content" ∷ "tool_calls" ∷ []) (field "delta" choice)
  require (
      is_zero (field "index" choice)
      && is_empty delta
      && is_null (field "finish_reason" choice)
      && is_null (field "logprobs" choice))
  require (is_some (find_member "usage" chunk))

unfoldable pub take_reasoning : Members → Stream → Result ProviderError Stream
take_reasoning delta s = if is_null (field "reasoning_content" delta) then ok s else do
  value ← text_of (field "reasoning_content" delta)
  ok (if str_eq value "" then s else record s { reasoning = s.reasoning ++ value ∷ [] })

unfoldable pub take_content : Members → Stream → Result ProviderError Stream
take_content delta s = if is_null (field "content" delta) then ok s else do
  value ← text_of (field "content" delta)
  require (not (s.saw_tool && not (str_eq value "")))
  ok (record s { content = s.content ++ value ∷ [] })

abbrev pub any_nonempty : List String → Bool
any_nonempty = any (λ t. not (str_eq t ""))

unfoldable pub take_call_id : Codec → Members → Stream → Result ProviderError Stream
take_call_id codec call s = elim (find_member "id" call) [
  | none ↦ ok s
  | some v ↦ do
    candidate ← text_of v
    require (codec.is_operation_id candidate && (str_eq s.call_id "" || str_eq candidate s.call_id))
    ok (record s { call_id = candidate })
]

unfoldable pub take_name : Members → Stream → Result ProviderError Stream
take_name function s = elim (find_member "name" function) [
  | none ↦ ok s
  | some v ↦ do
    candidate ← text_of v
    require (str_eq s.call_name "" || str_eq candidate s.call_name)
    ok (record s { call_name = candidate })
]

unfoldable pub take_arguments : Members → Stream → Result ProviderError Stream
take_arguments function s = elim (find_member "arguments" function) [
  | none ↦ ok s
  | some v ↦ do part ← text_of v; ok (record s { argument_parts = s.argument_parts ++ part ∷ [] })
]

unfoldable pub take_tool_call : Codec → Members → Stream → Result ProviderError Stream
take_tool_call codec delta s = elim (find_member "tool_calls" delta) [
  | none ↦ ok s
  | some calls ↦ do
    first ← single calls
    require (not (any_nonempty s.content))
    call ← closed_object ("index" ∷ "id" ∷ "type" ∷ "function" ∷ []) first
    require (
        is_zero (field "index" call)
        && (is_null (field "type" call) || is_text "function" (field "type" call)))
    with_id ← take_call_id codec call (record s { saw_tool = true })
    function ← closed_object ("name" ∷ "arguments" ∷ []) (field "function" call)
    with_name ← take_name function with_id
    take_arguments function with_name
]

unfoldable pub take_finish : Members → Stream → Result ProviderError Stream
take_finish choice s = if is_null (field "finish_reason" choice) then ok s else do
  value ← text_of (field "finish_reason" choice)
  require (str_eq value "stop" || str_eq value "tool_calls")
  ok (record s { finish_reason = some value })

unfoldable pub take_choice : Codec → Json → Stream → Result ProviderError Stream
take_choice codec first s = do
  choice ← closed_object ("index" ∷ "delta" ∷ "finish_reason" ∷ "logprobs" ∷ []) first
  require (is_zero (field "index" choice) && is_null (field "logprobs" choice))
  delta ←
      closed_object ("role" ∷ "content" ∷ "reasoning_content" ∷ "tool_calls" ∷ [])
        (field "delta" choice)
  require (absent_or (is_text "assistant") "role" delta)
  reasoned ← take_reasoning delta s
  said ← take_content delta reasoned
  called ← take_tool_call codec delta said
  take_finish choice called
