-- ===== src/Capsule/Responses.antt =====
-- The response that ParseOpenAISSE accepts, and its normalized events (internal/capsule/sse.go).
use command_prompter_doc_bot.Prelude.{
  ℕ, String, ◌<>◌, str_eq, not, ◌&&◌, Option, none, some, List, [], ◌∷◌, leb, if◌then◌else◌, Result,
  ok, err, ◌>>=◌, ◌>>◌,
}
use command_prompter_doc_bot.Capsule.Json.{
  natural, Json, Members, null, number, text, array, object, end_items, and_item, end_members,
  and_member, parse_strict_json,
}
use command_prompter_doc_bot.Capsule.Canonical.{canonical_json}
use command_prompter_doc_bot.Capsule.Values.{Codec, ProviderError, invalid_response}
use command_prompter_doc_bot.Capsule.Schema.{Schema, valid, is_nil}
use command_prompter_doc_bot.Capsule.Stream.{ResponseLimits, Usage, Stream, no_stream, require}
use command_prompter_doc_bot.Capsule.Events.{events_of, decoded, take_events}
use Prim.Native.String.{len}

pub record PendingToolCall : Type 0 where
  pub call_id : String
  pub name : String
  pub arguments : Members

pub record AcceptedResponse : Type 0 where
  pub normalized_sse : String
  pub assistant_message : Members
  pub pending : Option PendingToolCall
  pub usage : Usage

abbrev pub Validators : Type 0
Validators = List (String × Schema)

unfoldable pub validator : String → Validators → Option Schema
validator name [] = none
validator name ((s, schema) ∷ rest) =
    let others = validator name rest in if str_eq s name then some schema else others

unfoldable pub join : List String → String
join [] = ""
join (s ∷ ss) = s <> join ss

abbrev pub with_reasoning : String → Members → Members
with_reasoning joined ms =
    if str_eq joined "" then ms else and_member "reasoning_content" (text joined) ms

abbrev pub single_item : Json → Json
single_item v = array (and_item v end_items)

-- The function of a call, with its arguments as text.
abbrev pub function_of : String → String → Json
function_of name canonical =
    object (and_member "name" (text name) (and_member "arguments" (text canonical) end_members))

abbrev pub chunk_of : String → Json → Members → Json
chunk_of model_id choices rest = object (
    and_member "id" (text "host-normalized") (
      and_member "object" (text "chat.completion.chunk")
        (and_member "model" (text model_id) (and_member "choices" choices rest))))

abbrev pub choice_of : Members → Json → Json
choice_of delta finish = object (
    and_member "index" (number (natural 0))
      (and_member "delta" (object delta) (and_member "finish_reason" finish end_members)))

abbrev pub usage_of : Usage → Members
usage_of u =
    and_member "usage"
      (object (
        and_member "prompt_tokens" (number (natural u.input_tokens)) (
          and_member "completion_tokens" (number (natural u.output_tokens))
            (and_member "total_tokens" (number (natural u.total_tokens)) end_members))))
      end_members

unfoldable pub encode_event : Codec → Json → Result ProviderError String
encode_event codec v = elim (canonical_json codec v) [
  | none ↦ err invalid_response
  | some encoded ↦ ok ("data: " <> encoded <> "\n\n")
]

unfoldable pub normalize :
    ResponseLimits → Codec → String → Members → String → Usage → Result ProviderError String
normalize limits codec model_id delta reason u = do
  first ← encode_event codec (chunk_of model_id (single_item (choice_of delta null)) end_members)
  second ←
      encode_event codec
        (chunk_of model_id (single_item (choice_of end_members (text reason))) end_members)
  third ← encode_event codec (chunk_of model_id (array end_items) (usage_of u))
  let normalized = first <> second <> third <> "data: [DONE]\n\n"
  require (leb (len normalized) limits.max_bytes)
  ok normalized

-- What the stream comes to: the call or none, the message, and the delta of the normalized event.
pub record Outcome : Type 0 where
  pub pending : Option PendingToolCall
  pub message : Members
  pub delta : Members

unfoldable pub arguments_of :
    ResponseLimits → Codec → Schema → List String → Result ProviderError Members
arguments_of limits codec schema parts = do
  (v, keys) ← decoded (parse_strict_json limits.complexity (codec.lex (join parts)))
  elim v [
    | object ms ↦ if valid codec schema (object ms) then ok ms else err invalid_response
    | _ ↦ err invalid_response
  ]

abbrev pub canonical : Codec → Members → String
canonical codec ms = elim (canonical_json codec (object ms)) [ none ↦ "" | some s ↦ s ]

abbrev pub call_of : Members → String → String → String → Json
call_of index id name arguments = object (
    and_member "id" (text id) (
      and_member "type" (text "function")
        (and_member "function" (function_of name arguments) index)))

unfoldable pub tool_outcome :
    ResponseLimits → Codec → Validators → String → Stream → Result ProviderError Outcome
tool_outcome limits codec validators reason s = do
  require
      (str_eq reason "tool_calls" && not (str_eq s.call_name "") && not (is_nil s.argument_parts))
  elim (validator s.call_name validators) [
    | none ↦ err invalid_response
    | some schema ↦ do
      ms ← arguments_of limits codec schema s.argument_parts
      let as_text = canonical codec ms
      ok (record {
        pending = some (record { call_id = s.call_id; name = s.call_name; arguments = ms });
        message = and_member "role" (text "assistant") (
            and_member "content" null (
              and_member "tool_calls"
                (single_item (call_of end_members s.call_id s.call_name as_text)) end_members));
        delta = and_member "role" (text "assistant") (
            and_member "tool_calls"
              (single_item (
                call_of (and_member "index" (number (natural 0)) end_members) s.call_id s.call_name
                  as_text))
              end_members);
      })
  ]

unfoldable pub content_outcome : String → Stream → Result ProviderError Outcome
content_outcome reason s = do
  require (str_eq reason "stop")
  let said =
      and_member "role" (text "assistant")
        (and_member "content" (text (join s.content)) end_members)
  ok (record { pending = none; message = said; delta = said })

unfoldable pub accept_stream :
    ResponseLimits → Codec → String → Validators → Stream → Result ProviderError AcceptedResponse
accept_stream limits codec model_id validators s = elim s.usage [
  | none ↦ err invalid_response
  | some u ↦ elim s.finish_reason [
    | none ↦ err invalid_response
    | some reason ↦ do
      require s.is_done
      o ←
          if s.saw_tool
          then tool_outcome limits codec validators reason s
          else content_outcome reason s
      let joined = join s.reasoning
      normalized ← normalize limits codec model_id (with_reasoning joined o.delta) reason u
      ok (record {
        normalized_sse = normalized;
        assistant_message = with_reasoning joined o.message;
        pending = o.pending;
        usage = u;
      })
  ]
]

unfoldable pub parse_openai_sse :
    ResponseLimits
    → Codec
    → String
    → Validators
    → Option (List ℕ)
    → Result ProviderError AcceptedResponse
parse_openai_sse limits codec model_id validators body = do
  events ← events_of limits body
  s ← take_events limits codec model_id events no_stream
  accept_stream limits codec model_id validators s
