-- ===== src/Capsule/Attempt.antt =====
-- OpenAIAttempt (internal/capsule/attempt.go). A method is a function from the attempt before to its
-- result and the attempt after, as a method that fails may have changed the attempt.
use command_prompter_doc_bot.Prelude.{
  ℕ, ◌+◌, ◌-◌, String, ◌<>◌, Bool, true, false, not, ◌&&◌, Option, none, some, List, [], ◌∷◌, ◌++◌,
  ◌==◌, ltb, leb, if◌then◌else◌, Result, ok, err,
}
use command_prompter_doc_bot.Capsule.Json.{
  natural, Json, Items, Members, boolean, number, text, array, object, end_items, and_item,
  end_members, and_member,
}
use command_prompter_doc_bot.Capsule.Canonical.{canonical_json}
use command_prompter_doc_bot.Capsule.Values.{Codec}
use command_prompter_doc_bot.Capsule.Schema.{Schema}
use command_prompter_doc_bot.Capsule.Stream.{ResponseLimits, Usage}
use command_prompter_doc_bot.Capsule.Responses.{PendingToolCall, Validators}
use command_prompter_doc_bot.Budget.Truncation.{fits_window, default_safety_tokens}
use Prim.Native.String.{len}

pub data AttemptState : Type 0 where
  ready_model model_in_flight await_tool await_complete terminal failed cancelled : AttemptState

pub record Tool : Type 0 where
  pub name : String
  pub description : String
  pub parameters : Members
  pub has_handler : Bool

pub record Attempt : Type 0 where
  pub state : AttemptState
  pub usage : Usage
  pub model_id : String
  pub sampling_options : Members
  pub reasoning_options : Members
  pub context_window : ℕ
  pub max_output_tokens : ℕ
  pub max_model_requests : ℕ
  pub response_limits : ResponseLimits
  pub messages : List Json
  pub tools : List Tool
  pub output_schema : Members
  pub validators : Validators
  pub output_validator : Schema
  pub pending : Option PendingToolCall
  pub next_turn : ℕ
  pub current_turn : ℕ

pub data AttemptError : Type 0 where
  attempt_failed : AttemptError

abbrev pub Method : Type 0 → Type 0
Method A = Attempt → Result AttemptError A × Attempt

abbrev pub add_usage : Usage → Usage → Usage
add_usage u v = record {
  model_calls = u.model_calls + v.model_calls;
  input_tokens = u.input_tokens + v.input_tokens;
  output_tokens = u.output_tokens + v.output_tokens;
  total_tokens = u.total_tokens + v.total_tokens;
  truncated_tool_results = u.truncated_tool_results + v.truncated_tool_results;
}

abbrev pub items_of : List Json → Items
items_of [] = end_items
items_of (v ∷ vs) = and_item v (items_of vs)

abbrev pub append_members : Members → Members → Members
append_members end_members ns = ns
append_members (and_member s v ms) ns = and_member s v (append_members ms ns)

abbrev pub message_of : String → Json → Json
message_of role content =
    object (and_member "role" (text role) (and_member "content" content end_members))

abbrev pub function_tool : String → String → Members → Json
function_tool name description parameters = object (
    and_member "type" (text "function") (
      and_member "function"
        (object (
          and_member "name" (text name) (
            and_member "description" (text description) (
              and_member "parameters" (object parameters)
                (and_member "strict" (boolean true) end_members)))))
        end_members))

abbrev pub tool_items : List Tool → Items → Items
tool_items [] rest = rest
tool_items (t ∷ ts) rest =
    and_item (function_tool t.name t.description t.parameters) (tool_items ts rest)

abbrev pub submit_choice : Json
submit_choice = object (
    and_member "type" (text "function") (
      and_member "function" (object (and_member "name" (text "submit_result") end_members))
        end_members))

abbrev pub budget_notice : Codec → ℕ → String
budget_notice codec remaining =
    "Host model-request budget: "
    <> codec.decimal remaining
    <> " request(s), including this one, remain. Inspect only what is essential and leave enough time to call submit_result with one complete valid result. On the final request, call submit_result and do not request a source tool."

-- The names of the options are neither those of the body nor those of each other, so that none
-- replaces another.
unfoldable pub model_request : Codec → Attempt → ℕ → List Json → Option String
model_request codec a turn transcript =
    let remaining = (a.max_model_requests + 1) - turn in
    let messages = transcript ++ message_of "user" (text (budget_notice codec remaining)) ∷ [] in
    let submit =
      function_tool "submit_result" "Validate and submit the final structured result."
        a.output_schema in
    canonical_json codec (
      object (
        append_members
          (and_member "model" (text a.model_id) (
            and_member "messages" (array (items_of messages)) (
              and_member "stream" (boolean true) (
                and_member "stream_options"
                  (object (and_member "include_usage" (boolean true) end_members))
                  (and_member "n" (number (natural 1)) (
                    and_member "tools" (array (tool_items a.tools (and_item submit end_items))) (
                      and_member "tool_choice"
                        (if turn == a.max_model_requests then submit_choice else text "required")
                        (and_member "parallel_tool_calls" (boolean false) (
                          and_member "max_tokens" (number (natural a.max_output_tokens))
                            end_members)))))))))
          (append_members a.sampling_options a.reasoning_options)))

-- A request within the size of a response and the window of the model.
unfoldable pub request_fits : Codec → Attempt → Option String → Bool
request_fits codec a none = false
request_fits codec a (some encoded) =
    leb (len encoded) a.response_limits.max_bytes
    && fits_window (codec.bytes encoded) a.context_window a.max_output_tokens default_safety_tokens

unfoldable pub transcript_fits : Codec → Attempt → List Json → Bool
transcript_fits codec a messages = request_fits codec a (model_request codec a a.next_turn messages)

abbrev pub is_ready_model : AttemptState → Bool
is_ready_model ready_model = true
is_ready_model _ = false

abbrev pub is_in_flight : AttemptState → Bool
is_in_flight model_in_flight = true
is_in_flight _ = false

abbrev pub is_await_tool : AttemptState → Bool
is_await_tool await_tool = true
is_await_tool _ = false

abbrev pub is_await_complete : AttemptState → Bool
is_await_complete await_complete = true
is_await_complete _ = false

abbrev pub refuse : {A : Type 0} → Method A
refuse a = (err attempt_failed, a)

abbrev pub begun : ℕ → Attempt → Attempt
begun turn a = record a { state = model_in_flight; current_turn = turn; next_turn = turn + 1 }

unfoldable pub begin_model : Codec → ℕ → Method String
begin_model codec turn a =
    if ltb a.max_model_requests turn
    then refuse a
    else if not (is_ready_model a.state && (turn == a.next_turn))
    then refuse a
    else let encoded = model_request codec (begun turn a) turn a.messages in
      if request_fits codec a encoded
      then elim encoded [ none ↦ refuse (begun turn a) | some body ↦ (ok body, begun turn a) ]
      else refuse (begun turn a)
