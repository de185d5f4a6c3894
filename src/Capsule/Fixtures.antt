-- ===== src/Capsule/Fixtures.antt =====
-- A codec, a host and rounds for the examples of a session (internal/capsule).
use command_prompter_doc_bot.Prelude.{
  ℕ, String, str_eq, true, false, not, Option, none, some, List, [], ◌∷◌, ◌++◌, ◌==◌, if◌then◌else◌,
  Result,
}
use command_prompter_doc_bot.Capsule.Json.{
  Json, Members, Token, and_member, close_array, close_object, end_members, natural, number,
  number_token, object, open_array, open_object, text, text_token,
}
use command_prompter_doc_bot.Capsule.Values.{Codec}
use command_prompter_doc_bot.Capsule.Stream.{ResponseLimits}
use command_prompter_doc_bot.Capsule.Schema.{Schema, compiled, end_properties, no_schema}
use command_prompter_doc_bot.Capsule.Events.{data_field, done_mark}
use command_prompter_doc_bot.Capsule.Compiling.{SchemaError, between}
use command_prompter_doc_bot.Capsule.Attempt.{Attempt, Tool}
use command_prompter_doc_bot.Capsule.Creating.{Setup, first_attempt, new_openai_attempt}
use command_prompter_doc_bot.Capsule.Session.{Host, Response, Round}

-- `1` is a chunk with a call of `submit_result`, `2` one with a call of `read`, anything else the usage.
abbrev pub call_tokens : String → List Token
call_tokens name =
    open_object
    ∷ text_token "choices"
    ∷ open_array
    ∷ open_object
    ∷ text_token "index"
    ∷ number_token (natural 0)
    ∷ text_token "delta"
    ∷ open_object
    ∷ text_token "tool_calls"
    ∷ open_array
    ∷ open_object
    ∷ text_token "index"
    ∷ number_token (natural 0)
    ∷ text_token "id"
    ∷ text_token "c"
    ∷ text_token "function"
    ∷ open_object
    ∷ text_token "name"
    ∷ text_token name
    ∷ text_token "arguments"
    ∷ text_token "{}"
    ∷ close_object
    ∷ close_object
    ∷ close_array
    ∷ close_object
    ∷ text_token "finish_reason"
    ∷ text_token "tool_calls"
    ∷ close_object
    ∷ close_array
    ∷ close_object
    ∷ []

abbrev pub usage_tokens : List Token
usage_tokens =
    open_object
    ∷ text_token "choices"
    ∷ open_array
    ∷ close_array
    ∷ text_token "usage"
    ∷ open_object
    ∷ text_token "prompt_tokens"
    ∷ number_token (natural 7)
    ∷ text_token "completion_tokens"
    ∷ number_token (natural 5)
    ∷ text_token "total_tokens"
    ∷ number_token (natural 12)
    ∷ close_object
    ∷ close_object
    ∷ []

abbrev pub lexed : List ℕ → List Token
lexed [] = usage_tokens
lexed (c ∷ cs) =
    if c == 49
    then call_tokens "submit_result"
    else if c == 50
    then call_tokens "read"
    else usage_tokens

-- Every text is that of an empty object.
abbrev pub codec : Codec
codec = record {
  lex_line = lexed;
  lex = λ s. open_object ∷ close_object ∷ [];
  encode = λ v. some "{}";
  is_operation_id = λ s. not (str_eq s "");
  compile_pattern = λ s. none;
  less = λ m n. false;
  is_utf8 = λ bs. true;
  bytes = λ s. 123 ∷ 125 ∷ [];
  of_bytes = λ bs. "{}";
  decimal = λ n. "1";
}

abbrev pub limits : ResponseLimits
limits = record {
  max_bytes = 1000;
  max_events = 10;
  max_line_bytes = 100;
  complexity = record { max_depth = 8; max_string_bytes = 64; max_keys = 32 };
}

abbrev pub read_tool : Tool
read_tool = record {
  name = "read";
  description = "Read.";
  parameters = end_members;
  has_handler = true;
}

abbrev pub setup : ℕ → Setup
setup budget = record {
  model_id = "m";
  system_prompt = "s";
  prompt = "p";
  tools = read_tool ∷ [];
  output_schema = end_members;
  sampling_options = end_members;
  reasoning_options = end_members;
  context_window = 4096;
  max_output_tokens = 16;
  max_model_requests = budget;
  limits = limits;
}

abbrev pub made : ℕ → Result SchemaError Attempt
made budget = new_openai_attempt codec (setup budget)

abbrev pub object_schema : Schema
object_schema =
    compiled [] end_properties [] true no_schema
      (record {
        min_items = none;
        max_items = none;
        min_length = none;
        max_length = none;
        in_range = between codec none none;
        pattern = none;
      })
      [] none

abbrev pub attempt : ℕ → Attempt
attempt budget =
    first_attempt (setup budget) end_members end_members (read_tool ∷ [])
      (("read", object_schema) ∷ []) end_members object_schema

abbrev pub body : ℕ → List ℕ
body kind =
    data_field
    ++ kind ∷ 10 ∷ 10 ∷ data_field
    ++ 51 ∷ 10 ∷ 10 ∷ data_field
    ++ done_mark
    ++ 10 ∷ 10 ∷ []

abbrev pub host : Host
host = record {
  codec = codec;
  tools = read_tool ∷ [];
  max_fetches = 4;
  max_model_requests = 4;
  before = λ sep s. s;
  trim_space = λ s. s;
  equal_fold = str_eq;
}

abbrev pub round_of : Members → Option Response → Option Json → Round
round_of message response tool_result = record {
  message = some message;
  response = response;
  tool_result = tool_result;
  is_sent = true;
  at_end = true;
  is_cancelled = false;
}

abbrev pub model_round : String → ℕ → ℕ → Round
model_round id turn kind =
    round_of
      (and_member "type" (text "model_request")
        (and_member "id" (text id) (and_member "turn" (number (natural turn)) end_members)))
      (some (record { status = 200; content_type = "text/event-stream"; body = some (body kind) }))
      none

abbrev pub tool_round : Round
tool_round =
    round_of
      (and_member "type" (text "tool_call") (
        and_member "id" (text "b") (
          and_member "provider_call_id" (text "c") (
            and_member "name" (text "read")
              (and_member "arguments" (object end_members) end_members)))))
      none (some (text "found"))

abbrev pub complete_round : Round
complete_round =
    round_of
      (and_member "type" (text "complete") (and_member "output" (object end_members) end_members))
      none none

abbrev pub rounds : List Round
rounds =
    model_round "a" 1 50 ∷ tool_round ∷ model_round "d" 2 49 ∷ complete_round ∷ complete_round ∷ []
