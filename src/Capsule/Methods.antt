-- ===== src/Capsule/Methods.antt =====
-- The other methods of OpenAIAttempt (internal/capsule/attempt.go), and the calls of a session on it.
use command_prompter_doc_bot.Prelude.{
  ℕ, ◌+◌, String, str_eq, Bool, true, false, not, ◌&&◌, Option, none, some, List, [], ◌∷◌, ◌++◌,
  ◌==◌, if◌then◌else◌, Result, ok, err,
}
use command_prompter_doc_bot.Capsule.Json.{
  natural, Json, Members, boolean, number, text, object, end_members, and_member, parse_strict_json,
}
use command_prompter_doc_bot.Capsule.Canonical.{canonical_json}
use command_prompter_doc_bot.Capsule.Values.{Codec}
use command_prompter_doc_bot.Capsule.Schema.{valid, same_json}
use command_prompter_doc_bot.Capsule.Stream.{ResponseLimits, Usage}
use command_prompter_doc_bot.Capsule.Responses.{PendingToolCall, AcceptedResponse, parse_openai_sse}
use command_prompter_doc_bot.Capsule.Attempt.{
  ready_model, await_tool, await_complete, terminal, failed, cancelled, Attempt, AttemptError,
  attempt_failed, Method, add_usage, transcript_fits, is_in_flight, is_await_tool,
  is_await_complete, refuse,
}
use command_prompter_doc_bot.Budget.Truncation.{Envelope, truncate_result}

-- The attempt with an accepted response.
abbrev pub accepted : AcceptedResponse → PendingToolCall → Attempt → Attempt
accepted r p a = record a {
  messages = a.messages ++ object r.assistant_message ∷ [];
  pending = some p;
  state = if str_eq p.name "submit_result" then await_complete else await_tool;
}

unfoldable pub accept_model : Codec → Option (List ℕ) → Method String
accept_model codec body a =
    if not (is_in_flight a.state)
    then refuse a
    else elim (parse_openai_sse a.response_limits codec a.model_id a.validators body) [
      | err e ↦ refuse a
      | ok r ↦
          let b = record a { usage = add_usage a.usage r.usage } in
          elim r.pending [
            | none ↦ refuse b
            | some p ↦
                if (b.current_turn == b.max_model_requests) && not (str_eq p.name "submit_result")
                then refuse b
                else (ok r.normalized_sse, accepted r p b)
          ]
    ]

abbrev pub same_text : Json → String → Bool
same_text (text s) t = str_eq s t
same_text _ t = false

unfoldable pub validate_tool_call :
    Codec → Json → Json → Json → Attempt → Result AttemptError PendingToolCall
validate_tool_call codec provider_call_id name arguments a = elim a.pending [
  | none ↦ err attempt_failed
  | some p ↦
      if is_await_tool a.state
        && same_text provider_call_id p.call_id
        && same_text name p.name
        && same_json codec arguments (object p.arguments)
      then ok p
      else err attempt_failed
]

-- cloneJSON
unfoldable pub clone_json : Codec → ResponseLimits → Json → Option Json
clone_json codec limits v = elim (canonical_json codec v) [
  | none ↦ none
  | some encoded ↦ elim (parse_strict_json limits.complexity (codec.lex encoded)) [
    | err e ↦ none
    | ok (w, keys) ↦ some w
  ]
]

abbrev pub tool_message : String → String → Json
tool_message call_id content = object (
    and_member "role" (text "tool")
      (and_member "tool_call_id" (text call_id) (and_member "content" (text content) end_members)))

abbrev pub envelope_json : Codec → Envelope → Json
envelope_json codec e = object (
    and_member "content_prefix" (text (codec.of_bytes e.content_prefix)) (
      and_member "original_bytes" (number (natural e.original_bytes))
        (and_member "truncated" (boolean e.truncated) end_members)))

-- Whether the transcript fits with a truncated result.
unfoldable pub envelope_fits : Codec → Attempt → String → Envelope → Bool
envelope_fits codec a call_id e = elim (canonical_json codec (envelope_json codec e)) [
  | none ↦ false
  | some content ↦ transcript_fits codec a (a.messages ++ tool_message call_id content ∷ [])
]

abbrev pub with_result : Json → Attempt → Attempt
with_result message a = record a {
  messages = a.messages ++ message ∷ [];
  pending = none;
  state = ready_model;
}

abbrev pub truncated_more : Usage → Usage
truncated_more u = record u { truncated_tool_results = u.truncated_tool_results + 1 }

abbrev pub or_empty : Option String → String
or_empty none = ""
or_empty (some s) = s

unfoldable pub with_truncated : Codec → PendingToolCall → String → Method (String × Json)
with_truncated codec p encoded a =
    elim (truncate_result (codec.bytes encoded) (envelope_fits codec a p.call_id)) [
      | none ↦ refuse a
      | some (err e) ↦ refuse a
      | some (ok e) ↦
          let content = or_empty (canonical_json codec (envelope_json codec e)) in
          (
            ok (content, envelope_json codec e),
            with_result (tool_message p.call_id content)
                (record a { usage = truncated_more a.usage }),
          )
    ]

unfoldable pub with_encoded : Codec → PendingToolCall → Json → String → Method (String × Json)
with_encoded codec p cloned encoded a =
    if transcript_fits codec a (a.messages ++ tool_message p.call_id encoded ∷ [])
    then (ok (encoded, cloned), with_result (tool_message p.call_id encoded) a)
    else with_truncated codec p encoded a

unfoldable pub accept_tool_result : Codec → Json → Method (String × Json)
accept_tool_result codec result a = elim a.pending [
  | none ↦ refuse a
  | some p ↦
      if not (is_await_tool a.state)
      then refuse a
      else elim (clone_json codec a.response_limits result) [
        | none ↦ refuse a
        | some cloned ↦ elim (canonical_json codec cloned) [
          | none ↦ refuse a
          | some encoded ↦ with_encoded codec p cloned encoded a
        ]
      ]
]

abbrev pub is_object : Json → Bool
is_object (object ms) = true
is_object _ = false

unfoldable pub accept_complete : Codec → Json → Method Members
accept_complete codec output a = elim a.pending [
  | none ↦ refuse a
  | some p ↦
      if is_await_complete a.state
        && str_eq p.name "submit_result"
        && is_object output
        && same_json codec output (object p.arguments)
        && valid codec a.output_validator output
      then (ok p.arguments, record a { pending = none; state = terminal })
      else refuse a
]

unfoldable pub fail : Bool → Attempt → Attempt
fail is_cancelled a = record a { state = if is_cancelled then cancelled else failed }
