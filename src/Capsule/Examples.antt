-- ===== src/Capsule/Examples.antt =====
-- A session with a model that submits at once (internal/capsule).
use command_prompter_doc_bot.Prelude.{
  ◌+◌, ◌≤◌, ◌≡◌, refl, ◌↔◌, ◌⊎◌, String, Bool, true, false, Option, none, some, [], ◌∷◌, ◌++◌, ◌==◌,
  byte_length, arith, ok,
}
use command_prompter_doc_bot.Capsule.Json.{
  Members, and_member, at_end, close_object, decode_items, decode_members, decode_value,
  end_members, null, object, open_object, parse_strict_json, text,
}
use command_prompter_doc_bot.Capsule.Json.Printing.{Fits, emit, key_count}
use command_prompter_doc_bot.Capsule.Json.Refusing.{parse_strict_json_iff}
use command_prompter_doc_bot.Capsule.Values.{
  absent_or, closed_object, number_int, only_names, single, text_of,
}
use command_prompter_doc_bot.Capsule.Canonical.{canonical_json, unescape}
use command_prompter_doc_bot.Capsule.Stream.{
  counts_only, parse_usage, take_arguments, take_call_id, take_choice, take_content, take_finish,
  take_name, take_reasoning, take_tool_call, take_usage, usage_details,
}
use command_prompter_doc_bot.Capsule.Schema.{allowed_value, same_json, valid, valid_members}
use command_prompter_doc_bot.Capsule.Events.{
  decoded, ends_with_empty_line, event_data, events_of, only_choice, split_events, take_choices,
  take_chunk, take_event, take_events, take_terminator, unify_newlines,
}
use command_prompter_doc_bot.Capsule.Responses.{
  AcceptedResponse, accept_stream, arguments_of, call_of, content_outcome, encode_event, join,
  normalize, parse_openai_sse, single_item, tool_outcome, validator,
}
use command_prompter_doc_bot.Capsule.Compiling.{
  compile_additional, compile_bounds, compile_count, compile_enum, compile_format, compile_items,
  compile_keywords, compile_number, compile_pattern, compile_properties, compile_required,
  compile_schema, compile_schema_object, compile_types, normalize_json_object,
}
use command_prompter_doc_bot.Capsule.Attempt.{
  Attempt, await_tool, begin_model, begun, model_request, ready_model, request_fits,
  transcript_fits,
}
use command_prompter_doc_bot.Capsule.Creating.{
  compile_tools, new_openai_attempt, validate_sampling_options,
}
use command_prompter_doc_bot.Capsule.Methods.{
  accept_complete, accept_model, accept_tool_result, clone_json, tool_message, validate_tool_call,
  with_encoded, with_truncated,
}
use command_prompter_doc_bot.Capsule.Session.{
  Course, ended, on_complete, on_model_request, on_response, on_tool_call, run, take_round,
  unique_id,
}
use command_prompter_doc_bot.Capsule.Accepted.{Sane, parse_openai_sse-Sane}
use command_prompter_doc_bot.Capsule.Turns.{accept_tool_result-begin_model}
use command_prompter_doc_bot.Capsule.Failing.{Answers, Unheard, failing-Unheard}
use command_prompter_doc_bot.Capsule.Responding.{Finished, Good}
use command_prompter_doc_bot.Capsule.Endings.{run-Good}
use command_prompter_doc_bot.Capsule.Beginning.{
  new_openai_attempt-Kept, run-new_openai_attempt, started,
}
use command_prompter_doc_bot.Capsule.Fixtures.{
  attempt, body, codec, host, limits, made, rounds, setup,
}
use command_prompter_doc_bot.Budget.Truncation.{estimate_tokens, fits_window}

attempt_of_two_made : made 2 ≡ ok (attempt 2)
unfolding new_openai_attempt validate_sampling_options normalize_json_object canonical_json unescape
    compile_schema compile_tools parse_strict_json decode_value decode_members at_end
    compile_schema_object compile_properties compile_items compile_keywords compile_types
    compile_required compile_additional compile_bounds compile_count compile_number compile_pattern
    compile_format compile_enum only_names absent_or
attempt_of_two_made = refl

-- The model reads a source, submits, and the capsule completes.
completes : Course → Bool
completes (ended (some output) a) = a.usage.model_calls == 2
completes _ = false

rounds_complete : completes (run host rounds (started (attempt 2))) ≡ true
unfolding completes run take_round on_model_request on_tool_call on_complete on_response unique_id
    begin_model accept_model validate_tool_call accept_tool_result with_encoded with_truncated
    accept_complete transcript_fits request_fits model_request clone_json canonical_json unescape
    same_json valid allowed_value validator valid_members parse_openai_sse events_of unify_newlines
    split_events ends_with_empty_line byte_length event_data take_event take_events take_terminator
    take_chunk take_choices take_choice take_usage parse_usage usage_details counts_only
    closed_object only_names text_of single number_int absent_or only_choice take_reasoning
    take_content take_tool_call take_call_id take_name take_arguments take_finish accept_stream
    tool_outcome content_outcome arguments_of normalize encode_event join decoded parse_strict_json
    decode_value decode_items decode_members at_end fits_window estimate_tokens
rounds_complete = refl

run-new_openai_attempt_example :
    (output : Option Members) × (b : Attempt) × (run host rounds (started (attempt 2))
      ≡ ended output b)
    × Finished codec output b
    × (b.usage.model_calls ≤ 2)
    × (b.usage.total_tokens ≡ b.usage.input_tokens + b.usage.output_tokens)
run-new_openai_attempt_example =
    run-new_openai_attempt host (setup 2) rounds (attempt 2) attempt_of_two_made (omega arith)

run-Good_example : Good codec 2 (0 + 5) (run host rounds (started (attempt 2)))
run-Good_example =
    let (kept, rests) = new_openai_attempt-Kept codec (setup 2) (attempt 2) attempt_of_two_made in
    run-Good host 2 0 rounds (started (attempt 2)) kept rests

-- The attempt that waits for the result of `read`.
abbrev reading : Attempt
reading = record (attempt 2) {
  state = await_tool;
  next_turn = 2;
  current_turn = 1;
  pending = some (record { call_id = "c"; name = "read"; arguments = end_members });
}

abbrev answered : Attempt
answered = record reading {
  state = ready_model;
  pending = none;
  messages = reading.messages ++ tool_message "c" "{}" ∷ [];
}

found_accepted :
    accept_tool_result codec (text "found") reading ≡ (ok ("{}", object end_members), answered)
unfolding accept_tool_result with_encoded transcript_fits request_fits model_request clone_json
    canonical_json unescape parse_strict_json decode_value decode_members at_end fits_window
    estimate_tokens
found_accepted = refl

accept_tool_result-begin_model_example :
    (answered.pending ≡ none)
    × ((body : String) × (request_fits codec answered (some body) ≡ true)
        × (begin_model codec 2 answered ≡ (ok body, begun 2 answered)))
accept_tool_result-begin_model_example =
    accept_tool_result-begin_model codec (text "found") reading answered ("{}", object end_members)
      found_accepted (omega arith)

abbrev response : AcceptedResponse
response = record {
  normalized_sse = "data: {}\n\ndata: {}\n\ndata: {}\n\ndata: [DONE]\n\n";
  assistant_message = and_member "role" (text "assistant") (
      and_member "content" null
        (and_member "tool_calls" (single_item (call_of end_members "c" "read" "{}")) end_members));
  pending = some (record { call_id = "c"; name = "read"; arguments = end_members });
  usage = record {
    model_calls = 1;
    input_tokens = 7;
    output_tokens = 5;
    total_tokens = 12;
    truncated_tool_results = 0;
  };
}

response_parsed :
    parse_openai_sse limits codec "m" (attempt 2).validators (some (body 50)) ≡ ok response
unfolding canonical_json unescape same_json valid allowed_value validator valid_members
    parse_openai_sse events_of unify_newlines split_events ends_with_empty_line byte_length
    event_data take_event take_events take_terminator take_chunk take_choices take_choice take_usage
    parse_usage usage_details counts_only closed_object only_names text_of single number_int
    absent_or only_choice take_reasoning take_content take_tool_call take_call_id take_name
    take_arguments take_finish accept_stream tool_outcome content_outcome arguments_of normalize
    encode_event join decoded parse_strict_json decode_value decode_items decode_members at_end
response_parsed = refl

parse_openai_sse-Sane_example : Sane limits codec (attempt 2).validators response
parse_openai_sse-Sane_example =
    parse_openai_sse-Sane limits codec "m" (attempt 2).validators (some (body 50)) response
      response_parsed

parse_strict_json_iff_example :
    (parse_strict_json limits.complexity (open_object ∷ close_object ∷ [])
      ≡ ok (object end_members, 0))
    ↔ ((open_object ∷ close_object ∷ [] ≡ emit (object end_members) [])
        × Fits limits.complexity 1 (object end_members)
        × (0 ≡ key_count (object end_members))
        × (key_count (object end_members) ≤ limits.complexity.max_keys))
parse_strict_json_iff_example =
    parse_strict_json_iff limits.complexity (open_object ∷ close_object ∷ []) (object end_members) 0

failing-Unheard_example :
    (Answers (begin_model codec 2 reading) ⊎ Unheard reading (begin_model codec 2 reading).1)
    × (Answers (accept_model codec none reading)
        ⊎ (Unheard reading (accept_model codec none reading).1
            × ((accept_model codec none reading).1.state ≡ await_tool)))
    × (Answers (accept_tool_result codec (text "found") reading)
        ⊎ ((accept_tool_result codec (text "found") reading).1 ≡ reading))
    × (Answers (accept_complete codec null reading)
        ⊎ ((accept_complete codec null reading).1 ≡ reading))
failing-Unheard_example = failing-Unheard codec reading 2 none (text "found") null
