-- ===== src/Capsule/Accepted.antt =====
-- What a response is that ParseOpenAISSE accepts (internal/capsule/sse.go).
use command_prompter_doc_bot.Prelude.{
  ℕ, ◌≤◌, ◌≡◌, subst, inl, inr, String, ◌<>◌, str_eq, true, false, not, ◌&&◌, Option, none, some,
  List, leb, if◌then◌else◌, arith, Bool-cases, Option-cases, ok, err, >>=-eq-ok,
}
use command_prompter_doc_bot.Capsule.Json.{
  Json, Members, array, boolean, null, number, object, parse_strict_json, text,
}
use command_prompter_doc_bot.Capsule.Values.{Codec, invalid_response}
use command_prompter_doc_bot.Capsule.Stream.{ResponseLimits, Stream, Usage, no_stream}
use command_prompter_doc_bot.Capsule.Schema.{Schema, is_nil, valid}
use command_prompter_doc_bot.Capsule.Events.{decoded, events_of, take_events}
use command_prompter_doc_bot.Capsule.Responses.{
  AcceptedResponse, Outcome, PendingToolCall, Validators, accept_stream, arguments_of,
  content_outcome, encode_event, join, normalize, parse_openai_sse, tool_outcome, validator,
  with_reasoning,
}
use command_prompter_doc_bot.Capsule.Accounting.{Coherent, require-ok}
use command_prompter_doc_bot.Capsule.Counting.{Sound, take_events-Sound}
use Prim.Native.String.{len}

-- A call of a granted tool, with arguments that its schema allows.
pub record Granted (codec : Codec) (validators : Validators) (p : PendingToolCall) : Type 0 where
  pub named : str_eq p.name "" ≡ false
  pub schema : Schema
  pub granted : validator p.name validators ≡ some schema
  pub allowed : valid codec schema (object p.arguments) ≡ true

-- What is accepted: usage that adds up, a bounded text, and a granted call if there is one.
pub record Sane (limits : ResponseLimits) (codec : Codec) (validators : Validators)
    (r : AcceptedResponse) : Type 0 where
  pub counted : Coherent r.usage
  pub bounded : len r.normalized_sse ≤ limits.max_bytes
  pub called : (p : PendingToolCall) → r.pending ≡ some p → Granted codec validators p

normalize_bound :
    (limits : ResponseLimits) (codec : Codec) (model_id : String) (delta : Members)
    (reason : String) (u : Usage) (s : String)
    → normalize limits codec model_id delta reason u ≡ ok s
    → len s ≤ limits.max_bytes
unfolding normalize
normalize_bound limits codec model_id delta reason u s h =
    let (first, _, a) = >>=-eq-ok (encode_event codec _) _ h in
    let (second, _, b) = >>=-eq-ok (encode_event codec _) _ a in
    let (third, _, c) = >>=-eq-ok (encode_event codec _) _ b in
    let (le, last) =
      require-ok (leb (len (first <> second <> third <> "data: [DONE]\n\n")) limits.max_bytes) _
        c in
    let same : first <> second <> third <> "data: [DONE]\n\n" ≡ s = ground (arith, last) in
    subst (λ x. len x ≤ limits.max_bytes) same (ground (arith, le))

arguments_of-valid :
    (limits : ResponseLimits) (codec : Codec) (schema : Schema) (parts : List String) (ms : Members)
    → arguments_of limits codec schema parts ≡ ok ms
    → valid codec schema (object ms) ≡ true
unfolding arguments_of
arguments_of-valid limits codec schema parts ms h =
    let ((v, keys), _, last) =
      >>=-eq-ok (decoded (parse_strict_json limits.complexity (codec.lex (join parts)))) _ h in
    of_value v last
  where
    of_value :
        (v : Json)
        → elim v [
          | object ns ↦ if valid codec schema (object ns) then ok ns else err invalid_response
          | _ ↦ err invalid_response
        ]
          ≡ ok ms
        → valid codec schema (object ms) ≡ true
    of_value (object ns) e = elim (Bool-cases (valid codec schema (object ns))) [
      | inl suits ↦
          subst (λ x. valid codec schema (object x) ≡ true) (ground (arith, e, suits)) suits
      | inr unfit ↦ absurd (ground (arith, e, unfit))
    ]
    of_value null e = cc
    of_value (boolean b) e = cc
    of_value (number n) e = cc
    of_value (text t) e = cc
    of_value (array xs) e = cc

abbrev pending_call : String → String → Members → PendingToolCall
pending_call call_id name ms = record { call_id = call_id; name = name; arguments = ms }

tool_outcome-Granted :
    (limits : ResponseLimits) (codec : Codec) (validators : Validators) (reason : String)
    (s : Stream) (o : Outcome) (p : PendingToolCall)
    → tool_outcome limits codec validators reason s ≡ ok o
    → o.pending ≡ some p
    → Granted codec validators p
unfolding tool_outcome
tool_outcome-Granted limits codec validators reason s o p h is_p =
    let (complete, a) =
      require-ok
        (str_eq reason "tool_calls" && not (str_eq s.call_name "") && not (is_nil s.argument_parts))
        _ h in
    elim (Option-cases (validator s.call_name validators)) [
      | inl missing ↦ absurd (ground (arith, rw missing at a))
      | inr (schema, there) ↦
          let (ms, read, last) =
            >>=-eq-ok (arguments_of limits codec schema s.argument_parts) _ (rw there at a) in
          let call : pending_call s.call_id s.call_name ms ≡ p = ground (arith, last, is_p) in
          subst (Granted codec validators) call (record {
            named = ground (arith, complete);
            schema = schema;
            granted = there;
            allowed = arguments_of-valid limits codec schema s.argument_parts ms read;
          })
    ]

content_outcome-none :
    (reason : String) (s : Stream) (o : Outcome)
    → content_outcome reason s ≡ ok o
    → o.pending ≡ none
unfolding content_outcome
content_outcome-none reason s o h =
    let (_, last) = require-ok (str_eq reason "stop") _ h in ground (arith, last)

outcome-Granted :
    (limits : ResponseLimits) (codec : Codec) (validators : Validators) (reason : String)
    (s : Stream) (o : Outcome) (p : PendingToolCall)
    → (if s.saw_tool
        then tool_outcome limits codec validators reason s
        else content_outcome reason s)
      ≡ ok o
    → o.pending ≡ some p
    → Granted codec validators p
outcome-Granted limits codec validators reason s o p h is_p = elim (Bool-cases s.saw_tool) [
  | inl tool ↦
      tool_outcome-Granted limits codec validators reason s o p (ground (arith, tool, h)) is_p
  | inr said ↦
      absurd (ground (arith, content_outcome-none reason s o (ground (arith, said, h)), is_p))
]

accept_stream-Sane :
    (limits : ResponseLimits) (codec : Codec) (model_id : String) (validators : Validators)
    (s : Stream) (r : AcceptedResponse)
    → Sound s
    → accept_stream limits codec model_id validators s ≡ ok r
    → Sane limits codec validators r
unfolding accept_stream
accept_stream-Sane limits codec model_id validators s r sound h = elim (Option-cases s.usage) [
  | inl missing ↦ absurd (ground (arith, rw missing at h))
  | inr (u, used) ↦ elim (Option-cases s.finish_reason) [
    | inl running ↦ absurd (ground (arith, rw (used, running) at h))
    | inr (reason, finished) ↦
        let (_, a) =
          require-ok s.is_done _ (rw (used, accept_stream, finished, accept_stream) at h) in
        let (o, came, b) =
          >>=-eq-ok
            (if s.saw_tool
              then tool_outcome limits codec validators reason s
              else content_outcome reason s)
            _ a in
        let (normalized, short, last) =
          >>=-eq-ok
            (normalize limits codec model_id (with_reasoning (join s.reasoning) o.delta) reason u) _
            b in
        let bound =
          normalize_bound limits codec model_id (with_reasoning (join s.reasoning) o.delta) reason u
            normalized short in
        record {
          counted = subst Coherent (ground (arith, last)) (sound u used);
          bounded = subst (λ x. len x ≤ limits.max_bytes) (ground (arith, last)) bound;
          called = λ p is_p.
              outcome-Granted limits codec validators reason s o p came
                (ground (arith, last, is_p));
        }
  ]
]

-- A response that ParseOpenAISSE accepts counts one call of the model, of input and output tokens that
-- add up to at most a billion, its normalized text is within the limit of bytes, and a call that it
-- makes is of a tool that was granted, with arguments that the schema of that tool allows.
pub parse_openai_sse-Sane :
    (limits : ResponseLimits) (codec : Codec) (model_id : String) (validators : Validators)
    (body : Option (List ℕ)) (r : AcceptedResponse)
    → parse_openai_sse limits codec model_id validators body ≡ ok r
    → Sane limits codec validators r
unfolding parse_openai_sse
parse_openai_sse-Sane limits codec model_id validators body r h =
    let (events, _, a) = >>=-eq-ok (events_of limits body) _ h in
    let (s, taken, last) = >>=-eq-ok (take_events limits codec model_id events no_stream) _ a in
    accept_stream-Sane limits codec model_id validators s r
      (take_events-Sound limits codec model_id events no_stream s
        (λ u e. absurd (ground (arith, e))) taken)
      last
