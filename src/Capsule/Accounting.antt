-- ===== src/Capsule/Accounting.antt =====
-- The usage that a response reports (internal/capsule/sse.go): only take_usage writes it.
use command_prompter_doc_bot.Prelude.{
  ℕ, zero, suc, ◌+◌, ◌≤◌, ◌≡◌, refl, ◌∙◌, inl, inr, str_eq, Bool, true, false, not, ◌&&◌, ◌||◌,
  ◌==◌, arith, Bool-cases, Option-cases, Result, ok, ◌>>◌, >>=-eq-ok,
}
use command_prompter_doc_bot.Capsule.Json.{
  natural, negative, float, Json, Members, null, boolean, number, text, array, object,
}
use command_prompter_doc_bot.Capsule.Values.{
  Codec, ProviderError, find_member, field, closed_object, is_null, is_text, absent_or, is_zero,
  number_int, text_of, single,
}
use command_prompter_doc_bot.Capsule.Stream.{
  Usage, Stream, require, parse_usage, usage_details, take_reasoning, take_content, take_call_id,
  take_name, take_arguments, take_tool_call, take_finish, take_choice, any_nonempty,
}

pub require-ok :
    {B : Type 0} (b : Bool) (next : Result ProviderError B) {x : B}
    → (require b >> next) ≡ ok x
    → (b ≡ true) × (next ≡ ok x)
require-ok true next h = (refl, h)
require-ok false next h = cc

-- A call of the model, whose tokens add up.
pub record Coherent (u : Usage) : Type 0 where
  pub one_call : u.model_calls ≡ 1
  pub adds_up : u.total_tokens ≡ u.input_tokens + u.output_tokens
  pub few : u.total_tokens ≤ 1000000000

number_int_le : (v : Json) (n : ℕ) → number_int v ≡ ok n → n ≤ 1000000000
unfolding number_int
number_int_le (number (natural m)) n h = ground (arith, h)
number_int_le (number (negative zero)) n h = ground (arith, h)
number_int_le (number (negative (suc m))) n h = cc
number_int_le (number (float s b)) n h = cc
number_int_le null n h = cc
number_int_le (boolean b) n h = cc
number_int_le (text s) n h = cc
number_int_le (array xs) n h = cc
number_int_le (object ms) n h = cc

pub parse_usage-Coherent : (v : Json) (u : Usage) → parse_usage v ≡ ok u → Coherent u
unfolding parse_usage
parse_usage-Coherent v u h =
    let (ms, _, a) = >>=-eq-ok (closed_object _ v) _ h in
    let (_, _, b) = >>=-eq-ok (usage_details ms) _ a in
    let (input, _, c) = >>=-eq-ok (number_int (field "prompt_tokens" ms)) _ b in
    let (output, _, d) = >>=-eq-ok (number_int (field "completion_tokens" ms)) _ c in
    let (total, few, e) = >>=-eq-ok (number_int (field "total_tokens" ms)) _ d in
    let (adds_up, last) = require-ok (total == input + output) _ e in
    let bound = number_int_le (field "total_tokens" ms) total few in
    record {
      one_call = ground (arith, last);
      adds_up = ground (arith, last, adds_up);
      few = ground (arith, last, bound);
    }

-- The stream after, with the usage of the one before.
abbrev Keeps : Stream → Stream → Type 0
Keeps s t = t.usage ≡ s.usage

take_reasoning-Keeps : (delta : Members) (s t : Stream) → take_reasoning delta s ≡ ok t → Keeps s t
unfolding take_reasoning
take_reasoning-Keeps delta s t h = elim (Bool-cases (is_null (field "reasoning_content" delta))) [
  | inl absent ↦ ground (arith, h, absent)
  | inr present ↦
      let (value, _, last) =
        >>=-eq-ok (text_of (field "reasoning_content" delta)) _ (rw present at h) in
      elim (Bool-cases (str_eq value "")) [
        | inl empty ↦ ground (arith, last, empty)
        | inr full ↦ ground (arith, last, full)
      ]
]

take_content-Keeps : (delta : Members) (s t : Stream) → take_content delta s ≡ ok t → Keeps s t
unfolding take_content
take_content-Keeps delta s t h = elim (Bool-cases (is_null (field "content" delta))) [
  | inl absent ↦ ground (arith, h, absent)
  | inr present ↦
      let (value, _, more) = >>=-eq-ok (text_of (field "content" delta)) _ (rw present at h) in
      let (_, last) = require-ok (not (s.saw_tool && not (str_eq value ""))) _ more in
      ground (arith, last)
]

take_call_id-Keeps :
    (codec : Codec) (call : Members) (s t : Stream) → take_call_id codec call s ≡ ok t → Keeps s t
unfolding take_call_id
take_call_id-Keeps codec call s t h = elim (Option-cases (find_member "id" call)) [
  | inl absent ↦ ground (arith, h, absent)
  | inr (v, present) ↦
      let (candidate, _, more) = >>=-eq-ok (text_of v) _ (rw (present, take_call_id) at h) in
      let (_, last) =
        require-ok
          (codec.is_operation_id candidate && (str_eq s.call_id "" || str_eq candidate s.call_id)) _
          more in
      ground (arith, last)
]

take_name-Keeps : (function : Members) (s t : Stream) → take_name function s ≡ ok t → Keeps s t
unfolding take_name
take_name-Keeps function s t h = elim (Option-cases (find_member "name" function)) [
  | inl absent ↦ ground (arith, h, absent)
  | inr (v, present) ↦
      let (candidate, _, more) = >>=-eq-ok (text_of v) _ (rw (present, take_name) at h) in
      let (_, last) = require-ok (str_eq s.call_name "" || str_eq candidate s.call_name) _ more in
      ground (arith, last)
]

take_arguments-Keeps :
    (function : Members) (s t : Stream) → take_arguments function s ≡ ok t → Keeps s t
unfolding take_arguments
take_arguments-Keeps function s t h = elim (Option-cases (find_member "arguments" function)) [
  | inl absent ↦ ground (arith, h, absent)
  | inr (v, present) ↦
      let (part, _, last) = >>=-eq-ok (text_of v) _ (rw (present, take_arguments) at h) in
      ground (arith, last)
]

take_tool_call-Keeps :
    (codec : Codec) (delta : Members) (s t : Stream)
    → take_tool_call codec delta s ≡ ok t
    → Keeps s t
unfolding take_tool_call
take_tool_call-Keeps codec delta s t h = elim (Option-cases (find_member "tool_calls" delta)) [
  | inl absent ↦ ground (arith, h, absent)
  | inr (calls, present) ↦
      let (first, _, a) = >>=-eq-ok (single calls) _ (rw (present, take_tool_call) at h) in
      let (_, b) = require-ok (not (any_nonempty s.content)) _ a in
      let (call, _, c) = >>=-eq-ok (closed_object _ first) _ b in
      let (_, d) =
        require-ok
          (is_zero (field "index" call)
            && (is_null (field "type" call) || is_text "function" (field "type" call)))
          _ c in
      let (with_id, one, e) =
        >>=-eq-ok (take_call_id codec call (record s { saw_tool = true })) _ d in
      let (function, _, f) = >>=-eq-ok (closed_object _ (field "function" call)) _ e in
      let (with_name, two, last) = >>=-eq-ok (take_name function with_id) _ f in
      take_arguments-Keeps function with_name t last
      ∙ take_name-Keeps function with_id with_name two
      ∙ take_call_id-Keeps codec call (record s { saw_tool = true }) with_id one
]

take_finish-Keeps : (choice : Members) (s t : Stream) → take_finish choice s ≡ ok t → Keeps s t
unfolding take_finish
take_finish-Keeps choice s t h = elim (Bool-cases (is_null (field "finish_reason" choice))) [
  | inl absent ↦ ground (arith, h, absent)
  | inr present ↦
      let (value, _, more) =
        >>=-eq-ok (text_of (field "finish_reason" choice)) _ (rw present at h) in
      let (_, last) = require-ok (str_eq value "stop" || str_eq value "tool_calls") _ more in
      ground (arith, last)
]

pub take_choice-usage :
    (codec : Codec) (first : Json) (s t : Stream)
    → take_choice codec first s ≡ ok t
    → t.usage ≡ s.usage
unfolding take_choice
take_choice-usage codec first s t h =
    let (choice, _, a) = >>=-eq-ok (closed_object _ first) _ h in
    let (_, b) =
      require-ok (is_zero (field "index" choice) && is_null (field "logprobs" choice)) _ a in
    let (delta, _, c) = >>=-eq-ok (closed_object _ (field "delta" choice)) _ b in
    let (_, d) = require-ok (absent_or (is_text "assistant") "role" delta) _ c in
    let (reasoned, one, e) = >>=-eq-ok (take_reasoning delta s) _ d in
    let (said, two, f) = >>=-eq-ok (take_content delta reasoned) _ e in
    let (called, three, last) = >>=-eq-ok (take_tool_call codec delta said) _ f in
    take_finish-Keeps choice called t last
    ∙ take_tool_call-Keeps codec delta said called three
    ∙ take_content-Keeps delta reasoned said two
    ∙ take_reasoning-Keeps delta s reasoned one
