-- ===== src/Capsule/Turns.antt =====
-- From a tool's result to the next request of the model (internal/capsule/attempt.go).
use command_prompter_doc_bot.Prelude.{
  ◌≤◌, ◌≡◌, refl, sym, ap, subst, inl, inr, String, true, false, ◌&&◌, Option, none, some, [], ◌∷◌,
  ◌++◌, ltb, ◌==◌, arith, Bool-cases, Option-cases, ok,
}
use command_prompter_doc_bot.Capsule.Json.{Json}
use command_prompter_doc_bot.Capsule.Values.{Codec}
use command_prompter_doc_bot.Capsule.Canonical.{canonical_json}
use command_prompter_doc_bot.Capsule.Responses.{PendingToolCall}
use command_prompter_doc_bot.Capsule.Attempt.{
  Attempt, model_request, request_fits, transcript_fits, begun, begin_model, is_await_tool,
  is_ready_model, ready_model,
}
use command_prompter_doc_bot.Capsule.Methods.{
  clone_json, tool_message, envelope_json, envelope_fits, with_result, truncated_more, or_empty,
  with_truncated, with_encoded, accept_tool_result,
}
use command_prompter_doc_bot.Budget.Truncation.{Envelope, envelope}
use command_prompter_doc_bot.Budget.Longest.{truncate_result_total}

-- An attempt whose transcript is one that fitted an attempt of the same settings.
record Sendable (codec : Codec) (b : Attempt) : Type 0 where
  pub ready : b.state ≡ ready_model
  pub no_call : b.pending ≡ none
  pub fits : transcript_fits codec b b.messages ≡ true

request_there :
    (codec : Codec) (b : Attempt) (request : Option String)
    → request_fits codec b request ≡ true
    → (body : String) × (request ≡ some body)
unfolding request_fits
request_there codec b none h = cc
request_there codec b (some body) h = (body, refl)

Sendable-begin_model :
    (codec : Codec) (b : Attempt)
    → Sendable codec b
    → b.next_turn ≤ b.max_model_requests
    → (body : String) × (request_fits codec b (some body) ≡ true)
      × (begin_model codec b.next_turn b ≡ (ok body, begun b.next_turn b))
unfolding begin_model transcript_fits
Sendable-begin_model codec b s le =
    let (body, there) =
      request_there codec b (model_request codec b b.next_turn b.messages) s.fits in
    let same : model_request codec (begun b.next_turn b) b.next_turn b.messages ≡ some body =
      unfold model_request in there in
    let sent : request_fits codec b (some body) ≡ true = rw there at s.fits in
    let within : ltb b.max_model_requests b.next_turn ≡ false = ground (arith, le) in
    let in_order : (is_ready_model b.state && (b.next_turn == b.next_turn)) ≡ true =
      ground (arith, s.ready) in
    (body, sent, rw (within, in_order, same, sent) refl)

with_result-Sendable :
    (codec : Codec) (a : Attempt) (message : Json)
    → transcript_fits codec a (a.messages ++ message ∷ []) ≡ true
    → Sendable codec (with_result message a)
unfolding transcript_fits model_request request_fits
with_result-Sendable codec a message h = record { ready = refl; no_call = refl; fits = h }

-- The attempt with a result that was cut.
abbrev cut : Codec → PendingToolCall → Envelope → Attempt → Attempt
cut codec p e a =
    with_result (tool_message p.call_id (or_empty (canonical_json codec (envelope_json codec e))))
      (record a { usage = truncated_more a.usage })

cut-Sendable :
    (codec : Codec) (p : PendingToolCall) (e : Envelope) (a : Attempt)
    → envelope_fits codec a p.call_id e ≡ true
    → Sendable codec (cut codec p e a)
unfolding envelope_fits
cut-Sendable codec p e a h = elim (Option-cases (canonical_json codec (envelope_json codec e))) [
  | inl missing ↦ absurd (ground (arith, rw (missing, envelope_fits) at h))
  | inr (content, there) ↦
      let fits : transcript_fits codec a (a.messages ++ tool_message p.call_id content ∷ [])
          ≡ true =
        rw (there, envelope_fits) at h in
      subst
        (λ x. Sendable codec (
          with_result (tool_message p.call_id (or_empty x))
            (record a { usage = truncated_more a.usage })))
        (sym there)
        (with_result-Sendable codec (record a { usage = truncated_more a.usage })
          (tool_message p.call_id content)
          (unfold transcript_fits request_fits model_request in fits))
]

with_truncated-Sendable :
    (codec : Codec) (p : PendingToolCall) (encoded : String) (a b : Attempt) (r : String × Json)
    → with_truncated codec p encoded a ≡ (ok r, b)
    → Sendable codec b
unfolding with_truncated
with_truncated-Sendable codec p encoded a b r h =
    elim (truncate_result_total (codec.bytes encoded) (envelope_fits codec a p.call_id)) [
      | inl (_, refused) ↦ absurd (ground (arith, rw (refused, with_truncated) at h))
      | inr (bytes, k, _, _, fit, done) ↦
          let e = envelope (codec.bytes encoded) bytes in
          let same : cut codec p e a ≡ b = ap (λ x. x.1) (rw (done, with_truncated) at h) in
          subst (Sendable codec) same (cut-Sendable codec p e a fit)
    ]

with_encoded-Sendable :
    (codec : Codec) (p : PendingToolCall) (cloned : Json) (encoded : String) (a b : Attempt)
    (r : String × Json)
    → with_encoded codec p cloned encoded a ≡ (ok r, b)
    → Sendable codec b
unfolding with_encoded
with_encoded-Sendable codec p cloned encoded a b r h =
    elim (Bool-cases
      (transcript_fits codec a (a.messages ++ tool_message p.call_id encoded ∷ []))) [
        | inl fits ↦
            let same : with_result (tool_message p.call_id encoded) a ≡ b =
              ap (λ x. x.1) (rw (fits, with_encoded) at h) in
            subst (Sendable codec) same
              (with_result-Sendable codec a (tool_message p.call_id encoded) fits)
        | inr over ↦ with_truncated-Sendable codec p encoded a b r (rw (over, with_encoded) at h)
      ]

accept_tool_result-Sendable :
    (codec : Codec) (result : Json) (a b : Attempt) (r : String × Json)
    → accept_tool_result codec result a ≡ (ok r, b)
    → Sendable codec b
unfolding accept_tool_result
accept_tool_result-Sendable codec result a b r h = elim (Option-cases a.pending) [
  | inl missing ↦ absurd (ground (arith, h, missing))
  | inr (p, there) ↦ elim (Bool-cases (is_await_tool a.state)) [
    | inr other ↦ absurd (ground (arith, h, there, other))
    | inl awaiting ↦ elim (Option-cases (clone_json codec a.response_limits result)) [
      | inl bad ↦ absurd (ground (arith, h, there, awaiting, bad))
      | inr (cloned, read) ↦ elim (Option-cases (canonical_json codec cloned)) [
        | inl bad ↦ absurd (ground (arith, h, there, awaiting, read, bad))
        | inr (encoded, written) ↦
            with_encoded-Sendable codec p cloned encoded a b r
              (ground (arith, h, there, awaiting, read, written))
      ]
    ]
  ]
]

-- After a tool's result was accepted, however long it was, the attempt has no pending call and the next
-- request of the model is made: its turn, if the budget of requests has one left, begins with a body
-- that is within the limit of bytes and leaves room in the window for the answer.
pub accept_tool_result-begin_model :
    (codec : Codec) (result : Json) (a b : Attempt) (r : String × Json)
    → accept_tool_result codec result a ≡ (ok r, b)
    → b.next_turn ≤ b.max_model_requests
    → (b.pending ≡ none)
      × ((body : String) × (request_fits codec b (some body) ≡ true)
          × (begin_model codec b.next_turn b ≡ (ok body, begun b.next_turn b)))
accept_tool_result-begin_model codec result a b r h le =
    let s = accept_tool_result-Sendable codec result a b r h in
    (s.no_call, Sendable-begin_model codec b s le)
