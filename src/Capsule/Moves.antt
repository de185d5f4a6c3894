-- ===== src/Capsule/Moves.antt =====
-- What the methods of an attempt do, case by case (internal/capsule/attempt.go).
use command_prompter_doc_bot.Prelude.{
  ℕ, ◌≤◌, ◌≡◌, refl, ◌∙◌, ◌⊎◌, inl, inr, String, str_eq, Bool, true, false, not, ◌&&◌, Option, none,
  some, List, [], ◌∷◌, ◌++◌, ◌==◌, ltb, if◌then◌else◌, arith, Bool-cases, Option-cases, Result,
  Result-cases, ok,
}
use command_prompter_doc_bot.Capsule.Json.{Json, object}
use command_prompter_doc_bot.Capsule.Values.{Codec}
use command_prompter_doc_bot.Capsule.Canonical.{canonical_json}
use command_prompter_doc_bot.Capsule.Schema.{same_json, valid}
use command_prompter_doc_bot.Capsule.Responses.{PendingToolCall, AcceptedResponse, parse_openai_sse}
use command_prompter_doc_bot.Capsule.Attempt.{
  Attempt, AttemptError, add_usage, model_request, request_fits, transcript_fits, begun,
  begin_model, is_in_flight, is_await_tool, is_await_complete, is_ready_model, refuse, terminal,
}
use command_prompter_doc_bot.Capsule.Methods.{
  accepted, accept_model, clone_json, envelope_fits, tool_message, envelope_json, or_empty,
  with_result, truncated_more, with_truncated, with_encoded, accept_tool_result, is_object,
  accept_complete,
}
use command_prompter_doc_bot.Capsule.Accepted.{Sane, parse_openai_sse-Sane}
use command_prompter_doc_bot.Budget.Truncation.{truncate_result}

pub begin_model-cases :
    (codec : Codec) (turn : ℕ) (a : Attempt)
    → (begin_model codec turn a ≡ refuse a)
      ⊎ ((turn ≤ a.max_model_requests)
          × (is_ready_model a.state ≡ true)
          × (turn ≡ a.next_turn)
          × ((begin_model codec turn a ≡ refuse (begun turn a))
              ⊎ ((body : String) × (begin_model codec turn a ≡ (ok body, begun turn a)))))
unfolding begin_model
begin_model-cases codec turn a = elim (Bool-cases (ltb a.max_model_requests turn)) [
  | inl over ↦ inl (rw over refl)
  | inr within ↦ elim (Bool-cases (is_ready_model a.state && (turn == a.next_turn))) [
    | inr wrong ↦ inl (rw (within, wrong) refl)
    | inl right ↦ inr (
      ground (arith, within),
      ground (arith, right),
      ground (arith, right),
      elim (Bool-cases
          (request_fits codec a (model_request codec (begun turn a) turn a.messages))) [
            | inr long ↦ inl (rw (within, right, long) refl)
            | inl fits ↦ elim (Option-cases (model_request codec (begun turn a) turn a.messages)) [
              | inl missing ↦ inl (rw (within, right, fits, missing) refl)
              | inr (body, there) ↦ inr (body, rw (within, right, fits, there) refl)
            ]
          ],
    )
  ]
]

abbrev pub used : AcceptedResponse → Attempt → Attempt
used r a = record a { usage = add_usage a.usage r.usage }

pub accept_model-cases :
    (codec : Codec) (body : Option (List ℕ)) (a : Attempt)
    → (accept_model codec body a ≡ refuse a)
      ⊎ ((r : AcceptedResponse) × (is_in_flight a.state ≡ true)
          × Sane a.response_limits codec a.validators r
          × ((accept_model codec body a ≡ refuse (used r a))
              ⊎ ((p : PendingToolCall) × (r.pending ≡ some p)
                  × (((a.current_turn == a.max_model_requests)
                        && not (str_eq p.name "submit_result"))
                      ≡ false)
                  × (accept_model codec body a ≡ (ok r.normalized_sse, accepted r p (used r a))))))
unfolding accept_model
accept_model-cases codec body a = elim (Bool-cases (is_in_flight a.state)) [
  | inr other ↦ inl (rw other refl)
  | inl flying ↦
      elim (Result-cases (parse_openai_sse a.response_limits codec a.model_id a.validators body)) [
        | inr (e, bad) ↦ inl (rw (flying, bad) refl)
        | inl (r, good) ↦ inr (
          r,
          flying,
          parse_openai_sse-Sane a.response_limits codec a.model_id a.validators body r good,
          elim (Option-cases r.pending) [
            | inl missing ↦ inl (rw (flying, good, missing) refl)
            | inr (p, there) ↦
                elim (Bool-cases (
                  (a.current_turn == a.max_model_requests)
                  && not (str_eq p.name "submit_result"))) [
                    | inl late ↦ inl (rw (flying, good, there, late) refl)
                    | inr timely ↦ inr (p, there, timely, rw (flying, good, there, timely) refl)
                  ]
          ],
        )
      ]
]

-- The attempt with a result, which may have been cut.
abbrev pub resumed : Bool → Json → Attempt → Attempt
resumed is_cut message a =
    with_result message (if is_cut then record a { usage = truncated_more a.usage } else a)

abbrev pub Resumes : Result AttemptError (String × Json) × Attempt → Attempt → Type 0
Resumes m a =
    (r : String × Json) × (is_cut : Bool) × (message : Json) × (m
      ≡ (ok r, resumed is_cut message a))

with_truncated-cases :
    (codec : Codec) (p : PendingToolCall) (encoded : String) (a : Attempt)
    → (with_truncated codec p encoded a ≡ refuse a) ⊎ Resumes (with_truncated codec p encoded a) a
unfolding with_truncated
with_truncated-cases codec p encoded a =
    elim (Option-cases (truncate_result (codec.bytes encoded) (envelope_fits codec a p.call_id))) [
      | inl none_left ↦ inl (rw (none_left, with_truncated) refl)
      | inr (answer, came) ↦ elim (Result-cases answer) [
        | inr (e, bad) ↦ inl (rw (came, with_truncated, bad) refl)
        | inl (e, good) ↦ inr (
          (or_empty (canonical_json codec (envelope_json codec e)), envelope_json codec e),
          true,
          tool_message p.call_id (or_empty (canonical_json codec (envelope_json codec e))),
          rw (came, with_truncated, good) refl,
        )
      ]
    ]

with_encoded-cases :
    (codec : Codec) (p : PendingToolCall) (cloned : Json) (encoded : String) (a : Attempt)
    → (with_encoded codec p cloned encoded a ≡ refuse a)
      ⊎ Resumes (with_encoded codec p cloned encoded a) a
unfolding with_encoded
with_encoded-cases codec p cloned encoded a =
    elim (Bool-cases
      (transcript_fits codec a (a.messages ++ tool_message p.call_id encoded ∷ []))) [
        | inl fits ↦ inr ((encoded, cloned), false, tool_message p.call_id encoded, rw fits refl)
        | inr over ↦ rw over (with_truncated-cases codec p encoded a)
      ]

pub accept_tool_result-cases :
    (codec : Codec) (result : Json) (a : Attempt)
    → (accept_tool_result codec result a ≡ refuse a)
      ⊎ ((is_await_tool a.state ≡ true) × Resumes (accept_tool_result codec result a) a)
unfolding accept_tool_result
accept_tool_result-cases codec result a = elim (Option-cases a.pending) [
  | inl missing ↦ inl (rw missing refl)
  | inr (p, there) ↦ elim (Bool-cases (is_await_tool a.state)) [
    | inr other ↦ inl (rw (there, other) refl)
    | inl awaiting ↦ elim (Option-cases (clone_json codec a.response_limits result)) [
      | inl bad ↦ inl (rw (there, awaiting, bad) refl)
      | inr (cloned, read) ↦ elim (Option-cases (canonical_json codec cloned)) [
        | inl bad ↦ inl (rw (there, awaiting, read, bad) refl)
        | inr (encoded, written) ↦
            let same : accept_tool_result codec result a ≡ with_encoded codec p cloned encoded a =
              ground (arith, there, awaiting, read, written) in
            elim (with_encoded-cases codec p cloned encoded a) [
              | inl refused ↦ inl (same ∙ refused)
              | inr (r, is_cut, message, resumes) ↦
                  inr (awaiting, (r, is_cut, message, same ∙ resumes))
            ]
      ]
    ]
  ]
]

pub accept_complete-cases :
    (codec : Codec) (output : Json) (a : Attempt)
    → (accept_complete codec output a ≡ refuse a)
      ⊎ ((p : PendingToolCall) × (is_await_complete a.state ≡ true)
          × (a.pending ≡ some p)
          × (str_eq p.name "submit_result" ≡ true)
          × (same_json codec output (object p.arguments) ≡ true)
          × (accept_complete codec output a
              ≡ (ok p.arguments, record a { pending = none; state = terminal })))
unfolding accept_complete
accept_complete-cases codec output a = elim (Option-cases a.pending) [
  | inl missing ↦ inl (rw missing refl)
  | inr (p, there) ↦
      elim (Bool-cases (
        is_await_complete a.state
        && str_eq p.name "submit_result"
        && is_object output
        && same_json codec output (object p.arguments)
        && valid codec a.output_validator output)) [
          | inr wrong ↦ inl (rw (there, wrong) refl)
          | inl right ↦ inr (
            p,
            ground (arith, right),
            there,
            ground (arith, right),
            ground (arith, right),
            rw (there, right) refl,
          )
        ]
]
