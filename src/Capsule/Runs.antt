-- ===== src/Capsule/Runs.antt =====
-- What a round of Session.invoke keeps (internal/capsule/session.go).
use command_prompter_doc_bot.Prelude.{
  ℕ, suc, ◌*◌, ◌≡◌, refl, sym, ap, subst, ◌∙◌, inl, inr, str_eq, eq_iff, Bool, true, false, ◌||◌,
  some, ◌∷◌, ltb, arith, Bool-cases, Option-cases, Result-cases,
}
use command_prompter_doc_bot.Capsule.Json.{Json, Members, object}
use command_prompter_doc_bot.Capsule.Values.{field}
use command_prompter_doc_bot.Capsule.Schema.{valid}
use command_prompter_doc_bot.Capsule.Responses.{PendingToolCall, validator}
use command_prompter_doc_bot.Capsule.Attempt.{Attempt, begun, is_await_tool, is_ready_model}
use command_prompter_doc_bot.Capsule.Methods.{validate_tool_call}
use command_prompter_doc_bot.Capsule.Session.{
  Host, Progress, Round, has_tool, on_complete, on_model_request, on_tool_call, requested, stop,
  take_round, turn_of, type_of, unique_id,
}
use command_prompter_doc_bot.Capsule.Moves.{
  accept_complete-cases, accept_tool_result-cases, begin_model-cases, resumed,
}
use command_prompter_doc_bot.Capsule.Kept.{Kept, begun-Kept, completed-Kept, resumed-Kept}
use command_prompter_doc_bot.Capsule.Responding.{
  Good, Rests, on_response-Good, refused-Good, sent-Good, stop-Good,
}

resumed_turn :
    (is_cut : Bool) (answer : Json) (a : Attempt)
    → (resumed is_cut answer a).current_turn ≡ a.current_turn
resumed_turn true answer a = refl
resumed_turn false answer a = refl

module _ (host : Host) (limit n : ℕ) (round : Round) (message : Members) (p : Progress) where
  halt-Good : Kept host.codec limit p.attempt → Good host.codec limit (suc n) (stop round p.attempt)
  halt-Good = stop-Good host limit (suc n) round p.attempt

  on_model_request-Good :
      Kept host.codec limit p.attempt
      → Rests n p.attempt
      → Good host.codec limit (suc n) (on_model_request host round message p)
  unfolding on_model_request
  on_model_request-Good k rests = elim (Option-cases (unique_id host.codec message p.seen_ids)) [
    | inl missing ↦ rw (missing, on_model_request) (halt-Good k)
    | inr (id, there) ↦ elim (Option-cases (turn_of (field "turn" message))) [
      | inl bad ↦ rw (there, on_model_request, bad) (halt-Good k)
      | inr (turn, read) ↦
          let q = requested id p in
          elim (Bool-cases
            (ltb host.max_fetches q.fetches || ltb host.max_model_requests q.model_requests)) [
              | inl over ↦ rw (there, on_model_request, read, over) (halt-Good k)
              | inr within ↦
                  rw (there, on_model_request, read, within)
                    (elim (begin_model-cases host.codec turn p.attempt) [
                      | inl refused ↦
                          refused-Good host limit (suc n) round _ _ _ p.attempt refused k
                      | inr (le, ready, in_order, outcome) ↦
                          let (kept, uncounted) =
                            begun-Kept host.codec limit p.attempt turn le in_order k in
                          elim outcome [
                            | inl long ↦
                                refused-Good host limit (suc n) round _ _ _ (begun turn p.attempt)
                                  long kept
                            | inr (body, sent) ↦ rw sent (
                                on_response-Good host limit (suc n) round q (begun turn p.attempt)
                                  kept uncounted (count ready in_order))
                          ]
                    ])
            ]
    ]
  ]
    where
      count :
          {turn : ℕ}
          → is_ready_model p.attempt.state ≡ true
          → turn ≡ p.attempt.next_turn
          → suc (suc n) ≡ 2 * turn
      count ready in_order = elim rests [
        | inl (_, twice) ↦ omega (arith, twice, in_order, k.next)
        | inr (inl (other, _, _)) ↦ absurd (ground (arith, ready, other))
        | inr (inr (other, _)) ↦ absurd (ground (arith, ready, other))
      ]

  on_tool_call-Good :
      Kept host.codec limit p.attempt
      → Rests n p.attempt
      → Good host.codec limit (suc n) (on_tool_call host round message p)
  unfolding on_tool_call
  on_tool_call-Good k rests = elim (Option-cases (unique_id host.codec message p.seen_ids)) [
    | inl missing ↦ rw (missing, on_tool_call) (halt-Good k)
    | inr (id, there) ↦
        rw (there, on_tool_call)
          (elim (Result-cases (
            validate_tool_call host.codec (field "provider_call_id" message) (field "name" message)
              (field "arguments" message) p.attempt)) [
                | inr (e, bad) ↦ rw bad (halt-Good k)
                | inl (call, good) ↦ rw good (elim (Bool-cases (has_tool call.name host.tools)) [
                  | inr unknown ↦ rw unknown (halt-Good k)
                  | inl known ↦ rw known (elim (Option-cases round.tool_result) [
                    | inl broke ↦ rw broke (halt-Good k)
                    | inr (result, came) ↦
                        rw came (elim (accept_tool_result-cases host.codec result p.attempt) [
                          | inl refused ↦
                              refused-Good host limit (suc n) round _ _ _ p.attempt refused k
                          | inr (awaiting, (r, is_cut, answer, done)) ↦
                              let a = resumed is_cut answer p.attempt in
                              rw done (
                                sent-Good host limit (suc n) round
                                  (record p { attempt = a; seen_ids = id ∷ p.seen_ids })
                                  (resumed-Kept host.codec limit p.attempt is_cut answer k)
                                  (inl (refl, count is_cut answer awaiting)))
                        ])
                  ])
                ])
              ])
  ]
    where
      count :
          (is_cut : Bool) (answer : Json)
          → is_await_tool p.attempt.state ≡ true
          → suc n ≡ 2 * (resumed is_cut answer p.attempt).current_turn
      count is_cut answer awaiting = elim rests [
        | inl (other, _) ↦ absurd (ground (arith, awaiting, other))
        | inr (inl (_, _, twice)) ↦ rw (resumed_turn is_cut answer p.attempt) twice
        | inr (inr (other, _)) ↦ absurd (ground (arith, awaiting, other))
      ]

  on_complete-Good :
      Kept host.codec limit p.attempt
      → Good host.codec limit (suc n) (on_complete host round message p)
  unfolding on_complete
  on_complete-Good k = elim (accept_complete-cases host.codec (field "output" message) p.attempt) [
    | inl refused ↦ refused-Good host limit (suc n) round _ _ _ p.attempt refused k
    | inr (call, _, there, submits, _, done) ↦ rw done (elim (Bool-cases round.at_end) [
      | inr more ↦
          rw more
            (stop-Good host limit (suc n) round _ (completed-Kept host.codec limit p.attempt k))
      | inl over ↦
          rw over (completed-Kept host.codec limit p.attempt k, (refl, allowed call there submits))
    ])
  ]
    where
      allowed :
          (call : PendingToolCall)
          → p.attempt.pending ≡ some call
          → str_eq call.name "submit_result" ≡ true
          → valid host.codec p.attempt.output_validator (object call.arguments) ≡ true
      allowed call there submits =
          let g = k.called call there in
          let named : call.name ≡ "submit_result" = (eq_iff call.name "submit_result").0 submits in
          let found : some g.schema ≡ some p.attempt.output_validator =
            sym g.granted ∙ ap (λ x. validator x p.attempt.validators) named ∙ k.submits in
          subst (λ x. valid host.codec x (object call.arguments) ≡ true) (ground (arith, found))
            g.allowed

  pub take_round-Good :
      Kept host.codec limit p.attempt
      → Rests n p.attempt
      → round.message ≡ some message
      → Good host.codec limit (suc n) (take_round host round p)
  unfolding take_round
  take_round-Good k rests came =
      rw (came, take_round)
        (elim (Bool-cases (str_eq (type_of message) "model_request")) [
          | inl model ↦ rw model (on_model_request-Good k rests)
          | inr other ↦ rw other (elim (Bool-cases (str_eq (type_of message) "tool_call")) [
            | inl tool ↦ rw tool (on_tool_call-Good k rests)
            | inr another ↦ rw another (elim (Bool-cases (str_eq (type_of message) "complete")) [
              | inl complete ↦ rw complete (on_complete-Good k)
              | inr unknown ↦ rw unknown (halt-Good k)
            ])
          ])
        ])
