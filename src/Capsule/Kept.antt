-- ===== src/Capsule/Kept.antt =====
-- The invariant of an attempt, and the methods that keep it (internal/capsule/attempt.go).
use command_prompter_doc_bot.Prelude.{
  ℕ, suc, ◌+◌, ◌≤◌, ◌<◌, ◌≡◌, subst, Bool, true, false, none, some, arith,
}
use command_prompter_doc_bot.Capsule.Json.{Json}
use command_prompter_doc_bot.Capsule.Values.{Codec}
use command_prompter_doc_bot.Capsule.Responses.{PendingToolCall, AcceptedResponse, validator}
use command_prompter_doc_bot.Capsule.Attempt.{terminal, Attempt, begun}
use command_prompter_doc_bot.Capsule.Methods.{accepted, fail}
use command_prompter_doc_bot.Capsule.Accepted.{Granted, Sane}
use command_prompter_doc_bot.Capsule.Moves.{used, resumed}

-- The calls that are counted have been made, at most `limit` of them, the tokens add up, and a call that
-- is pending is of a granted tool, with arguments that its schema allows.
pub record Kept (codec : Codec) (limit : ℕ) (a : Attempt) : Type 0 where
  pub limited : a.max_model_requests ≡ limit
  pub next : a.next_turn ≡ suc a.current_turn
  pub within : a.current_turn ≤ limit
  pub counted : a.usage.model_calls ≤ a.current_turn
  pub adds_up : a.usage.total_tokens ≡ a.usage.input_tokens + a.usage.output_tokens
  pub submits : validator "submit_result" a.validators ≡ some a.output_validator
  pub called : (p : PendingToolCall) → a.pending ≡ some p → Granted codec a.validators p

module _ (codec : Codec) (limit : ℕ) (a : Attempt) where
  -- A call of the model is in flight, and not yet counted.
  pub begun-Kept :
      (turn : ℕ)
      → turn ≤ a.max_model_requests
      → turn ≡ a.next_turn
      → Kept codec limit a
      → Kept codec limit (begun turn a) × (a.usage.model_calls < turn)
  begun-Kept turn le e k = (
    record {
      limited = k.limited;
      next = omega (arith);
      within = omega (arith, le, k.limited);
      counted = omega (arith, e, k.next, k.counted);
      adds_up = k.adds_up;
      submits = k.submits;
      called = k.called;
    },
    omega (arith, e, k.next, k.counted),
  )

  pub used-Kept :
      (r : AcceptedResponse)
      → Sane a.response_limits codec a.validators r
      → a.usage.model_calls < a.current_turn
      → Kept codec limit a
      → Kept codec limit (used r a)
  used-Kept r sane uncounted k = record {
    limited = k.limited;
    next = k.next;
    within = k.within;
    counted = omega (arith, sane.counted.one_call, uncounted);
    adds_up = omega (arith, sane.counted.adds_up, k.adds_up);
    submits = k.submits;
    called = k.called;
  }

  pub accepted-Kept :
      (r : AcceptedResponse) (p : PendingToolCall)
      → Granted codec a.validators p
      → Kept codec limit a
      → Kept codec limit (accepted r p a)
  accepted-Kept r p granted k = record {
    limited = k.limited;
    next = k.next;
    within = k.within;
    counted = k.counted;
    adds_up = k.adds_up;
    submits = k.submits;
    called = λ q e. subst (Granted codec a.validators) (ground (arith, e)) granted;
  }

  pub resumed-Kept :
      (is_cut : Bool) (message : Json)
      → Kept codec limit a
      → Kept codec limit (resumed is_cut message a)
  resumed-Kept true message k = record {
    limited = k.limited;
    next = k.next;
    within = k.within;
    counted = k.counted;
    adds_up = k.adds_up;
    submits = k.submits;
    called = λ q e. absurd (ground (arith, e));
  }
  resumed-Kept false message k = record {
    limited = k.limited;
    next = k.next;
    within = k.within;
    counted = k.counted;
    adds_up = k.adds_up;
    submits = k.submits;
    called = λ q e. absurd (ground (arith, e));
  }

  pub completed-Kept :
      Kept codec limit a → Kept codec limit (record a { pending = none; state = terminal })
  completed-Kept k = record {
    limited = k.limited;
    next = k.next;
    within = k.within;
    counted = k.counted;
    adds_up = k.adds_up;
    submits = k.submits;
    called = λ q e. absurd (ground (arith, e));
  }

  pub fail-Kept :
      (is_cancelled : Bool) → Kept codec limit a → Kept codec limit (fail is_cancelled a)
  unfolding fail
  fail-Kept is_cancelled k = record {
    limited = k.limited;
    next = k.next;
    within = k.within;
    counted = k.counted;
    adds_up = k.adds_up;
    submits = k.submits;
    called = k.called;
  }
