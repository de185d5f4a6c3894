-- ===== src/Capsule/Beginning.antt =====
-- A session from its start: NewOpenAIAttempt and Session.invoke (internal/capsule/attempt.go, session.go).
use command_prompter_doc_bot.Prelude.{
  ◌+◌, ◌*◌, ◌≤◌, ◌<◌, ◌≡◌, refl, subst, inl, inr, Bool, true, false, ◌&&◌, Option, List, [], ltb,
  leb, length, arith, Result, ok, ◌>>◌, >>=-eq-ok,
}
use command_prompter_doc_bot.Capsule.Json.{Members}
use command_prompter_doc_bot.Capsule.Values.{Codec}
use command_prompter_doc_bot.Capsule.Schema.{Schema}
use command_prompter_doc_bot.Capsule.Responses.{Validators, validator}
use command_prompter_doc_bot.Capsule.Compiling.{
  SchemaError, compile_schema, demand, normalize_json_object,
}
use command_prompter_doc_bot.Capsule.Attempt.{Attempt, Tool}
use command_prompter_doc_bot.Capsule.Creating.{
  Setup, at_most_one, compile_tools, first_attempt, new_openai_attempt, own_names,
  validate_sampling_options,
}
use command_prompter_doc_bot.Capsule.Session.{Host, Progress, Round, ended, going, run}
use command_prompter_doc_bot.Capsule.Kept.{Kept}
use command_prompter_doc_bot.Capsule.Responding.{Finished, Good, Rests}
use command_prompter_doc_bot.Capsule.Endings.{Course-cases, run-Good}

demand-ok :
    {B : Type 0} (b : Bool) (next : Result SchemaError B) {x : B}
    → (demand b >> next) ≡ ok x
    → (b ≡ true) × (next ≡ ok x)
demand-ok true next h = (refl, h)
demand-ok false next h = cc

first_attempt-Kept :
    (codec : Codec) (setup : Setup) (sampling reasoning : Members) (tools : List Tool)
    (validators : Validators) (output : Members) (output_validator : Schema)
    → Kept codec setup.max_model_requests
        (first_attempt setup sampling reasoning tools validators output output_validator)
      × Rests 0 (first_attempt setup sampling reasoning tools validators output output_validator)
unfolding validator
first_attempt-Kept codec setup sampling reasoning tools validators output output_validator = (
  record {
    limited = refl;
    next = refl;
    within = omega arith;
    counted = omega arith;
    adds_up = refl;
    submits = refl;
    called = λ p e. absurd (ground (arith, e));
  },
  inl (refl, refl),
)

-- The attempt that a session starts with is kept well, and has made no request of its budget.
pub new_openai_attempt-Kept :
    (codec : Codec) (setup : Setup) (a : Attempt)
    → new_openai_attempt codec setup ≡ ok a
    → Kept codec setup.max_model_requests a × Rests 0 a
unfolding new_openai_attempt
new_openai_attempt-Kept codec setup a h =
    let (_, i) =
      demand-ok
        (ltb 0 setup.context_window
          && ltb 0 setup.max_output_tokens
          && leb 1 setup.max_model_requests
          && leb setup.max_model_requests 1000)
        _ h in
    let (sampling, _, j) = >>=-eq-ok (validate_sampling_options codec setup.sampling_options) _ i in
    let (reasoning, _, k) =
      >>=-eq-ok
        (normalize_json_object codec setup.reasoning_options setup.limits.max_bytes
          setup.limits.complexity)
        _ j in
    let (_, l) = demand-ok (at_most_one reasoning && own_names reasoning) _ k in
    let (output_validator, _, m) = >>=-eq-ok (compile_schema codec setup.output_schema) _ l in
    let ((tools, validators), _, n) =
      >>=-eq-ok (compile_tools codec setup.limits [] setup.tools) _ m in
    let (output, _, last) =
      >>=-eq-ok
        (normalize_json_object codec setup.output_schema setup.limits.max_bytes
          setup.limits.complexity)
        _ n in
    let same : first_attempt setup sampling reasoning tools validators output output_validator ≡ a =
      ground (arith, last) in
    subst (λ x. Kept codec setup.max_model_requests x × Rests 0 x) same
      (first_attempt-Kept codec setup sampling reasoning tools validators output output_validator)

abbrev pub started : Attempt → Progress
started a = record { attempt = a; seen_ids = []; fetches = 0; model_requests = 0 }

-- A session whose attempt could be made, with a budget of `n` requests of the model, returns by the
-- round after twice as many, whatever the capsule, the provider and the tools answer. What it returns is
-- an output that the output schema allows, of a completed attempt, or none, of an attempt that
-- failed or was cancelled; either way at most `n` calls of the model are counted, and the tokens add up.
pub run-new_openai_attempt :
    (host : Host) (setup : Setup) (rounds : List Round) (a : Attempt)
    → new_openai_attempt host.codec setup ≡ ok a
    → 2 * setup.max_model_requests < length rounds
    → (output : Option Members) × (b : Attempt) × (run host rounds (started a) ≡ ended output b)
      × Finished host.codec output b
      × (b.usage.model_calls ≤ setup.max_model_requests)
      × (b.usage.total_tokens ≡ b.usage.input_tokens + b.usage.output_tokens)
run-new_openai_attempt host setup rounds a made long =
    let (k, rests) = new_openai_attempt-Kept host.codec setup a made in
    let good = run-Good host setup.max_model_requests 0 rounds (started a) k rests in
    elim (Course-cases (run host rounds (started a))) [
      | inr (output, b, over) ↦
          let (kept, finished) : Good host.codec setup.max_model_requests (0 + length rounds)
              (ended output b) =
            rw over at good in
          (output, b, over, finished, omega (arith, kept.counted, kept.within), kept.adds_up)
      | inl (q, on) ↦
          let (kept, rests') : Good host.codec setup.max_model_requests (0 + length rounds)
              (going q) =
            rw on at good in
          absurd (elim rests' [
            | inl (_, twice) ↦ omega (arith, twice, kept.within, long)
            | inr (inl (_, _, twice)) ↦ omega (arith, twice, kept.within, long)
            | inr (inr (_, twice)) ↦ omega (arith, twice, kept.within, long)
          ])
    ]
