-- ===== src/Capsule/Responding.antt =====
-- What a round keeps when a model's response comes (internal/capsule/session.go).
use command_prompter_doc_bot.Prelude.{
  ℕ, suc, ◌*◌, ◌≤◌, ◌<◌, ◌≡◌, refl, ◌⊎◌, inl, inr, str_eq, true, false, not, ◌&&◌, ◌||◌, Option,
  none, some, ◌==◌, if◌then◌else◌, arith, Bool-cases, Option-cases, Result, err,
}
use command_prompter_doc_bot.Capsule.Json.{Members, object}
use command_prompter_doc_bot.Capsule.Values.{Codec}
use command_prompter_doc_bot.Capsule.Schema.{valid}
use command_prompter_doc_bot.Capsule.Responses.{AcceptedResponse, PendingToolCall}
use command_prompter_doc_bot.Capsule.Attempt.{
  Attempt, AttemptError, cancelled, failed, is_await_complete, is_await_tool, is_ready_model,
  terminal,
}
use command_prompter_doc_bot.Capsule.Methods.{accepted, fail}
use command_prompter_doc_bot.Capsule.Session.{
  Course, Host, Progress, Round, ended, event_stream, going, on_ok, on_response, stop,
}
use command_prompter_doc_bot.Capsule.Moves.{accept_model-cases, used}
use command_prompter_doc_bot.Capsule.Kept.{Kept, accepted-Kept, fail-Kept, used-Kept}

-- Between rounds, of which there were `n`: a request of the model takes one, and so does a tool's result.
abbrev pub Rests : ℕ → Attempt → Type 0
Rests n a =
    ((is_ready_model a.state ≡ true) × (n ≡ 2 * a.current_turn))
    ⊎ (((is_await_tool a.state ≡ true)
          × (a.current_turn < a.max_model_requests)
          × (suc n ≡ 2 * a.current_turn))
        ⊎ ((is_await_complete a.state ≡ true) × (suc n ≡ 2 * a.current_turn)))

-- A session that has returned failed or was cancelled, or its output is that of a completed attempt.
abbrev pub Finished : Codec → Option Members → Attempt → Type 0
Finished codec none a = (a.state ≡ failed) ⊎ (a.state ≡ cancelled)
Finished codec (some output) a =
    (a.state ≡ terminal) × (valid codec a.output_validator (object output) ≡ true)

abbrev pub Good : Codec → ℕ → ℕ → Course → Type 0
Good codec limit n (going p) = Kept codec limit p.attempt × Rests n p.attempt
Good codec limit n (ended output a) = Kept codec limit a × Finished codec output a

module _ (host : Host) (limit n : ℕ) (round : Round) where
  pub stop-Good : (a : Attempt) → Kept host.codec limit a → Good host.codec limit n (stop round a)
  unfolding fail
  stop-Good a k = elim (Bool-cases round.is_cancelled) [
    | inl done ↦ rw done (
      fail-Kept host.codec limit (fail false a) true (fail-Kept host.codec limit a false k),
      inr refl,
    )
    | inr running ↦ rw running (fail-Kept host.codec limit a false k, inl refl)
  ]

  pub refused-Good :
      {A : Type 0} (m : Result AttemptError A × Attempt) (next : A → Attempt → Course)
      (e : AttemptError) (a : Attempt)
      → m ≡ (err e, a)
      → Kept host.codec limit a
      → Good host.codec limit n (on_ok round m next)
  refused-Good m next e a same k = rw same (stop-Good a k)

  pub sent-Good :
      (q : Progress)
      → Kept host.codec limit q.attempt
      → Rests n q.attempt
      → Good host.codec limit n (if round.is_sent then going q else stop round q.attempt)
  sent-Good q k rests = elim (Bool-cases round.is_sent) [
    | inl out ↦ rw out (k, rests)
    | inr lost ↦ rw lost (stop-Good q.attempt k)
  ]

  accepted-Rests :
      (r : AcceptedResponse) (p : PendingToolCall) (a : Attempt)
      → suc n ≡ 2 * a.current_turn
      → a.current_turn ≤ a.max_model_requests
      → ((a.current_turn == a.max_model_requests) && not (str_eq p.name "submit_result")) ≡ false
      → Rests n (accepted r p a)
  accepted-Rests r p a count le timely = elim (Bool-cases (str_eq p.name "submit_result")) [
    | inl submits ↦ inr (inr (ground (arith, submits), count))
    | inr other ↦ inr (inl (ground (arith, other), ground (arith, other, timely, le), count))
  ]

  pub on_response-Good :
      (q : Progress) (a : Attempt)
      → Kept host.codec limit a
      → a.usage.model_calls < a.current_turn
      → suc n ≡ 2 * a.current_turn
      → Good host.codec limit n (on_response host round q a)
  unfolding on_response
  on_response-Good q a k uncounted count = elim (Option-cases round.response) [
    | inl missing ↦ rw (missing, on_response) (stop-Good a k)
    | inr (r, came) ↦
        rw (came, on_response)
          (elim (Bool-cases (not (r.status == 200) || not (event_stream host r.content_type))) [
            | inl bad ↦ rw bad (stop-Good a k)
            | inr good ↦ rw good (elim (accept_model-cases host.codec r.body a) [
              | inl refused ↦ refused-Good _ _ _ a refused k
              | inr (answer, _, sane, inl refused) ↦
                  refused-Good _ _ _ (used answer a) refused
                    (used-Kept host.codec limit a answer sane uncounted k)
              | inr (answer, _, sane, inr (p, there, timely, done)) ↦
                  let b = accepted answer p (used answer a) in
                  rw done (
                    sent-Good (record q { attempt = b })
                      (accepted-Kept host.codec limit (used answer a) answer p (sane.called p there)
                        (used-Kept host.codec limit a answer sane uncounted k))
                      (accepted-Rests answer p (used answer a) count
                        (omega (arith, k.within, k.limited)) timely))
            ])
          ])
  ]
