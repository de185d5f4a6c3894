-- ===== src/Capsule/Endings.antt =====
-- How a run of Session.invoke ends (internal/capsule/session.go).
use command_prompter_doc_bot.Prelude.{
  ℕ, suc, ◌+◌, ◌≡◌, refl, subst, ◌⊎◌, inl, inr, true, false, Option, List, [], ◌∷◌, length, arith,
  Bool-cases, Option-cases,
}
use command_prompter_doc_bot.Capsule.Json.{Members}
use command_prompter_doc_bot.Capsule.Attempt.{Attempt}
use command_prompter_doc_bot.Capsule.Methods.{fail}
use command_prompter_doc_bot.Capsule.Session.{
  Course, Host, Progress, Round, ended, going, run, take_round,
}
use command_prompter_doc_bot.Capsule.Kept.{Kept, fail-Kept}
use command_prompter_doc_bot.Capsule.Responding.{Good, Rests}
use command_prompter_doc_bot.Capsule.Runs.{take_round-Good}

round-Good :
    (host : Host) (limit n : ℕ) (round : Round) (p : Progress)
    → Kept host.codec limit p.attempt
    → Rests n p.attempt
    → Good host.codec limit (suc n) (take_round host round p)
round-Good host limit n round p k rests = elim (Option-cases round.message) [
  | inr (message, came) ↦ take_round-Good host limit n round message p k rests came
  | inl silent ↦
      unfold take_round in
      rw (silent, take_round)
        (elim (Bool-cases round.is_cancelled) [
          | inl done ↦
              rw done (unfold fail in (fail-Kept host.codec limit p.attempt true k, inr refl))
          | inr running ↦
              rw running (unfold fail in (fail-Kept host.codec limit p.attempt false k, inl refl))
        ])
]

pub Course-cases :
    (o : Course)
    → ((q : Progress) × (o ≡ going q))
      ⊎ ((output : Option Members) × (a : Attempt) × (o ≡ ended output a))
Course-cases (going q) = inl (q, refl)
Course-cases (ended output a) = inr (output, a, refl)

-- Any rounds of a session keep its attempt well kept: the counted calls of the model were begun and are
-- within the budget of requests, the tokens add up, a pending call is granted and has arguments that its
-- schema allows. When the session goes on after `n` rounds it is between them, with its turn as `n`
-- says; when it has returned, it has an output that the output schema allows, of a completed
-- attempt, or it has none and the attempt has failed or was cancelled.
pub run-Good :
    (host : Host) (limit n : ℕ) (rounds : List Round) (p : Progress)
    → Kept host.codec limit p.attempt
    → Rests n p.attempt
    → Good host.codec limit (n + length rounds) (run host rounds p)
unfolding run
run-Good host limit n [] p k rests = (k, subst (λ m. Rests m p.attempt) (omega arith) rests)
run-Good host limit n (round ∷ rounds) p k rests =
    let good = round-Good host limit n round p k rests in
    elim (Course-cases (take_round host round p)) [
      | inr (output, a, over) ↦ rw (over, run) (rw over at good)
      | inl (q, on) ↦
          let (k', rests') : Good host.codec limit (suc n) (going q) = rw on at good in
          let more = run-Good host limit (suc n) rounds q k' rests' in
          rw (on, run) (subst (λ m. Good host.codec limit m (run host rounds q)) (omega arith) more)
    ]
