-- ===== src/Capsule/Failing.antt =====
-- What a method of an attempt leaves behind when it fails (internal/capsule/attempt.go).
use command_prompter_doc_bot.Prelude.{ℕ, ◌≡◌, refl, ap, ◌⊎◌, inl, inr, Option, List, Result, ok}
use command_prompter_doc_bot.Capsule.Json.{Json}
use command_prompter_doc_bot.Capsule.Values.{Codec}
use command_prompter_doc_bot.Capsule.Attempt.{Attempt, AttemptError, begin_model}
use command_prompter_doc_bot.Capsule.Methods.{accept_complete, accept_model, accept_tool_result}
use command_prompter_doc_bot.Capsule.Moves.{
  accept_complete-cases, accept_model-cases, accept_tool_result-cases, begin_model-cases,
}

-- The transcript and the pending call of the attempt before.
pub record Unheard (a b : Attempt) : Type 0 where
  pub same_messages : b.messages ≡ a.messages
  pub same_pending : b.pending ≡ a.pending

Unheard-refl : (a : Attempt) → Unheard a a
Unheard-refl a = record { same_messages = refl; same_pending = refl }

-- A method that answers.
abbrev pub Answers {ℓ} : {A : Type ℓ} → Result AttemptError A × Attempt → Type ℓ
Answers {A} m = (r : A) × (m.0 ≡ ok r)

-- A method answers, or it leaves the transcript and the pending call as they were: a request that is not
-- made, and a response that is refused, whose state stays in flight. A refused result of a tool and a
-- refused completion leave the whole attempt as it was.
pub failing-Unheard :
    (codec : Codec) (a : Attempt) (turn : ℕ) (body : Option (List ℕ)) (result output : Json)
    → (Answers (begin_model codec turn a) ⊎ Unheard a (begin_model codec turn a).1)
      × (Answers (accept_model codec body a)
          ⊎ (Unheard a (accept_model codec body a).1
              × ((accept_model codec body a).1.state ≡ a.state)))
      × (Answers (accept_tool_result codec result a) ⊎ ((accept_tool_result codec result a).1 ≡ a))
      × (Answers (accept_complete codec output a) ⊎ ((accept_complete codec output a).1 ≡ a))
failing-Unheard codec a turn body result output = (
  elim (begin_model-cases codec turn a) [
    | inl refused ↦ inr (rw refused (Unheard-refl a))
    | inr (_, _, _, inl long) ↦ inr (rw long (record { same_messages = refl; same_pending = refl }))
    | inr (_, _, _, inr (sent, done)) ↦ inl (sent, ap (λ m. m.0) done)
  ],
  elim (accept_model-cases codec body a) [
    | inl refused ↦ inr (rw refused (Unheard-refl a, refl))
    | inr (r, _, _, inl refused) ↦
        inr (rw refused (record { same_messages = refl; same_pending = refl }, refl))
    | inr (r, _, _, inr (p, _, _, done)) ↦ inl (r.normalized_sse, ap (λ m. m.0) done)
  ],
  elim (accept_tool_result-cases codec result a) [
    | inl refused ↦ inr (ap (λ m. m.1) refused)
    | inr (_, (r, is_cut, message, done)) ↦ inl (r, ap (λ m. m.0) done)
  ],
  elim (accept_complete-cases codec output a) [
    | inl refused ↦ inr (ap (λ m. m.1) refused)
    | inr (p, _, _, _, _, done) ↦ inl (p.arguments, ap (λ m. m.0) done)
  ],
)
