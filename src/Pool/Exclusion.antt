-- ===== src/Pool/Exclusion.antt =====
-- A slot that Acquire has returned is returned to nobody else before it is released
-- (internal/capsule/pool.go).
use command_prompter_doc_bot.Prelude.{
  ℕ, ◌≡◌, ◌≢◌, refl, ap, ◌∙◌, inl, inr, Option, none, some, List, [], ◌∷◌, arith, Bool-cases,
}
use command_prompter_doc_bot.Pool.Slots.{Slot}
use command_prompter_doc_bot.Pool.Machine.{
  SlotPool, is_ready, delivery, Event, receive, receive_result, step, Reply, has_slot,
}
use command_prompter_doc_bot.Pool.Safety.{Safe, AllAllowed, step-Safe, delivered_held}
use command_prompter_doc_bot.Pool.Holding.{Held, OtherThan, step-Respects}

-- What the events of a history answer.
abbrev pub AllAnswers : (Reply → Type 0) → List Event → SlotPool → Type 0
AllAnswers P [] p = Unit
AllAnswers P (e ∷ es) p = P (step e p).1 × AllAnswers P es (step e p).0

abbrev pub AllOther : Slot → List Event → Type 0
AllOther s [] = Unit
AllOther s (e ∷ es) = OtherThan s e × AllOther s es

Held-AllAnswers :
    (s : Slot) (es : List Event) (p : SlotPool)
    → AllAllowed es p
    → AllOther s es
    → Safe p
    → Held s p
    → AllAnswers (λ r. r ≢ has_slot s) es p
Held-AllAnswers s [] p a o v h = tt
Held-AllAnswers s (e ∷ es) p a o v h =
    let (next, answer) = step-Respects s e p a.0 v o.0 h in
    (answer, Held-AllAnswers s es (step e p).0 a.1 o.1 (step-Safe e p a.0 v) next)

receive_result-Held :
    (s : Slot) (w : ℕ) (p : SlotPool)
    → Safe p
    → (receive_result w p).1 ≡ has_slot s
    → Held s (receive_result w p).0
unfolding receive_result
receive_result-Held s w p v h = go (delivery w p.delivered) refl
  where
    go : (o : Option (Option Slot)) → delivery w p.delivered ≡ o → Held s (receive_result w p).0
    go none e = absurd (ground (arith, h, e))
    go (some none) e = absurd (ground (arith, h, e))
    go (some (some t)) e = elim (Bool-cases (is_ready p.state)) [
      | inl on ↦
          let ts : t ≡ s = ground (arith, h, e, on) in
          let mine : delivery w p.delivered ≡ some (some s) = e ∙ ap (λ x. some (some x)) ts in
          let (out, gone) = delivered_held s w p v mine in
          rw (e, on, receive_result) (record { out = out; settled = gone })
      | inr off ↦ absurd (ground (arith, h, e, off))
    ]

-- When Acquire has returned a slot, no call of Acquire returns the same slot during any history that
-- does not release it, if the pool was safe and callers release only slots that were returned to
-- them.
pub receive_exclusive :
    (s : Slot) (w : ℕ) (p : SlotPool) (es : List Event)
    → Safe p
    → (step (receive w) p).1 ≡ has_slot s
    → AllAllowed es (step (receive w) p).0
    → AllOther s es
    → AllAnswers (λ r. r ≢ has_slot s) es (step (receive w) p).0
unfolding step
receive_exclusive s w p es v h a o =
    Held-AllAnswers s es (receive_result w p).0 a o (step-Safe (receive w) p tt v)
      (receive_result-Held s w p v h)
