-- ===== src/Pool/Lifecycle.antt =====
-- Whole histories of a pool, from NewSlotPool to the end of Close (internal/capsule/pool.go).
use command_prompter_doc_bot.Prelude.{
  ◌+◌, ◌≤◌, ◌≡◌, refl, sym, subst, inl, inr, List, [], ◌∷◌, arith, if◌then◌else◌, Bool-cases, ok,
}
use command_prompter_doc_bot.Pool.Slots.{Slot, Paths, same_slot, same_slot_refl, count}
use command_prompter_doc_bot.Pool.Machine.{
  SlotPool, closing, closed, delete_leased, release_locked, release_slot, Event, release, step, run,
  new_slot_pool, is_nil,
}
use command_prompter_doc_bot.Pool.Safety.{Safe, AllAllowed, step-Safe, run-Safe}
use command_prompter_doc_bot.Pool.Draining.{Phases}
use command_prompter_doc_bot.Pool.Phases.{step-Phases}
use command_prompter_doc_bot.Pool.Opening.{new_slot_pool-Safe}

run-Phases :
    (es : List Event) (p : SlotPool) → AllAllowed es p → Safe p → Phases p → Phases (run es p)
unfolding run
run-Phases [] p a u v = v
run-Phases (e ∷ es) p a u v =
    run-Phases es (step e p).0 a.1 (step-Safe e p a.0 u) (step-Phases e p u v)

-- After every history of a pool that NewSlotPool made, in which callers release only slots that were
-- returned to them: no slot is leased twice, while the pool is ready each slot is free or leased, and
-- each slot on its way to a waiter is leased; a ready pool with a waiter has no free slot, a closing
-- pool has a lease and a closed one has none, and the channel is closed once, exactly when the pool
-- is.
pub run-Safe-Phases :
    (paths : Paths) (slots : List Slot) (p : SlotPool) (es : List Event)
    → new_slot_pool paths slots ≡ ok p
    → AllAllowed es p
    → Safe (run es p) × Phases (run es p)
run-Safe-Phases paths slots p es h a =
    let (u, v) = new_slot_pool-Safe paths slots p h in (run-Safe es p a u, run-Phases es p a u v)

delete_leased_absent : (s : Slot) (l : List Slot) → count s l ≡ 0 → delete_leased s l ≡ l
delete_leased_absent s [] h = refl
delete_leased_absent s (t ∷ l) h = elim (Bool-cases (same_slot t s)) [
  | inl same ↦ absurd (ground (arith, h, same))
  | inr other ↦ rw (other, delete_leased_absent s l (ground (arith, h, other))) refl
]

unfoldable pub releases : List Slot → List Event
releases [] = []
releases (s ∷ l) = release s ∷ releases l

-- The release of the first of the leases of a closing pool.
first_release :
    (s : Slot) (rest : List Slot) (p : SlotPool)
    → p.leased ≡ s ∷ rest
    → ((x : Slot) → count x (s ∷ rest) ≤ 1)
    → p.state ≡ closing
    → (step (release s) p).0 ≡ (
        if is_nil rest
        then record p { leased = rest; state = closed; closes = p.closes + 1 }
        else record p { leased = rest })
unfolding step release_slot release_locked
first_release s rest p h once e =
    let others : delete_leased s rest ≡ rest =
      delete_leased_absent s rest (ground (arith, once s, same_slot_refl s)) in
    rw (h, e, same_slot_refl s, others) refl

drains :
    (s : Slot) (rest : List Slot) (p : SlotPool)
    → p.leased ≡ s ∷ rest
    → ((x : Slot) → count x (s ∷ rest) ≤ 1)
    → p.state ≡ closing
    → (run (releases (s ∷ rest)) p).state ≡ closed
unfolding run releases
drains s [] p h once e =
    subst (λ (q : SlotPool). q.state ≡ closed) (sym (first_release s [] p h once e)) refl
drains s (t ∷ rest) p h once e =
    subst (λ q. (run (releases (t ∷ rest)) q).state ≡ closed)
      (sym (first_release s (t ∷ rest) p h once e))
      (drains t rest (record p { leased = t ∷ rest }) refl (λ x. ground (arith, once x)) e)

-- A closing pool is closed when the slots that are leased have been released.
pub run-releases :
    (p : SlotPool)
    → Safe p
    → Phases p
    → p.state ≡ closing
    → (run (releases p.leased) p).state ≡ closed
run-releases p u v e = go p.leased refl
  where
    go : (l : List Slot) → p.leased ≡ l → (run (releases p.leased) p).state ≡ closed
    go [] h = absurd (ground (arith, v.draining e, h))
    go (s ∷ rest) h =
        subst (λ l. (run (releases l) p).state ≡ closed) (sym h)
          (drains s rest p h
            (λ x.
              subst (λ l. count x l ≤ 1) h (omega (arith, u.accounts.bound x, u.accounts.unique x)))
            e)
