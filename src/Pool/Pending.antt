-- ===== src/Pool/Pending.antt =====
-- Slots that were handed to a waiter which has not returned yet (internal/capsule/pool.go).
use command_prompter_doc_bot.Prelude.{
  ℕ, suc, ◌+◌, ◌≤◌, ◌<◌, ◌≡◌, refl, inl, inr, Bool, true, false, not, ◌&&◌, Option, none, some,
  List, [], ◌∷◌, ◌++◌, ◌==◌, arith, if◌then◌else◌, keep, Bool-cases,
}
use command_prompter_doc_bot.Pool.Slots.{Slot, same_slot, same_slot_refl, count}
use command_prompter_doc_bot.Pool.Machine.{
  SlotPool, add_leased, delete_leased, handed, hand_out, dispatch_locked, release_locked, is_ready,
  is_closing, is_nil, Delivery, delivery, refusals,
}
use command_prompter_doc_bot.Pool.Counting.{count-add_leased}
use command_prompter_doc_bot.Pool.Invariant.{Accounts, freed}

abbrev pub carries : Slot → Option Slot → Bool
carries s none = false
carries s (some t) = same_slot t s

abbrev pub pend : Slot → List Delivery → ℕ
pend s [] = 0
pend s (d ∷ ds) = if carries s d.slot then suc (pend s ds) else pend s ds

pub pend-take :
    (s : Slot) (w : ℕ) (ds : List Delivery)
    → pend s (keep (λ (d : Delivery). not (d.waiter == w)) ds) ≤ pend s ds
pend-take s w [] = omega arith
pend-take s w (d ∷ ds) = ground (arith, pend-take s w ds)

pub pend-taken :
    (s : Slot) (w : ℕ) (ds : List Delivery)
    → delivery w ds ≡ some (some s)
    → pend s (keep (λ (d : Delivery). not (d.waiter == w)) ds) + 1 ≤ pend s ds
pend-taken s w [] h = cc
pend-taken s w (d ∷ ds) h = elim (Bool-cases (d.waiter == w)) [
  | inl mine ↦
      let e : d.slot ≡ some s = ground (arith, h, mine) in
      rw (mine, e) (ground (arith, same_slot_refl s, pend-take s w ds))
  | inr other ↦
      let ih = pend-taken s w ds (ground (arith, h, other)) in rw other (ground (arith, ih))
]

pub pend-refusals :
    (s : Slot) (ws : List ℕ) (ds : List Delivery) → pend s (refusals ws ++ ds) ≡ pend s ds
pend-refusals s [] ds = refl
pend-refusals s (w ∷ ws) ds = pend-refusals s ws ds

-- What is handed out is leased as often as it is delivered.
pub hand_out-pend :
    (ws : List ℕ) (fs : List Slot) (p : SlotPool)
    → ((s : Slot) → count s fs + count s p.leased ≤ 1)
    → (s : Slot)
    → pend s (hand_out ws fs p).delivered + count s p.leased
      ≡ pend s p.delivered + count s (hand_out ws fs p).leased
unfolding hand_out
hand_out-pend [] fs p h s = refl
hand_out-pend (w ∷ ws) [] p h s = refl
hand_out-pend (w ∷ ws) (t ∷ fs) p h s =
    let out : count t p.leased ≡ 0 = ground (arith, h t, same_slot_refl t) in
    let leased : (x : Slot) → count x (add_leased t p.leased) ≡ count x (t ∷ p.leased) =
      λ x. count-add_leased x t p.leased out in
    let ih = hand_out-pend ws fs (handed w t p) (λ x. ground (arith, h x, leased x)) s in
    ground (arith, ih, leased s)

pub dispatch_locked-pend :
    (p : SlotPool)
    → (is_ready p.state ≡ true → (s : Slot) → count s p.free + count s p.leased ≤ 1)
    → (s : Slot)
    → pend s (dispatch_locked p).delivered + count s p.leased
      ≡ pend s p.delivered + count s (dispatch_locked p).leased
unfolding dispatch_locked
dispatch_locked-pend p h s = elim (Bool-cases (is_ready p.state)) [
  | inl on ↦ rw (on, dispatch_locked) (hand_out-pend p.waiters p.free p (h on) s)
  | inr off ↦ rw (off, dispatch_locked) refl
]

pub release_locked-pend :
    (t : Slot) (p : SlotPool)
    → Accounts p
    → 0 < count t p.leased
    → (s : Slot)
    → pend s (release_locked t p).delivered + count s (delete_leased t p.leased)
      ≡ pend s p.delivered + count s (release_locked t p).leased
unfolding release_locked
release_locked-pend t p a held s = elim (Bool-cases (is_ready p.state)) [
  | inl on ↦
      rw (on, release_locked)
        (dispatch_locked-pend
          (record p { leased = delete_leased t p.leased; free = p.free ++ t ∷ [] })
          (λ _ x. omega (
            arith,
            freed t x p.free p.leased p.slots held (a.balance on x) (a.unique x),
            a.unique x,
          ))
          s)
  | inr off ↦ elim (Bool-cases (is_closing p.state && is_nil (delete_leased t p.leased))) [
    | inl last ↦ rw (off, last, release_locked) refl
    | inr more ↦ rw (off, more, release_locked) refl
  ]
]
