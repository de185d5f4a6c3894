-- ===== src/Pool/Invariant.antt =====
-- What holds of a SlotPool between two critical sections (internal/capsule/pool.go).
use command_prompter_doc_bot.Prelude.{
  ℕ, ◌+◌, ◌≤◌, ◌<◌, ◌≡◌, refl, subst, ◌⊎◌, inl, inr, true, false, ◌&&◌, List, [], ◌∷◌, ◌++◌, arith,
  Bool-cases,
}
use command_prompter_doc_bot.Pool.Slots.{Slot, same_slot, same_slot-eq, count}
use command_prompter_doc_bot.Pool.Machine.{
  SlotPool, delete_leased, handed, hand_out, dispatch_locked, release_locked, is_ready, is_closing,
  is_nil,
}
use command_prompter_doc_bot.Pool.Counting.{count-append, count-delete_leased, hand_out-count}

-- What dispatching leaves alone.
pub hand_out_keeps :
    (ws : List ℕ) (fs : List Slot) (p : SlotPool)
    → ((hand_out ws fs p).state ≡ p.state)
      × ((hand_out ws fs p).slots ≡ p.slots)
      × ((hand_out ws fs p).closes ≡ p.closes)
      × (((hand_out ws fs p).waiters ≡ []) ⊎ ((hand_out ws fs p).free ≡ []))
unfolding hand_out
hand_out_keeps [] fs p = (refl, refl, refl, inl refl)
hand_out_keeps (w ∷ ws) [] p = (refl, refl, refl, inr refl)
hand_out_keeps (w ∷ ws) (s ∷ fs) p = hand_out_keeps ws fs (handed w s p)

-- The slots of the pool, each once; free or leased while it is ready.
pub record Accounts (p : SlotPool) : Type 0 where
  pub unique : (s : Slot) → count s p.slots ≤ 1
  pub balance :
      is_ready p.state ≡ true → (s : Slot) → count s p.free + count s p.leased ≡ count s p.slots
  pub bound : (s : Slot) → count s p.leased ≤ count s p.slots

pub dispatch_locked-Accounts :
    (p : SlotPool)
    → ((s : Slot) → count s p.slots ≤ 1)
    → (is_ready p.state ≡ true → (s : Slot) → count s p.free + count s p.leased ≡ count s p.slots)
    → (is_ready p.state ≡ false → (s : Slot) → count s p.leased ≤ count s p.slots)
    → Accounts (dispatch_locked p)
unfolding dispatch_locked
dispatch_locked-Accounts p unique balance bound = elim (Bool-cases (is_ready p.state)) [
  | inl on ↦
      let (state, slots, _, _) = hand_out_keeps p.waiters p.free p in
      let kept = hand_out-count p.waiters p.free p (λ s. omega (arith, balance on s, unique s)) in
      rw (on, dispatch_locked)
        (record {
          unique = λ s. rw slots (unique s);
          balance = λ _ s. rw slots (omega (arith, kept s, balance on s));
          bound = λ s. rw slots (omega (arith, kept s, balance on s));
        })
  | inr off ↦
      rw (off, dispatch_locked)
        (record {
          unique = unique;
          balance = λ on. absurd (ground (arith, on, off));
          bound = bound off;
        })
]

-- A lease that ends leaves room for the slot on the free list.
pub freed :
    (s x : Slot) (free leased slots : List Slot)
    → 0 < count s leased
    → count x free + count x leased ≡ count x slots
    → count x slots ≤ 1
    → count x (free ++ s ∷ []) + count x (delete_leased s leased) ≡ count x slots
freed s x free leased slots h balance unique = elim (Bool-cases (same_slot s x)) [
  | inl same ↦
      let held : 0 < count x leased = subst (λ y. 0 < count y leased) (same_slot-eq s x same) h in
      ground (arith, same, count-append x free (s ∷ []), count-delete_leased x s leased)
  | inr other ↦ ground (arith, other, count-append x free (s ∷ []), count-delete_leased x s leased)
]

count-delete_leased-le :
    (s x : Slot) (leased : List Slot) → count x (delete_leased s leased) ≤ count x leased
count-delete_leased-le s x leased = ground (arith, count-delete_leased x s leased)

-- Ending a lease keeps the accounts.
pub release_locked-Accounts :
    (s : Slot) (p : SlotPool) → Accounts p → 0 < count s p.leased → Accounts (release_locked s p)
unfolding release_locked
release_locked-Accounts s p a held = elim (Bool-cases (is_ready p.state)) [
  | inl on ↦
      rw (on, release_locked)
        (dispatch_locked-Accounts
          (record p { leased = delete_leased s p.leased; free = p.free ++ s ∷ [] }) a.unique
          (λ _ x. freed s x p.free p.leased p.slots held (a.balance on x) (a.unique x))
          (λ off. absurd (ground (arith, on, off))))
  | inr off ↦ elim (Bool-cases (is_closing p.state && is_nil (delete_leased s p.leased))) [
    | inl last ↦
        rw (off, last, release_locked)
          (record {
            unique = a.unique;
            balance = λ q. cc;
            bound = λ x. omega (arith, count-delete_leased-le s x p.leased, a.bound x);
          })
    | inr more ↦
        rw (off, more, release_locked)
          (record {
            unique = a.unique;
            balance = λ on. absurd (ground (arith, on, off));
            bound = λ x. omega (arith, count-delete_leased-le s x p.leased, a.bound x);
          })
  ]
]
