-- ===== src/Pool/Counting.antt =====
-- How often a slot stands in the lists of the pool (internal/capsule/pool.go).
use command_prompter_doc_bot.Prelude.{
  ℕ, suc, ◌+◌, ◌≤◌, ◌<◌, ◌≡◌, refl, sym, subst, inl, inr, true, false, List, [], ◌∷◌, ◌++◌, arith,
  if◌then◌else◌, Bool-cases,
}
use command_prompter_doc_bot.Pool.Slots.{Slot, same_slot, same_slot-eq, same_slot_refl, count}
use command_prompter_doc_bot.Pool.Machine.{
  SlotPool, is_leased, add_leased, delete_leased, handed, hand_out,
}

pub count-append : (s : Slot) (xs ys : List Slot) → count s (xs ++ ys) ≡ count s xs + count s ys
count-append s [] ys = omega arith
count-append s (x ∷ xs) ys = ground (arith, count-append s xs ys)

pub count_zero-is_leased : (s : Slot) (l : List Slot) → count s l ≡ 0 → is_leased s l ≡ false
count_zero-is_leased s [] h = refl
count_zero-is_leased s (t ∷ l) h = ground (arith, count_zero-is_leased s l)

pub is_leased-count : (s : Slot) (l : List Slot) → is_leased s l ≡ true → 0 < count s l
is_leased-count s [] h = cc
is_leased-count s (t ∷ l) h = ground (arith, is_leased-count s l)

pub count-add_leased :
    (s t : Slot) (l : List Slot) → count t l ≡ 0 → count s (add_leased t l) ≡ count s (t ∷ l)
count-add_leased s t l h = rw (count_zero-is_leased t l h) refl

pub count-delete_leased :
    (s t : Slot) (l : List Slot)
    → count s (delete_leased t l) ≡ (if same_slot t s then 0 else count s l)
count-delete_leased s t [] = ground arith
count-delete_leased s t (x ∷ l) = elim (Bool-cases (same_slot x t)) [
  | inl same ↦ rw same (
      subst
        (λ y.
          count s (delete_leased t l)
          ≡ (if same_slot t s then 0 else if same_slot y s then suc (count s l) else count s l))
        (sym (same_slot-eq x t same)) (ground (arith, count-delete_leased s t l)))
  | inr other ↦ elim (Bool-cases (same_slot t s)) [
    | inl ts ↦
        let xs : same_slot x s ≡ false =
          subst (λ y. same_slot x y ≡ false) (same_slot-eq t s ts) other in
        rw (other, ts) (ground (arith, xs, ts, count-delete_leased s t l))
    | inr ts ↦ rw (other, ts) (ground (arith, ts, count-delete_leased s t l))
  ]
]

-- Handing out moves slots from the free list to the leases, and loses none.
pub hand_out-count :
    (ws : List ℕ) (fs : List Slot) (p : SlotPool)
    → ((s : Slot) → count s fs + count s p.leased ≤ 1)
    → (s : Slot)
    → count s (hand_out ws fs p).free + count s (hand_out ws fs p).leased
      ≡ count s fs + count s p.leased
unfolding hand_out
hand_out-count [] fs p h s = refl
hand_out-count (w ∷ ws) [] p h s = refl
hand_out-count (w ∷ ws) (t ∷ fs) p h s =
    let out : count t p.leased ≡ 0 = ground (arith, h t, same_slot_refl t) in
    let leased : (x : Slot) → count x (add_leased t p.leased) ≡ count x (t ∷ p.leased) =
      λ x. count-add_leased x t p.leased out in
    let ih = hand_out-count ws fs (handed w t p) (λ x. ground (arith, h x, leased x)) s in
    ground (arith, ih, leased s)
