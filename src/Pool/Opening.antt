-- ===== src/Pool/Opening.antt =====
-- NewSlotPool of internal/capsule/pool.go: a pool that it makes is safe.
use command_prompter_doc_bot.Prelude.{
  ◌≤◌, ◌≡◌, refl, ap, subst, inl, inr, String, eq_iff, true, false, ◌||◌, List, [], ◌∷◌, arith,
  Bool-cases, ok, >>=-eq-ok,
}
use command_prompter_doc_bot.Pool.Slots.{
  Slot, Paths, new_slot, check_slots, member, same_slot, same_slot-eq, count,
}
use command_prompter_doc_bot.Pool.Machine.{SlotPool, new, new_slot_pool}
use command_prompter_doc_bot.Pool.Safety.{Safe}
use command_prompter_doc_bot.Pool.Draining.{Phases}

-- The parts of a step of the loop that goes on.
check_slots_step :
    (paths : Paths) (names seen : List String) (s : Slot) (slots out : List Slot)
    → check_slots paths names seen (s ∷ slots) ≡ ok out
    → (slot : Slot) × (others : List Slot) × (member slot.name names ≡ false)
      × (member (paths.normalized_path slot.socket_path) seen ≡ false)
      × (check_slots paths (slot.name ∷ names) (paths.normalized_path slot.socket_path ∷ seen) slots
          ≡ ok others)
      × (out ≡ slot ∷ others)
unfolding check_slots
check_slots_step paths names seen s slots out h =
    let (slot, made, rest) = >>=-eq-ok (new_slot paths s.name s.socket_path) _ h in
    elim (Bool-cases
      (member slot.name names || member (paths.normalized_path slot.socket_path) seen)) [
        | inl twice ↦ absurd (ground (arith, rest, twice))
        | inr once ↦
            let (others, checked, last) =
              >>=-eq-ok
                (check_slots paths (slot.name ∷ names)
                  (paths.normalized_path slot.socket_path ∷ seen) slots)
                _ (rw once at rest) in
            (
              slot,
              others,
              ground (arith, once),
              ground (arith, once),
              checked,
              ground (arith, last),
            )
      ]

-- A name that was seen is not taken again.
named_once :
    (paths : Paths) (names seen : List String) (slots out : List Slot) (s : Slot)
    → check_slots paths names seen slots ≡ ok out
    → member s.name names ≡ true
    → count s out ≡ 0
named_once paths names seen [] out s h m = unfold check_slots in ground (arith, h)
named_once paths names seen (t ∷ slots) out s h m =
    let (slot, others, fresh, _, checked, e) = check_slots_step paths names seen t slots out h in
    let ih =
      named_once paths (slot.name ∷ names) (paths.normalized_path slot.socket_path ∷ seen) slots
        others s checked (ground (arith, m)) in
    elim (Bool-cases (same_slot slot s)) [
      | inl same ↦
          absurd (ground (arith, m, fresh, ap (λ (x : Slot). x.name) (same_slot-eq slot s same)))
      | inr other ↦ rw (e, other) ih
    ]

check_slots-count :
    (paths : Paths) (names seen : List String) (slots out : List Slot) (s : Slot)
    → check_slots paths names seen slots ≡ ok out
    → count s out ≤ 1
check_slots-count paths names seen [] out s h = unfold check_slots in ground (arith, h)
check_slots-count paths names seen (t ∷ slots) out s h =
    let (slot, others, fresh, _, checked, e) = check_slots_step paths names seen t slots out h in
    elim (Bool-cases (same_slot slot s)) [
      | inl same ↦
          let absent : count slot others ≡ 0 =
            named_once paths _ _ slots others slot checked
              (ground (arith, eq_iff slot.name slot.name)) in
          let gone : count s others ≡ 0 =
            subst (λ x. count x others ≡ 0) (same_slot-eq slot s same) absent in
          rw (e, same) (omega (arith, gone))
      | inr other ↦
          rw (e, other)
            (check_slots-count paths (slot.name ∷ names)
              (paths.normalized_path slot.socket_path ∷ seen) slots others s checked)
    ]

opened : List Slot → SlotPool
opened checked = record {
  slots = checked;
  state = new;
  free = [];
  leased = [];
  waiters = [];
  delivered = [];
  next_waiter = 0;
  closes = 0;
}

opened-Safe : (checked : List Slot) → ((s : Slot) → count s checked ≤ 1) → Safe (opened checked)
unfolding opened
opened-Safe checked distinct = record {
  accounts = record { unique = distinct; balance = λ q. cc; bound = λ s. omega arith };
  pending = λ s. omega arith;
  unstarted = λ q. (refl, refl);
}

opened-Phases : (checked : List Slot) → Phases (opened checked)
unfolding opened
opened-Phases checked = record {
  no_lost_wakeup = λ on. cc;
  no_waiters = λ _. refl;
  draining = λ e. cc;
  drained = λ e. cc;
  unstarted = λ _. refl;
  closed_once = λ e. cc;
  open_channel = λ _. refl;
}

-- A pool that NewSlotPool makes has distinct slots, none of them leased, and no waiter.
pub new_slot_pool-Safe :
    (paths : Paths) (slots : List Slot) (p : SlotPool)
    → new_slot_pool paths slots ≡ ok p
    → Safe p × Phases p
unfolding new_slot_pool
new_slot_pool-Safe paths [] p h = cc
new_slot_pool-Safe paths (t ∷ slots) p h =
    let (checked, good, last) = >>=-eq-ok (check_slots paths [] [] (t ∷ slots)) _ h in
    let made : opened checked ≡ p = unfold opened in ground (arith, last) in
    (
      subst Safe made
          (opened-Safe checked (λ s. check_slots-count paths [] [] (t ∷ slots) checked s good)),
      subst Phases made (opened-Phases checked),
    )
