-- ===== src/Pool/Holding.antt =====
-- A slot that is out with a caller stays out under every event but its release
-- (internal/capsule/pool.go).
use command_prompter_doc_bot.Prelude.{
  ℕ, suc, ◌+◌, ◌<◌, ◌≡◌, ◌≢◌, refl, subst, inl, inr, Bool, true, false, not, Option, none, some, [],
  ◌∷◌, ◌++◌, ◌==◌, arith, keep, Bool-cases,
}
use command_prompter_doc_bot.Pool.Slots.{Slot, same_slot, same_slot-eq, same_slot_refl, count}
use command_prompter_doc_bot.Pool.Machine.{
  SlotPool, PoolState, new, ready, is_leased, delete_leased, dispatch_locked, release_locked,
  is_ready, is_nil, delivery, take_delivery, Event, start, acquire, receive, give_up, release,
  close_event, start_pool, start_from, close_from, begin_acquire, receive_result, abandon,
  release_slot, begin_close, step, Reply, has_slot,
}
use command_prompter_doc_bot.Pool.Counting.{is_leased-count, count-delete_leased}
use command_prompter_doc_bot.Pool.Invariant.{Accounts}
use command_prompter_doc_bot.Pool.Pending.{
  pend, pend-take, pend-taken, pend-refusals, dispatch_locked-pend, release_locked-pend,
}
use command_prompter_doc_bot.Pool.Safety.{
  Safe, Allowed, delivered_held, dispatched-Safe, taken-Safe, released-Safe, returned-Safe, not_new,
}

-- Leased, and on its way to nobody.
pub record Held (s : Slot) (p : SlotPool) : Type 0 where
  pub out : 0 < count s p.leased
  pub settled : pend s p.delivered ≡ 0

abbrev pub OtherThan : Slot → Event → Type 0
OtherThan s (release t) = same_slot t s ≡ false
OtherThan s _ = Unit

still-Held :
    (s : Slot) (before : ℕ) (q : SlotPool)
    → Safe q
    → 0 < before
    → pend s q.delivered + before ≡ count s q.leased
    → Held s q
still-Held s before q v h e = record {
  out = omega (arith, e, h);
  settled = omega (arith, e, h, v.accounts.bound s, v.accounts.unique s);
}

dispatched :
    (s : Slot) (p : SlotPool)
    → Safe p
    → Safe (dispatch_locked p)
    → Held s p
    → Held s (dispatch_locked p)
dispatched s p v u h = still-Held s (count s p.leased) (dispatch_locked p) u h.out (
    omega (
      arith,
      dispatch_locked-pend p (λ on x. omega (arith, v.accounts.balance on x, v.accounts.unique x))
          s,
      h.settled,
    ))

released :
    (s t : Slot) (p : SlotPool)
    → Accounts p
    → 0 < count t p.leased
    → Safe (release_locked t p)
    → same_slot t s ≡ false
    → Held s p
    → Held s (release_locked t p)
released s t p a out u other h =
    let kept : count s (delete_leased t p.leased) ≡ count s p.leased =
      ground (arith, other, count-delete_leased s t p.leased) in
    still-Held s (count s p.leased) (release_locked t p) u h.out
      (omega (arith, release_locked-pend t p a out s, kept, h.settled))

taken : (s : Slot) (w : ℕ) (p : SlotPool) → Held s p → Held s (take_delivery w p)
taken s w p h = record {
  out = h.out;
  settled = omega (arith, pend-take s w p.delivered, h.settled);
}

-- What is on its way to a waiter is not held.
not_delivered :
    (s t : Slot) (w : ℕ) (p : SlotPool)
    → Held s p
    → delivery w p.delivered ≡ some (some t)
    → same_slot t s ≡ false
not_delivered s t w p h e = elim (Bool-cases (same_slot t s)) [
  | inr other ↦ other
  | inl same ↦ absurd (
      omega (
        arith,
        pend-taken s w p.delivered
            (subst (λ x. delivery w p.delivered ≡ some (some x)) (same_slot-eq t s same) e),
        h.settled,
      ))
]

-- An event that returns the slot to nobody and leaves it held.
abbrev pub Respects : Slot → SlotPool × Reply → Type 0
Respects s r = Held s r.0 × (r.1 ≢ has_slot s)

begin_acquire-Respects :
    (s : Slot) (p : SlotPool) → Safe p → Held s p → Respects s (begin_acquire p)
unfolding begin_acquire
begin_acquire-Respects s p v h = elim (Bool-cases (is_ready p.state)) [
  | inl on ↦
      rw (on, begin_acquire)
        (
          dispatched s waiting queued (dispatched-Safe waiting queued)
              (record { out = h.out; settled = h.settled }),
          λ e. cc,
        )
  | inr off ↦ rw (off, begin_acquire) (h, λ e. cc)
]
  where
    waiting : SlotPool
    waiting = record p {
      waiters = p.waiters ++ p.next_waiter ∷ [];
      next_waiter = suc p.next_waiter;
    }

    queued : Safe waiting
    queued = record {
      accounts = record {
        unique = v.accounts.unique;
        balance = v.accounts.balance;
        bound = v.accounts.bound;
      };
      pending = v.pending;
      unstarted = v.unstarted;
    }

-- A delivered slot that goes back to the pool.
returned :
    (s t : Slot) (w : ℕ) (p : SlotPool)
    → Safe p
    → Held s p
    → delivery w p.delivered ≡ some (some t)
    → Held s (release_locked t (take_delivery w p))
returned s t w p v h e =
    released s t (take_delivery w p) (taken-Safe w p v).accounts (delivered_held t w p v e).0
      (returned-Safe t w p v e) (not_delivered s t w p h e) (taken s w p h)

receive_result-Respects :
    (s : Slot) (w : ℕ) (p : SlotPool) → Safe p → Held s p → Respects s (receive_result w p)
unfolding receive_result
receive_result-Respects s w p v h = go (delivery w p.delivered) refl
  where
    another : (t : Slot) → same_slot t s ≡ false → has_slot t ≢ has_slot s
    another t other e = ground (arith, same_slot_refl s, other, e)

    go : (o : Option (Option Slot)) → delivery w p.delivered ≡ o → Respects s (receive_result w p)
    go none e = rw (e, receive_result) (h, λ q. cc)
    go (some none) e = rw (e, receive_result) (taken s w p h, λ q. cc)
    go (some (some t)) e = elim (Bool-cases (is_ready p.state)) [
      | inl on ↦ rw (e, on, receive_result) (taken s w p h, another t (not_delivered s t w p h e))
      | inr off ↦ elim (Bool-cases (is_leased t p.leased)) [
        | inl out ↦ rw (e, off, out, receive_result) (returned s t w p v h e, λ q. cc)
        | inr back ↦ rw (e, off, back, receive_result) (taken s w p h, λ q. cc)
      ]
    ]

abandon-Respects : (s : Slot) (w : ℕ) (p : SlotPool) → Safe p → Held s p → Respects s (abandon w p)
unfolding abandon
abandon-Respects s w p v h = go (delivery w p.delivered) refl
  where
    leaving : SlotPool
    leaving = record p { waiters = keep (λ x. not (x == w)) p.waiters }

    left : Safe leaving
    left = record {
      accounts = record {
        unique = v.accounts.unique;
        balance = v.accounts.balance;
        bound = v.accounts.bound;
      };
      pending = v.pending;
      unstarted = v.unstarted;
    }

    go : (o : Option (Option Slot)) → delivery w p.delivered ≡ o → Respects s (abandon w p)
    go none e =
        rw (e, abandon)
          (
            dispatched s leaving left (dispatched-Safe leaving left)
                (record { out = h.out; settled = h.settled }),
            λ q. cc,
          )
    go (some none) e =
        let u = taken-Safe w p v in
        rw (e, abandon)
          (dispatched s (take_delivery w p) u (dispatched-Safe _ u) (taken s w p h), λ q. cc)
    go (some (some t)) e = rw (e, abandon) (returned s t w p v h e, λ q. cc)

release_slot-Respects :
    (s t : Slot) (p : SlotPool)
    → Safe p
    → pend t p.delivered ≡ 0
    → same_slot t s ≡ false
    → Held s p
    → Respects s (release_slot t p)
unfolding release_slot
release_slot-Respects s t p v idle other h = elim (Bool-cases (is_leased t p.leased)) [
  | inl out ↦
      let held = is_leased-count t p.leased out in
      rw (out, release_slot)
        (
          released s t p v.accounts held
              (released-Safe t p v.accounts v.pending (not_new t p v.unstarted held) held idle)
              other h,
          λ q. cc,
        )
  | inr back ↦ rw (back, release_slot) (h, λ q. cc)
]

start_from-Respects :
    (s : Slot) (st : PoolState) (valid : Bool) (p : SlotPool)
    → Held s p
    → Respects s (start_from st valid p)
unfolding start_from
start_from-Respects s new true p h = (record { out = h.out; settled = h.settled }, λ q. cc)
start_from-Respects s new false p h = (h, λ q. cc)
start_from-Respects s _ valid p h = (h, λ q. cc)

close_from-Respects :
    (s : Slot) (st : PoolState) (p : SlotPool) → Held s p → Respects s (close_from st p)
unfolding close_from
close_from-Respects s new p h = (record { out = h.out; settled = h.settled }, λ q. cc)
close_from-Respects s ready p h = elim (Bool-cases (is_nil p.leased)) [
  | inl empty ↦
      rw (empty, close_from)
        (
          record { out = h.out; settled = rw (pend-refusals s p.waiters p.delivered) h.settled },
          λ q. cc,
        )
  | inr busy ↦
      rw (busy, close_from)
        (
          record { out = h.out; settled = rw (pend-refusals s p.waiters p.delivered) h.settled },
          λ q. cc,
        )
]
close_from-Respects s _ p h = (h, λ q. cc)

pub step-Respects :
    (s : Slot) (e : Event) (p : SlotPool)
    → Allowed e p
    → Safe p
    → OtherThan s e
    → Held s p
    → Respects s (step e p)
unfolding step start_pool begin_close
step-Respects s (start valid) p a v o h = start_from-Respects s p.state valid p h
step-Respects s acquire p a v o h = begin_acquire-Respects s p v h
step-Respects s (receive w) p a v o h = receive_result-Respects s w p v h
step-Respects s (give_up w) p a v o h = abandon-Respects s w p v h
step-Respects s (release t) p a v o h = release_slot-Respects s t p v a o h
step-Respects s close_event p a v o h = close_from-Respects s p.state p h
