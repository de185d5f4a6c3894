-- ===== src/Pool/Safety.antt =====
-- Every event keeps the accounts of the pool, and a slot has one holder at a time
-- (internal/capsule/pool.go).
use command_prompter_doc_bot.Prelude.{
  ℕ, suc, ◌+◌, ◌≤◌, ◌<◌, ◌≡◌, ◌≢◌, refl, sym, ap, subst, ◌∙◌, inl, inr, Bool, true, false, not,
  Option, none, some, List, [], ◌∷◌, ◌++◌, ◌==◌, arith, keep, Bool-cases,
}
use command_prompter_doc_bot.Pool.Slots.{Slot, same_slot, same_slot-eq, count}
use command_prompter_doc_bot.Pool.Machine.{
  SlotPool, PoolState, new, ready, closing, closed, is_leased, delete_leased, dispatch_locked,
  release_locked, is_ready, is_nil, delivery, take_delivery, Event, start, acquire, receive,
  give_up, release, close_event, start_pool, start_from, close_from, refusals, begin_acquire,
  receive_result, abandon, release_slot, begin_close, step, run,
}
use command_prompter_doc_bot.Pool.Counting.{is_leased-count, count-delete_leased}
use command_prompter_doc_bot.Pool.Invariant.{
  hand_out_keeps, Accounts, dispatch_locked-Accounts, release_locked-Accounts,
}
use command_prompter_doc_bot.Pool.Pending.{
  pend, pend-take, pend-taken, pend-refusals, dispatch_locked-pend, release_locked-pend,
}

-- A pool that has not started has nothing out.
pub record Safe (p : SlotPool) : Type 0 where
  pub accounts : Accounts p
  pub pending : (s : Slot) → pend s p.delivered ≤ count s p.leased
  pub unstarted : p.state ≡ new → (p.free ≡ []) × (p.leased ≡ [])

-- A caller releases only a slot that Acquire has returned.
abbrev pub Allowed : Event → SlotPool → Type 0
Allowed (release s) p = pend s p.delivered ≡ 0
Allowed _ p = Unit

dispatch_locked-state : (p : SlotPool) → (dispatch_locked p).state ≡ p.state
unfolding dispatch_locked
dispatch_locked-state p = ground (arith, (hand_out_keeps p.waiters p.free p).0)

release_locked-new : (t : Slot) (p : SlotPool) → (release_locked t p).state ≡ new → p.state ≡ new
unfolding release_locked
release_locked-new t p h = ground (
  arith,
  dispatch_locked-state (record p { leased = delete_leased t p.leased; free = p.free ++ t ∷ [] }),
)

pub not_new :
    (s : Slot) (p : SlotPool)
    → (p.state ≡ new → (p.free ≡ []) × (p.leased ≡ []))
    → 0 < count s p.leased
    → p.state ≢ new
not_new s p h held e = ground (arith, ap (count s) (h e).1)

-- Ending a lease that is not pending.
pub released-Safe :
    (t : Slot) (p : SlotPool)
    → Accounts p
    → ((s : Slot) → pend s p.delivered ≤ count s p.leased)
    → p.state ≢ new
    → 0 < count t p.leased
    → pend t p.delivered ≡ 0
    → Safe (release_locked t p)
released-Safe t p a pending old held none_pending = record {
  accounts = release_locked-Accounts t p a held;
  pending = λ s. elim (Bool-cases (same_slot t s)) [
    | inl same ↦
        let zero_pending : pend s p.delivered ≡ 0 =
          subst (λ x. pend x p.delivered ≡ 0) (same_slot-eq t s same) none_pending in
        omega (arith, release_locked-pend t p a held s, zero_pending)
    | inr other ↦
        let kept : count s (delete_leased t p.leased) ≡ count s p.leased =
          ground (arith, other, count-delete_leased s t p.leased) in
        omega (arith, release_locked-pend t p a held s, kept, pending s)
  ];
  unstarted = λ e. absurd (old (release_locked-new t p e));
}

-- Dispatching from accounts that balance.
pub dispatched-Safe : (p : SlotPool) → Safe p → Safe (dispatch_locked p)
dispatched-Safe p v = record {
  accounts =
      dispatch_locked-Accounts p v.accounts.unique v.accounts.balance (λ _. v.accounts.bound);
  pending = λ s. omega (
    arith,
    dispatch_locked-pend p (λ on x. omega (arith, v.accounts.balance on x, v.accounts.unique x)) s,
    v.pending s,
  );
  unstarted = λ e.
      unfold dispatch_locked in
      ground
        (arith, v.unstarted (sym (dispatch_locked-state p) ∙ e), sym (dispatch_locked-state p) ∙ e);
}

-- Forgetting a delivery changes no account.
pub taken-Safe : (w : ℕ) (p : SlotPool) → Safe p → Safe (take_delivery w p)
taken-Safe w p v = record {
  accounts = record {
    unique = v.accounts.unique;
    balance = v.accounts.balance;
    bound = v.accounts.bound;
  };
  pending = λ s. omega (arith, pend-take s w p.delivered, v.pending s);
  unstarted = v.unstarted;
}

pub delivered_held :
    (s : Slot) (w : ℕ) (p : SlotPool)
    → Safe p
    → delivery w p.delivered ≡ some (some s)
    → (0 < count s p.leased) × (pend s (take_delivery w p).delivered ≡ 0)
delivered_held s w p v h =
    let out = pend-taken s w p.delivered h in
    (
      omega (arith, out, v.pending s),
      omega (arith, out, v.pending s, v.accounts.bound s, v.accounts.unique s),
    )

pub returned-Safe :
    (s : Slot) (w : ℕ) (p : SlotPool)
    → Safe p
    → delivery w p.delivered ≡ some (some s)
    → Safe (release_locked s (take_delivery w p))
returned-Safe s w p v h =
    let u = taken-Safe w p v in
    let (held, gone) = delivered_held s w p v h in
    released-Safe s (take_delivery w p) u.accounts u.pending (not_new s p v.unstarted held) held
      gone

start_from-Safe :
    (st : PoolState) (valid : Bool) (p : SlotPool)
    → p.state ≡ st
    → Safe p
    → Safe (start_from st valid p).0
unfolding start_from
start_from-Safe new true p e v =
    let (no_free, no_leases) = v.unstarted e in
    record {
      accounts = record {
        unique = v.accounts.unique;
        balance = λ _ s. rw (no_free, no_leases) (omega arith);
        bound = v.accounts.bound;
      };
      pending = v.pending;
      unstarted = λ q. cc;
    }
start_from-Safe new false p e v = v
start_from-Safe ready valid p e v = v
start_from-Safe closing valid p e v = v
start_from-Safe closed valid p e v = v

begin_acquire-Safe : (p : SlotPool) → Safe p → Safe (begin_acquire p).0
unfolding begin_acquire
begin_acquire-Safe p v = elim (Bool-cases (is_ready p.state)) [
  | inl on ↦
      rw (on, begin_acquire)
        (dispatched-Safe
          (record p { waiters = p.waiters ++ p.next_waiter ∷ []; next_waiter = suc p.next_waiter })
          (record {
            accounts = record {
              unique = v.accounts.unique;
              balance = v.accounts.balance;
              bound = v.accounts.bound;
            };
            pending = v.pending;
            unstarted = v.unstarted;
          }))
  | inr off ↦ rw (off, begin_acquire) v
]

receive_result-Safe : (w : ℕ) (p : SlotPool) → Safe p → Safe (receive_result w p).0
unfolding receive_result
receive_result-Safe w p v = go (delivery w p.delivered) refl
  where
    go : (o : Option (Option Slot)) → delivery w p.delivered ≡ o → Safe (receive_result w p).0
    go none e = rw (e, receive_result) v
    go (some none) e = rw (e, receive_result) (taken-Safe w p v)
    go (some (some s)) e = elim (Bool-cases (is_ready p.state)) [
      | inl on ↦ rw (e, on, receive_result) (taken-Safe w p v)
      | inr off ↦ elim (Bool-cases (is_leased s p.leased)) [
        | inl out ↦ rw (e, off, out, receive_result) (returned-Safe s w p v e)
        | inr back ↦ rw (e, off, back, receive_result) (taken-Safe w p v)
      ]
    ]

abandon-Safe : (w : ℕ) (p : SlotPool) → Safe p → Safe (abandon w p).0
unfolding abandon
abandon-Safe w p v = go (delivery w p.delivered) refl
  where
    go : (o : Option (Option Slot)) → delivery w p.delivered ≡ o → Safe (abandon w p).0
    go none e =
        rw (e, abandon)
          (dispatched-Safe (record p { waiters = keep (λ x. not (x == w)) p.waiters })
            (record {
              accounts = record {
                unique = v.accounts.unique;
                balance = v.accounts.balance;
                bound = v.accounts.bound;
              };
              pending = v.pending;
              unstarted = v.unstarted;
            }))
    go (some none) e = rw (e, abandon) (dispatched-Safe (take_delivery w p) (taken-Safe w p v))
    go (some (some s)) e = rw (e, abandon) (returned-Safe s w p v e)

release_slot-Safe :
    (s : Slot) (p : SlotPool) → Safe p → pend s p.delivered ≡ 0 → Safe (release_slot s p).0
unfolding release_slot
release_slot-Safe s p v idle = elim (Bool-cases (is_leased s p.leased)) [
  | inl out ↦
      let held = is_leased-count s p.leased out in
      rw (out, release_slot)
        (released-Safe s p v.accounts v.pending (not_new s p v.unstarted held) held idle)
  | inr back ↦ rw (back, release_slot) v
]

close_from-Safe : (st : PoolState) (p : SlotPool) → p.state ≡ st → Safe p → Safe (close_from st p).0
unfolding close_from
close_from-Safe new p e v = record {
  accounts = record { unique = v.accounts.unique; balance = λ q. cc; bound = v.accounts.bound };
  pending = v.pending;
  unstarted = λ q. cc;
}
close_from-Safe ready p e v = elim (Bool-cases (is_nil p.leased)) [
  | inl empty ↦ rw (empty, close_from) (shut closed refl (λ q. cc) (p.closes + 1))
  | inr busy ↦ rw (busy, close_from) (shut closing refl (λ q. cc) p.closes)
]
  where
    shut :
        (st : PoolState)
        → is_ready st ≡ false
        → st ≢ new
        → (closes : ℕ)
        → Safe (record p {
          delivered = refusals p.waiters ++ p.delivered;
          waiters = [];
          state = st;
          closes = closes;
        })
    shut st off old closes = record {
      accounts = record {
        unique = v.accounts.unique;
        balance = λ on. absurd (ground (arith, on, off));
        bound = v.accounts.bound;
      };
      pending = λ s. rw (pend-refusals s p.waiters p.delivered) (v.pending s);
      unstarted = λ q. absurd (old q);
    }
close_from-Safe closing p e v = v
close_from-Safe closed p e v = v

-- Every critical section keeps the pool safe, if a caller releases only slots that were returned to
-- it: each slot is leased at most once, while the pool is ready each is free or leased, and each slot
-- on its way to a waiter is leased.
pub step-Safe : (e : Event) (p : SlotPool) → Allowed e p → Safe p → Safe (step e p).0
unfolding step start_pool begin_close
step-Safe (start valid) p a v = start_from-Safe p.state valid p refl v
step-Safe acquire p a v = begin_acquire-Safe p v
step-Safe (receive w) p a v = receive_result-Safe w p v
step-Safe (give_up w) p a v = abandon-Safe w p v
step-Safe (release s) p a v = release_slot-Safe s p v a
step-Safe close_event p a v = close_from-Safe p.state p refl v

-- A history in which every event is allowed.
abbrev pub AllAllowed : List Event → SlotPool → Type 0
AllAllowed [] p = Unit
AllAllowed (e ∷ es) p = Allowed e p × AllAllowed es (step e p).0

pub run-Safe : (es : List Event) (p : SlotPool) → AllAllowed es p → Safe p → Safe (run es p)
unfolding run
run-Safe [] p a v = v
run-Safe (e ∷ es) p a v = run-Safe es (step e p).0 a.1 (step-Safe e p a.0 v)
