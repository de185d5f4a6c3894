-- ===== src/Pool/Phases.antt =====
-- The life of a pool: no waiter waits while a slot is free, and closing ends once, when the last
-- lease ends (internal/capsule/pool.go).
use command_prompter_doc_bot.Prelude.{
  ℕ, suc, ◌≡◌, refl, ap, inl, inr, Bool, true, false, not, Option, none, some, [], ◌∷◌, ◌++◌, ◌==◌,
  arith, keep, Bool-cases,
}
use command_prompter_doc_bot.Pool.Slots.{Slot}
use command_prompter_doc_bot.Pool.Machine.{
  SlotPool, PoolState, new, ready, closing, closed, is_leased, release_locked, is_ready, is_nil,
  delivery, take_delivery, Event, start, acquire, receive, give_up, release, close_event,
  start_pool, start_from, close_from, begin_acquire, receive_result, abandon, release_slot,
  begin_close, step,
}
use command_prompter_doc_bot.Pool.Counting.{is_leased-count}
use command_prompter_doc_bot.Pool.Safety.{Safe, delivered_held}
use command_prompter_doc_bot.Pool.Draining.{
  Phases, dispatchable, dispatch_locked-Phases, ready_state, nil_of_is_nil, release_locked-Phases,
  leased_open, taken-Phases,
}

start_from-Phases :
    (st : PoolState) (valid : Bool) (p : SlotPool)
    → p.state ≡ st
    → Phases p
    → Phases (start_from st valid p).0
unfolding start_from
start_from-Phases new true p e v = record {
  no_lost_wakeup = λ _. inl (v.no_waiters (ap is_ready e));
  no_waiters = λ off. cc;
  draining = λ q. cc;
  drained = λ q. cc;
  unstarted = λ q. cc;
  closed_once = λ q. cc;
  open_channel = λ _. v.open_channel (λ q. ground (arith, e, q));
}
start_from-Phases new false p e v = v
start_from-Phases ready valid p e v = v
start_from-Phases closing valid p e v = v
start_from-Phases closed valid p e v = v

begin_acquire-Phases : (p : SlotPool) → Phases p → Phases (begin_acquire p).0
unfolding begin_acquire
begin_acquire-Phases p v = elim (Bool-cases (is_ready p.state)) [
  | inl on ↦
      let on_duty : p.state ≡ ready = ready_state p.state on in
      rw (on, begin_acquire)
        (dispatch_locked-Phases
          (record p { waiters = p.waiters ++ p.next_waiter ∷ []; next_waiter = suc p.next_waiter })
          (record {
            off_duty = λ off. absurd (ground (arith, on, off));
            busy = v.draining;
            over = v.drained;
            fresh = v.unstarted;
            once = v.closed_once;
            unshut = v.open_channel;
          }))
  | inr off ↦ rw (off, begin_acquire) v
]

close_from-Phases :
    (st : PoolState) (p : SlotPool) → p.state ≡ st → Phases p → Phases (close_from st p).0
unfolding close_from
close_from-Phases new p e v = record {
  no_lost_wakeup = λ on. cc;
  no_waiters = λ _. v.no_waiters (ap is_ready e);
  draining = λ q. cc;
  drained = λ _. v.unstarted e;
  unstarted = λ q. cc;
  closed_once = λ _. omega (arith, v.open_channel (λ q. ground (arith, e, q)));
  open_channel = λ h. absurd (h refl);
}
close_from-Phases ready p e v = elim (Bool-cases (is_nil p.leased)) [
  | inl empty ↦
      rw (empty, close_from)
        (record {
          no_lost_wakeup = λ on. cc;
          no_waiters = λ _. refl;
          draining = λ q. cc;
          drained = λ _. nil_of_is_nil _ empty;
          unstarted = λ q. cc;
          closed_once = λ _. omega (arith, v.open_channel (λ q. ground (arith, e, q)));
          open_channel = λ h. absurd (h refl);
        })
  | inr busy ↦
      rw (busy, close_from)
        (record {
          no_lost_wakeup = λ on. cc;
          no_waiters = λ _. refl;
          draining = λ _. busy;
          drained = λ q. cc;
          unstarted = λ q. cc;
          closed_once = λ q. cc;
          open_channel = λ _. v.open_channel (λ q. ground (arith, e, q));
        })
]
close_from-Phases closing p e v = v
close_from-Phases closed p e v = v

returned-Phases :
    (s : Slot) (w : ℕ) (p : SlotPool)
    → Safe p
    → Phases p
    → delivery w p.delivered ≡ some (some s)
    → Phases (release_locked s (take_delivery w p))
returned-Phases s w p u v e =
    let (open_still, started) = leased_open s p v (delivered_held s w p u e).0 in
    release_locked-Phases s (take_delivery w p) (taken-Phases w p v) open_still started

receive_result-Phases : (w : ℕ) (p : SlotPool) → Safe p → Phases p → Phases (receive_result w p).0
unfolding receive_result
receive_result-Phases w p u v = go (delivery w p.delivered) refl
  where
    go : (o : Option (Option Slot)) → delivery w p.delivered ≡ o → Phases (receive_result w p).0
    go none e = rw (e, receive_result) v
    go (some none) e = rw (e, receive_result) (taken-Phases w p v)
    go (some (some s)) e = elim (Bool-cases (is_ready p.state)) [
      | inl on ↦ rw (e, on, receive_result) (taken-Phases w p v)
      | inr off ↦ elim (Bool-cases (is_leased s p.leased)) [
        | inl out ↦ rw (e, off, out, receive_result) (returned-Phases s w p u v e)
        | inr back ↦ rw (e, off, back, receive_result) (taken-Phases w p v)
      ]
    ]

abandon-Phases : (w : ℕ) (p : SlotPool) → Safe p → Phases p → Phases (abandon w p).0
unfolding abandon
abandon-Phases w p u v = go (delivery w p.delivered) refl
  where
    go : (o : Option (Option Slot)) → delivery w p.delivered ≡ o → Phases (abandon w p).0
    go none e =
        rw (e, abandon)
          (dispatch_locked-Phases (record p { waiters = keep (λ x. not (x == w)) p.waiters })
            (record {
              off_duty = λ off. rw (v.no_waiters off) refl;
              busy = v.draining;
              over = v.drained;
              fresh = v.unstarted;
              once = v.closed_once;
              unshut = v.open_channel;
            }))
    go (some none) e =
        rw (e, abandon)
          (dispatch_locked-Phases (take_delivery w p)
            (dispatchable (take_delivery w p) (taken-Phases w p v)))
    go (some (some s)) e = rw (e, abandon) (returned-Phases s w p u v e)

release_slot-Phases : (s : Slot) (p : SlotPool) → Phases p → Phases (release_slot s p).0
unfolding release_slot
release_slot-Phases s p v = elim (Bool-cases (is_leased s p.leased)) [
  | inl out ↦
      let (open_still, started) = leased_open s p v (is_leased-count s p.leased out) in
      rw (out, release_slot) (release_locked-Phases s p v open_still started)
  | inr back ↦ rw (back, release_slot) v
]

-- Every critical section of a safe pool keeps its phases: a ready pool with a waiter has no free
-- slot, no waiter stays in a pool that is not ready, a closing pool has a lease and a closed one has
-- none, and the channel is closed once, exactly when the pool is.
pub step-Phases : (e : Event) (p : SlotPool) → Safe p → Phases p → Phases (step e p).0
unfolding step start_pool begin_close
step-Phases (start valid) p u v = start_from-Phases p.state valid p refl v
step-Phases acquire p u v = begin_acquire-Phases p v
step-Phases (receive w) p u v = receive_result-Phases w p u v
step-Phases (give_up w) p u v = abandon-Phases w p u v
step-Phases (release s) p u v = release_slot-Phases s p v
step-Phases close_event p u v = close_from-Phases p.state p refl v
