-- ===== src/Pool/Machine.antt =====
-- SlotPool (internal/capsule/pool.go). Each critical section under the pool's mutex is one event.
-- A call of Acquire is the event `acquire`, which makes a waiter, and later one of `receive` and
-- `give_up` on it: the two cases of its select. `closes` counts the closings of the channel `closed`,
-- of which a second would panic.
use command_prompter_doc_bot.Prelude.{
  ℕ, suc, ◌+◌, Bool, true, false, not, ◌&&◌, Option, none, some, List, [], ◌∷◌, ◌++◌, ◌==◌,
  if◌then◌else◌, any, keep, Result, ok, err, ◌>>=◌,
}
use command_prompter_doc_bot.Pool.Slots.{
  PoolError, unavailable, done, Slot, Paths, check_slots, same_slot,
}

pub data PoolState : Type 0 where
  new ready closing closed : PoolState

-- What a waiter's channel holds: a slot, which is also the waiter's `slot`, or an error.
pub record Delivery : Type 0 where
  pub waiter : ℕ
  pub slot : Option Slot

pub record SlotPool : Type 0 where
  pub slots : List Slot
  pub state : PoolState
  pub free : List Slot
  pub leased : List Slot
  pub waiters : List ℕ
  pub delivered : List Delivery
  pub next_waiter : ℕ
  pub closes : ℕ

unfoldable pub new_slot_pool : Paths → List Slot → Result PoolError SlotPool
new_slot_pool paths [] = err unavailable
new_slot_pool paths (s ∷ slots) = do
  checked ← check_slots paths [] [] (s ∷ slots)
  ok (record {
    slots = checked;
    state = new;
    free = [];
    leased = [];
    waiters = [];
    delivered = [];
    next_waiter = 0;
    closes = 0;
  })

-- `leased` is a set: a key is added once, and deleted wherever it stands.
abbrev pub is_leased : Slot → List Slot → Bool
is_leased s = any (λ t. same_slot t s)

abbrev pub add_leased : Slot → List Slot → List Slot
add_leased s leased = if is_leased s leased then leased else s ∷ leased

abbrev pub delete_leased : Slot → List Slot → List Slot
delete_leased s = keep (λ t. not (same_slot t s))

abbrev pub handed : ℕ → Slot → SlotPool → SlotPool
handed w s p = record p {
  leased = add_leased s p.leased;
  delivered = record { waiter = w; slot = some s } ∷ p.delivered;
}

-- The loop of dispatchLocked over the waiters and the free slots.
unfoldable pub hand_out : List ℕ → List Slot → SlotPool → SlotPool
hand_out (w ∷ ws) (s ∷ fs) p = hand_out ws fs (handed w s p)
hand_out [] fs p = record p { waiters = []; free = fs }
hand_out (w ∷ ws) [] p = record p { waiters = w ∷ ws; free = [] }

abbrev pub is_ready : PoolState → Bool
is_ready ready = true
is_ready _ = false

abbrev pub is_closing : PoolState → Bool
is_closing closing = true
is_closing _ = false

abbrev pub is_nil {ℓ} : {A : Type ℓ} → List A → Bool
is_nil [] = true
is_nil (x ∷ xs) = false

unfoldable pub dispatch_locked : SlotPool → SlotPool
dispatch_locked p = if is_ready p.state then hand_out p.waiters p.free p else p

unfoldable pub release_locked : Slot → SlotPool → SlotPool
release_locked slot p =
    let q = record p { leased = delete_leased slot p.leased } in
    if is_ready q.state
    then dispatch_locked (record q { free = q.free ++ slot ∷ [] })
    else if is_closing q.state && is_nil q.leased
    then record q { state = closed; closes = q.closes + 1 }
    else q

pub data Event : Type 0 where
  start : Bool → Event
  acquire close_event : Event
  receive give_up : ℕ → Event
  release : Slot → Event

pub data Reply : Type 0 where
  nothing : Reply
  waits : ℕ → Reply
  has_slot : Slot → Reply
  refused : PoolError → Reply

-- `valid` is the verdict of validateTopology on the file system.
unfoldable pub start_from : PoolState → Bool → SlotPool → SlotPool × Reply
start_from new true p = (record p { free = p.free ++ p.slots; state = ready }, nothing)
start_from _ valid p = (p, refused unavailable)

unfoldable pub start_pool : Bool → SlotPool → SlotPool × Reply
start_pool valid p = start_from p.state valid p

-- Acquire up to its select.
unfoldable pub begin_acquire : SlotPool → SlotPool × Reply
begin_acquire p =
    if is_ready p.state
    then (
      dispatch_locked
          (record p { waiters = p.waiters ++ p.next_waiter ∷ []; next_waiter = suc p.next_waiter }),
      waits p.next_waiter,
    )
    else (p, refused unavailable)

abbrev pub delivery : ℕ → List Delivery → Option (Option Slot)
delivery w [] = none
delivery w (d ∷ ds) = if d.waiter == w then some d.slot else delivery w ds

abbrev pub take_delivery : ℕ → SlotPool → SlotPool
take_delivery w p = record p {
  delivered = keep (λ (d : Delivery). not (d.waiter == w)) p.delivered;
}

-- The first case of the select: the waiter's channel has a result.
unfoldable pub receive_result : ℕ → SlotPool → SlotPool × Reply
receive_result w p = elim (delivery w p.delivered) [
  | none ↦ (p, waits w)
  | some none ↦ (take_delivery w p, refused unavailable)
  | some (some s) ↦
      let q = take_delivery w p in
      if is_ready q.state
      then (q, has_slot s)
      else (if is_leased s q.leased then release_locked s q else q, refused unavailable)
]

-- The second case: the context is done.
unfoldable pub abandon : ℕ → SlotPool → SlotPool × Reply
abandon w p = elim (delivery w p.delivered) [
  | some (some s) ↦ (release_locked s (take_delivery w p), refused done)
  | some none ↦ (dispatch_locked (take_delivery w p), refused done)
  | none ↦
      (dispatch_locked (record p { waiters = keep (λ v. not (v == w)) p.waiters }), refused done)
]

unfoldable pub release_slot : Slot → SlotPool → SlotPool × Reply
release_slot s p =
    if is_leased s p.leased then (release_locked s p, nothing) else (p, refused unavailable)

abbrev pub refusals : List ℕ → List Delivery
refusals [] = []
refusals (w ∷ ws) = record { waiter = w; slot = none } ∷ refusals ws

-- Close up to its select.
unfoldable pub close_from : PoolState → SlotPool → SlotPool × Reply
close_from new p = (record p { state = closed; closes = p.closes + 1 }, nothing)
close_from ready p =
    let q = record p { delivered = refusals p.waiters ++ p.delivered; waiters = [] } in
    if is_nil q.leased
    then (record q { state = closed; closes = q.closes + 1 }, nothing)
    else (record q { state = closing }, nothing)
close_from closing p = (p, nothing)
close_from closed p = (p, nothing)

unfoldable pub begin_close : SlotPool → SlotPool × Reply
begin_close p = close_from p.state p

unfoldable pub step : Event → SlotPool → SlotPool × Reply
step (start valid) p = start_pool valid p
step acquire p = begin_acquire p
step (receive w) p = receive_result w p
step (give_up w) p = abandon w p
step (release s) p = release_slot s p
step close_event p = begin_close p

unfoldable pub run : List Event → SlotPool → SlotPool
run [] p = p
run (e ∷ es) p = run es (step e p).0
