-- ===== src/Pool/Examples.antt =====
-- A pool of two slots (internal/capsule/pool.go).
use command_prompter_doc_bot.Prelude.{◌≡◌, ◌≢◌, refl, true, List, [], ◌∷◌, Result, ok, err}
use command_prompter_doc_bot.Pool.Slots.{Slot, Paths, PoolError, new_slot, check_slots}
use command_prompter_doc_bot.Pool.Machine.{
  SlotPool, closing, closed, new_slot_pool, Event, start, acquire, receive, give_up, release,
  close_event, has_slot, step, run, start_pool, start_from, begin_acquire, receive_result,
  release_slot, release_locked, dispatch_locked, hand_out, begin_close, close_from, abandon,
}
use command_prompter_doc_bot.Pool.Safety.{Safe, AllAllowed}
use command_prompter_doc_bot.Pool.Draining.{Phases}
use command_prompter_doc_bot.Pool.Exclusion.{AllAnswers, receive_exclusive}
use command_prompter_doc_bot.Pool.Lifecycle.{run-Safe-Phases, run-releases, releases}

abbrev plain : Paths
plain = record { clean = λ s. s; is_abs = λ s. true; trim_space = λ s. s; normalized_path = λ s. s }

abbrev left : Slot
left = record { name = "left"; socket_path = "/run/left/capsule.sock" }

abbrev right : Slot
right = record { name = "right"; socket_path = "/run/right/capsule.sock" }

abbrev pool_of : Result PoolError SlotPool → SlotPool
pool_of (ok p) = p
pool_of (err e) = record {
  slots = [];
  state = closed;
  free = [];
  leased = [];
  waiters = [];
  delivered = [];
  next_waiter = 0;
  closes = 0;
}

abbrev pair : SlotPool
pair = pool_of (new_slot_pool plain (left ∷ right ∷ []))

pair-ok : new_slot_pool plain (left ∷ right ∷ []) ≡ ok pair
unfolding new_slot_pool check_slots new_slot
pair-ok = refl

-- Three callers want a slot, two get one, the pool closes, and one of them is back.
abbrev day : List Event
day =
    start true
    ∷ acquire
    ∷ acquire
    ∷ acquire
    ∷ receive 0
    ∷ receive 1
    ∷ close_event
    ∷ give_up 2
    ∷ release left
    ∷ []

day-AllAllowed : AllAllowed day pair
unfolding new_slot_pool check_slots new_slot step start_pool start_from begin_acquire receive_result
    release_slot release_locked dispatch_locked hand_out begin_close close_from abandon
day-AllAllowed = (tt, (tt, (tt, (tt, (tt, (tt, (tt, (tt, (refl, tt)))))))))

run-Safe-Phases_example : Safe (run day pair) × Phases (run day pair)
run-Safe-Phases_example = run-Safe-Phases plain (left ∷ right ∷ []) pair day pair-ok day-AllAllowed

closing_pool : (run day pair).state ≡ closing
unfolding run new_slot_pool check_slots new_slot step start_pool start_from begin_acquire
    receive_result release_slot release_locked dispatch_locked hand_out begin_close close_from
    abandon
closing_pool = refl

run-releases_example : (run (releases (run day pair).leased) (run day pair)).state ≡ closed
run-releases_example =
    run-releases (run day pair) run-Safe-Phases_example.0 run-Safe-Phases_example.1 closing_pool

abbrev opening : List Event
opening = start true ∷ acquire ∷ acquire ∷ []

opening-AllAllowed : AllAllowed opening pair
opening-AllAllowed = (tt, (tt, (tt, tt)))

abbrev meanwhile : List Event
meanwhile = receive 1 ∷ release right ∷ acquire ∷ receive 2 ∷ close_event ∷ []

receive_exclusive_example :
    AllAnswers (λ r. r ≢ has_slot left) meanwhile (step (receive 0) (run opening pair)).0
unfolding run new_slot_pool check_slots new_slot step start_pool start_from begin_acquire
    receive_result release_slot release_locked dispatch_locked hand_out begin_close close_from
    abandon
receive_exclusive_example =
    receive_exclusive left 0 (run opening pair) meanwhile
      (run-Safe-Phases plain (left ∷ right ∷ []) pair opening pair-ok opening-AllAllowed).0 refl
      (tt, (refl, (tt, (tt, (tt, tt))))) (tt, (refl, (tt, (tt, (tt, tt)))))
