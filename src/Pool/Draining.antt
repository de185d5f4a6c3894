-- ===== src/Pool/Draining.antt =====
-- What dispatchLocked and releaseLocked do to the phases of a pool (internal/capsule/pool.go).
use command_prompter_doc_bot.Prelude.{
  ℕ, ◌<◌, ◌≡◌, ◌≢◌, refl, ap, ◌∙◌, ◌⊎◌, inl, inr, true, false, List, [], ◌∷◌, ◌++◌, arith,
  Bool-cases,
}
use command_prompter_doc_bot.Pool.Slots.{Slot, count}
use command_prompter_doc_bot.Pool.Machine.{
  SlotPool, PoolState, new, ready, closing, closed, delete_leased, hand_out, dispatch_locked,
  release_locked, is_ready, is_closing, is_nil, take_delivery,
}
use command_prompter_doc_bot.Pool.Invariant.{hand_out_keeps}

pub record Phases (p : SlotPool) : Type 0 where
  pub no_lost_wakeup : is_ready p.state ≡ true → (p.waiters ≡ []) ⊎ (p.free ≡ [])
  pub no_waiters : is_ready p.state ≡ false → p.waiters ≡ []
  pub draining : p.state ≡ closing → is_nil p.leased ≡ false
  pub drained : p.state ≡ closed → p.leased ≡ []
  pub unstarted : p.state ≡ new → p.leased ≡ []
  pub closed_once : p.state ≡ closed → p.closes ≡ 1
  pub open_channel : p.state ≢ closed → p.closes ≡ 0

-- What dispatching needs of the pool.
pub record Dispatchable (p : SlotPool) : Type 0 where
  pub off_duty : is_ready p.state ≡ false → p.waiters ≡ []
  pub busy : p.state ≡ closing → is_nil p.leased ≡ false
  pub over : p.state ≡ closed → p.leased ≡ []
  pub fresh : p.state ≡ new → p.leased ≡ []
  pub once : p.state ≡ closed → p.closes ≡ 1
  pub unshut : p.state ≢ closed → p.closes ≡ 0

pub dispatchable : (p : SlotPool) → Phases p → Dispatchable p
dispatchable p v = record {
  off_duty = v.no_waiters;
  busy = v.draining;
  over = v.drained;
  fresh = v.unstarted;
  once = v.closed_once;
  unshut = v.open_channel;
}

pub ready_state : (st : PoolState) → is_ready st ≡ true → st ≡ ready
ready_state ready h = refl
ready_state _ h = cc

pub dispatch_locked-Phases : (p : SlotPool) → Dispatchable p → Phases (dispatch_locked p)
unfolding dispatch_locked
dispatch_locked-Phases p d = elim (Bool-cases (is_ready p.state)) [
  | inl on ↦
      let (state, _, closes, idle) = hand_out_keeps p.waiters p.free p in
      let on_duty : p.state ≡ ready = ready_state p.state on in
      let still : (hand_out p.waiters p.free p).state ≡ ready = state ∙ on_duty in
      rw (on, dispatch_locked)
        (record {
          no_lost_wakeup = λ _. idle;
          no_waiters = λ off. absurd (ground (arith, off, still));
          draining = λ e. absurd (ground (arith, e, still));
          drained = λ e. absurd (ground (arith, e, still));
          unstarted = λ e. absurd (ground (arith, e, still));
          closed_once = λ e. absurd (ground (arith, e, still));
          open_channel = λ _. closes ∙ d.unshut (λ e. ground (arith, e, on_duty));
        })
  | inr off ↦
      rw (off, dispatch_locked)
        (record {
          no_lost_wakeup = λ on. absurd (ground (arith, on, off));
          no_waiters = d.off_duty;
          draining = d.busy;
          drained = d.over;
          unstarted = d.fresh;
          closed_once = d.once;
          open_channel = d.unshut;
        })
]

pub nil_of_is_nil {ℓ} : {A : Type ℓ} (l : List A) → is_nil l ≡ true → l ≡ []
nil_of_is_nil [] h = refl
nil_of_is_nil (x ∷ l) h = cc

ended : (st : PoolState) → st ≢ closed → st ≢ new → is_ready st ≡ false → st ≡ closing
ended new a b off = absurd (b refl)
ended ready a b off = cc
ended closing a b off = refl
ended closed a b off = absurd (a refl)

pub release_locked-Phases :
    (s : Slot) (p : SlotPool)
    → Phases p
    → p.state ≢ closed
    → p.state ≢ new
    → Phases (release_locked s p)
unfolding release_locked
release_locked-Phases s p v open_still started = elim (Bool-cases (is_ready p.state)) [
  | inl on ↦
      let on_duty : p.state ≡ ready = ready_state p.state on in
      rw (on, release_locked)
        (dispatch_locked-Phases
          (record p { leased = delete_leased s p.leased; free = p.free ++ s ∷ [] })
          (record {
            off_duty = v.no_waiters;
            busy = λ e. absurd (ground (arith, e, on_duty));
            over = λ e. absurd (open_still e);
            fresh = λ e. absurd (started e);
            once = v.closed_once;
            unshut = v.open_channel;
          }))
  | inr off ↦
      let st : p.state ≡ closing = ended p.state open_still started off in
      let shutting : is_closing p.state ≡ true = ap is_closing st in
      elim (Bool-cases (is_nil (delete_leased s p.leased))) [
        | inl last ↦
            rw (off, shutting, last, release_locked)
              (record {
                no_lost_wakeup = λ on. cc;
                no_waiters = λ _. v.no_waiters off;
                draining = λ e. cc;
                drained = λ _. nil_of_is_nil _ last;
                unstarted = λ e. cc;
                closed_once = λ _. omega (arith, v.open_channel open_still);
                open_channel = λ h. absurd (h refl);
              })
        | inr more ↦
            rw (off, shutting, more, release_locked)
              (record {
                no_lost_wakeup = λ on. absurd (ground (arith, on, off));
                no_waiters = v.no_waiters;
                draining = λ _. more;
                drained = λ e. absurd (open_still e);
                unstarted = λ e. absurd (started e);
                closed_once = v.closed_once;
                open_channel = v.open_channel;
              })
      ]
]

-- A leased slot shows that the pool is open.
pub leased_open :
    (s : Slot) (p : SlotPool)
    → Phases p
    → 0 < count s p.leased
    → (p.state ≢ closed) × (p.state ≢ new)
leased_open s p v out = (
  (λ e. ground (arith, ap (count s) (v.drained e), out)),
  (λ e. ground (arith, ap (count s) (v.unstarted e), out)),
)

pub taken-Phases : (w : ℕ) (p : SlotPool) → Phases p → Phases (take_delivery w p)
taken-Phases w p v = record {
  no_lost_wakeup = v.no_lost_wakeup;
  no_waiters = v.no_waiters;
  draining = v.draining;
  drained = v.drained;
  unstarted = v.unstarted;
  closed_once = v.closed_once;
  open_channel = v.open_channel;
}
