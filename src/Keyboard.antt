-- ===== src/Keyboard.antt =====
-- The queue of scancodes of kernel/src/keyboard.rs, between the interrupt handler that fills it and
-- the stream that the command line awaits. Each function here is one step that nothing interrupts:
-- `add_scancode` in the handler, and the parts of `poll_next`, which the handler can interrupt.
pub mod Shared
pub mod Wake
mod Tests
use lemoncake.Base.{ℕ, Bool, true, false, Option, none, some, Run, done, panic, ◌>>=◌}
use Shared.{Crates}

-- `SCANCODE_QUEUE` and `WAKER`
pub record Keys (crates : Crates) : Type 0 where
  pub queue : Option crates.Queue
  pub waker : crates.Waker

-- `ArrayQueue::new(100)`
abbrev pub queue_size : ℕ
queue_size = 100

module _ (crates : Crates) where
  open crates use {Queue, new_queue, push, pop, no_waker, wake, take}

  unfoldable pub uninit : Keys crates
  uninit = record { queue = none; waker = no_waker }

  -- `ScancodeStream::new`, which may be called once.
  unfoldable pub new_stream : Keys crates → Run (Keys crates)
  new_stream s = elim s.queue [
    | none ↦ done (record s { queue = some (new_queue queue_size) })
    | some q ↦ panic
  ]

  -- A scancode that does not fit is dropped.
  abbrev pub pushed : Keys crates → Bool × Queue → Keys crates
  pushed s (true, q) = record { queue = some q; waker = wake s.waker }
  pushed s (false, q) = record s { queue = some q }

  unfoldable pub add_scancode : ℕ → Keys crates → Run (Keys crates)
  add_scancode scancode s = elim s.queue [
    | none ↦ panic
    | some q ↦ done (pushed s (push scancode q))
  ]

  abbrev pub popped : Keys crates → Option ℕ × Queue → Option ℕ × Keys crates
  popped s (r, q) = (r, record s { queue = some q })

  -- The fast path of `poll_next`.
  unfoldable pub first_pop : Keys crates → Run (Option ℕ × Keys crates)
  first_pop s = elim s.queue [ none ↦ panic | some q ↦ done (popped s (pop q)) ]

  -- `WAKER.register(cx.waker())`
  unfoldable pub register : Keys crates → Keys crates
  register s = record s { waker = crates.register s.waker }

  -- `WAKER.take()` where there is a scancode
  abbrev pub taken : Option ℕ × Keys crates → Option ℕ × Keys crates
  taken (none, s) = (none, s)
  taken (some c, s) = (some c, record s { waker = take s.waker })

  unfoldable pub second_pop : Keys crates → Run (Option ℕ × Keys crates)
  second_pop s = elim s.queue [ none ↦ panic | some q ↦ done (taken (popped s (pop q))) ]

  -- `poll_next` without an interrupt; no scancode stands for `Poll::Pending`.
  unfoldable pub poll_next : Keys crates → Run (Option ℕ × Keys crates)
  unfolding first_pop second_pop register
  poll_next s = first_pop s >>= λ r. elim r.0 [ some c ↦ done r | none ↦ second_pop (register r.1) ]
