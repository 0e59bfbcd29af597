-- ===== src/Keyboard/Shared.antt =====
-- What kernel/src/keyboard.rs needs of the crates crossbeam_queue and futures_util: a queue of fixed
-- size and a place for the waker of a task.
use lemoncake.Base.{ℕ, ◌<◌, ◌≡◌, Bool, true, false, Option, none}

pub record Crates : Type 1 where
  pub Queue : Type 0
  pub Waker : Type 0
  -- `ArrayQueue::new`
  pub new_queue : ℕ → Queue
  -- `ArrayQueue::push`, with whether it succeeded
  pub push : ℕ → Queue → Bool × Queue
  pub pop : Queue → Option ℕ × Queue
  -- `AtomicWaker::new`, and what its functions leave
  pub no_waker : Waker
  pub register : Waker → Waker
  pub wake : Waker → Waker
  pub take : Waker → Waker

-- What the crates document: a queue that refuses a number is full and stays as it is, a queue is
-- empty where nothing can be popped, and `wake` calls the waker that was registered last, once.
pub record Documented (crates : Crates) : Type 0 where
  pub waiting : crates.Queue → ℕ
  -- the waker of the task is held, or has been called since it was registered
  pub holds : crates.Waker → Bool
  pub called : crates.Waker → Bool
  pub refused :
      (c : ℕ) (q q' : crates.Queue) → crates.push c q ≡ (false, q') → (0 < waiting q) × (q' ≡ q)
  pub nothing : (q q' : crates.Queue) → crates.pop q ≡ (none, q') → waiting q' ≡ 0
  pub registers : (w : crates.Waker) → holds (crates.register w) ≡ true
  pub uncalled : (w : crates.Waker) → called (crates.register w) ≡ false
  pub calls : (w : crates.Waker) → holds w ≡ true → called (crates.wake w) ≡ true
  pub stays : (w : crates.Waker) → called w ≡ true → called (crates.wake w) ≡ true
