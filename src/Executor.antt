-- ===== src/Executor.antt =====
-- The executor of kernel/src/executor.rs: its tasks, the queue of those that are ready, and the cache
-- of their wakers. The futures and the machine that they run on are a parameter: a poll says whether
-- the future is done, and whom it woke in the meantime. A waker is the number of its task.
pub mod Runtime
pub mod Reached
pub mod Progress
mod Tests
use lemoncake.Base.{
  ℕ, zero, suc, ◌+◌, ◌%◌, ltb, if◌then◌else◌, Bool, true, false, List, [], ◌∷◌, ◌++◌, Option, none,
  some,
}
use lemoncake.Base.{Run, done, panic, ◌>>=◌, length, word, lookup, insert, remove}
use Runtime.{Machine, Outcome}

-- `ArrayQueue::new(100)`
abbrev pub capacity : ℕ
capacity = 100

-- `push` of the queue and `expect`
unfoldable pub push : ℕ → List ℕ → Run (List ℕ)
push id queue = if ltb (length queue) capacity then done (queue ++ id ∷ []) else panic

unfoldable pub wake_all : List ℕ → List ℕ → Run (List ℕ)
wake_all [] queue = done queue
wake_all (id ∷ ids) queue = push id queue >>= wake_all ids

module _ (machine : Machine) where
  open machine use {Future, World, poll, disable, enable, enable_and_hlt}

  pub record Task : Type 0 where
    pub id : ℕ
    pub future : Future

  pub record Executor : Type 0 where
    pub tasks : List (ℕ × Future)
    pub task_queue : List ℕ
    pub waker_cache : List (ℕ × ℕ)

  unfoldable pub new : Executor
  new = record { tasks = []; task_queue = []; waker_cache = [] }

  -- `Task::new` with the value of `NEXT_ID`, and that value afterwards
  unfoldable pub create : Future → ℕ → Task × ℕ
  create future next_id = (record { id = next_id; future = future }, (next_id + 1) % word)

  -- `or_insert_with`
  abbrev pub cached : ℕ → Option ℕ → List (ℕ × ℕ) → List (ℕ × ℕ)
  cached id (some waker) cache = cache
  cached id none cache = insert id id cache

  unfoldable pub spawn : Task → Executor → Run Executor
  unfolding push
  spawn task e = elim (lookup task.id e.tasks) [
    | some old ↦ panic
    | none ↦ push task.id e.task_queue >>= λ queue.
        done (record e { tasks = insert task.id task.future e.tasks; task_queue = queue })
  ]

  -- The `match` on what the poll returns.
  abbrev pub settle : ℕ → Bool → Future → Executor → Executor
  settle id true future e = record e {
    tasks = remove id e.tasks;
    waker_cache = remove id e.waker_cache;
  }
  settle id false future e = record e { tasks = insert id future (remove id e.tasks) }

  -- The poll of one task: the wakers that it calls push to the queue.
  abbrev pub after_poll : ℕ → Outcome Future World → Executor → Run (Executor × World)
  after_poll id p e = do
    queue ← wake_all p.wakes e.task_queue
    done (settle id p.ready p.future (record e { task_queue = queue }), p.world)

  unfoldable pub turn : ℕ → Executor → World → Run (Executor × World)
  unfolding wake_all
  turn id e w = elim (lookup id e.tasks) [
    | none ↦ done (e, w)
    | some future ↦
        after_poll id (poll id future w)
          (record e { waker_cache = cached id (lookup id e.waker_cache) e.waker_cache })
  ]

  -- `while let Some(task_id) = task_queue.pop()`; nothing when the fuel is used up.
  unfoldable pub run_queue : ℕ → List ℕ → Executor → World → Run (Option (Executor × World))
  unfolding turn
  run_queue fuel [] e w = done (some (e, w))
  run_queue zero (id ∷ queue) e w = done none
  run_queue (suc fuel) (id ∷ queue) e w =
      turn id (record e { task_queue = queue }) w >>= λ (e', w'). run_queue fuel e'.task_queue e' w'

  unfoldable pub run_ready_tasks : ℕ → Executor → World → Run (Option (Executor × World))
  unfolding run_queue
  run_ready_tasks fuel e w = run_queue fuel e.task_queue e w

  -- What interrupts the halt wakes tasks.
  abbrev pub halted : Executor → List ℕ × World → Run (Executor × World)
  halted e (wakes, w) =
      wake_all wakes e.task_queue >>= λ queue. done (record e { task_queue = queue }, w)

  unfoldable pub sleep_if_idle : Executor → World → Run (Executor × World)
  unfolding wake_all
  sleep_if_idle e w = elim e.task_queue [
    | [] ↦ halted e (enable_and_hlt (disable w))
    | _ ↦ done (e, enable (disable w))
  ]

  -- One round of the loop of `run`.
  unfoldable pub run_round : ℕ → Executor → World → Run (Option (Executor × World))
  unfolding run_ready_tasks sleep_if_idle
  run_round fuel e w = run_ready_tasks fuel e w >>= rested
    where
      rested : Option (Executor × World) → Run (Option (Executor × World))
      rested none = done none
      rested (some (e', w')) = sleep_if_idle e' w' >>= λ r. done (some r)
