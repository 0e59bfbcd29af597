-- ===== src/Executor/Runtime.antt =====
-- What kernel/src/executor.rs needs of the futures and the processor.
use lemoncake.Base.{ℕ, Bool, List}

-- What a poll leaves: whether the future is done, the future, the tasks whose wakers it called, in
-- their order, and the world.
pub record Outcome (Future World : Type 0) : Type 0 where
  pub ready : Bool
  pub future : Future
  pub wakes : List ℕ
  pub world : World

pub record Machine : Type 1 where
  pub Future : Type 0
  pub World : Type 0
  -- with the waker of the task
  pub poll : ℕ → Future → World → Outcome Future World
  pub disable : World → World
  pub enable : World → World
  -- the tasks that are woken before it returns
  pub enable_and_hlt : World → List ℕ × World
