-- ===== src/Executor/Tests.antt =====
-- Tasks that count down and wake themselves, for kernel/src/executor.rs.
use lemoncake.Base.{
  ℕ, zero, suc, ◌+◌, ◌≤◌, List, ◌++◌, ◌≡◌, refl, arith, true, false, [], ◌∷◌, some, done, length,
}
use lemoncake.Executor.Runtime.{Machine, Outcome}
use lemoncake.Executor.{Executor, new, create, spawn, run_ready_tasks}
use lemoncake.Executor.Reached.{Reach, Kept, Reach-Kept}
use lemoncake.Executor.Progress.{Budget, Polls, run_ready_tasks-empty}

-- The world is the number of wakes that are left; a future wakes itself once per poll, as long as some
-- are left, and is done at zero.
abbrev count_down : ℕ → ℕ → ℕ → Outcome ℕ ℕ
count_down id zero w = record { ready = true; future = zero; wakes = []; world = w }
count_down id (suc n) zero = record { ready = false; future = n; wakes = []; world = zero }
count_down id (suc n) (suc w) = record { ready = false; future = n; wakes = id ∷ []; world = w }

abbrev counting : Machine
counting = record {
  Future = ℕ;
  World = ℕ;
  poll = count_down;
  disable = λ w. w;
  enable = λ w. w;
  enable_and_hlt = λ w. ([], w);
}

count_down_spends :
    (id future w : ℕ) → length (count_down id future w).wakes + (count_down id future w).world ≤ w
count_down_spends id zero w = omega arith
count_down_spends id (suc n) zero = omega arith
count_down_spends id (suc n) (suc w) = omega arith

abbrev counting_budget : Budget counting
counting_budget = record { budget = λ w. w; spends = count_down_spends }

abbrev two_tasks : Executor counting
two_tasks = record { tasks = (1, 2) ∷ (0, 3) ∷ []; task_queue = 0 ∷ 1 ∷ []; waker_cache = [] }

two_tasks-Reach : Reach counting 2 two_tasks
unfolding new create spawn
two_tasks-Reach =
    Reach.spawned 2 (Reach.spawned 3 Reach.start (omega arith) refl) (omega arith) refl

Reach-Kept_example : Kept counting 2 two_tasks
Reach-Kept_example = Reach-Kept counting two_tasks-Reach

run_ready_tasks-empty_example :
    (e' : Executor counting) × (w' : ℕ) × (handled : List ℕ) × (woken : List ℕ) × (run_ready_tasks
        counting 22 two_tasks 20
      ≡ done (some (e', w')))
    × (e'.task_queue ≡ [])
    × Polls counting e'.tasks w' two_tasks.tasks 20 handled woken
    × (handled ≡ two_tasks.task_queue ++ woken)
run_ready_tasks-empty_example =
    run_ready_tasks-empty counting counting_budget 22 two_tasks 20 (omega arith) (omega arith)
