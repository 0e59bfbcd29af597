-- ===== src/Executor/Progress.antt =====
-- `run_ready_tasks` of kernel/src/executor.rs comes to an end when the tasks wake each other a bounded
-- number of times.
use lemoncake.Base.{
  ℕ, zero, suc, ◌+◌, ◌≤◌, ◌≡◌, inl, inr, refl, ap, arith, Bool, true, false, ltb, lt→ltb,
}
use lemoncake.Base.{
  List, [], ◌∷◌, ◌++◌, some, Option-cases, done, length, length-append, lookup, none, insert,
  remove,
}
use mathlib.Core.Path.{subst, sym, ◌∙◌}
use lemoncake.Executor.Runtime.{Machine}
use lemoncake.Executor.{
  capacity, push, wake_all, Executor, cached, settle, turn, run_queue, run_ready_tasks,
}

append_none {ℓ} : {A : Type ℓ} (xs : List A) → xs ++ [] ≡ xs
append_none [] = refl
append_none (x ∷ xs) = ap (λ t. x ∷ t) (append_none xs)

append_assoc {ℓ} : {A : Type ℓ} (xs ys zs : List A) → (xs ++ ys) ++ zs ≡ xs ++ (ys ++ zs)
append_assoc [] ys zs = refl
append_assoc (x ∷ xs) ys zs = ap (λ t. x ∷ t) (append_assoc xs ys zs)

wake_all_done :
    (ids queue : List ℕ)
    → length ids + length queue ≤ capacity
    → wake_all ids queue ≡ done (queue ++ ids)
unfolding wake_all push
wake_all_done [] queue h = ap done (sym (append_none queue))
wake_all_done (id ∷ ids) queue h =
    let room : ltb (length queue) capacity ≡ true = lt→ltb _ _ (omega (arith, h)) in
    let size : length (queue ++ id ∷ []) ≡ length queue + 1 = length-append queue (id ∷ []) in
    rw room (wake_all_done ids (queue ++ id ∷ []) (omega (arith, h, size)))
    ∙ ap done (append_assoc queue (id ∷ []) ids)

module _ (machine : Machine) where
  open machine use {Future, World, poll}

  -- A world that bounds how often polls call wakers from then on.
  pub record Budget : Type 0 where
    pub budget : World → ℕ
    pub spends :
        (id : ℕ) (future : Future) (w : World)
        → length (poll id future w).wakes + budget (poll id future w).world ≤ budget w

  settle_queue :
      (id : ℕ) (ready : Bool) (future : Future) (e : Executor machine)
      → (settle machine id ready future e).task_queue ≡ e.task_queue
  settle_queue id true future e = refl
  settle_queue id false future e = refl

  -- The tasks after the poll of the task `id`: without it when it is done, with its new state if not.
  pub settled : ℕ → Bool → Future → List (ℕ × Future) → List (ℕ × Future)
  settled id true future tasks = remove id tasks
  settled id false future tasks = insert id future (remove id tasks)

  settle_tasks :
      (id : ℕ) (ready : Bool) (future : Future) (e : Executor machine)
      → (settle machine id ready future e).tasks ≡ settled id ready future e.tasks
  unfolding settled
  settle_tasks id true future e = refl
  settle_tasks id false future e = refl

  -- The numbers `handled`, one after the other, from some tasks and a world to others: the number of
  -- no task does nothing, and that of a task polls it once. `woken` are the wakes of these polls.
  pub data Polls (tasks' : List (ℕ × Future)) (w' : World)
      : List (ℕ × Future) → World → List ℕ → List ℕ → Type 0 where
    ended : Polls tasks' w' tasks' w' [] []
    gone :
        {tasks : List (ℕ × Future)} {w : World} {handled woken : List ℕ} (id : ℕ)
        → lookup id tasks ≡ none
        → Polls tasks' w' tasks w handled woken
        → Polls tasks' w' tasks w (id ∷ handled) woken
    polled :
        {tasks : List (ℕ × Future)} {w : World} {handled woken : List ℕ} (id : ℕ) (future : Future)
        → lookup id tasks ≡ some future
        → Polls tasks' w'
            (settled id (poll id future w).ready (poll id future w).future tasks)
            (poll id future w).world
            handled
            woken
        → Polls tasks' w' tasks w (id ∷ handled) ((poll id future w).wakes ++ woken)

  -- One turn: the wakes of its poll are behind the queue, and it is the first of the polls.
  record Turned (id : ℕ) (e : Executor machine) (w : World) (e' : Executor machine) (w' : World)
      : Type 0 where
    pub wakes : List ℕ
    pub queue : e'.task_queue ≡ e.task_queue ++ wakes
    pub first :
        (tasks' : List (ℕ × Future)) (w'' : World) (handled woken : List ℕ)
        → Polls tasks' w'' e'.tasks w' handled woken
        → Polls tasks' w'' e.tasks w (id ∷ handled) (wakes ++ woken)

  module _ (b : Budget) where
    open b use {budget, spends}

    -- The work that is left.
    work : Executor machine → World → ℕ
    work e w = length e.task_queue + budget w

    turn_done :
        (id : ℕ) (e : Executor machine) (w : World)
        → work e w ≤ capacity
        → (e' : Executor machine) × (w' : World) × (turn machine id e w ≡ done (e', w'))
          × (work e' w' ≤ work e w)
          × Turned id e w e' w'
    unfolding turn work
    turn_done id e w h = elim (Option-cases (lookup id e.tasks)) [
      | inl missing ↦ (
        e,
        w,
        rw (turn, missing) refl,
        omega arith,
        record {
          wakes = [];
          queue = sym (append_none e.task_queue);
          first = λ tasks' w'' handled woken p. Polls.gone id missing p;
        },
      )
      | inr (future, live) ↦
          let p = poll id future w in
          let spent = spends id future w in
          let run = wake_all_done p.wakes e.task_queue (omega (arith, h, spent)) in
          let size : length (e.task_queue ++ p.wakes) ≡ length e.task_queue + length p.wakes =
            length-append e.task_queue p.wakes in
          let cache = cached machine id (lookup id e.waker_cache) e.waker_cache in
          let before : Executor machine = record e {
            task_queue = e.task_queue ++ p.wakes;
            waker_cache = cache;
          } in
          let same = ap length (settle_queue id p.ready p.future before) in
          (
            settle machine id p.ready p.future before,
            p.world,
            rw (turn, live, run) refl,
            omega (arith, same, size, spent),
            record {
              wakes = p.wakes;
              queue = settle_queue id p.ready p.future before;
              first = λ tasks' w'' handled woken rest. Polls.polled id future live (
                  subst (λ t. Polls tasks' w'' t p.world handled woken)
                    (settle_tasks id p.ready p.future before) rest);
            },
          )
    ]

    run_queue_done :
        (fuel : ℕ) (queue : List ℕ) (e : Executor machine) (w : World)
        → e.task_queue ≡ queue
        → work e w ≤ fuel
        → work e w ≤ capacity
        → (e' : Executor machine) × (w' : World) × (handled : List ℕ) × (woken : List ℕ)
          × (run_queue machine fuel queue e w ≡ done (some (e', w')))
          × (e'.task_queue ≡ [])
          × Polls e'.tasks w' e.tasks w handled woken
          × (handled ≡ queue ++ woken)
    unfolding run_queue work
    run_queue_done fuel [] e w at h k = (e, w, [], [], refl, at, Polls.ended, refl)
    run_queue_done zero (id ∷ queue) e w at h k =
        let size = ap length at in absurd (omega (arith, size, h))
    run_queue_done (suc fuel) (id ∷ queue) e w at h k =
        let size = ap length at in
        let (e1, w1, step, less, t) =
          turn_done id (record e { task_queue = queue }) w (omega (arith, size, k)) in
        let (e2, w2, handled, woken, run, over, polls, all) =
          run_queue_done fuel e1.task_queue e1 w1 refl (omega (arith, size, h, less))
            (omega (arith, size, k, less)) in
        (
          e2,
          w2,
          id ∷ handled,
          t.wakes ++ woken,
          rw step run,
          over,
          t.first e2.tasks w2 handled woken polls,
          ap (λ xs. id ∷ xs)
              (all ∙ ap (λ xs. xs ++ woken) t.queue ∙ append_assoc queue t.wakes woken),
        )

    -- When the polls call wakers a bounded number of times, and the queue with these calls does not
    -- exceed its 100 places: `run_ready_tasks`, on fuel for that many turns, does not panic and ends
    -- with the queue empty. The numbers that it handled, each by a poll of its task if there is one,
    -- are those of the queue and then those of all wakes that these polls made, in their order: no
    -- wake is lost.
    pub run_ready_tasks-empty :
        (fuel : ℕ) (e : Executor machine) (w : World)
        → length e.task_queue + budget w ≤ fuel
        → length e.task_queue + budget w ≤ capacity
        → (e' : Executor machine) × (w' : World) × (handled : List ℕ) × (woken : List ℕ)
          × (run_ready_tasks machine fuel e w ≡ done (some (e', w')))
          × (e'.task_queue ≡ [])
          × Polls e'.tasks w' e.tasks w handled woken
          × (handled ≡ e.task_queue ++ woken)
    unfolding run_ready_tasks work
    run_ready_tasks-empty fuel e w h k = run_queue_done fuel e.task_queue e w refl h k
