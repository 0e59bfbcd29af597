-- ===== src/Executor/Reached.antt =====
-- What holds in every state that the executor of kernel/src/executor.rs can reach.
use lemoncake.Base.{
  ℕ, ◌+◌, ◌%◌, ◌≤◌, ◌<◌, ◌≡◌, ◌≢◌, inl, inr, refl, sym, ap, ◌∙◌, arith, Bool, true, false, ltb,
  ◌==◌, Bool-cases, ==→≡, ==→≢, ≢→==, word,
}
use lemoncake.Base.{
  List, [], ◌∷◌, ◌++◌, Option, none, some, Option-cases, done, panic≢done, done-injective,
  Run-cases, length, length-append, ltb→lt,
}
use lemoncake.Base.{lookup, remove, lookup-remove_self, lookup-remove_ne}
use mathlib.Core.Path.{subst}
use lemoncake.Executor.Runtime.{Machine}
use lemoncake.Executor.{
  capacity, push, wake_all, Executor, new, create, cached, spawn, settle, turn,
}

abbrev pub Fits : List ℕ → Type 0
Fits queue = length queue ≤ capacity

push-Fits : (id : ℕ) (queue : List ℕ) {queue' : List ℕ} → push id queue ≡ done queue' → Fits queue'
unfolding push
push-Fits id queue {queue'} e = elim (Bool-cases (ltb (length queue) capacity)) [
  | inl h ↦
      let same : queue ++ id ∷ [] ≡ queue' = done-injective (sym (rw h refl) ∙ e) in
      let size : length (queue ++ id ∷ []) ≡ length queue + 1 = length-append queue (id ∷ []) in
      subst Fits same (omega (arith, size, ltb→lt _ _ h))
  | inr h ↦ absurd (panic≢done (rw h at e))
]

wake_all-Fits :
    (ids queue : List ℕ) {queue' : List ℕ}
    → Fits queue
    → wake_all ids queue ≡ done queue'
    → Fits queue'
unfolding wake_all
wake_all-Fits [] queue h e = subst Fits (done-injective e) h
wake_all-Fits (id ∷ ids) queue {queue'} h e = elim (Run-cases (push id queue)) [
  | inl bad ↦ absurd (panic≢done (rw bad at e))
  | inr (q, good) ↦ wake_all-Fits ids q (push-Fits id queue good) (rw good at e)
]

none≢some {ℓ} : {A : Type ℓ} {a : A} → ¬ (none ≡ some a)
none≢some e = cc

module _ (machine : Machine) where
  open machine use {Future, World, poll}

  -- Only live tasks have a cached waker.
  abbrev pub Backed : List (ℕ × Future) → List (ℕ × ℕ) → Type 0
  Backed tasks cache = (id : ℕ) → lookup id tasks ≡ none → lookup id cache ≡ none

  -- The cached waker of a task is its own.
  abbrev pub Own : List (ℕ × ℕ) → Type 0
  Own cache = (id waker : ℕ) → lookup id cache ≡ some waker → waker ≡ id

  -- `next_id` is the value of `NEXT_ID`: no live task has that number or a larger one.
  pub record Kept (next_id : ℕ) (e : Executor machine) : Type 0 where
    pub backed : Backed e.tasks e.waker_cache
    pub own : Own e.waker_cache
    pub fits : Fits e.task_queue
    pub unused : (id : ℕ) → next_id ≤ id → lookup id e.tasks ≡ none

  -- The states of the executor, from the calls of `spawn` with a new task, the wakers that interrupts
  -- call, and the turns of `run_ready_tasks`, as long as `NEXT_ID` does not wrap around.
  pub data Reach : ℕ → Executor machine → Type 0 where
    start : Reach 0 (new machine)
    spawned :
        {next_id : ℕ} {e e' : Executor machine} (future : Future)
        → Reach next_id e
        → next_id + 1 < word
        → spawn machine (create machine future next_id).0 e ≡ done e'
        → Reach (create machine future next_id).1 e'
    woken :
        {next_id : ℕ} {e : Executor machine} {queue : List ℕ} (ids : List ℕ)
        → Reach next_id e
        → wake_all ids e.task_queue ≡ done queue
        → Reach next_id (record e { task_queue = queue })
    turned :
        {next_id : ℕ} {e e' : Executor machine} (id : ℕ) (queue : List ℕ) (w w' : World)
        → Reach next_id e
        → e.task_queue ≡ id ∷ queue
        → turn machine id (record e { task_queue = queue }) w ≡ done (e', w')
        → Reach next_id e'

  -- An entry for a live task changes neither of the two.
  cached-Backed :
      (tasks : List (ℕ × Future)) (cache : List (ℕ × ℕ)) (id : ℕ) {f : Future} (o : Option ℕ)
      → lookup id tasks ≡ some f
      → Backed tasks cache
      → Backed tasks (cached machine id o cache)
  cached-Backed tasks cache id (some waker) live b = b
  cached-Backed tasks cache id none live b = λ j gone. elim (Bool-cases (j == id)) [
    | inl e ↦ let same = ==→≡ j id e in cc
    | inr e ↦ rw e (b j gone)
  ]

  cached-Own :
      (cache : List (ℕ × ℕ)) (id : ℕ) (o : Option ℕ) → Own cache → Own (cached machine id o cache)
  cached-Own cache id (some waker) o = o
  cached-Own cache id none o = λ j waker at. elim (Bool-cases (j == id)) [
    | inl e ↦ let got : some id ≡ some waker = rw e at at in let same = ==→≡ j id e in cc
    | inr e ↦ o j waker (rw e at at)
  ]

  remove-Own : (cache : List (ℕ × ℕ)) (id : ℕ) → Own cache → Own (remove id cache)
  remove-Own cache id o j waker at = elim (Bool-cases (j == id)) [
    | inl e ↦ let same = ==→≡ j id e in let gone = lookup-remove_self id cache in cc
    | inr e ↦ o j waker (sym (lookup-remove_ne j id cache (==→≢ j id e)) ∙ at)
  ]

  -- `turn` after its poll.
  settle-Kept :
      (next_id id : ℕ) (e : Executor machine) (ready : Bool) (future : Future) {f : Future}
      → lookup id e.tasks ≡ some f
      → Kept next_id e
      → Kept next_id (settle machine id ready future e)
  settle-Kept next_id id e true future live k = record {
    backed = λ j gone. elim (Bool-cases (j == id)) [
      | inl h ↦ let same = ==→≡ j id h in rw (same, lookup-remove_self id e.waker_cache) refl
      | inr h ↦
          let ne = ==→≢ j id h in
          lookup-remove_ne j id e.waker_cache ne
          ∙ k.backed j (sym (lookup-remove_ne j id e.tasks ne) ∙ gone)
    ];
    own = remove-Own e.waker_cache id k.own;
    fits = k.fits;
    unused = λ j above. elim (Bool-cases (j == id)) [
      | inl h ↦ let same = ==→≡ j id h in rw (same, lookup-remove_self id e.tasks) refl
      | inr h ↦ lookup-remove_ne j id e.tasks (==→≢ j id h) ∙ k.unused j above
    ];
  }
  settle-Kept next_id id e false future live k = record {
    backed = λ j gone. elim (Bool-cases (j == id)) [
      | inl h ↦ let got : some future ≡ none = rw h at gone in absurd (none≢some (sym got))
      | inr h ↦ k.backed j (sym (lookup-remove_ne j id e.tasks (==→≢ j id h)) ∙ rw h at gone)
    ];
    own = k.own;
    fits = k.fits;
    unused = λ j above.
        let ne : j ≢ id =
          λ same. none≢some (sym (k.unused j above) ∙ ap (λ x. lookup x e.tasks) same ∙ live) in
        rw (≢→== j id ne) (lookup-remove_ne j id e.tasks ne ∙ k.unused j above);
  }

  turn-Kept :
      (next_id id : ℕ) (e : Executor machine) (w : World) {e' : Executor machine} {w' : World}
      → Kept next_id e
      → turn machine id e w ≡ done (e', w')
      → Kept next_id e'
  unfolding turn
  turn-Kept next_id id e w {e'} {w'} k run = elim (Option-cases (lookup id e.tasks)) [
    | inl gone ↦
        subst (Kept next_id)
          (ap (λ (p : Executor machine × World). p.0) (done-injective (rw (turn, gone) at run))) k
    | inr (future, live) ↦
        let p = poll id future w in
        elim (Run-cases (wake_all p.wakes e.task_queue)) [
          | inl bad ↦ absurd (panic≢done (rw (turn, live, bad) at run))
          | inr (queue, good) ↦
              let cache = cached machine id (lookup id e.waker_cache) e.waker_cache in
              let before = record e { task_queue = queue; waker_cache = cache } in
              let k' : Kept next_id before = record {
                backed =
                    cached-Backed e.tasks e.waker_cache id (lookup id e.waker_cache) live k.backed;
                own = cached-Own e.waker_cache id (lookup id e.waker_cache) k.own;
                fits = wake_all-Fits p.wakes e.task_queue k.fits good;
                unused = k.unused;
              } in
              subst (Kept next_id)
                (ap (λ (p : Executor machine × World). p.0)
                  (done-injective (rw (turn, live, good) at run)))
                (settle-Kept next_id id before p.ready p.future live k')
        ]
  ]

  spawn-Kept :
      (next_id : ℕ) (future : Future) (e : Executor machine) {e' : Executor machine}
      → Kept next_id e
      → spawn machine (record { id = next_id; future = future }) e ≡ done e'
      → Kept (next_id + 1) e'
  unfolding spawn
  spawn-Kept next_id future e {e'} k run =
      let new_id = k.unused next_id (omega arith) in
      elim (Run-cases (push next_id e.task_queue)) [
        | inl bad ↦ absurd (panic≢done (rw (spawn, new_id, bad) at run))
        | inr (queue, good) ↦
            subst (Kept (next_id + 1)) (done-injective (rw (spawn, new_id, good) at run)) (record {
              backed = λ j gone. elim (Bool-cases (j == next_id)) [
                | inl h ↦
                    let got : some future ≡ none = rw h at gone in absurd (none≢some (sym got))
                | inr h ↦ k.backed j (rw h at gone)
              ];
              own = k.own;
              fits = push-Fits next_id e.task_queue good;
              unused = λ j above.
                  rw (≢→== j next_id (λ same. omega (arith, above, same)))
                    (k.unused j (omega (arith, above)));
            })
      ]

  -- After any sequence of spawned tasks, calls of wakers and turns of the executor that does not panic,
  -- with fewer than 2^64 tasks: a waker is cached for live tasks only and is the task's own, the queue
  -- holds at most 100 numbers, and no number from `NEXT_ID` on is in use, so that `spawn` never meets
  -- a task with the same number.
  pub Reach-Kept : {next_id : ℕ} {e : Executor machine} → Reach next_id e → Kept next_id e
  unfolding new create
  Reach-Kept start = record {
    backed = λ id gone. refl;
    own = λ id waker at. cc;
    fits = omega arith;
    unused = λ id above. refl;
  }
  Reach-Kept (spawned {next_id} {e} {e'} future r small run) =
      let whole : (next_id + 1) % word ≡ next_id + 1 = omega (arith, small) in
      rw whole (spawn-Kept next_id future e (Reach-Kept r) run)
  Reach-Kept (woken {next_id} {e} {queue} ids r run) =
      let k = Reach-Kept r in
      record {
        backed = k.backed;
        own = k.own;
        fits = wake_all-Fits ids e.task_queue k.fits run;
        unused = k.unused;
      }
  Reach-Kept (turned {next_id} {e} {e'} id queue w w' r at run) =
      let k = Reach-Kept r in
      let full : Fits (id ∷ queue) = subst Fits at k.fits in
      turn-Kept next_id id (record e { task_queue = queue }) w
        (record { backed = k.backed; own = k.own; fits = omega (arith, full); unused = k.unused })
        run
