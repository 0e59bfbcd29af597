-- ===== src/Keyboard/Wake.antt =====
-- The stream of kernel/src/keyboard.rs does not miss a scancode.
use lemoncake.Base.{ℕ, ◌<◌, ◌≡◌, ◌⊎◌, inl, inr, refl, sym, ap, ◌∙◌, arith, Bool, true, false}
use lemoncake.Base.{Option, none, some, done, panic≢done, done-injective, Option-cases}
use mathlib.Core.Path.{subst}
use lemoncake.Keyboard.Shared.{Crates, Documented}
use lemoncake.Keyboard.{
  Keys, uninit, new_stream, pushed, add_scancode, popped, first_pop, register, taken, second_pop,
}

-- Where the task stands that awaits the stream: outside of `poll_next`, behind its first pop, behind
-- the registration of its waker, and where `poll_next` has returned `Poll::Pending`.
pub data Stage : Type 0 where
  outside : Stage
  looked : Stage
  registered : Stage
  pending : Stage

-- The states that the task and the interrupts reach. An interrupt comes at any stage; the task polls
-- from outside, or again while it is pending.
pub data Reach (crates : Crates) : Stage → Keys crates → Type 0 where
  start :
      {s : Keys crates} → new_stream crates (uninit crates) ≡ done s → Reach crates Stage.outside s
  interrupt :
      {at : Stage} {s s' : Keys crates} (scancode : ℕ)
      → Reach crates at s
      → add_scancode crates scancode s ≡ done s'
      → Reach crates at s'
  polled_again : {s : Keys crates} → Reach crates Stage.pending s → Reach crates Stage.outside s
  first_empty :
      {s s' : Keys crates}
      → Reach crates Stage.outside s
      → first_pop crates s ≡ done (none, s')
      → Reach crates Stage.looked s'
  first_ready :
      {s s' : Keys crates} (c : ℕ)
      → Reach crates Stage.outside s
      → first_pop crates s ≡ done (some c, s')
      → Reach crates Stage.outside s'
  registers :
      {s : Keys crates}
      → Reach crates Stage.looked s
      → Reach crates Stage.registered (register crates s)
  second_empty :
      {s s' : Keys crates}
      → Reach crates Stage.registered s
      → second_pop crates s ≡ done (none, s')
      → Reach crates Stage.pending s'
  second_ready :
      {s s' : Keys crates} (c : ℕ)
      → Reach crates Stage.registered s
      → second_pop crates s ≡ done (some c, s')
      → Reach crates Stage.outside s'

some_same {ℓ} : {A : Type ℓ} {a b : A} → some a ≡ some b → a ≡ b
some_same e = cc

module _ (crates : Crates) (law : Documented crates) where
  open crates use {Queue, push, pop, wake}
  open law use {waiting, holds, called}

  -- The waker is held, or it was called.
  abbrev pub Armed : crates.Waker → Type 0
  Armed w = (holds w ≡ true) ⊎ (called w ≡ true)

  -- The queue is empty and the waker is held, or it was called.
  abbrev pub Waits : Keys crates → Type 0
  Waits s =
      ((q : Queue) × (s.queue ≡ some q) × (waiting q ≡ 0) × (holds s.waker ≡ true))
      ⊎ (called s.waker ≡ true)

  Kept : Stage → Keys crates → Type 0
  Kept Stage.outside s = Unit
  Kept Stage.looked s = Unit
  Kept Stage.registered s = Armed s.waker
  Kept Stage.pending s = Waits s

  wake-called : (w : crates.Waker) → Armed w → called (wake w) ≡ true
  wake-called w (inl e) = law.calls w e
  wake-called w (inr e) = law.stays w e

  -- An interrupt calls the waker, or leaves the waker as it is where the queue is full.
  pushed-called :
      (c : ℕ) (s : Keys crates) (q : Queue) (r : Bool × Queue)
      → push c q ≡ r
      → Armed s.waker
      → (called (pushed crates s r).waker ≡ true)
        ⊎ ((pushed crates s r).waker ≡ s.waker) × (0 < waiting q)
  pushed-called c s q (true, q') e a = inl (wake-called s.waker a)
  pushed-called c s q (false, q') e a = inr (refl, (law.refused c q q' e).0)

  add_scancode_lem :
      (c : ℕ) (s s' : Keys crates)
      → add_scancode crates c s ≡ done s'
      → Armed s.waker
      → (called s'.waker ≡ true)
        ⊎ (s'.waker ≡ s.waker) × (q : Queue) × (s.queue ≡ some q) × (0 < waiting q)
  unfolding add_scancode
  add_scancode_lem c s s' run a = elim (Option-cases s.queue) [
    | inl missing ↦ absurd (panic≢done (rw (add_scancode, missing) at run))
    | inr (q, at) ↦
        let same : pushed crates s (push c q) ≡ s' =
          done-injective (rw (add_scancode, at) at run) in
        let waker : (pushed crates s (push c q)).waker ≡ s'.waker =
          ap (λ (k : Keys crates). k.waker) same in
        elim (pushed-called c s q (push c q) refl a) [
          | inl woken ↦ inl (ap called (sym waker) ∙ woken)
          | inr (kept, full) ↦ inr (sym waker ∙ kept, q, at, full)
        ]
  ]

  interrupt-Kept :
      (at : Stage) (c : ℕ) (s s' : Keys crates)
      → add_scancode crates c s ≡ done s'
      → Kept at s
      → Kept at s'
  unfolding Kept
  interrupt-Kept Stage.outside c s s' run k = tt
  interrupt-Kept Stage.looked c s s' run k = tt
  interrupt-Kept Stage.registered c s s' run k = elim (add_scancode_lem c s s' run k) [
    | inl woken ↦ inr woken
    | inr (same, _, _, _) ↦ subst Armed (sym same) k
  ]
  interrupt-Kept Stage.pending c s s' run (inr e) = elim (add_scancode_lem c s s' run (inr e)) [
    | inl woken ↦ inr woken
    | inr (same, _, _, _) ↦ inr (ap called same ∙ e)
  ]
  interrupt-Kept Stage.pending c s s' run (inl (q0, at0, none_left, on)) =
      elim (add_scancode_lem c s s' run (inl on)) [
        | inl woken ↦ inr woken
        | inr (same, q, at, full) ↦
            let size : waiting q ≡ 0 = ap waiting (some_same (sym at ∙ at0)) ∙ none_left in
            absurd (omega (arith, size, full))
      ]

  taken-Waits :
      (s s' : Keys crates) (q : Queue) (r : Option ℕ × Queue)
      → pop q ≡ r
      → taken crates (popped crates s r) ≡ (none, s')
      → Armed s.waker
      → Waits s'
  taken-Waits s s' q (some c, q') at e a =
      let got : some c ≡ none = ap (λ (p : Option ℕ × Keys crates). p.0) e in cc
  taken-Waits s s' q (none, q') at e a =
      let same : record s { queue = some q' } ≡ s' = ap (λ (p : Option ℕ × Keys crates). p.1) e in
      subst Waits same
        (elim a [ inl on ↦ inl (q', refl, law.nothing q q' at, on) | inr woken ↦ inr woken ])

  second_pop-Waits :
      (s s' : Keys crates) → second_pop crates s ≡ done (none, s') → Armed s.waker → Waits s'
  unfolding second_pop
  second_pop-Waits s s' run a = elim (Option-cases s.queue) [
    | inl missing ↦ absurd (panic≢done (rw (second_pop, missing) at run))
    | inr (q, at) ↦ taken-Waits s s' q (pop q) refl (done-injective (rw (second_pop, at) at run)) a
  ]

  Reach-Kept : {at : Stage} {s : Keys crates} → Reach crates at s → Kept at s
  unfolding Kept register
  Reach-Kept (start e) = tt
  Reach-Kept (interrupt {at} {s} {s'} c r run) = interrupt-Kept at c s s' run (Reach-Kept r)
  Reach-Kept (polled_again r) = tt
  Reach-Kept (first_empty r run) = tt
  Reach-Kept (first_ready c r run) = tt
  Reach-Kept (registers {s} r) = inl (law.registers s.waker)
  Reach-Kept (second_empty {s} {s'} r run) = second_pop-Waits s s' run (Reach-Kept r)
  Reach-Kept (second_ready c r run) = tt

  -- With interrupts between any two steps of `poll_next`, over a queue and a waker that behave as
  -- documented: where `poll_next` has returned `Poll::Pending`, the queue is empty and the task's waker
  -- is registered, or the task's waker has been called since its registration.
  pub Reach-Waits : {s : Keys crates} → Reach crates Stage.pending s → Waits s
  unfolding Kept
  Reach-Waits r = Reach-Kept r
