-- ===== src/Keyboard/Tests.antt =====
-- A poll that a key interrupts, for kernel/src/keyboard.rs.
use lemoncake.Base.{
  ℕ, ◌+◌, ◌-◌, ltb, if◌then◌else◌, ◌<◌, ◌≡◌, refl, sym, ap, arith, Bool, true, false, List, [], ◌∷◌,
  ◌++◌, length, Option, none, some, Bool-cases, ltb_false→le, inl, inr,
}
use lemoncake.Keyboard.Shared.{Crates, Documented}
use lemoncake.Keyboard.{Keys, new_stream, add_scancode, first_pop, second_pop, register, uninit}
use lemoncake.Keyboard.Wake.{Stage, Reach, Waits, Reach-Waits}

-- The list of scancodes, and its size less one.
abbrev Fifo : Type 0
Fifo = List ℕ × ℕ

abbrev fifo_push : ℕ → Fifo → Bool × Fifo
fifo_push c (q, n) = if ltb (length q) (n + 1) then (true, (q ++ c ∷ [], n)) else (false, (q, n))

abbrev fifo_pop : Fifo → Option ℕ × Fifo
fifo_pop ([], n) = (none, ([], n))
fifo_pop (c ∷ q, n) = (some c, (q, n))

-- Whether the waker is held, and whether it was called.
abbrev flags_wake : Bool × Bool → Bool × Bool
flags_wake (true, called) = (false, true)
flags_wake (false, called) = (false, called)

abbrev simple : Crates
simple = record {
  Queue = Fifo;
  Waker = Bool × Bool;
  new_queue = λ n. ([], n - 1);
  push = fifo_push;
  pop = fifo_pop;
  no_waker = (false, false);
  register = λ w. (true, false);
  wake = flags_wake;
  take = λ w. (false, w.1);
}

fifo_refused : (c : ℕ) (q q' : Fifo) → fifo_push c q ≡ (false, q') → (0 < length q.0) × (q' ≡ q)
fifo_refused c (q, n) q' e = elim (Bool-cases (ltb (length q) (n + 1))) [
  | inl room ↦ let b : true ≡ false = ap (λ (p : Bool × Fifo). p.0) (rw room at e) in cc
  | inr full ↦
      let big = ltb_false→le (length q) (n + 1) full in
      (omega (arith, big), sym (ap (λ (p : Bool × Fifo). p.1) (rw full at e)))
]

fifo_nothing : (q q' : Fifo) → fifo_pop q ≡ (none, q') → length q'.0 ≡ 0
fifo_nothing ([], n) q' e = ap (λ (p : Option ℕ × Fifo). length p.1.0) (sym e)
fifo_nothing (c ∷ q, n) q' e = let b : some c ≡ none = ap (λ (p : Option ℕ × Fifo). p.0) e in cc

flags_calls : (w : Bool × Bool) → w.0 ≡ true → (flags_wake w).1 ≡ true
flags_calls (true, b) e = refl
flags_calls (false, b) e = cc

flags_stays : (w : Bool × Bool) → w.1 ≡ true → (flags_wake w).1 ≡ true
flags_stays (true, b) e = refl
flags_stays (false, b) e = e

simple-Documented : Documented simple
simple-Documented = record {
  waiting = λ q. length q.0;
  holds = λ w. w.0;
  called = λ w. w.1;
  refused = fifo_refused;
  nothing = fifo_nothing;
  registers = λ w. refl;
  uncalled = λ w. refl;
  calls = flags_calls;
  stays = flags_stays;
}

-- Pending, and then a key.
abbrev one_key : Keys simple
one_key = record { queue = some (30 ∷ [], 99); waker = (false, true) }

one_key-Reach : Reach simple Stage.pending one_key
unfolding uninit new_stream add_scancode first_pop second_pop register
one_key-Reach =
    Reach.interrupt 30
      (Reach.second_empty (Reach.registers (Reach.first_empty (Reach.start refl) refl)) refl) refl

Reach-Waits_example : Waits simple simple-Documented one_key
Reach-Waits_example = Reach-Waits simple simple-Documented one_key-Reach
