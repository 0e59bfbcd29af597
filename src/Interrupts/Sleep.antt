-- ===== src/Interrupts/Sleep.antt =====
-- kernel/src/sleep.rs: a wait for ticks of the timer.
use lemoncake.Base.{
  ℕ, zero, suc, ◌+◌, ◌-◌, ◌≤◌, ◌<◌, ◌≡◌, ◌^◌, ◌∙◌, ap, true, false, gt→leb_false, refl, arith, leb,
  if◌then◌else◌, le→leb, lt→ltb, Option, none, some, Run, done, ◌>>=◌, add_w, mul_w,
}

-- The loop, whose `k`-th load of `TICK_COUNT` reads `ticks k`; the result is the number of loads.
unfoldable pub wait_for : ℕ → ℕ → ℕ → (ℕ → ℕ) → Option ℕ
wait_for zero goal k ticks = none
wait_for (suc fuel) goal k ticks =
    let rest = wait_for fuel goal (k + 1) ticks in if leb goal (ticks k) then some k else rest

-- `Sleep::ms`
unfoldable pub sleep_ms : ℕ → ℕ → (ℕ → ℕ) → Run (Option ℕ)
unfolding wait_for
sleep_ms fuel ms ticks = add_w 64 (ticks 0) ms >>= λ goal. done (wait_for fuel goal 1 ticks)

-- `Sleep::sec`
unfoldable pub sleep_sec : ℕ → ℕ → (ℕ → ℕ) → Run (Option ℕ)
unfolding wait_for
sleep_sec fuel sec ticks = do
  ms ← mul_w 64 sec 1000
  goal ← add_w 64 (ticks 0) ms
  done (wait_for fuel goal 1 ticks)

-- The wait ends at the first load that reads the goal or more, if there is one within the fuel.
wait_for-first :
    (fuel goal k n : ℕ) (ticks : ℕ → ℕ)
    → n < fuel
    → goal ≤ ticks (k + n)
    → ((i : ℕ) → i < n → ticks (k + i) < goal)
    → wait_for fuel goal k ticks ≡ some (k + n)
unfolding wait_for
wait_for-first zero goal k n ticks h last before = absurd (omega (arith, h))
wait_for-first (suc fuel) goal k zero ticks h last before =
    let here : k + 0 ≡ k = omega arith in
    let now : leb goal (ticks k) ≡ true = le→leb goal (ticks k) (rw here at last) in
    rw (now, here) refl
wait_for-first (suc fuel) goal k (suc n) ticks h last before =
    let here : k + 0 ≡ k = omega arith in
    let next : k + 1 + n ≡ k + suc n = omega arith in
    let not_yet : leb goal (ticks k) ≡ false =
      gt→leb_false goal (ticks k) (rw here at (before 0 (omega arith))) in
    rw not_yet (
      wait_for-first fuel goal (k + 1) n ticks (omega (arith, h)) (rw (← next) at last) (λ i hi.
        let e : k + 1 + i ≡ k + suc i = omega arith in rw e (before (suc i) (omega (arith, hi))))
      ∙ ap some next)

-- Where every load reads one tick more than the last, `ms` ends when as many ticks have passed.
pub sleep_ms-ticks :
    (ms t : ℕ) → t + ms < 2 ^ 64 → 0 < ms → sleep_ms (ms + 1) ms (λ k. t + k) ≡ done (some ms)
unfolding sleep_ms
sleep_ms-ticks ms t small some_ms =
    let now : t + 0 ≡ t = omega arith in
    let end : 1 + (ms - 1) ≡ ms = omega (arith, some_ms) in
    let run : wait_for (ms + 1) (t + ms) 1 (λ k. t + k) ≡ some (1 + (ms - 1)) =
      wait_for-first (ms + 1) (t + ms) 1 (ms - 1) (λ k. t + k) (omega (arith, some_ms))
        (omega (arith, some_ms)) (λ i h. omega (arith, h)) in
    rw (now, lt→ltb (t + ms) (2 ^ 64) small, run, end) refl
