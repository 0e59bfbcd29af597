-- ===== src/Base/Loop.antt =====
-- `for i in a..a + n` over a state, where a round may panic, with one invariant rule.
use Prim.Native.Nat.{ℕ, zero, suc, ◌+◌, ◌<◌}
use mathlib.Core.Path.{◌≡◌, refl}
use native.Mathlib.Omega.{arith}
use lemoncake.Base.Panic.{Run, done, ◌>>=◌}

unfoldable pub for_range {ℓ} : {S : Type ℓ} → ℕ → ℕ → (ℕ → S → Run S) → S → Run S
for_range zero i body s = done s
for_range (suc n) i body s = body i s >>= for_range n (i + 1) body

-- A round that keeps `P` and does not panic gives a loop that does neither.
pub for_range_inv {ℓ κ} :
    {S : Type ℓ} (P : ℕ → S → Type κ) (body : ℕ → S → Run S) (j : ℕ)
    → ((i : ℕ) (s : S) → i < j → P i s → (s' : S) × (body i s ≡ done s') × P (i + 1) s')
    → (n i : ℕ) (s : S) → i + n ≡ j
    → P i s
    → (s' : S) × (for_range n i body s ≡ done s') × P j s'
unfolding for_range
for_range_inv P body j keep zero i s e h = let e' : i ≡ j = omega arith in (s, refl, rw (← e') h)
for_range_inv P body j keep (suc n) i s e h =
    let (s', r, h') = keep i s (omega arith) h in
    let (t, q, k) = for_range_inv P body j keep n (i + 1) s' (omega arith) h' in (t, rw r q, k)
