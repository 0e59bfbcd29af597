-- ===== src/Base/Panic.antt =====
-- Code that may panic. A slice index out of range, a failed assertion, an `unwrap` of nothing and
-- an arithmetic overflow (the checks of the dev profile) all end in `panic`.
use mathlib.Core.Path.{◌≡◌, refl}
use mathlib.Core.Logic.{◌⊎◌, inl, inr}
use mathlib.Core.Bool.{Bool, true, false}
use mathlib.Core.Option.{Option, none, some}
use mathlib.Core.List.{List}
use Prim.Native.Nat.{ℕ}
use lemoncake.Base.Lists.{length, get_elem?, set}
use lemoncake.Base.Tests.{ltb, if◌then◌else◌}

pub data Run {ℓ} (A : Type ℓ) : Type ℓ where
  done : A → Run A
  panic : Run A

infixl 5 ◌>>=◌ ◌>>◌
abbrev pub ◌>>=◌ {ℓ κ} : {A : Type ℓ} {B : Type κ} → Run A → (A → Run B) → Run B
done a >>= f = f a
panic >>= f = panic

abbrev pub ◌>>◌ {ℓ} : {B : Type ℓ} → Run (Unit {0}) → Run B → Run B
m >> k = m >>= λ _. k

-- `assert!`
abbrev pub assert : Bool → Run (Unit {0})
assert true = done tt
assert false = panic

-- `unwrap` and `expect`
abbrev pub unwrap {ℓ} : {A : Type ℓ} → Option A → Run A
unwrap (some a) = done a
unwrap none = panic

pub Run-cases {ℓ} : {A : Type ℓ} (m : Run A) → (m ≡ panic) ⊎ ((a : A) × (m ≡ done a))
Run-cases panic = inl refl
Run-cases (done a) = inr (a, refl)

pub done-injective {ℓ} : {A : Type ℓ} {a b : A} → done a ≡ done b → a ≡ b
done-injective e = cc

pub panic≢done {ℓ} : {A : Type ℓ} {a : A} → ¬ (panic ≡ done a)
panic≢done e = cc

-- `xs[i]` and `xs[i] = v`
abbrev pub load {ℓ} : {A : Type ℓ} → ℕ → List A → Run A
load i xs = unwrap (get_elem? xs i)

abbrev pub store {ℓ} : {A : Type ℓ} → ℕ → A → List A → Run (List A)
store i v xs = if ltb i (length xs) then done (set xs i v) else panic
