-- ===== src/Ide/Io.antt =====
-- Results of the calls of kernel/src/drivers/ide.rs, and what they need of the machine. A call that
-- waits for a device longer than its fuel, or for a lock that it holds itself, is stuck.
use lemoncake.Base.{ℕ, Option, none, some}

pub data Io (A : Type 0) : Type 0 where
  returned : A → Io A
  panicked : Io A
  stuck : Io A

infixl 5 ◌>>=◌
abbrev pub ◌>>=◌ : {A B : Type 0} → Io A → (A → Io B) → Io B
returned a >>= f = f a
panicked >>= f = panicked
stuck >>= f = stuck

abbrev pub unwrap : {A : Type 0} → Option A → Io A
unwrap (some a) = returned a
unwrap none = panicked

-- `insw` and `outsw` move a number of words between a port and an address; the flag of
-- `IDE_IRQ_INVOKED` belongs to the machine, since the interrupt handler sets it.
pub record Machine : Type 1 where
  pub State : Type 0
  pub in_byte : ℕ → State → ℕ × State
  pub out_byte : ℕ → ℕ → State → State
  pub insw : ℕ → ℕ → ℕ → State → State
  pub outsw : ℕ → ℕ → ℕ → State → State
  pub read_irq : State → ℕ × State
  pub write_irq : ℕ → State → State
