-- ===== src/Syscall/Entry.antt =====
-- The assembly of kernel/src/syscall.rs: the stub of the interrupt 0x80, and the jump to user mode.
-- The stack is the list of its 64-bit words from `rsp` on.
use lemoncake.Base.{
  ℕ, zero, suc, ◌+◌, ◌*◌, ◌/◌, ◌%◌, ◌^◌, ◌≡◌, refl, ap, arith, bit_or, List, [], ◌∷◌, Option, none,
  some, Run, done, ◌>>=◌, unwrap,
}
use lemoncake.Base.{set_bit}
use lemoncake.Syscall.{syscall_handler}
use lemoncake.Syscall.Services.{Kernel}

-- The registers of a call, in the order of the struct.
pub record Regs : Type 0 where
  pub rax : ℕ
  pub rdi : ℕ
  pub rsi : ℕ
  pub rdx : ℕ
  pub r10 : ℕ
  pub r8 : ℕ
  pub r9 : ℕ

-- What `iretq` takes from the stack.
pub record Frame : Type 0 where
  pub rip : ℕ
  pub cs : ℕ
  pub rflags : ℕ
  pub rsp : ℕ
  pub ss : ℕ

abbrev pub push : ℕ → List ℕ → List ℕ
push word stack = word ∷ stack

-- `&mut *regs_ptr`
abbrev pub regs_at : List ℕ → Option Regs
regs_at (rax ∷ rdi ∷ rsi ∷ rdx ∷ r10 ∷ r8 ∷ r9 ∷ _) =
    some (record { rax = rax; rdi = rdi; rsi = rsi; rdx = rdx; r10 = r10; r8 = r8; r9 = r9 })
regs_at _ = none

abbrev pub iretq : List ℕ → Option Frame
iretq (rip ∷ cs ∷ rflags ∷ rsp ∷ ss ∷ _) =
    some (record { rip = rip; cs = cs; rflags = rflags; rsp = rsp; ss = ss })
iretq _ = none

-- `add rsp, 8 * n`
abbrev pub discard : ℕ → List ℕ → List ℕ
discard zero stack = stack
discard (suc n) [] = []
discard (suc n) (_ ∷ stack) = discard n stack

-- The seven pushes of `int80_entry`, the last one on top.
unfoldable pub pushed : Regs → List ℕ → List ℕ
pushed r stack =
    push r.rax (push r.rdi (push r.rsi (push r.rdx (push r.r10 (push r.r8 (push r.r9 stack))))))

module _ (kernel : Kernel) where
  -- The handler reads the first four registers.
  unfoldable pub syscall_from_stub : Regs → kernel.State → Run (ℕ × kernel.State)
  syscall_from_stub regs s = syscall_handler kernel regs.rax regs.rdi regs.rsi regs.rdx s

  -- The value in `rax` and the frame with which the stub returns.
  unfoldable pub int80_entry : Regs → List ℕ → kernel.State → Run (ℕ × Option Frame × kernel.State)
  int80_entry r stack s = unwrap (regs_at (pushed r stack)) >>= λ regs.
      syscall_from_stub regs s >>= λ (ret, s'). done (ret, iretq (discard 7 (pushed r stack)), s')

  -- The stub hands each register of the caller to the argument of its name, and returns to the frame
  -- that the interrupt pushed.
  pub int80_entry-Calls :
      (r : Regs) (f : Frame) (rest : List ℕ) (s : kernel.State)
      → int80_entry r (f.rip ∷ f.cs ∷ f.rflags ∷ f.rsp ∷ f.ss ∷ rest) s
        ≡ (syscall_handler kernel r.rax r.rdi r.rsi r.rdx s >>= λ (ret, s'). done (ret, some f, s'))
  unfolding int80_entry pushed syscall_from_stub
  int80_entry-Calls r f rest s = refl

-- The frame that `jump_to_usermode` returns to, with the flags of the kernel.
unfoldable pub jump_to_usermode : ℕ → ℕ → ℕ → List ℕ → Option Frame
jump_to_usermode entry user_stack_top rflags stack =
    iretq
      (push entry (push 0x1b (push (bit_or rflags 0x200) (push user_stack_top (push 0x23 stack)))))

set_interrupts : (flags : ℕ) → bit_or flags 0x200 / 2 ^ 9 % 2 ≡ 1
set_interrupts flags =
    let fields : (flags / 2 ^ 10 * 2 + flags / 2 ^ 9 % 2) * 2 ^ 9 + flags % 2 ^ 9 ≡ flags =
      omega arith in
    let set =
      set_bit 9 (flags / 2 ^ 10) (flags / 2 ^ 9 % 2) (flags % 2 ^ 9) (omega arith) (omega arith) in
    omega (arith, ap (λ t. bit_or t 0x200) fields, set)

-- The jump goes to the entry with the stack, in ring 3, and with interrupts enabled.
pub jump_to_usermode-Enters :
    (entry user_stack_top rflags : ℕ) (stack : List ℕ)
    → (f : Frame) × (jump_to_usermode entry user_stack_top rflags stack ≡ some f)
      × (f.rip ≡ entry)
      × (f.rsp ≡ user_stack_top)
      × (f.cs % 4 ≡ 3)
      × (f.ss % 4 ≡ 3)
      × (f.rflags / 2 ^ 9 % 2 ≡ 1)
unfolding jump_to_usermode
jump_to_usermode-Enters entry user_stack_top rflags stack =
    (_, refl, refl, refl, refl, refl, set_interrupts rflags)
