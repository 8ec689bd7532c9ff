-- ===== src/Context/Restore.antt =====
-- What `context_switch` of arch/x86_64/trap/switch.S takes from a stack, as a description to hold
-- `arch_init_stack` against: six pops and a return.
use mukern.Base.{ℕ, ◌+◌, ◌-◌, ◌≡◌, ◌<◌, ◌≤◌, ◌⊎◌, arith}
use mukern.Context.{arch_init_stack}

-- the registers that a switch restores, with the instruction pointer and the stack pointer
pub record Registers : Type 0 where
  pub r15 : ℕ
  pub r14 : ℕ
  pub r13 : ℕ
  pub r12 : ℕ
  pub rbx : ℕ
  pub rbp : ℕ
  pub rip : ℕ
  pub rsp : ℕ

abbrev pub restore : (ℕ → ℕ) → ℕ → Registers
restore mem rsp = record {
  r15 = mem rsp;
  r14 = mem (rsp + 8);
  r13 = mem (rsp + 16);
  r12 = mem (rsp + 24);
  rbx = mem (rsp + 32);
  rbp = mem (rsp + 40);
  rip = mem (rsp + 48);
  rsp = rsp + 56;
}

-- The first switch to a new thread goes to the trampoline, with the entry function in r12, its
-- argument in r13, the other registers 0 and an empty stack; and memory outside the seven words
-- below the top of the stack is as it was.
pub restore-arch_init_stack :
    (trampoline stack_top fn arg : ℕ) (mem : ℕ → ℕ)
    → 56 ≤ stack_top
    → let (m, sp) = arch_init_stack trampoline stack_top fn arg mem in
      (restore m sp ≡ record {
        r15 = 0;
        r14 = 0;
        r13 = arg;
        r12 = fn;
        rbx = 0;
        rbp = 0;
        rip = trampoline;
        rsp = stack_top;
      })
      × ((a : ℕ) → (a < stack_top - 56) ⊎ (stack_top ≤ a) → m a ≡ mem a)
unfolding arch_init_stack
restore-arch_init_stack trampoline stack_top fn arg mem room =
    (ground arith, λ a out. ground (arith, out))
