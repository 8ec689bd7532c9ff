-- ===== src/Context.antt =====
-- `arch_init_stack` of arch/x86_64/trap/archstack.c: the frame that the first switch to a thread takes
-- its registers from. Memory gives the 64-bit word at an address.

pub mod Restore
use mukern.Base.{ℕ, zero, suc, ◌+◌, ◌-◌, ◌*◌, update}

-- `uint64_t *sp = (uint64_t *)stack_top - 7`, and the seven stores
abbrev pub plant : ℕ → ℕ → ℕ → ℕ → (ℕ → ℕ) → ℕ → ℕ
plant sp trampoline fn arg mem =
    update
      (update
        (update (update (update (update (update mem sp 0) (sp + 8) 0) (sp + 16) arg) (sp + 24) fn)
          (sp + 32) 0)
        (sp + 40) 0)
      (sp + 48) trampoline

-- The memory and the stack pointer of the new thread. `trampoline` is the address of
-- `thread_trampoline`.
unfoldable pub arch_init_stack : ℕ → ℕ → ℕ → ℕ → (ℕ → ℕ) → (ℕ → ℕ) × ℕ
arch_init_stack trampoline stack_top fn arg mem =
    let sp = stack_top - 7 * 8 in (plant sp trampoline fn arg mem, sp)
