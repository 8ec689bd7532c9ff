-- ===== src/Riscv.antt =====
-- The riscv64 port: arch/riscv64/trap/trap.c and arch.c and arch/riscv64/kmain.c, over the scheduler of
-- kernel/sched.c. What `rdtime` returns is an argument, and the deadline that `sbi_set_timer` hands
-- over is part of the state.

pub mod Preempt
pub mod Restore
use mukern.Base.{
  ℕ, ℤ, zero, suc, ◌+◌, ◌-◌, ◌*◌, ◌/◌, ◌%◌, ◌^◌, Bool, true, List, [], ◌∷◌, update, ◌==◌, ◌&&◌,
  if◌then◌else◌,
}
use mukern.Thread.{Kernel, self}
use mukern.Sched.{schedule, sched_init, thread_create}

abbrev pub rv_timebase : ℕ
rv_timebase = 10000000

abbrev pub irq_s_timer : ℕ
irq_s_timer = 5

-- `g_on_tick`, as far as it is set, and `g_interval`
pub record Hart : Type 0 where
  pub kernel : Kernel
  pub hooked : Bool
  pub interval : ℕ
  pub deadline : ℕ

-- `(scause & SCAUSE_INT) && (scause & 0xff) == IRQ_S_TIMER`
abbrev pub is_timer : ℕ → Bool
is_timer scause = (scause / 2 ^ 63 % 2 == 1) && (scause % 256 == irq_s_timer)

-- `hal_timer_init` at time `now`
abbrev pub rv_timer_init : ℕ → ℕ → Hart → Hart
rv_timer_init hz now h = record h {
  hooked = true;
  interval = rv_timebase / hz;
  deadline = (now + rv_timebase / hz) % 2 ^ 64;
}

-- `trap_handler` at time `now`; the hook is `on_tick` of kmain.c. The thread that the trap interrupts
-- goes on with what it was doing.
unfoldable pub trap_handler : ℕ → ℕ → Hart → Hart
trap_handler scause now h =
    if is_timer scause
    then record h {
      deadline = (now + h.interval) % 2 ^ 64;
      kernel = if h.hooked then schedule (self h.kernel).kont h.kernel else h.kernel;
    }
    else h

-- `kmain` up to its idle loop, with the two workers as the programs 0 and 1
unfoldable pub rv_boot : ℕ → Kernel → Hart
rv_boot now s = rv_timer_init 100 now (record {
  kernel = (thread_create 1 (thread_create 0 (sched_init s)).0).0;
  hooked = true;
  interval = 0;
  deadline = 0;
})

-- `for (i = i0; i < i0 + rounds; i++) sp[i] = 0;`
unfoldable pub clear_words : ℕ → ℕ → ℕ → (ℕ → ℕ) → ℕ → ℕ
clear_words sp i zero mem = mem
clear_words sp i (suc rounds) mem = clear_words sp (suc i) rounds (update mem (sp + 8 * i) 0)

-- riscv64
unfoldable pub rv_init_stack : ℕ → ℕ → ℕ → ℕ → (ℕ → ℕ) → (ℕ → ℕ) × ℕ
rv_init_stack trampoline stack_top fn arg mem =
    let sp = stack_top - 14 * 8 in
    (
      update (update (update (clear_words sp 0 14 mem) sp trampoline) (sp + 16) fn) (sp + 24) arg,
      sp,
    )
