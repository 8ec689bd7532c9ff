-- ===== src/System/Safe.antt =====
-- The invariant of the thread table holds from boot on, whatever user code and devices do.
use mukern.Base.{ℕ, pos, refl, arith, true}
use mukern.Thread.{Kernel, Pmm}
use mukern.Sched.{sched_init}
use mukern.System.{
  Step, compute, syscall, fault, timer, irq, resumed, unchecked, IsTame, Tame, Reach, start, later,
  statics, traps_init, boot,
}
use mukern.Inv.{Inv}
use mukern.Inv.Parts.{Alike-Inv, proc_spawn-Inv}
use mukern.Inv.Syscall.{do_syscall-Inv, user-idle_ipc}
use mukern.Inv.Trap.{timer_tick-Inv, device_irq-Inv, page_fault-Inv, resume-Inv}

sched_init-Inv :
    (stacks : ℕ) (mem : ℕ → ℕ) (pmm : Pmm) (phys : ℕ → ℕ) (cr3 : ℕ)
    → Inv (sched_init (traps_init (statics stacks mem pmm phys cr3)))
unfolding sched_init traps_init
sched_init-Inv stacks mem pmm phys cr3 = record {
  current_in = omega arith;
  good = λ i le. record {
    id_is = ground arith;
    fits = ground arith;
    stack = λ lt ne. ground arith;
    idle_runs = λ e. ground arith;
  };
  runs = refl;
  alone = λ i lt e. ground arith;
  lands = λ ne. absurd (ne refl);
}

-- The kernel is in order when `kmain` comes to its idle loop.
pub boot-Inv :
    (stacks : ℕ) (mem : ℕ → ℕ) (pmm : Pmm) (phys : ℕ → ℕ) (cr3 : ℕ)
    → Inv (boot stacks mem pmm phys cr3)
unfolding boot
boot-Inv stacks mem pmm phys cr3 = proc_spawn-Inv (pos 0) _ (sched_init-Inv stacks mem pmm phys cr3)

-- Every step but an unchecked one keeps the kernel in order.
pub Step-Inv : {s t : Kernel} (st : Step s t) → IsTame st → Inv s → Inv t
Step-Inv {s} (compute regs mem k ne) tame v = Alike-Inv s s.current _ v v.current_in (record {
  id_as = refl;
  kont_as = refl;
  state_as = refl;
  stack_as = refl;
  ipc_as = refl;
  irq_as = refl;
})
Step-Inv {s} (syscall env k ne) tame v = do_syscall-Inv env s v ne k
Step-Inv {s} (fault env addr k ne e) tame v =
    page_fault-Inv env true addr s v ne (user-idle_ipc s v k) e
Step-Inv {s} (timer i) tame v = timer_tick-Inv s v
Step-Inv {s} (irq n lo hi i) tame v = device_irq-Inv n s v
Step-Inv {s} (resumed env k ne) tame v = resume-Inv env s v ne
Step-Inv {s} (unchecked t e) tame v = absurd tame

-- Whatever system calls, faults and interrupts follow one another after boot, as long as no call reads
-- or stores a message outside user memory or maps a frame that is not device memory: the current thread
-- and no other of the table is running, a trap from user mode lands on its own kernel stack, and
-- every thread that waits in the kernel is blocked in the state its call left, or has been woken
-- by a message or by an interrupt that is still pending.
pub Reach-Inv :
    (stacks : ℕ) (mem : ℕ → ℕ) (pmm : Pmm) (phys : ℕ → ℕ) (cr3 : ℕ) {s : Kernel}
    (run : Reach (boot stacks mem pmm phys cr3) s)
    → Tame run
    → Inv s
Reach-Inv stacks mem pmm phys cr3 start tame = boot-Inv stacks mem pmm phys cr3
Reach-Inv stacks mem pmm phys cr3 (later r st) (before, tame) =
    Step-Inv st tame (Reach-Inv stacks mem pmm phys cr3 r before)
