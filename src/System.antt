-- ===== src/System.antt =====
-- The machine as a step relation. Between two steps the current thread is in user mode, idle, or
-- about to run the rest of a kernel call that it waited in; interrupts are off in the kernel, so
-- that a trap handler is one step up to its end or to its next `context_switch`. The kernel stores the
-- message of SYS_RECV through the pointer of the user without a check, and SYS_MAP_PHYS maps any frame for
-- the root: where these reach memory that may be the kernel's own, a step may lead to any state.

pub mod Entry
pub mod Rights
pub mod Safe
use mukern.Base.{
  ℕ, ℤ, pos, minus_one, ◌≡◌, ◌≢◌, ◌<◌, ◌⊎◌, ◌-◌, ◌+◌, ◌^◌, Bool, true, false, Option, some, none,
  ltb, leb, ◌&&◌, not, ◌==◌, if◌then◌else◌, [],
}
use mukern.Abi.{Msg, ipc_any, Sysno, send, recv, map_phys, decode}
use mukern.Thread.{
  Kernel, Thread, Cap, Kont, idle_loop, bootstrap, to_user, after_send, after_recv, Caller,
  by_syscall, unused, idle_ipc, idle, Regs, Pmm, put_self, self, max_threads,
}
use mukern.Cap.{cleared_cap}
use mukern.Sched.{sched_init}
use mukern.Syscall.{Env, do_syscall, proc_spawn, pic_set_mask}
use mukern.Trap.{timer_tick, page_fault, device_irq, resume}

-- The current thread has the rest of a kernel call to run.
abbrev pub InKernel : Kont → Type 0
InKernel (after_send w) = Unit {0}
InKernel (after_recv o w) = Unit {0}
InKernel (bootstrap p) = Unit {0}
InKernel _ = ⊥

-- Interrupts are on: the thread is in user mode, in its `user_bootstrap`, or it is the idle loop.
abbrev pub Interruptible : Kont → Type 0
Interruptible to_user = Unit {0}
Interruptible idle_loop = Unit {0}
Interruptible (bootstrap p) = Unit {0}
Interruptible _ = ⊥

-- The `n` bytes from `p` on are in the memory of the programs and their heap, above INIT_BASE of the
-- Makefile: no table of the kernel is there.
abbrev pub in_user : ℕ → ℕ → Bool
in_user p n = leb 0x400000000000 p && leb (p + n) (2 ^ 47)

-- The frame at the physical address `p` is device memory below 1 MiB, like that of the screen.
abbrev pub in_device : ℕ → Bool
in_device p = leb 0xA0000 p && ltb p 0x100000

-- A call reads or stores a message outside user memory, or maps a frame that is not device memory.
abbrev pub escapes : Sysno → Kernel → Bool
escapes send s = not (in_user (self s).regs.rsi 32)
escapes recv s = not (in_user (self s).regs.rsi 32)
escapes map_phys s = not (in_device (self s).regs.rsi)
escapes _ s = false

-- What the current thread does next in the kernel, or asks of it, so escapes.
abbrev pub is_wild : Kont → Kernel → Bool
is_wild to_user s = escapes (decode (self s).regs.rax) s
is_wild (after_recv o by_syscall) s = escapes recv s
is_wild _ s = false

pub data Step (s : Kernel) : Kernel → Type 0 where
  -- user code runs: registers and memory become anything
  compute :
      (regs : Regs) (mem : ℕ → ℕ)
      → (self s).kont ≡ to_user
      → s.current ≢ idle
      → Step s (record (put_self s (record (self s) { regs = regs })) { mem = mem })
  syscall : (env : Env) → (self s).kont ≡ to_user → s.current ≢ idle → Step s (do_syscall env s)
  fault :
      (env : Env) (addr : ℕ) {t : Kernel}
      → (self s).kont ≡ to_user
      → s.current ≢ idle
      → page_fault env true addr s ≡ some t
      → Step s t
  timer : Interruptible (self s).kont → Step s (timer_tick s)
  irq : (n : ℕ) → 0 < n → n < 16 → Interruptible (self s).kont → Step s (device_irq n s)
  resumed : (env : Env) → InKernel (self s).kont → s.current ≢ idle → Step s (resume env s)
  -- the kernel's own memory is reached, and becomes anything
  unchecked : (t : Kernel) → is_wild (self s).kont s ≡ true → Step s t

pub data Reach (s : Kernel) : Kernel → Type 0 where
  start : Reach s s
  later : {t u : Kernel} → Reach s t → Step t u → Reach s u

-- The step stays off memory that may be the kernel's own.
abbrev pub IsTame : {s t : Kernel} → Step s t → Type 0
IsTame (unchecked t e) = ⊥
IsTame _ = Unit {0}

-- Every step of the run does.
abbrev pub Tame : {s t : Kernel} → Reach s t → Type 0
Tame start = Unit {0}
Tame (later r st) = Tame r × IsTame st

abbrev zero_msg : Msg
zero_msg = record { label = 0; data0 = 0; data1 = 0; cap_word = 0 }

-- a thread of static storage; the bootstrap context is the idle loop
abbrev zero_thread : Kont → Thread
zero_thread k = record {
  kont = k;
  regs = record { rax = 0; rdi = 0; rsi = 0; rdx = 0 };
  state = unused;
  id = pos 0;
  kstack_top = 0;
  ipc_state = idle_ipc;
  ipc_peer = pos 0;
  ipc_call_to = pos 0;
  ipc_from = pos 0;
  irq_pending = 0;
  ipc_buf = zero_msg;
  ctable = λ _. record cleared_cap { target = pos 0 };
}

-- The statics before `kmain`, with what the machine holds: user memory, the frame allocator after
-- `pmm_init` and `rootfs_load_all`, and the page tables.
abbrev pub statics : ℕ → (ℕ → ℕ) → Pmm → (ℕ → ℕ) → ℕ → Kernel
statics stacks mem pmm phys cr3 = record {
  threads = λ i. zero_thread (if i == idle then idle_loop else to_user);
  current = idle;
  stacks = stacks;
  rsp0 = 0;
  pager_tid = minus_one;
  ticks = 0;
  irq_tid = λ _. pos 0;
  irq_mask = 2 ^ 16 - 1;
  io = [];
  mem = mem;
  pmm = pmm;
  phys = phys;
  cr3 = cr3;
}

-- The part of `hal_traps_init` that keeps the interrupt lines: no driver, and the timer unmasked.
unfoldable pub traps_init : Kernel → Kernel
traps_init s =
    pic_set_mask (2 ^ 16 - 2) (record s {
      irq_tid = λ i. if ltb i 16 then minus_one else s.irq_tid i;
      irq_mask = 2 ^ 16 - 2;
    })

-- `kmain` up to its idle loop: `proc_start_init` spawns the program 0.
unfoldable pub boot : ℕ → (ℕ → ℕ) → Pmm → (ℕ → ℕ) → ℕ → Kernel
boot stacks mem pmm phys cr3 =
    (proc_spawn (pos 0) (sched_init (traps_init (statics stacks mem pmm phys cr3)))).0
