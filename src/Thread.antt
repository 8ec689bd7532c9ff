-- ===== src/Thread.antt =====
-- The state of the kernel: `struct thread` and `struct cap` (include/sched.h, include/cap.h), the
-- statics of kernel/sched.c and arch/x86_64/trap/trap.c, and the accessors of kernel/sched.c.
use mukern.Base.{ℕ, ℤ, pos, Bool, true, false, Option, none, some, List, update, ltb, if◌then◌else◌}
use mukern.Abi.{Msg}

pub data CapType : Type 0 where
  null endpoint ioport : CapType

-- `struct cap`
pub record Cap : Type 0 where
  pub type_of : CapType
  pub target : ℤ
  pub rights : ℕ
  pub io_base : ℕ
  pub io_len : ℕ

-- T_UNUSED, T_RUNNABLE, T_RUNNING, T_BLOCKED, T_DEAD
pub data TState : Type 0 where
  unused runnable running blocked dead : TState

-- IPC_NONE, IPC_SENDING, IPC_RECEIVING
pub data IpcState : Type 0 where
  idle_ipc sending receiving : IpcState

-- Who called `ipc_send_locked` or `ipc_recv_locked`: a system call, or the page-fault path.
pub data Caller : Type 0 where
  by_syscall by_fault : Caller

-- What the saved kernel stack of a thread resumes when `context_switch` comes back to it. A
-- thread that waits in `ipc_recv_locked` keeps the caller's `*out`, which is not initialised.
pub data Kont : Type 0 where
  idle_loop : Kont
  bootstrap : ℕ → Kont
  to_user : Kont
  torn_down : Kont
  after_send : Caller → Kont
  after_recv : Msg → Caller → Kont

-- the registers of `struct trapframe` that the kernel reads or writes
pub record Regs : Type 0 where
  pub rax : ℕ
  pub rdi : ℕ
  pub rsi : ℕ
  pub rdx : ℕ

-- `struct thread`, with the trap frame and the continuation that its kernel stack holds
pub record Thread : Type 0 where
  pub kont : Kont
  pub regs : Regs
  pub state : TState
  pub id : ℤ
  pub kstack_top : ℕ
  pub ipc_state : IpcState
  pub ipc_peer : ℤ
  pub ipc_call_to : ℤ
  pub ipc_from : ℤ
  pub irq_pending : ℕ
  pub ipc_buf : Msg
  pub ctable : ℕ → Cap

-- What the kernel does to devices, newest first: port output and input, and the boot console.
pub data Io : Type 0 where
  out8 : ℕ → ℕ → Io
  in8 : ℕ → Io
  in16 : ℕ → Io
  console : ℕ → Io

-- `static` state of kernel/vm.c
pub record Pmm : Type 0 where
  pub bitmap : ℕ → ℕ
  pub total_frames : ℕ
  pub free_frames : ℕ
  pub alloc_hint : ℕ

-- The thread table is indexed from 0 to 15; index 16 is the static `idle`. A pointer to a thread
-- is such an index. `stacks` is the address of the kernel stacks, and `rsp0` the field of the TSS.
pub record Kernel : Type 0 where
  pub threads : ℕ → Thread
  pub current : ℕ
  pub stacks : ℕ
  pub rsp0 : ℕ
  pub pager_tid : ℤ
  pub ticks : ℕ
  pub irq_tid : ℕ → ℤ
  pub irq_mask : ℕ
  pub io : List Io
  pub mem : ℕ → ℕ
  pub pmm : Pmm
  pub phys : ℕ → ℕ
  pub cr3 : ℕ

abbrev pub max_threads : ℕ
max_threads = 16

abbrev pub cap_max : ℕ
cap_max = 16

abbrev pub idle : ℕ
idle = 16

-- Stores through a pointer to a thread.
abbrev pub put : Kernel → ℕ → Thread → Kernel
put s i t = record s { threads = update s.threads i t }

-- `thread_current()`, dereferenced
abbrev pub self : Kernel → Thread
self s = s.threads s.current

abbrev pub put_self : Kernel → Thread → Kernel
put_self s t = put s s.current t

-- `none` is the null pointer.
abbrev pub thread_by_id : ℤ → Option ℕ
thread_by_id (pos n) = if ltb n max_threads then some n else none
thread_by_id n = none

abbrev pub thread_block : Thread → Thread
thread_block t = record t { state = blocked }

abbrev pub is_blocked : TState → Bool
is_blocked blocked = true
is_blocked _ = false

abbrev pub is_runnable : TState → Bool
is_runnable runnable = true
is_runnable _ = false

abbrev pub is_running : TState → Bool
is_running running = true
is_running _ = false

-- T_UNUSED or T_DEAD: the slot holds no thread.
abbrev pub is_vacant : TState → Bool
is_vacant unused = true
is_vacant dead = true
is_vacant _ = false

abbrev pub is_sending : IpcState → Bool
is_sending sending = true
is_sending _ = false

abbrev pub is_receiving : IpcState → Bool
is_receiving receiving = true
is_receiving _ = false

abbrev pub thread_wake : Thread → Thread
thread_wake t = if is_blocked t.state then record t { state = runnable } else t
