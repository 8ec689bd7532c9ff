-- ===== src/Sched.antt =====
-- kernel/sched.c: the thread table and the round-robin scheduler. `context_switch` is assembly:
-- it saves the stack of the thread that leaves, which is modelled by the thread's `kont`, and
-- resumes that of the thread that comes in; `Trap` runs the `kont` of the current thread.
pub mod Pick
pub mod Fair
pub mod Dead
pub mod Gain
use mukern.Base.{
  ℕ, ℤ, pos, minus_one, zero, suc, ◌+◌, ◌*◌, ◌%◌, Bool, true, false, Option, none, some, update,
  first_from, ◌==◌, ltb, ◌&&◌, not, if◌then◌else◌,
}
use mukern.Abi.{ipc_any}
use mukern.Thread.{
  Kernel, Thread, Kont, bootstrap, unused, runnable, running, idle_ipc, max_threads, idle, put,
  self, is_runnable, is_running, is_vacant, put_self,
}
use mukern.Cap.{cap_clear}

-- KSTACK_SIZE
abbrev pub kstack_size : ℕ
kstack_size = 16384

-- One round of the loop of `sched_init`.
abbrev init_slot : Thread → ℕ → Thread
init_slot t i = record t { state = unused; id = pos i; ipc_call_to = minus_one }

unfoldable pub sched_init : Kernel → Kernel
sched_init s = record s {
  threads = λ i.
      if ltb i max_threads
      then init_slot (s.threads i) i
      else if i == idle
      then record (s.threads i) { state = running; id = minus_one; ipc_call_to = minus_one }
      else s.threads i;
  current = idle;
}

-- `&stacks[i][KSTACK_SIZE]`, the stacks beginning at the address `stacks`
abbrev pub stack_top : ℕ → ℕ → ℕ
stack_top stacks i = stacks + (i + 1) * kstack_size

-- the thread that `thread_create` leaves in slot `i`, to run the program `prog`
abbrev pub fresh_thread : ℕ → ℕ → ℕ → Thread → Thread
fresh_thread stacks prog i t = cap_clear (record t {
  kont = bootstrap prog;
  kstack_top = stack_top stacks i;
  state = runnable;
  ipc_state = idle_ipc;
  ipc_peer = ipc_any;
  ipc_call_to = minus_one;
  irq_pending = 0;
})

-- `thread_create(user_bootstrap, &progs[prog])`
unfoldable pub thread_create : ℕ → Kernel → Kernel × ℤ
thread_create prog s = elim (first_from (λ i. is_vacant (s.threads i).state) 0 max_threads) [
  | some i ↦ (put s i (fresh_thread s.stacks prog i (s.threads i)), pos i)
  | none ↦ (s, minus_one)
]

-- the index at which the search of `schedule` begins
abbrev pub scan_from : ℕ → ℕ
scan_from prev = if prev == idle then 0 else prev + 1

-- the thread that round `k` of the search looks at, and its test
abbrev pub candidate : Kernel → ℕ → ℕ
candidate s k = (scan_from s.current + k) % max_threads

abbrev pub runnable_at : Kernel → ℕ → Bool
runnable_at s k = is_runnable (s.threads (candidate s k)).state

-- `next`: the first runnable thread in round-robin order, else the idle thread, else none
unfoldable pub pick_next : Kernel → Option ℕ
pick_next s = elim (first_from (runnable_at s) 0 max_threads) [
  | some k ↦ some (candidate s k)
  | none ↦ if s.current == idle then none else some idle
]

-- A running thread that is taken off the processor stays runnable.
abbrev pub demoted : ℕ → Thread → Thread
demoted i t = if is_running t.state && not (i == idle) then record t { state = runnable } else t

abbrev pub demote : Kernel → Kernel
demote s = put_self s (demoted s.current (self s))

abbrev pub promoted : ℕ → Thread → Thread
promoted i t = if i == idle then t else record t { state = running }

abbrev pub promote : ℕ → Kernel → Kernel
promote next s = put s next (promoted next (s.threads next))

abbrev pub switch_to : ℕ → Kernel → Kernel
switch_to next s =
    let s' = promote next (demote s) in
    record s' { rsp0 = (s'.threads next).kstack_top; current = next }

abbrev pub switch_if : Option ℕ → Kernel → Kernel
switch_if none s = s
switch_if (some next) s = if next == s.current then s else switch_to next s

unfoldable pub reschedule : Kernel → Kernel
reschedule s = switch_if (pick_next s) s

-- `schedule()`, called by code of the current thread that goes on with `k`. Afterwards the
-- current thread is the one to resume, whether or not it has changed.
unfoldable pub schedule : Kont → Kernel → Kernel
unfolding reschedule
schedule k s = reschedule (put_self s (record (self s) { kont = k }))
