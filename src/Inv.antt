-- ===== src/Inv.antt =====
-- What holds of the kernel between two steps, and the steps: the invariant of the thread table
-- (kernel/sched.c) together with the rendezvous states (kernel/ipc.c).
pub mod Schedule
pub mod Ipc
pub mod Returns
pub mod Parts
pub mod Syscall
pub mod Trap
use mukern.Base.{
  update_all, arith, ℕ, ℤ, pos, minus_one, ◌≡◌, ◌≢◌, ◌⊎◌, ◌<◌, ◌≤◌, ◌==◌, if◌then◌else◌,
}
use mukern.Thread.{
  Kernel, Thread, Kont, idle_loop, bootstrap, to_user, torn_down, after_send, after_recv, TState,
  unused, runnable, running, blocked, dead, IpcState, idle_ipc, sending, receiving, idle, self, put,
}
use mukern.Sched.{stack_top}

-- How a thread that goes on with `k` may stand: a thread that waits in the kernel is blocked in
-- the state that its code left, or has been woken by a message or by a pending interrupt.
abbrev pub Fits : Kont → TState → IpcState → ℕ → Type 0
Fits k unused ipc pending = Unit {0}
Fits (after_send w) blocked ipc pending = ipc ≡ sending
Fits (after_send w) runnable ipc pending = ipc ≡ idle_ipc
Fits (after_send w) running ipc pending = ipc ≡ idle_ipc
Fits (after_send w) dead ipc pending = ⊥
Fits (after_recv o w) blocked ipc pending = ipc ≡ receiving
Fits (after_recv o w) runnable ipc pending = (ipc ≡ idle_ipc) ⊎ ((ipc ≡ receiving) × (0 < pending))
Fits (after_recv o w) running ipc pending = (ipc ≡ idle_ipc) ⊎ ((ipc ≡ receiving) × (0 < pending))
Fits (after_recv o w) dead ipc pending = ⊥
Fits torn_down st ipc pending = st ≡ dead
Fits k runnable ipc pending = ipc ≡ idle_ipc
Fits k running ipc pending = ipc ≡ idle_ipc
Fits k blocked ipc pending = ⊥
Fits k dead ipc pending = ⊥

abbrev pub id_of : ℕ → ℤ
id_of i = if i == idle then minus_one else pos i

-- What holds of the thread in slot `i`, with the kernel stacks at `stacks`.
pub record IsGood (stacks i : ℕ) (t : Thread) : Type 0 where
  pub id_is : t.id ≡ id_of i
  pub fits : Fits t.kont t.state t.ipc_state t.irq_pending
  pub stack : i < idle → t.state ≢ unused → t.kstack_top ≡ stack_top stacks i
  pub idle_runs : i ≡ idle → (t.state ≡ running) × (t.kont ≡ idle_loop)

-- The invariant: every slot is good, the current thread and no other of the table is running,
-- and a trap from user mode lands on its kernel stack.
pub record IsValid (threads : ℕ → Thread) (current stacks rsp0 : ℕ) : Type 0 where
  pub current_in : current ≤ idle
  pub good : (i : ℕ) → i ≤ idle → IsGood stacks i (threads i)
  pub runs : (threads current).state ≡ running
  pub alone : (i : ℕ) → i < idle → (threads i).state ≡ running → i ≡ current
  pub lands : current ≢ idle → rsp0 ≡ (threads current).kstack_top

abbrev pub Inv : Kernel → Type 0
Inv s = IsValid s.threads s.current s.stacks s.rsp0

-- A store to one thread keeps the invariant if the new thread is good and it runs as before.
pub put-Inv :
    (s : Kernel) (i : ℕ) (t : Thread)
    → Inv s
    → i ≤ idle
    → IsGood s.stacks i t
    → t.state ≡ (s.threads i).state ⊎ ((i ≢ s.current) × (t.state ≢ running))
    → (i ≡ s.current → t.kstack_top ≡ (s.threads i).kstack_top)
    → Inv (put s i t)
put-Inv s i t v le g st ks = record {
  current_in = v.current_in;
  good = λ j lj. update_all (IsGood s.stacks) s.threads i t g j (λ _. v.good j lj);
  runs = ground (arith, v.runs);
  alone = λ j lj e. ground (arith, v.alone j lj);
  lands = λ ne. ground (arith, v.lands ne);
}
