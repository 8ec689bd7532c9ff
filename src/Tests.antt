-- ===== src/Tests.antt =====
-- The theorems at concrete states of the machine, with a root and three other threads.

mod Platform
mod Servers
mod Archive
mod Devices
mod Policy
mod Memory
mod Terminal
use mukern.Base.{
  ◌⊎◌, ◌||◌, ◌==ℤ◌, ◌*◌, ◌≢◌, subst, ◌∷◌, minus_one, first_from, ℕ, ℤ, pos, negsuc, ◌≡◌, refl, inl,
  inr, ◌<◌, ◌≤◌, Bool, true, false, some, none, ◌==◌, if◌then◌else◌, [], arith,
}
use mukern.Abi.{Msg, ipc_any, decode, Sysno, grant_io, grant_cap, outb}
use mukern.Thread.{
  Kernel, Thread, Cap, Pmm, TState, IpcState, Kont, CapType, idle, unused, runnable, running,
  blocked, idle_ipc, sending, receiving, to_user, idle_loop, after_send, after_recv, by_syscall,
  endpoint, ioport, null, max_threads, out8,
}
use mukern.Cap.{
  cap_has_endpoint, cap_has_port, cleared_cap, cap_grant_endpoint, cap_grant_io, covers_port,
}
use mukern.Cap.Grant.{cap_grant_io_lem, cap_grant_endpoint_lem, in_range, IsFull}
use mukern.Sched.{reschedule, sched_init, thread_create}
use mukern.Sched.Fair.{reschedule-turn, turn}
use mukern.Ipc.{ipc_send_locked, ipc_recv_locked, finish_recv, done}
use mukern.Ipc.Delivery.{receiver_first, sender_first, Offers, Wanted}
use mukern.Syscall.{
  Env, do_syscall, dispatch, sys_send, sys_grant_cap, sys_grant_io, refuse, proc_spawn,
}
use mukern.Syscall.Access.{port_call_checked}
use mukern.Trap.Preempt.{runs_within, ticks}
use mukern.Inv.{Inv}
use mukern.Trap.{timer_tick}
use mukern.Pmm.{pmm_alloc_frame, pmm_free_frame, page_size, bm_test, bm_set}
use mukern.Pmm.Frames.{Taken, in_use, IsSound, pmm_alloc_frame_lem, alloc_twice, free-alloc}
use mukern.System.{boot, Reach, start, later, timer, syscall, statics, traps_init}
use mukern.System.Rights.{EndpointIn, PortIn, Reach-endpoints, Reach-ports}
use mukern.System.Safe.{Reach-Inv}

abbrev hello : Msg
hello = record { label = 10; data0 = 7; data1 = 8; cap_word = 9 }

abbrev no_caps : ℕ → Cap
no_caps i = cleared_cap

-- thread `i` in user mode or in the kernel, with the arguments `rdi`, `rsi` and `rdx`
abbrev thread_at : ℕ → Kont → TState → IpcState → ℤ → Thread
thread_at i k st ipc peer = record {
  kont = k;
  regs = record { rax = 0; rdi = 3; rsi = 5; rdx = 4 };
  state = st;
  id = pos i;
  kstack_top = 0;
  ipc_state = ipc;
  ipc_peer = peer;
  ipc_call_to = ipc_any;
  ipc_from = pos 0;
  irq_pending = 0;
  ipc_buf = hello;
  ctable = no_caps;
}

abbrev machine : Pmm
machine = record {
  bitmap = λ i. if i == 0 then 5 else 255;
  total_frames = 4;
  free_frames = 2;
  alloc_hint = 3;
}

-- Thread 1 waits for anybody, thread 2 has a message for the root, and thread 3 can run.
abbrev threads : ℕ → Thread
threads i =
    if i == 0
    then thread_at 0 to_user running idle_ipc ipc_any
    else (if i == 1
        then thread_at 1 (after_recv hello by_syscall) blocked receiving ipc_any
        else (if i == 2
            then thread_at 2 (after_send by_syscall) blocked sending (pos 0)
            else (if i == 3
                then thread_at 3 to_user runnable idle_ipc ipc_any
                else thread_at i to_user unused idle_ipc ipc_any)))

-- The same threads, with the thread `c` as the current one.
abbrev kernel_at : ℕ → Kernel
kernel_at c = record (statics 0 (λ _. 0) machine (λ _. 0) 0) { threads = threads; current = c }

abbrev env : Env
env = record { junk = hello; port8 = λ _. 0; port16 = λ _. 0 }

-- The root calls the kernel for thread 3, with the argument 5.
abbrev calling : ℕ → Kernel
calling n = record (kernel_at 0) {
  threads = λ i.
      if i == 0
      then record (threads 0) { regs = record { rax = n; rdi = 3; rsi = 5; rdx = 4 } }
      else threads i;
}

abbrev one_call : (n : ℕ) → Reach (calling n) (do_syscall env (calling n))
one_call n = later start (syscall env refl (λ e. absurd (omega (arith, e))))

-- It gives away the endpoint 5 by SYS_GRANT_CAP.
given_endpoint : cap_has_endpoint ((do_syscall env (calling 17)).threads 3) (pos 5) ≡ true
unfolding do_syscall decode dispatch sys_grant_cap cap_grant_endpoint cap_has_endpoint first_from
given_endpoint = refl

Reach-endpoints_example :
    (cap_has_endpoint (threads 3) (pos 5) ≡ true) ⊎ EndpointIn 3 (pos 5) (one_call 17)
Reach-endpoints_example = Reach-endpoints (one_call 17) (tt, tt) 3 (pos 5) given_endpoint

-- It gives away the ports from 5 up to 9 by SYS_GRANT_IO.
given_port : cap_has_port ((do_syscall env (calling 11)).threads 3) 6 ≡ true
unfolding do_syscall decode dispatch sys_grant_io cap_grant_io cap_has_port first_from
given_port = refl

Reach-ports_example : (cap_has_port (threads 3) 6 ≡ true) ⊎ PortIn 3 6 (one_call 11)
Reach-ports_example = Reach-ports (one_call 11) (tt, tt) 3 6 given_port

runs_within_example : (n : ℕ) × (n ≤ max_threads) × ((ticks n (kernel_at 0)).current ≡ 3)
runs_within_example = runs_within (kernel_at 0) 3 (omega arith) (omega arith) refl

-- Thread 0 sends to thread 1, which runs again in the state that the send has left.
abbrev after_hello : Kernel
after_hello = record (ipc_send_locked by_syscall (pos 1) hello (kernel_at 0)).0 { current = 1 }

receiver_first_example :
    let (s', r) = ipc_send_locked by_syscall (pos 1) hello (kernel_at 0) in
    (r ≡ done (pos 0))
    × ((s'.threads 1).state ≡ runnable)
    × ((j : ℕ) → 1 ≢ j → s'.threads j ≡ threads j)
    × ((finish_recv hello after_hello).1 ≡ pos 0)
    × ((finish_recv hello after_hello).2 ≡ hello)
receiver_first_example =
    receiver_first by_syscall hello hello (kernel_at 0) after_hello (pos 1) 1 refl
      (record { stopped = refl; wants = refl; peer = inl refl })
      (record { ipc_as = refl; from_as = refl; buf_as = refl })

sender_first_example :
    let (s', r) = ipc_recv_locked by_syscall ipc_any hello (kernel_at 0) in
    (p : ℕ) × (p ≤ 2)
    × Offers (threads p) (pos 0)
    × Wanted ipc_any (threads p)
    × (r ≡ done ((threads p).id, (threads p).ipc_buf))
    × ((s'.threads p).state ≡ runnable)
    × ((s'.threads p).ipc_state ≡ idle_ipc)
    × ((j : ℕ) → p ≢ j → s'.threads j ≡ threads j)
sender_first_example =
    sender_first by_syscall ipc_any hello (kernel_at 0) 2 refl (omega arith)
      (record { stopped = refl; wants = refl; peer = refl }) (inl refl)

abbrev NoReply3 : ℕ → Type 0
NoReply3 d =
    ((threads d).ipc_call_to ≢ pos 3)
    × ¬ (
        ((threads d).state ≡ blocked)
        × ((threads d).ipc_state ≡ receiving)
        × ((threads d).ipc_peer ≡ pos 3))

no_reply_3 : NoReply3 3
no_reply_3 = (λ e. cc e, λ h. cc (h.0))

port_call_checked_example :
    ((cap_has_port (threads 3) 3 ≡ true) × ((dispatch outb env (kernel_at 3)).io ≡ out8 3 5 ∷ []))
    ⊎ ((cap_has_port (threads 3) 3 ≡ false)
        × (dispatch outb env (kernel_at 3) ≡ refuse (kernel_at 3)))
port_call_checked_example = port_call_checked outb env (kernel_at 3) refl

cap_grant_io_lem_example :
    let (s', r) = cap_grant_io (some 3) 0x1F0 8 (kernel_at 0) in
    ((r ≡ pos 0)
      × ((port : ℕ)
          → cap_has_port (s'.threads 3) port
            ≡ (cap_has_port (threads 3) port || in_range 0x1F0 8 port))
      × ((j : ℕ) → 3 ≢ j → s'.threads j ≡ threads j))
    ⊎ ((r ≡ minus_one) × (s' ≡ kernel_at 0) × IsFull (threads 3))
cap_grant_io_lem_example = cap_grant_io_lem 3 0x1F0 8 (kernel_at 0) (omega arith)

cap_grant_endpoint_lem_example :
    let (s', r) = cap_grant_endpoint (some 3) (pos 1) (kernel_at 0) in
    ((r ≡ pos 0)
      × ((e : ℤ)
          → cap_has_endpoint (s'.threads 3) e ≡ (cap_has_endpoint (threads 3) e || (pos 1 ==ℤ e)))
      × ((j : ℕ) → 3 ≢ j → s'.threads j ≡ threads j)
      × (cap_has_endpoint (threads 3) (pos 1) ≡ true → s' ≡ kernel_at 0))
    ⊎ ((r ≡ minus_one) × (s' ≡ kernel_at 0) × IsFull (threads 3))
cap_grant_endpoint_lem_example = cap_grant_endpoint_lem 3 (pos 1) (kernel_at 0)

machine-IsSound : IsSound machine
machine-IsSound = record {
  bytes = λ i. ground arith;
  some_frame = omega arith;
  addressable = omega arith;
  hint_in = omega arith;
  counted = omega arith;
}

pmm_alloc_frame_lem_example :
    ((f : ℕ) × Taken machine (pmm_alloc_frame machine).0 f
      × ((pmm_alloc_frame machine).1 ≡ f * page_size))
    ⊎ (((g : ℕ) → g < 4 → in_use machine g ≡ true) × (pmm_alloc_frame machine ≡ (machine, 0)))
pmm_alloc_frame_lem_example = pmm_alloc_frame_lem machine machine-IsSound

abbrev one_frame : Pmm
one_frame = (pmm_alloc_frame machine).0

free-alloc_example :
    let q = pmm_free_frame (pmm_alloc_frame machine).1 (pmm_alloc_frame machine).0 in
    ((g : ℕ) → in_use q g ≡ in_use machine g) × (q.free_frames ≡ 2)
unfolding pmm_alloc_frame bm_test bm_set first_from
free-alloc_example = free-alloc machine machine-IsSound (λ e. absurd (omega (arith, e)))

-- After boot the timer brings `init` on.
Reach-Inv_example : Inv (timer_tick (boot 4096 (λ _. 0) machine (λ _. 0) 0))
unfolding boot sched_init proc_spawn thread_create traps_init first_from
Reach-Inv_example = Reach-Inv 4096 (λ _. 0) machine (λ _. 0) 0 (later start (timer tt)) (tt, tt)
