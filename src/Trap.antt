-- ===== src/Trap.antt =====
-- `isr_handler` of arch/x86_64/trap/trap.c: the timer, page faults and device interrupts, and the
-- code that runs when a thread that waited in the kernel is resumed. `none` is `panic_exception`.
pub mod Gain
pub mod Handler
pub mod Preempt
use mukern.Base.{
  ℕ, ℤ, pos, negsuc, ◌+◌, ◌%◌, ◌^◌, Bool, true, false, Option, none, some, ◌==◌, ◌==ℤ◌, leb, ◌&&◌,
  not, to_u64, if◌then◌else◌,
}
use mukern.Abi.{Msg, msg_fault}
use mukern.Thread.{
  Kernel, Thread, Kont, idle_loop, bootstrap, to_user, torn_down, after_send, after_recv,
  by_syscall, by_fault, dead, out8, is_blocked, is_receiving, is_vacant, put, put_self, self,
  thread_by_id, thread_wake,
}
use mukern.Sched.{schedule}
use mukern.Ipc.{
  Progress, done, switched, ipc_send_locked, ipc_recv_locked, finish_send, finish_recv,
}
use mukern.Syscall.{Env, log, set_result, recv_return, do_syscall}

-- `pic_send_eoi` of arch/x86_64/hal/pic.h
abbrev pub pic_send_eoi : ℕ → Kernel → Kernel
pic_send_eoi irq s = log (out8 0x20 0x20) (if leb 8 irq then log (out8 0xA0 0x20) s else s)

-- The timer: the thread that it interrupts goes on with what it was doing.
unfoldable pub timer_tick : Kernel → Kernel
timer_tick s = schedule (self s).kont (pic_send_eoi 0 (record s { ticks = (s.ticks + 1) % 2 ^ 64 }))

-- The way back to ring 3, at the end of a kernel call.
abbrev pub back_to_user : Kernel → Kernel
back_to_user s = put_self s (record (self s) { kont = to_user })

-- The verdict of the pager on a page fault: a reply other than 0 kills the thread.
unfoldable pub fault_verdict : Msg → Kernel → Kernel
fault_verdict reply s =
    if reply.data0 == 0
    then back_to_user s
    else schedule torn_down (put_self s (record (self s) { state = dead }))

abbrev pub fault_recv_result : Kernel × Progress (ℤ × Msg) → Kernel
fault_recv_result (s, done (from, reply)) = fault_verdict reply s
fault_recv_result (s, switched) = s

-- The fault path from `ipc_recv_locked` on; the result of the send is not looked at.
unfoldable pub fault_wait : Env → Kernel → Kernel
fault_wait env s = fault_recv_result (ipc_recv_locked by_fault s.pager_tid env.junk s)

abbrev pub fault_send_result : Env → Kernel × Progress ℤ → Kernel
fault_send_result env (s, done r) = fault_wait env s
fault_send_result env (s, switched) = s

abbrev pub is_tid : ℤ → Bool
is_tid (pos n) = true
is_tid (negsuc n) = false

abbrev pub fault_msg : ℤ → ℕ → Msg
fault_msg tid addr = record { label = msg_fault; data0 = to_u64 tid; data1 = addr; cap_word = 0 }

-- A page fault at `addr`.
unfoldable pub page_fault : Env → Bool → ℕ → Kernel → Option Kernel
page_fault env from_user addr s =
    if from_user && is_tid s.pager_tid && not ((self s).id ==ℤ s.pager_tid)
    then some (
        fault_send_result env (ipc_send_locked by_fault s.pager_tid (fault_msg (self s).id addr) s))
    else none

-- The registered driver of a line, told of one more interrupt.
abbrev pub notified : Thread → Thread
notified d =
    let d' = record d { irq_pending = d.irq_pending + 1 } in
    if is_receiving d.ipc_state then thread_wake d' else d'

abbrev pub notify : Option ℕ → Kernel → Kernel
notify none s = s
notify (some d) s = if is_vacant (s.threads d).state then s else put s d (notified (s.threads d))

-- A device interrupt on a line below 16 other than the timer's.
unfoldable pub device_irq : ℕ → Kernel → Kernel
device_irq irq s = pic_send_eoi irq (notify (thread_by_id (s.irq_tid irq)) s)

-- What the current thread does in the kernel after a `context_switch` to it.
unfoldable pub resume_as : Kont → Env → Kernel → Kernel
resume_as (after_send by_syscall) env s0 =
    let (s, r) = finish_send s0 in set_result (back_to_user s, r)
resume_as (after_send by_fault) env s0 = let (s, r) = finish_send s0 in fault_wait env s
resume_as (after_recv out by_syscall) env s0 =
    let (s, from, m) = finish_recv out s0 in recv_return from m (back_to_user s)
resume_as (after_recv out by_fault) env s0 =
    let (s, from, m) = finish_recv out s0 in fault_verdict m s
resume_as (bootstrap prog) env s = record (back_to_user s) { rsp0 = (self s).kstack_top }
resume_as idle_loop env s = s
resume_as to_user env s = s
resume_as torn_down env s = s

unfoldable pub resume : Env → Kernel → Kernel
resume env s = resume_as (self s).kont env s
