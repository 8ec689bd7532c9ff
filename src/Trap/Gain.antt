-- ===== src/Trap/Gain.antt =====
-- Interrupts, faults and resumed calls, and the capabilities that threads hold.
use mukern.Base.{
  ℕ, ℤ, ◌≡◌, refl, subst, Bool, Option, some, none, ◌==◌, ◌==ℤ◌, ◌&&◌, not, leb, inl, inr,
  Bool-cases, arith,
}
use mukern.Abi.{Msg}
use mukern.Thread.{
  Kernel, Thread, Kont, idle_loop, bootstrap, to_user, torn_down, after_send, after_recv,
  by_syscall, by_fault, dead, self, put_self, thread_by_id, is_vacant, is_receiving, idle_ipc,
}
use mukern.Cap.Gain.{NoGain, NoGain-refl, NoGain-trans, store-NoGain}
use mukern.Sched.{schedule}
use mukern.Sched.Gain.{schedule-NoGain}
use mukern.Ipc.{
  Progress, done, switched, ipc_send_locked, ipc_recv_locked, finish_send, finish_recv,
}
use mukern.Ipc.Gain.{send-NoGain, recv-NoGain}
use mukern.Syscall.{Env, set_result, recv_return}
use mukern.Syscall.Confine.{set_result-NoGain, recv_return-NoGain}
use mukern.Trap.{
  timer_tick, back_to_user, fault_verdict, fault_recv_result, fault_wait, fault_send_result,
  fault_msg, page_fault, is_tid, notified, notify, device_irq, resume_as, resume,
}

pub timer_tick-NoGain : (s : Kernel) → NoGain s (timer_tick s)
unfolding timer_tick
timer_tick-NoGain s = schedule-NoGain (self s).kont _

notified-table : (d : Thread) → (notified d).ctable ≡ d.ctable
notified-table d = ground arith

notify-NoGain : (d : Option ℕ) (s : Kernel) → NoGain s (notify d s)
notify-NoGain none s = NoGain-refl s
notify-NoGain (some d) s = elim (Bool-cases (is_vacant (s.threads d).state)) [
  | inl e ↦ rw e (NoGain-refl s)
  | inr e ↦ rw e (store-NoGain s d (notified (s.threads d)) (notified-table (s.threads d)))
]

pub device_irq-NoGain : (irq : ℕ) (s : Kernel) → NoGain s (device_irq irq s)
unfolding device_irq
device_irq-NoGain irq s =
    let told = notify-NoGain (thread_by_id (s.irq_tid irq)) s in
    elim (Bool-cases (leb 8 irq)) [ inl e ↦ rw e told | inr e ↦ rw e told ]

fault_verdict-NoGain : (m : Msg) (s : Kernel) → NoGain s (fault_verdict m s)
unfolding fault_verdict
fault_verdict-NoGain m s = elim (Bool-cases (m.data0 == 0)) [
  | inl e ↦ rw e (store-NoGain s s.current _ refl)
  | inr e ↦
      let s' : Kernel = put_self s (record (self s) { state = dead }) in
      rw e (
        NoGain-trans s s' (schedule torn_down s') (store-NoGain s s.current _ refl)
          (schedule-NoGain torn_down s'))
]

recv_result-NoGain :
    (s : Kernel) (r : Kernel × Progress (ℤ × Msg)) → NoGain s r.0 → NoGain s (fault_recv_result r)
recv_result-NoGain s (u, done (from, m)) h =
    NoGain-trans s u (fault_verdict m u) h (fault_verdict-NoGain m u)
recv_result-NoGain s (u, switched) h = h

fault_wait-NoGain : (env : Env) (s : Kernel) → NoGain s (fault_wait env s)
unfolding fault_wait
fault_wait-NoGain env s =
    recv_result-NoGain s (ipc_recv_locked by_fault s.pager_tid env.junk s)
      (recv-NoGain by_fault s.pager_tid env.junk s)

send_result-NoGain :
    (env : Env) (s : Kernel) (r : Kernel × Progress ℤ)
    → NoGain s r.0
    → NoGain s (fault_send_result env r)
send_result-NoGain env s (u, done v) h =
    NoGain-trans s u (fault_wait env u) h (fault_wait-NoGain env u)
send_result-NoGain env s (u, switched) h = h

pub page_fault-NoGain :
    (env : Env) (u : Bool) (addr : ℕ) (s t : Kernel) → page_fault env u addr s ≡ some t → NoGain s t
unfolding page_fault
page_fault-NoGain env u addr s t e =
    elim (Bool-cases (u && is_tid s.pager_tid && not ((self s).id ==ℤ s.pager_tid))) [
      | inr off ↦ cc (rw off at e)
      | inl on ↦
          let m : Msg = fault_msg (self s).id addr in
          let same : fault_send_result env (ipc_send_locked by_fault s.pager_tid m s) ≡ t =
            cc (rw on at e) in
          subst (NoGain s) same (
            send_result-NoGain env s (ipc_send_locked by_fault s.pager_tid m s)
              (send-NoGain by_fault s.pager_tid m s))
    ]

finish_send-NoGain : (s : Kernel) → NoGain s (finish_send s).0
unfolding finish_send
finish_send-NoGain s = store-NoGain s s.current (record (self s) { ipc_state = idle_ipc }) refl

finish_recv-NoGain : (out : Msg) (s : Kernel) → NoGain s (finish_recv out s).0
unfolding finish_recv
finish_recv-NoGain out s = elim (Bool-cases (is_receiving (self s).ipc_state)) [
  | inl e ↦ rw (e, finish_recv) (store-NoGain s s.current _ refl)
  | inr e ↦ rw (e, finish_recv) (store-NoGain s s.current _ refl)
]

back-NoGain : (s : Kernel) → NoGain s (back_to_user s)
back-NoGain s = store-NoGain s s.current (record (self s) { kont = to_user }) refl

resume_as-NoGain : (k : Kont) (env : Env) (s : Kernel) → NoGain s (resume_as k env s)
unfolding resume_as
resume_as-NoGain (after_send by_syscall) env s =
    let (u, r) = finish_send s in
    NoGain-trans s u (set_result (back_to_user u, r)) (finish_send-NoGain s)
      (set_result-NoGain u (back_to_user u, r) (back-NoGain u))
resume_as-NoGain (after_send by_fault) env s =
    NoGain-trans s (finish_send s).0 (fault_wait env (finish_send s).0) (finish_send-NoGain s)
      (fault_wait-NoGain env (finish_send s).0)
resume_as-NoGain (after_recv out by_syscall) env s =
    let (u, from, m) = finish_recv out s in
    NoGain-trans s u (recv_return from m (back_to_user u)) (finish_recv-NoGain out s) (
      NoGain-trans u (back_to_user u) (recv_return from m (back_to_user u)) (back-NoGain u)
        (recv_return-NoGain from m (back_to_user u)))
resume_as-NoGain (after_recv out by_fault) env s =
    let (u, from, m) = finish_recv out s in
    NoGain-trans s u (fault_verdict m u) (finish_recv-NoGain out s) (fault_verdict-NoGain m u)
resume_as-NoGain (bootstrap prog) env s = store-NoGain s s.current _ refl
resume_as-NoGain idle_loop env s = NoGain-refl s
resume_as-NoGain to_user env s = NoGain-refl s
resume_as-NoGain torn_down env s = NoGain-refl s

pub resume-NoGain : (env : Env) (s : Kernel) → NoGain s (resume env s)
unfolding resume
resume-NoGain env s = resume_as-NoGain (self s).kont env s
