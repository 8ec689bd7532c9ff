-- ===== src/Syscall/Confine.antt =====
-- Capabilities are confined: no system call gives a thread a right that its caller could not give.
pub mod Rights
use mukern.Base.{
  ℕ, ℤ, pos, negsuc, ◌+◌, ◌-◌, ◌%◌, ◌^◌, ◌≡◌, ◌≢◌, ◌⊎◌, ◌<◌, true, false, some, none, Option, refl,
  sym, ap, ◌∙◌, arith, inl, inr, Option-cases, Bool-cases, ◌==◌, ◌==ℤ◌, ==ℤ_iff, to_int, to_u64,
  ltb, ◌||◌, Bool, subst, minus_one, if◌then◌else◌, List,
}
use mukern.Abi.{
  Msg, Sysno, exit, putc, send, recv, spawn, map_page, set_pager, gettid, outb, inb, inw, grant_io,
  uptime, meminfo, tinfo, irq_register, map_phys, grant_cap, unknown, decode,
}
use mukern.Thread.{
  Kernel, Io, Thread, self, put, put_self, thread_by_id, by_syscall, torn_down, dead,
}
use mukern.Cap.{cap_has_port, cap_has_endpoint, cap_grant_io, cap_grant_endpoint}
use mukern.Cap.Gain.{NoGain, NoMore, NoGain-refl, NoGain-trans, store-NoGain}
use mukern.Cap.Grant.{cap_grant_io_lem, cap_grant_endpoint_lem, in_range}
use mukern.Sched.Gain.{schedule-NoGain, thread_create-NoGain}
use mukern.Sched.{schedule}
use mukern.Ipc.{Progress, done, switched, ipc_send_locked, ipc_recv_locked}
use mukern.Ipc.Gain.{send-NoGain, recv-NoGain}
use mukern.Pmm.{pmm_alloc_frame, page_align_down}
use mukern.Paging.{vmm_map, vm_user_page}
use mukern.Paging.Frame.{SameBut, vmm_map-SameBut}
use mukern.Syscall
use mukern.Syscall.{
  Env, set_rax, set_result, recv_return, recv_result, send_result, dispatch, do_syscall, adopt,
  proc_spawn, write_msg, read_msg,
}

pub set_rax-NoGain : (v : ℕ) (s : Kernel) → NoGain s (set_rax v s)
set_rax-NoGain v s = store-NoGain s s.current _ refl

pub set_result-NoGain : (s0 : Kernel) (r : Kernel × ℤ) → NoGain s0 r.0 → NoGain s0 (set_result r)
set_result-NoGain s0 (s, v) h =
    NoGain-trans s0 s (set_rax (to_u64 v) s) h (set_rax-NoGain (to_u64 v) s)

send_result-NoGain :
    (s0 : Kernel) (r : Kernel × Progress ℤ) → NoGain s0 r.0 → NoGain s0 (send_result r)
send_result-NoGain s0 (s, done v) h = set_result-NoGain s0 (s, v) h
send_result-NoGain s0 (s, switched) h = h

pub recv_return-NoGain : (from : ℤ) (m : Msg) (s : Kernel) → NoGain s (recv_return from m s)
unfolding recv_return
recv_return-NoGain from m s =
    let s1 : Kernel =
      put_self (record s { mem = write_msg s.mem (self s).regs.rsi m })
        (record (self s) {
          ipc_call_to = if from ==ℤ (self s).ipc_call_to then minus_one else (self s).ipc_call_to;
        }) in
    NoGain-trans s s1 (set_rax (to_u64 from) s1) (store-NoGain s s.current _ refl)
      (set_rax-NoGain (to_u64 from) s1)

recv_result-NoGain :
    (s0 : Kernel) (r : Kernel × Progress (ℤ × Msg)) → NoGain s0 r.0 → NoGain s0 (recv_result r)
recv_result-NoGain s0 (s, done (from, m)) h =
    NoGain-trans s0 s (recv_return from m s) h (recv_return-NoGain from m s)
recv_result-NoGain s0 (s, switched) h = h

-- The calls that hand out rights; every other moves none.
abbrev pub grants : Sysno → Bool
grants grant_io = true
grants grant_cap = true
grants spawn = true
grants _ = false

vmm_map-NoGain : (va pa flags : ℕ) (s : Kernel) → NoGain s (vmm_map va pa flags s).0
vmm_map-NoGain va pa flags s =
    subst (λ (s' : Kernel). NoGain s s') (sym (vmm_map-SameBut va pa flags s)) (NoGain-refl s)

map-NoGain : (s : Kernel) → NoGain s (Syscall.sys_map s)
unfolding Syscall.sys_map
map-NoGain s = elim (Bool-cases ((pmm_alloc_frame s.pmm).1 == 0)) [
  | inl e ↦ rw (e, Syscall.sys_map) (set_rax-NoGain (2 ^ 64 - 1) s')
  | inr e ↦ elim (Bool-cases (mapped.1 ==ℤ pos 0)) [
    | inl z ↦
        rw (e, Syscall.sys_map, z)
          (NoGain-trans s' mapped.0 (set_rax 0 mapped.0) moved (set_rax-NoGain 0 mapped.0))
    | inr z ↦
        rw (e, Syscall.sys_map, z)
          (NoGain-trans s' mapped.0 (set_rax (2 ^ 64 - 1) mapped.0) moved
            (set_rax-NoGain (2 ^ 64 - 1) mapped.0))
  ]
]
  where
    s' : Kernel
    s' = record s { pmm = (pmm_alloc_frame s.pmm).0 }

    mapped : Kernel × ℤ
    mapped = vmm_map (page_align_down (self s).regs.rdi) (pmm_alloc_frame s.pmm).1 vm_user_page s'

    moved : NoGain s' mapped.0
    moved =
        vmm_map-NoGain (page_align_down (self s).regs.rdi) (pmm_alloc_frame s.pmm).1 vm_user_page s'

map_phys-NoGain : (s : Kernel) → NoGain s (Syscall.sys_map_phys s)
unfolding Syscall.sys_map_phys
map_phys-NoGain s = elim (Bool-cases ((self s).id ==ℤ pos 0)) [
  | inl e ↦
      let r : Kernel × ℤ = vmm_map (self s).regs.rdi (self s).regs.rsi vm_user_page s in
      rw e
        (set_result-NoGain s r (vmm_map-NoGain (self s).regs.rdi (self s).regs.rsi vm_user_page s))
  | inr e ↦ rw e (set_rax-NoGain (2 ^ 64 - 1) s)
]

port_call-NoGain :
    (s : Kernel) (v : ℕ) (io : List Io) (b : Bool)
    → NoGain s (if b then set_rax v (record s { io = io }) else set_rax (2 ^ 64 - 1) s)
port_call-NoGain s v io true = store-NoGain s s.current _ refl
port_call-NoGain s v io false = store-NoGain s s.current _ refl

exit-NoGain : (s : Kernel) → NoGain s (Syscall.sys_exit s)
unfolding Syscall.sys_exit
exit-NoGain s =
    let s' : Kernel = put_self s (record (self s) { state = dead }) in
    NoGain-trans s s' (schedule torn_down s') (store-NoGain s s.current _ refl)
      (schedule-NoGain torn_down s')

send_call-NoGain : (s : Kernel) → NoGain s (Syscall.sys_send s)
unfolding Syscall.sys_send
send_call-NoGain s = elim (Bool-cases (Syscall.ipc_send_allowed dest s)) [
  | inr denied ↦ rw denied (set_rax-NoGain (2 ^ 64 - 1) s)
  | inl allowed ↦ rw allowed (
      send_result-NoGain s (ipc_send_locked by_syscall dest m s') (
        NoGain-trans s s' (ipc_send_locked by_syscall dest m s').0 (store-NoGain s s.current _ refl)
          (send-NoGain by_syscall dest m s')))
]
  where
    dest : ℤ
    dest = to_int (self s).regs.rdi

    m : Msg
    m = read_msg s.mem (self s).regs.rsi

    s' : Kernel
    s' = put_self s (record (self s) { ipc_call_to = dest })

tinfo-NoGain : (s : Kernel) → NoGain s (Syscall.sys_tinfo s)
unfolding Syscall.sys_tinfo
tinfo-NoGain s = elim (Option-cases (thread_by_id (to_int (self s).regs.rdi))) [
  | inl e ↦ rw (e, Syscall.sys_tinfo) (set_rax-NoGain _ s)
  | inr (t, e) ↦ rw (e, Syscall.sys_tinfo) (set_rax-NoGain _ s)
]

irq_register-NoGain : (irq : ℤ) (s : Kernel) → NoGain s (Syscall.irq_register_arg irq s)
irq_register-NoGain (negsuc n) s = set_rax-NoGain _ s
irq_register-NoGain (pos irq) s = elim (Bool-cases (ltb irq 16)) [
  | inl e ↦ rw e (store-NoGain s s.current _ refl)
  | inr e ↦ rw e (set_rax-NoGain _ s)
]

-- A call that hands out nothing.
pub dispatch-NoGain :
    (n : Sysno) (env : Env) (s : Kernel) → grants n ≡ false → NoGain s (dispatch n env s)
unfolding dispatch
dispatch-NoGain exit env s h = exit-NoGain s
dispatch-NoGain putc env s h = unfold Syscall.sys_putc in store-NoGain s s.current _ refl
dispatch-NoGain send env s h = send_call-NoGain s
dispatch-NoGain recv env s h =
    unfold Syscall.sys_recv in
    recv_result-NoGain s (ipc_recv_locked by_syscall (to_int (self s).regs.rdi) env.junk s)
      (recv-NoGain by_syscall (to_int (self s).regs.rdi) env.junk s)
dispatch-NoGain spawn env s h = cc
dispatch-NoGain map_page env s h = map-NoGain s
dispatch-NoGain set_pager env s h = unfold Syscall.sys_set_pager in store-NoGain s s.current _ refl
dispatch-NoGain gettid env s h = set_rax-NoGain _ s
dispatch-NoGain outb env s h = unfold Syscall.sys_outb in port_call-NoGain s _ _ _
dispatch-NoGain inb env s h = unfold Syscall.sys_inb in port_call-NoGain s _ _ _
dispatch-NoGain inw env s h = unfold Syscall.sys_inw in port_call-NoGain s _ _ _
dispatch-NoGain grant_io env s h = cc
dispatch-NoGain uptime env s h = set_rax-NoGain _ s
dispatch-NoGain meminfo env s h = unfold Syscall.sys_meminfo in set_rax-NoGain _ s
dispatch-NoGain tinfo env s h = tinfo-NoGain s
dispatch-NoGain irq_register env s h =
    unfold Syscall.sys_irq_register in irq_register-NoGain (to_int (self s).regs.rdi) s
dispatch-NoGain map_phys env s h = map_phys-NoGain s
dispatch-NoGain grant_cap env s h = cc
dispatch-NoGain unknown env s h = set_rax-NoGain _ s
