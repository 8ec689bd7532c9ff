-- ===== src/Inv/Syscall.antt =====
-- Every system call keeps the invariant of the thread table.
use mukern.Base.{
  ℤ, pos, negsuc, ◌-◌, ◌%◌, ◌^◌, ◌≡◌, ◌≢◌, inl, inr, refl, subst, Option-cases, Bool-cases, ◌==◌,
  ◌==ℤ◌, to_int, ◌||◌, ltb,
}
use mukern.Abi.{
  Sysno, exit, putc, send, recv, spawn, map_page, set_pager, gettid, outb, inb, inw, grant_io,
  uptime, meminfo, tinfo, irq_register, map_phys, grant_cap, unknown, decode,
}
use mukern.Thread.{Kernel, by_syscall, to_user, idle, self, idle_ipc, thread_by_id}
use mukern.Cap.{cap_grant_io, cap_grant_endpoint, cap_has_port, cap_has_endpoint}
use mukern.Pmm.{pmm_alloc_frame, page_align_down}
use mukern.Paging.{vmm_map, vm_user_page}
use mukern.Syscall
use mukern.Syscall.{
  Env, set_rax, write_msg, set_result, recv_return, dispatch, do_syscall, adopt, proc_spawn,
  send_result, recv_result,
}
use mukern.Inv.{Inv, Fits}
use mukern.Inv.Schedule.{dies-Inv}
use mukern.Inv.Ipc.{ipc_send_locked-Inv, ipc_recv_locked-Inv}
use mukern.Inv.Parts.{
  Alike-Inv, set_rax-Inv, set_result-Inv, grant_io-Inv, grant_endpoint-Inv, proc_spawn-Inv,
  vmm_map-Inv, adopt-Inv, send_result-Inv, recv_result-Inv, by_id-le,
}

-- A thread in user mode has no wait to finish.
pub user-idle_ipc : (s : Kernel) → Inv s → (self s).kont ≡ to_user → (self s).ipc_state ≡ idle_ipc
user-idle_ipc s h k =
    subst (λ st. Fits to_user st (self s).ipc_state (self s).irq_pending) h.runs
      (subst (λ c. Fits c (self s).state (self s).ipc_state (self s).irq_pending) k
        (h.good s.current h.current_in).fits)

module _ (s : Kernel) (h : Inv s) (ne : s.current ≢ idle) where
  exit-Inv : Inv (Syscall.sys_exit s)
  unfolding Syscall.sys_exit
  exit-Inv = dies-Inv s h ne

  send-Inv : Inv (Syscall.sys_send s)
  unfolding Syscall.sys_send
  send-Inv = elim (Bool-cases (Syscall.ipc_send_allowed (to_int (self s).regs.rdi) s)) [
    | inr denied ↦ rw denied (set_rax-Inv _ s h)
    | inl allowed ↦ rw allowed (
        send_result-Inv _ (
          ipc_send_locked-Inv by_syscall (to_int (self s).regs.rdi) _ _
            (Alike-Inv s s.current _ h h.current_in (record {
              id_as = refl;
              kont_as = refl;
              state_as = refl;
              stack_as = refl;
              ipc_as = refl;
              irq_as = refl;
            }))
            ne))
  ]

  map-Inv : Inv (Syscall.sys_map s)
  unfolding Syscall.sys_map
  map-Inv = elim (Bool-cases ((pmm_alloc_frame s.pmm).1 == 0)) [
    | inl e ↦ rw (e, Syscall.sys_map) (set_rax-Inv (2 ^ 64 - 1) s' h)
    | inr e ↦ elim (Bool-cases (mapped.1 ==ℤ pos 0)) [
      | inl z ↦ rw (e, Syscall.sys_map, z) (set_rax-Inv 0 mapped.0 here)
      | inr z ↦ rw (e, Syscall.sys_map, z) (set_rax-Inv (2 ^ 64 - 1) mapped.0 here)
    ]
  ]
    where
      s' : Kernel
      s' = record s { pmm = (pmm_alloc_frame s.pmm).0 }

      mapped : Kernel × ℤ
      mapped = vmm_map (page_align_down (self s).regs.rdi) (pmm_alloc_frame s.pmm).1 vm_user_page s'

      here : Inv mapped.0
      here =
          vmm_map-Inv (page_align_down (self s).regs.rdi) (pmm_alloc_frame s.pmm).1 vm_user_page s'
            h

  spawn-Inv : Inv (Syscall.sys_spawn s)
  unfolding Syscall.sys_spawn
  spawn-Inv =
      let r : Kernel × ℤ = proc_spawn (to_int (self s).regs.rdi) s in
      set_result-Inv (adopt r) (adopt-Inv r (proc_spawn-Inv (to_int (self s).regs.rdi) s h))

  outb-Inv : Inv (Syscall.sys_outb s)
  unfolding Syscall.sys_outb
  outb-Inv = elim (Bool-cases (cap_has_port (self s) (Syscall.port_arg s))) [
    | inl e ↦ rw e (set_rax-Inv _ s h)
    | inr e ↦ rw e (set_rax-Inv _ s h)
  ]

  inb-Inv : (env : Env) → Inv (Syscall.sys_inb env s)
  unfolding Syscall.sys_inb
  inb-Inv env = elim (Bool-cases (cap_has_port (self s) (Syscall.port_arg s))) [
    | inl e ↦ rw e (set_rax-Inv _ s h)
    | inr e ↦ rw e (set_rax-Inv _ s h)
  ]

  inw-Inv : (env : Env) → Inv (Syscall.sys_inw env s)
  unfolding Syscall.sys_inw
  inw-Inv env = elim (Bool-cases (cap_has_port (self s) (Syscall.port_arg s))) [
    | inl e ↦ rw e (set_rax-Inv _ s h)
    | inr e ↦ rw e (set_rax-Inv _ s h)
  ]

  grant_io_call-Inv : Inv (Syscall.sys_grant_io s)
  unfolding Syscall.sys_grant_io
  grant_io_call-Inv = elim (Bool-cases ((self s).id ==ℤ pos 0)) [
    | inl e ↦ rw e (
        set_result-Inv
          (cap_grant_io (thread_by_id (to_int (self s).regs.rdi)) ((self s).regs.rsi % 2 ^ 16)
            ((self s).regs.rdx % 2 ^ 16) s)
          (grant_io-Inv (thread_by_id (to_int (self s).regs.rdi)) _ _ s
            (by_id-le (to_int (self s).regs.rdi)) h))
    | inr e ↦ rw e (set_rax-Inv _ s h)
  ]

  tinfo-Inv : Inv (Syscall.sys_tinfo s)
  unfolding Syscall.sys_tinfo
  tinfo-Inv = elim (Option-cases (thread_by_id (to_int (self s).regs.rdi))) [
    | inl e ↦ rw (e, Syscall.sys_tinfo) (set_rax-Inv _ s h)
    | inr (t, e) ↦ rw (e, Syscall.sys_tinfo) (set_rax-Inv _ s h)
  ]

  map_phys-Inv : Inv (Syscall.sys_map_phys s)
  unfolding Syscall.sys_map_phys
  map_phys-Inv = elim (Bool-cases ((self s).id ==ℤ pos 0)) [
    | inl e ↦ rw e (
        set_result-Inv (vmm_map (self s).regs.rdi (self s).regs.rsi vm_user_page s)
          (vmm_map-Inv (self s).regs.rdi (self s).regs.rsi vm_user_page s h))
    | inr e ↦ rw e (set_rax-Inv _ s h)
  ]

  grant_cap-Inv : Inv (Syscall.sys_grant_cap s)
  unfolding Syscall.sys_grant_cap
  grant_cap-Inv =
      elim (Bool-cases
        (((self s).id ==ℤ pos 0) || cap_has_endpoint (self s) (to_int (self s).regs.rsi))) [
          | inl e ↦ rw e (
              set_result-Inv
                (cap_grant_endpoint (thread_by_id (to_int (self s).regs.rdi))
                  (to_int (self s).regs.rsi) s)
                (grant_endpoint-Inv (thread_by_id (to_int (self s).regs.rdi)) _ s
                  (by_id-le (to_int (self s).regs.rdi)) h))
          | inr e ↦ rw e (set_rax-Inv _ s h)
        ]

irq_register-Inv : (irq : ℤ) (s : Kernel) → Inv s → Inv (Syscall.irq_register_arg irq s)
irq_register-Inv (negsuc n) s h = set_rax-Inv _ s h
irq_register-Inv (pos irq) s h = elim (Bool-cases (ltb irq 16)) [
  | inl e ↦ rw e (set_rax-Inv _ (Syscall.register_irq irq s) h)
  | inr e ↦ rw e (set_rax-Inv _ s h)
]

-- Every system call of a thread in user mode keeps the invariant.
pub dispatch-Inv :
    (n : Sysno) (env : Env) (s : Kernel)
    → Inv s
    → s.current ≢ idle
    → (self s).kont ≡ to_user
    → Inv (dispatch n env s)
unfolding dispatch
dispatch-Inv exit env s h ne k = exit-Inv s h ne
dispatch-Inv putc env s h ne k = unfold Syscall.sys_putc in set_rax-Inv _ s h
dispatch-Inv send env s h ne k = send-Inv s h ne
dispatch-Inv recv env s h ne k =
    unfold Syscall.sys_recv in
    recv_result-Inv _ (
      ipc_recv_locked-Inv by_syscall (to_int (self s).regs.rdi) env.junk s h ne
        (user-idle_ipc s h k))
dispatch-Inv spawn env s h ne k = spawn-Inv s h ne
dispatch-Inv map_page env s h ne k = map-Inv s h ne
dispatch-Inv set_pager env s h ne k = unfold Syscall.sys_set_pager in set_rax-Inv _ s h
dispatch-Inv gettid env s h ne k = set_rax-Inv _ s h
dispatch-Inv outb env s h ne k = outb-Inv s h ne
dispatch-Inv inb env s h ne k = inb-Inv s h ne env
dispatch-Inv inw env s h ne k = inw-Inv s h ne env
dispatch-Inv grant_io env s h ne k = grant_io_call-Inv s h ne
dispatch-Inv uptime env s h ne k = set_rax-Inv _ s h
dispatch-Inv meminfo env s h ne k = unfold Syscall.sys_meminfo in set_rax-Inv _ s h
dispatch-Inv tinfo env s h ne k = tinfo-Inv s h ne
dispatch-Inv irq_register env s h ne k =
    unfold Syscall.sys_irq_register in irq_register-Inv (to_int (self s).regs.rdi) s h
dispatch-Inv map_phys env s h ne k = map_phys-Inv s h ne
dispatch-Inv grant_cap env s h ne k = grant_cap-Inv s h ne
dispatch-Inv unknown env s h ne k = set_rax-Inv _ s h

pub do_syscall-Inv :
    (env : Env) (s : Kernel)
    → Inv s
    → s.current ≢ idle
    → (self s).kont ≡ to_user
    → Inv (do_syscall env s)
unfolding do_syscall
do_syscall-Inv env s h ne k = dispatch-Inv (decode (self s).regs.rax) env s h ne k
