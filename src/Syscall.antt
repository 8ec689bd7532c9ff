-- ===== src/Syscall.antt =====
-- `do_syscall` of arch/x86_64/trap/trap.c, with `proc_spawn` of kernel/proc.c: one function for each
-- case of the switch, over the state of the kernel whose current thread has trapped.
pub mod Confine
pub mod Access
pub mod Mapping
use Prim.Native.Nat.{bit_and}
use mukern.Base.{
  ℕ, ℤ, pos, negsuc, minus_one, ◌+◌, ◌-◌, ◌*◌, ◌/◌, ◌%◌, ◌^◌, Bool, true, false, Option, none, some,
  List, ◌∷◌, update, ◌==◌, ◌==ℤ◌, ltb, leb, ◌&&◌, ◌||◌, not, to_int, to_u64, if◌then◌else◌,
}
use mukern.Abi.{
  Msg, Sysno, exit, putc, send, recv, spawn, map_page, set_pager, gettid, outb, inb, inw, grant_io,
  uptime, meminfo, tinfo, irq_register, map_phys, grant_cap, unknown, decode,
}
use mukern.Thread.{
  Kernel, Thread, TState, unused, runnable, running, blocked, dead, Io, out8, in8, in16, console,
  by_syscall, torn_down, is_blocked, is_receiving, put, put_self, self, thread_by_id,
}
use mukern.Cap.{cap_has_port, cap_has_endpoint, cap_grant_io, cap_grant_endpoint}
use mukern.Sched.{schedule, thread_create}
use mukern.Ipc.{Progress, done, switched, ipc_send_locked, ipc_recv_locked}
use mukern.Pmm.{pmm_alloc_frame, page_align_down}
use mukern.Paging.{vmm_map, vm_user_page}

-- What the machine gives to one trap: the bytes of an uninitialised `struct ipc_msg` on the kernel
-- stack, and what a read of a port returns.
pub record Env : Type 0 where
  pub junk : Msg
  pub port8 : ℕ → ℕ
  pub port16 : ℕ → ℕ

abbrev pub log : Io → Kernel → Kernel
log e s = record s { io = e ∷ s.io }

-- `tf->rax = v`
abbrev pub set_rax : ℕ → Kernel → Kernel
set_rax v s = put_self s (record (self s) { regs = record (self s).regs { rax = v } })

-- `tf->rax = (uint64_t)(int64_t)v`
abbrev pub set_result : Kernel × ℤ → Kernel
set_result (s, v) = set_rax (to_u64 v) s

abbrev pub refuse : Kernel → Kernel
refuse s = set_rax (2 ^ 64 - 1) s

-- `*(struct ipc_msg *)p`, and the store through such a pointer
abbrev pub read_msg : (ℕ → ℕ) → ℕ → Msg
read_msg mem p = record {
  label = mem p;
  data0 = mem (p + 8);
  data1 = mem (p + 16);
  cap_word = mem (p + 24);
}

abbrev pub write_msg : (ℕ → ℕ) → ℕ → Msg → ℕ → ℕ
write_msg mem p m =
    update (update (update (update mem p m.label) (p + 8) m.data0) (p + 16) m.data1) (p + 24)
      m.cap_word

abbrev pub open_call : Thread → Thread → Bool
open_call d me =
    (d.ipc_call_to ==ℤ me.id)
    || (is_blocked d.state && is_receiving d.ipc_state && (d.ipc_peer ==ℤ me.id))

-- May the current thread send to `dest`?
unfoldable pub ipc_send_allowed : ℤ → Kernel → Bool
ipc_send_allowed dest s =
    ((self s).id ==ℤ pos 0)
    || (dest ==ℤ pos 0)
    || cap_has_endpoint (self s) dest
    || elim (thread_by_id dest) [ none ↦ false | some d ↦ open_call (s.threads d) (self s) ]

unfoldable pub sys_exit : Kernel → Kernel
sys_exit s = schedule torn_down (put_self s (record (self s) { state = dead }))

unfoldable pub sys_putc : Kernel → Kernel
sys_putc s = set_rax 0 (log (console ((self s).regs.rdi % 2 ^ 8)) s)

-- The result of a send, if it came at once.
abbrev pub send_result : Kernel × Progress ℤ → Kernel
send_result (s, done r) = set_result (s, r)
send_result (s, switched) = s

-- The pointer is one to mapped memory of the user: the code does not check it, and reads from any address
-- that the kernel can read, or panics where there is no page.
unfoldable pub sys_send : Kernel → Kernel
sys_send s =
    let dest = to_int (self s).regs.rdi in
    let m = read_msg s.mem (self s).regs.rsi in
    if ipc_send_allowed dest s
    then send_result
        (ipc_send_locked by_syscall dest m (put_self s (record (self s) { ipc_call_to = dest })))
    else refuse s

-- The end of SYS_RECV, once the message is there. The pointer is one to mapped memory of the user: the
-- code does not check it, and stores to any address that the kernel can write, or panics where there is no
-- page.
unfoldable pub recv_return : ℤ → Msg → Kernel → Kernel
recv_return from m s0 =
    let s = record s0 { mem = write_msg s0.mem (self s0).regs.rsi m } in
    let t = self s in
    set_rax (to_u64 from) (
      put_self s
        (record t { ipc_call_to = if from ==ℤ t.ipc_call_to then minus_one else t.ipc_call_to }))

abbrev pub recv_result : Kernel × Progress (ℤ × Msg) → Kernel
recv_result (s, done (from, m)) = recv_return from m s
recv_result (s, switched) = s

unfoldable pub sys_recv : Env → Kernel → Kernel
sys_recv env s = recv_result (ipc_recv_locked by_syscall (to_int (self s).regs.rdi) env.junk s)

-- `PROG_COUNT`
abbrev pub prog_count : ℕ
prog_count = 12

unfoldable pub proc_spawn : ℤ → Kernel → Kernel × ℤ
proc_spawn (negsuc p) s = (s, minus_one)
proc_spawn (pos p) s = if ltb p prog_count then thread_create p s else (s, minus_one)

-- The parent is given an endpoint capability for its child.
abbrev pub adopt : Kernel × ℤ → Kernel × ℤ
adopt (s, pos child) = ((cap_grant_endpoint (some s.current) (pos child) s).0, pos child)
adopt (s, negsuc e) = (s, negsuc e)

unfoldable pub sys_spawn : Kernel → Kernel
sys_spawn s = set_result (adopt (proc_spawn (to_int (self s).regs.rdi) s))

unfoldable pub sys_map : Kernel → Kernel
sys_map s0 =
    let (pmm, f) = pmm_alloc_frame s0.pmm in
    let s = record s0 { pmm = pmm } in
    if f == 0
    then refuse s
    else (let (s', r) = vmm_map (page_align_down (self s).regs.rdi) f vm_user_page s in
        if r ==ℤ pos 0 then set_rax 0 s' else refuse s')

unfoldable pub sys_set_pager : Kernel → Kernel
sys_set_pager s = set_rax 0 (record s { pager_tid = (self s).id })

-- The port that a port system call names, `(uint16_t)tf->rdi`.
abbrev pub port_arg : Kernel → ℕ
port_arg s = (self s).regs.rdi % 2 ^ 16

unfoldable pub sys_outb : Kernel → Kernel
sys_outb s =
    if cap_has_port (self s) (port_arg s)
    then set_rax 0 (log (out8 (port_arg s) ((self s).regs.rsi % 2 ^ 8)) s)
    else refuse s

unfoldable pub sys_inb : Env → Kernel → Kernel
sys_inb env s =
    if cap_has_port (self s) (port_arg s)
    then set_rax (env.port8 (port_arg s) % 2 ^ 8) (log (in8 (port_arg s)) s)
    else refuse s

unfoldable pub sys_inw : Env → Kernel → Kernel
sys_inw env s =
    if cap_has_port (self s) (port_arg s)
    then set_rax (env.port16 (port_arg s) % 2 ^ 16) (log (in16 (port_arg s)) s)
    else refuse s

unfoldable pub sys_grant_io : Kernel → Kernel
sys_grant_io s =
    let r = (self s).regs in
    if (self s).id ==ℤ pos 0
    then set_result (cap_grant_io (thread_by_id (to_int r.rdi)) (r.rsi % 2 ^ 16) (r.rdx % 2 ^ 16) s)
    else refuse s

unfoldable pub sys_meminfo : Kernel → Kernel
sys_meminfo s = set_rax (if (self s).regs.rdi == 0 then s.pmm.free_frames else s.pmm.total_frames) s

-- the value of a state in `enum`
abbrev pub state_code : TState → ℕ
state_code unused = 0
state_code runnable = 1
state_code running = 2
state_code blocked = 3
state_code dead = 4

unfoldable pub sys_tinfo : Kernel → Kernel
sys_tinfo s = elim (thread_by_id (to_int (self s).regs.rdi)) [
  | some t ↦ set_rax (state_code (s.threads t).state) s
  | none ↦ refuse s
]

-- `pic_set_mask` of arch/x86_64/hal/pic.h
abbrev pub pic_set_mask : ℕ → Kernel → Kernel
pic_set_mask mask s = log (out8 0xA1 (mask / 2 ^ 8)) (log (out8 0x21 (mask % 2 ^ 8)) s)

-- `mask & ~(1u << irq)` on 16 bits
abbrev pub unmask : ℕ → ℕ → ℕ
unmask irq mask = bit_and mask (2 ^ 16 - 1 - 2 ^ irq)

-- the registration of the current thread for a line that exists
abbrev pub register_irq : ℕ → Kernel → Kernel
register_irq irq s =
    let mask = unmask irq s.irq_mask in
    pic_set_mask mask (record s { irq_tid = update s.irq_tid irq (self s).id; irq_mask = mask })

abbrev pub irq_register_arg : ℤ → Kernel → Kernel
irq_register_arg (negsuc n) s = refuse s
irq_register_arg (pos irq) s = if ltb irq 16 then set_rax 0 (register_irq irq s) else refuse s

unfoldable pub sys_irq_register : Kernel → Kernel
sys_irq_register s = irq_register_arg (to_int (self s).regs.rdi) s

unfoldable pub sys_map_phys : Kernel → Kernel
sys_map_phys s =
    if (self s).id ==ℤ pos 0
    then set_result (vmm_map (self s).regs.rdi (self s).regs.rsi vm_user_page s)
    else refuse s

unfoldable pub sys_grant_cap : Kernel → Kernel
sys_grant_cap s =
    let ep = to_int (self s).regs.rsi in
    if ((self s).id ==ℤ pos 0) || cap_has_endpoint (self s) ep
    then set_result (cap_grant_endpoint (thread_by_id (to_int (self s).regs.rdi)) ep s)
    else refuse s

-- the body of `switch (tf->rax)`
unfoldable pub dispatch : Sysno → Env → Kernel → Kernel
dispatch exit env s = sys_exit s
dispatch putc env s = sys_putc s
dispatch send env s = sys_send s
dispatch recv env s = sys_recv env s
dispatch spawn env s = sys_spawn s
dispatch map_page env s = sys_map s
dispatch set_pager env s = sys_set_pager s
dispatch gettid env s = set_result (s, (self s).id)
dispatch outb env s = sys_outb s
dispatch inb env s = sys_inb env s
dispatch inw env s = sys_inw env s
dispatch grant_io env s = sys_grant_io s
dispatch uptime env s = set_rax s.ticks s
dispatch meminfo env s = sys_meminfo s
dispatch tinfo env s = sys_tinfo s
dispatch irq_register env s = sys_irq_register s
dispatch map_phys env s = sys_map_phys s
dispatch grant_cap env s = sys_grant_cap s
dispatch unknown env s = refuse s

unfoldable pub do_syscall : Env → Kernel → Kernel
do_syscall env s = dispatch (decode (self s).regs.rax) env s
