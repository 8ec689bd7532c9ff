-- ===== src/Abi.antt =====
-- The kernel/user interface: include/syscall.h and the messages and labels of include/ipc.h.
use mukern.Base.{ℕ, ℤ, minus_one, negsuc, ◌==◌, if◌then◌else◌}

-- `struct ipc_msg`, four 64-bit words
pub record Msg : Type 0 where
  pub label : ℕ
  pub data0 : ℕ
  pub data1 : ℕ
  pub cap_word : ℕ

-- `IPC_ANY`
abbrev pub ipc_any : ℤ
ipc_any = minus_one

-- `IPC_IRQ_SENDER`
abbrev pub ipc_irq_sender : ℤ
ipc_irq_sender = negsuc 1

-- the labels that the kernel itself sends
abbrev pub msg_fault : ℕ
msg_fault = 4

abbrev pub msg_irq : ℕ
msg_irq = 20

-- the labels of a terminal
abbrev pub msg_write : ℕ
msg_write = 10

abbrev pub msg_readline : ℕ
msg_readline = 14

-- The system call numbers, with the number of a call that the kernel does not have.
pub data Sysno : Type 0 where
  exit putc send recv spawn map_page set_pager gettid outb inb inw grant_io : Sysno
  uptime meminfo tinfo irq_register map_phys grant_cap unknown : Sysno

-- the labels of `switch (tf->rax)`
unfoldable pub decode : ℕ → Sysno
decode n =
    if n == 0
    then exit
    else if n == 1
    then putc
    else if n == 2
    then send
    else if n == 3
    then recv
    else if n == 4
    then spawn
    else if n == 5
    then map_page
    else if n == 6
    then set_pager
    else if n == 7
    then gettid
    else if n == 8
    then outb
    else if n == 9
    then inb
    else if n == 10
    then inw
    else if n == 11
    then grant_io
    else if n == 12
    then uptime
    else if n == 13
    then meminfo
    else if n == 14
    then tinfo
    else if n == 15
    then irq_register
    else if n == 16
    then map_phys
    else if n == 17
    then grant_cap
    else unknown
