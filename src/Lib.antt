-- ===== src/Lib.antt =====
-- muKern: a microkernel for x86_64 with user-space servers, which talk by synchronous messages and
-- hold capabilities for endpoints and I/O ports.
--
-- The kernel is one state machine. Its state, `Thread.Kernel`, holds the static data of
-- kernel/sched.c, kernel/vm.c and arch/x86_64/trap/trap.c, user memory and the page tables. Traps
-- run with interrupts off, so a handler is a function on this state up to its end or to its next
-- `context_switch`; `System.Step` puts these functions, arbitrary user code and interrupts in any
-- order.
--
-- Base      numbers, integers, tables, loops that search, and the bits of a byte
-- Abi       include/ipc.h and include/syscall.h: messages and system-call numbers
-- Thread    include/sched.h, include/cap.h: `struct thread`, `struct cap` and the kernel's state
-- Cap       kernel/cap.c, function by function
-- Sched     kernel/sched.c: `sched_init`, `thread_create`, `schedule` and `thread_exit`
-- Ipc       kernel/ipc.c: `ipc_send_locked` and `ipc_recv_locked`; Ipc.Capability has the wrappers and
--           `ipc_send_cap` of kernel/cap.c
-- Pmm       kernel/vm.c, function by function
-- Paging    arch/x86_64/mm/paging.c: `next_table`, `vmm_map` and `vmm_unmap`; Paging.Translate is the
--           walk of the processor, with large pages and the bits that permit writes and user code
-- Memmap    arch/x86_64/mm/memmap.c: the memory map of the boot loader
-- Syscall   `do_syscall` of arch/x86_64/trap/trap.c, one function for each case
-- Trap      `isr_handler` of arch/x86_64/trap/trap.c, and what runs after a context switch;
--           Trap.Handler is its dispatch on the vector
-- Inv       the invariant of the thread table
-- System    kernel/main.c, and the machine as a step relation; System.Entry and System.Rights are about
--           the traps that enter it and about rights over whole runs
-- Console   drivers/console/main.c: receive ring, history, line editor and the messages
-- Fs        servers/fs_server/main.c: opening, reading, listing and closing files of a USTAR archive,
--           and the messages of the server
-- Vga       servers/vga/main.c: the text screen; Vga.Keyboard is the keyboard and the messages
-- Init      servers/init/main.c: the spawns and grants of capabilities at the start
-- Pager     servers/vm_server/main.c: the answer to a page fault
-- Pm        servers/pm/main.c: spawning for a client, and what the child is given
-- Block     drivers/block/main.c: reading a sector from the ATA controller
-- Shell     servers/shell/main.c: splitting a line, choosing the command, and the commands over the
--           file server of Fs
-- Text      `put_dec` of arch/x86_64/trap/trap.c: decimal numbers; Text.Hex is `put_hex`
-- User      lib/usys.h: what user code prints through the console driver
-- Segments  arch/x86_64/trap/gdt.c and usermode.c: segments, task state, the way to ring 3
-- Gates     arch/x86_64/trap/idt.c: the interrupt descriptor table
-- Context   arch/x86_64/trap/archstack.c: the first stack of a thread
-- Riscv     arch/riscv64: timer, trap handler, first stack and `kmain`, over Sched
-- Hal       arch/x86_64/hal: interrupt controllers, timer, serial line, text mirror
-- Tests     the theorems at concrete states
--
-- A pointer to a thread is its index in the table; index 16 is the static `idle`, and the null
-- pointer is `none`. The stack pointer of a thread is its continuation `kont`: what it goes on with
-- when it is switched to. `schedule k` is a call of `schedule()` by code that goes on with `k`; the
-- rest of `ipc_send_locked` and `ipc_recv_locked` behind that call is `finish_send` and
-- `finish_recv`. `int` fields are integers, without the overflow of `irq_pending`; words of 64, 32,
-- 16 and 8 bits wrap where the code lets them. What a local `struct ipc_msg` holds before it is
-- written is `Env.junk`, and what a port returns is `Env.port8` and `Env.port16`. `none` of
-- `page_fault` is `panic_exception`, which does not return.
--
-- Loops run on the number of their rounds. These run on fuel. The loops of `edit` of the console
-- driver and of the VGA server take a byte of the ring in each round, and the rings hold 255 and 127
-- at most, so that 256 and 128 rounds are enough. `name_eq` runs on 512, the size of a header, in
-- which the name ends, and `list_name` likewise. `fs_open_from` and `fs_list_from` need a round for
-- each sector of the disk, since every round moves on by one sector at least, `walk_map` one for each
-- byte of the map, and `dec_digits` one for each digit. `cl_cpy` runs on the 160 bytes of its buffer,
-- `split` and `streq` of the shell on the 128 bytes of theirs, and the polling loops of `ata_read1` on
-- the bound of the controller.
--
-- Not modelled: the assembly of startup, traps and context switches, the TLB, the stubs of the system
-- calls, polling for a free transmitter, the loading of the programs by kernel/proc.c, and the demos,
-- which are arbitrary user code here. A message of SYS_SEND and SYS_RECV is read and stored in user
-- memory, which is apart from the kernel's: `Syscall` says nothing of a call whose pointer the kernel does
-- not check and which leads to its own tables, where it may overwrite them, or to no page, where the
-- kernel panics. In `System` such a call, and a SYS_MAP_PHYS of memory that is no device's, is a step to
-- any state, and theorems over whole runs say that they exclude it. Page tables are kept apart from user
-- memory likewise. `Pm` takes the system calls of a round one after the other, up to the send that the
-- process manager then waits on. A device header is the list of its writes to ports, and the descriptor
-- tables, frames and stacks are held against what the processor and `context_switch` make of them. `Init`
-- takes every thread to begin with an empty table, and follows the tables through the grants and spawns.
-- The block driver is a parameter of the file server, whose disk has 2^26 sectors at most, since the
-- driver keeps 28 bits of a sector number; the byte of the keyboard is one of the VGA server, the ATA
-- controller, which answers within a bound, one of the block driver, and what the kernel and the process
-- manager answer one of the shell, whose calls of the VGA server are left out. The compositions of `Shell`
-- keep user memory as one for the shell and the file server, as the programs share one address space.
pub mod Base
pub mod Abi
pub mod Thread
pub mod Cap
pub mod Sched
pub mod Ipc
pub mod Pmm
pub mod Paging
pub mod Syscall
pub mod Trap
pub mod Inv
pub mod System
pub mod Console
pub mod Fs
pub mod Vga
pub mod Memmap
pub mod Init
pub mod Pager
pub mod Block
pub mod Shell
pub mod Text
pub mod Pm
pub mod User
pub mod Segments
pub mod Gates
pub mod Context
pub mod Riscv
pub mod Hal
pub mod Tests
