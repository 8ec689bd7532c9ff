-- ===== src/Pm.antt =====
-- servers/pm/main.c: the process manager, from a message to the send that it then waits on. Its system
-- calls are those of the current thread, which the kernel finds in the arguments here; no other thread
-- runs between two of them.

pub mod Child
use mukern.Base.{
  ℕ, ℤ, pos, negsuc, to_int, to_u64, Option, some, none, ◌==◌, ◌==ℤ◌, ◌||◌, if◌then◌else◌,
}
use mukern.Abi.{Msg}
use mukern.Thread.{Kernel, self, thread_by_id}
use mukern.Cap.{cap_has_endpoint, cap_grant_endpoint}
use mukern.Syscall.{proc_spawn, adopt}
use mukern.Init.{con_tid}

abbrev pub msg_spawn : ℕ
msg_spawn = 2

-- `u_grant_cap(tid, CON_TID)`
unfoldable pub grant_console : ℕ → Kernel → Kernel
grant_console tid s =
    if ((self s).id ==ℤ pos 0) || cap_has_endpoint (self s) (pos con_tid)
    then (cap_grant_endpoint (thread_by_id (pos tid)) (pos con_tid) s).0
    else s

-- What the round goes on with when its SYS_SPAWN and SYS_GRANT_CAP are done: the send that releases the
-- child, on which it waits until the child receives; the reply to the client, with its `data0`; or the
-- next message.
pub data Next : Type 0 where
  release : ℕ → Next
  answer : ℕ → Next
  listen : Next

-- the test `tid >= 0` and the grant
abbrev pub adopted_child : Kernel × ℤ → Kernel × Next
adopted_child (s, pos tid) = (grant_console tid s, release tid)
adopted_child (s, negsuc e) = (s, answer (to_u64 (negsuc e)))

-- One round of `main` with the message `m`, up to a send or the end of the round.
unfoldable pub pm_handle : Msg → Kernel → Kernel × Next
pm_handle m s =
    if m.label == msg_spawn
    then adopted_child (adopt (proc_spawn (to_int m.data0) s))
    else (s, listen)
