-- ===== src/Ipc/Capability.antt =====
-- `ipc_send` and `ipc_recv` of kernel/ipc.c and `ipc_send_cap` of kernel/cap.c. Interrupts are off
-- in the whole kernel of this model, so that turning them off and on again has no effect.
use mukern.Base.{ℤ, pos, minus_one, ◌%◌, Bool, ◌==◌, ltb, ◌&&◌, if◌then◌else◌}
use mukern.Abi.{Msg}
use mukern.Thread.{Kernel, Caller, Cap, cap_max, self}
use mukern.Cap.{is_endpoint}
use mukern.Ipc.{ipc_send_locked, ipc_recv_locked, Progress, done}

unfoldable pub ipc_send : Caller → ℤ → Msg → Kernel → Kernel × Progress ℤ
ipc_send who dest msg s = ipc_send_locked who dest msg s

unfoldable pub ipc_recv : Caller → ℤ → Msg → Kernel → Kernel × Progress (ℤ × Msg)
ipc_recv who src out s = ipc_recv_locked who src out s

-- `c->type == CAP_ENDPOINT && (c->rights & CAP_RIGHT_SEND)`
abbrev pub lets_send : Cap → Bool
lets_send c = is_endpoint c.type_of && (c.rights % 2 == 1)

unfoldable pub ipc_send_cap : Caller → ℤ → Msg → Kernel → Kernel × Progress ℤ
ipc_send_cap who (pos slot) msg s =
    let c = (self s).ctable slot in
    if ltb slot cap_max
    then (if lets_send c then ipc_send who c.target msg s else (s, done minus_one))
    else (s, done minus_one)
ipc_send_cap who slot msg s = (s, done minus_one)
