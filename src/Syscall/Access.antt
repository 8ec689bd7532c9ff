-- ===== src/Syscall/Access.antt =====
-- The checks of the kernel on port I/O.
use mukern.Base.{
  ℕ, ◌≡◌, ◌⊎◌, ◌%◌, ◌^◌, true, false, some, none, Option, Bool, inl, inr, refl, ◌∷◌, if◌then◌else◌,
}
use mukern.Abi.{Sysno, outb, inb, inw}
use mukern.Thread.{Kernel, Io, out8, in8, in16, self}
use mukern.Cap.{cap_has_port}
use mukern.Syscall
use mukern.Syscall.{Env, log, dispatch, refuse, port_arg, open_call, ipc_send_allowed, set_rax}

-- The access that a port system call asks for.
abbrev pub port_access : Sysno → Kernel → Option Io
port_access outb s = some (out8 (port_arg s) ((self s).regs.rsi % 2 ^ 8))
port_access inb s = some (in8 (port_arg s))
port_access inw s = some (in16 (port_arg s))
port_access _ s = none

abbrev Checked : Bool → Io → Kernel → Kernel → Type 0
Checked b x s s' = ((b ≡ true) × (s'.io ≡ x ∷ s.io)) ⊎ ((b ≡ false) × (s' ≡ refuse s))

gate-Checked :
    (b : Bool) (v : ℕ) (x : Io) (s : Kernel)
    → Checked b x s (if b then set_rax v (log x s) else refuse s)
gate-Checked true v x s = inl (refl, refl)
gate-Checked false v x s = inr (refl, refl)

-- A port call makes its one access if the caller holds a capability for the port, and else fails
-- with -1, touches no device and changes nothing but the caller's result.
pub port_call_checked :
    (n : Sysno) (env : Env) (s : Kernel) {x : Io}
    → port_access n s ≡ some x
    → ((cap_has_port (self s) (port_arg s) ≡ true) × ((dispatch n env s).io ≡ x ∷ s.io))
      ⊎ ((cap_has_port (self s) (port_arg s) ≡ false) × (dispatch n env s ≡ refuse s))
unfolding dispatch Syscall.sys_outb Syscall.sys_inb Syscall.sys_inw
port_call_checked outb env s {x} h =
    let e : out8 (port_arg s) ((self s).regs.rsi % 2 ^ 8) ≡ x = cc h in
    rw (← e) (gate-Checked _ _ _ s)
port_call_checked inb env s {x} h =
    let e : in8 (port_arg s) ≡ x = cc h in rw (← e) (gate-Checked _ _ _ s)
port_call_checked inw env s {x} h =
    let e : in16 (port_arg s) ≡ x = cc h in rw (← e) (gate-Checked _ _ _ s)
port_call_checked n env s {x} h = cc
