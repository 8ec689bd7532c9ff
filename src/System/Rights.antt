-- ===== src/System/Rights.antt =====
-- Rights over whole runs of the machine: where a capability that a thread holds comes from, whatever user
-- code, system calls, faults and interrupts follow one another.
use mukern.Base.{ℕ, ℤ, ◌≡◌, ◌⊎◌, inl, inr, refl, true}
use mukern.Abi.{decode}
use mukern.Thread.{Kernel, self}
use mukern.Cap.{cap_has_port, cap_has_endpoint}
use mukern.Cap.Gain.{store-NoGain}
use mukern.Syscall.{do_syscall}
use mukern.Syscall.Confine.Rights.{EndpointFrom, PortFrom, endpoints_confined, ports_confined}
use mukern.Trap.Gain.{timer_tick-NoGain, device_irq-NoGain, page_fault-NoGain, resume-NoGain}
use mukern.System.{
  Step, compute, syscall, fault, timer, irq, resumed, unchecked, IsTame, Tame, Reach, start, later,
}

-- The step is a system call that gave thread `i` the endpoint `e`, or the port.
abbrev pub EndpointGiven : ℕ → ℤ → {s t : Kernel} → Step s t → Type 0
EndpointGiven i e {s} (syscall env k ne) = EndpointFrom (decode (self s).regs.rax) s i e
EndpointGiven i e st = ⊥

abbrev pub PortGiven : ℕ → ℕ → {s t : Kernel} → Step s t → Type 0
PortGiven i port {s} (syscall env k ne) = PortFrom (decode (self s).regs.rax) s i port
PortGiven i port st = ⊥

-- Some step of the run is such a system call.
abbrev pub EndpointIn : ℕ → ℤ → {s t : Kernel} → Reach s t → Type 0
EndpointIn i e start = ⊥
EndpointIn i e (later r st) = EndpointIn i e r ⊎ EndpointGiven i e st

abbrev pub PortIn : ℕ → ℕ → {s t : Kernel} → Reach s t → Type 0
PortIn i port start = ⊥
PortIn i port (later r st) = PortIn i port r ⊎ PortGiven i port st

Step-endpoint :
    {s t : Kernel} (st : Step s t) (tame : IsTame st) (i : ℕ) (e : ℤ)
    → cap_has_endpoint (t.threads i) e ≡ true
    → (cap_has_endpoint (s.threads i) e ≡ true) ⊎ EndpointGiven i e st
Step-endpoint {s} (compute regs mem k ne) tame i e h =
    inl ((store-NoGain s s.current (record (self s) { regs = regs }) refl i).endpoints e h)
Step-endpoint {s} (syscall env k ne) tame i e h =
    unfold do_syscall in endpoints_confined (decode (self s).regs.rax) env s i e h
Step-endpoint {s} {t} (fault env addr k ne eq) tame i e h =
    inl ((page_fault-NoGain env true addr s t eq i).endpoints e h)
Step-endpoint {s} (timer on) tame i e h = inl ((timer_tick-NoGain s i).endpoints e h)
Step-endpoint {s} (irq n lo hi on) tame i e h = inl ((device_irq-NoGain n s i).endpoints e h)
Step-endpoint {s} (resumed env k ne) tame i e h = inl ((resume-NoGain env s i).endpoints e h)
Step-endpoint (unchecked t reached) tame i e h = absurd tame

Step-port :
    {s t : Kernel} (st : Step s t) (tame : IsTame st) (i port : ℕ)
    → cap_has_port (t.threads i) port ≡ true
    → (cap_has_port (s.threads i) port ≡ true) ⊎ PortGiven i port st
Step-port {s} (compute regs mem k ne) tame i port h =
    inl ((store-NoGain s s.current (record (self s) { regs = regs }) refl i).ports port h)
Step-port {s} (syscall env k ne) tame i port h =
    unfold do_syscall in ports_confined (decode (self s).regs.rax) env s i port h
Step-port {s} {t} (fault env addr k ne eq) tame i port h =
    inl ((page_fault-NoGain env true addr s t eq i).ports port h)
Step-port {s} (timer on) tame i port h = inl ((timer_tick-NoGain s i).ports port h)
Step-port {s} (irq n lo hi on) tame i port h = inl ((device_irq-NoGain n s i).ports port h)
Step-port {s} (resumed env k ne) tame i port h = inl ((resume-NoGain env s i).ports port h)
Step-port (unchecked t reached) tame i port h = absurd tame

-- Endpoints are confined over any run in which no call reads or stores a message outside user memory or
-- maps a frame that is not device memory: a thread that holds the endpoint `e` at its end held it at its
-- beginning, or some step is a system call that gave it: SYS_GRANT_CAP by the root or by a holder of
-- `e`, or SYS_SPAWN by the thread itself, whose child, until then no thread, is `e`.
pub Reach-endpoints :
    {s t : Kernel} (run : Reach s t) (tame : Tame run) (i : ℕ) (e : ℤ)
    → cap_has_endpoint (t.threads i) e ≡ true
    → (cap_has_endpoint (s.threads i) e ≡ true) ⊎ EndpointIn i e run
Reach-endpoints start tame i e h = inl h
Reach-endpoints (later r st) (before, tame) i e h = elim (Step-endpoint st tame i e h) [
  | inr given ↦ inr (inr given)
  | inl held ↦ elim (Reach-endpoints r before i e held) [
    | inl old ↦ inl old
    | inr earlier ↦ inr (inl earlier)
  ]
]

-- Hardware is confined over any run in which no call reads or stores a message outside user memory or
-- maps a frame that is not device memory: whoever may use a port at its end could do so at its beginning, or
-- some step is a SYS_GRANT_IO of the root that names the thread and a range with the port in it.
pub Reach-ports :
    {s t : Kernel} (run : Reach s t) (tame : Tame run) (i port : ℕ)
    → cap_has_port (t.threads i) port ≡ true
    → (cap_has_port (s.threads i) port ≡ true) ⊎ PortIn i port run
Reach-ports start tame i port h = inl h
Reach-ports (later r st) (before, tame) i port h = elim (Step-port st tame i port h) [
  | inr given ↦ inr (inr given)
  | inl held ↦ elim (Reach-ports r before i port held) [
    | inl old ↦ inl old
    | inr earlier ↦ inr (inl earlier)
  ]
]
