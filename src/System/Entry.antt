-- ===== src/System/Entry.antt =====
-- The entry of the kernel, against the step relation: what a vector may lead to, and which ones stop the
-- machine.
use mukern.Base.{
  ℕ, ◌-◌, ◌≡◌, ◌≢◌, ◌<◌, ◌≤◌, ◌+◌, ◌⊎◌, inl, inr, refl, sym, subst, Bool, true, false, none, some,
  ◌==◌, ◌==ℤ◌, ltb, ◌&&◌, not, if◌then◌else◌, Bool-cases, arith,
}
use mukern.Thread.{Kernel, to_user, idle, self}
use mukern.Syscall.{Env}
use mukern.Trap.{page_fault, is_tid}
use mukern.Trap.Handler.{Frame, TrapResult, returned, halted, from_user, fault_outcome, isr_handler}
use mukern.System.{Interruptible, Step, syscall, fault, timer, irq}

-- The fault of `tf` goes to the pager.
abbrev pub forwarded : Frame → Kernel → Bool
forwarded tf s = from_user tf && is_tid s.pager_tid && not ((self s).id ==ℤ s.pager_tid)

-- The trap `tf` is what the step is about.
abbrev pub Causes : Frame → {s t : Kernel} → Step s t → Type 0
Causes tf (timer on) = tf.vec ≡ 32
Causes tf (syscall env k ne) = tf.vec ≡ 0x80
Causes tf (fault env addr k ne e) = (tf.vec ≡ 14) × (addr ≡ tf.addr)
Causes tf (irq n lo hi on) = tf.vec ≡ 32 + n
Causes tf st = ⊥

-- What may come of a trap: the step of the machine that the vector stands for, nothing for a vector
-- from 48 on that is not that of system calls, or a stop.
abbrev pub Allowed : Frame → Kernel → TrapResult → Type 0
Allowed tf s (returned t) =
    ((st : Step s t) × Causes tf st) ⊎ ((48 ≤ tf.vec) × (tf.vec ≢ 0x80) × (t ≡ s))
Allowed tf s (halted text) = (tf.vec < 32) × ((tf.vec ≢ 14) ⊎ (forwarded tf s ≡ false))

-- What both branches of a test meet, its result meets.
branches :
    (P : TrapResult → Type 0) (b : Bool) (x y : TrapResult)
    → (b ≡ true → P x)
    → (b ≡ false → P y)
    → P (if b then x else y)
branches P true x y on off = on refl
branches P false x y on off = off refl

page_fault-forwarded :
    (env : Env) (u : Bool) (addr : ℕ) (s : Kernel)
    → (u && is_tid s.pager_tid && not ((self s).id ==ℤ s.pager_tid)) ≡ true
    → (t : Kernel) × (page_fault env u addr s ≡ some t)
unfolding page_fault
page_fault-forwarded env u addr s e = rw e (_, refl)

page_fault-stopped :
    (env : Env) (u : Bool) (addr : ℕ) (s : Kernel)
    → (u && is_tid s.pager_tid && not ((self s).id ==ℤ s.pager_tid)) ≡ false
    → page_fault env u addr s ≡ none
unfolding page_fault
page_fault-stopped env u addr s e = rw e refl

fault_outcome-Allowed :
    (env : Env) (tf : Frame) (s : Kernel)
    → (self s).kont ≡ to_user
    → s.current ≢ idle
    → from_user tf ≡ true
    → tf.vec ≡ 14
    → Allowed tf s (fault_outcome tf (page_fault env (from_user tf) tf.addr s))
fault_outcome-Allowed env tf s user busy ring3 e = elim (Bool-cases (forwarded tf s)) [
  | inl on ↦
      let (t, eq) = page_fault-forwarded env (from_user tf) tf.addr s on in
      subst (λ o. Allowed tf s (fault_outcome tf o)) (sym eq)
        (inl (
          fault env tf.addr user busy (subst (λ u. page_fault env u tf.addr s ≡ some t) ring3 eq),
          (e, refl),
        ))
  | inr off ↦
      subst (λ o. Allowed tf s (fault_outcome tf o))
        (sym (page_fault-stopped env (from_user tf) tf.addr s off)) (omega (arith, e), inr off)
]

-- A trap out of user mode, where a message of a system call is in mapped user memory, is the step of the
-- machine that its vector stands for: the timer, a system call, a page fault at the faulting address or
-- the device interrupt of that line. A vector from 48 on other than the one of system calls changes
-- nothing; the machine stops only on an exception that is no page fault, or on a page fault that does not
-- go to the pager.
pub isr_handler-Allowed :
    (env : Env) (tf : Frame) (s : Kernel)
    → (self s).kont ≡ to_user
    → s.current ≢ idle
    → from_user tf ≡ true
    → Allowed tf s (isr_handler env tf s)
unfolding isr_handler
isr_handler-Allowed env tf s user busy ring3 =
    branches (Allowed tf s) (tf.vec == 32) _ _
      (λ e. inl (timer (subst Interruptible (sym user) tt), ground (arith, e)))
      (λ not_timer.
        branches (Allowed tf s) (tf.vec == 0x80) _ _
          (λ e. inl (syscall env user busy, ground (arith, e)))
          (λ not_call.
            branches (Allowed tf s) (tf.vec == 14) _ _
              (λ e. fault_outcome-Allowed env tf s user busy ring3 (ground (arith, e)))
              (λ no_fault.
                branches (Allowed tf s) (ltb tf.vec 32) _ _ (λ e. ground (arith, e, no_fault))
                  (λ high.
                    branches (Allowed tf s) (ltb (tf.vec - 32) 16) _ _
                      (λ e. inl (
                        irq (tf.vec - 32) (ground (arith, high, not_timer)) (ground (arith, e))
                            (subst Interruptible (sym user) tt),
                        ground (arith, high),
                      ))
                      (λ e. inr (ground (arith, e, high), ground (arith, not_call), refl))))))
