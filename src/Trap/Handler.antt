-- ===== src/Trap/Handler.antt =====
-- `isr_handler` of arch/x86_64/trap/trap.c: what a vector leads to.
use mukern.Base.{
  ℕ, ◌-◌, ◌%◌, Bool, List, [], ◌∷◌, ◌++◌, Option, none, some, ◌==◌, ltb, if◌then◌else◌,
}
use mukern.Thread.{Kernel}
use mukern.Syscall.{Env, do_syscall}
use mukern.Trap.{timer_tick, page_fault, device_irq}
use mukern.Text.{put_dec}
use mukern.Text.Hex.{put_hex}

-- the part of `struct trapframe` that the handler reads, and `arch_fault_addr()`
pub record Frame : Type 0 where
  pub vec : ℕ
  pub err : ℕ
  pub rip : ℕ
  pub cs : ℕ
  pub addr : ℕ

-- A handler returns, or it prints a text and stops the machine.
pub data TrapResult : Type 0 where
  returned : Kernel → TrapResult
  halted : List ℕ → TrapResult

-- `panic_exception`
abbrev pub panic_exception : Frame → List ℕ
panic_exception tf =
    (10 ∷ 91 ∷ 109 ∷ 117 ∷ 107 ∷ 101 ∷ 114 ∷ 110 ∷ 93 ∷ 32 ∷ 69 ∷ 88 ∷ 67 ∷ 69 ∷ 80 ∷ 84 ∷ 73 ∷ 79
      ∷ 78 ∷ 32 ∷ 118 ∷ 101 ∷ 99 ∷ 61 ∷ [])
    ++ (put_dec tf.vec
        ++ ((32 ∷ 101 ∷ 114 ∷ 114 ∷ 61 ∷ [])
            ++ (put_dec tf.err
                ++ ((32 ∷ 114 ∷ 105 ∷ 112 ∷ 61 ∷ []) ++ (put_hex tf.rip ++ (10 ∷ []))))))

-- `(tf->cs & 3) == 3`
abbrev pub from_user : Frame → Bool
from_user tf = tf.cs % 4 == 3

abbrev pub page_fault_text : Frame → List ℕ
page_fault_text tf =
    (10 ∷ 91 ∷ 109 ∷ 117 ∷ 107 ∷ 101 ∷ 114 ∷ 110 ∷ 93 ∷ 32 ∷ 80 ∷ 65 ∷ 71 ∷ 69 ∷ 32 ∷ 70 ∷ 65 ∷ 85
      ∷ 76 ∷ 84 ∷ 32 ∷ 64 ∷ 32 ∷ [])
    ++ (put_hex tf.addr ++ panic_exception tf)

abbrev pub fault_outcome : Frame → Option Kernel → TrapResult
fault_outcome tf (some s) = returned s
fault_outcome tf none = halted (page_fault_text tf)

-- The tests on the vector, in their order, once `g_on_tick` is set.
unfoldable pub isr_handler : Env → Frame → Kernel → TrapResult
isr_handler env tf s =
    if tf.vec == 32
    then returned (timer_tick s)
    else (if tf.vec == 0x80
        then returned (do_syscall env s)
        else (if tf.vec == 14
            then fault_outcome tf (page_fault env (from_user tf) tf.addr s)
            else (if ltb tf.vec 32
                then halted (panic_exception tf)
                else (if ltb (tf.vec - 32) 16
                    then returned (device_irq (tf.vec - 32) s)
                    else returned s))))
