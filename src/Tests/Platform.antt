-- ===== src/Tests/Platform.antt =====
-- The theorems on the processor, its devices and the helpers of user code at concrete states.
use mukern.Base.{
  ℕ, ◌+◌, ◌-◌, ◌*◌, ◌/◌, ◌%◌, ◌^◌, ◌≡◌, ◌<◌, ◌≤◌, ◌⊎◌, inl, refl, true, false, List, [], ◌∷◌, ◌==◌,
  if◌then◌else◌, arith,
}
use mukern.Thread.{Kernel, Pmm, runnable, running}
use mukern.Syscall.{Env}
use mukern.System.{statics}
use mukern.Segments.{Segments, gdt_init, arch_enter_user, tss_size, cleared_tss}
use mukern.Segments.User.{IsDescribed, IsUser, arch_enter_user-gdt_init}
use mukern.Gates.{idt_init}
use mukern.Gates.Calls.{Routed, user_may_call, idt_init_lem}
use mukern.Riscv.{Hart}
use mukern.Riscv.Preempt.{ComesOn, traps_run}
use mukern.Hal.{vga_puts}
use mukern.Hal.Cells.{InScreen, vga_puts-InScreen}
use mukern.Trap.Handler.{Frame, isr_handler}
use mukern.System.Entry.{Allowed, isr_handler-Allowed}
use mukern.User.{con_linef, con_write, store_text, buf_size}
use mukern.User.Lines.{dec_line, con_linef_lem}
use mukern.Text.{put_dec, read_dec, count}

vga_puts-InScreen_example :
    InScreen (λ _. 7) (vga_puts (104 ∷ 10 ∷ 105 ∷ []) (record { cells = λ _. 7; pos = 1999 }))
vga_puts-InScreen_example =
    vga_puts-InScreen (104 ∷ 10 ∷ 105 ∷ []) (λ _. 7) (record { cells = λ _. 7; pos = 1999 })
      (record { place = omega arith; behind = λ i le. refl })

abbrev no_segments : Segments
no_segments = record { gdt = λ _. 0; tss = cleared_tss; gdtr_limit = 0; gdtr_base = 0; tr = 0 }

arch_enter_user-gdt_init_example :
    let (t, f) =
      arch_enter_user 0x9000 0x400000000000 0x400000080000 (gdt_init 0x1000 0x2000 no_segments) in
    IsDescribed t.gdt (t.tr / 8) 0x2000 (tss_size - 1)
    × IsUser t f
    × (t.tss.rsp0 ≡ 0x9000)
    × (f.rip ≡ 0x400000000000)
    × (f.rsp ≡ 0x400000080000)
arch_enter_user-gdt_init_example =
    arch_enter_user-gdt_init 0x1000 0x2000 0x9000 0x400000000000 0x400000080000 no_segments
      (omega arith)

abbrev no_frames : Pmm
no_frames = record { bitmap = λ _. 255; total_frames = 0; free_frames = 0; alloc_hint = 0 }

abbrev started : Kernel
started = statics 0 (λ _. 0) no_frames (λ _. 0) 0

-- Thread 1 is in user mode, and thread 3 can run.
abbrev machine : Kernel
machine = record started {
  current = 1;
  threads = λ i. record (started.threads i) { state = if i == 3 then runnable else running };
}

abbrev env : Env
env = record {
  junk = record { label = 0; data0 = 0; data1 = 0; cap_word = 0 };
  port8 = λ _. 0;
  port16 = λ _. 0;
}

-- a divide error in user code
abbrev divide_error : Frame
divide_error = record { vec = 0; err = 0; rip = 0x400000000000; cs = 0x1B; addr = 0 }

isr_handler-Allowed_example : Allowed divide_error machine (isr_handler env divide_error machine)
isr_handler-Allowed_example =
    isr_handler-Allowed env divide_error machine refl (λ e. absurd (omega (arith, e))) refl

-- sixteen ticks, with an exception between the first two
abbrev tick : ℕ × ℕ
tick = (2 ^ 63 + 5, 100)

abbrev some_traps : List (ℕ × ℕ)
some_traps =
    tick
    ∷ (8, 150)
    ∷ tick
    ∷ tick
    ∷ tick
    ∷ tick
    ∷ tick
    ∷ tick
    ∷ tick
    ∷ tick
    ∷ tick
    ∷ tick
    ∷ tick
    ∷ tick
    ∷ tick
    ∷ tick
    ∷ tick
    ∷ []

abbrev hart : Hart
hart = record { kernel = machine; hooked = true; interval = 100000; deadline = 0 }

traps_run_example : ComesOn 3 some_traps hart
traps_run_example =
    traps_run some_traps 3 hart (omega arith)
      (record { on = refl; here = omega arith; ready = refl }) (omega arith)

-- stubs of 16 bytes each, from 1 MiB on
idt_init_lem_example :
    let stubs = λ (i : ℕ). 0x100000 + i % 48 * 16 in
    Routed stubs 0x100400 33 (idt_init stubs 0x100400 33)
    × (user_may_call (idt_init stubs 0x100400 33) ≡ false)
idt_init_lem_example =
    idt_init_lem (λ i. 0x100000 + i % 48 * 16) 0x100400 (λ i. omega arith) (omega arith) 33

-- "a" at 0x2000 and a newline at 0x2100
abbrev words : ℕ → ℕ
words x = if x == 0x2000 then 97 else (if x == 0x2100 then 10 else 0)

con_linef_lem_example :
    let text = dec_line (97 ∷ []) 42 (10 ∷ []) in
    (con_linef 0x3000 0x2000 42 0x2100 words
      ≡ (con_write 0x3000 (count text), store_text 0x3000 0 text words))
    × (read_dec 0 (put_dec 42) ≡ 42)
    × ((i : ℕ)
        → (i < 0x3000) ⊎ (0x3000 + buf_size ≤ i)
        → store_text 0x3000 0 text words i ≡ words i)
con_linef_lem_example =
    con_linef_lem 0x3000 0x2000 42 0x2100 words (97 ∷ []) (10 ∷ []) (omega arith)
      (refl, (λ e. absurd (omega (arith, e))), refl) (refl, (λ e. absurd (omega (arith, e))), refl)
      (inl (omega arith)) (inl (omega arith)) (omega arith)
