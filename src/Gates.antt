-- ===== src/Gates.antt =====
-- arch/x86_64/trap/idt.c: the interrupt descriptor table. The addresses of the stubs come from isr.S.

pub mod Calls
use mukern.Base.{ℕ, zero, suc, ◌+◌, ◌*◌, ◌/◌, ◌%◌, ◌^◌, update}

-- `struct idt_entry`, without the field `zero`, which is 0 in every entry
pub record Gate : Type 0 where
  pub off_low : ℕ
  pub selector : ℕ
  pub ist : ℕ
  pub type_attr : ℕ
  pub off_mid : ℕ
  pub off_high : ℕ

-- an entry of static storage
abbrev pub no_gate : Gate
no_gate = record { off_low = 0; selector = 0; ist = 0; type_attr = 0; off_mid = 0; off_high = 0 }

abbrev pub gate_int64 : ℕ
gate_int64 = 0x8E

abbrev pub gate_user : ℕ
gate_user = 0xEE

abbrev pub kernel_cs : ℕ
kernel_cs = 0x08

abbrev pub syscall_vector : ℕ
syscall_vector = 0x80

abbrev pub num_stubs : ℕ
num_stubs = 48

abbrev pub gate : ℕ → ℕ → ℕ → Gate
gate handler sel flags = record {
  off_low = handler % 2 ^ 16;
  selector = sel;
  ist = 0;
  type_attr = flags;
  off_mid = handler / 2 ^ 16 % 2 ^ 16;
  off_high = handler / 2 ^ 32 % 2 ^ 32;
}

unfoldable pub idt_set_gate : ℕ → ℕ → ℕ → ℕ → (ℕ → Gate) → ℕ → Gate
idt_set_gate n handler sel flags idt = update idt n (gate handler sel flags)

-- the loop over the stubs from `i` on
unfoldable pub set_stubs : (ℕ → ℕ) → ℕ → ℕ → (ℕ → Gate) → ℕ → Gate
unfolding idt_set_gate
set_stubs stubs i zero idt = idt
set_stubs stubs i (suc rounds) idt =
    set_stubs stubs (suc i) rounds (idt_set_gate i (stubs i) kernel_cs gate_int64 idt)

-- `idt_init` on the table of static storage, up to `lidt`
unfoldable pub idt_init : (ℕ → ℕ) → ℕ → ℕ → Gate
unfolding idt_set_gate
idt_init stubs isr_syscall =
    idt_set_gate syscall_vector isr_syscall kernel_cs gate_user
      (set_stubs stubs 0 num_stubs (λ _. no_gate))
