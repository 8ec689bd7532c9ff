-- ===== src/Segments.antt =====
-- arch/x86_64/trap/gdt.c and usermode.c: the segment descriptors, the task state segment and the
-- frame that takes a thread to ring 3. Fields of a descriptor do not overlap, so `|` is `+`.

pub mod User
use mukern.Base.{ℕ, suc, ◌+◌, ◌-◌, ◌*◌, ◌/◌, ◌%◌, ◌^◌, update}

abbrev pub sel_kcode : ℕ
sel_kcode = 0x08

abbrev pub sel_kdata : ℕ
sel_kdata = 0x10

abbrev pub sel_ucode : ℕ
sel_ucode = 0x18

abbrev pub sel_udata : ℕ
sel_udata = 0x20

abbrev pub sel_tss : ℕ
sel_tss = 0x28

-- `struct tss`, without its reserved fields
pub record Tss : Type 0 where
  pub rsp0 : ℕ
  pub rsp1 : ℕ
  pub rsp2 : ℕ
  pub ist : ℕ → ℕ
  pub iomap_base : ℕ

-- `sizeof(tss)`, which is packed
abbrev pub tss_size : ℕ
tss_size = 104

-- `gdt`, `tss`, and the registers that `lgdt` and `ltr` load
pub record Segments : Type 0 where
  pub gdt : ℕ → ℕ
  pub tss : Tss
  pub gdtr_limit : ℕ
  pub gdtr_base : ℕ
  pub tr : ℕ

abbrev pub tss_low : ℕ → ℕ → ℕ
tss_low base limit =
    limit % 2 ^ 16
    + base % 2 ^ 24 * 2 ^ 16
    + 0x89 * 2 ^ 40
    + limit / 2 ^ 16 % 16 * 2 ^ 48
    + base / 2 ^ 24 % 2 ^ 8 * 2 ^ 56

unfoldable pub set_tss_desc : ℕ → ℕ → ℕ → (ℕ → ℕ) → ℕ → ℕ
set_tss_desc idx base limit gdt =
    update (update gdt idx (tss_low base limit)) (suc idx) (base / 2 ^ 32 % 2 ^ 32)

-- the descriptors of the code and data segments
abbrev pub kcode : ℕ
kcode = 2 ^ 43 + 2 ^ 44 + 2 ^ 47 + 2 ^ 53

abbrev pub kdata : ℕ
kdata = 2 ^ 41 + 2 ^ 44 + 2 ^ 47

abbrev pub ucode : ℕ
ucode = 2 ^ 43 + 2 ^ 44 + 2 ^ 47 + 2 ^ 53 + 3 * 2 ^ 45

abbrev pub udata : ℕ
udata = 2 ^ 41 + 2 ^ 44 + 2 ^ 47 + 3 * 2 ^ 45

-- the table with the descriptors of code and data
abbrev pub flat_gdt : (ℕ → ℕ) → ℕ → ℕ
flat_gdt gdt = update (update (update (update (update gdt 0 0) 1 kcode) 2 kdata) 3 ucode) 4 udata

-- `tss` once the loop has cleared it
abbrev pub cleared_tss : Tss
cleared_tss = record { rsp0 = 0; rsp1 = 0; rsp2 = 0; ist = λ _. 0; iomap_base = tss_size }

-- `gdt_init`, where the linker has placed `gdt` and `tss`
unfoldable pub gdt_init : ℕ → ℕ → Segments → Segments
unfolding set_tss_desc
gdt_init gdt_at tss_at s = record {
  gdt = set_tss_desc 5 tss_at (tss_size - 1) (flat_gdt s.gdt);
  tss = cleared_tss;
  gdtr_limit = 55;
  gdtr_base = gdt_at;
  tr = sel_tss;
}

abbrev pub arch_set_kernel_stack : ℕ → Segments → Segments
arch_set_kernel_stack rsp0 s = record s { tss = record s.tss { rsp0 = rsp0 } }

-- what `iretq` pops
pub record IretFrame : Type 0 where
  pub rip : ℕ
  pub cs : ℕ
  pub rflags : ℕ
  pub rsp : ℕ
  pub ss : ℕ

-- USER_CS, USER_SS and USER_FLAGS
abbrev pub user_cs : ℕ
user_cs = sel_ucode + 3

abbrev pub user_ss : ℕ
user_ss = sel_udata + 3

abbrev pub user_flags : ℕ
user_flags = 0x202

-- `arch_enter_user` for a thread with this kernel stack
unfoldable pub arch_enter_user : ℕ → ℕ → ℕ → Segments → Segments × IretFrame
arch_enter_user kstack_top entry user_stack_top s = (
  arch_set_kernel_stack kstack_top s,
  record { rip = entry; cs = user_cs; rflags = user_flags; rsp = user_stack_top; ss = user_ss },
)
