-- ===== src/Paging.antt =====
-- arch/x86_64/mm/paging.c: 4-level page tables in physical memory, `phys` giving the 64-bit word at
-- an address. Physical memory is identity-mapped, so an address serves as a pointer.
pub mod Frame
pub mod Translate
pub mod Walk
pub mod Step
pub mod Climb
pub mod Mapping
use mukern.Base.{
  ℕ, ℤ, pos, minus_one, ◌+◌, ◌*◌, ◌/◌, ◌%◌, ◌^◌, ◌-◌, Bool, true, false, update, ◌==◌, ltb, leb,
  ◌&&◌, if◌then◌else◌,
}
use mukern.Thread.{Kernel}
use mukern.Pmm.{page_size, pmm_alloc_frame}

-- `pte & PTE_PRESENT`
abbrev pub is_present : ℕ → Bool
is_present pte = pte % 2 == 1

-- `pte & PTE_PS`
abbrev pub is_large : ℕ → Bool
is_large pte = pte / 128 % 2 == 1

-- `x & ADDR_MASK`: bits 12 to 51
abbrev pub frame_of : ℕ → ℕ
frame_of x = x / page_size % 2 ^ 40 * page_size

-- `VM_PRESENT | VM_WRITE | VM_USER`
abbrev pub vm_user_page : ℕ
vm_user_page = 7

-- PTE_PRESENT, with PTE_WRITE and PTE_USER as the flags VM_WRITE and VM_USER say
unfoldable pub flags_to_pte : ℕ → ℕ
flags_to_pte f = 1 + (if f / 2 % 2 == 1 then 2 else 0) + (if f / 4 % 2 == 1 then 4 else 0)

-- Zero the 512 entries of a new table.
abbrev pub clear_table : ℕ → (ℕ → ℕ) → ℕ → ℕ
clear_table nt phys a = if leb nt a && ltb a (nt + page_size) then 0 else phys a

-- A new table for entry `e`. Its address ends in twelve zeros, so `|` with the flags is `+`.
unfoldable pub new_table : ℕ → Kernel → Kernel × ℕ
new_table e s =
    let (pmm, f) = pmm_alloc_frame s.pmm in
    if f == 0
    then (record s { pmm = pmm }, 0)
    else (record s { pmm = pmm; phys = update (clear_table f s.phys) e (f + 7) }, f)

-- `next_table`; the pointer is 0 when there is none.
unfoldable pub next_table : ℕ → ℕ → Bool → Kernel → Kernel × ℕ
next_table table idx create s =
    let e = table + 8 * idx in
    let pte = s.phys e in
    if is_present pte
    then (if is_large pte then (s, 0) else (s, frame_of pte))
    else (if create then new_table e s else (s, 0))

-- the index of `va` in the table of each level
abbrev pub index_at : ℕ → ℕ → ℕ
index_at shift va = va / 2 ^ shift % 512

-- The walk from the root to the last table, as `vmm_map` and `vmm_unmap` make it; 0 if it stops.
unfoldable pub walk_tables : ℕ → Bool → Kernel → Kernel × ℕ
walk_tables va create s0 =
    let (s1, pdpt) = next_table (frame_of s0.cr3) (index_at 39 va) create s0 in
    if pdpt == 0
    then (s1, 0)
    else (let (s2, pd) = next_table pdpt (index_at 30 va) create s1 in
        if pd == 0 then (s2, 0) else next_table pd (index_at 21 va) create s2)

-- TLB flushes have no effect on this model, which reads the tables themselves.
unfoldable pub vmm_map : ℕ → ℕ → ℕ → Kernel → Kernel × ℤ
vmm_map va pa flags s0 =
    let (s, pt) = walk_tables va true s0 in
    if pt == 0 then (s, minus_one) else (
      record s {
        phys = update s.phys (pt + 8 * index_at 12 va) (frame_of pa + flags_to_pte flags);
      },
      pos 0,
    )

unfoldable pub vmm_unmap : ℕ → Kernel → Kernel
vmm_unmap va s0 =
    let (s, pt) = walk_tables va false s0 in
    if pt == 0 then s else record s { phys = update s.phys (pt + 8 * index_at 12 va) 0 }
