-- ===== src/Paging/Frame.antt =====
-- Paging changes page tables and the frame allocator, and nothing else of the kernel.
use mukern.Base.{
  ℕ, ◌+◌, ◌*◌, ◌≡◌, true, Bool, arith, ap, ◌∙◌, ◌==◌, update, Bool-cases, inl, inr, if◌then◌else◌,
}
use mukern.Thread.{Kernel}
use mukern.Pmm.{pmm_alloc_frame}
use mukern.Paging.{new_table, next_table, walk_tables, vmm_map, flags_to_pte, index_at, frame_of}

-- `s'` is `s` up to its page tables and its allocator.
abbrev pub SameBut : Kernel → Kernel → Type 0
SameBut s s' = s' ≡ record s { pmm = s'.pmm; phys = s'.phys }

new_table-SameBut : (e : ℕ) (s : Kernel) → SameBut s (new_table e s).0
unfolding new_table
new_table-SameBut e s = elim (Bool-cases ((pmm_alloc_frame s.pmm).1 == 0)) [
  | inl h ↦ rw (h, new_table)
  | inr h ↦ rw (h, new_table)
]

next_table-SameBut :
    (table idx : ℕ) (create : Bool) (s : Kernel) → SameBut s (next_table table idx create s).0
unfolding next_table
next_table-SameBut table idx create s = ground (arith, new_table-SameBut (table + 8 * idx) s)

SameBut-trans : (a b c : Kernel) → SameBut a b → SameBut b c → SameBut a c
SameBut-trans a b c p q = q ∙ ap (λ (s : Kernel). record s { pmm = c.pmm; phys = c.phys }) p

-- one more level of a walk that may have stopped
level : ℕ → Bool → Kernel × ℕ → Kernel × ℕ
level idx create (s, table) = if table == 0 then (s, 0) else next_table table idx create s

level-SameBut :
    (idx : ℕ) (create : Bool) (s : Kernel) (r : Kernel × ℕ)
    → SameBut s r.0
    → SameBut s (level idx create r).0
unfolding level
level-SameBut idx create s (s', table) h = elim (Bool-cases (table == 0)) [
  | inl e ↦ rw e h
  | inr e ↦ rw e (
      SameBut-trans s s' (next_table table idx create s').0 h
        (next_table-SameBut table idx create s'))
]

walk-levels :
    (va : ℕ) (create : Bool) (s : Kernel)
    → walk_tables va create s
      ≡ level
          (index_at 21 va)
          create
          (level (index_at 30 va) create (next_table (frame_of s.cr3) (index_at 39 va) create s))
unfolding walk_tables level
walk-levels va create s = ground arith

walk_tables-SameBut : (va : ℕ) (create : Bool) (s : Kernel) → SameBut s (walk_tables va create s).0
walk_tables-SameBut va create s = rw (walk-levels va create s) (
    level-SameBut (index_at 21 va) create s _ (
      level-SameBut (index_at 30 va) create s _
        (next_table-SameBut (frame_of s.cr3) (index_at 39 va) create s)))

pub vmm_map-SameBut : (va pa flags : ℕ) (s : Kernel) → SameBut s (vmm_map va pa flags s).0
unfolding vmm_map
vmm_map-SameBut va pa flags s = elim (Bool-cases ((walk_tables va true s).1 == 0)) [
  | inl e ↦ rw (e, vmm_map) (walk_tables-SameBut va true s)
  | inr e ↦
      rw (e, vmm_map)
        (ap
          (λ (r : Kernel). record r {
            phys = update w.0.phys (w.1 + 8 * index_at 12 va) (frame_of pa + flags_to_pte flags);
          })
          (walk_tables-SameBut va true s))
]
  where
    w : Kernel × ℕ
    w = walk_tables va true s
