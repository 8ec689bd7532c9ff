-- ===== src/Memmap.antt =====
-- arch/x86_64/mm/memmap.c: the memory map of the boot loader. `mem` is physical memory, a byte for
-- each address, and `struct mb_info_hdr` and `struct mb_mmap_entry` are packed.

pub mod Regions
use Prim.Native.Nat.{bit_and}
use mukern.Base.{
  ℕ, zero, suc, ◌+◌, ◌-◌, ◌*◌, ◌/◌, ◌%◌, ◌^◌, ◌≡◌, ◌≢◌, ◌<◌, ◌≤◌, refl, sym, ap, ◌∙◌, subst, Bool,
  true, false, List, [], ◌∷◌, Option, some, none, ltb, ◌==◌, ◌&&◌, ◌||◌, not, Bool-cases, arith,
  inl, inr, if◌then◌else◌,
}
use mukern.Pmm.{MemRegion}

-- little-endian words of 32 and 64 bits
abbrev pub word32 : (ℕ → ℕ) → ℕ → ℕ
word32 mem a = mem a + mem (a + 1) * 2 ^ 8 + mem (a + 2) * 2 ^ 16 + mem (a + 3) * 2 ^ 24

abbrev pub word64 : (ℕ → ℕ) → ℕ → ℕ
word64 mem a = word32 mem a + word32 mem (a + 4) * 2 ^ 32

-- the fields of an entry at `p`
abbrev pub entry_size : (ℕ → ℕ) → ℕ → ℕ
entry_size mem p = word32 mem p

abbrev pub entry_region : (ℕ → ℕ) → ℕ → MemRegion
entry_region mem p = record { base = word64 mem (p + 4); len = word64 mem (p + 12) }

abbrev pub entry_type : (ℕ → ℕ) → ℕ → ℕ
entry_type mem p = word32 mem (p + 20)

-- `p + e->size + 4`, where the sum of size and 4 is one of 32 bits
abbrev pub next_entry : (ℕ → ℕ) → ℕ → ℕ
next_entry mem p = (p + (entry_size mem p + 4) % 2 ^ 32) % 2 ^ 64

abbrev pub is_usable : (ℕ → ℕ) → ℕ → Bool
is_usable mem p = (entry_type mem p == 1) && not ((entry_region mem p).len == 0)

abbrev pub region_end : MemRegion → ℕ
region_end r = (r.base + r.len) % 2 ^ 64

abbrev pub raise : ℕ → ℕ → ℕ
raise top stop = if ltb top stop then stop else top

-- The loop over the entries from `p` on, with room for `max` regions more, on fuel; `none` is a
-- loop that goes on. The regions are in the order of the entries.
unfoldable pub walk_map : ℕ → (ℕ → ℕ) → ℕ → ℕ → ℕ → ℕ → Option (List MemRegion × ℕ)
walk_map zero mem stop p max top = none
walk_map (suc fuel) mem stop p max top =
    let r = entry_region mem p in
    let skipped = walk_map fuel mem stop (next_entry mem p) max top in
    let taken = walk_map fuel mem stop (next_entry mem p) (max - 1) (raise top (region_end r)) in
    if ltb p stop && ltb 0 max
    then (if is_usable mem p
        then elim taken [ none ↦ none | some (rs, t) ↦ some (r ∷ rs, t) ]
        else skipped)
    else some ([], top)

abbrev pub has_map : (ℕ → ℕ) → ℕ → Bool
has_map mem mbi = not (bit_and (word32 mem mbi) (2 ^ 6) == 0) && not (word32 mem (mbi + 44) == 0)

abbrev pub has_mem : (ℕ → ℕ) → ℕ → Bool
has_mem mem mbi = not (bit_and (word32 mem mbi) 1 == 0)

abbrev pub upper_region : (ℕ → ℕ) → ℕ → MemRegion
upper_region mem mbi = record { base = 0x100000; len = word32 mem (mbi + 8) * 1024 }

-- `arch_mem_detect` with the pointer `mb_info`: the regions, whose number is the result, and
-- `*ram_top`.
unfoldable pub arch_mem_detect : ℕ → (ℕ → ℕ) → ℕ → ℕ → Option (List MemRegion × ℕ)
arch_mem_detect fuel mem mbi max =
    if not (mbi == 0) && has_map mem mbi
    then walk_map fuel mem ((word32 mem (mbi + 48) + word32 mem (mbi + 44)) % 2 ^ 64)
        (word32 mem (mbi + 48)) max 0
    else (if not (mbi == 0) && has_mem mem mbi && ltb 0 max
        then some (upper_region mem mbi ∷ [], region_end (upper_region mem mbi))
        else some ([], 0))
