-- ===== src/Pmm.antt =====
-- kernel/vm.c: the physical frame allocator, a bitmap with a bit for each frame, set when in use.

pub mod Bitmap
pub mod Frames
pub mod Marks
pub mod Init
pub mod Count
use Prim.Native.Nat.{bit_and, bit_or}
use mukern.Base.{
  ℕ, zero, suc, ◌+◌, ◌-◌, ◌*◌, ◌/◌, ◌%◌, ◌^◌, Bool, Option, none, some, List, [], ◌∷◌, update,
  first_from, ◌==◌, ltb, ◌&&◌, not, if◌then◌else◌,
}
use mukern.Thread.{Pmm}

abbrev pub page_size : ℕ
page_size = 4096

-- `PAGE_ALIGN_DOWN` and `PAGE_ALIGN_UP` on 64-bit words
abbrev pub page_align_down : ℕ → ℕ
page_align_down x = x / page_size * page_size

abbrev pub page_align_up : ℕ → ℕ
page_align_up x = page_align_down ((x + (page_size - 1)) % 2 ^ 64)

-- `1u << (f & 7)`
abbrev pub frame_bit : ℕ → ℕ
frame_bit f = 2 ^ (f % 8)

unfoldable pub bm_set : ℕ → (ℕ → ℕ) → ℕ → ℕ
bm_set f bitmap = update bitmap (f / 8) (bit_or (bitmap (f / 8)) (frame_bit f))

unfoldable pub bm_clear : ℕ → (ℕ → ℕ) → ℕ → ℕ
bm_clear f bitmap = update bitmap (f / 8) (bit_and (bitmap (f / 8)) (255 - frame_bit f))

unfoldable pub bm_test : ℕ → (ℕ → ℕ) → Bool
bm_test f bitmap = not (bit_and (bitmap (f / 8)) (frame_bit f) == 0)

-- `free_frames--` and `free_frames++` on 64-bit words
abbrev pub dec64 : ℕ → ℕ
dec64 x = (x + 2 ^ 64 - 1) % 2 ^ 64

abbrev pub inc64 : ℕ → ℕ
inc64 x = (x + 1) % 2 ^ 64

unfoldable pub mark_used : ℕ → Pmm → Pmm
mark_used f p =
    if ltb f p.total_frames && not (bm_test f p.bitmap)
    then record p { bitmap = bm_set f p.bitmap; free_frames = dec64 p.free_frames }
    else p

unfoldable pub mark_free : ℕ → Pmm → Pmm
mark_free f p =
    if ltb f p.total_frames && bm_test f p.bitmap
    then record p { bitmap = bm_clear f p.bitmap; free_frames = inc64 p.free_frames }
    else p

-- `for (f = start; f < start + rounds; f++) mark_free(f);` and the same with `mark_used`
unfoldable pub mark_range : (ℕ → Pmm → Pmm) → ℕ → ℕ → Pmm → Pmm
mark_range mark start zero p = p
mark_range mark start (suc rounds) p = mark_range mark (suc start) rounds (mark start p)

-- `struct mem_region`
pub record MemRegion : Type 0 where
  pub base : ℕ
  pub len : ℕ

abbrev pub region_start : MemRegion → ℕ
region_start r = page_align_up r.base / page_size

abbrev pub region_stop : MemRegion → ℕ
region_stop r = (r.base + r.len) % 2 ^ 64 / page_size

unfoldable pub free_regions : List MemRegion → Pmm → Pmm
free_regions [] p = p
free_regions (r ∷ rs) p =
    free_regions rs (mark_range mark_free (region_start r) (region_stop r - region_start r) p)

abbrev pub bitmap_bytes : ℕ → ℕ
bitmap_bytes total = (total + 7) / 8

-- the number of frames below the end of the bitmap, which follows the kernel image
abbrev pub reserved_frames : ℕ → ℕ → ℕ
reserved_frames kernel_end total =
    page_align_up (page_align_up kernel_end + bitmap_bytes total) / page_size

-- Every frame in use: what the loop over `bitmap_bytes` leaves.
abbrev pub all_used : ℕ → Pmm → Pmm
all_used total p = record p {
  bitmap = λ i. if ltb i (bitmap_bytes total) then 255 else p.bitmap i;
  total_frames = total;
  free_frames = 0;
}

-- `pmm_init`, with what `arch_mem_detect` found and the address `kernel_end`
unfoldable pub pmm_init : List MemRegion → ℕ → ℕ → Pmm → Pmm
unfolding mark_range free_regions
pmm_init regions ram_top kernel_end p =
    let total = ram_top / page_size in
    let reserved = reserved_frames kernel_end total in
    record (mark_range mark_used 0 reserved (free_regions regions (all_used total p))) {
      alloc_hint = reserved;
    }

-- The frame that round `i` of the search of `pmm_alloc_frame` looks at.
abbrev pub probe : Pmm → ℕ → ℕ
probe p i = (p.alloc_hint + i) % 2 ^ 64 % p.total_frames

-- The address of a frame, or 0 when no frame is free.
unfoldable pub pmm_alloc_frame : Pmm → Pmm × ℕ
pmm_alloc_frame p = elim (first_from (λ i. not (bm_test (probe p i) p.bitmap)) 0 p.total_frames) [
  | some i ↦
      let f = probe p i in
      (
        record p {
          bitmap = bm_set f p.bitmap;
          free_frames = dec64 p.free_frames;
          alloc_hint = inc64 f;
        },
        f * page_size % 2 ^ 64,
      )
  | none ↦ (p, 0)
]

unfoldable pub pmm_free_frame : ℕ → Pmm → Pmm
unfolding mark_free
pmm_free_frame frame p = mark_free (frame / page_size) p
