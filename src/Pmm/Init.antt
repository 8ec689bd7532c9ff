-- ===== src/Pmm/Init.antt =====
-- kernel/vm.c: what `pmm_init` leaves free.
use mukern.Base.{
  ℕ, ◌+◌, ◌-◌, ◌*◌, ◌/◌, ◌%◌, ◌^◌, ◌≡◌, ◌<◌, ◌≤◌, ◌⊎◌, refl, ap, ◌∙◌, Bool, true, false, List, [],
  ◌∷◌, ltb, ◌&&◌, ◌||◌, not, arith,
}
use mukern.Base.Bits.{bit_is_set-full}
use mukern.Thread.{Pmm}
use mukern.Pmm.{
  MemRegion, bm_test, free_regions, region_start, region_stop, bitmap_bytes, reserved_frames,
  all_used, pmm_init, page_size,
}
use mukern.Pmm.Bitmap.{AreBytes}
use mukern.Pmm.Frames.{in_use, IsSound}
use mukern.Pmm.Marks.{
  Marked, Marked-refl, Marked-same, Marked-trans, mark_range-free, mark_range-used, within,
}

-- The whole frame `f` lies in the region.
pub record Holds (r : MemRegion) (f : ℕ) : Type 0 where
  pub begins : r.base ≤ f * page_size
  pub ends : (f + 1) * page_size ≤ r.base + r.len

-- Some region of the list holds the frame.
abbrev pub HeldBy : List MemRegion → ℕ → Type 0
HeldBy [] f = ⊥
HeldBy (r ∷ rs) f = Holds r f ⊎ HeldBy rs f

-- No region comes near the end of the address space.
abbrev pub AreLow : List MemRegion → Type 0
AreLow [] = Unit {0}
AreLow (r ∷ rs) = (r.base + r.len < 2 ^ 64 - page_size) × AreLow rs

-- the frames that the loop over the region frees
abbrev frees : MemRegion → ℕ → Bool
frees r f = within (region_start r) (region_stop r - region_start r) f

freed : List MemRegion → ℕ → Bool
freed [] f = false
freed (r ∷ rs) f = frees r f || freed rs f

free_regions-Marked :
    (rs : List MemRegion) (p : Pmm)
    → AreBytes p.bitmap
    → Marked p (free_regions rs p) (λ g. not (freed rs g) && in_use p g)
unfolding free_regions freed
free_regions-Marked [] p bytes = Marked-same p p _ _ (Marked-refl p bytes) (λ g. refl)
free_regions-Marked (r ∷ rs) p bytes =
    let h = mark_range-free (region_start r) (region_stop r - region_start r) p bytes in
    Marked-trans p _ _ _ _ _ h (free_regions-Marked rs _ h.bytes) (λ g e. rw e (ground arith))

module _ (regions : List MemRegion) (ram_top kernel_end : ℕ) (p : Pmm) where
  abbrev pub total : ℕ
  total = ram_top / page_size

  abbrev pub at_first : Pmm
  at_first = all_used total p

  pub at_first-used : (g : ℕ) → g < total → in_use at_first g ≡ true
  unfolding bm_test
  at_first-used g lt =
      let here : ltb (g / 8) (bitmap_bytes total) ≡ true = ground (arith, lt) in
      rw here (bit_is_set-full (g % 8) (omega arith))

  pub at_first-AreBytes : AreBytes p.bitmap → AreBytes at_first.bitmap
  at_first-AreBytes bytes i = ground (arith, bytes i)

  pmm_init-Marked :
      AreBytes p.bitmap
      → let q = pmm_init regions ram_top kernel_end p in
        (q.total_frames ≡ total)
        × AreBytes q.bitmap
        × (q.free_frames < 2 ^ 64)
        × ((g : ℕ)
            → g < total
            → in_use q g ≡ (ltb g (reserved_frames kernel_end total) || not (freed regions g)))
  unfolding pmm_init
  pmm_init-Marked bytes =
      let h = free_regions-Marked regions at_first (at_first-AreBytes bytes) in
      let k =
        mark_range-used 0 (reserved_frames kernel_end total) (free_regions regions at_first)
          h.bytes in
      (
        k.frames ∙ h.frames,
        k.bytes,
        k.counted (h.counted (omega arith)),
        λ g lt.
            k.use_as g (omega (arith, h.frames, lt))
            ∙ ap (λ b. within 0 (reserved_frames kernel_end total) g || b)
                (h.use_as g lt ∙ ap (λ b. not (freed regions g) && b) (at_first-used g lt))
            ∙ ground arith,
      )

  pmm_init-hint : (pmm_init regions ram_top kernel_end p).alloc_hint ≤ 2 ^ 52
  unfolding pmm_init
  pmm_init-hint = omega arith

  -- `pmm_init` leaves an allocator that is sound, when there is memory for one frame at least.
  pub pmm_init-IsSound :
      AreBytes p.bitmap
      → page_size ≤ ram_top
      → ram_top < 2 ^ 64
      → IsSound (pmm_init regions ram_top kernel_end p)
  pmm_init-IsSound bytes some_ram word =
      let (frames, are_bytes, counted, use_as) = pmm_init-Marked bytes in
      record {
        bytes = are_bytes;
        some_frame = omega (arith, frames, some_ram);
        addressable = omega (arith, frames, word);
        hint_in = pmm_init-hint;
        counted = counted;
      }
