-- ===== src/Pmm/Count.antt =====
-- kernel/vm.c: `free_frames` is the number of frames whose bit is clear.
use mukern.Base.{
  ℕ, zero, suc, ◌+◌, ◌-◌, ◌/◌, ◌^◌, ◌≡◌, ◌≢◌, ◌<◌, ◌≤◌, refl, sym, ap, ◌∙◌, subst, Bool, true,
  false, List, [], ◌∷◌, ltb, ◌==◌, ==_refl, ==_ne, ◌&&◌, ◌||◌, not, Bool-cases, arith, inl, inr,
  if◌then◌else◌, ℕ_discrete,
}
use mukern.Thread.{Pmm}
use mukern.Pmm.{
  MemRegion, bm_test, bm_set, bm_clear, mark_used, mark_free, mark_range, free_regions,
  region_start, region_stop, all_used, pmm_init, pmm_alloc_frame, pmm_free_frame, page_size,
  reserved_frames,
}
use mukern.Pmm.Bitmap.{
  AreBytes, bm_test-bm_set, bm_test-bm_clear, bm_set-AreBytes, bm_clear-AreBytes,
}
use mukern.Pmm.Init.{at_first-used, at_first-AreBytes}
use mukern.Pmm.Frames.{in_use, IsSound, Taken, pmm_alloc_frame_lem}

-- the number of frames below `n` that are not in use
unfoldable pub count_free : ℕ → (ℕ → Bool) → ℕ
count_free zero used = 0
count_free (suc n) used = (if used n then 0 else 1) + count_free n used

count_free-le : (n : ℕ) (used : ℕ → Bool) → count_free n used ≤ n
unfolding count_free
count_free-le zero used = omega arith
count_free-le (suc n) used = ground (arith, count_free-le n used)

count_free_same :
    (n : ℕ) (a b : ℕ → Bool) → ((g : ℕ) → g < n → a g ≡ b g) → count_free n a ≡ count_free n b
unfolding count_free
count_free_same zero a b h = refl
count_free_same (suc n) a b h =
    rw (h n (omega arith), count_free_same n a b (λ g lt. h g (omega arith))) refl

-- One frame more is in use.
count_free_one :
    (n f : ℕ) (a b : ℕ → Bool)
    → f < n
    → a f ≡ false
    → b f ≡ true
    → ((g : ℕ) → f ≢ g → a g ≡ b g)
    → count_free n a ≡ suc (count_free n b)
unfolding count_free
count_free_one zero f a b lt free used same = absurd (omega arith)
count_free_one (suc n) f a b lt free used same = elim (ℕ_discrete f n) [
  | yes e ↦
      let a_n : a n ≡ false = ap a (sym e) ∙ free in
      let b_n : b n ≡ true = ap b (sym e) ∙ used in
      rw (a_n, b_n, count_free_same n a b (λ g l. same g (omega arith))) (omega arith)
  | no ne ↦
      let below : f < n = omega arith in
      rw (same n ne) (omega (arith, count_free_one n f a b below free used same))
]

-- The counter of free frames is exact.
pub record IsExact (p : Pmm) : Type 0 where
  pub bytes : AreBytes p.bitmap
  pub addressable : p.total_frames ≤ 2 ^ 52
  pub exact : p.free_frames ≡ count_free p.total_frames (in_use p)

mark_free-IsExact : (f : ℕ) (p : Pmm) → IsExact p → IsExact (mark_free f p)
unfolding mark_free
mark_free-IsExact f p ok = elim (Bool-cases (ltb f p.total_frames && bm_test f p.bitmap)) [
  | inr e ↦ rw e ok
  | inl e ↦
      let below : f < p.total_frames = ground (arith, e) in
      let used : in_use p f ≡ true = ground (arith, e) in
      let now : (g : ℕ) → bm_test g (bm_clear f p.bitmap) ≡ (not (f == g) && in_use p g) =
        λ g. bm_test-bm_clear f g p.bitmap ok.bytes in
      let more : count_free p.total_frames (λ g. bm_test g (bm_clear f p.bitmap))
          ≡ suc (count_free p.total_frames (in_use p)) =
        count_free_one p.total_frames f _ (in_use p) below (now f ∙ rw (==_refl f) refl) used
          (λ g ne. now g ∙ rw (==_ne f g ne) refl) in
      let le = count_free-le p.total_frames (in_use p) in
      rw e (record {
        bytes = bm_clear-AreBytes f p.bitmap ok.bytes;
        addressable = ok.addressable;
        exact = omega (arith, ok.exact, more, le, ok.addressable);
      })
]

mark_used-IsExact : (f : ℕ) (p : Pmm) → IsExact p → IsExact (mark_used f p)
unfolding mark_used
mark_used-IsExact f p ok = elim (Bool-cases (ltb f p.total_frames && not (bm_test f p.bitmap))) [
  | inr e ↦ rw e ok
  | inl e ↦
      let below : f < p.total_frames = ground (arith, e) in
      let free : in_use p f ≡ false = ground (arith, e) in
      let now : (g : ℕ) → bm_test g (bm_set f p.bitmap) ≡ ((f == g) || in_use p g) =
        λ g. bm_test-bm_set f g p.bitmap ok.bytes in
      let less : count_free p.total_frames (in_use p)
          ≡ suc (count_free p.total_frames (λ g. bm_test g (bm_set f p.bitmap))) =
        count_free_one p.total_frames f (in_use p) _ below free (now f ∙ rw (==_refl f) refl)
          (λ g ne. sym (now g ∙ rw (==_ne f g ne) refl)) in
      let le = count_free-le p.total_frames (in_use p) in
      rw e (record {
        bytes = bm_set-AreBytes f p.bitmap ok.bytes;
        addressable = ok.addressable;
        exact = omega (arith, ok.exact, less, le, ok.addressable);
      })
]

mark_range-IsExact :
    (mark : ℕ → Pmm → Pmm)
    → ((f : ℕ) (p : Pmm) → IsExact p → IsExact (mark f p))
    → (start k : ℕ) (p : Pmm) → IsExact p
    → IsExact (mark_range mark start k p)
unfolding mark_range
mark_range-IsExact mark keep start zero p ok = ok
mark_range-IsExact mark keep start (suc k) p ok =
    mark_range-IsExact mark keep (suc start) k (mark start p) (keep start p ok)

free_regions-IsExact : (rs : List MemRegion) (p : Pmm) → IsExact p → IsExact (free_regions rs p)
unfolding free_regions
free_regions-IsExact [] p ok = ok
free_regions-IsExact (r ∷ rs) p ok = free_regions-IsExact rs _ (
    mark_range-IsExact mark_free mark_free-IsExact (region_start r) (region_stop r - region_start r)
      p ok)

count_free_none :
    (n : ℕ) (used : ℕ → Bool) → ((g : ℕ) → g < n → used g ≡ true) → count_free n used ≡ 0
unfolding count_free
count_free_none zero used h = refl
count_free_none (suc n) used h =
    rw (h n (omega arith), count_free_none n used (λ g lt. h g (omega arith))) refl

Taken-IsExact : (p q : Pmm) (f : ℕ) → IsExact p → Taken p q f → IsExact q
Taken-IsExact p q f h t =
    let used : in_use q f ≡ true = t.others f ∙ rw (==_refl f) refl in
    let less : count_free p.total_frames (in_use p) ≡ suc (count_free p.total_frames (in_use q)) =
      count_free_one p.total_frames f (in_use p) (in_use q) t.below t.was_free used
        (λ g ne. sym (t.others g ∙ rw (==_ne f g ne) refl)) in
    let le = count_free-le p.total_frames (in_use p) in
    let now : q.free_frames ≡ count_free p.total_frames (in_use q) =
      omega (arith, t.count, h.exact, less, le, h.addressable) in
    record {
      bytes = t.sound.bytes;
      addressable = t.sound.addressable;
      exact = now ∙ ap (λ n. count_free n (in_use q)) (sym t.frames);
    }

-- `pmm_init` counts the free frames exactly.
pub pmm_init-IsExact :
    (regions : List MemRegion) (ram_top kernel_end : ℕ) (p : Pmm)
    → AreBytes p.bitmap
    → ram_top < 2 ^ 64
    → IsExact (pmm_init regions ram_top kernel_end p)
unfolding pmm_init
pmm_init-IsExact regions ram_top kernel_end p bytes word =
    let total : ℕ = ram_top / page_size in
    let first : IsExact (all_used total p) = record {
      bytes = at_first-AreBytes regions ram_top kernel_end p bytes;
      addressable = omega (arith, word);
      exact = sym (count_free_none total _ (at_first-used regions ram_top kernel_end p));
    } in
    let freed : IsExact (free_regions regions (all_used total p)) =
      free_regions-IsExact regions _ first in
    let done =
      mark_range-IsExact mark_used mark_used-IsExact 0 (reserved_frames kernel_end total) _ freed in
    record { bytes = done.bytes; addressable = done.addressable; exact = done.exact }

-- The counter stays exact: an allocation from a sound allocator takes one off if it gives out a
-- frame, and freeing adds one if the frame was in use, whatever address is passed.
pub counts-IsExact :
    (p : Pmm)
    → IsSound p
    → IsExact p
    → IsExact (pmm_alloc_frame p).0 × ((a : ℕ) → IsExact (pmm_free_frame a p))
unfolding pmm_free_frame
counts-IsExact p ok h = (
  elim (pmm_alloc_frame_lem p ok) [
    | inr (all, e) ↦ subst (λ (r : Pmm × ℕ). IsExact r.0) (sym e) h
    | inl (f, t, a) ↦ Taken-IsExact p _ f h t
  ],
  λ a. mark_free-IsExact (a / page_size) p h,
)
