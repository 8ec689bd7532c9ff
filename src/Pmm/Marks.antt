-- ===== src/Pmm/Marks.antt =====
-- kernel/vm.c: `mark_used` and `mark_free`, on one frame and on a range of frames.
use mukern.Base.{
  ℕ, zero, suc, ◌+◌, ◌^◌, ◌≡◌, ◌<◌, refl, ◌∙◌, subst, Bool, true, false, ltb, leb, ◌==◌, ==_refl,
  ==_ne, ◌&&◌, ◌||◌, not, Bool-cases, ℕ_discrete, arith, inl, inr,
}
use mukern.Thread.{Pmm}
use mukern.Pmm.{bm_test, mark_used, mark_free, mark_range}
use mukern.Pmm.Bitmap.{
  AreBytes, bm_test-bm_set, bm_test-bm_clear, bm_set-AreBytes, bm_clear-AreBytes,
}
use mukern.Pmm.Frames.{in_use}

-- `q` has the frames of `p`, and of these the ones in use that `now` says.
pub record Marked (p q : Pmm) (now : ℕ → Bool) : Type 0 where
  pub frames : q.total_frames ≡ p.total_frames
  pub hint : q.alloc_hint ≡ p.alloc_hint
  pub bytes : AreBytes q.bitmap
  pub use_as : (g : ℕ) → g < p.total_frames → in_use q g ≡ now g
  pub counted : p.free_frames < 2 ^ 64 → q.free_frames < 2 ^ 64

-- A frame beyond the last is not marked, and a frame below it that has its mark already keeps it.
mark_free-Marked :
    (f : ℕ) (p : Pmm)
    → AreBytes p.bitmap
    → Marked p (mark_free f p) (λ g. not (f == g) && in_use p g)
unfolding mark_free
mark_free-Marked f p bytes = elim (Bool-cases (ltb f p.total_frames && bm_test f p.bitmap)) [
  | inl e ↦ rw e (record {
    frames = refl;
    hint = refl;
    bytes = bm_clear-AreBytes f p.bitmap bytes;
    use_as = λ g lt. bm_test-bm_clear f g p.bitmap bytes;
    counted = λ lt. omega arith;
  })
  | inr e ↦ rw e (record {
    frames = refl;
    hint = refl;
    bytes = bytes;
    use_as = λ g lt. elim (ℕ_discrete f g) [
      | yes at ↦
          let below : ltb f p.total_frames ≡ true = ground (arith, at, lt) in
          let clear : in_use p f ≡ false = ground (arith, e, below) in
          subst (λ k. in_use p k ≡ (not (f == k) && in_use p k)) at (rw (clear, ==_refl f) refl)
      | no ne ↦ rw (==_ne f g ne) refl
    ];
    counted = λ lt. lt;
  })
]

mark_used-Marked :
    (f : ℕ) (p : Pmm) → AreBytes p.bitmap → Marked p (mark_used f p) (λ g. (f == g) || in_use p g)
unfolding mark_used
mark_used-Marked f p bytes = elim (Bool-cases (ltb f p.total_frames && not (bm_test f p.bitmap))) [
  | inl e ↦ rw e (record {
    frames = refl;
    hint = refl;
    bytes = bm_set-AreBytes f p.bitmap bytes;
    use_as = λ g lt. bm_test-bm_set f g p.bitmap bytes;
    counted = λ lt. omega arith;
  })
  | inr e ↦ rw e (record {
    frames = refl;
    hint = refl;
    bytes = bytes;
    use_as = λ g lt. elim (ℕ_discrete f g) [
      | yes at ↦
          let below : ltb f p.total_frames ≡ true = ground (arith, at, lt) in
          let set : in_use p f ≡ true = ground (arith, e, below) in
          subst (λ k. in_use p k ≡ ((f == k) || in_use p k)) at (rw (set, ==_refl f) refl)
      | no ne ↦ rw (==_ne f g ne) refl
    ];
    counted = λ lt. lt;
  })
]

abbrev pub within : ℕ → ℕ → ℕ → Bool
within start rounds g = leb start g && ltb g (start + rounds)

-- One mark and then the others.
pub Marked-trans :
    (p q r : Pmm) (a b c : ℕ → Bool)
    → Marked p q a
    → Marked q r b
    → ((g : ℕ) → in_use q g ≡ a g → b g ≡ c g)
    → Marked p r c
Marked-trans p q r a b c h k same = record {
  frames = k.frames ∙ h.frames;
  hint = k.hint ∙ h.hint;
  bytes = k.bytes;
  use_as = λ g lt. k.use_as g (omega (arith, h.frames, lt)) ∙ same g (h.use_as g lt);
  counted = λ lt. k.counted (h.counted lt);
}

pub Marked-refl : (p : Pmm) → AreBytes p.bitmap → Marked p p (in_use p)
Marked-refl p bytes = record {
  frames = refl;
  hint = refl;
  bytes = bytes;
  use_as = λ g lt. refl;
  counted = λ lt. lt;
}

pub Marked-same : (p q : Pmm) (a b : ℕ → Bool) → Marked p q a → ((g : ℕ) → a g ≡ b g) → Marked p q b
Marked-same p q a b h same = record {
  frames = h.frames;
  hint = h.hint;
  bytes = h.bytes;
  use_as = λ g lt. h.use_as g lt ∙ same g;
  counted = h.counted;
}

pub mark_range-free :
    (start k : ℕ) (p : Pmm)
    → AreBytes p.bitmap
    → Marked p (mark_range mark_free start k p) (λ g. not (within start k g) && in_use p g)
unfolding mark_range
mark_range-free start zero p bytes =
    Marked-same p p (in_use p) _ (Marked-refl p bytes) (λ g. ground arith)
mark_range-free start (suc k) p bytes =
    let h = mark_free-Marked start p bytes in
    Marked-trans p (mark_free start p) _ _ _ _ h
      (mark_range-free (suc start) k (mark_free start p) h.bytes) (λ g e. rw e (ground arith))

pub mark_range-used :
    (start k : ℕ) (p : Pmm)
    → AreBytes p.bitmap
    → Marked p (mark_range mark_used start k p) (λ g. within start k g || in_use p g)
unfolding mark_range
mark_range-used start zero p bytes =
    Marked-same p p (in_use p) _ (Marked-refl p bytes) (λ g. ground arith)
mark_range-used start (suc k) p bytes =
    let h = mark_used-Marked start p bytes in
    Marked-trans p (mark_used start p) _ _ _ _ h
      (mark_range-used (suc start) k (mark_used start p) h.bytes) (λ g e. rw e (ground arith))
