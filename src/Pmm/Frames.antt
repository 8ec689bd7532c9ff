-- ===== src/Pmm/Frames.antt =====
-- kernel/vm.c: `pmm_alloc_frame` and `pmm_free_frame` on the set of frames in use.
use mukern.Base.{
  ℕ, ◌≡◌, ◌≢◌, ◌⊎◌, inl, inr, refl, ap, sym, ◌∙◌, ◌<◌, ◌≤◌, ◌+◌, ◌*◌, ◌-◌, ◌/◌, ◌%◌, ◌^◌, Bool,
  ◌&&◌, ◌||◌, not, true, false, ◌==◌, ltb, arith, subst, false≢true, ℕ_discrete, ==_refl, ==_ne,
  first_from, IsFirst, first_from-IsFirst, first_from-none, Option-cases,
}
use native.Mathlib.Nat.{mod-lt, mod-eq_of_lt, add-mod-mod, mod-add-mod, add-mod_left}
use mukern.Thread.{Pmm}
use mukern.Pmm.{
  bm_set, bm_clear, bm_test, pmm_alloc_frame, pmm_free_frame, mark_free, probe, page_size, dec64,
  inc64,
}
use mukern.Pmm.Bitmap.{AreBytes, bm_test-bm_set, bm_test-bm_clear, bm_set-AreBytes}

-- The allocator after `pmm_init`: there are frames, their addresses are 64-bit words, and the
-- search starts at one of them or just behind the last.
pub record IsSound (p : Pmm) : Type 0 where
  pub bytes : AreBytes p.bitmap
  pub some_frame : 0 < p.total_frames
  pub addressable : p.total_frames ≤ 2 ^ 52
  pub hint_in : p.alloc_hint ≤ 2 ^ 52
  pub counted : p.free_frames < 2 ^ 64

abbrev pub in_use : Pmm → ℕ → Bool
in_use p g = bm_test g p.bitmap

-- The allocator has gone from `p` to `q` by giving out frame `f`.
pub record Taken (p q : Pmm) (f : ℕ) : Type 0 where
  pub below : f < p.total_frames
  pub was_free : in_use p f ≡ false
  pub others : (g : ℕ) → in_use q g ≡ ((f == g) || in_use p g)
  pub frames : q.total_frames ≡ p.total_frames
  pub count : q.free_frames ≡ dec64 p.free_frames
  pub sound : IsSound q

not-true : {b : Bool} → not b ≡ true → b ≡ false
not-true {b = true} h = cc
not-true {b = false} h = refl

not-false : {b : Bool} → not b ≡ false → b ≡ true
not-false {b = true} h = refl
not-false {b = false} h = cc

-- The search comes to every frame in one of its `total_frames` rounds.
probe-onto :
    (h n g : ℕ) → g < n → n ≤ 2 ^ 52 → h ≤ 2 ^ 52 → (i : ℕ) × (i < n) × ((h + i) % 2 ^ 64 % n ≡ g)
probe-onto h n g lt le le' =
    let r : ℕ = h % n in
    let i : ℕ = (g + (n - r)) % n in
    let r_lt : r < n = mod-lt h (omega arith) in
    let i_lt : i < n = mod-lt (g + (n - r)) (omega arith) in
    let wide : (h + i) % 2 ^ 64 ≡ h + i = omega arith in
    let round : r + (g + (n - r)) ≡ n + g = omega arith in
    (
      i,
      i_lt,
      ap (λ k. k % n) wide
          ∙ add-mod-mod h (g + (n - r)) n
          ∙ sym (mod-add-mod h n (g + (n - r)))
          ∙ ap (λ k. k % n) round
          ∙ add-mod_left n g
          ∙ mod-eq_of_lt lt,
    )

-- What the search has found is given out.
found-Taken :
    (p : Pmm) (i : ℕ)
    → IsSound p
    → in_use p (probe p i) ≡ false
    → Taken p
        (record p {
          bitmap = bm_set (probe p i) p.bitmap;
          free_frames = dec64 p.free_frames;
          alloc_hint = inc64 (probe p i);
        })
        (probe p i)
found-Taken p i ok free =
    let lt : probe p i < p.total_frames = mod-lt ((p.alloc_hint + i) % 2 ^ 64) ok.some_frame in
    let le : p.total_frames ≤ 2 ^ 52 = ok.addressable in
    record {
      below = lt;
      was_free = free;
      others = λ g. bm_test-bm_set (probe p i) g p.bitmap ok.bytes;
      frames = refl;
      count = refl;
      sound = record {
        bytes = bm_set-AreBytes (probe p i) p.bitmap ok.bytes;
        some_frame = ok.some_frame;
        addressable = ok.addressable;
        hint_in = omega arith;
        counted = omega arith;
      };
    }

address :
    (p : Pmm) (f : ℕ) → IsSound p → f < p.total_frames → f * page_size % 2 ^ 64 ≡ f * page_size
address p f ok lt = let le : p.total_frames ≤ 2 ^ 52 = ok.addressable in omega arith

-- On a sound allocator: if a frame is free, `pmm_alloc_frame` returns the address of one and marks
-- that one, and no other, as in use; if none is, it returns 0 and changes nothing.
pub pmm_alloc_frame_lem :
    (p : Pmm)
    → IsSound p
    → ((f : ℕ) × Taken p (pmm_alloc_frame p).0 f × ((pmm_alloc_frame p).1 ≡ f * page_size))
      ⊎ (((g : ℕ) → g < p.total_frames → in_use p g ≡ true) × (pmm_alloc_frame p ≡ (p, 0)))
unfolding pmm_alloc_frame
pmm_alloc_frame_lem p ok =
    elim (Option-cases (first_from (λ i. not (in_use p (probe p i))) 0 p.total_frames)) [
      | inl e ↦ inr (
        λ g lt.
            let (i, i_lt, at) =
              probe-onto p.alloc_hint p.total_frames g lt ok.addressable ok.hint_in in
            subst (λ k. in_use p k ≡ true) at
              (not-false (first_from-none _ 0 p.total_frames e i (omega arith) (omega arith))),
        rw (e, pmm_alloc_frame) refl,
      )
      | inr (i, e) ↦
          let first : IsFirst (λ i. not (in_use p (probe p i))) 0 p.total_frames i =
            first_from-IsFirst _ 0 p.total_frames e in
          let free : in_use p (probe p i) ≡ false = not-true (first.passes) in
          let t = found-Taken p i ok free in
          let a : probe p i * page_size % 2 ^ 64 ≡ probe p i * page_size =
            address p (probe p i) ok t.below in
          inl (rw (e, pmm_alloc_frame) (probe p i, t, a))
    ]

given :
    (p : Pmm)
    → IsSound p
    → (pmm_alloc_frame p).1 ≢ 0
    → (f : ℕ) × Taken p (pmm_alloc_frame p).0 f × ((pmm_alloc_frame p).1 ≡ f * page_size)
given p ok got = elim (pmm_alloc_frame_lem p ok) [
  | inl t ↦ t
  | inr (all, e) ↦ absurd (got (ap (λ r. r.1) e))
]

-- Two allocations in a row from a sound allocator, of which the second gives out a frame, never
-- give out the same frame.
pub alloc_twice :
    (p : Pmm)
    → IsSound p
    → let q : Pmm = (pmm_alloc_frame p).0 in
      (pmm_alloc_frame q).1 ≢ 0 → (pmm_alloc_frame p).1 ≢ (pmm_alloc_frame q).1
alloc_twice p ok got eq =
    let q : Pmm = (pmm_alloc_frame p).0 in
    let (f, t, a) = given p ok (λ z. got (sym eq ∙ z)) in
    let (f', t', a') = given q t.sound got in
    let same : f ≡ f' = omega (arith, sym a ∙ eq ∙ a') in
    let used : in_use q f ≡ true = t.others f ∙ ap (λ b. b || in_use p f) (==_refl f) in
    false≢true (sym t'.was_free ∙ ap (λ k. in_use q k) (sym same) ∙ used)

freed : (q : Pmm) (f : ℕ) {a : ℕ} → a ≡ f * page_size → pmm_free_frame a q ≡ mark_free f q
unfolding pmm_free_frame
freed q f {a} e = let d : a / page_size ≡ f = omega arith in ap (λ k. mark_free k q) d

mark_free_used :
    (q : Pmm) (f : ℕ)
    → f < q.total_frames
    → in_use q f ≡ true
    → mark_free f q ≡ record q { bitmap = bm_clear f q.bitmap; free_frames = inc64 q.free_frames }
unfolding mark_free
mark_free_used q f lt used = let l : ltb f q.total_frames ≡ true = ground arith in rw (l, used) refl

restored :
    (p : Pmm) (f g : ℕ)
    → in_use p f ≡ false
    → (not (f == g) && ((f == g) || in_use p g)) ≡ in_use p g
restored p f g free = elim (ℕ_discrete f g) [
  | yes e ↦
      subst (λ k. (not (f == k) && ((f == k) || in_use p k)) ≡ in_use p k) e
        (rw (==_refl f) (sym free))
  | no ne ↦ rw (==_ne f g ne) refl
]

recount : (a b : ℕ) → a ≡ dec64 b → b < 2 ^ 64 → inc64 a ≡ b
recount a b e lt = omega arith

-- On a sound allocator, freeing the frame that an allocation gave out restores the set of frames
-- in use and their count.
pub free-alloc :
    (p : Pmm)
    → IsSound p
    → (pmm_alloc_frame p).1 ≢ 0
    → let q : Pmm = pmm_free_frame (pmm_alloc_frame p).1 (pmm_alloc_frame p).0 in
      ((g : ℕ) → in_use q g ≡ in_use p g) × (q.free_frames ≡ p.free_frames)
free-alloc p ok got =
    let q : Pmm = (pmm_alloc_frame p).0 in
    let (f, t, a) = given p ok got in
    let used : in_use q f ≡ true = t.others f ∙ ap (λ b. b || in_use p f) (==_refl f) in
    let back : pmm_free_frame (pmm_alloc_frame p).1 q ≡ mark_free f q = freed q f a in
    subst (λ (r : Pmm). ((g : ℕ) → in_use r g ≡ in_use p g) × (r.free_frames ≡ p.free_frames))
      (sym (back ∙ mark_free_used q f (omega (arith, t.below, t.frames)) used))
      (
        λ g.
            bm_test-bm_clear f g q.bitmap t.sound.bytes
            ∙ ap (λ b. not (f == g) && b) (t.others g)
            ∙ restored p f g t.was_free,
        recount q.free_frames p.free_frames t.count ok.counted,
      )
