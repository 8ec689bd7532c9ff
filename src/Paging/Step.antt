-- ===== src/Paging/Step.antt =====
-- A step of the walk through a new table, and through a table that is there.
use mukern.Base.{
  ℕ, ◌+◌, ◌*◌, ◌/◌, ◌^◌, ◌≡◌, ◌≢◌, ◌<◌, refl, sym, ap, ◌∙◌, subst, Bool, true, false, List, [], ◌∷◌,
  ◌==◌, ==_iff, ==_refl, ==_ne, ||-cases, false≢true, Bool-cases, arith, inl, inr, update,
  update_ne, update_self,
}
use mukern.Thread.{Kernel, Pmm}
use mukern.Pmm.{pmm_alloc_frame, page_size}
use mukern.Pmm.Frames.{in_use, Taken}
use mukern.Paging.{is_present, is_large, frame_of, clear_table, new_table}
use mukern.Paging.Walk.{
  also, HasLarge, IsChain, Climbed, AreIndices, MayClimb, in_table, or_left, or_right, step-Climbed,
}

-- The kernel after a new table for the entry `e`, of which the allocator has gone to `q`.
abbrev pub grown : ℕ → ℕ → Pmm → Kernel → Kernel
grown e f q s = record s { pmm = q; phys = update (clear_table f s.phys) e (f + 7) }

module _ (s : Kernel) (seen : ℕ → Bool) (table i : ℕ) (is : List ℕ)
    (ok : MayClimb s seen table (i ∷ is)) (q : Pmm) (f : ℕ) (t : Taken s.pmm q f) where
  abbrev new : ℕ
  new = f * page_size

  abbrev after : Kernel
  after = grown (table + 8 * i) new q s

  unseen : (g : ℕ) → in_use s.pmm g ≡ true → f ≢ g
  unseen g used e = false≢true (sym t.was_free ∙ ap (in_use s.pmm) e ∙ used)

  new_frame : new / page_size ≡ f
  new_frame = omega arith

  seen_new : seen f ≡ false
  seen_new = elim (Bool-cases (seen f)) [
    | inr e ↦ e
    | inl e ↦ absurd (unseen f (ok.seen_taken f e) refl)
  ]

  also-new : also seen table (new / page_size) ≡ false
  also-new =
      let ne : (table / page_size == f) ≡ false =
        ==_ne (table / page_size) f (λ e. unseen (table / page_size) ok.start.taken (sym e)) in
      ap (also seen table) new_frame ∙ rw (ne, seen_new) refl

  still : (g : ℕ) → also seen table g ≡ true → in_use q g ≡ true
  still g h =
      let old : in_use s.pmm g ≡ true = elim (||-cases _ _ h) [
        | inl e ↦
            subst (λ k. in_use s.pmm k ≡ true) ((==_iff (table / page_size) g).0 e) ok.start.taken
        | inr e ↦ ok.seen_taken g e
      ] in
      t.others g ∙ or_right _ _ old

  -- Outside the new table and its entry, memory is as it was.
  same_word : (a : ℕ) → f ≢ a / page_size → a ≢ table + 8 * i → after.phys a ≡ s.phys a
  same_word a ne ne' = ground (arith, ne, ne')

  entry_word : after.phys (table + 8 * i) ≡ new + 7
  entry_word = update_self (clear_table new s.phys) (table + 8 * i) (new + 7)

  new_word : (j : ℕ) → j < 512 → after.phys (new + 8 * j) ≡ 0
  new_word j lt =
      let frame = in_table table i ok.start.aligned ok.indices.0 in
      let ne : table + 8 * i ≢ new + 8 * j =
        λ e. unseen (table / page_size) ok.start.taken (omega (arith, frame, e, lt)) in
      update_ne (clear_table new s.phys) (table + 8 * i) (new + 8 * j) (new + 7) ne
      ∙ ground (arith, lt)

  empty-IsChain :
      (js : List ℕ) (seen' : ℕ → Bool) → AreIndices js → IsChain after.phys q seen' new js
  empty-IsChain [] seen' h = tt
  empty-IsChain (j ∷ js) seen' h =
      λ present. absurd (false≢true (sym (ap is_present (new_word j h.0)) ∙ present))

  -- No page hangs in an empty table.
  pub new-small : (js : List ℕ) → AreIndices js → ¬ HasLarge after.phys new js
  new-small [] h large = large
  new-small (j ∷ js) h (present, large) =
      false≢true (sym (ap is_present (new_word j h.0)) ∙ present)

  pub after-MayClimb : new ≢ 0 → MayClimb after (also seen table) new is
  after-MayClimb nz = record {
    sound = t.sound;
    narrow = omega (arith, t.frames, ok.narrow);
    start = record {
      aligned = omega arith;
      nonzero = nz;
      taken = ap (in_use q) new_frame ∙ t.others f ∙ or_left _ _ (==_refl f);
    };
    seen_taken = still;
    fresh = also-new;
    zero_taken = t.others 0 ∙ or_right _ _ ok.zero_taken;
    chain = empty-IsChain is (also seen table) ok.indices.1;
    indices = ok.indices.1;
  }

  kept_old : (a : ℕ) → seen (a / page_size) ≡ true → after.phys a ≡ s.phys a
  kept_old a h =
      let frame = in_table table i ok.start.aligned ok.indices.0 in
      same_word a (unseen (a / page_size) (ok.seen_taken (a / page_size) h))
        (λ e. false≢true (sym ok.fresh ∙ sym (ap seen (ap (λ x. x / page_size) e ∙ frame)) ∙ h))

  pub new-Climbed :
      (s' : Kernel) (pt : ℕ)
      → Climbed after (also seen table) new is s' pt
      → Climbed s seen table (i ∷ is) s' pt
  new-Climbed s' pt c =
      let below : f < 2 ^ 40 = omega (arith, t.below, ok.narrow) in
      step-Climbed s after s' seen table i new pt (new + 7) is ok.start.aligned ok.indices.0
        entry_word (ground (arith, below)) (ground (arith, below)) (ground (arith, below))
        (ground (arith, below)) (omega (arith, below)) kept_old c

pub next-MayClimb :
    (s : Kernel) (seen : ℕ → Bool) (table i : ℕ) (is : List ℕ)
    → MayClimb s seen table (i ∷ is)
    → is_present (s.phys (table + 8 * i)) ≡ true
    → is_large (s.phys (table + 8 * i)) ≡ false
    → MayClimb s (also seen table) (frame_of (s.phys (table + 8 * i))) is
next-MayClimb s seen table i is ok present small =
    let (writes, users, start, apart, chain) = ok.chain present small in
    record {
      sound = ok.sound;
      narrow = ok.narrow;
      start = start;
      seen_taken = λ f h. elim (||-cases _ _ h) [
        | inl at ↦
            subst (λ k. in_use s.pmm k ≡ true) ((==_iff (table / page_size) f).0 at) ok.start.taken
        | inr old ↦ ok.seen_taken f old
      ];
      fresh = apart;
      zero_taken = ok.zero_taken;
      chain = chain;
      indices = ok.indices.1;
    }

module _ (e : ℕ) (s : Kernel) where
  pub new_table_none :
      pmm_alloc_frame s.pmm ≡ (s.pmm, 0) → new_table e s ≡ (record s { pmm = s.pmm }, 0)
  unfolding new_table
  new_table_none h = rw (h, new_table) refl

  pub new_table_some :
      (f : ℕ)
      → (pmm_alloc_frame s.pmm).1 ≡ f * page_size
      → (f * page_size == 0) ≡ false
      → new_table e s ≡ (grown e (f * page_size) (pmm_alloc_frame s.pmm).0 s, f * page_size)
  unfolding new_table
  new_table_some f a nz = rw (a, nz, new_table) refl
