-- ===== src/Paging/Mapping.antt =====
-- `vmm_map` and `vmm_unmap` against the translation of the processor.
use mukern.Base.{
  ℕ, pos, minus_one, ◌+◌, ◌*◌, ◌/◌, ◌%◌, ◌^◌, ◌≡◌, ◌≤◌, ◌⊎◌, refl, sym, ap, ◌∙◌, Bool, true, false,
  some, none, ◌==◌, ==_ne, ==_iff, arith, inl, inr, update, update_ne, update_self,
}
use mukern.Thread.{Kernel}
use mukern.Pmm.{page_size}
use mukern.Pmm.Frames.{IsSound, in_use}
use mukern.Paging.{is_present, frame_of, flags_to_pte, index_at, vmm_map, vmm_unmap}
use mukern.Paging.Translate.{translate, lets_write, lets_user}
use mukern.Paging.Walk.{
  follow, upper_indices, HasLarge, AllTaken, page_of, translate-follow, translate-cleared,
  translate-Absent, IsTable, IsChain, MayClimb, Climbed, climb, walk-climb,
}
use mukern.Paging.Climb.{climb_lem, climb_found}

abbrev unseen : ℕ → Bool
unseen f = false

-- The tables on the way to the page of `va` are frames in use, through which user code may write, no
-- frame is met twice on that way, and the allocator is sound, with frame numbers of 40 bits and frame 0
-- in use.
pub record IsPaged (s : Kernel) (va : ℕ) : Type 0 where
  pub sound : IsSound s.pmm
  pub narrow : s.pmm.total_frames ≤ 2 ^ 40
  pub zero_taken : in_use s.pmm 0 ≡ true
  pub root : IsTable s.pmm (frame_of s.cr3)
  pub chain : IsChain s.phys s.pmm (λ _. false) (frame_of s.cr3) (upper_indices va)

may_climb :
    (s : Kernel) (va : ℕ) → IsPaged s va → MayClimb s unseen (frame_of s.cr3) (upper_indices va)
may_climb s va ok = record {
  sound = ok.sound;
  narrow = ok.narrow;
  start = ok.root;
  seen_taken = λ f h. absurd (cc h);
  fresh = refl;
  zero_taken = ok.zero_taken;
  chain = ok.chain;
  indices = (omega arith, (omega arith, (omega arith, tt)));
}

pte_present : (pa flags : ℕ) → is_present (frame_of pa + flags_to_pte flags) ≡ true
unfolding flags_to_pte
pte_present pa flags = ground arith

-- The last entry of the walk is written, and the walk still comes to its table.
still_there :
    (s s' : Kernel) (va pt v : ℕ)
    → Climbed s unseen (frame_of s.cr3) (upper_indices va) s' pt
    → follow (update s'.phys (pt + 8 * index_at 12 va) v) (frame_of s.cr3) (upper_indices va)
      ≡ some pt
still_there s s' va pt v c =
    let e : ℕ = pt + 8 * index_at 12 va in
    let frame : e / page_size ≡ pt / page_size = omega (arith, c.table_ok) in
    c.leads (update s'.phys e v)
      (λ a ne. update_ne s'.phys e a v (λ x. ne (sym frame ∙ ap (λ y. y / page_size) x)))

-- So the processor reads it.
leaf_written :
    (s s' : Kernel) (va pt v : ℕ)
    → Climbed s unseen (frame_of s.cr3) (upper_indices va) s' pt
    → let phys = update s'.phys (pt + 8 * index_at 12 va) v in
      is_present v ≡ true → translate phys s.cr3 va ≡ some (page_of v (frame_of v + va % page_size))
leaf_written s s' va pt v c present =
    let e : ℕ = pt + 8 * index_at 12 va in
    translate-follow (update s'.phys e v) s.cr3 va pt v (still_there s s' va pt v c)
      (update_self s'.phys e v) present

leaf_cleared :
    (s s' : Kernel) (va pt : ℕ)
    → Climbed s unseen (frame_of s.cr3) (upper_indices va) s' pt
    → translate (update s'.phys (pt + 8 * index_at 12 va) 0) s.cr3 va ≡ none
leaf_cleared s s' va pt c =
    let e : ℕ = pt + 8 * index_at 12 va in
    translate-cleared (update s'.phys e 0) s.cr3 va pt (still_there s s' va pt 0 c)
      (update_self s'.phys e 0)

-- The entry that `vmm_map` writes, as the processor reads it.
entry_page :
    (pa flags x : ℕ)
    → let v = frame_of pa + flags_to_pte flags in
      page_of v (frame_of v + x)
      ≡ record { at = frame_of pa + x; writable = flags / 2 % 2 == 1; user = flags / 4 % 2 == 1 }
unfolding flags_to_pte
entry_page pa flags x =
    let v : ℕ = frame_of pa + flags_to_pte flags in
    let frame : frame_of v ≡ frame_of pa = ground arith in
    let writes : lets_write v ≡ (flags / 2 % 2 == 1) = ground arith in
    let users : lets_user v ≡ (flags / 4 % 2 == 1) = ground arith in
    ap (λ a. page_of v (a + x)) frame
    ∙ ap (λ b. record (page_of v (frame_of pa + x)) { writable = b }) writes
    ∙ ap (λ b. record (page_of v (frame_of pa + x)) { writable = flags / 2 % 2 == 1; user = b })
        users

-- Where the tables on the way to `va` are frames in use, through which user code may write, no frame is
-- met twice on that way, and the allocator is sound, with frame 0 in use: either `vmm_map` returns 0, and
-- the processor then translates the page to the frame that was asked for, and lets user code reach it and
-- write to it just as the flags say; or it returns -1, and there is a large page on the way or no frame
-- is free any more.
pub vmm_map_lem :
    (s : Kernel) (va pa flags : ℕ)
    → IsPaged s va
    → let (s', r) = vmm_map va pa flags s in
      ((r ≡ pos 0)
        × (translate s'.phys s.cr3 va
            ≡ some (record {
              at = frame_of pa + va % page_size;
              writable = flags / 2 % 2 == 1;
              user = flags / 4 % 2 == 1;
            })))
      ⊎ ((r ≡ minus_one) × (HasLarge s.phys (frame_of s.cr3) (upper_indices va) ⊎ AllTaken s'.pmm))
unfolding vmm_map
vmm_map_lem s va pa flags ok =
    let w : Kernel × ℕ = climb (upper_indices va) true (s, frame_of s.cr3) in
    elim (climb_lem (upper_indices va) s unseen (frame_of s.cr3) (may_climb s va ok)) [
      | inl (z, why) ↦
          let stop : (w.1 == 0) ≡ true = (==_iff w.1 0).1 z in
          rw (walk-climb va true s ok.root.nonzero, stop, vmm_map) (inr (refl, why))
      | inr c ↦
          let go : (w.1 == 0) ≡ false = ==_ne w.1 0 c.not_null in
          rw (walk-climb va true s ok.root.nonzero, go, vmm_map)
            (inl (
              refl,
              leaf_written s w.0 va w.1 (frame_of pa + flags_to_pte flags) c (pte_present pa flags)
                  ∙ ap some (entry_page pa flags (va % page_size)),
            ))
    ]

-- Where the tables on the way to `va` are frames in use, through which user code may write, no frame is
-- met twice on that way, and the allocator is sound, with frame 0 in use: after `vmm_unmap` the processor
-- finds nothing at that address; or there is a large page on the way, and nothing has changed.
pub vmm_unmap_lem :
    (s : Kernel) (va : ℕ)
    → IsPaged s va
    → (translate (vmm_unmap va s).phys s.cr3 va ≡ none)
      ⊎ (HasLarge s.phys (frame_of s.cr3) (upper_indices va) × (vmm_unmap va s ≡ s))
unfolding vmm_unmap
vmm_unmap_lem s va ok =
    elim (climb_found (upper_indices va) s unseen (frame_of s.cr3) (may_climb s va ok)) [
      | inl (stopped, inl large) ↦
          rw (walk-climb va false s ok.root.nonzero, stopped, vmm_unmap) (inr (large, refl))
      | inl (stopped, inr absent) ↦
          rw (walk-climb va false s ok.root.nonzero, stopped, vmm_unmap)
            (inl (translate-Absent s.phys s.cr3 va absent))
      | inr (pt, there, nz, c) ↦
          rw (walk-climb va false s ok.root.nonzero, there, ==_ne pt 0 nz, vmm_unmap)
            (inl (leaf_cleared s s va pt c))
    ]
