-- ===== src/Syscall/Mapping.antt =====
-- `SYS_MAP` of arch/x86_64/trap/trap.c, over the frame allocator and the page tables.
use mukern.Base.{
  ℕ, ℤ, ◌+◌, ◌*◌, ◌-◌, ◌^◌, ◌≡◌, ◌<◌, ◌⊎◌, inl, inr, refl, sym, ap, ◌∙◌, ◌%◌, false≢true, Bool,
  true, false, some, List, [], ◌∷◌, ◌==◌, ==_refl, Bool-cases, arith,
}
use mukern.Thread.{Kernel, Pmm, self}
use mukern.Pmm.{pmm_alloc_frame, page_align_down, page_size}
use mukern.Pmm.Frames.{Taken, in_use, pmm_alloc_frame_lem}
use mukern.Paging.{walk_tables, vmm_map, vm_user_page, frame_of, index_at}
use mukern.Paging.Translate.{Place, translate}
use mukern.Paging.Walk.{IsChain, also, upper_indices, HasLarge, AllTaken}
use mukern.Paging.Mapping.{IsPaged, vmm_map_lem}
use mukern.Syscall.{sys_map}

-- The address of a page has the indices of every address in it.
index_at-align :
    (va : ℕ)
    → (index_at 39 (page_align_down va) ≡ index_at 39 va)
      × (index_at 30 (page_align_down va) ≡ index_at 30 va)
      × (index_at 21 (page_align_down va) ≡ index_at 21 va)
      × (index_at 12 (page_align_down va) ≡ index_at 12 va)
index_at-align va = (omega arith, omega arith, omega arith, omega arith)

-- So the call maps the page of the address.
vmm_map-align :
    (va pa flags : ℕ) (s : Kernel) → vmm_map (page_align_down va) pa flags s ≡ vmm_map va pa flags s
unfolding vmm_map walk_tables
vmm_map-align va pa flags s = let (a, b, c, d) = index_at-align va in rw (a, b, c, d) refl

-- A chain of tables stays one when more frames are in use.
IsChain-more :
    (is : List ℕ) (phys : ℕ → ℕ) (p q : Pmm) (seen : ℕ → Bool) (table : ℕ)
    → ((g : ℕ) → in_use p g ≡ true → in_use q g ≡ true)
    → IsChain phys p seen table is
    → IsChain phys q seen table is
IsChain-more [] phys p q seen table more chain = tt
IsChain-more (i ∷ is) phys p q seen table more chain = λ present small.
    let (writes, users, t, apart, rest) = chain present small in
    (
      writes,
      users,
      record { aligned = t.aligned; nonzero = t.nonzero; taken = more _ t.taken },
      apart,
      IsChain-more is phys p q (also seen table) _ more rest,
    )

taken_before : (p q : Pmm) (f g : ℕ) → Taken p q f → in_use p g ≡ true → in_use q g ≡ true
taken_before p q f g t used = t.others g ∙ rw used (ground arith)

-- The kernel after the allocation of a frame.
abbrev with_frames : Pmm → Kernel → Kernel
with_frames q s = record s { pmm = q }

Taken-IsPaged :
    (s : Kernel) (va f : ℕ) (q : Pmm)
    → IsPaged s va
    → Taken s.pmm q f
    → IsPaged (with_frames q s) va
Taken-IsPaged s va f q ok t = record {
  sound = t.sound;
  narrow = omega (arith, t.frames, ok.narrow);
  root = record {
    aligned = ok.root.aligned;
    nonzero = ok.root.nonzero;
    taken = taken_before s.pmm q f _ t ok.root.taken;
  };
  zero_taken = taken_before s.pmm q f 0 t ok.zero_taken;
  chain =
      IsChain-more (upper_indices va) s.phys s.pmm q (λ _. false) (frame_of s.cr3)
        (λ g. taken_before s.pmm q f g t) ok.chain;
}

-- The address lies in the frame `f`, and user code may reach it and write to it.
abbrev pub user_page : ℕ → ℕ → Place
user_page f va = record { at = f * page_size + va % page_size; writable = true; user = true }

frame_page : (f : ℕ) → f < 2 ^ 40 → frame_of (f * page_size) ≡ f * page_size
frame_page f lt = omega (arith, lt)

-- SYS_MAP at an address, where the tables on the way are frames in use, through which user code may
-- write, no frame is met twice on that way, and the allocator is sound, with frame 0 in use: either it
-- returns 0, and the processor translates the address to its place in a frame that was free before, which
-- user code may reach and write to; or it returns -1, and there is a large page on the way or no frame is
-- free any more.
pub sys_map_lem :
    (s : Kernel)
    → IsPaged s (self s).regs.rdi
    → let s' = sys_map s in
      let va = (self s).regs.rdi in
      (((self s').regs.rax ≡ 0)
        × (f : ℕ) × (f < s.pmm.total_frames)
        × (in_use s.pmm f ≡ false)
        × (translate s'.phys s.cr3 va ≡ some (user_page f va)))
      ⊎ (((self s').regs.rax ≡ 2 ^ 64 - 1)
          × (HasLarge s.phys (frame_of s.cr3) (upper_indices va) ⊎ AllTaken s'.pmm))
unfolding sys_map
sys_map_lem s ok = elim (pmm_alloc_frame_lem s.pmm ok.sound) [
  | inr (all, e) ↦ rw (e, ==_refl s.current, sys_map) (inr (refl, inr all))
  | inl (f, t, a) ↦ elim (Bool-cases (f * page_size == 0)) [
    | inl z ↦
        let zero : f ≡ 0 = ground (arith, z) in
        absurd (false≢true (sym t.was_free ∙ ap (in_use s.pmm) zero ∙ ok.zero_taken))
    | inr nz ↦
        let va : ℕ = (self s).regs.rdi in
        let q : Pmm = (pmm_alloc_frame s.pmm).0 in
        let m : Kernel × ℤ = vmm_map va (f * page_size) vm_user_page (with_frames q s) in
        let same = vmm_map-align va (f * page_size) vm_user_page (with_frames q s) in
        elim (vmm_map_lem (with_frames q s) va (f * page_size) vm_user_page
          (Taken-IsPaged s va f q ok t)) [
            | inr (r, why) ↦ rw (a, nz, same, r, ==_refl m.0.current, sys_map) (inr (refl, why))
            | inl (r, found_at) ↦
                let lt : f < 2 ^ 40 = omega (arith, t.below, ok.narrow) in
                rw (a, nz, same, r, ==_refl m.0.current, sys_map)
                  (inl (
                    refl,
                    f,
                    t.below,
                    t.was_free,
                    found_at
                        ∙ ap (λ x. some (record (user_page f va) { at = x + va % page_size }))
                            (frame_page f lt),
                  ))
          ]
  ]
]
