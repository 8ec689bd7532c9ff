-- ===== src/Tests/Memory.antt =====
-- The theorems on frames, page tables and the memory map at concrete states.
use mukern.Base.{
  true, none, ◌⊎◌, ℕ, pos, minus_one, ◌+◌, ◌≡◌, ◌≤◌, refl, List, [], ◌∷◌, some, ◌==◌, if◌then◌else◌,
  arith,
}
use mukern.Thread.{Kernel, Pmm}
use mukern.System.{statics}
use mukern.Pmm.{MemRegion, pmm_alloc_frame, pmm_free_frame, bm_test}
use mukern.Pmm.Frames.{IsSound}
use mukern.Pmm.Count.{IsExact, count_free, counts-IsExact}
use mukern.Paging.{vmm_map, vmm_unmap}
use mukern.Memmap.Regions.{Detected, walk_map-Detected}
use mukern.Paging.Walk.{HasLarge, AllTaken, upper_indices}
use mukern.Paging.Translate.{translate}
use mukern.Paging.Mapping.{IsPaged, vmm_map_lem, vmm_unmap_lem}

-- 16 frames, of which the first three are in use
abbrev frames : Pmm
frames = record {
  bitmap = λ i. if i == 0 then 7 else 0;
  total_frames = 16;
  free_frames = 13;
  alloc_hint = 3;
}

frames-IsSound : IsSound frames
frames-IsSound = record {
  bytes = λ i. ground arith;
  some_frame = omega arith;
  addressable = omega arith;
  hint_in = omega arith;
  counted = omega arith;
}

frames-IsExact : IsExact frames
unfolding count_free bm_test
frames-IsExact = record { bytes = λ i. ground arith; addressable = omega arith; exact = refl }

counts-IsExact_example :
    IsExact (pmm_alloc_frame frames).0 × ((a : ℕ) → IsExact (pmm_free_frame a frames))
counts-IsExact_example = counts-IsExact frames frames-IsSound frames-IsExact

-- a memory map with a hole from 0x9000 up to 0xa000
abbrev ram : List MemRegion
ram = record { base = 0; len = 0x9000 } ∷ record { base = 0xa000; len = 0x6000 } ∷ []

-- The root table in frame 1 leads to the table in frame 2, which is empty.
abbrev tables : ℕ → ℕ
tables a = if a == 0x1400 then 0x2007 else 0

abbrev paged : Kernel
paged = statics 0 (λ _. 0) frames tables 0x1000

-- The address at which `init` is linked
abbrev init_at : ℕ
init_at = 0x400000000000

paged-IsPaged : IsPaged paged init_at
unfolding bm_test
paged-IsPaged = record {
  sound = frames-IsSound;
  narrow = omega arith;
  zero_taken = refl;
  root = record { aligned = refl; nonzero = omega arith; taken = refl };
  chain = λ present small. (
    refl,
    refl,
    record { aligned = refl; nonzero = omega arith; taken = refl },
    refl,
    λ present'. absurd (cc present'),
  );
}

vmm_map_lem_example :
    let (s', r) = vmm_map init_at 0x5000 7 paged in
    ((r ≡ pos 0)
      × (translate s'.phys 0x1000 init_at
          ≡ some (record { at = 0x5000; writable = true; user = true })))
    ⊎ ((r ≡ minus_one) × (HasLarge tables 0x1000 (upper_indices init_at) ⊎ AllTaken s'.pmm))
vmm_map_lem_example = vmm_map_lem paged init_at 0x5000 7 paged-IsPaged

-- The same address behind tables in the frames 2, 3 and 4, with a page in frame 5.
abbrev mapped : Kernel
mapped = record paged {
  pmm = record frames { bitmap = λ i. if i == 0 then 63 else 0 };
  phys = λ a.
      if a == 0x1400
      then 0x2007
      else (if a == 0x2000
          then 0x3007
          else (if a == 0x3000 then 0x4007 else (if a == 0x4000 then 0x5007 else 0)));
}

mapped-IsPaged : IsPaged mapped init_at
unfolding bm_test
mapped-IsPaged = record {
  sound = record {
    bytes = λ i. ground arith;
    some_frame = omega arith;
    addressable = omega arith;
    hint_in = omega arith;
    counted = omega arith;
  };
  narrow = omega arith;
  zero_taken = refl;
  root = record { aligned = refl; nonzero = omega arith; taken = refl };
  chain = λ present small. (
    refl,
    refl,
    record { aligned = refl; nonzero = omega arith; taken = refl },
    refl,
    λ present' small'. (
      refl,
      refl,
      record { aligned = refl; nonzero = omega arith; taken = refl },
      refl,
      λ present'' small''.
          (refl, refl, record { aligned = refl; nonzero = omega arith; taken = refl }, refl, tt),
    ),
  );
}

vmm_unmap_lem_example :
    (translate (vmm_unmap init_at mapped).phys 0x1000 init_at ≡ none)
    ⊎ (HasLarge mapped.phys 0x1000 (upper_indices init_at) × (vmm_unmap init_at mapped ≡ mapped))
vmm_unmap_lem_example = vmm_unmap_lem mapped init_at mapped-IsPaged

-- A memory map of two entries of 20 bytes: one region that is available and one that is not.
abbrev map_bytes : ℕ → ℕ
map_bytes a =
    if (a == 0x100)
    then 20
    else (if a == 0x10A
        then 16
        else (if a == 0x10E
            then 32
            else (if a == 0x114
                then 1
                else (if a == 0x118 then 20 else (if a == 0x12C then 2 else 0)))))

small_bytes : (a : ℕ) → map_bytes a ≤ 32
small_bytes a = ground arith

walk_map-Detected_example : Detected map_bytes 0x130 0x31 0x100 8 0
walk_map-Detected_example =
    walk_map-Detected map_bytes 0x130 (omega arith) 0x30 0x100 8 0
      (λ q e.
        omega (arith, small_bytes q, small_bytes (q + 1), small_bytes (q + 2), small_bytes (q + 3)))
      (omega arith)
