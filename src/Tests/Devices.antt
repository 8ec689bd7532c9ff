-- ===== src/Tests/Devices.antt =====
-- The theorems on the block driver, the pager, SYS_MAP and capabilities at concrete states.
use mukern.Base.{ℕ, ◌%◌, ◌-◌, ◌^◌, ◌≡◌, ◌<◌, ◌⊎◌, refl, some, false, ◌==◌, if◌then◌else◌, arith}
use mukern.Abi.{Msg}
use mukern.Thread.{Kernel, Pmm, self}
use mukern.System.{statics}
use mukern.Pmm.{bm_test}
use mukern.Pmm.Frames.{in_use}
use mukern.Paging.Walk.{HasLarge, AllTaken, upper_indices}
use mukern.Paging.Translate.{translate}
use mukern.Paging.Mapping.{IsPaged}
use mukern.Syscall.{sys_map}
use mukern.Syscall.Mapping.{user_page, sys_map_lem}

-- Every third status is one of a drive that has data; the others are busy.
abbrev status : ℕ → ℕ
status n = if n % 3 == 0 then 0x58 else 0xD0

-- 16 frames, of which the first three are in use
abbrev frames : Pmm
frames = record {
  bitmap = λ i. if i == 0 then 7 else 0;
  total_frames = 16;
  free_frames = 13;
  alloc_hint = 3;
}

-- The root table in frame 1 leads to the table in frame 2, which is empty; thread 0 is the current
-- one, with an address in the heap window in `rdi`.
abbrev paged : Kernel
paged =
    let s = statics 0 (λ _. 0) frames (λ a. if a == 0x1400 then 0x2007 else 0) 0x1000 in
    record s {
      current = 0;
      threads = λ i. record (s.threads i) {
        regs = record { rax = 5; rdi = 0x400000400123; rsi = 0; rdx = 0 };
      };
    }

paged-IsPaged : IsPaged paged 0x400000400123
unfolding bm_test
paged-IsPaged = record {
  sound = record {
    bytes = λ i. ground arith;
    some_frame = omega arith;
    addressable = omega arith;
    hint_in = omega arith;
    counted = omega arith;
  };
  narrow = omega arith;
  zero_taken = refl;
  root = record { aligned = refl; nonzero = omega arith; taken = refl };
  chain = λ present small. (
    refl,
    refl,
    record { aligned = refl; nonzero = omega arith; taken = refl },
    refl,
    λ present'. absurd (cc present'),
  );
}

sys_map_lem_example :
    let s' = sys_map paged in
    (((self s').regs.rax ≡ 0)
      × (f : ℕ) × (f < 16)
      × (in_use frames f ≡ false)
      × (translate s'.phys 0x1000 0x400000400123 ≡ some (user_page f 0x400000400123)))
    ⊎ (((self s').regs.rax ≡ 2 ^ 64 - 1)
        × (HasLarge paged.phys 0x1000 (upper_indices 0x400000400123) ⊎ AllTaken s'.pmm))
sys_map_lem_example = sys_map_lem paged paged-IsPaged

abbrev hello : Msg
hello = record { label = 10; data0 = 7; data1 = 8; cap_word = 9 }
