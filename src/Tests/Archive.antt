-- ===== src/Tests/Archive.antt =====
-- The theorems on the file server at an archive of two files.
use mukern.Base.{
  ℕ, ◌+◌, ◌≡◌, ◌≢◌, ◌<◌, ◌≤◌, ◌⊎◌, refl, true, false, some, minus_one, [], ltb, ◌==◌, ◌&&◌, dec_lt,
  arith, if◌then◌else◌,
}
use mukern.Console.Editor.{print_out}
use mukern.Fs.{BlkRead, Files, parse_octal, entry_size, read_size}
use mukern.Fs.Read.{OnDisk, file_byte}
use mukern.Shell.Commands.{World, fb_size}
use mukern.Shell.Session.{Setting, run_line}
use mukern.Shell.Typed.{run_line-cat}
use mukern.Fs.Walk.{SameText}
use mukern.Fs.Find.{Archive, Found, hit, skip}

-- an empty file "b" with its header in sector 0, and the file "ab" of 5 bytes with its header in
-- sector 1
abbrev disk : ℕ → ℕ → ℕ
disk lba j =
    if lba == 0
    then (if j == 0 then 98 else 0)
    else (if lba == 1
        then (if j == 0 then 97 else (if j == 1 then 98 else (if j == 124 then 53 else 0)))
        else (if lba == 2 then (if ltb j 5 then 200 + j else 0) else 0))

abbrev read_disk : BlkRead
read_disk lba buf = (ltb lba 4, λ j. if ltb lba 4 && ltb j 512 then disk lba j else buf j)

disk-Archive : Archive disk 4 read_disk
disk-Archive = record {
  reads = record {
    filled = λ lba buf j there lt. ground arith;
    behind = λ lba buf j le. ground arith;
  };
  there = λ lba buf low. refl;
  size = omega arith;
  named = λ lba walked header. (5, omega arith, ground arith);
}

-- the text "ab"
abbrev ab : ℕ → ℕ
ab i = if i == 0 then 97 else (if i == 1 then 98 else 0)

abbrev no_files : Files
no_files = record {
  ftab = λ i. record { data_lba = 0; size = 0; used = false };
  hdr = λ _. 0;
  bounce = λ _. 0;
}

-- The shell has the line "cat ab" at 0x1000, and the buffer of its command at 0x3000.
abbrev shell : ℕ → ℕ
shell x =
    if x == 0x1000
    then 99
    else (if x == 0x1001
        then 97
        else (if x == 0x1002
            then 116
            else (if x == 0x1003
                then 32
                else (if x == 0x1004 then 97 else (if x == 0x1005 then 98 else 0)))))

abbrev world : World
world = record { mem = shell; files = no_files; out = [] }

abbrev setting : Setting
setting = record {
  fuel = 5;
  read = read_disk;
  ls_buf = 0x2000;
  cat_buf = 0x3000;
  spawned = 9;
  tinfo = λ _. minus_one;
  free = 0;
  total = 0;
  ticks = 0;
}

typed_there : SameText 0 (disk 1) (λ i. shell (0x1004 + i))
typed_there j le long = elim (dec_lt j 3) [
  | yes lt ↦ ground arith
  | no ge ↦ absurd (long 2 (omega arith) (omega arith) refl)
]

b_not_typed : ¬ SameText 0 (disk 0) (λ i. shell (0x1004 + i))
b_not_typed h =
    let first : 98 ≡ 97 = h 0 (omega arith) (λ m le lt. absurd (omega arith)) in
    absurd (omega (arith, first))

typed-Found : Found disk 4 (λ i. shell (0x1004 + i)) 0 1
unfolding parse_octal
typed-Found =
    skip (record { on_disk = omega arith; begins = omega arith }) b_not_typed
      (hit (record { on_disk = omega arith; begins = omega arith }) typed_there)

on_disk : OnDisk 4 2 (read_size (entry_size (disk 1)) fb_size)
unfolding parse_octal
on_disk n lt = omega (arith, lt)

run_line-cat_example :
    (v : World) × (run_line setting 0x1000 world ≡ some (true, v))
    × (v.out ≡ print_out (file_byte disk 2) 0 (read_size (entry_size (disk 1)) fb_size) [])
    × ((x : ℕ) → x ≢ 0x1003 → (x < 0x3000) ⊎ (0x3000 + fb_size ≤ x) → v.mem x ≡ shell x)
    × ((i : ℕ) → (v.files.ftab i).used ≡ false)
run_line-cat_example =
    run_line-cat disk 4 setting disk-Archive refl 0x1000 1 0 world
      (record {
        c = refl;
        a = refl;
        t = refl;
        space = refl;
        named = λ e. absurd (omega (arith, e));
      })
      typed-Found (omega arith) refl on_disk

-- The archive has no file with the name at 0x1002, "t ab".
abbrev no_ab : ℕ → ℕ
no_ab i = shell (0x1002 + i)
