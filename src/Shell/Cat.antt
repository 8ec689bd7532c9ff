-- ===== src/Shell/Cat.antt =====
-- The command `cat`, against the archive that the file server reads.
use mukern.Base.{
  ℕ, zero, suc, pos, ◌+◌, ◌%◌, ◌^◌, ◌≡◌, ◌≢◌, ◌<◌, ◌≤◌, ◌⊎◌, inl, inr, refl, ap, ◌∙◌, false, some,
  List, ◌∷◌, ◌==◌, arith,
}
use mukern.Console.Editor.{print_out}
use mukern.Fs.{BlkRead, entry_size, read_size}
use mukern.Fs.Read.{OnDisk, file_byte}
use mukern.Fs.Find.{Archive, Found}
use mukern.Fs.Messages.{buffer_at, to_long}
use mukern.Fs.Session.{Cat, cat_lem}
use mukern.Shell.Commands.{World, call_fs, cmd_cat, fb_size}

print_out_same :
    (f g : ℕ → ℕ) (i n : ℕ) (out : List ℕ)
    → ((j : ℕ) → j < i + n → f j ≡ g j)
    → print_out f i n out ≡ print_out g i n out
print_out_same f g i zero out same = refl
print_out_same f g i (suc n) out same =
    print_out_same f g (suc i) n (f i ∷ out) (λ j lt. same j (omega (arith, lt)))
    ∙ ap (λ c. print_out g (suc i) n (c ∷ out)) (same i (omega arith))

-- What `cat` of the file in `at` does: the console gets the first 2048 bytes of the file, or all of a
-- shorter one, memory changes in the buffer only, and the same handles are free as before.
pub record Shown (disk : ℕ → ℕ → ℕ) (at fb : ℕ) (w w' : World) : Type 0 where
  pub shown :
      w'.out
      ≡ print_out
          (file_byte disk ((at + 1) % 2 ^ 64))
          0
          (read_size (entry_size (disk at)) fb_size)
          w.out
  pub memory : (x : ℕ) → (x < fb) ⊎ (fb + fb_size ≤ x) → w'.mem x ≡ w.mem x
  pub handles : (i : ℕ) → (w'.files.ftab i).used ≡ (w.files.ftab i).used

read_size_le : (size max : ℕ) → read_size size max ≤ max
read_size_le size max = ground arith

module _ (disk : ℕ → ℕ → ℕ) (last : ℕ) (read : BlkRead) where
  whole_session :
      (at name fb : ℕ) (w : World)
      → w.mem name ≢ 0
      → Cat disk read (suc last) at name fb fb_size w.mem w.files
      → (w' : World) × (cmd_cat (suc last) read name fb w ≡ some w') × Shown disk at fb w w'
  unfolding cmd_cat call_fs
  whole_session at name fb w named c =
      let size = read_size (entry_size (disk at)) fb_size in
      let le : size ≤ fb_size = read_size_le (entry_size (disk at)) fb_size in
      let nonempty : (w.mem name == 0) ≡ false = ground (arith, named) in
      let long : to_long c.handle ≡ pos c.handle = ground (arith, c.small) in
      let word : size % 2 ^ 32 ≡ size = omega (arith, le) in
      let w' : World = record {
        mem = c.filled;
        files = c.closed;
        out = print_out (λ i. c.filled (fb + i)) 0 (size % 2 ^ 32) w.out;
      } in
      (
        w',
        rw (nonempty, c.open_ok, long, c.read_ok, c.close_ok) refl,
        record {
          shown = rw word (
              print_out_same (λ i. c.filled (fb + i)) (file_byte disk ((at + 1) % 2 ^ 64)) 0 size
                w.out (λ j lt. c.contents j (omega (arith, lt))));
          memory = λ x out. elim out [
            | inl lo ↦ c.before x lo
            | inr hi ↦ c.behind x (omega (arith, hi, le))
          ];
          handles = c.released;
        },
      )

  -- `cat` of a file that the archive has, with the bytes to print on the disk, while the file server has
  -- a handle free: the command ends, the console gets the first 2048 bytes of the file, or all of a
  -- shorter one, nothing but the buffer of the shell changes in memory, and the same handles are free as
  -- before.
  pub cmd_cat-Shown :
      Archive disk last read
      → (at name fb k : ℕ) (w : World) → Found disk last (buffer_at w.mem name) 0 at
      → w.mem name ≢ 0
      → k < 8
      → (w.files.ftab k).used ≡ false
      → OnDisk last ((at + 1) % 2 ^ 64) (read_size (entry_size (disk at)) fb_size)
      → (w' : World) × (cmd_cat (suc last) read name fb w ≡ some w') × Shown disk at fb w w'
  cmd_cat-Shown archive at name fb k w found named lt free there =
      whole_session at name fb w named (
        cat_lem disk last read archive at name fb fb_size w.mem w.files found k lt free
          (omega arith) there)
