-- ===== src/Shell/Typed.antt =====
-- A typed line, from the buffer of the shell through the file server to the console.
use mathlib.Core.Path.{fun_ext}
use mukern.Base.{
  ℕ, zero, suc, ◌+◌, ◌-◌, ◌%◌, ◌^◌, ◌≡◌, ◌≢◌, ◌<◌, ◌≤◌, ◌⊎◌, inl, inr, refl, sym, ap, subst, ◌∙◌,
  true, false, some, leb, dec_lt, arith,
}
use mukern.Console.Editor.{print_out}
use mukern.Fs.{name_eq, entry_size, read_size}
use mukern.Fs.Read.{OnDisk, file_byte}
use mukern.Fs.Find.{Archive, Found}
use mukern.Fs.Messages.{buffer_at, with_buffer}
use mukern.Shell.{cat, parse, command_of, ends_word}
use mukern.Shell.Words.{IsSplit, IsWord, split_lem}
use mukern.Shell.Commands.{World, fb_size}
use mukern.Shell.Cat.{cmd_cat-Shown}
use mukern.Shell.Session.{Setting, run_line}

command_of_cat : (l : ℕ → ℕ) → l 0 ≡ 99 → l 1 ≡ 97 → l 2 ≡ 116 → l 3 ≡ 0 → command_of l ≡ cat
unfolding command_of name_eq
command_of_cat l c a t z = rw (c, a, t, z) refl

-- At `line` stands the word `cat`, a space, and a name.
pub record TypesCat (line : ℕ) (mem : ℕ → ℕ) : Type 0 where
  pub c : mem line ≡ 99
  pub a : mem (line + 1) ≡ 97
  pub t : mem (line + 2) ≡ 116
  pub space : mem (line + 3) ≡ 32
  pub named : mem (line + 4) ≢ 0

word_byte :
    (line : ℕ) (mem : ℕ → ℕ)
    → TypesCat line mem
    → (j : ℕ) → j < 3
    → ends_word (mem (line + j)) ≡ false
word_byte line mem ty zero lt =
    let e : mem (line + 0) ≡ 99 = ap mem (omega arith) ∙ ty.c in rw e refl
word_byte line mem ty (suc zero) lt = rw (ty.a) refl
word_byte line mem ty (suc (suc zero)) lt = rw (ty.t) refl
word_byte line mem ty (suc (suc (suc j))) lt = absurd (omega (arith, lt))

TypesCat-IsWord : (line : ℕ) (mem : ℕ → ℕ) → TypesCat line mem → IsWord (buffer_at mem line) 3
TypesCat-IsWord line mem ty =
    (λ j lt. word_byte line mem ty j lt, let at : mem (line + 3) ≡ 32 = ty.space in rw at refl)

-- What the shell has in memory once the line is split: the name is where it was.
name_kept :
    (line args : ℕ) (mem l : ℕ → ℕ)
    → IsSplit (buffer_at mem line) 3 l args
    → buffer_at (with_buffer mem line l) (line + 4) ≡ buffer_at mem (line + 4)
name_kept line args mem l ok = fun_ext (λ i.
    let here : leb line (line + 4 + i) ≡ true = ground arith in
    let offset : line + 4 + i - line ≡ 4 + i = omega arith in
    rw (here, offset) (ok.rest_as (4 + i) (omega arith) ∙ ap mem (omega arith)))

args_of :
    (line args : ℕ) (mem l : ℕ → ℕ)
    → TypesCat line mem
    → IsSplit (buffer_at mem line) 3 l args
    → args ≡ 4
args_of line args mem l ty ok = elim ok.args_at [
  | inl (space, e) ↦ e
  | inr (z, e) ↦ absurd (omega (arith, ty.space, z))
]

parsed_line :
    (line : ℕ) (mem : ℕ → ℕ)
    → TypesCat line mem
    → (l : ℕ → ℕ) × IsSplit (buffer_at mem line) 3 l 4
      × (parse (buffer_at mem line) ≡ some (cat, l, 4))
unfolding parse
parsed_line line mem ty =
    let (l, args, e, ok, same) =
      split_lem (buffer_at mem line) 3 (omega arith) (TypesCat-IsWord line mem ty) in
    let four : args ≡ 4 = args_of line args mem l ty ok in
    let first : l 0 ≡ 99 = ok.word_as 0 (omega arith) ∙ ap mem (omega arith) ∙ ty.c in
    let word : command_of l ≡ cat =
      command_of_cat l first (ok.word_as 1 (omega arith) ∙ ty.a) (ok.word_as 2 (omega arith) ∙ ty.t)
        ok.word_end in
    (
      l,
      subst (IsSplit (buffer_at mem line) 3 l) four ok,
      rw (e, parse) (ap (λ c. some (c, l, args)) word ∙ ap (λ n. some (cat, l, n)) four),
    )

-- Splitting the line changes the space behind the word only.
line_kept :
    (line args : ℕ) (mem l : ℕ → ℕ)
    → IsSplit (buffer_at mem line) 3 l args
    → (x : ℕ) → x ≢ line + 3
    → with_buffer mem line l x ≡ mem x
line_kept line args mem l ok x ne = elim (dec_lt x line) [
  | yes before ↦ let off : leb line x ≡ false = ground (arith, before) in rw off refl
  | no here ↦
      let on : leb line x ≡ true = ground (arith, here) in
      let back : line + (x - line) ≡ x = omega (arith, here) in
      rw on (elim (dec_lt (x - line) 3) [
        | yes word ↦ ok.word_as (x - line) word ∙ ap mem back
        | no rest ↦ ok.rest_as (x - line) (omega (arith, rest, ne, here)) ∙ ap mem back
      ])
]

-- A line `cat NAME` in the buffer of the shell, where an archive of at most 2^26 sectors, with a block
-- driver that fails on the other numbers of 28 bits and headers whose names end in their sectors, has a
-- file of that name, with the bytes to print on the disk, and the file server has a handle free: the round ends and the loop goes on, the
-- console has got the first 2048 bytes of the file, or all of a shorter one, memory has changed in the
-- buffer of the command and at the end of the word only, and the same handles are free as before.
pub run_line-cat :
    (disk : ℕ → ℕ → ℕ) (last : ℕ) (s : Setting)
    → Archive disk last s.read
    → s.fuel ≡ suc last
    → (line at k : ℕ) (w : World) → TypesCat line w.mem
    → Found disk last (buffer_at w.mem (line + 4)) 0 at
    → k < 8
    → (w.files.ftab k).used ≡ false
    → OnDisk last ((at + 1) % 2 ^ 64) (read_size (entry_size (disk at)) fb_size)
    → (v : World) × (run_line s line w ≡ some (true, v))
      × (v.out
          ≡ print_out
              (file_byte disk ((at + 1) % 2 ^ 64))
              0
              (read_size (entry_size (disk at)) fb_size)
              w.out)
      × ((x : ℕ) → x ≢ line + 3 → (x < s.cat_buf) ⊎ (s.cat_buf + fb_size ≤ x) → v.mem x ≡ w.mem x)
      × ((i : ℕ) → (v.files.ftab i).used ≡ (w.files.ftab i).used)
unfolding run_line
run_line-cat disk last s archive enough line at k w ty found lt free there =
    let (l, ok, parses) = parsed_line line w.mem ty in
    let w1 : World = record w { mem = with_buffer w.mem line l } in
    let same : buffer_at w1.mem (line + 4) ≡ buffer_at w.mem (line + 4) =
      name_kept line 4 w.mem l ok in
    let named : w1.mem (line + 4) ≢ 0 = λ z.
      ty.named
        (sym (line_kept line 4 w.mem l ok (line + 4) (λ e. absurd (omega (arith, e)))) ∙ z) in
    let (v, ends, shown) =
      cmd_cat-Shown disk last s.read archive at (line + 4) s.cat_buf k w1
        (subst (λ path. Found disk last path 0 at) (sym same) found) named lt free there in
    (
      v,
      rw (parses, enough, ends) refl,
      shown.shown,
      λ x ne out. shown.memory x out ∙ line_kept line 4 w.mem l ok x ne,
      shown.handles,
    )
