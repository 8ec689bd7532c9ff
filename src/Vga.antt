-- ===== src/Vga.antt =====
-- servers/vga/main.c: the text screen of the VGA terminal. `VGA` is a function of the index of a
-- cell; the ints of the cursor never become negative.

pub mod Window
pub mod Page
pub mod Keyboard
use mukern.Base.{
  ℕ, zero, suc, ◌+◌, ◌-◌, ◌*◌, ◌%◌, List, [], ◌∷◌, update, ltb, leb, ◌==◌, if◌then◌else◌,
}

abbrev pub cols : ℕ
cols = 80

abbrev pub rows : ℕ
rows = 25

-- `(ATTR << 8) | (unsigned char)ch`
abbrev pub cell : ℕ → ℕ
cell ch = 7 * 256 + ch % 256

abbrev pub blank : ℕ
blank = cell 32

pub record Screen : Type 0 where
  pub cells : ℕ → ℕ
  pub cur_r : ℕ
  pub cur_c : ℕ

-- `for (i = i0; i < i0 + rounds; i++) VGA[i] = VGA[i + COLS];`
unfoldable pub move_up : ℕ → ℕ → (ℕ → ℕ) → ℕ → ℕ
move_up i zero vga = vga
move_up i (suc rounds) vga = move_up (suc i) rounds (update vga i (vga (i + cols)))

-- `for (i = i0; i < i0 + rounds; i++) VGA[i] = (ATTR << 8) | ' ';`
unfoldable pub erase : ℕ → ℕ → (ℕ → ℕ) → ℕ → ℕ
erase i zero vga = vga
erase i (suc rounds) vga = erase (suc i) rounds (update vga i blank)

unfoldable pub scroll : (ℕ → ℕ) → ℕ → ℕ
scroll vga = erase ((rows - 1) * cols) cols (move_up 0 ((rows - 1) * cols) vga)

-- `cur_c = 0; if (++cur_r >= ROWS) { scroll(); cur_r = ROWS - 1; }`
unfoldable pub next_row : Screen → Screen
next_row s =
    if leb rows (s.cur_r + 1)
    then record { cells = scroll s.cells; cur_r = rows - 1; cur_c = 0 }
    else record s { cur_r = s.cur_r + 1; cur_c = 0 }

unfoldable pub vga_putc : ℕ → Screen → Screen
vga_putc ch s =
    if ch == 10
    then next_row s
    else (if ch == 8
        then (if ltb 0 s.cur_c
            then record s {
              cur_c = s.cur_c - 1;
              cells = update s.cells (s.cur_r * cols + (s.cur_c - 1)) blank;
            }
            else s)
        else (if ch == 13
            then record s { cur_c = 0 }
            else let t = record s { cells = update s.cells (s.cur_r * cols + s.cur_c) (cell ch) } in
              if leb cols (s.cur_c + 1) then next_row t else record t { cur_c = s.cur_c + 1 }))

unfoldable pub vga_clear : Screen → Screen
vga_clear s = record { cells = erase 0 (cols * rows) s.cells; cur_r = 0; cur_c = 0 }

-- `for (i = 0; i < len; i++) vga_putc(p[i]);`
unfoldable pub vga_write : List ℕ → Screen → Screen
vga_write [] s = s
vga_write (ch ∷ text) s = vga_write text (vga_putc ch s)
