-- ===== src/Vga/Window.antt =====
-- What the screen shows: a window of 25 rows onto an endless page, also after scrolling.
use mukern.Base.{
  ℕ, zero, suc, ◌+◌, ◌-◌, ◌*◌, ◌≡◌, ◌<◌, ◌≤◌, refl, sym, ap, ◌∙◌, subst, List, [], ◌∷◌, update,
  update_ne, update_self, ltb, leb, ◌==◌, Bool-cases, ℕ_discrete, dec_lt, inl, inr, arith,
  if◌then◌else◌,
}
use mukern.Vga.{Screen, cols, rows, cell, blank, move_up, erase, scroll, next_row}

-- A page with a cursor. It has 80 columns and no last row.
pub record Page : Type 0 where
  pub text : ℕ → ℕ → ℕ
  pub row : ℕ
  pub col : ℕ

abbrev pub write_at : ℕ → ℕ → ℕ → (ℕ → ℕ → ℕ) → ℕ → ℕ → ℕ
write_at r c v text r' c' = if r == r' then update (text r') c v c' else text r' c'

abbrev pub page_newline : Page → Page
page_newline p = record p { row = p.row + 1; col = 0 }

-- A character on the page: a newline, a backspace, a return, or a character that takes a cell.
unfoldable pub page_putc : ℕ → Page → Page
page_putc ch p =
    if ch == 10
    then page_newline p
    else (if ch == 8
        then (if ltb 0 p.col
            then record p { col = p.col - 1; text = write_at p.row (p.col - 1) blank p.text }
            else p)
        else (if ch == 13
            then record p { col = 0 }
            else let q = record p { text = write_at p.row p.col (cell ch) p.text } in
              if leb cols (p.col + 1) then page_newline q else record q { col = p.col + 1 }))

unfoldable pub page_write : List ℕ → Page → Page
page_write [] p = p
page_write (ch ∷ text) p = page_write text (page_putc ch p)

abbrev pub empty_page : Page
empty_page = record { text = λ _ _. blank; row = 0; col = 0 }

-- The screen shows the rows of the page from `top` on, with the cursor in the window, and the page
-- is blank below its cursor.
pub record Shows (top : ℕ) (p : Page) (s : Screen) : Type 0 where
  pub in_row : s.cur_r < rows
  pub in_col : s.cur_c < cols
  pub row_as : p.row ≡ top + s.cur_r
  pub col_as : p.col ≡ s.cur_c
  pub window : (r c : ℕ) → r < rows → c < cols → s.cells (r * cols + c) ≡ p.text (top + r) c
  pub below : (r c : ℕ) → p.row < r → p.text r c ≡ blank

move_up-before : (i k : ℕ) (vga : ℕ → ℕ) (j : ℕ) → j < i → move_up i k vga j ≡ vga j
unfolding move_up
move_up-before i zero vga j lt = refl
move_up-before i (suc k) vga j lt =
    move_up-before (suc i) k (update vga i (vga (i + cols))) j (omega arith)
    ∙ update_ne vga i j (vga (i + cols)) (omega arith)

move_up-within :
    (i k : ℕ) (vga : ℕ → ℕ) (j : ℕ) → i ≤ j → j < i + k → move_up i k vga j ≡ vga (j + cols)
unfolding move_up
move_up-within i zero vga j le lt = absurd (omega arith)
move_up-within i (suc k) vga j le lt = elim (ℕ_discrete i j) [
  | yes e ↦
      move_up-before (suc i) k (update vga i (vga (i + cols))) j (omega arith)
      ∙ subst (λ n. update vga i (vga (i + cols)) n ≡ vga (n + cols)) e
          (update_self vga i (vga (i + cols)))
  | no ne ↦
      move_up-within (suc i) k (update vga i (vga (i + cols))) j (omega arith) (omega arith)
      ∙ update_ne vga i (j + cols) (vga (i + cols)) (omega arith)
]

erase-before : (i k : ℕ) (vga : ℕ → ℕ) (j : ℕ) → j < i → erase i k vga j ≡ vga j
unfolding erase
erase-before i zero vga j lt = refl
erase-before i (suc k) vga j lt =
    erase-before (suc i) k (update vga i blank) j (omega arith)
    ∙ update_ne vga i j blank (omega arith)

pub erase-within : (i k : ℕ) (vga : ℕ → ℕ) (j : ℕ) → i ≤ j → j < i + k → erase i k vga j ≡ blank
unfolding erase
erase-within i zero vga j le lt = absurd (omega arith)
erase-within i (suc k) vga j le lt = elim (ℕ_discrete i j) [
  | yes e ↦
      erase-before (suc i) k (update vga i blank) j (omega arith)
      ∙ subst (λ n. update vga i blank n ≡ blank) e (update_self vga i blank)
  | no ne ↦ erase-within (suc i) k (update vga i blank) j (omega arith) (omega arith)
]

scroll-above :
    (vga : ℕ → ℕ) (r c : ℕ)
    → r + 1 < rows
    → c < cols
    → scroll vga (r * cols + c) ≡ vga ((r + 1) * cols + c)
unfolding scroll
scroll-above vga r c lr lc =
    let at : r * cols + c + cols ≡ (r + 1) * cols + c = omega arith in
    erase-before ((rows - 1) * cols) cols _ (r * cols + c) (omega arith)
    ∙ move_up-within 0 ((rows - 1) * cols) vga (r * cols + c) (omega arith) (omega arith)
    ∙ ap vga at

scroll_last : (vga : ℕ → ℕ) (r c : ℕ) → r + 1 ≡ rows → c < cols → scroll vga (r * cols + c) ≡ blank
unfolding scroll
scroll_last vga r c lr lc =
    erase-within ((rows - 1) * cols) cols _ (r * cols + c) (omega arith) (omega arith)

-- A new row: the window moves down by one if the cursor is in its last row.
pub next_row-Shows :
    (top : ℕ) (p : Page) (s : Screen)
    → Shows top p s
    → (t : ℕ) × (top ≤ t) × Shows t (page_newline p) (next_row s)
unfolding next_row
next_row-Shows top p s h = elim (Bool-cases (leb rows (s.cur_r + 1))) [
  | inr e ↦
      let room : s.cur_r + 1 < rows = ground (arith, e) in
      rw e (
        top,
        omega arith,
        record {
          in_row = room;
          in_col = omega arith;
          row_as = omega (arith, h.row_as);
          col_as = refl;
          window = h.window;
          below = λ r c lt. h.below r c (omega (arith, lt));
        },
      )
  | inl e ↦
      let last : s.cur_r + 1 ≡ rows = ground (arith, h.in_row, e) in
      rw e (
        top + 1,
        omega arith,
        record {
          in_row = omega arith;
          in_col = omega arith;
          row_as = omega (arith, h.row_as, last);
          col_as = refl;
          window = λ r c lr lc. elim (dec_lt (r + 1) rows) [
            | yes lt ↦
                let at : top + (r + 1) ≡ top + 1 + r = omega arith in
                scroll-above s.cells r c lt lc ∙ h.window (r + 1) c lt lc ∙ ap (λ n. p.text n c) at
            | no ge ↦
                scroll_last s.cells r c (omega arith) lc
                ∙ sym (h.below (top + 1 + r) c (omega (arith, h.row_as, last, lr)))
          ];
          below = λ r c lt. h.below r c (omega (arith, lt));
        },
      )
]
