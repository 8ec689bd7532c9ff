-- ===== src/Vga/Page.antt =====
-- Text on the screen and on the page that it shows.
use mukern.Base.{
  ℕ, ◌+◌, ◌-◌, ◌*◌, ◌≡◌, ◌<◌, ◌≤◌, refl, sym, subst, Bool, true, false, List, [], ◌∷◌, update, ltb,
  leb, ◌==◌, ==_ne, Bool-cases, inl, inr, arith, if◌then◌else◌,
}
use mukern.Vga.{Screen, cols, rows, cell, blank, next_row, vga_putc, vga_clear, vga_write}
use mukern.Vga.Window.{
  Page, write_at, page_newline, page_putc, page_write, empty_page, Shows, erase-within,
  next_row-Shows,
}

-- A cell of the cursor's row is written on the screen and on the page.
write-Shows :
    (top col v : ℕ) (p : Page) (s : Screen)
    → Shows top p s
    → col < cols
    → Shows top
        (record p { text = write_at p.row col v p.text })
        (record s { cells = update s.cells (s.cur_r * cols + col) v })
write-Shows top col v p s h lt = record {
  in_row = h.in_row;
  in_col = h.in_col;
  row_as = h.row_as;
  col_as = h.col_as;
  window = λ r c lr lc. ground (arith, h.row_as, h.window r c lr lc);
  below = λ r c past. rw (==_ne p.row r (omega (arith, past))) (h.below r c past);
}

moved-Shows :
    (top col : ℕ) (p : Page) (s : Screen)
    → Shows top p s
    → col < cols
    → Shows top (record p { col = col }) (record s { cur_c = col })
moved-Shows top col p s h lt = record {
  in_row = h.in_row;
  in_col = lt;
  row_as = h.row_as;
  col_as = refl;
  window = h.window;
  below = h.below;
}

-- The screen still shows the page, from the same row on or from a later one.
abbrev pub ShowsFrom : ℕ → Page → Screen → Type 0
ShowsFrom top p s = (t : ℕ) × (top ≤ t) × Shows t p s

here : {top : ℕ} {p : Page} {s : Screen} → Shows top p s → ShowsFrom top p s
here {top} h = (top, omega arith, h)

if-Shows :
    (top : ℕ) (b : Bool) (p q : Page) (s t : Screen)
    → (b ≡ true → ShowsFrom top p s)
    → (b ≡ false → ShowsFrom top q t)
    → ShowsFrom top (if b then p else q) (if b then s else t)
if-Shows top true p q s t h k = h refl
if-Shows top false p q s t h k = k refl

back-Shows :
    (top : ℕ) (p : Page) (s : Screen)
    → Shows top p s
    → ShowsFrom top
        (if ltb 0 p.col
          then record p { col = p.col - 1; text = write_at p.row (p.col - 1) blank p.text }
          else p)
        (if ltb 0 s.cur_c
          then record s {
            cur_c = s.cur_c - 1;
            cells = update s.cells (s.cur_r * cols + (s.cur_c - 1)) blank;
          }
          else s)
back-Shows top p s h =
    subst
      (λ (n : ℕ).
        ShowsFrom top
          (if ltb 0 n
            then record p { col = n - 1; text = write_at p.row (n - 1) blank p.text }
            else p)
          (if ltb 0 s.cur_c
            then record s {
              cur_c = s.cur_c - 1;
              cells = update s.cells (s.cur_r * cols + (s.cur_c - 1)) blank;
            }
            else s))
      (sym h.col_as)
      (if-Shows top (ltb 0 s.cur_c) _ _ _ _
        (λ b.
          let lt : s.cur_c - 1 < cols = omega (arith, h.in_col) in
          here
            (moved-Shows top (s.cur_c - 1) _ _ (write-Shows top (s.cur_c - 1) blank p s h lt) lt))
        (λ b. here h))

plain-Shows :
    (ch top : ℕ) (p : Page) (s : Screen)
    → Shows top p s
    → let q = record p { text = write_at p.row p.col (cell ch) p.text } in
      let t = record s { cells = update s.cells (s.cur_r * cols + s.cur_c) (cell ch) } in
      ShowsFrom top
        (if leb cols (p.col + 1) then page_newline q else record q { col = p.col + 1 })
        (if leb cols (s.cur_c + 1) then next_row t else record t { cur_c = s.cur_c + 1 })
plain-Shows ch top p s h =
    let t : Screen = record s { cells = update s.cells (s.cur_r * cols + s.cur_c) (cell ch) } in
    let written = write-Shows top s.cur_c (cell ch) p s h h.in_col in
    subst
      (λ (n : ℕ).
        let q = record p { text = write_at p.row n (cell ch) p.text } in
        ShowsFrom top (if leb cols (n + 1) then page_newline q else record q { col = n + 1 })
          (if leb cols (s.cur_c + 1) then next_row t else record t { cur_c = s.cur_c + 1 }))
      (sym h.col_as)
      (if-Shows top (leb cols (s.cur_c + 1)) _ _ _ _ (λ b. next_row-Shows top _ t written)
        (λ b.
          let lt : s.cur_c + 1 < cols = ground (arith, b) in
          here (moved-Shows top (s.cur_c + 1) _ t written lt)))

vga_putc-Shows :
    (ch top : ℕ) (p : Page) (s : Screen)
    → Shows top p s
    → ShowsFrom top (page_putc ch p) (vga_putc ch s)
unfolding vga_putc page_putc
vga_putc-Shows ch top p s h = elim (Bool-cases (ch == 10)) [
  | inl e ↦ rw e (next_row-Shows top p s h)
  | inr e ↦ elim (Bool-cases (ch == 8)) [
    | inl b ↦ rw (e, b) (back-Shows top p s h)
    | inr nb ↦ elim (Bool-cases (ch == 13)) [
      | inl r ↦ rw (e, nb, r) (here (moved-Shows top 0 p s h (omega arith)))
      | inr nr ↦ rw (e, nb, nr) (plain-Shows ch top p s h)
    ]
  ]
]

-- If the screen shows 25 rows of a page, with the row of the cursor among them, then text of any
-- length that is written on both leaves it showing 25 rows of the page, with the row of the cursor
-- among them, and the window never moves up.
pub vga_write-Shows :
    (text : List ℕ) (top : ℕ) (p : Page) (s : Screen)
    → Shows top p s
    → (t : ℕ) × (top ≤ t) × Shows t (page_write text p) (vga_write text s)
unfolding vga_write page_write
vga_write-Shows [] top p s h = (top, omega arith, h)
vga_write-Shows (ch ∷ text) top p s h =
    let (t, le, k) = vga_putc-Shows ch top p s h in
    let (u, le', m) = vga_write-Shows text t (page_putc ch p) (vga_putc ch s) k in
    (u, omega arith, m)

-- A cleared screen shows an empty page from its first row on.
pub vga_clear-Shows : (s : Screen) → Shows 0 empty_page (vga_clear s)
unfolding vga_clear
vga_clear-Shows s = record {
  in_row = omega arith;
  in_col = omega arith;
  row_as = refl;
  col_as = refl;
  window =
      λ r c lr lc. erase-within 0 (cols * rows) s.cells (r * cols + c) (omega arith) (omega arith);
  below = λ r c lt. refl;
}
