-- ===== src/Tests/Terminal.antt =====
-- The theorems on the VGA terminal at concrete states.
use mukern.Base.{ℕ, pos, ◌≤◌, refl, List, [], ◌∷◌, false, true, ◌==◌, if◌then◌else◌, arith}
use mukern.Vga.{Screen, vga_clear, vga_write}
use mukern.Vga.Window.{Shows, empty_page, page_write}
use mukern.Vga.Page.{vga_write-Shows, vga_clear-Shows}
use mukern.Vga.Keyboard.{Terminal, serve}
use mukern.Vga.Keyboard.Session.{InBuffer, IsServed, serve-Served}

abbrev noise : Screen
noise = record { cells = λ i. i; cur_r = 30; cur_c = 99 }

-- "hi", a return, a newline and a backspace
abbrev letters : List ℕ
letters = 104 ∷ 105 ∷ 13 ∷ 10 ∷ 8 ∷ []

vga_write-Shows_example :
    (t : ℕ) × (0 ≤ t)
    × Shows t (page_write letters empty_page) (vga_write letters (vga_clear noise))
vga_write-Shows_example =
    vga_write-Shows letters 0 empty_page (vga_clear noise) (vga_clear-Shows noise)

-- "h", a backspace, "i" and a newline wait for a client with a buffer of 8 bytes.
abbrev asked : Terminal
asked = record {
  screen = vga_clear noise;
  shift = false;
  kr = λ i. if i == 126 then 104 else (if i == 127 then 8 else (if i == 0 then 105 else 10));
  kr_head = 2;
  kr_tail = 126;
  rd_active = true;
  rd_from = pos 9;
  rd_buf = λ _. 0;
  rd_max = 8;
  rd_n = 0;
  replies = [];
}

serve-Served_example : InBuffer 8 (λ _. 0) (serve asked) × IsServed (serve asked)
serve-Served_example =
    serve-Served 8 (λ _. 0) asked (omega arith)
      (record {
        size = refl;
        fits = omega arith;
        outside = λ i le. refl;
        head_in = omega arith;
        tail_in = omega arith;
      })
