-- ===== src/Hal/Cells.antt =====
-- The text mirror and its buffer.
use mukern.Base.{ℕ, ◌*◌, ◌≡◌, ◌<◌, ◌≤◌, List, [], ◌∷◌, arith}
use mukern.Hal.{Mirror, vga_cols, vga_rows, arch_vga_putc, vga_puts}

-- The position is in the buffer, and what lies behind the buffer is that of `old`.
pub record InScreen (old : ℕ → ℕ) (m : Mirror) : Type 0 where
  pub place : m.pos < vga_cols * vga_rows
  pub behind : (i : ℕ) → vga_cols * vga_rows ≤ i → m.cells i ≡ old i

arch_vga_putc-InScreen :
    (c : ℕ) (old : ℕ → ℕ) (m : Mirror) → InScreen old m → InScreen old (arch_vga_putc c m)
unfolding arch_vga_putc
arch_vga_putc-InScreen c old m ok = record {
  place = ground (arith, ok.place);
  behind = λ i le. ground (arith, ok.behind i le, ok.place);
}

-- Text of any length leaves the position of the mirror in its buffer, and writes nothing behind it.
pub vga_puts-InScreen :
    (text : List ℕ) (old : ℕ → ℕ) (m : Mirror) → InScreen old m → InScreen old (vga_puts text m)
unfolding vga_puts
vga_puts-InScreen [] old m ok = ok
vga_puts-InScreen (c ∷ text) old m ok =
    vga_puts-InScreen text old (arch_vga_putc c m) (arch_vga_putc-InScreen c old m ok)
