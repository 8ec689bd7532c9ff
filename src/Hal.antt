-- ===== src/Hal.antt =====
-- The device headers of arch/x86_64/hal: the interrupt controllers (pic.h), the timer (pit.h), the
-- serial line (uart.h) and the text mirror (vga.h). A function is the list of its writes to ports, in
-- their order; polling for a free transmitter is left out.

pub mod Controllers
pub mod Cells
use mukern.Base.{
  ℕ, suc, ◌+◌, ◌-◌, ◌*◌, ◌/◌, ◌%◌, ◌^◌, List, [], ◌∷◌, update, ◌==◌, leb, if◌then◌else◌,
}

-- a write to a port
abbrev pub Write : Type 0
Write = ℕ × ℕ

abbrev pub pic1_cmd : ℕ
pic1_cmd = 0x20

abbrev pub pic1_data : ℕ
pic1_data = 0x21

abbrev pub pic2_cmd : ℕ
pic2_cmd = 0xA0

abbrev pub pic2_data : ℕ
pic2_data = 0xA1

abbrev pub io_wait : Write
io_wait = (0x80, 0)

-- `pic_remap`, where the masks are read as `m1` and `m2`
abbrev pub pic_remap : ℕ → ℕ → ℕ → ℕ → List Write
pic_remap off1 off2 m1 m2 =
    (pic1_cmd, 0x11)
    ∷ io_wait
    ∷ (pic2_cmd, 0x11)
    ∷ io_wait
    ∷ (pic1_data, off1)
    ∷ io_wait
    ∷ (pic2_data, off2)
    ∷ io_wait
    ∷ (pic1_data, 0x04)
    ∷ io_wait
    ∷ (pic2_data, 0x02)
    ∷ io_wait
    ∷ (pic1_data, 0x01)
    ∷ io_wait
    ∷ (pic2_data, 0x01)
    ∷ io_wait
    ∷ (pic1_data, m1)
    ∷ (pic2_data, m2)
    ∷ []

abbrev pub pit_ch0 : ℕ
pit_ch0 = 0x40

abbrev pub pit_cmd : ℕ
pit_cmd = 0x43

abbrev pub pit_hz : ℕ
pit_hz = 1193182

abbrev pub pit_init : ℕ → List Write
pit_init hz =
    let div = pit_hz / hz in
    (pit_cmd, 0x36) ∷ (pit_ch0, div % 256) ∷ (pit_ch0, div / 2 ^ 8 % 256) ∷ []

abbrev pub uart_com1 : ℕ
uart_com1 = 0x3F8

abbrev pub arch_uart_init : List Write
arch_uart_init =
    (uart_com1 + 1, 0)
    ∷ (uart_com1 + 3, 0x80)
    ∷ (uart_com1, 3)
    ∷ (uart_com1 + 1, 0)
    ∷ (uart_com1 + 3, 3)
    ∷ (uart_com1 + 2, 1)
    ∷ (uart_com1 + 4, 0x0B)
    ∷ []

abbrev pub arch_uart_putc : ℕ → List Write
arch_uart_putc c = if c == 10 then (uart_com1, 13) ∷ (uart_com1, c) ∷ [] else (uart_com1, c) ∷ []

-- `pos` of `arch_vga_putc`, and the cells of the text buffer
pub record Mirror : Type 0 where
  pub cells : ℕ → ℕ
  pub pos : ℕ

abbrev pub vga_cols : ℕ
vga_cols = 80

abbrev pub vga_rows : ℕ
vga_rows = 25

abbrev pub vga_attr : ℕ
vga_attr = 7

-- the end of `arch_vga_putc`
abbrev pub wrap_pos : Mirror → Mirror
wrap_pos m = if leb (vga_cols * vga_rows) m.pos then record m { pos = 0 } else m

unfoldable pub arch_vga_putc : ℕ → Mirror → Mirror
arch_vga_putc c m = wrap_pos (
    if c == 10
    then record m { pos = m.pos + (vga_cols - m.pos % vga_cols) }
    else record m { cells = update m.cells m.pos (vga_attr * 256 + c % 256); pos = m.pos + 1 })

-- `puts_raw` and `kputs`, as far as the mirror goes
unfoldable pub vga_puts : List ℕ → Mirror → Mirror
vga_puts [] m = m
vga_puts (c ∷ text) m = vga_puts text (arch_vga_putc c m)
