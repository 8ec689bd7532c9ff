-- ===== src/Vga/Keyboard.antt =====
-- servers/vga/main.c: the keyboard, the line that is being read, and the messages of the server.
-- The characters of the tables lie below 128, so that a `char` of the ring is never negative.

pub mod Session
use mukern.Base.{
  ℕ, ℤ, zero, suc, ◌+◌, ◌-◌, ◌%◌, ◌^◌, ◌/◌, Bool, true, false, Option, some, none, List, [], ◌∷◌,
  update, ltb, leb, ◌==◌, ◌&&◌, ◌||◌, not, if◌then◌else◌,
}
use mukern.Abi.{Msg, msg_irq, msg_write, msg_readline}
use mukern.Vga.{Screen, vga_putc, vga_write}

abbrev pub kring : ℕ
kring = 128

pub record Terminal : Type 0 where
  pub screen : Screen
  pub shift : Bool
  pub kr : ℕ → ℕ
  pub kr_head : ℕ
  pub kr_tail : ℕ
  pub rd_active : Bool
  pub rd_from : ℤ
  pub rd_buf : ℕ → ℕ
  pub rd_max : ℕ
  pub rd_n : ℕ
  pub replies : List (ℤ × ℕ)

-- `map_lo` and `map_hi`
abbrev pub map_lo : List ℕ
map_lo =
    0 ∷ 27 ∷ 49 ∷ 50 ∷ 51 ∷ 52 ∷ 53 ∷ 54 ∷ 55 ∷ 56 ∷ 57 ∷ 48 ∷ 45 ∷ 61 ∷ 8 ∷ 9 ∷ 113 ∷ 119 ∷ 101
    ∷ 114 ∷ 116 ∷ 121 ∷ 117 ∷ 105 ∷ 111 ∷ 112 ∷ 91 ∷ 93 ∷ 10 ∷ 0 ∷ 97 ∷ 115 ∷ 100 ∷ 102 ∷ 103 ∷ 104
    ∷ 106 ∷ 107 ∷ 108 ∷ 59 ∷ 39 ∷ 96 ∷ 0 ∷ 92 ∷ 122 ∷ 120 ∷ 99 ∷ 118 ∷ 98 ∷ 110 ∷ 109 ∷ 44 ∷ 46 ∷ 47
    ∷ 0 ∷ 42 ∷ 0 ∷ 32 ∷ []

abbrev pub map_hi : List ℕ
map_hi =
    0 ∷ 27 ∷ 33 ∷ 64 ∷ 35 ∷ 36 ∷ 37 ∷ 94 ∷ 38 ∷ 42 ∷ 40 ∷ 41 ∷ 95 ∷ 43 ∷ 8 ∷ 9 ∷ 81 ∷ 87 ∷ 69 ∷ 82
    ∷ 84 ∷ 89 ∷ 85 ∷ 73 ∷ 79 ∷ 80 ∷ 123 ∷ 125 ∷ 10 ∷ 0 ∷ 65 ∷ 83 ∷ 68 ∷ 70 ∷ 71 ∷ 72 ∷ 74 ∷ 75 ∷ 76
    ∷ 58 ∷ 34 ∷ 126 ∷ 0 ∷ 124 ∷ 90 ∷ 88 ∷ 67 ∷ 86 ∷ 66 ∷ 78 ∷ 77 ∷ 60 ∷ 62 ∷ 63 ∷ 0 ∷ 42 ∷ 0 ∷ 32
    ∷ []

-- `table[i]`, where `i` is below the size of the table
abbrev pub char_at : List ℕ → ℕ → ℕ
char_at [] i = 0
char_at (c ∷ cs) zero = c
char_at (c ∷ cs) (suc i) = char_at cs i

unfoldable pub kr_push : ℕ → Terminal → Terminal
kr_push c s =
    let n = (s.kr_head + 1) % kring in
    if n == s.kr_tail then s else record s { kr = update s.kr s.kr_head c; kr_head = n }

-- `none` stands for -1.
unfoldable pub kr_pop : Terminal → Terminal × Option ℕ
kr_pop s =
    if s.kr_head == s.kr_tail
    then (s, none)
    else (record s { kr_tail = (s.kr_tail + 1) % kring }, some (s.kr s.kr_tail))

-- `kbd_drain`, with the byte `sc` that the port returned
unfoldable pub kbd_drain : ℕ → Terminal → Terminal
kbd_drain sc s =
    if (sc == 0x2A) || (sc == 0x36)
    then record s { shift = true }
    else (if (sc == 0xAA) || (sc == 0xB6)
        then record s { shift = false }
        else (if leb 0x80 sc
            then s
            else (if leb 0x3A sc
                then s
                else let c = char_at (if s.shift then map_hi else map_lo) sc in
                  if c == 0 then s else kr_push c s)))

abbrev pub put_char : ℕ → Terminal → Terminal
put_char c s = record s { screen = vga_putc c s.screen }

abbrev pub enter : Terminal → Terminal
enter s =
    let t = put_char 10 s in
    record t {
      rd_buf = update t.rd_buf t.rd_n 0;
      rd_active = false;
      replies = (t.rd_from, t.rd_n) ∷ t.replies;
    }

-- A character other than a newline.
unfoldable pub type_char : ℕ → Terminal → Terminal
type_char c s =
    if c == 8
    then (if s.rd_n == 0 then s else put_char 8 (record s { rd_n = s.rd_n - 1 }))
    else (if leb 32 c && ltb c 127 && ltb ((s.rd_n + 1) % 2 ^ 32) s.rd_max
        then put_char c (record s { rd_buf = update s.rd_buf s.rd_n c; rd_n = s.rd_n + 1 })
        else s)

-- The loop of `edit`, with a round for each place of the ring.
unfoldable pub serve_loop : ℕ → Terminal → Terminal
serve_loop zero s = s
serve_loop (suc fuel) s =
    let (t, popped) = kr_pop s in
    elim popped [
      | none ↦ t
      | some c ↦ let rest = serve_loop fuel (type_char c t) in if c == 10 then enter t else rest
    ]

-- `edit`
unfoldable pub serve : Terminal → Terminal
serve s = if s.rd_active then serve_loop kring s else s

-- `len` bytes of memory from address `a` on
abbrev pub bytes : (ℕ → ℕ) → ℕ → ℕ → List ℕ
bytes mem a zero = []
bytes mem a (suc len) = mem a ∷ bytes mem (a + 1) len

-- MSG_READLINE, up to the call of `edit`
abbrev pub read_request : ℤ → Msg → (ℕ → ℕ) → Terminal → Terminal
read_request from m mem s = record s {
  rd_active = true;
  rd_from = from;
  rd_buf = λ i. mem (m.data0 + i);
  rd_max = m.data1 % 2 ^ 32;
  rd_n = 0;
}

-- One round of `main`, with the message, its sender, the bytes of memory and the byte that the
-- keyboard returns. Any other message is dropped, without a reply.
unfoldable pub handle : ℤ → Msg → (ℕ → ℕ) → ℕ → Terminal → Terminal
handle from m mem sc s =
    if m.label == msg_irq
    then serve (kbd_drain sc s)
    else (if m.label == msg_write
        then record s {
          screen = vga_write (bytes mem m.data0 (m.data1 % 2 ^ 32)) s.screen;
          replies = (from, 0) ∷ s.replies;
        }
        else (if m.label == msg_readline then serve (read_request from m mem s) else s))
