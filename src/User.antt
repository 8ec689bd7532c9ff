-- ===== src/User.antt =====
-- lib/usys.h: the helpers of user code, which print through the console driver. A pointer is an address in
-- the memory of the program; a helper gives the message that it sends to the driver, with the memory
-- that its local buffer has been written to.

pub mod Lines
use mukern.Base.{ℕ, zero, suc, ◌+◌, List, [], ◌∷◌, update, ◌==◌, if◌then◌else◌}
use mukern.Abi.{Msg, msg_write, msg_readline}
use mukern.Text.{dec_digits, put_dec, count}
use mukern.Text.Hex.{put_hex}

-- The loop of `u_strlen`, from `s` on.
unfoldable pub u_strlen : ℕ → (ℕ → ℕ) → ℕ → ℕ
u_strlen zero mem s = 0
u_strlen (suc fuel) mem s =
    let rest = u_strlen fuel mem (s + 1) in if mem s == 0 then 0 else suc rest

abbrev pub con_write : ℕ → ℕ → Msg
con_write p len = record { label = msg_write; data0 = p; data1 = len; cap_word = 0 }

abbrev pub con_puts : ℕ → (ℕ → ℕ) → ℕ → Msg
con_puts fuel mem s = con_write s (u_strlen fuel mem s)

-- the message that `con_readline` sends
abbrev pub readline_msg : ℕ → ℕ → Msg
readline_msg buf max = record { label = msg_readline; data0 = buf; data1 = max; cap_word = 0 }

-- `buf[k++] = c` for each character of a text
unfoldable pub store_text : ℕ → ℕ → List ℕ → (ℕ → ℕ) → ℕ → ℕ
store_text buf k [] mem = mem
store_text buf k (c ∷ cs) mem = store_text buf (k + 1) cs (update mem (buf + k) c)

-- `con_putu` with its array at `o` and the literal "0" at `zero_text`
unfoldable pub con_putu : ℕ → ℕ → ℕ → (ℕ → ℕ) → Msg × (ℕ → ℕ)
con_putu zero_text o v mem =
    if v == 0
    then (con_write zero_text 1, mem)
    else (let digits = dec_digits 21 v [] in
        (con_write o (count digits), store_text o 0 digits mem))

-- `con_puthex` with its array at `o`
abbrev pub con_puthex : ℕ → ℕ → (ℕ → ℕ) → Msg × (ℕ → ℕ)
con_puthex o v mem = (con_write o 18, store_text o 0 (put_hex v) mem)

-- `cl__cpy`
unfoldable pub cl_cpy : ℕ → ℕ → ℕ → ℕ → (ℕ → ℕ) → (ℕ → ℕ) × ℕ
cl_cpy zero b k s mem = (mem, k)
cl_cpy (suc fuel) b k s mem =
    let rest = cl_cpy fuel b (k + 1) (s + 1) (update mem (b + k) (mem s)) in
    if mem s == 0 then (mem, k) else rest

abbrev pub buf_size : ℕ
buf_size = 160

-- A line in one buffer: the text at `a`, then `middle`, then the text at `b`.
unfoldable pub line_of : ℕ → ℕ → List ℕ → ℕ → (ℕ → ℕ) → Msg × (ℕ → ℕ)
line_of buf a middle b mem =
    let (mem1, k1) = cl_cpy buf_size buf 0 a mem in
    let (mem2, k2) = cl_cpy buf_size buf (k1 + count middle) b (store_text buf k1 middle mem1) in
    (con_write buf k2, mem2)

-- the digits of `con_linef`
abbrev pub line_digits : ℕ → List ℕ
line_digits n = dec_digits 21 n (if n == 0 then 48 ∷ [] else [])

-- `con_linef`, `con_linex` with their buffer at `buf`
abbrev pub con_linef : ℕ → ℕ → ℕ → ℕ → (ℕ → ℕ) → Msg × (ℕ → ℕ)
con_linef buf a n b mem = line_of buf a (line_digits n) b mem

abbrev pub con_linex : ℕ → ℕ → ℕ → ℕ → (ℕ → ℕ) → Msg × (ℕ → ℕ)
con_linex buf a n b mem = line_of buf a (put_hex n) b mem

-- `u_putdec` and `u_puthex`: the characters that `u_putc` gets, in the loops of the kernel's own printers
abbrev pub u_putdec : ℕ → List ℕ
u_putdec = put_dec

abbrev pub u_puthex : ℕ → List ℕ
u_puthex = put_hex
