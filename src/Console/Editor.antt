-- ===== src/Console/Editor.antt =====
-- drivers/console/main.c: the line editor.
use mukern.Base.{
  ℕ, ℤ, zero, suc, ◌+◌, ◌-◌, ◌*◌, ◌%◌, ◌^◌, Bool, true, false, List, ◌∷◌, Option, some, none,
  update, ltb, leb, ◌==◌, ◌&&◌, ◌||◌, if◌then◌else◌,
}
use mukern.Console.{Console, ring_pop, copy_from, hist_push, hlen, hmax, ring_size}

abbrev pub uart_putc : ℕ → Console → Console
uart_putc c s = record s { out = c ∷ s.out }

-- `while (k--) uart_putc('\b');`
abbrev pub backspaces_out : ℕ → List ℕ → List ℕ
backspaces_out zero out = out
backspaces_out (suc k) out = backspaces_out k (8 ∷ out)

abbrev pub backspaces : ℕ → Console → Console
backspaces k s = record s { out = backspaces_out k s.out }

-- `for (i = i0; i < i0 + rounds; i++) uart_putc(buf[i]);`
abbrev pub print_out : (ℕ → ℕ) → ℕ → ℕ → List ℕ → List ℕ
print_out buf i zero out = out
print_out buf i (suc rounds) out = print_out buf (suc i) rounds (buf i ∷ out)

abbrev pub print_from : ℕ → Console → Console
print_from from s = record s { out = print_out s.rd_buf from (s.rd_n - from) s.out }

unfoldable pub redraw_from : ℕ → Console → Console
redraw_from from s = backspaces (s.rd_n - s.rd_pos) (print_from from s)

-- `for (i = i0; i > i0 - rounds; i--) buf[i] = buf[i - 1];`
unfoldable pub shift_up : ℕ → ℕ → (ℕ → ℕ) → ℕ → ℕ
shift_up i zero buf = buf
shift_up i (suc rounds) buf = shift_up (i - 1) rounds (update buf i (buf (i - 1)))

-- `for (i = i0; i < i0 + rounds; i++) buf[i] = buf[i + 1];`
unfoldable pub shift_down : ℕ → ℕ → (ℕ → ℕ) → ℕ → ℕ
shift_down i zero buf = buf
shift_down i (suc rounds) buf = shift_down (suc i) rounds (update buf i (buf (suc i)))

-- the buffer of `ins_char` after its first loop and the store
abbrev pub opened : ℕ → Console → ℕ → ℕ
opened c s = update (shift_up s.rd_n (s.rd_n - s.rd_pos) s.rd_buf) s.rd_pos c

unfoldable pub ins_char : ℕ → Console → Console
ins_char c s =
    if leb s.rd_max ((s.rd_n + 1) % 2 ^ 32)
    then s
    else let t = print_from s.rd_pos (record s { rd_buf = opened c s; rd_n = s.rd_n + 1 }) in
      let u = record t { rd_pos = t.rd_pos + 1 } in backspaces (u.rd_n - u.rd_pos) u

unfoldable pub del_left : Console → Console
unfolding redraw_from
del_left s =
    if s.rd_pos == 0
    then s
    else let t = uart_putc 8 (record s {
      rd_buf = shift_down (s.rd_pos - 1) (s.rd_n - s.rd_pos) s.rd_buf;
      rd_n = s.rd_n - 1;
      rd_pos = s.rd_pos - 1;
    }) in
      let u = uart_putc 32 (redraw_from t.rd_pos t) in backspaces (u.rd_n - u.rd_pos + 1) u

unfoldable pub del_at : Console → Console
unfolding redraw_from
del_at s =
    if leb s.rd_n s.rd_pos
    then s
    else let t = record s {
      rd_buf = shift_down s.rd_pos (s.rd_n - 1 - s.rd_pos) s.rd_buf;
      rd_n = s.rd_n - 1;
    } in
      let u = uart_putc 32 (redraw_from t.rd_pos t) in backspaces (u.rd_n - u.rd_pos + 1) u

unfoldable pub go_left : Console → Console
go_left s = if s.rd_pos == 0 then s else uart_putc 8 (record s { rd_pos = s.rd_pos - 1 })

unfoldable pub go_right : Console → Console
go_right s =
    if ltb s.rd_pos s.rd_n
    then uart_putc (s.rd_buf s.rd_pos) (record s { rd_pos = s.rd_pos + 1 })
    else s

unfoldable pub go_home : Console → Console
go_home s = record (backspaces s.rd_pos s) { rd_pos = 0 }

unfoldable pub go_end : Console → Console
go_end s = if ltb s.rd_pos s.rd_n then record (print_from s.rd_pos s) { rd_pos = s.rd_n } else s

-- `while (rd_n) { uart_puts("\b \b"); rd_n--; }`
abbrev pub rub_out : ℕ → List ℕ → List ℕ
rub_out zero out = out
rub_out (suc k) out = rub_out k (8 ∷ 32 ∷ 8 ∷ out)

abbrev pub rub_line : Console → Console
rub_line s = record s { out = rub_out s.rd_n s.out; rd_n = 0 }

-- the length that `set_line` cuts its text to
abbrev pub cut : ℕ → ℕ → ℕ
cut max n = if leb max n then (max + (2 ^ 32 - 1)) % 2 ^ 32 else n

unfoldable pub set_line : (ℕ → ℕ) → ℕ → Console → Console
unfolding go_end
set_line text n s =
    let t = rub_line (go_end s) in
    let k = cut t.rd_max n in
    print_from 0 (record t { rd_buf = copy_from text 0 k t.rd_buf; rd_n = k; rd_pos = k })

-- Keep the line that is being typed.
abbrev pub park : Console → Console
park s =
    let n = if ltb s.rd_n hlen then s.rd_n else hlen - 1 in
    record s { h_saved_n = n; h_saved = copy_from s.rd_buf 0 n s.h_saved }

-- `nav` in `hist_nav`, for a `delta` of -1 and of 1; `none` is -1
abbrev pub nav_to : Bool → ℕ → Option ℕ
nav_to true nav = some (suc nav)
nav_to false zero = none
nav_to false (suc nav) = some nav

-- `hist_nav` from its first `if` on
unfoldable pub show_entry : Option ℕ → Console → Console
show_entry none s = s
show_entry (some nav) s =
    if ltb s.h_count nav
    then s
    else let p = if (s.h_nav == 0) && ltb 0 nav then park s else s in
      let t = record p { h_nav = nav } in
      let idx = (t.h_next + hmax - nav) % hmax in
      if nav == 0
      then set_line t.h_saved t.h_saved_n t
      else set_line (t.hist idx) (t.hist_len idx) t

-- `hist_nav(-1)` is `hist_nav true`, and `hist_nav(+1)` is `hist_nav false`.
unfoldable pub hist_nav : Bool → Console → Console
hist_nav older s = show_entry (nav_to older s.h_nav) s

-- The reply carries the length of the line.
unfoldable pub finish_line : Console → Console
finish_line s =
    let t = record (uart_putc 10 s) { rd_buf = update s.rd_buf s.rd_n 0 } in
    let u = hist_push t.rd_buf t.rd_n t in
    record u { rd_active = false; replies = (u.rd_from, u.rd_n) ∷ u.replies }

-- `csi_num` is 3; 1 or 7; 4 or 8
unfoldable pub csi_tilde : Console → Console
csi_tilde s =
    if s.csi_num == 3
    then del_at s
    else (if (s.csi_num == 1) || (s.csi_num == 7)
        then go_home s
        else (if (s.csi_num == 4) || (s.csi_num == 8) then go_end s else s))

-- the `switch` on the last byte of a control sequence: A B C D H F ~
unfoldable pub csi_final : ℕ → Console → Console
csi_final c s =
    if c == 65
    then hist_nav true s
    else (if c == 66
        then hist_nav false s
        else (if c == 67
            then go_right s
            else (if c == 68
                then go_left s
                else (if c == 72
                    then go_home s
                    else (if c == 70 then go_end s else (if c == 126 then csi_tilde s else s))))))

unfoldable pub in_csi : ℕ → Console → Console
in_csi c s =
    if leb 48 c && leb c 57
    then record s { csi_num = (s.csi_num * 10 + (c - 48)) % 2 ^ 32 }
    else record (csi_final c s) { esc = 0 }

unfoldable pub after_esc : ℕ → Console → Console
after_esc c s = record s { esc = if (c == 91) || (c == 79) then 2 else 0; csi_num = 0 }

-- Ctrl-U
unfoldable pub kill_line : Console → Console
unfolding go_end
kill_line s = record (rub_line (go_end s)) { rd_pos = 0 }

-- Ctrl-C
unfoldable pub cancel_line : Console → Console
unfolding finish_line
cancel_line s =
    finish_line (record (uart_putc 10 (uart_putc 67 (uart_putc 94 s))) { rd_n = 0; rd_pos = 0 })

-- the `switch` on a byte outside control sequences
unfoldable pub plain_key : ℕ → Console → Console
plain_key c s =
    if c == 27
    then record s { esc = 1 }
    else (if (c == 13) || (c == 10)
        then finish_line s
        else (if (c == 127) || (c == 8)
            then del_left s
            else (if c == 1
                then go_home s
                else (if c == 5
                    then go_end s
                    else (if c == 2
                        then go_left s
                        else (if c == 6
                            then go_right s
                            else (if c == 21
                                then kill_line s
                                else (if c == 3
                                    then cancel_line s
                                    else (if leb 32 c && ltb c 127 then ins_char c s else s)))))))))

-- One round of the loop of `edit`.
unfoldable pub key : ℕ → Console → Console
key c s = if s.esc == 1 then after_esc c s else (if s.esc == 2 then in_csi c s else plain_key c s)

-- The loop of `edit`. A round ends it by a `return` just if it has called `finish_line`, which is
-- what clears `rd_active`.
unfoldable pub edit_loop : ℕ → Console → Console
edit_loop zero s = s
edit_loop (suc fuel) s =
    let (t, popped) = ring_pop s in
    elim popped [
      | none ↦ t
      | some c ↦ let u = key c t in let rest = edit_loop fuel u in if u.rd_active then rest else u
    ]

unfoldable pub edit : Console → Console
edit s = if s.rd_active then edit_loop ring_size s else s

-- MSG_READLINE, up to the call of `edit`
unfoldable pub start_line : ℤ → (ℕ → ℕ) → ℕ → Console → Console
start_line from buf max s = record s {
  rd_active = true;
  rd_from = from;
  rd_buf = buf;
  rd_max = max % 2 ^ 32;
  rd_n = 0;
  rd_pos = 0;
  esc = 0;
  h_nav = 0;
}
