-- ===== src/Shell/Commands.antt =====
-- servers/shell/main.c: what the commands do that talk to the file server or to the kernel.
use mukern.Base.{
  ℕ, ℤ, zero, suc, pos, negsuc, ◌+◌, ◌*◌, ◌/◌, ◌%◌, ◌^◌, Bool, true, false, Option, some, none,
  List, [], ◌∷◌, ◌++◌, ◌==◌, ltb, ◌||◌, if◌then◌else◌,
}
use mukern.Abi.{Msg}
use mukern.Console.Editor.{print_out}
use mukern.Fs.{BlkRead, Files}
use mukern.Fs.Messages.{msg_list, to_long, fs_handle}
use mukern.Fs.Session.{opening, reading, closing}
use mukern.Text.{put_dec}
use mukern.Shell.{line_size}
use mukern.User.{u_strlen}

-- The memory of the shell, the state of the file server, and what the console has printed, with its last
-- character first.
pub record World : Type 0 where
  pub mem : ℕ → ℕ
  pub files : Files
  pub out : List ℕ

-- the characters of a literal, printed
abbrev pub printed : List ℕ → List ℕ → List ℕ
printed [] out = out
printed (c ∷ cs) out = printed cs (c ∷ out)

abbrev pub say : List ℕ → World → World
say text w = record w { out = printed text w.out }

-- `con_write`, as the console driver does it
abbrev pub say_at : ℕ → ℕ → World → World
say_at p len w = record w { out = print_out (λ i. w.mem (p + i)) 0 (len % 2 ^ 32) w.out }

-- `con_puts` of a word of the line
abbrev pub say_string : ℕ → World → World
say_string p w = say_at p (u_strlen line_size w.mem p) w

-- A call of the file server, on the fuel of its walk: its reply, and the world behind it. `none` is a
-- walk that goes on, or no reply.
abbrev pub on_reply : World → Option (Files × (ℕ → ℕ) × Option Msg) → Option (Msg × World)
on_reply w (some (g, mem, some r)) = some (r, record w { files = g; mem = mem })
on_reply w (some (g, mem, none)) = none
on_reply w none = none

unfoldable pub call_fs : ℕ → BlkRead → Msg → World → Option (Msg × World)
call_fs fuel read m w = on_reply w (fs_handle fuel read m w.mem w.files)

abbrev pub listing : ℕ → Msg
listing buf = record { label = msg_list; data0 = buf; data1 = 512; cap_word = 0 }

abbrev pub ls_reply : ℕ → Option (Msg × World) → Option World
ls_reply buf none = none
ls_reply buf (some (r, w)) = some (say_at buf r.data0 w)

-- `cmd_ls` with its buffer at `buf`
unfoldable pub cmd_ls : ℕ → BlkRead → ℕ → World → Option World
cmd_ls fuel read buf w = ls_reply buf (call_fs fuel read (listing buf) w)

abbrev pub is_negative : ℤ → Bool
is_negative (pos n) = false
is_negative (negsuc n) = true

abbrev pub fb_size : ℕ
fb_size = 2048

abbrev pub no_file : ℕ → World → World
no_file name w = say (10 ∷ []) (
    say_string name (
      say
        (99 ∷ 97 ∷ 116 ∷ 58 ∷ 32 ∷ 110 ∷ 111 ∷ 32 ∷ 115 ∷ 117 ∷ 99 ∷ 104 ∷ 32 ∷ 102 ∷ 105 ∷ 108
          ∷ 101 ∷ 58 ∷ 32 ∷ [])
        w))

abbrev pub cat_closed : Option (Msg × World) → Option World
cat_closed none = none
cat_closed (some (r, w)) = some w

abbrev pub cat_filled : ℕ → BlkRead → ℕ → ℕ → Option (Msg × World) → Option World
cat_filled fuel read fb h none = none
cat_filled fuel read fb h (some (r, w)) =
    cat_closed (call_fs fuel read (closing h) (say_at fb r.data0 w))

abbrev pub cat_opened : ℕ → BlkRead → ℕ → ℕ → Option (Msg × World) → Option World
cat_opened fuel read name fb none = none
cat_opened fuel read name fb (some (r, w)) =
    if is_negative (to_long r.data0)
    then some (no_file name w)
    else cat_filled fuel read fb r.data0 (call_fs fuel read (reading r.data0 fb fb_size) w)

-- `cmd_cat` with its buffer at `fb`
unfoldable pub cmd_cat : ℕ → BlkRead → ℕ → ℕ → World → Option World
cmd_cat fuel read name fb w =
    if w.mem name == 0
    then some (
        say
          (117 ∷ 115 ∷ 97 ∷ 103 ∷ 101 ∷ 58 ∷ 32 ∷ 99 ∷ 97 ∷ 116 ∷ 32 ∷ 60 ∷ 102 ∷ 105 ∷ 108 ∷ 101
            ∷ 62 ∷ 10 ∷ [])
          w)
    else cat_opened fuel read name fb (call_fs fuel read (opening name) w)

-- what `cmd_run` prints for the reply of the process manager
abbrev pub cmd_run : ℕ → List ℕ
cmd_run tid =
    (115 ∷ 112 ∷ 97 ∷ 119 ∷ 110 ∷ 101 ∷ 100 ∷ 32 ∷ 104 ∷ 101 ∷ 108 ∷ 108 ∷ 111 ∷ 32 ∷ 97 ∷ 115 ∷ 32
      ∷ 116 ∷ 105 ∷ 100 ∷ 32 ∷ [])
    ++ (put_dec tid ++ (10 ∷ []))

-- `cmd_mem`, with what `u_meminfo` returns
abbrev pub cmd_mem : ℕ → ℕ → List ℕ
cmd_mem fr tot =
    (102 ∷ 114 ∷ 97 ∷ 109 ∷ 101 ∷ 115 ∷ 58 ∷ 32 ∷ [])
    ++ (put_dec fr
        ++ ((32 ∷ 102 ∷ 114 ∷ 101 ∷ 101 ∷ 32 ∷ 47 ∷ 32 ∷ [])
            ++ (put_dec tot
                ++ ((32 ∷ 116 ∷ 111 ∷ 116 ∷ 97 ∷ 108 ∷ 32 ∷ 40 ∷ [])
                    ++ (put_dec (fr * 4 % 2 ^ 64)
                        ++ (32 ∷ 75 ∷ 105 ∷ 66 ∷ 32 ∷ 102 ∷ 114 ∷ 101 ∷ 101 ∷ 41 ∷ 10 ∷ []))))))

-- `cmd_uptime`, with what `u_uptime` returns
abbrev pub cmd_uptime : ℕ → List ℕ
cmd_uptime t =
    (117 ∷ 112 ∷ 116 ∷ 105 ∷ 109 ∷ 101 ∷ 58 ∷ 32 ∷ [])
    ++ (put_dec t
        ++ ((32 ∷ 116 ∷ 105 ∷ 99 ∷ 107 ∷ 115 ∷ 32 ∷ 40 ∷ [])
            ++ (put_dec (t / 100) ++ (32 ∷ 115 ∷ 41 ∷ 10 ∷ []))))

-- a row of a table of texts
abbrev pub row : List (List ℕ) → ℕ → List ℕ
row [] i = []
row (t ∷ ts) zero = t
row (t ∷ ts) (suc i) = row ts i

-- the tables `nm` and `st`
abbrev pub thread_names : List (List ℕ)
thread_names =
    (105 ∷ 110 ∷ 105 ∷ 116 ∷ [])
    ∷ (99 ∷ 111 ∷ 110 ∷ 115 ∷ 111 ∷ 108 ∷ 101 ∷ [])
    ∷ (98 ∷ 108 ∷ 111 ∷ 99 ∷ 107 ∷ [])
    ∷ (118 ∷ 109 ∷ [])
    ∷ (112 ∷ 109 ∷ [])
    ∷ (102 ∷ 115 ∷ [])
    ∷ (118 ∷ 103 ∷ 97 ∷ [])
    ∷ (115 ∷ 104 ∷ 101 ∷ 108 ∷ 108 ∷ [])
    ∷ []

abbrev pub state_names : List (List ℕ)
state_names =
    (117 ∷ 110 ∷ 117 ∷ 115 ∷ 101 ∷ 100 ∷ [])
    ∷ (114 ∷ 117 ∷ 110 ∷ 110 ∷ 97 ∷ 98 ∷ 108 ∷ 101 ∷ [])
    ∷ (114 ∷ 117 ∷ 110 ∷ 110 ∷ 105 ∷ 110 ∷ 103 ∷ [])
    ∷ (98 ∷ 108 ∷ 111 ∷ 99 ∷ 107 ∷ 101 ∷ 100 ∷ [])
    ∷ (100 ∷ 101 ∷ 97 ∷ 100 ∷ [])
    ∷ []

-- what is printed of a live thread
abbrev pub ps_line : ℕ → ℕ → List ℕ
ps_line t s =
    (32 ∷ 32 ∷ 116 ∷ 105 ∷ 100 ∷ 32 ∷ [])
    ++ (put_dec t
        ++ ((32 ∷ [])
            ++ (row state_names s
                ++ ((if ltb t 8 then (32 ∷ 40 ∷ []) ++ (row thread_names t ++ (41 ∷ [])) else [])
                    ++ (10 ∷ [])))))

-- one round of the loop, where `s` is what `u_tinfo` returned
abbrev pub ps_round : ℕ → ℤ → List ℕ
ps_round t (pos s) = if ltb s 1 || ltb 3 s then [] else ps_line t s
ps_round t (negsuc s) = []

-- The loop of `cmd_ps` from thread `t` on.
unfoldable pub ps_from : (ℕ → ℤ) → ℕ → ℕ → List ℕ
ps_from tinfo t zero = []
ps_from tinfo t (suc rounds) = ps_round t (tinfo t) ++ ps_from tinfo (suc t) rounds

abbrev pub cmd_ps : (ℕ → ℤ) → List ℕ
cmd_ps tinfo = ps_from tinfo 0 16
