-- ===== src/Shell/Session.antt =====
-- servers/shell/main.c: a line of the session, from its buffer to the command.
use mukern.Base.{ℕ, ℤ, ◌+◌, Bool, true, false, Option, some, none, List, [], ◌∷◌}
use mukern.Fs.{BlkRead}
use mukern.Fs.Messages.{buffer_at, with_buffer}
use mukern.Shell.{
  Command, help, echo, ls, cat, run, ps, mem, uptime, vga, clear, exit, unknown, parse,
}
use mukern.Shell.Commands.{
  World, say, say_string, cmd_ls, cmd_cat, cmd_run, cmd_ps, cmd_mem, cmd_uptime,
}

-- What the kernel and the process manager answer, and where the buffers of `cmd_ls` and `cmd_cat` are.
pub record Setting : Type 0 where
  pub fuel : ℕ
  pub read : BlkRead
  pub ls_buf : ℕ
  pub cat_buf : ℕ
  pub spawned : ℕ
  pub tinfo : ℕ → ℤ
  pub free : ℕ
  pub total : ℕ
  pub ticks : ℕ

-- the text of `cmd_help`
abbrev pub help_text : List ℕ
help_text =
    109 ∷ 117 ∷ 75 ∷ 101 ∷ 114 ∷ 110 ∷ 32 ∷ 115 ∷ 104 ∷ 101 ∷ 108 ∷ 108 ∷ 32 ∷ 45 ∷ 45 ∷ 32 ∷ 99
    ∷ 111 ∷ 109 ∷ 109 ∷ 97 ∷ 110 ∷ 100 ∷ 115 ∷ 58 ∷ 10 ∷ 32 ∷ 32 ∷ 104 ∷ 101 ∷ 108 ∷ 112 ∷ 32 ∷ 32
    ∷ 32 ∷ 32 ∷ 32 ∷ 32 ∷ 32 ∷ 32 ∷ 32 ∷ 32 ∷ 115 ∷ 104 ∷ 111 ∷ 119 ∷ 32 ∷ 116 ∷ 104 ∷ 105 ∷ 115
    ∷ 32 ∷ 104 ∷ 101 ∷ 108 ∷ 112 ∷ 10 ∷ 32 ∷ 32 ∷ 101 ∷ 99 ∷ 104 ∷ 111 ∷ 32 ∷ 60 ∷ 116 ∷ 101 ∷ 120
    ∷ 116 ∷ 62 ∷ 32 ∷ 32 ∷ 32 ∷ 112 ∷ 114 ∷ 105 ∷ 110 ∷ 116 ∷ 32 ∷ 116 ∷ 101 ∷ 120 ∷ 116 ∷ 10 ∷ 32
    ∷ 32 ∷ 108 ∷ 115 ∷ 32 ∷ 32 ∷ 32 ∷ 32 ∷ 32 ∷ 32 ∷ 32 ∷ 32 ∷ 32 ∷ 32 ∷ 32 ∷ 32 ∷ 108 ∷ 105 ∷ 115
    ∷ 116 ∷ 32 ∷ 102 ∷ 105 ∷ 108 ∷ 101 ∷ 115 ∷ 32 ∷ 111 ∷ 110 ∷ 32 ∷ 116 ∷ 104 ∷ 101 ∷ 32 ∷ 100
    ∷ 105 ∷ 115 ∷ 107 ∷ 32 ∷ 40 ∷ 102 ∷ 115 ∷ 32 ∷ 115 ∷ 101 ∷ 114 ∷ 118 ∷ 101 ∷ 114 ∷ 41 ∷ 10 ∷ 32
    ∷ 32 ∷ 99 ∷ 97 ∷ 116 ∷ 32 ∷ 60 ∷ 102 ∷ 105 ∷ 108 ∷ 101 ∷ 62 ∷ 32 ∷ 32 ∷ 32 ∷ 32 ∷ 112 ∷ 114
    ∷ 105 ∷ 110 ∷ 116 ∷ 32 ∷ 97 ∷ 32 ∷ 102 ∷ 105 ∷ 108 ∷ 101 ∷ 39 ∷ 115 ∷ 32 ∷ 99 ∷ 111 ∷ 110 ∷ 116
    ∷ 101 ∷ 110 ∷ 116 ∷ 115 ∷ 10 ∷ 32 ∷ 32 ∷ 114 ∷ 117 ∷ 110 ∷ 32 ∷ 32 ∷ 32 ∷ 32 ∷ 32 ∷ 32 ∷ 32 ∷ 32
    ∷ 32 ∷ 32 ∷ 32 ∷ 115 ∷ 112 ∷ 97 ∷ 119 ∷ 110 ∷ 32 ∷ 116 ∷ 104 ∷ 101 ∷ 32 ∷ 104 ∷ 101 ∷ 108 ∷ 108
    ∷ 111 ∷ 32 ∷ 112 ∷ 114 ∷ 111 ∷ 103 ∷ 114 ∷ 97 ∷ 109 ∷ 32 ∷ 118 ∷ 105 ∷ 97 ∷ 32 ∷ 116 ∷ 104 ∷ 101
    ∷ 32 ∷ 112 ∷ 114 ∷ 111 ∷ 99 ∷ 101 ∷ 115 ∷ 115 ∷ 32 ∷ 109 ∷ 97 ∷ 110 ∷ 97 ∷ 103 ∷ 101 ∷ 114 ∷ 10
    ∷ 32 ∷ 32 ∷ 118 ∷ 103 ∷ 97 ∷ 32 ∷ 60 ∷ 116 ∷ 101 ∷ 120 ∷ 116 ∷ 62 ∷ 32 ∷ 32 ∷ 32 ∷ 32 ∷ 112
    ∷ 114 ∷ 105 ∷ 110 ∷ 116 ∷ 32 ∷ 116 ∷ 101 ∷ 120 ∷ 116 ∷ 32 ∷ 111 ∷ 110 ∷ 32 ∷ 116 ∷ 104 ∷ 101
    ∷ 32 ∷ 86 ∷ 71 ∷ 65 ∷ 32 ∷ 100 ∷ 105 ∷ 115 ∷ 112 ∷ 108 ∷ 97 ∷ 121 ∷ 10 ∷ 32 ∷ 32 ∷ 112 ∷ 115
    ∷ 32 ∷ 32 ∷ 32 ∷ 32 ∷ 32 ∷ 32 ∷ 32 ∷ 32 ∷ 32 ∷ 32 ∷ 32 ∷ 32 ∷ 108 ∷ 105 ∷ 115 ∷ 116 ∷ 32 ∷ 108
    ∷ 105 ∷ 118 ∷ 101 ∷ 32 ∷ 116 ∷ 104 ∷ 114 ∷ 101 ∷ 97 ∷ 100 ∷ 115 ∷ 32 ∷ 97 ∷ 110 ∷ 100 ∷ 32 ∷ 116
    ∷ 104 ∷ 101 ∷ 105 ∷ 114 ∷ 32 ∷ 115 ∷ 116 ∷ 97 ∷ 116 ∷ 101 ∷ 10 ∷ 32 ∷ 32 ∷ 109 ∷ 101 ∷ 109 ∷ 32
    ∷ 32 ∷ 32 ∷ 32 ∷ 32 ∷ 32 ∷ 32 ∷ 32 ∷ 32 ∷ 32 ∷ 32 ∷ 115 ∷ 104 ∷ 111 ∷ 119 ∷ 32 ∷ 112 ∷ 104 ∷ 121
    ∷ 115 ∷ 105 ∷ 99 ∷ 97 ∷ 108 ∷ 32 ∷ 109 ∷ 101 ∷ 109 ∷ 111 ∷ 114 ∷ 121 ∷ 32 ∷ 117 ∷ 115 ∷ 97 ∷ 103
    ∷ 101 ∷ 10 ∷ 32 ∷ 32 ∷ 117 ∷ 112 ∷ 116 ∷ 105 ∷ 109 ∷ 101 ∷ 32 ∷ 32 ∷ 32 ∷ 32 ∷ 32 ∷ 32 ∷ 32 ∷ 32
    ∷ 115 ∷ 104 ∷ 111 ∷ 119 ∷ 32 ∷ 116 ∷ 105 ∷ 109 ∷ 101 ∷ 32 ∷ 115 ∷ 105 ∷ 110 ∷ 99 ∷ 101 ∷ 32 ∷ 98
    ∷ 111 ∷ 111 ∷ 116 ∷ 10 ∷ 32 ∷ 32 ∷ 99 ∷ 108 ∷ 101 ∷ 97 ∷ 114 ∷ 32 ∷ 32 ∷ 32 ∷ 32 ∷ 32 ∷ 32 ∷ 32
    ∷ 32 ∷ 32 ∷ 99 ∷ 108 ∷ 101 ∷ 97 ∷ 114 ∷ 32 ∷ 116 ∷ 104 ∷ 101 ∷ 32 ∷ 115 ∷ 99 ∷ 114 ∷ 101 ∷ 101
    ∷ 110 ∷ 10 ∷ 32 ∷ 32 ∷ 101 ∷ 120 ∷ 105 ∷ 116 ∷ 32 ∷ 32 ∷ 32 ∷ 32 ∷ 32 ∷ 32 ∷ 32 ∷ 32 ∷ 32 ∷ 32
    ∷ 115 ∷ 104 ∷ 117 ∷ 116 ∷ 32 ∷ 100 ∷ 111 ∷ 119 ∷ 110 ∷ 32 ∷ 116 ∷ 104 ∷ 101 ∷ 32 ∷ 115 ∷ 104
    ∷ 101 ∷ 108 ∷ 108 ∷ 10 ∷ 108 ∷ 105 ∷ 110 ∷ 101 ∷ 32 ∷ 101 ∷ 100 ∷ 105 ∷ 116 ∷ 105 ∷ 110 ∷ 103
    ∷ 58 ∷ 32 ∷ 97 ∷ 114 ∷ 114 ∷ 111 ∷ 119 ∷ 115 ∷ 32 ∷ 109 ∷ 111 ∷ 118 ∷ 101 ∷ 47 ∷ 114 ∷ 101 ∷ 99
    ∷ 97 ∷ 108 ∷ 108 ∷ 32 ∷ 104 ∷ 105 ∷ 115 ∷ 116 ∷ 111 ∷ 114 ∷ 121 ∷ 44 ∷ 32 ∷ 72 ∷ 111 ∷ 109 ∷ 101
    ∷ 47 ∷ 69 ∷ 110 ∷ 100 ∷ 44 ∷ 32 ∷ 68 ∷ 101 ∷ 108 ∷ 44 ∷ 10 ∷ 32 ∷ 32 ∷ 32 ∷ 32 ∷ 32 ∷ 32 ∷ 32
    ∷ 32 ∷ 32 ∷ 32 ∷ 32 ∷ 32 ∷ 32 ∷ 32 ∷ 67 ∷ 116 ∷ 114 ∷ 108 ∷ 45 ∷ 65 ∷ 47 ∷ 69 ∷ 32 ∷ 40 ∷ 108
    ∷ 105 ∷ 110 ∷ 101 ∷ 32 ∷ 101 ∷ 110 ∷ 100 ∷ 115 ∷ 41 ∷ 44 ∷ 32 ∷ 67 ∷ 116 ∷ 114 ∷ 108 ∷ 45 ∷ 85
    ∷ 32 ∷ 40 ∷ 99 ∷ 108 ∷ 101 ∷ 97 ∷ 114 ∷ 41 ∷ 44 ∷ 32 ∷ 67 ∷ 116 ∷ 114 ∷ 108 ∷ 45 ∷ 67 ∷ 32 ∷ 40
    ∷ 99 ∷ 97 ∷ 110 ∷ 99 ∷ 101 ∷ 108 ∷ 41 ∷ 10 ∷ []

-- the command goes on with the next line
abbrev pub goes_on : Option World → Option (Bool × World)
goes_on none = none
goes_on (some w) = some (true, w)

-- The branches of `main`, with the line at `line` and its arguments at `args`; the second component is
-- false when the loop ends. The call of the VGA server for `vga` is left out.
abbrev pub run_command : Setting → Command → ℕ → ℕ → World → Option (Bool × World)
run_command c help line args w = goes_on (some (say help_text w))
run_command c echo line args w = goes_on (some (say (10 ∷ []) (say_string args w)))
run_command c ls line args w = goes_on (cmd_ls c.fuel c.read c.ls_buf w)
run_command c cat line args w = goes_on (cmd_cat c.fuel c.read args c.cat_buf w)
run_command c run line args w = goes_on (some (say (cmd_run c.spawned) w))
run_command c ps line args w = goes_on (some (say (cmd_ps c.tinfo) w))
run_command c mem line args w = goes_on (some (say (cmd_mem c.free c.total) w))
run_command c uptime line args w = goes_on (some (say (cmd_uptime c.ticks) w))
run_command c vga line args w = goes_on (
    some (
      say
        (40 ∷ 112 ∷ 114 ∷ 105 ∷ 110 ∷ 116 ∷ 101 ∷ 100 ∷ 32 ∷ 116 ∷ 111 ∷ 32 ∷ 86 ∷ 71 ∷ 65 ∷ 32
          ∷ 100 ∷ 105 ∷ 115 ∷ 112 ∷ 108 ∷ 97 ∷ 121 ∷ 41 ∷ 10 ∷ [])
        w))
run_command c clear line args w = goes_on (some (say (27 ∷ 91 ∷ 50 ∷ 74 ∷ 27 ∷ 91 ∷ 72 ∷ []) w))
run_command c exit line args w = some (false, say (98 ∷ 121 ∷ 101 ∷ 10 ∷ []) w)
run_command c unknown line args w = goes_on (
    some (
      say (32 ∷ 40 ∷ 116 ∷ 114 ∷ 121 ∷ 32 ∷ 104 ∷ 101 ∷ 108 ∷ 112 ∷ 41 ∷ 10 ∷ [])
        (say_string line (say (117 ∷ 110 ∷ 107 ∷ 110 ∷ 111 ∷ 119 ∷ 110 ∷ 58 ∷ 32 ∷ []) w))))

-- the memory after `split` of the line at `line`
abbrev pub parsed : Setting → ℕ → World → Option (Command × (ℕ → ℕ) × ℕ) → Option (Bool × World)
parsed c line w none = none
parsed c line w (some (cmd, l, args)) =
    run_command c cmd line (line + args) (record w { mem = with_buffer w.mem line l })

-- One round of the loop of `main`, from `split` on.
unfoldable pub run_line : Setting → ℕ → World → Option (Bool × World)
run_line c line w = parsed c line w (parse (buffer_at w.mem line))
