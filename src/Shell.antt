-- ===== src/Shell.antt =====
-- servers/shell/main.c: how a line is split and which command it is. A line is a function of the
-- index, and ends in a NUL within the 128 bytes of the buffer. Shell.Commands has the commands, and
-- Shell.Session a round of the loop.

pub mod Cat
pub mod Commands
pub mod Session
pub mod Typed
pub mod Words
use mukern.Base.{
  ℕ, zero, suc, ◌+◌, Bool, Option, some, none, List, [], ◌∷◌, first_from, update, ◌==◌, ◌||◌,
  if◌then◌else◌,
}
use mukern.Fs.{name_eq}

abbrev pub line_size : ℕ
line_size = 128

-- the end of the loop of `split`
abbrev pub ends_word : ℕ → Bool
ends_word c = (c == 0) || (c == 32)

-- `split` behind its loop
abbrev pub cut_at : (ℕ → ℕ) → ℕ → (ℕ → ℕ) × ℕ
cut_at line i = if line i == 32 then (update line i 0, i + 1) else (line, i)

-- The line with its first word ended by a NUL, and the index of the arguments; `none` is a line
-- without a NUL or a space in it.
unfoldable pub split : (ℕ → ℕ) → Option ((ℕ → ℕ) × ℕ)
split line = elim (first_from (λ i. ends_word (line i)) 0 line_size) [
  | none ↦ none
  | some i ↦ some (cut_at line i)
]

-- `streq`, whose loop is that of `name_eq` of the file server
abbrev pub streq : (ℕ → ℕ) → (ℕ → ℕ) → Bool
streq a b = name_eq 0 line_size a b

-- a literal of the program, with its NUL
abbrev pub text : List ℕ → ℕ → ℕ
text [] i = 0
text (c ∷ cs) zero = c
text (c ∷ cs) (suc i) = text cs i

pub data Command : Type 0 where
  help echo ls cat run ps mem uptime vga clear exit unknown : Command

-- the tests of `main`, in their order
unfoldable pub command_of : (ℕ → ℕ) → Command
command_of line =
    if streq line (text (104 ∷ 101 ∷ 108 ∷ 112 ∷ []))
    then help
    else (if streq line (text (101 ∷ 99 ∷ 104 ∷ 111 ∷ []))
        then echo
        else (if streq line (text (108 ∷ 115 ∷ []))
            then ls
            else (if streq line (text (99 ∷ 97 ∷ 116 ∷ []))
                then cat
                else (if streq line (text (114 ∷ 117 ∷ 110 ∷ []))
                    then run
                    else (if streq line (text (112 ∷ 115 ∷ []))
                        then ps
                        else (if streq line (text (109 ∷ 101 ∷ 109 ∷ []))
                            then mem
                            else (if streq line (text (117 ∷ 112 ∷ 116 ∷ 105 ∷ 109 ∷ 101 ∷ []))
                                then uptime
                                else (if streq line (text (118 ∷ 103 ∷ 97 ∷ []))
                                    then vga
                                    else (if streq line (text (99 ∷ 108 ∷ 101 ∷ 97 ∷ 114 ∷ []))
                                        then clear
                                        else (if streq line (text (101 ∷ 120 ∷ 105 ∷ 116 ∷ []))
                                            then exit
                                            else unknown))))))))))

-- A command line up to the call: the command, the line and the index of its arguments.
unfoldable pub parse : (ℕ → ℕ) → Option (Command × (ℕ → ℕ) × ℕ)
parse line = elim (split line) [ none ↦ none | some (l, args) ↦ some (command_of l, l, args) ]
