-- ===== src/Tests/Servers.antt =====
-- The theorems on the console driver and the file server at concrete states.
use mukern.Base.{
  List, Option, Bool, zero, suc, ℕ, pos, ◌+◌, ◌<◌, ◌≡◌, ◌↔◌, ◌∷◌, [], refl, inl, true, false, some,
  ltb, ◌==◌, ◌%◌, first_from, arith, if◌then◌else◌,
}
use mukern.Console.{Console, ring_pop, hist_push, copy_from}
use mukern.Console.Editor.{
  edit, edit_loop, key, plain_key, ins_char, del_left, finish_line, shift_up,
}
use mukern.Console.Ring.{InRing}
use mukern.Console.Bounds.{Stays}
use mukern.Console.Lines.{HasRoom, del_left-ins_char}
use mukern.Abi.{Msg}
use mukern.Shell.{parse, command_of, Command, cat, text, split, streq, ends_word}
use mukern.Shell.Words.{IsSplit, split_lem}
use mukern.Console.Messages.{Rests, con_handle, con_handle-Rests}
use mukern.Fs.Listing.{Listing}
use mukern.Console.Bounds.Keys.{edit-Stays}
use mukern.Fs.{BlkRead, Files, name_eq}
use mukern.Fs.Walk.{SameText}

abbrev fresh : Console
fresh = record {
  ring = λ i. if i == 0 then 104 else (if i == 1 then 105 else 13);
  r_head = 3;
  r_tail = 0;
  hist = λ _ _. 0;
  hist_len = λ _. 0;
  h_count = 0;
  h_next = 0;
  h_nav = 0;
  h_saved = λ _. 0;
  h_saved_n = 0;
  rd_active = false;
  rd_from = pos 0;
  rd_buf = λ _. 0;
  rd_max = 0;
  rd_n = 0;
  rd_pos = 0;
  esc = 0;
  csi_num = 0;
  out = [];
  replies = [];
}

-- A request for a line of less than 16 bytes, with "hi" and a return in the ring.
abbrev line_request : Msg
line_request = record { label = 14; data0 = 0x1000; data1 = 16; cap_word = 0 }

abbrev asked : Console
asked = record fresh { rd_active = true; rd_from = pos 9; rd_max = 16 }

in_ring : InRing asked
in_ring = record { head_in = omega arith; tail_in = omega arith }

edit-Stays_example : Stays 16 (λ _. 0) (edit asked)
edit-Stays_example =
    edit-Stays 16 (λ _. 0) (omega arith) asked
      (record {
        size = refl;
        cursor = omega arith;
        fits = omega arith;
        outside = λ i le. refl;
        entries = λ i. omega arith;
        saved = omega arith;
        depth = omega arith;
        count = omega arith;
        next = omega arith;
      })

-- The line "hi" is echoed and its length is sent to the client.
typed : (edit asked).replies ≡ (pos 9, 2) ∷ []
unfolding edit edit_loop ring_pop key plain_key ins_char finish_line hist_push copy_from shift_up
    first_from
typed = refl

-- a disk of two sectors, whose bytes say where they are
abbrev disk : ℕ → ℕ → ℕ
disk lba j = (lba + j) % 256

abbrev read_disk : BlkRead
read_disk lba buf = (ltb lba 2, λ j. if ltb j 512 then disk lba j else buf j)

abbrev one_file : Files
one_file = record {
  ftab = λ i. record { data_lba = 1; size = 700; used = i == 0 };
  hdr = λ _. 0;
  bounce = λ _. 0;
}

-- the text "ab"
abbrev ab : ℕ → ℕ
ab i = if i == 0 then 97 else (if i == 1 then 98 else 0)

-- A client asks for a line of less than 16 bytes.
con_handle-Rests_example : Rests (con_handle (pos 9) line_request (λ _. 0) [] fresh)
con_handle-Rests_example =
    con_handle-Rests (pos 9) line_request (λ _. 0) [] fresh
      (record {
        in_ring = record { head_in = omega arith; tail_in = omega arith };
        over = inl refl;
      })

-- The text "hi" with the cursor on the "i".
abbrev typing : Console
typing = record asked { rd_buf = λ i. if i == 0 then 104 else 105; rd_n = 2; rd_pos = 1 }

typing-HasRoom : HasRoom typing
typing-HasRoom = record { cursor = omega arith; room = omega arith; word = omega arith }

del_left-ins_char_example :
    let t = del_left (ins_char 111 typing) in
    (t.rd_n ≡ 2) × (t.rd_pos ≡ 1) × ((j : ℕ) → j < 2 → t.rd_buf j ≡ typing.rd_buf j)
del_left-ins_char_example = del_left-ins_char 111 typing typing-HasRoom

-- the line "cat ab"
abbrev cat_line : ℕ → ℕ
cat_line = text (99 ∷ 97 ∷ 116 ∷ 32 ∷ 97 ∷ 98 ∷ [])

split_lem_example :
    (l : ℕ → ℕ) × (args : ℕ) × (split cat_line ≡ some (l, args))
    × IsSplit cat_line 3 l args
    × ((w : List ℕ) → (streq l (text w) ≡ true) ↔ SameText 0 l (text w))
split_lem_example = split_lem cat_line 3 (omega arith) ((λ j lt. before j lt), refl)
  where
    before : (j : ℕ) → j < 3 → ends_word (cat_line j) ≡ false
    before zero lt = refl
    before (suc zero) lt = refl
    before (suc (suc zero)) lt = refl
    before (suc (suc (suc j))) lt = absurd (omega (arith, lt))

-- The shell takes "cat ab" for the command "cat" with its arguments at 4.
is_cat : Option (Command × (ℕ → ℕ) × ℕ) → Bool
is_cat (some (cat, l, args)) = args == 4
is_cat _ = false

cat_parsed : is_cat (parse cat_line) ≡ true
unfolding is_cat parse split command_of name_eq first_from
cat_parsed = refl
