-- ===== src/Fs/Messages.antt =====
-- servers/fs_server/main.c: the messages of the server.
use mukern.Base.{
  ℕ, ℤ, pos, negsuc, to_u64, ◌+◌, ◌-◌, ◌^◌, Option, some, none, ltb, leb, ◌==◌, if◌then◌else◌,
}
use mukern.Abi.{Msg}
use mukern.Fs.{BlkRead, Files, fs_open_from, fs_read, fs_close}
use mukern.Fs.Listing.{fs_list_from}

abbrev pub msg_open : ℕ
msg_open = 12

abbrev pub msg_fread : ℕ
msg_fread = 13

abbrev pub msg_list : ℕ
msg_list = 15

abbrev pub msg_close : ℕ
msg_close = 16

-- a cast to `long`
abbrev pub to_long : ℕ → ℤ
to_long x = if ltb x (2 ^ 63) then pos x else negsuc (2 ^ 64 - 1 - x)

abbrev pub reply : ℕ → ℕ → Msg
reply data0 data1 = record { label = 3; data0 = data0; data1 = data1; cap_word = 0 }

-- the memory of a client from address `a` on as a buffer, and back
abbrev pub buffer_at : (ℕ → ℕ) → ℕ → ℕ → ℕ
buffer_at mem a i = mem (a + i)

abbrev pub with_buffer : (ℕ → ℕ) → ℕ → (ℕ → ℕ) → ℕ → ℕ
with_buffer mem a buf x = if leb a x then buf (x - a) else mem x

-- the size that the reply to MSG_OPEN holds
abbrev pub opened_size : ℤ → Files → ℕ
opened_size (pos h) f = (f.ftab h).size
opened_size h f = 0

-- The server after a message, client memory, and the reply to the sender if there is one.
abbrev pub Outcome : Type 0
Outcome = Files × (ℕ → ℕ) × Option Msg

abbrev pub on_open : Option (Files × ℤ) → (ℕ → ℕ) → Option Outcome
on_open none mem = none
on_open (some (g, h)) mem = some (g, mem, some (reply (to_u64 h) (opened_size h g)))

abbrev pub on_list : ℕ → Option (Files × ((ℕ → ℕ) × ℕ)) → (ℕ → ℕ) → Option Outcome
on_list a none mem = none
on_list a (some (g, (buf, n))) mem = some (g, with_buffer mem a buf, some (reply n 0))

abbrev pub on_read : ℕ → (ℕ → ℕ) → Files × (ℕ → ℕ) × ℤ → Outcome
on_read a mem (g, buf, n) = (g, with_buffer mem a buf, some (reply (to_u64 n) 0))

abbrev pub fread_limit : Msg → Files → ℕ
fread_limit m f = if m.cap_word == 0 then (f.ftab 0).size else m.cap_word

-- One round of `main` with the message `m`; `none` is a walk over the archive that goes on. Any
-- other message is dropped, without a reply.
unfoldable pub fs_handle : ℕ → BlkRead → Msg → (ℕ → ℕ) → Files → Option Outcome
fs_handle fuel read m mem f =
    if m.label == msg_open
    then on_open (fs_open_from fuel read (buffer_at mem m.data0) 0 f) mem
    else (if m.label == msg_fread
        then some (
            on_read m.data1 mem
              (fs_read read (to_long m.data0) (buffer_at mem m.data1) (fread_limit m f) f))
        else (if m.label == msg_close
            then some (fs_close (to_long m.data0) f, mem, some (reply 0 0))
            else (if m.label == msg_list
                then on_list m.data0 (fs_list_from fuel read m.data1 0 (buffer_at mem m.data0, 0) f)
                    mem
                else some (f, mem, none))))
