-- ===== src/Block.antt =====
-- drivers/block/main.c: reading a sector from the ATA controller by polling. The controller is a
-- parameter: `status n` is what the `n`-th read of its status returns, and `words i` the `i`-th word
-- that it hands over.

pub mod Sector
use mukern.Base.{
  ℕ, ℤ, zero, suc, pos, minus_one, to_u64, ◌+◌, ◌*◌, ◌/◌, ◌%◌, ◌^◌, Bool, Option, some, none, List,
  [], ◌∷◌, first_from, update, ◌==◌, ◌&&◌, ◌||◌, not, if◌then◌else◌,
}
use mukern.Abi.{Msg}

abbrev pub ata_seccnt : ℕ
ata_seccnt = 0x1F2

abbrev pub ata_lba0 : ℕ
ata_lba0 = 0x1F3

abbrev pub ata_lba1 : ℕ
ata_lba1 = 0x1F4

abbrev pub ata_lba2 : ℕ
ata_lba2 = 0x1F5

abbrev pub ata_drive : ℕ
ata_drive = 0x1F6

abbrev pub ata_cmd : ℕ
ata_cmd = 0x1F7

-- `s & ST_BSY`, `s & ST_DRQ` and `s & ST_ERR`
abbrev pub is_busy : ℕ → Bool
is_busy s = s / 128 % 2 == 1

abbrev pub has_data : ℕ → Bool
has_data s = s / 8 % 2 == 1

abbrev pub has_error : ℕ → Bool
has_error s = s % 2 == 1

-- The second polling loop ends with this status.
abbrev pub is_settled : ℕ → Bool
is_settled s = not (is_busy s) && (has_data s || has_error s)

-- The writes to the ports, in order. The four bits of the address in ATA_DRIVE lie below 0xE0, so
-- `|` is `+`.
abbrev pub command : ℕ → List (ℕ × ℕ)
command lba =
    (ata_drive, 0xE0 + lba / 2 ^ 24 % 16)
    ∷ (ata_seccnt, 1)
    ∷ (ata_lba0, lba % 256)
    ∷ (ata_lba1, lba / 2 ^ 8 % 256)
    ∷ (ata_lba2, lba / 2 ^ 16 % 256)
    ∷ (ata_cmd, 0x20)
    ∷ []

-- `for (i = i0; i < i0 + rounds; i++) buf[i] = u_inw(ATA_DATA);`
unfoldable pub read_words : (ℕ → ℕ) → ℕ → ℕ → (ℕ → ℕ) → ℕ → ℕ
read_words words i zero buf = buf
read_words words i (suc rounds) buf = read_words words (suc i) rounds (update buf i (words i))

-- What a call does: the writes to the ports, the reads of the status, the words of the buffer, and
-- the result.
pub record Transfer : Type 0 where
  pub sent : List (ℕ × ℕ)
  pub polls : ℕ
  pub buf : ℕ → ℕ
  pub rc : ℤ

-- What follows on the last status `s`, the one before poll `n`.
abbrev pub collect : ℕ → (ℕ → ℕ) → ℕ → ℕ → (ℕ → ℕ) → Transfer
collect lba words n s buf =
    if has_error s
    then record { sent = command lba; polls = n; buf = buf; rc = minus_one }
    else record { sent = command lba; polls = n; buf = read_words words 0 256 buf; rc = pos 0 }

-- `ata_read1` from poll `n` on, with `fuel` reads of the status in each of its two loops; `none` is
-- a loop that goes on.
unfoldable pub ata_read1 : ℕ → (ℕ → ℕ) → (ℕ → ℕ) → ℕ → ℕ → (ℕ → ℕ) → Option Transfer
ata_read1 fuel status words n lba buf = elim (first_from (λ k. not (is_busy (status k))) n fuel) [
  | none ↦ none
  | some i ↦ elim (first_from (λ k. is_settled (status k)) (suc i) fuel) [
    | none ↦ none
    | some j ↦ some (collect lba words (suc j) (status j) buf)
  ]
]

abbrev pub msg_bread : ℕ
msg_bread = 11

-- the reply to MSG_BREAD
abbrev pub bread_reply : Transfer → Msg
bread_reply t = record { label = 3; data0 = to_u64 t.rc; data1 = 0; cap_word = 0 }
