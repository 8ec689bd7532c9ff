-- ===== src/Block/Sector.antt =====
-- drivers/block/main.c: which sector the controller is asked for, and what the buffer then holds.
use mukern.Base.{
  ℕ, suc, pos, minus_one, ◌+◌, ◌*◌, ◌%◌, ◌^◌, ◌≡◌, ◌<◌, ◌≤◌, ◌⊎◌, true, false, List, [], ◌∷◌,
  IsFirst, ◌==◌, not, if◌then◌else◌,
}
use mukern.Block.{
  ata_seccnt, ata_lba0, ata_lba1, ata_lba2, ata_drive, ata_cmd, is_busy, has_error, is_settled,
  Transfer,
}

-- A register of the controller after writes to its ports: the last one holds.
unfoldable pub register : ℕ → ℕ → List (ℕ × ℕ) → ℕ
register port old [] = old
register port old ((p, v) ∷ sent) = register port (if p == port then v else old) sent

-- The sector that the registers name: 28 bits over four registers.
abbrev pub sector : List (ℕ × ℕ) → ℕ
sector sent =
    register ata_lba0 0 sent
    + register ata_lba1 0 sent * 2 ^ 8
    + register ata_lba2 0 sent * 2 ^ 16
    + register ata_drive 0 sent % 16 * 2 ^ 24

-- Among any `fuel` reads of its status in a row, the controller is not busy once and settles once.
pub record Answers (status : ℕ → ℕ) (fuel : ℕ) : Type 0 where
  pub idles : (n : ℕ) → (k : ℕ) × (n ≤ k) × (k < n + fuel) × (is_busy (status k) ≡ false)
  pub settles : (n : ℕ) → (k : ℕ) × (n ≤ k) × (k < n + fuel) × (is_settled (status k) ≡ true)

-- What the status `s` makes of the buffer: with an error in it, -1 is returned and the buffer is as
-- before; else 0 is returned, the buffer holds the 256 words that the controller has handed over, and
-- what lies behind is as before.
abbrev pub ResultOf : ℕ → (ℕ → ℕ) → (ℕ → ℕ) → Transfer → Type 0
ResultOf s words buf t =
    ((has_error s ≡ true) × (t.rc ≡ minus_one) × ((i : ℕ) → t.buf i ≡ buf i))
    ⊎ ((has_error s ≡ false)
        × (t.rc ≡ pos 0)
        × ((i : ℕ) → i < 256 → t.buf i ≡ words i)
        × ((i : ℕ) → 256 ≤ i → t.buf i ≡ buf i))

-- The status has been read from read `n` on: the command came after the first read `idle` at which the
-- controller was not busy, and the first read behind it at which it had settled was the last one.
-- The command asks for one sector, the one at `lba`, and the result is what that last status says.
pub record Fetched (fuel : ℕ) (status words : ℕ → ℕ) (n lba : ℕ) (buf : ℕ → ℕ) (t : Transfer)
    : Type 0 where
  pub idle : ℕ
  pub last : ℕ
  pub idle_first : IsFirst (λ x. not (is_busy (status x))) n fuel idle
  pub last_first : IsFirst (λ x. is_settled (status x)) (suc idle) fuel last
  pub polled : t.polls ≡ suc last
  pub asked : sector t.sent ≡ lba
  pub one : register ata_seccnt 0 t.sent ≡ 1
  pub reads : register ata_cmd 0 t.sent ≡ 0x20
  pub result : ResultOf (status last) words buf t
