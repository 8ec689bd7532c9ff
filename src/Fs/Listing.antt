-- ===== src/Fs/Listing.antt =====
-- servers/fs_server/main.c: `fs_list`, which writes the names of the archive into a buffer.
use mukern.Base.{
  ℕ, zero, suc, ◌+◌, ◌%◌, ◌^◌, ◌≡◌, ◌<◌, ◌≤◌, false, Option, some, none, update, ltb, ◌==◌, ◌&&◌,
  ◌||◌, not, if◌then◌else◌,
}
use mukern.Fs.{BlkRead, Files, next_lba, entry_size}

-- a buffer and the number `out` of bytes in it
abbrev pub Listing : Type 0
Listing = (ℕ → ℕ) × ℕ

-- `for (; name[i] && out + 2 < max; i++) buf[out++] = name[i];`, on fuel for the length of the name
unfoldable pub list_name : (ℕ → ℕ) → ℕ → ℕ → ℕ → Listing → Listing
list_name name max i zero l = l
list_name name max i (suc fuel) (buf, out) =
    let rest = list_name name max (suc i) fuel (update buf out (name i), out + 1) in
    if not (name i == 0) && ltb ((out + 2) % 2 ^ 64) max then rest else (buf, out)

-- `if (out + 1 < max) buf[out++] = '\n';`
unfoldable pub list_newline : ℕ → Listing → Listing
list_newline max (buf, out) =
    if ltb ((out + 1) % 2 ^ 64) max then (update buf out 10, out + 1) else (buf, out)

-- The walk of `fs_list`, on fuel, and the final 0; `none` is a walk that goes on.
unfoldable pub fs_list_from : ℕ → BlkRead → ℕ → ℕ → Listing → Files → Option (Files × Listing)
fs_list_from zero read max lba l f = none
fs_list_from (suc fuel) read max lba (buf, out) f =
    let (ok, h) = read lba f.hdr in
    let g = record f { hdr = h } in
    let rest =
      fs_list_from fuel read max (next_lba lba (entry_size h))
        (list_newline max (list_name h max 0 512 (buf, out))) g in
    if not ok || (h 0 == 0) then some (g, (update buf out 0, out)) else rest

-- The text in the buffer leaves room for the final 0, and the bytes from `max` on are those of `b`.
pub record Kept (max : ℕ) (b : ℕ → ℕ) (l : Listing) : Type 0 where
  pub fits : l.1 < max
  pub outside : (j : ℕ) → max ≤ j → l.0 j ≡ b j

module _ (max : ℕ) (b : ℕ → ℕ) (small : max ≤ 2 ^ 63) where
  module _ (read : BlkRead) (last : ℕ) (disk_small : last ≤ 2 ^ 26)
      (eof : (lba : ℕ) (buf : ℕ → ℕ) → last ≤ lba → lba < 2 ^ 28 → (read lba buf).0 ≡ false) where
    -- The walk ends, with a text shorter than `max` that a 0 follows.
    abbrev pub Listed : ℕ → ℕ → Listing → Files → Type 0
    Listed fuel lba l f =
        (g : Files) × (m : Listing) × (fs_list_from fuel read max lba l f ≡ some (g, m))
        × Kept max b m
        × (m.0 m.1 ≡ 0)
