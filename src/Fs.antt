-- ===== src/Fs.antt =====
-- servers/fs_server/main.c: the open files, and the operations on a USTAR archive that the server
-- reads through the block driver. The driver is another process: `BlkRead` is the call `blk_read`
-- as a function of the sector and of the buffer, whose result is true for a return of 0. A buffer
-- is a function of the offset from its start.

pub mod Read
pub mod Walk
pub mod Listing
pub mod Find
pub mod Messages
pub mod Session
use mukern.Base.{
  ℕ, ℤ, zero, suc, pos, minus_one, ◌+◌, ◌-◌, ◌*◌, ◌/◌, ◌%◌, ◌^◌, Bool, true, false, Option, some,
  none, update, first_from, ltb, leb, ◌==◌, ◌&&◌, ◌||◌, not, if◌then◌else◌,
}

abbrev pub BlkRead : Type 0
BlkRead = ℕ → (ℕ → ℕ) → Bool × (ℕ → ℕ)

-- `struct fent`
pub record Fent : Type 0 where
  pub data_lba : ℕ
  pub size : ℕ
  pub used : Bool

-- the statics `ftab`, `hdr` and `bounce`
pub record Files : Type 0 where
  pub ftab : ℕ → Fent
  pub hdr : ℕ → ℕ
  pub bounce : ℕ → ℕ

abbrev pub is_octal : ℕ → Bool
is_octal c = leb 48 c && leb c 55

-- the loop of `parse_octal` from `p[i]` on, with the value `v` so far
unfoldable pub parse_octal : (ℕ → ℕ) → ℕ → ℕ → ℕ → ℕ
parse_octal p i zero v = v
parse_octal p i (suc rounds) v =
    let rest = parse_octal p (suc i) rounds ((v * 8 + (p i - 48)) % 2 ^ 64) in
    if is_octal (p i) then rest else v

-- `name_eq(a + i, b + i)`, on fuel: see `name_eq_lem`
unfoldable pub name_eq : ℕ → ℕ → (ℕ → ℕ) → (ℕ → ℕ) → Bool
name_eq i zero a b = a i == b i
name_eq i (suc fuel) a b =
    let rest = name_eq (suc i) fuel a b in
    if not (a i == 0) && (a i == b i) then rest else a i == b i

-- the size in a header, and the sector after the file
abbrev pub entry_size : (ℕ → ℕ) → ℕ
entry_size hdr = parse_octal hdr 124 12 0

abbrev pub next_lba : ℕ → ℕ → ℕ
next_lba lba size = (lba + 1 + (size + 511) % 2 ^ 64 / 512) % 2 ^ 64

-- the handle that `fs_open` takes, or -1 if all eight are in use
unfoldable pub take_handle : ℕ → ℕ → Files → Files × ℤ
take_handle lba size f = elim (first_from (λ i. not (f.ftab i).used) 0 8) [
  | some i ↦ (
    record f {
      ftab = update f.ftab i (record { data_lba = (lba + 1) % 2 ^ 64; size = size; used = true });
    },
    pos i,
  )
  | none ↦ (f, minus_one)
]

-- The walk over the headers, on fuel; `none` is a walk that goes on. A name of a header ends within
-- the 512 bytes of the sector.
unfoldable pub fs_open_from : ℕ → BlkRead → (ℕ → ℕ) → ℕ → Files → Option (Files × ℤ)
fs_open_from zero read path lba f = none
fs_open_from (suc fuel) read path lba f =
    let (ok, h) = read lba f.hdr in
    let g = record f { hdr = h } in
    let size = entry_size h in
    let rest = fs_open_from fuel read path (next_lba lba size) g in
    if not ok || (h 0 == 0)
    then some (g, minus_one)
    else (if name_eq 0 512 h path then some (take_handle lba size g) else rest)

-- `blk_read(lba, buf + at)`
abbrev pub read_at : BlkRead → ℕ → ℕ → (ℕ → ℕ) → ℕ → ℕ
read_at read lba at buf j = if leb at j then (read lba (λ k. buf (at + k))).1 (j - at) else buf j

-- the loop over the full sectors of a file
unfoldable pub read_full : BlkRead → ℕ → ℕ → ℕ → (ℕ → ℕ) → ℕ → ℕ
read_full read lba i zero buf = buf
read_full read lba i (suc rounds) buf =
    read_full read lba (suc i) rounds (read_at read ((lba + i) % 2 ^ 64) (i * 512) buf)

-- `for (j = j0; j < j0 + rounds; j++) buf[at + j] = bounce[j];`
unfoldable pub copy_rem : (ℕ → ℕ) → ℕ → ℕ → ℕ → (ℕ → ℕ) → ℕ → ℕ
copy_rem bounce at j zero buf = buf
copy_rem bounce at j (suc rounds) buf =
    copy_rem bounce at (suc j) rounds (update buf (at + j) (bounce j))

abbrev pub is_handle : ℤ → Files → Bool
is_handle (pos h) f = ltb h 8 && (f.ftab h).used
is_handle h f = false

-- the transfer of `size` bytes of the file that begins at sector `lba`
unfoldable pub transfer : BlkRead → ℕ → ℕ → (ℕ → ℕ) → Files → Files × (ℕ → ℕ)
transfer read lba size buf f =
    let full = size / 512 in
    let rem = size - full * 512 in
    let body = read_full read lba 0 full buf in
    if rem == 0
    then (f, body)
    else let last = (read ((lba + full) % 2 ^ 64) f.bounce).1 in
      (record f { bounce = last }, copy_rem last (full * 512) 0 rem body)

-- the number of bytes that `fs_read` transfers
abbrev pub read_size : ℕ → ℕ → ℕ
read_size size max = if ltb max size then max else size

unfoldable pub fs_read : BlkRead → ℤ → (ℕ → ℕ) → ℕ → Files → Files × (ℕ → ℕ) × ℤ
fs_read read (pos h) buf max f =
    let size = read_size (f.ftab h).size max in
    let (g, out) = transfer read (f.ftab h).data_lba size buf f in
    if is_handle (pos h) f then (g, out, pos size) else (f, buf, minus_one)
fs_read read h buf max f = (f, buf, minus_one)

-- MSG_CLOSE
unfoldable pub fs_close : ℤ → Files → Files
fs_close (pos h) f =
    if ltb h 8 then record f { ftab = update f.ftab h (record (f.ftab h) { used = false }) } else f
fs_close h f = f
