-- ===== src/Fs/Read.antt =====
-- What `fs_read` puts into the client's buffer.
use mukern.Base.{
  ℕ, zero, suc, pos, ◌+◌, ◌-◌, ◌*◌, ◌/◌, ◌%◌, ◌^◌, ◌≡◌, ◌<◌, ◌≤◌, refl, ap, ◌∙◌, true, update,
  update_ne, update_self, leb, ◌==◌, Bool-cases, arith, inl, inr, dec_lt, ◌⊎◌, ℕ_discrete, subst,
}
use mukern.Fs.{
  BlkRead, Files, read_at, read_full, copy_rem, transfer, read_size, fs_read, is_handle,
}

-- The block driver reads the `last` sectors of `disk`: it fills the 512 bytes of a sector, and no byte
-- behind them.
pub record Reads (disk : ℕ → ℕ → ℕ) (last : ℕ) (read : BlkRead) : Type 0 where
  pub filled :
      (lba : ℕ) (buf : ℕ → ℕ) (j : ℕ) → lba < last → j < 512 → (read lba buf).1 j ≡ disk lba j
  pub behind : (lba : ℕ) (buf : ℕ → ℕ) (j : ℕ) → 512 ≤ j → (read lba buf).1 j ≡ buf j

-- The `size` bytes of the file that begins at sector `lba` lie on the disk.
abbrev pub OnDisk : ℕ → ℕ → ℕ → Type 0
OnDisk last lba size = (n : ℕ) → n * 512 < size → (lba + n) % 2 ^ 64 < last

-- byte `j` of the file that begins at sector `lba`
abbrev pub file_byte : (ℕ → ℕ → ℕ) → ℕ → ℕ → ℕ
file_byte disk lba j = disk ((lba + j / 512) % 2 ^ 64) (j % 512)

module _ (disk : ℕ → ℕ → ℕ) (last : ℕ) (read : BlkRead) (drv : Reads disk last read) where
  read_at-before : (lba at : ℕ) (buf : ℕ → ℕ) (j : ℕ) → j < at → read_at read lba at buf j ≡ buf j
  read_at-before lba at buf j lt = ground arith

  read_at-within :
      (lba at : ℕ) (buf : ℕ → ℕ) (j : ℕ)
      → lba < last
      → at ≤ j
      → j < at + 512
      → read_at read lba at buf j ≡ disk lba (j - at)
  read_at-within lba at buf j there le lt =
      let t : leb at j ≡ true = ground arith in
      rw t (drv.filled lba (λ k. buf (at + k)) (j - at) there (omega arith))

  read_at-behind :
      (lba at : ℕ) (buf : ℕ → ℕ) (j : ℕ) → at + 512 ≤ j → read_at read lba at buf j ≡ buf j
  read_at-behind lba at buf j le =
      let t : leb at j ≡ true = ground arith in
      let back : at + (j - at) ≡ j = omega arith in
      rw t (drv.behind lba (λ k. buf (at + k)) (j - at) (omega arith) ∙ ap buf back)

  read_full-before :
      (lba i k : ℕ) (buf : ℕ → ℕ) (j : ℕ) → j < i * 512 → read_full read lba i k buf j ≡ buf j
  unfolding read_full
  read_full-before lba i zero buf j lt = refl
  read_full-before lba i (suc k) buf j lt =
      read_full-before lba (suc i) k _ j (omega arith)
      ∙ read_at-before ((lba + i) % 2 ^ 64) (i * 512) buf j lt

  read_full-behind :
      (lba i k : ℕ) (buf : ℕ → ℕ) (j : ℕ) → (i + k) * 512 ≤ j → read_full read lba i k buf j ≡ buf j
  unfolding read_full
  read_full-behind lba i zero buf j le = refl
  read_full-behind lba i (suc k) buf j le =
      read_full-behind lba (suc i) k _ j (omega arith)
      ∙ read_at-behind ((lba + i) % 2 ^ 64) (i * 512) buf j (omega arith)

  read_full-within :
      (lba i k : ℕ) (buf : ℕ → ℕ) (j : ℕ)
      → ((n : ℕ) → n < i + k → (lba + n) % 2 ^ 64 < last)
      → i * 512 ≤ j
      → j < (i + k) * 512
      → read_full read lba i k buf j ≡ file_byte disk lba j
  unfolding read_full
  read_full-within lba i zero buf j there le lt = absurd (omega arith)
  read_full-within lba i (suc k) buf j there le lt = elim (dec_lt j (suc i * 512)) [
    | yes here ↦
        let sector : i ≡ j / 512 = omega arith in
        let offset : j - i * 512 ≡ j % 512 = omega arith in
        read_full-before lba (suc i) k _ j here
        ∙ read_at-within ((lba + i) % 2 ^ 64) (i * 512) buf j (there i (omega arith)) le
            (omega arith)
        ∙ ap (λ o. disk ((lba + i) % 2 ^ 64) o) offset
        ∙ ap (λ n. disk ((lba + n) % 2 ^ 64) (j % 512)) sector
    | no later ↦
        read_full-within lba (suc i) k (read_at read ((lba + i) % 2 ^ 64) (i * 512) buf) j
          (λ n lt'. there n (omega (arith, lt'))) (omega arith) (omega arith)
  ]

copy_rem-outside :
    (src : ℕ → ℕ) (at i k : ℕ) (buf : ℕ → ℕ) (j : ℕ)
    → (j < at + i) ⊎ (at + i + k ≤ j)
    → copy_rem src at i k buf j ≡ buf j
unfolding copy_rem
copy_rem-outside src at i zero buf j out = refl
copy_rem-outside src at i (suc k) buf j out =
    let next : (j < at + suc i) ⊎ (at + suc i + k ≤ j) = ground (arith, out) in
    copy_rem-outside src at (suc i) k (update buf (at + i) (src i)) j next
    ∙ update_ne buf (at + i) j (src i) (λ e. ground (arith, out, e))

copy_rem-within :
    (src : ℕ → ℕ) (at i k : ℕ) (buf : ℕ → ℕ) (j : ℕ)
    → at + i ≤ j
    → j < at + i + k
    → copy_rem src at i k buf j ≡ src (j - at)
unfolding copy_rem
copy_rem-within src at i zero buf j le lt = absurd (omega arith)
copy_rem-within src at i (suc k) buf j le lt = elim (ℕ_discrete (at + i) j) [
  | yes e ↦
      let back : i ≡ j - at = omega arith in
      copy_rem-outside src at (suc i) k (update buf (at + i) (src i)) j (inl (omega arith))
      ∙ subst (λ n. update buf (at + i) (src i) n ≡ src i) e (update_self buf (at + i) (src i))
      ∙ ap src back
  | no ne ↦
      copy_rem-within src at (suc i) k (update buf (at + i) (src i)) j (omega arith) (omega arith)
]

module _ (disk : ℕ → ℕ → ℕ) (last : ℕ) (read : BlkRead) (drv : Reads disk last read) where
  transfer_lem :
      (lba size : ℕ) (buf : ℕ → ℕ) (f : Files) (j : ℕ)
      → OnDisk last lba size
      → (j < size → (transfer read lba size buf f).1 j ≡ file_byte disk lba j)
        × (size ≤ j → (transfer read lba size buf f).1 j ≡ buf j)
  unfolding transfer
  transfer_lem lba size buf f j there =
      let full : ℕ = size / 512 in
      let body : ℕ → ℕ = read_full read lba 0 full buf in
      let tail : ℕ → ℕ = (read ((lba + full) % 2 ^ 64) f.bounce).1 in
      let whole : (n : ℕ) → n < 0 + full → (lba + n) % 2 ^ 64 < last =
        λ n lt. there n (omega (arith, lt)) in
      elim (Bool-cases (size - full * 512 == 0)) [
        | inl e ↦
            let exact : full * 512 ≡ size = ground (arith, e) in
            rw e (
              λ lt.
                  read_full-within disk last read drv lba 0 full buf j whole (omega arith)
                    (omega arith),
              λ le. read_full-behind disk last read drv lba 0 full buf j (omega arith),
            )
        | inr e ↦ rw e (
          λ lt. elim (dec_lt j (full * 512)) [
            | yes here ↦
                copy_rem-outside tail (full * 512) 0 (size - full * 512) body j (inl (omega arith))
                ∙ read_full-within disk last read drv lba 0 full buf j whole (omega arith)
                    (omega arith)
            | no later ↦
                let sector : full ≡ j / 512 = omega arith in
                let offset : j - full * 512 ≡ j % 512 = omega arith in
                copy_rem-within tail (full * 512) 0 (size - full * 512) body j (omega arith)
                  (omega arith)
                ∙ drv.filled ((lba + full) % 2 ^ 64) f.bounce (j - full * 512)
                    (there full (omega (arith, lt))) (omega arith)
                ∙ ap (λ o. disk ((lba + full) % 2 ^ 64) o) offset
                ∙ ap (λ n. disk ((lba + n) % 2 ^ 64) (j % 512)) sector
          ],
          λ le.
              copy_rem-outside tail (full * 512) 0 (size - full * 512) body j (inr (omega arith))
              ∙ read_full-behind disk last read drv lba 0 full buf j (omega arith),
        )
      ]

  transfer-ftab :
      (lba size : ℕ) (buf : ℕ → ℕ) (f : Files) (i : ℕ)
      → (transfer read lba size buf f).0.ftab i ≡ f.ftab i
  unfolding transfer
  transfer-ftab lba size buf f i = elim (Bool-cases (size - size / 512 * 512 == 0)) [
    | inl e ↦ rw e refl
    | inr e ↦ rw e refl
  ]

  -- A read through an open handle of a file that lies on the disk returns the size of the file, cut to `max`; so many bytes of the
  -- buffer become those of the file, and no byte behind them changes, whatever the file's size.
  pub fs_read_lem :
      (h : ℕ) (buf : ℕ → ℕ) (max : ℕ) (f : Files)
      → is_handle (pos h) f ≡ true
      → OnDisk last (f.ftab h).data_lba (read_size (f.ftab h).size max)
      → let (g, out, n) = fs_read read (pos h) buf max f in
        let size = read_size (f.ftab h).size max in
        (n ≡ pos size)
        × ((j : ℕ) → j < size → out j ≡ file_byte disk (f.ftab h).data_lba j)
        × ((j : ℕ) → size ≤ j → out j ≡ buf j)
        × ((i : ℕ) → g.ftab i ≡ f.ftab i)
  unfolding fs_read
  fs_read_lem h buf max f opened there =
      let size : ℕ = read_size (f.ftab h).size max in
      rw opened (
        refl,
        λ j. (transfer_lem (f.ftab h).data_lba size buf f j there).0,
        λ j. (transfer_lem (f.ftab h).data_lba size buf f j there).1,
        λ i. transfer-ftab (f.ftab h).data_lba size buf f i,
      )
