-- ===== src/Fs/Find.antt =====
-- servers/fs_server/main.c: which entry of the archive `fs_open` takes.
use mukern.Base.{
  ℕ, zero, suc, minus_one, ◌+◌, ◌-◌, ◌*◌, ◌%◌, ◌^◌, ◌≡◌, ◌≢◌, ◌<◌, ◌≤◌, ◌⊎◌, ◌↔◌, refl, sym, ◌∙◌,
  true, false, some, ltb, ◌==◌, ==_iff, ==_ne, Bool-cases, arith, inl, inr, dec_lt, false≢true,
  ℕ_discrete,
}
use mukern.Fs.{
  BlkRead, Files, parse_octal, name_eq, next_lba, entry_size, take_handle, fs_open_from,
}
use mukern.Fs.Read.{Reads}
use mukern.Fs.Walk.{SameText, name_eq_lem, next_lba-gt, next_lba-lt}

-- The sector `lba` holds a header: it is on the disk, and does not begin with 0.
pub record IsHeader (disk : ℕ → ℕ → ℕ) (last lba : ℕ) : Type 0 where
  pub on_disk : lba < last
  pub begins : disk lba 0 ≢ 0

-- The sectors that a walk from header to header comes to.
pub data Walked (disk : ℕ → ℕ → ℕ) (last : ℕ) : ℕ → Type 0 where
  first : Walked disk last 0
  next :
      {lba : ℕ}
      → Walked disk last lba
      → IsHeader disk last lba
      → Walked disk last (next_lba lba (entry_size (disk lba)))

-- An archive of `last` sectors, 2^26 at most: the block driver reads them, and fails on the other
-- numbers of 28 bits; and the name of each header that the walk comes to ends in its sector.
pub record Archive (disk : ℕ → ℕ → ℕ) (last : ℕ) (read : BlkRead) : Type 0 where
  pub reads : Reads disk last read
  pub there : (lba : ℕ) (buf : ℕ → ℕ) → lba < 2 ^ 28 → (read lba buf).0 ≡ ltb lba last
  pub size : last ≤ 2 ^ 26
  pub named :
      (lba : ℕ)
      → Walked disk last lba
      → IsHeader disk last lba
      → (k : ℕ) × (k < 512) × (disk lba k ≡ 0)

-- The walk stays in numbers of 28 bits.
Walked-lt :
    (disk : ℕ → ℕ → ℕ) (last : ℕ) {lba : ℕ} → last ≤ 2 ^ 26 → Walked disk last lba → lba < 2 ^ 28
Walked-lt disk last small first = omega arith
Walked-lt disk last small (next {lba} before header) =
    next_lba-lt lba (disk lba) (omega (arith, header.on_disk, small))

-- From the header in `lba` on, the first entry with the name `path` has its header in `at`.
pub data Found (disk : ℕ → ℕ → ℕ) (last : ℕ) (path : ℕ → ℕ) : ℕ → ℕ → Type 0 where
  hit :
      {lba : ℕ} → IsHeader disk last lba → SameText 0 (disk lba) path → Found disk last path lba lba
  skip :
      {lba at : ℕ}
      → IsHeader disk last lba
      → ¬ SameText 0 (disk lba) path
      → Found disk last path (next_lba lba (entry_size (disk lba))) at
      → Found disk last path lba at

-- From `lba` on, the archive ends without an entry of that name.
pub data Missing (disk : ℕ → ℕ → ℕ) (last : ℕ) (path : ℕ → ℕ) : ℕ → Type 0 where
  end_of_disk : {lba : ℕ} → last ≤ lba → Missing disk last path lba
  end_of_archive : {lba : ℕ} → disk lba 0 ≡ 0 → Missing disk last path lba
  skip_missing :
      {lba : ℕ}
      → IsHeader disk last lba
      → ¬ SameText 0 (disk lba) path
      → Missing disk last path (next_lba lba (entry_size (disk lba)))
      → Missing disk last path lba

parse_octal_same :
    (p q : ℕ → ℕ) (i n v : ℕ)
    → ((j : ℕ) → j < i + n → p j ≡ q j)
    → parse_octal p i n v ≡ parse_octal q i n v
unfolding parse_octal
parse_octal_same p q i zero v h = refl
parse_octal_same p q i (suc n) v h =
    rw
      (
        h i (omega arith),
        parse_octal_same p q (suc i) n ((v * 8 + (q i - 48)) % 2 ^ 64) (λ j lt. h j (omega arith)),
      )
      refl

entry_size_same : (p q : ℕ → ℕ) → ((j : ℕ) → j < 512 → p j ≡ q j) → entry_size p ≡ entry_size q
entry_size_same p q h = parse_octal_same p q 124 12 0 (λ j lt. h j (omega arith))

-- Two buffers that agree on a sector hold the same name.
SameText-sector :
    (a b path : ℕ → ℕ) (k : ℕ)
    → k < 512
    → b k ≡ 0
    → ((j : ℕ) → j < 512 → a j ≡ b j)
    → SameText 0 a path
    → SameText 0 b path
SameText-sector a b path k lt z same h j le long = elim (dec_lt k j) [
  | yes past ↦ absurd (long k (omega arith) past z)
  | no within ↦
      sym (same j (omega arith))
      ∙ h j le (λ m lo hi e. long m lo hi (sym (same m (omega arith)) ∙ e))
]

-- What the walk from `lba` comes to: the entry of that name, or the end.
abbrev pub Opened : (ℕ → ℕ → ℕ) → ℕ → BlkRead → (ℕ → ℕ) → ℕ → ℕ → Files → Type 0
Opened disk last read path fuel lba f =
    ((at : ℕ) × (h : ℕ → ℕ) × Found disk last path lba at
      × (fs_open_from fuel read path lba f
          ≡ some (take_handle at (entry_size (disk at)) (record f { hdr = h }))))
    ⊎ ((h : ℕ → ℕ) × Missing disk last path lba
        × (fs_open_from fuel read path lba f ≡ some (record f { hdr = h }, minus_one)))

module _ (disk : ℕ → ℕ → ℕ) (last : ℕ) (read : BlkRead) (archive : Archive disk last read)
    (path : ℕ → ℕ) where
  sector :
      (lba : ℕ) (buf : ℕ → ℕ) → lba < last → (j : ℕ) → j < 512 → (read lba buf).1 j ≡ disk lba j
  sector lba buf there j lt = archive.reads.filled lba buf j there lt

  named_path :
      (lba : ℕ) (buf : ℕ → ℕ)
      → Walked disk last lba
      → IsHeader disk last lba
      → (name_eq 0 512 (read lba buf).1 path ≡ true) ↔ SameText 0 (disk lba) path
  named_path lba buf walked header =
      let there = header.on_disk in
      let (k, lt, z) = archive.named lba walked header in
      let z' : (read lba buf).1 k ≡ 0 = sector lba buf there k lt ∙ z in
      let (same_as, back) =
        name_eq_lem 0 512 (read lba buf).1 path k (omega arith) (omega arith) z' in
      (
        λ e.
            SameText-sector (read lba buf).1 (disk lba) path k lt z (sector lba buf there)
              (same_as e),
        λ t. back (
            SameText-sector (disk lba) (read lba buf).1 path k lt z'
              (λ j l. sym (sector lba buf there j l)) t),
      )

  -- One round of the walk, with what the later rounds come to if the entry is another one.
  find_round :
      (fuel lba : ℕ) (f : Files)
      → Walked disk last lba
      → (IsHeader disk last lba
          → Opened disk last read path fuel
              (next_lba lba (entry_size (disk lba)))
              (record f { hdr = (read lba f.hdr).1 }))
      → Opened disk last read path (suc fuel) lba f
  unfolding fs_open_from
  find_round fuel lba f walked later =
      let low : lba < 2 ^ 28 = Walked-lt disk last archive.size walked in
      let h : ℕ → ℕ = (read lba f.hdr).1 in
      elim (dec_lt lba last) [
        | no past ↦
            let fails : (read lba f.hdr).0 ≡ false = archive.there lba f.hdr low ∙ ground arith in
            inr (h, end_of_disk (omega arith), rw (fails, fs_open_from) refl)
        | yes lt ↦
            let size : entry_size h ≡ entry_size (disk lba) =
              entry_size_same h (disk lba) (sector lba f.hdr lt) in
            let reads : (read lba f.hdr).0 ≡ true = archive.there lba f.hdr low ∙ ground arith in
            let first : h 0 ≡ disk lba 0 = sector lba f.hdr lt 0 (omega arith) in
            elim (ℕ_discrete (disk lba 0) 0) [
              | yes z ↦
                  let stop : (h 0 == 0) ≡ true = (==_iff (h 0) 0).1 (first ∙ z) in
                  inr (h, end_of_archive z, rw (reads, stop, fs_open_from) refl)
              | no nz ↦
                  let go : (h 0 == 0) ≡ false = ==_ne (h 0) 0 (λ e. nz (sym first ∙ e)) in
                  let header : IsHeader disk last lba = record { on_disk = lt; begins = nz } in
                  elim (Bool-cases (name_eq 0 512 h path)) [
                    | inl same ↦ inl (
                      lba,
                      h,
                      hit header ((named_path lba f.hdr walked header).0 same),
                      rw (reads, go, same, size, fs_open_from) refl,
                    )
                    | inr other ↦
                        let differs : ¬ SameText 0 (disk lba) path =
                          λ t. false≢true (sym other ∙ (named_path lba f.hdr walked header).1 t) in
                        elim (later header) [
                          | inl (at, h', found, e) ↦ inl (
                            at,
                            h',
                            skip header differs found,
                            rw (reads, go, other, size, fs_open_from) e,
                          )
                          | inr (h', missing, e) ↦ inr (
                            h',
                            skip_missing header differs missing,
                            rw (reads, go, other, size, fs_open_from) e,
                          )
                        ]
                  ]
            ]
      ]

  pub fs_open_from-Opened :
      (fuel lba : ℕ) (f : Files)
      → Walked disk last lba
      → last ≤ lba + fuel
      → Opened disk last read path (suc fuel) lba f
  fs_open_from-Opened zero lba f walked enough =
      find_round zero lba f walked (λ header. absurd (omega (arith, header.on_disk, enough)))
  fs_open_from-Opened (suc n) lba f walked enough = find_round (suc n) lba f walked (λ header.
      fs_open_from-Opened n (next_lba lba (entry_size (disk lba)))
        (record f { hdr = (read lba f.hdr).1 }) (next walked header)
        (omega (
          arith,
          next_lba-gt lba (disk lba) (omega (arith, header.on_disk, archive.size)),
          enough,
        )))
