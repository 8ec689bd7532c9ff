-- ===== src/Fs/Walk.antt =====
-- servers/fs_server/main.c: the comparison of names, and how far the walk over the headers goes.
use mukern.Base.{
  ℕ, zero, suc, ◌+◌, ◌-◌, ◌*◌, ◌^◌, ◌≡◌, ◌≢◌, ◌<◌, ◌≤◌, ◌↔◌, sym, ap, ◌∙◌, Bool, true, false, ◌==◌,
  ==_iff, ◌||◌, not, Bool-cases, arith, inl, inr, dec_lt, subst, false≢true, ℕ_discrete, ==_ne,
}
use mukern.Fs.{BlkRead, parse_octal, is_octal, name_eq, next_lba, entry_size}

-- The texts at `i` of `a` and `b` are the same, up to and with the NUL that ends that of `a`.
abbrev pub SameText : ℕ → (ℕ → ℕ) → (ℕ → ℕ) → Type 0
SameText i a b = (j : ℕ) → i ≤ j → ((m : ℕ) → i ≤ m → m < j → a m ≢ 0) → a j ≡ b j

same_head : (i : ℕ) (a b : ℕ → ℕ) → SameText i a b → a i ≡ b i
same_head i a b h = h i (omega arith) (λ m le lt. absurd (omega (arith, le, lt)))

same_last : (i : ℕ) (a b : ℕ → ℕ) → a i ≡ 0 → a i ≡ b i → SameText i a b
same_last i a b z e j le long = elim (ℕ_discrete i j) [
  | yes at ↦ subst (λ k. a k ≡ b k) at e
  | no past ↦ absurd (long i (omega arith) (omega (arith, le, past)) z)
]

same_more : (i : ℕ) (a b : ℕ → ℕ) → a i ≡ b i → SameText (suc i) a b → SameText i a b
same_more i a b e rest j le long = elim (ℕ_discrete i j) [
  | yes at ↦ subst (λ k. a k ≡ b k) at e
  | no past ↦ rest j (omega (arith, le, past)) (λ m ge lt. long m (omega (arith, ge)) lt)
]

same_rest : (i : ℕ) (a b : ℕ → ℕ) → a i ≢ 0 → SameText i a b → SameText (suc i) a b
same_rest i a b nz h j le long = h j (omega (arith, le)) (λ m ge lt. elim (ℕ_discrete i m) [
  | yes at ↦ subst (λ k. a k ≢ 0) at nz
  | no past ↦ long m (omega (arith, ge, past)) lt
])

further : (i k : ℕ) (a : ℕ → ℕ) → a i ≢ 0 → a k ≡ 0 → i ≤ k → suc i ≤ k
further i k a nz z le = elim (ℕ_discrete i k) [
  | yes e ↦ absurd (nz (ap a e ∙ z))
  | no ne ↦ omega arith
]

-- If the text at `i` of `a` ends within `fuel` bytes, the comparison is true just for the same
-- text in `b`.
pub name_eq_lem :
    (i fuel : ℕ) (a b : ℕ → ℕ) (k : ℕ)
    → i ≤ k
    → k ≤ i + fuel
    → a k ≡ 0
    → (name_eq i fuel a b ≡ true) ↔ SameText i a b
unfolding name_eq
name_eq_lem i zero a b k le lt z =
    let at : k ≡ i = omega arith in
    let end : a i ≡ 0 = sym (ap a at) ∙ z in
    (
      λ h. same_last i a b end ((==_iff (a i) (b i)).0 h),
      λ h. (==_iff (a i) (b i)).1 (same_head i a b h),
    )
name_eq_lem i (suc fuel) a b k le lt z = elim (ℕ_discrete (a i) 0) [
  | yes end ↦
      let stop : (a i == 0) ≡ true = (==_iff (a i) 0).1 end in
      rw stop (
        λ h. same_last i a b end ((==_iff (a i) (b i)).0 h),
        λ h. (==_iff (a i) (b i)).1 (same_head i a b h),
      )
  | no nz ↦
      let far : suc i ≤ k = further i k a nz z le in
      let (there, back) = name_eq_lem (suc i) fuel a b k far (omega arith) z in
      elim (ℕ_discrete (a i) (b i)) [
        | yes e ↦
            let same : (a i == b i) ≡ true = (==_iff (a i) (b i)).1 e in
            rw (==_ne (a i) 0 nz, same)
              (λ h. same_more i a b e (there h), λ h. back (same_rest i a b nz h))
        | no ne ↦
            rw (==_ne (a i) 0 nz, ==_ne (a i) (b i) ne)
              (λ h. absurd (false≢true h), λ h. absurd (ne (same_head i a b h)))
      ]
]

-- the largest number that `n` digits more can make of `v`
abbrev top : ℕ → ℕ → ℕ
top zero v = v
top (suc n) v = top n (v * 8 + 7)

top_le : (n v : ℕ) → v ≤ top n v
top_le zero v = omega arith
top_le (suc n) v = omega (arith, top_le n (v * 8 + 7))

parse_octal_le : (p : ℕ → ℕ) (i n v m : ℕ) → v ≤ m → parse_octal p i n v ≤ top n m
unfolding parse_octal
parse_octal_le p i zero v m le = le
parse_octal_le p i (suc n) v m le = elim (Bool-cases (is_octal (p i))) [
  | inl e ↦
      let digit : p i - 48 ≤ 7 = ground (arith, e) in
      rw e (parse_octal_le p (suc i) n _ (m * 8 + 7) (omega arith))
  | inr e ↦ rw e (omega (arith, top_le n (m * 8 + 7)))
]

pub entry_size-lt : (h : ℕ → ℕ) → entry_size h < 2 ^ 36
entry_size-lt h = omega (arith, parse_octal_le h 124 12 0 0 (omega arith))

-- The walk moves on.
pub next_lba-gt : (lba : ℕ) (h : ℕ → ℕ) → lba < 2 ^ 63 → lba < next_lba lba (entry_size h)
next_lba-gt lba h lt = omega (arith, entry_size-lt h)

-- It does so by less than 2^28 sectors in all.
pub next_lba-lt : (lba : ℕ) (h : ℕ → ℕ) → lba < 2 ^ 26 → next_lba lba (entry_size h) < 2 ^ 28
next_lba-lt lba h lt = omega (arith, entry_size-lt h)

-- The walk has not come to the end while the block driver reads.
pub before_end :
    (read : BlkRead) (last : ℕ)
    → ((lba : ℕ) (buf : ℕ → ℕ) → last ≤ lba → lba < 2 ^ 28 → (read lba buf).0 ≡ false)
    → (lba : ℕ) (buf : ℕ → ℕ) (b : Bool) → lba < 2 ^ 28
    → (not (read lba buf).0 || b) ≡ false
    → lba < last
before_end read last eof lba buf b low go = elim (dec_lt lba last) [
  | yes lt ↦ lt
  | no ge ↦ cc (rw (eof lba buf (omega arith) low) at go)
]
