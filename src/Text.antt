-- ===== src/Text.antt =====
-- `put_dec` of arch/x86_64/trap/trap.c: a number as decimal text on the boot console.
pub mod Hex
use mukern.Base.{
  ℕ, zero, suc, ◌+◌, ◌-◌, ◌*◌, ◌/◌, ◌%◌, ◌^◌, ◌≡◌, ◌<◌, ◌≤◌, ap, ◌∙◌, List, [], ◌∷◌, ◌==◌, ==_iff,
  arith, if◌then◌else◌, Bool-cases, inl, inr, sym,
}

-- The two loops: the digits are found from the last one on, and printed from the first one on.
-- `text` is what stands in the buffer behind the digits to come, as it will be printed.
unfoldable pub dec_digits : ℕ → ℕ → List ℕ → List ℕ
dec_digits zero v text = text
dec_digits (suc fuel) v text =
    let rest = dec_digits fuel (v / 10) ((48 + v % 10) ∷ text) in if v == 0 then text else rest

-- The buffer has 21 places.
unfoldable pub put_dec : ℕ → List ℕ
put_dec v = if v == 0 then 48 ∷ [] else dec_digits 21 v []

-- the number that a decimal text continues, after digits that make `n`
unfoldable pub read_dec : ℕ → List ℕ → ℕ
read_dec n [] = n
read_dec n (c ∷ cs) = read_dec (n * 10 + (c - 48)) cs

abbrev pub count : List ℕ → ℕ
count [] = 0
count (c ∷ cs) = suc (count cs)

read-digits :
    (fuel v : ℕ) (text : List ℕ)
    → v < 10 ^ fuel
    → read_dec 0 (dec_digits fuel v text) ≡ read_dec v text
unfolding dec_digits read_dec
read-digits zero v text lt = let z : v ≡ 0 = omega arith in ap (λ n. read_dec n text) (sym z)
read-digits (suc fuel) v text lt = elim (Bool-cases (v == 0)) [
  | inl e ↦ rw e (ap (λ n. read_dec n text) (sym ((==_iff v 0).0 e)))
  | inr e ↦
      let whole : v / 10 * 10 + (48 + v % 10 - 48) ≡ v = omega arith in
      rw e (
        read-digits fuel (v / 10) ((48 + v % 10) ∷ text) (omega (arith, lt))
        ∙ ap (λ n. read_dec n text) whole)
]

count-digits :
    (fuel k v : ℕ) (text : List ℕ) → v < 10 ^ k → count (dec_digits fuel v text) ≤ k + count text
unfolding dec_digits
count-digits zero k v text lt = omega arith
count-digits (suc fuel) zero v text lt = let z : v ≡ 0 = omega arith in rw z (omega arith)
count-digits (suc fuel) (suc k) v text lt = elim (Bool-cases (v == 0)) [
  | inl e ↦ rw e (omega arith)
  | inr e ↦
      rw e (omega (arith, count-digits fuel k (v / 10) ((48 + v % 10) ∷ text) (omega (arith, lt))))
]

-- The text of a 64-bit number reads back as that number, and has at most 20 characters, so that
-- it fits the buffer.
pub put_dec_lem : (v : ℕ) → v < 2 ^ 64 → (read_dec 0 (put_dec v) ≡ v) × (count (put_dec v) ≤ 20)
unfolding put_dec read_dec
put_dec_lem v lt = elim (Bool-cases (v == 0)) [
  | inl e ↦ rw e (sym ((==_iff v 0).0 e), omega arith)
  | inr e ↦ rw e (
    read-digits 21 v [] (omega (arith, lt)),
    omega (arith, count-digits 21 20 v [] (omega (arith, lt))),
  )
]
