-- ===== src/Text/Hex.antt =====
-- `put_hex` of arch/x86_64/trap/trap.c: a number as sixteen hexadecimal digits on the boot console.
use native.Mathlib.Nat.{div-div-eq-div-mul, pow-suc}
use mukern.Base.{
  ℕ, zero, suc, ◌+◌, ◌-◌, ◌*◌, ◌/◌, ◌%◌, ◌^◌, ◌≡◌, ◌<◌, refl, sym, ap, ◌∙◌, List, [], ◌∷◌, ltb,
  arith, if◌then◌else◌,
}
use mukern.Text.{count}

-- an entry of the table `d`
abbrev pub hex_digit : ℕ → ℕ
hex_digit d = if ltb d 10 then 48 + d else 87 + d

-- The loop, from the digit of weight 16 ^ k down; a shift by 4 k is a division by 16 ^ k.
unfoldable pub hex_digits : ℕ → ℕ → List ℕ
hex_digits zero v = []
hex_digits (suc k) v = hex_digit (v / 16 ^ k % 16) ∷ hex_digits k v

abbrev pub put_hex : ℕ → List ℕ
put_hex v = 48 ∷ 120 ∷ hex_digits 16 v

abbrev pub hex_value : ℕ → ℕ
hex_value c = if ltb c 58 then c - 48 else c - 87

-- the number that a hexadecimal text continues, after digits that make `n`
unfoldable pub read_hex : ℕ → List ℕ → ℕ
read_hex n [] = n
read_hex n (c ∷ cs) = read_hex (n * 16 + hex_value c) cs

value-digit : (d : ℕ) → d < 16 → hex_value (hex_digit d) ≡ d
value-digit d lt = ground arith

-- The digits of weight below 16 ^ k continue those from 16 ^ k on.
read-digits : (k v n : ℕ) → v / 16 ^ k ≡ n → read_hex n (hex_digits k v) ≡ v
unfolding hex_digits read_hex
read-digits zero v n e = omega (arith, e)
read-digits (suc k) v n e =
    let q = v / 16 ^ k in
    let shifted : q / 16 ≡ n =
      div-div-eq-div-mul v (16 ^ k) 16 ∙ ap (λ m. v / m) (sym (pow-suc 16 k)) ∙ e in
    let digit : hex_value (hex_digit (q % 16)) ≡ q % 16 = value-digit (q % 16) (omega arith) in
    ap (λ d. read_hex (n * 16 + d) (hex_digits k v)) digit
    ∙ read-digits k v (n * 16 + q % 16) (omega (arith, shifted))

count-digits : (k v : ℕ) → count (hex_digits k v) ≡ k
unfolding hex_digits
count-digits zero v = refl
count-digits (suc k) v = ap suc (count-digits k v)

-- the number that a text with its 0x stands for
abbrev pub value_of : List ℕ → ℕ
value_of (z ∷ (x ∷ digits)) = read_hex 0 digits
value_of digits = 0

-- The hexadecimal text of a 64-bit number reads back as that number, and has eighteen characters.
pub put_hex_lem : (v : ℕ) → v < 2 ^ 64 → (value_of (put_hex v) ≡ v) × (count (put_hex v) ≡ 18)
put_hex_lem v lt =
    (read-digits 16 v 0 (omega (arith, lt)), ap (λ n. suc (suc n)) (count-digits 16 v))
