-- ===== src/Base/Bits.antt =====
-- The bits of a byte under `|= 1 << i` and `&= ~(1 << i)`, by evaluation over all bytes.
use Prim.Native.Nat.{ℕ, ◌-◌, ◌^◌, ◌<◌, bit_and, bit_or}
use mathlib.Core.Path.{◌≡◌, refl}
use mathlib.Core.Bool.{false, Bool, true, ◌&&◌, ◌||◌, not}
use native.Mathlib.Omega.{arith}
use mathlib.Core.Logic.{inl, inr}
unfoldable use mukern.Base.Tables.{first_from}
use mukern.Base.Tables.{first_from-none, found}
use mukern.Base.Tests.{Option-cases, ◌==◌, ltb, if◌then◌else◌}

-- The search for an exception among the numbers below a bound finds none.
abbrev holds_to : ℕ → (ℕ → Bool) → Bool
holds_to bound law = not (found (first_from (λ x. not (law x)) 0 bound))

holds_at :
    (bound : ℕ) (law : ℕ → Bool) (x : ℕ) → x < bound → holds_to bound law ≡ true → law x ≡ true
holds_at bound law x below h = elim (Option-cases (first_from (λ y. not (law y)) 0 bound)) [
  | inl clear ↦
      let lawful : not (law x) ≡ false =
        first_from-none (λ y. not (law y)) 0 bound clear x (omega arith) (omega arith) in
      ground (arith, lawful)
  | inr (y, e) ↦ cc (rw e at h)
]

abbrev same : Bool → Bool → Bool
same a b = if a then b else not b

same→ : (a b : Bool) → same a b ≡ true → a ≡ b
same→ a b h = ground arith

and_left : (a b : Bool) → (a && b) ≡ true → a ≡ true
and_left a b h = ground arith

and_right : (a b : Bool) → (a && b) ≡ true → b ≡ true
and_right a b h = ground arith

ltb→lt : (a b : ℕ) → ltb a b ≡ true → a < b
ltb→lt a b h = ground arith

-- `b & (1 << i)`, `b | (1 << i)` and `b & ~(1 << i)` of a byte
abbrev pub bit_is_set : ℕ → ℕ → Bool
bit_is_set i b = not (bit_and b (2 ^ i) == 0)

abbrev pub with_bit : ℕ → ℕ → ℕ
with_bit i b = bit_or b (2 ^ i)

abbrev pub without_bit : ℕ → ℕ → ℕ
without_bit i b = bit_and b (255 - 2 ^ i)

abbrev set_row : ℕ → ℕ → ℕ → Bool
set_row b i j =
    same (bit_is_set j (with_bit i b)) ((i == j) || bit_is_set j b) && ltb (with_bit i b) 256

abbrev clear_row : ℕ → ℕ → ℕ → Bool
clear_row b i j =
    same (bit_is_set j (without_bit i b)) (not (i == j) && bit_is_set j b)
    && ltb (without_bit i b) 256

abbrev table : (ℕ → ℕ → ℕ → Bool) → Bool
table row = holds_to 256 (λ b. holds_to 8 (λ i. holds_to 8 (λ j. row b i j)))

table_sound :
    (row : ℕ → ℕ → ℕ → Bool) (b i j : ℕ)
    → table row ≡ true
    → b < 256
    → i < 8
    → j < 8
    → row b i j ≡ true
table_sound row b i j h lb li lj = holds_at 8 (row b i) j lj (
    holds_at 8 (λ n. holds_to 8 (row b n)) i li
      (holds_at 256 (λ n. holds_to 8 (λ m. holds_to 8 (row n m))) b lb h))

set_table : table set_row ≡ true
unfolding first_from
set_table = refl

clear_table : table clear_row ≡ true
unfolding first_from
clear_table = refl

module _ (b i j : ℕ) (lb : b < 256) (li : i < 8) (lj : j < 8) where
  pub bit_is_set-with_bit : bit_is_set j (with_bit i b) ≡ ((i == j) || bit_is_set j b)
  bit_is_set-with_bit = same→ _ _ (and_left _ _ (table_sound set_row b i j set_table lb li lj))

  pub bit_is_set-without_bit : bit_is_set j (without_bit i b) ≡ (not (i == j) && bit_is_set j b)
  bit_is_set-without_bit =
      same→ _ _ (and_left _ _ (table_sound clear_row b i j clear_table lb li lj))

pub with_bit-lt : (b i : ℕ) → b < 256 → i < 8 → with_bit i b < 256
with_bit-lt b i lb li =
    ltb→lt _ _ (and_right _ _ (table_sound set_row b i 0 set_table lb li (omega arith)))

pub without_bit-lt : (b i : ℕ) → b < 256 → i < 8 → without_bit i b < 256
without_bit-lt b i lb li =
    ltb→lt _ _ (and_right _ _ (table_sound clear_row b i 0 clear_table lb li (omega arith)))

pub bit_is_set-full : (i : ℕ) → i < 8 → bit_is_set i 255 ≡ true
unfolding first_from
bit_is_set-full i li = holds_at 8 (λ j. bit_is_set j 255) i li refl
