-- ===== src/Pmm/Bitmap.antt =====
-- kernel/vm.c: `bm_set`, `bm_clear` and `bm_test` on an array of bytes.
use mukern.Base.{
  ℕ, ◌≡◌, ap, sym, ◌∙◌, ◌<◌, ◌/◌, ◌%◌, ◌&&◌, ◌||◌, not, ◌==◌, update, update_ne, update_all,
  update_self, ==_ne, arith, ℕ_discrete, subst,
}
use mukern.Base.Bits.{
  bit_is_set, with_bit, without_bit, bit_is_set-with_bit, bit_is_set-without_bit, with_bit-lt,
  without_bit-lt,
}
use mukern.Pmm.{bm_set, bm_clear, bm_test}

-- Every entry of the bitmap is a byte.
abbrev pub AreBytes : (ℕ → ℕ) → Type 0
AreBytes bitmap = (i : ℕ) → bitmap i < 256

bit_below : (f : ℕ) → f % 8 < 8
bit_below f = omega arith

same_bit : (f g : ℕ) → f / 8 ≡ g / 8 → (f % 8 == g % 8) ≡ (f == g)
same_bit f g e = ground arith

-- `bm_set(f)` sets the bit of frame `f` and no other.
pub bm_test-bm_set :
    (f g : ℕ) (bitmap : ℕ → ℕ)
    → AreBytes bitmap
    → bm_test g (bm_set f bitmap) ≡ ((f == g) || bm_test g bitmap)
unfolding bm_test bm_set
bm_test-bm_set f g bitmap bytes = elim (ℕ_discrete (f / 8) (g / 8)) [
  | yes e ↦
      ap (λ b. bit_is_set (g % 8) b)
        (subst
          (λ k.
            update bitmap (f / 8) (with_bit (f % 8) (bitmap (f / 8))) k
            ≡ with_bit (f % 8) (bitmap k))
          e (update_self bitmap (f / 8) (with_bit (f % 8) (bitmap (f / 8)))))
      ∙ bit_is_set-with_bit (bitmap (g / 8)) (f % 8) (g % 8) (bytes (g / 8)) (bit_below f)
          (bit_below g)
      ∙ ap (λ b. b || bit_is_set (g % 8) (bitmap (g / 8))) (same_bit f g e)
  | no ne ↦
      ap (λ b. bit_is_set (g % 8) b)
        (update_ne bitmap (f / 8) (g / 8) (with_bit (f % 8) (bitmap (f / 8))) ne)
      ∙ ap (λ b. b || bit_is_set (g % 8) (bitmap (g / 8)))
          (sym (==_ne f g (λ e. ne (ap (λ k. k / 8) e))))
]

-- `bm_clear(f)` clears the bit of frame `f` and no other.
pub bm_test-bm_clear :
    (f g : ℕ) (bitmap : ℕ → ℕ)
    → AreBytes bitmap
    → bm_test g (bm_clear f bitmap) ≡ (not (f == g) && bm_test g bitmap)
unfolding bm_test bm_clear
bm_test-bm_clear f g bitmap bytes = elim (ℕ_discrete (f / 8) (g / 8)) [
  | yes e ↦
      ap (λ b. bit_is_set (g % 8) b)
        (subst
          (λ k.
            update bitmap (f / 8) (without_bit (f % 8) (bitmap (f / 8))) k
            ≡ without_bit (f % 8) (bitmap k))
          e (update_self bitmap (f / 8) (without_bit (f % 8) (bitmap (f / 8)))))
      ∙ bit_is_set-without_bit (bitmap (g / 8)) (f % 8) (g % 8) (bytes (g / 8)) (bit_below f)
          (bit_below g)
      ∙ ap (λ b. not b && bit_is_set (g % 8) (bitmap (g / 8))) (same_bit f g e)
  | no ne ↦
      ap (λ b. bit_is_set (g % 8) b)
        (update_ne bitmap (f / 8) (g / 8) (without_bit (f % 8) (bitmap (f / 8))) ne)
      ∙ ap (λ b. not b && bit_is_set (g % 8) (bitmap (g / 8)))
          (sym (==_ne f g (λ e. ne (ap (λ k. k / 8) e))))
]

pub bm_set-AreBytes : (f : ℕ) (bitmap : ℕ → ℕ) → AreBytes bitmap → AreBytes (bm_set f bitmap)
unfolding bm_set
bm_set-AreBytes f bitmap bytes i =
    update_all (λ k b. b < 256) bitmap (f / 8) (with_bit (f % 8) (bitmap (f / 8)))
      (with_bit-lt (bitmap (f / 8)) (f % 8) (bytes (f / 8)) (bit_below f)) i (λ ne. bytes i)

pub bm_clear-AreBytes : (f : ℕ) (bitmap : ℕ → ℕ) → AreBytes bitmap → AreBytes (bm_clear f bitmap)
unfolding bm_clear
bm_clear-AreBytes f bitmap bytes i =
    update_all (λ k b. b < 256) bitmap (f / 8) (without_bit (f % 8) (bitmap (f / 8)))
      (without_bit-lt (bitmap (f / 8)) (f % 8) (bytes (f / 8)) (bit_below f)) i (λ ne. bytes i)
