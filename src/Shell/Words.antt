-- ===== src/Shell/Words.antt =====
-- servers/shell/main.c: the word and the arguments of a line.
use mukern.Base.{
  ℕ, ◌+◌, ◌≡◌, ◌<◌, ◌⊎◌, ◌↔◌, inl, inr, refl, sym, ap, ◌∙◌, true, false, some, List, first_from,
  first_from-some, first_from-IsFirst, IsFirst, update_self, update_ne, ◌==◌, ==_iff, Bool-cases,
  ℕ_discrete, dec_lt, false≢true, arith,
}
use mukern.Fs.Walk.{SameText, name_eq_lem}
use mukern.Shell.{line_size, ends_word, cut_at, split, streq, text}

-- The line `l` is `line` with a NUL behind its first word, which is `k` bytes long, and the
-- arguments begin at `args`: behind the space, or at the NUL of a line of one word.
pub record IsSplit (line : ℕ → ℕ) (k : ℕ) (l : ℕ → ℕ) (args : ℕ) : Type 0 where
  pub word_as : (j : ℕ) → j < k → l j ≡ line j
  pub word_end : l k ≡ 0
  pub rest_as : (j : ℕ) → k < j → l j ≡ line j
  pub args_at : ((line k ≡ 32) × (args ≡ k + 1)) ⊎ ((line k ≡ 0) × (args ≡ k))

cut_at-IsSplit :
    (line : ℕ → ℕ) (k : ℕ)
    → ends_word (line k) ≡ true
    → IsSplit line k (cut_at line k).0 (cut_at line k).1
cut_at-IsSplit line k e = elim (Bool-cases (line k == 32)) [
  | inl space ↦ rw space (record {
    word_as = λ j lt. update_ne line k j 0 (omega (arith, lt));
    word_end = update_self line k 0;
    rest_as = λ j lt. update_ne line k j 0 (omega (arith, lt));
    args_at = inl ((==_iff (line k) 32).0 space, refl);
  })
  | inr other ↦ rw other (record {
    word_as = λ j lt. refl;
    word_end = ground (arith, e, other);
    rest_as = λ j lt. refl;
    args_at = inr (ground (arith, e, other), refl);
  })
]

-- the word ends at `k` and not before
abbrev pub IsWord : (ℕ → ℕ) → ℕ → Type 0
IsWord line k = ((j : ℕ) → j < k → ends_word (line j) ≡ false) × (ends_word (line k) ≡ true)

word_found :
    (line : ℕ → ℕ) (k : ℕ)
    → k < line_size
    → IsWord line k
    → first_from (λ i. ends_word (line i)) 0 line_size ≡ some k
word_found line k lt (before, here) =
    let (i, e) =
      first_from-some (λ j. ends_word (line j)) 0 line_size k (omega arith) (omega (arith, lt))
        here in
    let first : IsFirst (λ j. ends_word (line j)) 0 line_size i =
      first_from-IsFirst _ 0 line_size e in
    elim (ℕ_discrete i k) [
      | yes same ↦ e ∙ ap some same
      | no ne ↦ elim (dec_lt i k) [
        | yes early ↦ absurd (false≢true (sym (before i early) ∙ first.passes))
        | no late ↦
            absurd
              (false≢true (sym (first.earlier k (omega arith) (omega (arith, ne, late))) ∙ here))
      ]
    ]

-- A line whose first word ends at `k`, within the buffer, is split there: the word gets its NUL, the
-- rest of the line stays, and the arguments begin behind the space. `streq` then tells whether the
-- word is the text it is compared with.
pub split_lem :
    (line : ℕ → ℕ) (k : ℕ)
    → k < line_size
    → IsWord line k
    → (l : ℕ → ℕ) × (args : ℕ) × (split line ≡ some (l, args))
      × IsSplit line k l args
      × ((w : List ℕ) → (streq l (text w) ≡ true) ↔ SameText 0 l (text w))
unfolding split
split_lem line k lt word =
    let e = word_found line k lt word in
    let ok : IsSplit line k (cut_at line k).0 (cut_at line k).1 = cut_at-IsSplit line k word.1 in
    (
      (cut_at line k).0,
      (cut_at line k).1,
      rw (e, split) refl,
      ok,
      λ w.
          name_eq_lem 0 line_size (cut_at line k).0 (text w) k (omega arith) (omega (arith, lt))
            ok.word_end,
    )
