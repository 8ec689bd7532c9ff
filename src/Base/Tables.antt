-- ===== src/Base/Tables.antt =====
-- Arrays as functions of the index, and the loop that looks for the first index that passes.
use Prim.Native.Nat.{ℕ, zero, suc, ◌+◌, ◌≤◌, ◌<◌}
use mathlib.Core.Path.{◌≡◌, refl, ap, sym, subst, ◌∙◌}
use mathlib.Core.Logic.{◌≢◌, inl, inr}
use mathlib.Core.Bool.{Bool, true, false, ◌||◌, false≢true}
use mathlib.Core.Option.{Option, none, some}
use native.Mathlib.Omega.{arith}
use native.Mathlib.Decide.{ℕ_discrete}
use mukern.Base.Tests.{◌==◌, if◌then◌else◌, Bool-cases, Option-cases}

-- `a[i] = v`
abbrev pub update {ℓ} : {A : Type ℓ} → (ℕ → A) → ℕ → A → ℕ → A
update f i v j = if i == j then v else f j

pub update_self {ℓ} : {A : Type ℓ} (f : ℕ → A) (i : ℕ) (v : A) → update f i v i ≡ v
update_self f i v = ground arith

pub update_ne {ℓ} : {A : Type ℓ} (f : ℕ → A) (i j : ℕ) (v : A) → i ≢ j → update f i v j ≡ f j
update_ne f i j v h = ground arith

-- What holds of the new value at `i`, and of the old values elsewhere, holds of the new table.
pub update_all {ℓ κ} :
    {A : Type ℓ} (P : ℕ → A → Type κ) (f : ℕ → A) (i : ℕ) (v : A)
    → P i v
    → (j : ℕ) → (i ≢ j → P j (f j))
    → P j (update f i v j)
update_all P f i v new j old = elim (ℕ_discrete i j) [
  | yes e ↦ subst (λ k. P k (update f i v k)) e (rw update_self new)
  | no ne ↦ rw (update_ne f i j v ne) (old ne)
]

-- `for (i = start; i < start + rounds; i++) if (p(i)) return i;`
unfoldable pub first_from : (ℕ → Bool) → ℕ → ℕ → Option ℕ
first_from p start zero = none
first_from p start (suc rounds) =
    let rest = first_from p (suc start) rounds in if p start then some start else rest

-- What the loop has found: the first index of its range that passes.
pub record IsFirst (p : ℕ → Bool) (start rounds j : ℕ) : Type 0 where
  pub from : start ≤ j
  pub below : j < start + rounds
  pub passes : p j ≡ true
  pub earlier : (k : ℕ) → start ≤ k → k < j → p k ≡ false

pub first_from-IsFirst :
    (p : ℕ → Bool) (start rounds : ℕ) {j : ℕ}
    → first_from p start rounds ≡ some j
    → IsFirst p start rounds j
unfolding first_from
first_from-IsFirst p start zero h = cc
first_from-IsFirst p start (suc rounds) {j} h = elim (Bool-cases (p start)) [
  | inl e ↦
      let same : start ≡ j = cc (rw e at h) in
      record {
        from = omega arith;
        below = omega arith;
        passes = rw (← same) e;
        earlier = λ k a b. absurd (omega arith);
      }
  | inr e ↦
      let ih : IsFirst p (suc start) rounds j =
        first_from-IsFirst p (suc start) rounds (rw e at h) in
      record {
        from = omega arith;
        below = omega arith;
        passes = ih.passes;
        earlier = λ k a b. ground (arith, ih.earlier k, e);
      }
]

-- The loop runs to its end only if no index of its range passes.
pub first_from-none :
    (p : ℕ → Bool) (start rounds : ℕ)
    → first_from p start rounds ≡ none
    → (k : ℕ) → start ≤ k
    → k < start + rounds
    → p k ≡ false
unfolding first_from
first_from-none p start zero h k a b = absurd (omega arith)
first_from-none p start (suc rounds) h k a b = ground (
  arith,
  first_from-none p (suc start) rounds,
  first_from-none p (suc start) rounds (ground arith) k,
)

-- If an index of the range passes, the loop finds one.
pub first_from-some :
    (p : ℕ → Bool) (start rounds k : ℕ)
    → start ≤ k
    → k < start + rounds
    → p k ≡ true
    → (j : ℕ) × (first_from p start rounds ≡ some j)
first_from-some p start rounds k a b e = elim (Option-cases (first_from p start rounds)) [
  | inl h ↦ absurd (false≢true (sym (first_from-none p start rounds h k a b) ∙ e))
  | inr found ↦ found
]

-- Has a search succeeded?
abbrev pub found : Option ℕ → Bool
found none = false
found (some i) = true

pub found→ :
    (p : ℕ → Bool) (n : ℕ) → found (first_from p 0 n) ≡ true → (k : ℕ) × (k < n) × (p k ≡ true)
found→ p n h = elim (Option-cases (first_from p 0 n)) [
  | inl e ↦ cc (rw e at h)
  | inr (k, e) ↦
      let first : IsFirst p 0 n k = first_from-IsFirst p 0 n e in
      (k, omega (arith, first.below), first.passes)
]

pub →found : (p : ℕ → Bool) (n k : ℕ) → k < n → p k ≡ true → found (first_from p 0 n) ≡ true
→found p n k lt e = let (j, h) = first_from-some p 0 n k (omega arith) (omega arith) e in rw h refl

-- One entry that did not pass is changed.
pub found-update :
    (p q : ℕ → Bool) (n i : ℕ)
    → i < n
    → p i ≡ false
    → ((j : ℕ) → i ≢ j → q j ≡ p j)
    → found (first_from q 0 n) ≡ (found (first_from p 0 n) || q i)
found-update p q n i lt old same = elim (Bool-cases (found (first_from p 0 n))) [
  | inl e ↦
      let (k, below, pk) = found→ p n e in
      rw e (→found q n k below (same k (λ d. cc (old, ap p d, pk)) ∙ pk))
  | inr e ↦ elim (Bool-cases (q i)) [
    | inl qi ↦ rw (e, qi) (→found q n i lt qi)
    | inr qi ↦
        rw (e, qi)
          (elim (Bool-cases (found (first_from q 0 n))) [
            | inr no_q ↦ no_q
            | inl yes_q ↦
                let (k, below, qk) = found→ q n yes_q in
                absurd (
                  false≢true
                    (sym e ∙ →found p n k below (sym (same k (λ d. cc (qi, ap q d, qk))) ∙ qk)))
          ])
  ]
]
