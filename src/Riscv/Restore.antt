-- ===== src/Riscv/Restore.antt =====
-- What `context_switch` of arch/riscv64/trap/switch.S takes from a stack, as a description to hold
-- `arch_init_stack` against: thirteen loads from fourteen slots.
use mukern.Base.{
  ℕ, zero, suc, ◌+◌, ◌-◌, ◌*◌, ◌≡◌, ◌≢◌, ◌<◌, ◌≤◌, refl, ◌∙◌, update, update_self, update_ne,
  ℕ_discrete, subst, arith,
}
use mukern.Riscv.{clear_words, rv_init_stack}

-- ra, s0 to s11 as a function of the slot, and the stack pointer
pub record Registers : Type 0 where
  pub ra : ℕ
  pub s : ℕ → ℕ
  pub sp : ℕ

abbrev pub restore : (ℕ → ℕ) → ℕ → Registers
restore mem sp = record { ra = mem sp; s = λ i. mem (sp + 8 * suc i); sp = sp + 112 }

clear_words-before :
    (sp i k : ℕ) (mem : ℕ → ℕ) (j : ℕ)
    → j < i
    → clear_words sp i k mem (sp + 8 * j) ≡ mem (sp + 8 * j)
unfolding clear_words
clear_words-before sp i zero mem j lt = refl
clear_words-before sp i (suc k) mem j lt =
    clear_words-before sp (suc i) k (update mem (sp + 8 * i) 0) j (omega arith)
    ∙ update_ne mem (sp + 8 * i) (sp + 8 * j) 0 (λ e. absurd (omega (arith, e, lt)))

clear_words-within :
    (sp i k : ℕ) (mem : ℕ → ℕ) (j : ℕ) → i ≤ j → j < i + k → clear_words sp i k mem (sp + 8 * j) ≡ 0
unfolding clear_words
clear_words-within sp i zero mem j le lt = absurd (omega arith)
clear_words-within sp i (suc k) mem j le lt = elim (ℕ_discrete i j) [
  | yes e ↦
      clear_words-before sp (suc i) k (update mem (sp + 8 * i) 0) j (omega (arith, e))
      ∙ subst (λ m. update mem (sp + 8 * i) 0 (sp + 8 * m) ≡ 0) e (update_self mem (sp + 8 * i) 0)
  | no ne ↦
      clear_words-within sp (suc i) k (update mem (sp + 8 * i) 0) j (omega arith) (omega arith)
]

-- The first switch to a new thread of the riscv64 port goes to the trampoline, with the entry function
-- in s1, its argument in s2, the other registers 0 and an empty stack.
pub restore-rv_init_stack :
    (trampoline stack_top fn arg : ℕ) (mem : ℕ → ℕ)
    → 112 ≤ stack_top
    → let (m, sp) = rv_init_stack trampoline stack_top fn arg mem in
      let r = restore m sp in
      (r.ra ≡ trampoline)
      × (r.s 1 ≡ fn)
      × (r.s 2 ≡ arg)
      × ((i : ℕ) → i < 12 → i ≢ 1 → i ≢ 2 → r.s i ≡ 0)
      × (r.sp ≡ stack_top)
unfolding rv_init_stack
restore-rv_init_stack trampoline stack_top fn arg mem room =
    let sp : ℕ = stack_top - 14 * 8 in
    let clear : (i : ℕ) → i < 12 → clear_words sp 0 14 mem (sp + 8 * suc i) ≡ 0 =
      λ i lt. clear_words-within sp 0 14 mem (suc i) (omega arith) (omega (arith, lt)) in
    (
      ground arith,
      ground arith,
      ground arith,
      λ i lt ne1 ne2. ground (arith, clear i lt, ne1, ne2),
      omega (arith, room),
    )
