-- ===== src/Gates/Calls.antt =====
-- Which code a vector leads to, and which vectors user code may raise by `int`.
use mukern.Base.{
  ℕ, zero, suc, ◌+◌, ◌*◌, ◌/◌, ◌%◌, ◌^◌, ◌≡◌, ◌≢◌, ◌<◌, ◌≤◌, ◌⊎◌, inl, inr, refl, sym, ap, ◌∙◌,
  subst, Bool, true, ◌==◌, ==_ne, leb, ◌&&◌, update, update_self, update_ne, ℕ_discrete, dec_lt,
  arith,
}
use mukern.Gates.{
  Gate, no_gate, gate, gate_int64, gate_user, kernel_cs, syscall_vector, num_stubs, idt_set_gate,
  set_stubs, idt_init,
}

abbrev pub handler_of : Gate → ℕ
handler_of g = g.off_low + g.off_mid * 2 ^ 16 + g.off_high * 2 ^ 32

abbrev pub is_set : Gate → Bool
is_set g = g.type_attr / 2 ^ 7 % 2 == 1

abbrev pub gate_dpl : Gate → ℕ
gate_dpl g = g.type_attr / 2 ^ 5 % 4

-- Code of ring 3 may raise the vector by `int`.
abbrev pub user_may_call : Gate → Bool
user_may_call g = is_set g && leb 3 (gate_dpl g)

-- An entry of the table leads to `handler` in the kernel's code segment.
pub record LeadsTo (g : Gate) (handler : ℕ) : Type 0 where
  pub there : is_set g ≡ true
  pub at : handler_of g ≡ handler
  pub in_kernel : g.selector ≡ kernel_cs

stub_gate : (handler : ℕ) → handler < 2 ^ 64 → LeadsTo (gate handler kernel_cs gate_int64) handler
stub_gate handler lt = record { there = refl; at = omega (arith, lt); in_kernel = refl }

call_gate : (handler : ℕ) → handler < 2 ^ 64 → LeadsTo (gate handler kernel_cs gate_user) handler
call_gate handler lt = record { there = refl; at = omega (arith, lt); in_kernel = refl }

-- An entry outside the range that the loop sets stays, and one in it is a gate for its stub.
set_stubs-outside :
    (stubs : ℕ → ℕ) (i k : ℕ) (idt : ℕ → Gate) (n : ℕ)
    → (n < i) ⊎ (i + k ≤ n)
    → set_stubs stubs i k idt n ≡ idt n
unfolding set_stubs idt_set_gate
set_stubs-outside stubs i zero idt n out = refl
set_stubs-outside stubs i (suc k) idt n out =
    set_stubs-outside stubs (suc i) k (update idt i (gate (stubs i) kernel_cs gate_int64)) n
      (ground (arith, out))
    ∙ update_ne idt i n (gate (stubs i) kernel_cs gate_int64) (λ e. ground (arith, out, e))

set_stubs-within :
    (stubs : ℕ → ℕ) (i k : ℕ) (idt : ℕ → Gate) (n : ℕ)
    → i ≤ n
    → n < i + k
    → set_stubs stubs i k idt n ≡ gate (stubs n) kernel_cs gate_int64
unfolding set_stubs idt_set_gate
set_stubs-within stubs i zero idt n le lt = absurd (omega arith)
set_stubs-within stubs i (suc k) idt n le lt = elim (ℕ_discrete i n) [
  | yes e ↦
      set_stubs-outside stubs (suc i) k (update idt i (gate (stubs i) kernel_cs gate_int64)) n
        (inl (omega (arith, e)))
      ∙ subst
          (λ m.
            update idt i (gate (stubs i) kernel_cs gate_int64) m
            ≡ gate (stubs m) kernel_cs gate_int64)
          e (update_self idt i (gate (stubs i) kernel_cs gate_int64))
  | no ne ↦
      set_stubs-within stubs (suc i) k (update idt i (gate (stubs i) kernel_cs gate_int64)) n
        (omega arith) (omega arith)
]

-- Where the gate of vector `n` leads: to its stub, to that of system calls, or nowhere.
abbrev pub Routed : (ℕ → ℕ) → ℕ → ℕ → Gate → Type 0
Routed stubs isr_syscall n g =
    ((n < num_stubs) × LeadsTo g (stubs n))
    ⊎ (((n ≡ syscall_vector) × LeadsTo g isr_syscall)
        ⊎ ((num_stubs ≤ n) × (n ≢ syscall_vector) × (g ≡ no_gate)))

module _ (stubs : ℕ → ℕ) (isr_syscall : ℕ) where
  stubs_only : ℕ → Gate
  stubs_only = set_stubs stubs 0 num_stubs (λ _. no_gate)

  other_vector : (n : ℕ) → n ≢ syscall_vector → idt_init stubs isr_syscall n ≡ stubs_only n
  unfolding idt_init idt_set_gate stubs_only
  other_vector n ne =
      update_ne (set_stubs stubs 0 num_stubs (λ _. no_gate)) syscall_vector n
        (gate isr_syscall kernel_cs gate_user) (λ e. ne (sym e))

  syscall_gate : idt_init stubs isr_syscall syscall_vector ≡ gate isr_syscall kernel_cs gate_user
  unfolding idt_init idt_set_gate
  syscall_gate =
      update_self (set_stubs stubs 0 num_stubs (λ _. no_gate)) syscall_vector
        (gate isr_syscall kernel_cs gate_user)

  -- After `idt_init`, with the stubs at addresses of 64 bits: each vector below 48 leads to its stub
  -- in the kernel, 0x80 to that of system calls, and no other vector anywhere; and user code may raise
  -- the vector 0x80 by `int`, and no other.
  pub idt_init_lem :
      ((i : ℕ) → stubs i < 2 ^ 64)
      → isr_syscall < 2 ^ 64
      → (n : ℕ)
      → Routed stubs isr_syscall n (idt_init stubs isr_syscall n)
        × (user_may_call (idt_init stubs isr_syscall n) ≡ (n == syscall_vector))
  unfolding stubs_only
  idt_init_lem wide wide_call n =
      let Goal : Gate → Type 0 =
        λ g. Routed stubs isr_syscall n g × (user_may_call g ≡ (n == syscall_vector)) in
      elim (ℕ_discrete n syscall_vector) [
        | yes e ↦
            subst Goal (sym (ap (idt_init stubs isr_syscall) e ∙ syscall_gate))
              (inr (inl (e, call_gate isr_syscall wide_call)), sym (ground (arith, e)))
        | no ne ↦ elim (dec_lt n num_stubs) [
          | yes lt ↦
              subst Goal
                (sym (
                  other_vector n ne
                  ∙ set_stubs-within stubs 0 num_stubs (λ _. no_gate) n (omega arith)
                      (omega (arith, lt))))
                (inl (lt, stub_gate (stubs n) (wide n)), sym (==_ne n syscall_vector ne))
          | no ge ↦
              subst Goal
                (sym (
                  other_vector n ne
                  ∙ set_stubs-outside stubs 0 num_stubs (λ _. no_gate) n (inr (omega (arith, ge)))))
                (inr (inr (omega (arith, ge), ne, refl)), sym (==_ne n syscall_vector ne))
        ]
      ]
