-- ===== src/Cap/Gain.antt =====
-- Changes of the kernel after which no thread holds a capability that it did not hold before.
use mukern.Base.{ℕ, ℤ, ◌≡◌, true, refl, sym, ap, ◌∙◌, arith, found, found→, first_from, update_all}
use mukern.Thread.{Kernel, Thread, Cap, cap_max, put}
use mukern.Cap.{cap_has_port, cap_has_endpoint, covers_port, names_endpoint, cap_clear}

-- `u` may use no port and no endpoint that `t` may not.
pub record NoMore (t u : Thread) : Type 0 where
  pub ports : (port : ℕ) → cap_has_port u port ≡ true → cap_has_port t port ≡ true
  pub endpoints : (e : ℤ) → cap_has_endpoint u e ≡ true → cap_has_endpoint t e ≡ true

pub table-NoMore : (t u : Thread) → u.ctable ≡ t.ctable → NoMore t u
unfolding cap_has_port cap_has_endpoint
table-NoMore t u e = record {
  ports = λ port h.
      sym (ap (λ (c : ℕ → Cap). found (first_from (λ i. covers_port (c i) port) 0 cap_max)) e) ∙ h;
  endpoints = λ x h.
      sym (ap (λ (c : ℕ → Cap). found (first_from (λ i. names_endpoint (c i) x) 0 cap_max)) e) ∙ h;
}

-- A cleared table allows nothing.
pub clear-NoMore : (t u : Thread) → NoMore t (cap_clear u)
unfolding cap_has_port cap_has_endpoint
clear-NoMore t u = record {
  ports = λ port h.
      let (k, lt, p) = found→ (λ i. covers_port ((cap_clear u).ctable i) port) cap_max h in
      ground arith;
  endpoints = λ e h.
      let (k, lt, p) = found→ (λ i. names_endpoint ((cap_clear u).ctable i) e) cap_max h in
      ground arith;
}

pub NoMore-trans : {t u w : Thread} → NoMore t u → NoMore u w → NoMore t w
NoMore-trans a b = record {
  ports = λ port h. a.ports port (b.ports port h);
  endpoints = λ e h. a.endpoints e (b.endpoints e h);
}

-- No thread gains anything.
abbrev pub NoGain : Kernel → Kernel → Type 0
NoGain s s' = (i : ℕ) → NoMore (s.threads i) (s'.threads i)

pub NoGain-refl : (s : Kernel) → NoGain s s
NoGain-refl s i = table-NoMore (s.threads i) (s.threads i) refl

pub NoGain-trans : (s t u : Kernel) → NoGain s t → NoGain t u → NoGain s u
NoGain-trans s t u a b i = NoMore-trans (a i) (b i)

pub put-NoGain : (s : Kernel) (p : ℕ) (t : Thread) → NoMore (s.threads p) t → NoGain s (put s p t)
put-NoGain s p t h i =
    update_all (λ j u. NoMore (s.threads j) u) s.threads p t h i (λ _. NoGain-refl s i)

-- A thread stored with its table as it was.
pub store-NoGain :
    (s : Kernel) (p : ℕ) (t : Thread) → t.ctable ≡ (s.threads p).ctable → NoGain s (put s p t)
store-NoGain s p t e = put-NoGain s p t (table-NoMore (s.threads p) t e)
