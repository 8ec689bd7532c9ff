-- ===== src/Cap/Apart.antt =====
-- A grant of ports gives no endpoint, and a grant of an endpoint gives no port.
use mukern.Base.{
  ℕ, ℤ, ◌≡◌, true, some, none, Option, sym, ◌∙◌, ◌||◌, Bool, false, inl, inr, Option-cases,
  Bool-cases, arith, update_all,
}
use mukern.Thread.{Kernel, Cap}
use mukern.Cap.{
  cap_has_port, cap_has_endpoint, cap_grant_io, cap_grant_endpoint, free_slot, set_cap,
}
use mukern.Cap.Grant.{has_port-set_cap, has_endpoint-set_cap, free-null, port_cap, endpoint_cap}

or_false : {b : Bool} → (b || false) ≡ true → b ≡ true
or_false {b} h = ground arith

pub cap_grant_io-endpoints :
    (p : Option ℕ) (base len i : ℕ) (e : ℤ) (s : Kernel)
    → cap_has_endpoint ((cap_grant_io p base len s).0.threads i) e ≡ true
    → cap_has_endpoint (s.threads i) e ≡ true
unfolding cap_grant_io
cap_grant_io-endpoints none base len i e s h = h
cap_grant_io-endpoints (some p) base len i e s h = elim (Option-cases (free_slot (s.threads p))) [
  | inl full ↦ rw (full, cap_grant_io) at h
  | inr (k, free) ↦
      let (lt, empty) = free-null (s.threads p) free in
      let c : Cap = port_cap base len ((s.threads p).ctable k) in
      let kept : cap_has_endpoint (set_cap (s.threads p) k c) e ≡ true
          → cap_has_endpoint (s.threads p) e ≡ true =
        λ g. or_false (sym (has_endpoint-set_cap (s.threads p) k c e lt empty) ∙ g) in
      update_all (λ j t. cap_has_endpoint t e ≡ true → cap_has_endpoint (s.threads j) e ≡ true)
        s.threads p (set_cap (s.threads p) k c) kept i (λ _ g. g) (rw (free, cap_grant_io) at h)
]

pub cap_grant_endpoint-ports :
    (p : Option ℕ) (target : ℤ) (i port : ℕ) (s : Kernel)
    → cap_has_port ((cap_grant_endpoint p target s).0.threads i) port ≡ true
    → cap_has_port (s.threads i) port ≡ true
unfolding cap_grant_endpoint
cap_grant_endpoint-ports none target i port s h = h
cap_grant_endpoint-ports (some p) target i port s h =
    elim (Bool-cases (cap_has_endpoint (s.threads p) target)) [
      | inl has ↦ rw (has, cap_grant_endpoint) at h
      | inr lacks ↦ elim (Option-cases (free_slot (s.threads p))) [
        | inl full ↦ rw (lacks, cap_grant_endpoint, full) at h
        | inr (k, free) ↦
            let (lt, empty) = free-null (s.threads p) free in
            let c : Cap = endpoint_cap target ((s.threads p).ctable k) in
            let kept : cap_has_port (set_cap (s.threads p) k c) port ≡ true
                → cap_has_port (s.threads p) port ≡ true =
              λ g. or_false (sym (has_port-set_cap (s.threads p) k c port lt empty) ∙ g) in
            update_all (λ j t. cap_has_port t port ≡ true → cap_has_port (s.threads j) port ≡ true)
              s.threads p (set_cap (s.threads p) k c) kept i (λ _ g. g)
              (rw (lacks, cap_grant_endpoint, free) at h)
      ]
    ]
