-- ===== src/Syscall/Confine/Rights.antt =====
-- Where a right that a thread holds after a system call comes from.
use mukern.Base.{
  ℕ, ℤ, pos, negsuc, ◌%◌, ◌^◌, ◌≡◌, ◌⊎◌, true, some, Option, refl, sym, ◌∙◌, arith, inl, inr,
  Option-cases, Bool-cases, ||-cases, ◌==ℤ◌, ==ℤ_iff, to_int, ◌||◌, first_from, IsFirst,
  first_from-IsFirst, ltb, subst,
}
use mukern.Cap.Apart.{cap_grant_io-endpoints, cap_grant_endpoint-ports}
use mukern.Abi.{Sysno, exit, spawn, grant_io, grant_cap}
use mukern.Thread.{Kernel, self, is_vacant, thread_by_id, max_threads}
use mukern.Cap.{cap_has_port, cap_has_endpoint, cap_grant_io, cap_grant_endpoint}
use mukern.Cap.Gain.{NoGain, NoGain-refl}
use mukern.Cap.Grant.{cap_grant_io-from, cap_grant_endpoint-from, in_range}
use mukern.Sched.{thread_create}
use mukern.Sched.Gain.{thread_create-NoGain}
use mukern.Syscall
use mukern.Syscall.{Env, set_rax, set_result, dispatch, adopt, proc_spawn}
use mukern.Syscall.Confine.{dispatch-NoGain, set_rax-NoGain, set_result-NoGain}

-- The call that gave thread `i` an endpoint `e` that it did not hold: SYS_GRANT_CAP by the root or
-- by a holder of `e`, naming `i` and `e`; or SYS_SPAWN by `i`, whose child, until then no thread,
-- is `e`.
abbrev pub EndpointFrom : Sysno → Kernel → ℕ → ℤ → Type 0
EndpointFrom grant_cap s i e =
    (thread_by_id (to_int (self s).regs.rdi) ≡ some i)
    × (to_int (self s).regs.rsi ≡ e)
    × (((self s).id ≡ pos 0) ⊎ (cap_has_endpoint (self s) e ≡ true))
EndpointFrom spawn s i e =
    (s.current ≡ i) × (c : ℕ) × (pos c ≡ e) × (is_vacant (s.threads c).state ≡ true)
EndpointFrom _ s i e = ⊥

-- The call that gave thread `i` a port that it could not use: SYS_GRANT_IO by the root, naming
-- `i` and a range with the port in it.
abbrev pub PortFrom : Sysno → Kernel → ℕ → ℕ → Type 0
PortFrom grant_io s i port =
    ((self s).id ≡ pos 0)
    × (thread_by_id (to_int (self s).regs.rdi) ≡ some i)
    × (in_range ((self s).regs.rsi % 2 ^ 16) ((self s).regs.rdx % 2 ^ 16) port ≡ true)
PortFrom _ s i port = ⊥

create-vacant :
    (p : ℕ) (s : Kernel) {c : ℕ}
    → (thread_create p s).1 ≡ pos c
    → is_vacant (s.threads c).state ≡ true
unfolding thread_create
create-vacant p s {c} h =
    elim (Option-cases (first_from (λ i. is_vacant (s.threads i).state) 0 max_threads)) [
      | inl e ↦ cc (rw (e, thread_create) at h)
      | inr (i, e) ↦
          let first : IsFirst (λ j. is_vacant (s.threads j).state) 0 max_threads i =
            first_from-IsFirst _ 0 max_threads e in
          let empty : is_vacant (s.threads i).state ≡ true = first.passes in
          let same : i ≡ c = cc (rw (e, thread_create) at h) in rw (← same) empty
    ]

spawn-vacant :
    (p : ℤ) (s : Kernel) {c : ℕ} → (proc_spawn p s).1 ≡ pos c → is_vacant (s.threads c).state ≡ true
unfolding proc_spawn
spawn-vacant (pos p) s h = elim (Bool-cases (ltb p 12)) [
  | inl e ↦ create-vacant p s (rw e at h)
  | inr e ↦ cc (rw e at h)
]
spawn-vacant (negsuc p) s h = cc

spawn-NoGain : (p : ℤ) (s : Kernel) → NoGain s (proc_spawn p s).0
unfolding proc_spawn
spawn-NoGain (pos p) s = elim (Bool-cases (ltb p 12)) [
  | inl e ↦ rw e (thread_create-NoGain p s)
  | inr e ↦ rw e (NoGain-refl s)
]
spawn-NoGain (negsuc p) s = NoGain-refl s

current-spawn : (p : ℤ) (s : Kernel) → (proc_spawn p s).0.current ≡ s.current
unfolding proc_spawn thread_create
current-spawn (pos p) s =
    elim (Option-cases (first_from (λ i. is_vacant (s.threads i).state) 0 max_threads)) [
      | inl e ↦ rw (e, thread_create) (ground arith)
      | inr (i, e) ↦ rw (e, thread_create) (ground arith)
    ]
current-spawn (negsuc p) s = refl

adopt-from :
    (r : Kernel × ℤ) (i : ℕ) (e : ℤ)
    → cap_has_endpoint ((adopt r).0.threads i) e ≡ true
    → (cap_has_endpoint (r.0.threads i) e ≡ true)
      ⊎ ((r.0.current ≡ i) × (c : ℕ) × (pos c ≡ e) × (r.1 ≡ pos c))
adopt-from (s, pos c) i e h = elim (cap_grant_endpoint-from (some s.current) (pos c) i e s h) [
  | inl old ↦ inl old
  | inr (at, new) ↦ inr (cc, c, new, refl)
]
adopt-from (s, negsuc c) i e h = inl h

-- What a thread may do after `tf->rax` is set, it could do before.
result-endpoint :
    (r : Kernel × ℤ) (i : ℕ) (e : ℤ)
    → cap_has_endpoint ((set_result r).threads i) e ≡ true
    → cap_has_endpoint (r.0.threads i) e ≡ true
result-endpoint r i e h = (set_result-NoGain r.0 r (NoGain-refl r.0) i).endpoints e h

grant_cap-from :
    (s : Kernel) (i : ℕ) (e : ℤ)
    → cap_has_endpoint ((Syscall.sys_grant_cap s).threads i) e ≡ true
    → (cap_has_endpoint (s.threads i) e ≡ true) ⊎ EndpointFrom grant_cap s i e
unfolding Syscall.sys_grant_cap
grant_cap-from s i e h =
    elim (Bool-cases (((self s).id ==ℤ pos 0) || cap_has_endpoint (self s) ep)) [
      | inr denied ↦ inl ((set_rax-NoGain _ s i).endpoints e (rw denied at h))
      | inl allowed ↦
          elim (cap_grant_endpoint-from p ep i e s
            (result-endpoint (cap_grant_endpoint p ep s) i e (rw allowed at h))) [
              | inl old ↦ inl old
              | inr (at, new) ↦ inr (at, new, by_whom new (||-cases _ _ allowed))
            ]
    ]
  where
    ep : ℤ
    ep = to_int (self s).regs.rsi

    p : Option ℕ
    p = thread_by_id (to_int (self s).regs.rdi)

    by_whom :
        ep ≡ e
        → (((self s).id ==ℤ pos 0) ≡ true) ⊎ (cap_has_endpoint (self s) ep ≡ true)
        → ((self s).id ≡ pos 0) ⊎ (cap_has_endpoint (self s) e ≡ true)
    by_whom q (inl root) = inl ((==ℤ_iff _ _).0 root)
    by_whom q (inr holds) = inr (subst (λ x. cap_has_endpoint (self s) x ≡ true) q holds)

spawn-from :
    (s : Kernel) (i : ℕ) (e : ℤ)
    → cap_has_endpoint ((Syscall.sys_spawn s).threads i) e ≡ true
    → (cap_has_endpoint (s.threads i) e ≡ true) ⊎ EndpointFrom spawn s i e
unfolding Syscall.sys_spawn
spawn-from s i e h =
    elim (adopt-from (proc_spawn p s) i e (result-endpoint (adopt (proc_spawn p s)) i e h)) [
      | inl old ↦ inl ((spawn-NoGain p s i).endpoints e old)
      | inr (at, c, new, born) ↦ inr (sym (current-spawn p s) ∙ at, c, new, spawn-vacant p s born)
    ]
  where
    p : ℤ
    p = to_int (self s).regs.rdi

grant_io-endpoints :
    (s : Kernel) (i : ℕ) (e : ℤ)
    → cap_has_endpoint ((Syscall.sys_grant_io s).threads i) e ≡ true
    → cap_has_endpoint (s.threads i) e ≡ true
unfolding Syscall.sys_grant_io
grant_io-endpoints s i e h = elim (Bool-cases ((self s).id ==ℤ pos 0)) [
  | inr denied ↦ (set_rax-NoGain _ s i).endpoints e (rw denied at h)
  | inl root ↦
      cap_grant_io-endpoints p base len i e s
        (result-endpoint (cap_grant_io p base len s) i e (rw root at h))
]
  where
    p : Option ℕ
    p = thread_by_id (to_int (self s).regs.rdi)

    base : ℕ
    base = (self s).regs.rsi % 2 ^ 16

    len : ℕ
    len = (self s).regs.rdx % 2 ^ 16

-- Endpoints are confined: a thread that holds the endpoint `e` after a system call held it before,
-- or was given it by SYS_GRANT_CAP of the root or of a holder, or has just spawned the thread `e`
-- in a slot that held no thread.
pub endpoints_confined :
    (n : Sysno) (env : Env) (s : Kernel) (i : ℕ) (e : ℤ)
    → cap_has_endpoint ((dispatch n env s).threads i) e ≡ true
    → (cap_has_endpoint (s.threads i) e ≡ true) ⊎ EndpointFrom n s i e
unfolding dispatch
endpoints_confined grant_cap env s i e h = unfold Syscall.sys_grant_cap in grant_cap-from s i e h
endpoints_confined spawn env s i e h = unfold Syscall.sys_spawn in spawn-from s i e h
endpoints_confined grant_io env s i e h =
    unfold Syscall.sys_grant_io in inl (grant_io-endpoints s i e h)
endpoints_confined exit env s i e h = inl ((dispatch-NoGain exit env s refl i).endpoints e h)
endpoints_confined n env s i e h = inl ((dispatch-NoGain n env s refl i).endpoints e h)

result-port :
    (r : Kernel × ℤ) (i port : ℕ)
    → cap_has_port ((set_result r).threads i) port ≡ true
    → cap_has_port (r.0.threads i) port ≡ true
result-port r i port h = (set_result-NoGain r.0 r (NoGain-refl r.0) i).ports port h

adopt-ports :
    (r : Kernel × ℤ) (i port : ℕ)
    → cap_has_port ((adopt r).0.threads i) port ≡ true
    → cap_has_port (r.0.threads i) port ≡ true
adopt-ports (s, pos c) i port h = cap_grant_endpoint-ports (some s.current) (pos c) i port s h
adopt-ports (s, negsuc c) i port h = h

grant_io-from :
    (s : Kernel) (i port : ℕ)
    → cap_has_port ((Syscall.sys_grant_io s).threads i) port ≡ true
    → (cap_has_port (s.threads i) port ≡ true) ⊎ PortFrom grant_io s i port
unfolding Syscall.sys_grant_io
grant_io-from s i port h = elim (Bool-cases ((self s).id ==ℤ pos 0)) [
  | inr denied ↦ inl ((set_rax-NoGain _ s i).ports port (rw denied at h))
  | inl root ↦
      elim (cap_grant_io-from p base len i port s
        (result-port (cap_grant_io p base len s) i port (rw root at h))) [
          | inl old ↦ inl old
          | inr (at, new) ↦ inr ((==ℤ_iff _ _).0 root, at, new)
        ]
]
  where
    p : Option ℕ
    p = thread_by_id (to_int (self s).regs.rdi)

    base : ℕ
    base = (self s).regs.rsi % 2 ^ 16

    len : ℕ
    len = (self s).regs.rdx % 2 ^ 16

grant_cap-ports :
    (s : Kernel) (i port : ℕ)
    → cap_has_port ((Syscall.sys_grant_cap s).threads i) port ≡ true
    → cap_has_port (s.threads i) port ≡ true
unfolding Syscall.sys_grant_cap
grant_cap-ports s i port h =
    elim (Bool-cases (((self s).id ==ℤ pos 0) || cap_has_endpoint (self s) ep)) [
      | inr denied ↦ (set_rax-NoGain _ s i).ports port (rw denied at h)
      | inl allowed ↦
          cap_grant_endpoint-ports p ep i port s
            (result-port (cap_grant_endpoint p ep s) i port (rw allowed at h))
    ]
  where
    ep : ℤ
    ep = to_int (self s).regs.rsi

    p : Option ℕ
    p = thread_by_id (to_int (self s).regs.rdi)

spawn-ports :
    (s : Kernel) (i port : ℕ)
    → cap_has_port ((Syscall.sys_spawn s).threads i) port ≡ true
    → cap_has_port (s.threads i) port ≡ true
unfolding Syscall.sys_spawn
spawn-ports s i port h =
    let r : Kernel × ℤ = proc_spawn (to_int (self s).regs.rdi) s in
    (spawn-NoGain (to_int (self s).regs.rdi) s i).ports port
      (adopt-ports r i port (result-port (adopt r) i port h))

-- Hardware is confined: whoever may use a port after a system call could do so before, or was
-- given it by the root in a range that holds the port.
pub ports_confined :
    (n : Sysno) (env : Env) (s : Kernel) (i port : ℕ)
    → cap_has_port ((dispatch n env s).threads i) port ≡ true
    → (cap_has_port (s.threads i) port ≡ true) ⊎ PortFrom n s i port
unfolding dispatch
ports_confined grant_io env s i port h = unfold Syscall.sys_grant_io in grant_io-from s i port h
ports_confined grant_cap env s i port h = inl (grant_cap-ports s i port h)
ports_confined spawn env s i port h = inl (spawn-ports s i port h)
ports_confined exit env s i port h = inl ((dispatch-NoGain exit env s refl i).ports port h)
ports_confined n env s i port h = inl ((dispatch-NoGain n env s refl i).ports port h)
