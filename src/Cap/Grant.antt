-- ===== src/Cap/Grant.antt =====
-- What a grant of a capability adds to a table.
use mukern.Base.{
  ||-cases, Bool, Option, ℕ_discrete, update_ne, subst, ℕ, ℤ, pos, minus_one, ◌+◌, ◌^◌, ◌≡◌, ◌≢◌,
  ◌<◌, ◌≤◌, ◌⊎◌, true, false, some, none, inl, inr, refl, sym, ap, ◌∙◌, arith, found-update,
  IsFirst, first_from-IsFirst, first_from-none, Option-cases, Bool-cases, ◌||◌, ◌&&◌, ltb, leb,
  ◌==ℤ◌, update, ==_refl, ==ℤ_iff,
}
use mukern.Thread.{Kernel, Thread, Cap, CapType, null, endpoint, ioport, cap_max}
use mukern.Cap.{
  is_null, covers_port, names_endpoint, cap_has_port, cap_has_endpoint, cap_grant_io,
  cap_grant_endpoint, free_slot, set_cap, right_send,
}

null→ : (c : CapType) → is_null c ≡ true → c ≡ null
null→ c h = ground arith

-- A capability stored in an empty slot adds the ports that it covers, and no other.
pub has_port-set_cap :
    (t : Thread) (i : ℕ) (c : Cap) (port : ℕ)
    → i < cap_max
    → (t.ctable i).type_of ≡ null
    → cap_has_port (set_cap t i c) port ≡ (cap_has_port t port || covers_port c port)
unfolding cap_has_port
has_port-set_cap t i c port lt e =
    found-update (λ j. covers_port (t.ctable j) port)
      (λ j. covers_port (update t.ctable i c j) port) cap_max i lt (rw e) (λ j ne. ground arith)
    ∙ rw (==_refl i) refl

pub has_endpoint-set_cap :
    (t : Thread) (i : ℕ) (c : Cap) (target : ℤ)
    → i < cap_max
    → (t.ctable i).type_of ≡ null
    → cap_has_endpoint (set_cap t i c) target
      ≡ (cap_has_endpoint t target || names_endpoint c target)
unfolding cap_has_endpoint
has_endpoint-set_cap t i c target lt e =
    found-update (λ j. names_endpoint (t.ctable j) target)
      (λ j. names_endpoint (update t.ctable i c j) target) cap_max i lt (rw e)
      (λ j ne. ground arith)
    ∙ rw (==_refl i) refl

abbrev pub in_range : ℕ → ℕ → ℕ → Bool
in_range base len port = leb base port && ltb port (base + len)

-- the capability that `cap_grant_io` writes over `c`
abbrev pub port_cap : ℕ → ℕ → Cap → Cap
port_cap base len c = record c { type_of = ioport; io_base = base; io_len = len }

abbrev pub endpoint_cap : ℤ → Cap → Cap
endpoint_cap target c = record c { type_of = endpoint; target = target; rights = right_send }

-- every slot of the table is taken
abbrev pub IsFull : Thread → Type 0
IsFull t = (i : ℕ) → i < cap_max → (t.ctable i).type_of ≢ null

pub free-null :
    (t : Thread) {i : ℕ} → free_slot t ≡ some i → (i < cap_max) × ((t.ctable i).type_of ≡ null)
free-null t {i} e =
    let first : IsFirst (λ j. is_null (t.ctable j).type_of) 0 cap_max i =
      first_from-IsFirst _ 0 cap_max e in
    (omega (arith, first.below), null→ (t.ctable i).type_of first.passes)

free-none : (t : Thread) → free_slot t ≡ none → IsFull t
free-none t e i lt h =
    let taken : is_null (t.ctable i).type_of ≡ false =
      first_from-none (λ j. is_null (t.ctable j).type_of) 0 cap_max e i (omega arith)
        (omega arith) in
    cc (ap is_null h, taken)

-- A grant of the ports from `base` up to `base + len`, which stays below 65536: either the thread
-- can now use exactly these ports besides those it could use before, and no other thread has
-- changed; or its table is full, the call returns -1 and nothing has changed.
pub cap_grant_io_lem :
    (p base len : ℕ) (s : Kernel)
    → base + len < 2 ^ 16
    → let (s', r) = cap_grant_io (some p) base len s in
      ((r ≡ pos 0)
        × ((port : ℕ)
            → cap_has_port (s'.threads p) port
              ≡ (cap_has_port (s.threads p) port || in_range base len port))
        × ((j : ℕ) → p ≢ j → s'.threads j ≡ s.threads j))
      ⊎ ((r ≡ minus_one) × (s' ≡ s) × IsFull (s.threads p))
unfolding cap_grant_io
cap_grant_io_lem p base len s fits = elim (Option-cases (free_slot (s.threads p))) [
  | inl e ↦ inr (rw (e, cap_grant_io), rw (e, cap_grant_io), free-none (s.threads p) e)
  | inr (i, e) ↦
      let (lt, empty) = free-null (s.threads p) e in
      inl (
        rw (e, cap_grant_io),
        λ port.
            rw (e, cap_grant_io)
              (rw (==_refl p) (
                has_port-set_cap (s.threads p) i (port_cap base len ((s.threads p).ctable i)) port
                  lt empty
                ∙ ap
                    (λ (top : ℕ).
                      cap_has_port (s.threads p) port || (leb base port && ltb port top))
                    (omega arith))),
        λ j ne. rw (e, cap_grant_io) (ground arith),
      )
]

-- A grant whose range ends past port 65535 is of no use: the end wraps, and no port is covered.
pub covers_port-wraps :
    (c : Cap) (port : ℕ)
    → c.io_base < 2 ^ 16
    → c.io_len < 2 ^ 16
    → 2 ^ 16 ≤ c.io_base + c.io_len
    → covers_port c port ≡ false
covers_port-wraps c port lo hi past = ground arith

pub held_again :
    (t : Thread) (target e : ℤ)
    → cap_has_endpoint t target ≡ true
    → cap_has_endpoint t e ≡ (cap_has_endpoint t e || (target ==ℤ e))
held_again t target e has = elim (Bool-cases (target ==ℤ e)) [
  | inl q ↦ cc (has, ap (cap_has_endpoint t) ((==ℤ_iff target e).0 q), q)
  | inr q ↦ rw q (ground arith)
]

-- A grant of an endpoint: either the thread may now send to exactly this endpoint besides those
-- it could send to before, and no other thread has changed; or its table is full, the call returns
-- -1 and nothing has changed. An endpoint that is held already is granted again with no change.
pub cap_grant_endpoint_lem :
    (p : ℕ) (target : ℤ) (s : Kernel)
    → let (s', r) = cap_grant_endpoint (some p) target s in
      ((r ≡ pos 0)
        × ((e : ℤ)
            → cap_has_endpoint (s'.threads p) e
              ≡ (cap_has_endpoint (s.threads p) e || (target ==ℤ e)))
        × ((j : ℕ) → p ≢ j → s'.threads j ≡ s.threads j)
        × (cap_has_endpoint (s.threads p) target ≡ true → s' ≡ s))
      ⊎ ((r ≡ minus_one) × (s' ≡ s) × IsFull (s.threads p))
unfolding cap_grant_endpoint
cap_grant_endpoint_lem p target s = elim (Bool-cases (cap_has_endpoint (s.threads p) target)) [
  | inl has ↦ inl (
    rw (has, cap_grant_endpoint),
    λ e. rw (has, cap_grant_endpoint) (held_again (s.threads p) target e has),
    λ j ne. rw (has, cap_grant_endpoint),
    λ _. rw (has, cap_grant_endpoint),
  )
  | inr lacks ↦ elim (Option-cases (free_slot (s.threads p))) [
    | inl e ↦ inr (
      rw (lacks, cap_grant_endpoint, e),
      rw (lacks, cap_grant_endpoint, e),
      free-none (s.threads p) e,
    )
    | inr (i, e) ↦
        let (lt, empty) = free-null (s.threads p) e in
        inl (
          rw (lacks, cap_grant_endpoint, e),
          λ x.
              rw (lacks, cap_grant_endpoint, e)
                (rw (==_refl p) (
                  has_endpoint-set_cap (s.threads p) i
                    (endpoint_cap target ((s.threads p).ctable i)) x lt empty)),
          λ j ne. rw (lacks, cap_grant_endpoint, e) (ground arith),
          λ h. cc h,
        )
  ]
]

-- Whoever may use a port after a grant could use it before, or is the thread that the grant names
-- and the port is one of the range; also where the range is too long.
pub cap_grant_io-from :
    (p : Option ℕ) (base len i port : ℕ) (s : Kernel)
    → cap_has_port ((cap_grant_io p base len s).0.threads i) port ≡ true
    → (cap_has_port (s.threads i) port ≡ true) ⊎ ((p ≡ some i) × (in_range base len port ≡ true))
unfolding cap_grant_io
cap_grant_io-from none base len i port s h = inl h
cap_grant_io-from (some p) base len i port s h = elim (Option-cases (free_slot (s.threads p))) [
  | inl e ↦ inl (rw (e, cap_grant_io) at h)
  | inr (k, e) ↦ elim (ℕ_discrete p i) [
    | no ne ↦ inl (rw (e, cap_grant_io, update_ne s.threads p i _ ne) at h)
    | yes same ↦
        let (lt, empty) = free-null (s.threads p) e in
        let at_p : cap_has_port
              (set_cap (s.threads p) k (port_cap base len ((s.threads p).ctable k))) port
            ≡ true =
          rw (e, cap_grant_io, ==_refl p) at
            (subst
              (λ (j : ℕ). cap_has_port ((cap_grant_io (some p) base len s).0.threads j) port ≡ true)
              (sym same) h) in
        let split : (cap_has_port (s.threads p) port
              || covers_port (port_cap base len ((s.threads p).ctable k)) port)
            ≡ true =
          sym (
            has_port-set_cap (s.threads p) k (port_cap base len ((s.threads p).ctable k)) port lt
              empty)
          ∙ at_p in
        elim (||-cases (cap_has_port (s.threads p) port) _ split) [
          | inl old ↦ inl (subst (λ (j : ℕ). cap_has_port (s.threads j) port ≡ true) same old)
          | inr new ↦ inr (ap some same, ground arith)
        ]
  ]
]

-- Whoever may send to an endpoint after a grant could send to it before, or is the thread that
-- the grant names and the endpoint is the one granted.
pub cap_grant_endpoint-from :
    (p : Option ℕ) (target : ℤ) (i : ℕ) (e : ℤ) (s : Kernel)
    → cap_has_endpoint ((cap_grant_endpoint p target s).0.threads i) e ≡ true
    → (cap_has_endpoint (s.threads i) e ≡ true) ⊎ ((p ≡ some i) × (target ≡ e))
cap_grant_endpoint-from none target i e s h = unfold cap_grant_endpoint in inl h
cap_grant_endpoint-from (some p) target i e s h = elim (cap_grant_endpoint_lem p target s) [
  | inr (_, same, _) ↦
      inl (subst (λ (s' : Kernel). cap_has_endpoint (s'.threads i) e ≡ true) same h)
  | inl (_, exactly, rest, _) ↦ elim (ℕ_discrete p i) [
    | no ne ↦ inl (rw (rest i ne) at h)
    | yes same ↦
        let at_p : (cap_has_endpoint (s.threads p) e || (target ==ℤ e)) ≡ true =
          sym (exactly e)
          ∙ subst
              (λ (j : ℕ).
                cap_has_endpoint ((cap_grant_endpoint (some p) target s).0.threads j) e ≡ true)
              (sym same) h in
        elim (||-cases (cap_has_endpoint (s.threads p) e) (target ==ℤ e) at_p) [
          | inl old ↦ inl (subst (λ (j : ℕ). cap_has_endpoint (s.threads j) e ≡ true) same old)
          | inr new ↦ inr (ap some same, (==ℤ_iff target e).0 new)
        ]
  ]
]
