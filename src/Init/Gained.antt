-- ===== src/Init/Gained.antt =====
-- What one grant adds to a table of capabilities.
use mukern.Base.{
  ℕ, ℤ, suc, ◌+◌, ◌^◌, ◌≡◌, ◌<◌, ◌≤◌, refl, sym, ap, ◌∙◌, ◌%◌, subst, Bool, true, false, some,
  ==_refl, ◌==ℤ◌, ◌||◌, Bool-cases, first_from-some, first_from-IsFirst, IsFirst, update_ne, arith,
  inl, inr,
}
use mukern.Thread.{Kernel, Thread, Cap, null, cap_max}
use mukern.Cap.{
  cap_has_port, cap_has_endpoint, cap_grant_io, cap_grant_endpoint, is_null, free_slot, set_cap,
  names_endpoint, covers_port,
}
use mukern.Cap.Grant.{
  has_port-set_cap, has_endpoint-set_cap, free-null, in_range, port_cap, endpoint_cap, held_again,
}

-- The slots from `n` on are empty.
abbrev pub HasRoom : Thread → ℕ → Type 0
HasRoom t n = (i : ℕ) → n ≤ i → i < cap_max → (t.ctable i).type_of ≡ null

-- The thread `v` holds what `u` holds, and these endpoints and ports besides; its slots from `n` on
-- are empty.
pub record Gained (u v : Thread) (n : ℕ) (ends : ℤ → Bool) (ports : ℕ → Bool) : Type 0 where
  pub room : HasRoom v n
  pub sends : (e : ℤ) → cap_has_endpoint v e ≡ (cap_has_endpoint u e || ends e)
  pub uses : (port : ℕ) → cap_has_port v port ≡ (cap_has_port u port || ports port)

or_none : (b : Bool) → b ≡ (b || false)
or_none b = ground arith

pub Gained-same :
    (u v : Thread) (n : ℕ) → v ≡ u → HasRoom u n → Gained u v n (λ _. false) (λ _. false)
Gained-same u v n e room =
    subst (λ (w : Thread). Gained u w n (λ _. false) (λ _. false)) (sym e)
      (record {
        room = room;
        sends = λ x. or_none (cap_has_endpoint u x);
        uses = λ x. or_none (cap_has_port u x);
      })

-- the slot that a grant takes
room-free :
    (t : Thread) (n : ℕ) → HasRoom t n → n < cap_max → (i : ℕ) × (free_slot t ≡ some i) × (i ≤ n)
room-free t n room lt =
    let empty : is_null (t.ctable n).type_of ≡ true = ap is_null (room n (omega arith) lt) in
    let (i, e) =
      first_from-some (λ j. is_null (t.ctable j).type_of) 0 cap_max n (omega arith) (omega arith)
        empty in
    let first : IsFirst (λ j. is_null (t.ctable j).type_of) 0 cap_max i =
      first_from-IsFirst _ 0 cap_max e in
    (i, e, ground (arith, first.earlier n, empty))

stored :
    (t : Thread) (i n : ℕ) (c : Cap)
    → free_slot t ≡ some i
    → i ≤ n
    → HasRoom t n
    → Gained t (set_cap t i c) (suc n) (names_endpoint c) (covers_port c)
stored t i n c e le room =
    let (lt, empty) = free-null t e in
    record {
      room = λ k ge below.
          ap (λ (x : Cap). x.type_of) (update_ne t.ctable i k c (omega (arith, le, ge)))
          ∙ room k (omega arith) below;
      sends = λ x. has_endpoint-set_cap t i c x lt empty;
      uses = λ x. has_port-set_cap t i c x lt empty;
    }

pub grant_io-Gained :
    (t n base len : ℕ) (s : Kernel)
    → base + len < 2 ^ 16
    → n < cap_max
    → HasRoom (s.threads t) n
    → Gained
        (s.threads t)
        ((cap_grant_io (some t) base len s).0.threads t)
        (suc n)
        (λ _. false)
        (in_range base len)
unfolding cap_grant_io
grant_io-Gained t n base len s short lt room =
    let (i, e, le) = room-free (s.threads t) n room lt in
    let c : Cap = port_cap base len ((s.threads t).ctable i) in
    let g = stored (s.threads t) i n c e le room in
    let top : (base + len) % 2 ^ 16 ≡ base + len = omega (arith, short) in
    rw (e, cap_grant_io, ==_refl t)
      (record { room = g.room; sends = g.sends; uses = λ x. g.uses x ∙ rw top refl })

pub grant_cap-Gained :
    (t n : ℕ) (ep : ℤ) (s : Kernel)
    → n < cap_max
    → HasRoom (s.threads t) n
    → Gained
        (s.threads t)
        ((cap_grant_endpoint (some t) ep s).0.threads t)
        (suc n)
        (λ e. ep ==ℤ e)
        (λ _. false)
unfolding cap_grant_endpoint
grant_cap-Gained t n ep s lt room = elim (Bool-cases (cap_has_endpoint (s.threads t) ep)) [
  | inl has ↦
      rw (has, cap_grant_endpoint)
        (record {
          room = λ i le below. room i (omega arith) below;
          sends = λ x. held_again (s.threads t) ep x has;
          uses = λ x. or_none (cap_has_port (s.threads t) x);
        })
  | inr lacks ↦
      let (i, e, le) = room-free (s.threads t) n room lt in
      let c : Cap = endpoint_cap ep ((s.threads t).ctable i) in
      let g = stored (s.threads t) i n c e le room in
      rw (lacks, e, cap_grant_endpoint, ==_refl t)
        (record { room = g.room; sends = g.sends; uses = g.uses })
]
