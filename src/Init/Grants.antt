-- ===== src/Init/Grants.antt =====
-- What a script of grants leaves in the tables of capabilities.
use mukern.Base.{
  ℕ, ℤ, suc, pos, ◌+◌, ◌^◌, ◌≡◌, ◌≢◌, ◌<◌, ◌≤◌, refl, sym, ap, ◌∙◌, subst, Bool, true, false,
  Option, some, List, [], ◌∷◌, ◌==◌, ==_ne, ==_iff, ◌==ℤ◌, ◌&&◌, ◌||◌, ltb, if◌then◌else◌,
  ℕ_discrete, Option-cases, Bool-cases, first_from, first_from-IsFirst, arith, inl, inr,
}
use mukern.Thread.{Kernel, Thread, Cap, null, cap_max, max_threads, thread_by_id}
use mukern.Cap.{
  cap_has_port, cap_has_endpoint, cap_grant_io, cap_grant_endpoint, names_endpoint, covers_port,
}
use mukern.Cap.Grant.{in_range, cap_grant_io_lem, cap_grant_endpoint_lem}
use mukern.Init.{Action, spawn, wait, grant_io, grant_cap, map_phys, go, perform, perform_all}
use mukern.Init.Gained.{HasRoom, Gained, Gained-same, grant_io-Gained, grant_cap-Gained}

-- the endpoints and ports that a call gives to the thread `t`, and the slots that it takes
abbrev pub gives : Action → ℕ → ℤ → Bool
gives (spawn prog child) t e = (0 == t) && (pos child ==ℤ e)
gives (grant_cap p ep) t e = (p == t) && (pos ep ==ℤ e)
gives _ t e = false

abbrev pub opens : Action → ℕ → ℕ → Bool
opens (grant_io p base len) t port = (p == t) && in_range base len port
opens _ t port = false

abbrev pub takes : Action → ℕ → ℕ
takes (spawn prog child) t = if 0 == t then 1 else 0
takes (grant_io p base len) t = if p == t then 1 else 0
takes (grant_cap p ep) t = if p == t then 1 else 0
takes _ t = 0

-- No range of ports wraps.
abbrev pub IsShort : Action → Type 0
IsShort (grant_io p base len) = base + len < 2 ^ 16
IsShort _ = Unit {0}

other_io :
    (p base len t : ℕ) (s : Kernel)
    → base + len < 2 ^ 16
    → p ≢ t
    → (cap_grant_io (thread_by_id (pos p)) base len s).0.threads t ≡ s.threads t
unfolding cap_grant_io
other_io p base len t s short ne = elim (Bool-cases (ltb p max_threads)) [
  | inr out ↦ rw (out, cap_grant_io) refl
  | inl in_table ↦ rw in_table (elim (cap_grant_io_lem p base len s short) [
    | inl (ok, exactly, rest) ↦ rest t ne
    | inr (full, same, all) ↦ ap (λ (k : Kernel). k.threads t) same
  ])
]

other_cap :
    (p t : ℕ) (ep : ℤ) (s : Kernel)
    → p ≢ t
    → (cap_grant_endpoint (thread_by_id (pos p)) ep s).0.threads t ≡ s.threads t
unfolding cap_grant_endpoint
other_cap p t ep s ne = elim (Bool-cases (ltb p max_threads)) [
  | inr out ↦ rw (out, cap_grant_endpoint) refl
  | inl in_table ↦ rw in_table (elim (cap_grant_endpoint_lem p ep s) [
    | inl (ok, exactly, rest, again) ↦ rest t ne
    | inr (full, same, all) ↦ ap (λ (k : Kernel). k.threads t) same
  ])
]

module _ (s : Kernel) (t n : ℕ) (in_table : t < max_threads) (room : HasRoom (s.threads t) n) where
  stays : (v : Thread) → v ≡ s.threads t → Gained (s.threads t) v (n + 0) (λ _. false) (λ _. false)
  stays v e = Gained-same (s.threads t) v (n + 0) e (λ i le lt. room i (omega arith) lt)

  found_self : (p : ℕ) → p ≡ t → thread_by_id (pos p) ≡ some t
  found_self p e =
      let below : ltb p max_threads ≡ true = ground (arith, e, in_table) in rw below (ap some e)

  -- The thread that a grant names is `t`.
  named :
      (p : ℕ) (after : Thread) (grant : Option ℕ → Thread) {ends : ℤ → Bool} {ports : ℕ → Bool}
      → p ≡ t
      → after ≡ grant (thread_by_id (pos p))
      → Gained (s.threads t) (grant (some t)) (suc n) ends ports
      → Gained (s.threads t) after (n + 1) ends ports
  named p after grant {ends} {ports} e at g =
      let one : suc n ≡ n + 1 = omega arith in
      subst (λ (v : Thread). Gained (s.threads t) v (n + 1) ends ports)
        (sym (at ∙ ap grant (found_self p e)))
        (subst (λ (k : ℕ). Gained (s.threads t) (grant (some t)) k ends ports) one g)

  -- A grant of an endpoint, of which the thread `t` may be the receiver.
  endpoint-Gained :
      (p ep : ℕ)
      → n + (if p == t then 1 else 0) ≤ cap_max
      → Gained
          (s.threads t)
          ((cap_grant_endpoint (thread_by_id (pos p)) (pos ep) s).0.threads t)
          (n + (if p == t then 1 else 0))
          (λ e. (p == t) && (pos ep ==ℤ e))
          (λ _. false)
  endpoint-Gained p ep fits =
      let after : Thread = (cap_grant_endpoint (thread_by_id (pos p)) (pos ep) s).0.threads t in
      let Goal : Bool → Type 0 = λ b.
        Gained (s.threads t) after (n + (if b then 1 else 0)) (λ e. b && (pos ep ==ℤ e))
          (λ _. false) in
      elim (ℕ_discrete p t) [
        | no ne ↦ subst Goal (sym (==_ne p t ne)) (stays after (other_cap p t (pos ep) s ne))
        | yes e ↦
            let same : (p == t) ≡ true = (==_iff p t).1 e in
            let g = grant_cap-Gained t n (pos ep) s (ground (arith, fits, same)) room in
            subst Goal (sym same)
              (named p after (λ o. (cap_grant_endpoint o (pos ep) s).0.threads t) e refl g)
      ]

  perform-Gained :
      (a : Action)
      → IsShort a
      → n + takes a t ≤ cap_max
      → Gained (s.threads t) ((perform a s).threads t) (n + takes a t) (gives a t) (opens a t)
  unfolding perform
  perform-Gained (spawn prog child) short fits = endpoint-Gained 0 child fits
  perform-Gained wait short fits = stays _ refl
  perform-Gained (map_phys va pa) short fits = stays _ refl
  perform-Gained (go p) short fits = stays _ refl
  perform-Gained (grant_io p base len) short fits =
      let after : Thread = (cap_grant_io (thread_by_id (pos p)) base len s).0.threads t in
      let Goal : Bool → Type 0 = λ b.
        Gained (s.threads t) after (n + (if b then 1 else 0)) (λ _. false)
          (λ port. b && in_range base len port) in
      elim (ℕ_discrete p t) [
        | no ne ↦ subst Goal (sym (==_ne p t ne)) (stays after (other_io p base len t s short ne))
        | yes e ↦
            let same : (p == t) ≡ true = (==_iff p t).1 e in
            let g = grant_io-Gained t n base len s short (ground (arith, fits, same)) room in
            subst Goal (sym same)
              (named p after (λ o. (cap_grant_io o base len s).0.threads t) e refl g)
      ]
  perform-Gained (grant_cap p ep) short fits = endpoint-Gained p ep fits

abbrev pub given : List Action → ℕ → ℤ → Bool
given [] t e = false
given (a ∷ script) t e = gives a t e || given script t e

abbrev pub opened : List Action → ℕ → ℕ → Bool
opened [] t port = false
opened (a ∷ script) t port = opens a t port || opened script t port

abbrev pub taken : List Action → ℕ → ℕ
taken [] t = 0
taken (a ∷ script) t = takes a t + taken script t

abbrev pub AreShort : List Action → Type 0
AreShort [] = Unit {0}
AreShort (a ∷ script) = IsShort a × AreShort script

or_assoc : (a b c d e : Bool) → a ≡ (b || c) → d ≡ (a || e) → d ≡ (b || (c || e))
or_assoc a b c d e h k = ground (arith, h, k)

-- A script adds to a thread what its grants name, and nothing else.
pub perform_all-Gained :
    (script : List Action) (s : Kernel) (t n : ℕ)
    → AreShort script
    → t < max_threads
    → HasRoom (s.threads t) n
    → n + taken script t ≤ cap_max
    → Gained
        (s.threads t)
        ((perform_all script s).threads t)
        (n + taken script t)
        (given script t)
        (opened script t)
unfolding perform_all
perform_all-Gained [] s t n short lt room fits =
    Gained-same (s.threads t) (s.threads t) (n + 0) refl (λ i le below. room i (omega arith) below)
perform_all-Gained (a ∷ script) s t n (one, short) lt room fits =
    let g = perform-Gained s t n lt room a one (omega (arith, fits)) in
    let h =
      perform_all-Gained script (perform a s) t (n + takes a t) short lt g.room
        (omega (arith, fits)) in
    record {
      room = λ i le below. h.room i (omega (arith, le)) below;
      sends = λ x. or_assoc _ _ _ _ _ (g.sends x) (h.sends x);
      uses = λ x. or_assoc _ _ _ _ _ (g.uses x) (h.uses x);
    }

-- An empty table holds nothing.
pub empty-sends : (t : Thread) (e : ℤ) → HasRoom t 0 → cap_has_endpoint t e ≡ false
unfolding cap_has_endpoint
empty-sends t e room =
    elim (Option-cases (first_from (λ i. names_endpoint (t.ctable i) e) 0 cap_max)) [
      | inl none_there ↦ rw none_there refl
      | inr (i, there) ↦
          let first = first_from-IsFirst (λ k. names_endpoint (t.ctable k) e) 0 cap_max there in
          absurd (
            no_name (t.ctable i) e (room i (omega arith) (omega (arith, first.below))) first.passes)
    ]
  where
    no_name : (c : Cap) (x : ℤ) → c.type_of ≡ null → names_endpoint c x ≡ true → ⊥
    no_name c x h k = ground (arith, h, k)

pub empty-uses : (t : Thread) (port : ℕ) → HasRoom t 0 → cap_has_port t port ≡ false
unfolding cap_has_port
empty-uses t port room =
    elim (Option-cases (first_from (λ i. covers_port (t.ctable i) port) 0 cap_max)) [
      | inl none_there ↦ rw none_there refl
      | inr (i, there) ↦
          let first = first_from-IsFirst (λ k. covers_port (t.ctable k) port) 0 cap_max there in
          absurd (
            no_cover (t.ctable i) port (room i (omega arith) (omega (arith, first.below)))
              first.passes)
    ]
  where
    no_cover : (c : Cap) (x : ℕ) → c.type_of ≡ null → covers_port c x ≡ true → ⊥
    no_cover c x h k = ground (arith, h, k)
