-- ===== src/Paging/Climb.antt =====
-- Where the walk of `vmm_map` and `vmm_unmap` leads.
use mukern.Base.{
  ℕ, ◌+◌, ◌*◌, ◌≡◌, ◌≢◌, ◌⊎◌, refl, sym, ◌∙◌, Bool, true, false, List, [], ◌∷◌, ◌==◌, ==_iff, ==_ne,
  false≢true, Bool-cases, inl, inr, arith, ap, true, false,
}
use mukern.Thread.{Kernel, Pmm}
use mukern.Pmm.{pmm_alloc_frame, page_size}
use mukern.Pmm.Frames.{in_use, pmm_alloc_frame_lem}
use mukern.Paging.{is_present, is_large, frame_of, next_table}
use mukern.Paging.Walk.{
  Absent, follow, HasLarge, AllTaken, also, climb, climb_stopped, Climbed, MayClimb, step-Climbed,
}
use mukern.Paging.Step.{
  grown, after-MayClimb, new-Climbed, next-MayClimb, new_table_none, new_table_some, new-small,
}

-- A walk that has stopped, and why.
abbrev pub Stopped : Kernel → ℕ → List ℕ → Kernel → ℕ → Type 0
Stopped s table is s' pt = (pt ≡ 0) × (HasLarge s.phys table is ⊎ AllTaken s'.pmm)

-- A walk that creates tables comes to the table that user code comes to, with the right to write, or it
-- stops at a large page or for want of a frame.
pub climb_lem :
    (is : List ℕ) (s : Kernel) (seen : ℕ → Bool) (table : ℕ)
    → MayClimb s seen table is
    → let (s', pt) = climb is true (s, table) in
      Stopped s table is s' pt ⊎ Climbed s seen table is s' pt
unfolding climb follow next_table
climb_lem [] s seen table ok = inr (record {
  sound = ok.sound;
  kept = λ a h. refl;
  leads = λ phys h. refl;
  table_ok = ok.start.aligned;
  not_null = ok.start.nonzero;
  apart = ok.fresh;
})
climb_lem (i ∷ is) s seen table ok =
    let e : ℕ = table + 8 * i in
    let go : (table == 0) ≡ false = ==_ne table 0 ok.start.nonzero in
    elim (Bool-cases (is_present (s.phys e))) [
      | inl present ↦ elim (Bool-cases (is_large (s.phys e))) [
        | inl large ↦
            rw (go, present, large, next_table, climb_stopped is true s)
              (inl (refl, inl (refl, inl refl)))
        | inr small ↦
            let next : ℕ = frame_of (s.phys e) in
            let may = next-MayClimb s seen table i is ok present small in
            rw (go, present, small, next_table)
              (elim (climb_lem is s (also seen table) next may) [
                | inl (z, inl below) ↦ inl (z, inl (refl, inr below))
                | inl (z, inr full) ↦ inl (z, inr full)
                | inr c ↦ inr (
                    step-Climbed s s _ seen table i next _ (s.phys e) is ok.start.aligned
                      ok.indices.0 refl present small (ok.chain present small).0
                      (ok.chain present small).1 refl (λ a h. refl) c)
              ])
      ]
      | inr absent ↦ elim (pmm_alloc_frame_lem s.pmm ok.sound) [
        | inr (all, none_left) ↦
            rw
              (
                go,
                absent,
                new_table_none e s none_left,
                climb_stopped is true (record s { pmm = s.pmm }),
              )
              (inl (refl, inr all))
        | inl (f, t, a) ↦ elim (Bool-cases (f * page_size == 0)) [
          | inl z ↦
              let zero : f ≡ 0 = ground (arith, z) in
              absurd (false≢true (sym t.was_free ∙ ap (in_use s.pmm) zero ∙ ok.zero_taken))
          | inr nz ↦
              let q : Pmm = (pmm_alloc_frame s.pmm).0 in
              let next : ℕ = f * page_size in
              let may =
                after-MayClimb s seen table i is ok q f t
                  (λ z. false≢true (sym nz ∙ (==_iff next 0).1 z)) in
              rw (go, absent, new_table_some e s f a nz)
                (elim (climb_lem is (grown e next q s) (also seen table) next may) [
                  | inl (z, inl below) ↦
                      absurd (new-small s seen table i is ok q f t is ok.indices.1 below)
                  | inl (z, inr full) ↦ inl (z, inr full)
                  | inr c ↦ inr (new-Climbed s seen table i is ok q f t _ _ c)
                ])
        ]
      ]
    ]

-- A walk that creates nothing changes nothing. It stops at a large page or an absent entry, or comes to
-- the table that user code comes to.
pub climb_found :
    (is : List ℕ) (s : Kernel) (seen : ℕ → Bool) (table : ℕ)
    → MayClimb s seen table is
    → ((climb is false (s, table) ≡ (s, 0)) × (HasLarge s.phys table is ⊎ Absent s.phys table is))
      ⊎ ((pt : ℕ) × (climb is false (s, table) ≡ (s, pt)) × (pt ≢ 0) × Climbed s seen table is s pt)
unfolding climb follow next_table
climb_found [] s seen table ok = inr (
  table,
  refl,
  ok.start.nonzero,
  record {
    sound = ok.sound;
    kept = λ a h. refl;
    leads = λ phys h. refl;
    table_ok = ok.start.aligned;
    not_null = ok.start.nonzero;
    apart = ok.fresh;
  },
)
climb_found (i ∷ is) s seen table ok =
    let e : ℕ = table + 8 * i in
    let go : (table == 0) ≡ false = ==_ne table 0 ok.start.nonzero in
    elim (Bool-cases (is_present (s.phys e))) [
      | inr absent ↦ rw (go, absent, climb_stopped is false s) (inl (refl, inr (inl refl)))
      | inl present ↦ elim (Bool-cases (is_large (s.phys e))) [
        | inl large ↦
            rw (go, present, large, climb_stopped is false s) (inl (refl, inl (refl, inl refl)))
        | inr small ↦
            let next : ℕ = frame_of (s.phys e) in
            rw (go, present, small)
              (elim (climb_found is s (also seen table) next
                (next-MayClimb s seen table i is ok present small)) [
                  | inl (at, inl below) ↦ inl (at, inl (refl, inr below))
                  | inl (at, inr below) ↦ inl (at, inr (inr (refl, refl, below)))
                  | inr (pt, at, nz, c) ↦ inr (
                    pt,
                    at,
                    nz,
                    step-Climbed s s s seen table i next pt (s.phys e) is ok.start.aligned
                        ok.indices.0 refl present small (ok.chain present small).0
                        (ok.chain present small).1 refl (λ a h. refl) c,
                  )
                ])
      ]
    ]
