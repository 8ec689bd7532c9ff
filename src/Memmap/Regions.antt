-- ===== src/Memmap/Regions.antt =====
-- arch/x86_64/mm/memmap.c: which regions the kernel hears of.
use mukern.Base.{
  ℕ, zero, suc, ◌+◌, ◌-◌, ◌^◌, ◌≡◌, ◌≢◌, ◌<◌, ◌≤◌, ◌⊎◌, ◌∙◌, refl, ap, subst, sym, true, false,
  List, [], ◌∷◌, some, ltb, ◌&&◌, Bool-cases, arith, inl, inr,
}
use mukern.Pmm.{MemRegion}
use mukern.Memmap.{
  entry_size, entry_region, entry_type, next_entry, is_usable, region_end, raise, walk_map,
}

abbrev pub count : List MemRegion → ℕ
count [] = 0
count (r ∷ rs) = suc (count rs)

abbrev pub In : MemRegion → List MemRegion → Type 0
In r [] = ⊥
In r (x ∷ xs) = (r ≡ x) ⊎ In r xs

-- From the entry at `p` on, there is an entry at `q`: each one is 4 bytes longer than its size says.
pub data EntryFrom (mem : ℕ → ℕ) (stop : ℕ) : ℕ → ℕ → Type 0 where
  here : {p : ℕ} → p < stop → EntryFrom mem stop p p
  there :
      {p q : ℕ}
      → p < stop
      → EntryFrom mem stop (p + entry_size mem p + 4) q
      → EntryFrom mem stop p q

-- The entry at `q` is of a region of available memory that is not empty.
abbrev pub IsRam : (ℕ → ℕ) → ℕ → Type 0
IsRam mem q = (entry_type mem q ≡ 1) × ((entry_region mem q).len ≢ 0)

-- No entry from `p` on has a size so large that adding 4 to it leaves 32 bits.
abbrev pub AreSized : (ℕ → ℕ) → ℕ → ℕ → Type 0
AreSized mem stop p = (q : ℕ) → EntryFrom mem stop p q → entry_size mem q + 4 < 2 ^ 32

-- The regions `rs`, `max` at most, are those of entries from `p` on, and of all of them if fewer than
-- `max`; and `t` is the largest of their ends and of `top`.
pub record Report (mem : ℕ → ℕ) (stop p max top : ℕ) (rs : List MemRegion) (t : ℕ) : Type 0 where
  pub few : count rs ≤ max
  pub entries :
      (r : MemRegion)
      → In r rs
      → (q : ℕ) × EntryFrom mem stop p q × IsRam mem q × (r ≡ entry_region mem q)
  pub complete :
      count rs < max → (q : ℕ) → EntryFrom mem stop p q → IsRam mem q → In (entry_region mem q) rs
  pub top_le : top ≤ t
  pub ends : (r : MemRegion) → In r rs → region_end r ≤ t
  pub top_as : (t ≡ top) ⊎ ((r : MemRegion) × In r rs × (t ≡ region_end r))

-- What the loop from `p` on returns.
abbrev pub Detected : (ℕ → ℕ) → ℕ → ℕ → ℕ → ℕ → ℕ → Type 0
Detected mem stop fuel p max top =
    (rs : List MemRegion) × (t : ℕ) × (walk_map fuel mem stop p max top ≡ some (rs, t))
    × Report mem stop p max top rs t

raise-cases : (top e : ℕ) → (raise top e ≡ top) ⊎ (raise top e ≡ e)
raise-cases top e = ground arith

module _ (mem : ℕ → ℕ) (stop : ℕ) where
  abbrev after : ℕ → ℕ
  after p = p + entry_size mem p + 4

  usable : (p : ℕ) → is_usable mem p ≡ true → IsRam mem p
  usable p e = (ground (arith, e), ground (arith, e))

  -- The entries from `p` on are that at `p` and those behind it.
  first_or_later : {p q : ℕ} → EntryFrom mem stop p q → (q ≡ p) ⊎ EntryFrom mem stop (after p) q
  first_or_later (here lt) = inl refl
  first_or_later (there lt e) = inr e

  no_entry : {p q : ℕ} → EntryFrom mem stop p q → p < stop
  no_entry (here lt) = lt
  no_entry (there lt e) = lt

  over-Report :
      (p max top : ℕ) → (ltb p stop && ltb 0 max) ≡ false → Report mem stop p max top [] top
  over-Report p max top over = record {
    few = omega arith;
    entries = λ r h. absurd h;
    complete = λ lt q e ram. let before = no_entry e in absurd (ground (arith, over, lt, before));
    top_le = omega arith;
    ends = λ r h. absurd h;
    top_as = inl refl;
  }

  skipped-Report :
      (p max top t : ℕ) (rs : List MemRegion)
      → p < stop
      → is_usable mem p ≡ false
      → Report mem stop (after p) max top rs t
      → Report mem stop p max top rs t
  skipped-Report p max top t rs lt unusable r = record {
    few = r.few;
    entries = λ x h. let (q, e, ram, eq) = r.entries x h in (q, there lt e, ram, eq);
    complete = λ less q e ram. elim (first_or_later e) [
      | inl at ↦ absurd (not_here (subst (IsRam mem) at ram))
      | inr e' ↦ r.complete less q e' ram
    ];
    top_le = r.top_le;
    ends = r.ends;
    top_as = r.top_as;
  }
    where
      not_here : ¬ IsRam mem p
      not_here (type, len) = ground (arith, type, len, unusable)

  taken-Report :
      (p max top t : ℕ) (rs : List MemRegion)
      → p < stop
      → 0 < max
      → is_usable mem p ≡ true
      → Report mem stop (after p) (max - 1) (raise top (region_end (entry_region mem p))) rs t
      → Report mem stop p max top (entry_region mem p ∷ rs) t
  taken-Report p max top t rs lt room ok r = record {
    few = omega (arith, room, r.few);
    entries = λ x h. elim h [
      | inl at ↦ (p, here lt, usable p ok, at)
      | inr old ↦ let (q, e, ram, eq) = r.entries x old in (q, there lt e, ram, eq)
    ];
    complete = λ less q e ram. elim (first_or_later e) [
      | inl at ↦ inl (ap (entry_region mem) at)
      | inr e' ↦ inr (r.complete (omega (arith, less)) q e' ram)
    ];
    top_le = ground (arith, r.top_le);
    ends = λ x h. elim h [
      | inl at ↦ subst (λ y. region_end y ≤ t) (sym at) (ground (arith, r.top_le))
      | inr old ↦ r.ends x old
    ];
    top_as = elim r.top_as [
      | inr (x, old, eq) ↦ inr (x, inr old, eq)
      | inl eq ↦ elim (raise-cases top (region_end (entry_region mem p))) [
        | inl same ↦ inl (eq ∙ same)
        | inr raised ↦ inr (entry_region mem p, inl refl, eq ∙ raised)
      ]
    ];
  }

  module _ (small : stop ≤ 2 ^ 33) where
    next_entry-after :
        (p : ℕ) → p < stop → entry_size mem p + 4 < 2 ^ 32 → next_entry mem p ≡ after p
    next_entry-after p lt fits = omega (arith, lt, fits, small)

    map_round :
        (fuel p max top : ℕ)
        → AreSized mem stop p
        → (p < stop → (m u : ℕ) → Detected mem stop fuel (after p) m u)
        → Detected mem stop (suc fuel) p max top
    unfolding walk_map
    map_round fuel p max top sized later = elim (Bool-cases (ltb p stop && ltb 0 max)) [
      | inr e ↦ rw e ([], top, refl, over-Report p max top e)
      | inl e ↦
          let lt : p < stop = ground (arith, e) in
          let room : 0 < max = ground (arith, e) in
          let next = next_entry-after p lt (sized p (here lt)) in
          elim (Bool-cases (is_usable mem p)) [
            | inr no_use ↦
                let (rs, t, out, report) = later lt max top in
                rw (e, no_use, next) (rs, t, out, skipped-Report p max top t rs lt no_use report)
            | inl ok ↦
                let end : ℕ = region_end (entry_region mem p) in
                let (rs, t, out, report) = later lt (max - 1) (raise top end) in
                rw (e, ok, next, out)
                  (entry_region mem p ∷ rs, t, refl, taken-Report p max top t rs lt room ok report)
          ]
    ]

    -- The loop of `arch_mem_detect` over the entries from `p` up to `stop`, at most 2^33, where no entry
    -- has a size that leaves 32 bits when 4 is added, ends. It reports `max` regions at most, each that of
    -- an entry of type 1 that is not empty, and all of them if they are fewer than `max`; and as the top of
    -- memory the largest of their ends and of the top before.
    pub walk_map-Detected :
        (fuel p max top : ℕ)
        → AreSized mem stop p
        → stop ≤ p + fuel
        → Detected mem stop (suc fuel) p max top
    walk_map-Detected zero p max top sized enough =
        map_round zero p max top sized (λ lt. absurd (omega (arith, lt, enough)))
    walk_map-Detected (suc n) p max top sized enough = map_round (suc n) p max top sized (λ lt m u.
        walk_map-Detected n (after p) m u (λ q e. sized q (there lt e)) (omega (arith, enough)))
