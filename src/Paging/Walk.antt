-- ===== src/Paging/Walk.antt =====
-- The walk of `vmm_map` and `vmm_unmap` as a loop, and one step of it.
use mukern.Base.{
  ℕ, ◌+◌, ◌*◌, ◌/◌, ◌%◌, ◌^◌, ◌≡◌, ◌≢◌, ◌<◌, ◌≤◌, refl, sym, ap, ◌∙◌, Bool, true, false, List, [],
  ◌∷◌, Option, none, some, ◌⊎◌, not, ◌&&◌, Bool-cases, inl, inr, ◌==◌, ==_iff, ==_refl, ==_ne, ◌||◌,
  false≢true, arith, if◌then◌else◌,
}
use mukern.Thread.{Kernel, Pmm}
use mukern.Pmm.{page_size}
use mukern.Pmm.Frames.{in_use, IsSound}
use mukern.Paging.{is_present, is_large, frame_of, next_table, walk_tables, index_at}
use mukern.Paging.Translate.{Place, lets_write, lets_user, look, translate}

abbrev pub upper_indices : ℕ → List ℕ
upper_indices va = index_at 39 va ∷ index_at 30 va ∷ index_at 21 va ∷ []

-- The last table that user code comes to at these indices with the right to write.
unfoldable pub follow : (ℕ → ℕ) → ℕ → List ℕ → Option ℕ
follow phys table [] = some table
follow phys table (i ∷ is) =
    let pte = phys (table + 8 * i) in
    let rest = follow phys (frame_of pte) is in
    if is_present pte && not (is_large pte) && lets_write pte && lets_user pte then rest else none

-- A large page is in the way at these indices.
abbrev pub HasLarge : (ℕ → ℕ) → ℕ → List ℕ → Type 0
HasLarge phys table [] = ⊥
HasLarge phys table (i ∷ is) =
    let pte = phys (table + 8 * i) in
    (is_present pte ≡ true) × ((is_large pte ≡ true) ⊎ HasLarge phys (frame_of pte) is)

-- There is no free frame.
abbrev pub AllTaken : Pmm → Type 0
AllTaken p = (g : ℕ) → g < p.total_frames → in_use p g ≡ true

-- A table of pages: its address is that of a frame that is in use, and not 0.
pub record IsTable (p : Pmm) (table : ℕ) : Type 0 where
  pub aligned : table % page_size ≡ 0
  pub nonzero : table ≢ 0
  pub taken : in_use p (table / page_size) ≡ true

abbrev pub also : (ℕ → Bool) → ℕ → ℕ → Bool
also seen table f = (table / page_size == f) || seen f

-- The tables that hang on one another from `table` on, at these indices, are tables of pages that user
-- code may write through, and no frame comes twice among them and the frames `seen`.
abbrev pub IsChain : (ℕ → ℕ) → Pmm → (ℕ → Bool) → ℕ → List ℕ → Type 0
IsChain phys p seen table [] = Unit {0}
IsChain phys p seen table (i ∷ is) =
    is_present (phys (table + 8 * i)) ≡ true
    → is_large (phys (table + 8 * i)) ≡ false
    → let next = frame_of (phys (table + 8 * i)) in
      (lets_write (phys (table + 8 * i)) ≡ true)
      × (lets_user (phys (table + 8 * i)) ≡ true)
      × IsTable p next
      × (also seen table (next / page_size) ≡ false)
      × IsChain phys p (also seen table) next is

-- The walk as a loop over the indices.
unfoldable pub climb : List ℕ → Bool → Kernel × ℕ → Kernel × ℕ
climb [] create r = r
climb (i ∷ is) create (s, table) =
    if table == 0 then (s, 0) else climb is create (next_table table i create s)

pub climb_stopped : (is : List ℕ) (create : Bool) (s : Kernel) → climb is create (s, 0) ≡ (s, 0)
unfolding climb
climb_stopped [] create s = refl
climb_stopped (i ∷ is) create s = refl

pub walk-climb :
    (va : ℕ) (create : Bool) (s : Kernel)
    → frame_of s.cr3 ≢ 0
    → walk_tables va create s ≡ climb (upper_indices va) create (s, frame_of s.cr3)
unfolding walk_tables climb
walk-climb va create s root = rw (==_ne (frame_of s.cr3) 0 root) refl

-- What the walk leaves: the frames `seen` before are as they were, and the table `pt` that it has
-- come to is one that the processor comes to, whatever is written into that table.
pub record Climbed (s : Kernel) (seen : ℕ → Bool) (table : ℕ) (is : List ℕ) (s' : Kernel) (pt : ℕ)
    : Type 0 where
  pub sound : IsSound s'.pmm
  pub kept : (a : ℕ) → seen (a / page_size) ≡ true → s'.phys a ≡ s.phys a
  pub leads :
      (phys : ℕ → ℕ)
      → ((a : ℕ) → pt / page_size ≢ a / page_size → phys a ≡ s'.phys a)
      → follow phys table is ≡ some pt
  pub table_ok : pt % page_size ≡ 0
  pub not_null : pt ≢ 0
  pub apart : seen (pt / page_size) ≡ false

abbrev pub AreIndices : List ℕ → Type 0
AreIndices [] = Unit {0}
AreIndices (i ∷ is) = (i < 512) × AreIndices is

-- Where a walk may begin.
pub record MayClimb (s : Kernel) (seen : ℕ → Bool) (table : ℕ) (is : List ℕ) : Type 0 where
  pub sound : IsSound s.pmm
  pub narrow : s.pmm.total_frames ≤ 2 ^ 40
  pub start : IsTable s.pmm table
  pub seen_taken : (f : ℕ) → seen f ≡ true → in_use s.pmm f ≡ true
  pub fresh : seen (table / page_size) ≡ false
  pub zero_taken : in_use s.pmm 0 ≡ true
  pub chain : IsChain s.phys s.pmm seen table is
  pub indices : AreIndices is

pub or_left : (a b : Bool) → a ≡ true → (a || b) ≡ true
or_left a b h = ground arith

pub or_right : (a b : Bool) → b ≡ true → (a || b) ≡ true
or_right a b h = ground arith

-- The entry at index `i` lies in the frame of its table.
pub in_table :
    (table i : ℕ)
    → table % page_size ≡ 0
    → i < 512
    → (table + 8 * i) / page_size ≡ table / page_size
in_table table i al lt = omega (arith, al, lt)

-- One step to a table `next`, whose entry is `pte`, and the rest of the walk.
pub step-Climbed :
    (s s1 s' : Kernel) (seen : ℕ → Bool) (table i next pt pte : ℕ) (is : List ℕ)
    → table % page_size ≡ 0
    → i < 512
    → s1.phys (table + 8 * i) ≡ pte
    → is_present pte ≡ true
    → is_large pte ≡ false
    → lets_write pte ≡ true
    → lets_user pte ≡ true
    → frame_of pte ≡ next
    → ((a : ℕ) → seen (a / page_size) ≡ true → s1.phys a ≡ s.phys a)
    → Climbed s1 (also seen table) next is s' pt
    → Climbed s seen table (i ∷ is) s' pt
unfolding follow
step-Climbed s s1 s' seen table i next pt pte is al lt at present small writes users to_next same
      c =
    let frame : (table + 8 * i) / page_size ≡ table / page_size = in_table table i al lt in
    let seen_entry : also seen table ((table + 8 * i) / page_size) ≡ true =
      ap (also seen table) frame ∙ or_left _ _ (==_refl (table / page_size)) in
    let away : table / page_size ≢ pt / page_size = λ x.
      false≢true (sym c.apart ∙ or_left _ _ ((==_iff (table / page_size) (pt / page_size)).1 x)) in
    let entry : s'.phys (table + 8 * i) ≡ pte = c.kept (table + 8 * i) seen_entry ∙ at in
    record {
      sound = c.sound;
      kept = λ a h. c.kept a (or_right _ _ h) ∙ same a h;
      leads = λ phys h.
          let word : phys (table + 8 * i) ≡ pte =
            h (table + 8 * i) (λ x. away (sym frame ∙ sym x)) ∙ entry in
          rw (word, present, small, writes, users, to_next) (c.leads phys h);
      table_ok = c.table_ok;
      not_null = c.not_null;
      apart = ground (arith, c.apart);
    }

-- What the first step of such a walk has found.
follow-step :
    (phys : ℕ → ℕ) (table i pt : ℕ) (is : List ℕ)
    → follow phys table (i ∷ is) ≡ some pt
    → let pte = phys (table + 8 * i) in
      (is_present pte ≡ true)
      × (is_large pte ≡ false)
      × (lets_write pte ≡ true)
      × (lets_user pte ≡ true)
      × (follow phys (frame_of pte) is ≡ some pt)
unfolding follow
follow-step phys table i pt is h =
    let pte : ℕ = phys (table + 8 * i) in
    elim (Bool-cases (is_present pte && not (is_large pte) && lets_write pte && lets_user pte)) [
      | inr e ↦ absurd (cc (rw e at h))
      | inl e ↦
          (ground (arith, e), ground (arith, e), ground (arith, e), ground (arith, e), rw e at h)
    ]

-- Where the walk of user code comes to a last table, the processor looks at its entry.
follow-look :
    (phys : ℕ → ℕ) (cr3 va pt : ℕ)
    → follow phys (frame_of cr3) (upper_indices va) ≡ some pt
    → translate phys cr3 va ≡ look phys va true true (12 ∷ []) pt
unfolding translate look follow
follow-look phys cr3 va pt h =
    let t0 : ℕ = frame_of cr3 in
    let t1 : ℕ = frame_of (phys (t0 + 8 * index_at 39 va)) in
    let t2 : ℕ = frame_of (phys (t1 + 8 * index_at 30 va)) in
    let t3 : ℕ = frame_of (phys (t2 + 8 * index_at 21 va)) in
    let (p1, l1, w1, u1, h1) =
      follow-step phys t0 (index_at 39 va) pt (index_at 30 va ∷ index_at 21 va ∷ []) h in
    let (p2, l2, w2, u2, h2) = follow-step phys t1 (index_at 30 va) pt (index_at 21 va ∷ []) h1 in
    let (p3, l3, w3, u3, h3) = follow-step phys t2 (index_at 21 va) pt [] h2 in
    let found : some t3 ≡ some pt = h3 in
    let last : t3 ≡ pt = cc in
    rw (p1, l1, w1, u1, p2, l2, w2, u2, p3, l3, w3, u3)
      (ap (λ t. look phys va true true (12 ∷ []) t) last)

-- a page whose entry permits what `pte` does
abbrev pub page_of : ℕ → ℕ → Place
page_of pte x = record { at = x; writable = lets_write pte; user = lets_user pte }

pub translate-follow :
    (phys : ℕ → ℕ) (cr3 va pt v : ℕ)
    → follow phys (frame_of cr3) (upper_indices va) ≡ some pt
    → phys (pt + 8 * index_at 12 va) ≡ v
    → is_present v ≡ true
    → translate phys cr3 va ≡ some (page_of v (frame_of v + va % page_size))
unfolding look
translate-follow phys cr3 va pt v h at present =
    let low : frame_of v / 2 ^ 12 * 2 ^ 12 ≡ frame_of v = omega arith in
    follow-look phys cr3 va pt h
    ∙ rw (at, present) (ap (λ a. some (page_of v (a + va % page_size))) low)

pub translate-cleared :
    (phys : ℕ → ℕ) (cr3 va pt : ℕ)
    → follow phys (frame_of cr3) (upper_indices va) ≡ some pt
    → phys (pt + 8 * index_at 12 va) ≡ 0
    → translate phys cr3 va ≡ none
unfolding look
translate-cleared phys cr3 va pt h at = follow-look phys cr3 va pt h ∙ rw at refl

-- An entry that is not present is in the way at these indices.
abbrev pub Absent : (ℕ → ℕ) → ℕ → List ℕ → Type 0
Absent phys table [] = ⊥
Absent phys table (i ∷ is) =
    let pte = phys (table + 8 * i) in
    (is_present pte ≡ false)
    ⊎ ((is_present pte ≡ true) × (is_large pte ≡ false) × Absent phys (frame_of pte) is)

-- Then the processor finds nothing.
pub translate-Absent :
    (phys : ℕ → ℕ) (cr3 va : ℕ)
    → Absent phys (frame_of cr3) (upper_indices va)
    → translate phys cr3 va ≡ none
unfolding translate look
translate-Absent phys cr3 va (inl a) = rw a refl
translate-Absent phys cr3 va (inr (p, l, inl a)) = rw (p, l, a) refl
translate-Absent phys cr3 va (inr (p, l, inr (p2, l2, inl a))) = rw (p, l, p2, l2, a) refl
translate-Absent phys cr3 va (inr (p, l, inr (p2, l2, inr (p3, l3, never)))) = absurd never
