-- ===== src/Paging/Translate.antt =====
-- How the processor translates an address, as a description to hold `vmm_map` against: a walk over
-- four levels of tables, each entry 8 bytes long, to a page of 4 KiB, or to a large one of 2 MiB or 1 GiB.
-- An entry permits writes and user code only where every entry before it does.
use mukern.Base.{
  ℕ, ◌+◌, ◌*◌, ◌/◌, ◌%◌, ◌^◌, List, [], ◌∷◌, Option, some, none, Bool, true, not, ◌&&◌, ◌||◌, ◌==◌,
  ltb, if◌then◌else◌,
}
use mukern.Paging.{is_present, is_large, frame_of, index_at}

-- the bits of an entry that permit writes and user code
abbrev pub lets_write : ℕ → Bool
lets_write pte = pte / 2 % 2 == 1

abbrev pub lets_user : ℕ → Bool
lets_user pte = pte / 4 % 2 == 1

-- Where an address lies in physical memory, and what user code may do with it.
pub record Place : Type 0 where
  pub at : ℕ
  pub writable : Bool
  pub user : Bool

-- The walk from `table` on, over the levels whose indices begin at these bits of `va`; `w` and `u` say
-- what the entries before permit. A large entry of the root table is an error.
unfoldable pub look : (ℕ → ℕ) → ℕ → Bool → Bool → List ℕ → ℕ → Option Place
look phys va w u [] table = none
look phys va w u (shift ∷ shifts) table =
    let pte = phys (table + 8 * index_at shift va) in
    let page : Place = record {
      at = frame_of pte / 2 ^ shift * 2 ^ shift + va % 2 ^ shift;
      writable = w && lets_write pte;
      user = u && lets_user pte;
    } in
    let deeper = look phys va (w && lets_write pte) (u && lets_user pte) shifts (frame_of pte) in
    if not (is_present pte)
    then none
    else (if (shift == 12) || (ltb shift 39 && is_large pte)
        then some page
        else (if is_large pte then none else deeper))

unfoldable pub translate : (ℕ → ℕ) → ℕ → ℕ → Option Place
translate phys cr3 va = look phys va true true (39 ∷ 30 ∷ 21 ∷ 12 ∷ []) (frame_of cr3)
