-- ===== src/Console/Lines.antt =====
-- What typing and deleting do to the text of the line.
use mukern.Base.{
  ℕ, zero, suc, ◌+◌, ◌-◌, ◌%◌, ◌^◌, ◌≡◌, ◌<◌, ◌≤◌, refl, ap, ◌∙◌, subst, false, ◌==◌, leb, update,
  update_ne, update_self, ℕ_discrete, dec_lt, arith,
}
use mukern.Console.{Console}
use mukern.Console.Editor.{shift_up, shift_down, opened, ins_char, del_left, redraw_from}
use mukern.Console.Bounds.{shift_up-outside}

shift_up-below : (i k : ℕ) (buf : ℕ → ℕ) (j : ℕ) → j + k ≤ i → shift_up i k buf j ≡ buf j
unfolding shift_up
shift_up-below i zero buf j le = refl
shift_up-below i (suc k) buf j le =
    shift_up-below (i - 1) k (update buf i (buf (i - 1))) j (omega arith)
    ∙ update_ne buf i j (buf (i - 1)) (omega arith)

shift_up-moved :
    (i k : ℕ) (buf : ℕ → ℕ) (j : ℕ) → k ≤ i → i < j + k → j ≤ i → shift_up i k buf j ≡ buf (j - 1)
unfolding shift_up
shift_up-moved i zero buf j ki lo hi = absurd (omega arith)
shift_up-moved i (suc k) buf j ki lo hi = elim (ℕ_discrete i j) [
  | yes e ↦
      shift_up-outside (i - 1) k (update buf i (buf (i - 1))) j (omega arith)
      ∙ subst (λ n. update buf i (buf (i - 1)) n ≡ buf (n - 1)) e (update_self buf i (buf (i - 1)))
  | no ne ↦
      shift_up-moved (i - 1) k (update buf i (buf (i - 1))) j (omega arith) (omega arith)
        (omega arith)
      ∙ update_ne buf i (j - 1) (buf (i - 1)) (omega arith)
]

shift_down-below : (i k : ℕ) (buf : ℕ → ℕ) (j : ℕ) → j < i → shift_down i k buf j ≡ buf j
unfolding shift_down
shift_down-below i zero buf j lt = refl
shift_down-below i (suc k) buf j lt =
    shift_down-below (suc i) k (update buf i (buf (suc i))) j (omega arith)
    ∙ update_ne buf i j (buf (suc i)) (omega arith)

shift_down-moved :
    (i k : ℕ) (buf : ℕ → ℕ) (j : ℕ) → i ≤ j → j < i + k → shift_down i k buf j ≡ buf (suc j)
unfolding shift_down
shift_down-moved i zero buf j le lt = absurd (omega arith)
shift_down-moved i (suc k) buf j le lt = elim (ℕ_discrete i j) [
  | yes e ↦
      shift_down-below (suc i) k (update buf i (buf (suc i))) j (omega arith)
      ∙ subst (λ n. update buf i (buf (suc i)) n ≡ buf (suc n)) e (update_self buf i (buf (suc i)))
  | no ne ↦
      shift_down-moved (suc i) k (update buf i (buf (suc i))) j (omega arith) (omega arith)
      ∙ update_ne buf i (suc j) (buf (suc i)) (omega arith)
]

-- The cursor is in the line, and the buffer has room for one character more.
pub record HasRoom (s : Console) : Type 0 where
  pub cursor : s.rd_pos ≤ s.rd_n
  pub room : s.rd_n + 1 < s.rd_max
  pub word : s.rd_max < 2 ^ 32

opened-before : (c : ℕ) (s : Console) (j : ℕ) → HasRoom s → j < s.rd_pos → opened c s j ≡ s.rd_buf j
opened-before c s j ok lt =
    let le : s.rd_pos ≤ s.rd_n = ok.cursor in
    update_ne (shift_up s.rd_n (s.rd_n - s.rd_pos) s.rd_buf) s.rd_pos j c (omega arith)
    ∙ shift_up-below s.rd_n (s.rd_n - s.rd_pos) s.rd_buf j (omega arith)

opened-behind :
    (c : ℕ) (s : Console) (j : ℕ)
    → HasRoom s
    → s.rd_pos ≤ j
    → j < s.rd_n
    → opened c s (suc j) ≡ s.rd_buf j
opened-behind c s j ok le lt =
    let back : suc j - 1 ≡ j = omega arith in
    update_ne (shift_up s.rd_n (s.rd_n - s.rd_pos) s.rd_buf) s.rd_pos (suc j) c (omega arith)
    ∙ shift_up-moved s.rd_n (s.rd_n - s.rd_pos) s.rd_buf (suc j) (omega arith) (omega arith)
        (omega arith)
    ∙ ap s.rd_buf back

has_room : (s : Console) → HasRoom s → leb s.rd_max ((s.rd_n + 1) % 2 ^ 32) ≡ false
has_room s ok = ground (arith, ok.room, ok.word)

-- A character typed in a line with room goes in at the cursor: what stands before it stays, what
-- stands behind it moves up by one, and line and cursor move on by one.
pub ins_char_lem :
    (c : ℕ) (s : Console)
    → HasRoom s
    → let t = ins_char c s in
      (t.rd_n ≡ s.rd_n + 1)
      × (t.rd_pos ≡ s.rd_pos + 1)
      × (t.rd_buf s.rd_pos ≡ c)
      × ((j : ℕ) → j < s.rd_pos → t.rd_buf j ≡ s.rd_buf j)
      × ((j : ℕ) → s.rd_pos ≤ j → j < s.rd_n → t.rd_buf (suc j) ≡ s.rd_buf j)
unfolding ins_char
ins_char_lem c s ok = rw (has_room s ok) (
  refl,
  refl,
  update_self (shift_up s.rd_n (s.rd_n - s.rd_pos) s.rd_buf) s.rd_pos c,
  λ j. opened-before c s j ok,
  λ j. opened-behind c s j ok,
)

del_left-buf :
    (t : Console) (p : ℕ) (j : ℕ)
    → t.rd_pos ≡ suc p
    → ((del_left t).rd_n ≡ t.rd_n - 1)
      × ((del_left t).rd_pos ≡ p)
      × (j < p → (del_left t).rd_buf j ≡ t.rd_buf j)
      × (p ≤ j → suc j < t.rd_n → (del_left t).rd_buf j ≡ t.rd_buf (suc j))
unfolding del_left redraw_from
del_left-buf t p j e =
    let nonzero : (t.rd_pos == 0) ≡ false = ground (arith, e) in
    rw nonzero (
      refl,
      omega (arith, e),
      λ lt. shift_down-below (t.rd_pos - 1) (t.rd_n - t.rd_pos) t.rd_buf j (omega (arith, e, lt)),
      λ le lt.
          shift_down-moved (t.rd_pos - 1) (t.rd_n - t.rd_pos) t.rd_buf j (omega (arith, e, le))
            (omega (arith, e, le, lt)),
    )

-- Backspace takes back a character that has just been typed in a line with room: the line, its
-- length and the cursor are what they were.
pub del_left-ins_char :
    (c : ℕ) (s : Console)
    → HasRoom s
    → let t = del_left (ins_char c s) in
      (t.rd_n ≡ s.rd_n) × (t.rd_pos ≡ s.rd_pos) × ((j : ℕ) → j < s.rd_n → t.rd_buf j ≡ s.rd_buf j)
del_left-ins_char c s ok =
    let u : Console = ins_char c s in
    let (n, pos, at, before, behind) = ins_char_lem c s ok in
    let next : u.rd_pos ≡ suc s.rd_pos = omega (arith, pos) in
    let (n', pos', _, _) = del_left-buf u s.rd_pos 0 next in
    (
      omega (arith, n, n'),
      pos',
      λ j lt. elim (dec_lt j s.rd_pos) [
        | yes left ↦ (del_left-buf u s.rd_pos j next).2 left ∙ before j left
        | no right ↦
            (del_left-buf u s.rd_pos j next).3 (omega arith) (omega (arith, lt, n))
            ∙ behind j (omega arith) lt
      ],
    )
