-- ===== src/Console/Bounds.antt =====
-- The line editor stays inside the client's buffer.

pub mod Keys
use mukern.Base.{
  ℕ, ℤ, zero, suc, ◌+◌, ◌-◌, ◌%◌, ◌^◌, ◌≡◌, ◌≢◌, ◌<◌, ◌≤◌, refl, sym, ap, ◌∙◌, Bool, true, false,
  List, Option, some, none, ltb, leb, ◌==◌, Bool-cases, update, update_ne, update_all, arith, inl,
  inr, if◌then◌else◌,
}
use mukern.Console.{Console, ring_pop, hist_push, copy_from, hmax, hlen, store_line, is_repeat}
use mukern.Console.Editor
use mukern.Console.Editor.{
  set_line, show_entry, hist_nav, finish_line, csi_tilde, csi_final, in_csi, after_esc, kill_line,
  cancel_line, plain_key, key, edit_loop, edit, ins_char, del_left, del_at, go_left, go_right,
  go_home, go_end, redraw_from, shift_up, shift_down, park, cut,
}

-- The editor of a line in a buffer of `max` bytes, of which the bytes from `max` on are those of `buf`:
-- the cursor is in the line, the line leaves room for its final 0, and the history is in order.
pub record Stays (max : ℕ) (buf : ℕ → ℕ) (s : Console) : Type 0 where
  pub size : s.rd_max ≡ max
  pub cursor : s.rd_pos ≤ s.rd_n
  pub fits : s.rd_n < max
  pub outside : (i : ℕ) → max ≤ i → s.rd_buf i ≡ buf i
  pub entries : (i : ℕ) → s.hist_len i < hlen
  pub saved : s.h_saved_n < hlen
  pub depth : s.h_nav ≤ s.h_count
  pub count : s.h_count ≤ hmax
  pub next : s.h_next < hmax

pub copy_from-outside :
    (src : ℕ → ℕ) (i k : ℕ) (dst : ℕ → ℕ) (j : ℕ) → i + k ≤ j → copy_from src i k dst j ≡ dst j
unfolding copy_from
copy_from-outside src i zero dst j le = refl
copy_from-outside src i (suc k) dst j le =
    copy_from-outside src (suc i) k (update dst i (src i)) j (omega arith)
    ∙ update_ne dst i j (src i) (omega arith)

pub shift_up-outside : (i k : ℕ) (buf : ℕ → ℕ) (j : ℕ) → i < j → shift_up i k buf j ≡ buf j
unfolding shift_up
shift_up-outside i zero buf j lt = refl
shift_up-outside i (suc k) buf j lt =
    shift_up-outside (i - 1) k (update buf i (buf (i - 1))) j (omega arith)
    ∙ update_ne buf i j (buf (i - 1)) (omega arith)

shift_down-outside : (i k : ℕ) (buf : ℕ → ℕ) (j : ℕ) → i + k ≤ j → shift_down i k buf j ≡ buf j
unfolding shift_down
shift_down-outside i zero buf j le = refl
shift_down-outside i (suc k) buf j le =
    shift_down-outside (suc i) k (update buf i (buf (suc i))) j (omega arith)
    ∙ update_ne buf i j (buf (suc i)) (omega arith)

module _ (max : ℕ) (buf : ℕ → ℕ) (room : max < 2 ^ 32) where
  pub ins_char-Stays : (c : ℕ) (s : Console) → Stays max buf s → Stays max buf (ins_char c s)
  unfolding ins_char
  ins_char-Stays c s ok = elim (Bool-cases (leb s.rd_max ((s.rd_n + 1) % 2 ^ 32))) [
    | inl e ↦ rw e ok
    | inr e ↦
        let more : s.rd_n + 1 < max = ground (arith, ok.size, ok.fits, e) in
        rw e (record {
          size = ok.size;
          cursor = omega (arith, ok.cursor);
          fits = omega arith;
          outside = λ i le.
              update_ne (shift_up s.rd_n (s.rd_n - s.rd_pos) s.rd_buf) s.rd_pos i c
                (omega (arith, ok.cursor))
              ∙ shift_up-outside s.rd_n (s.rd_n - s.rd_pos) s.rd_buf i (omega arith)
              ∙ ok.outside i le;
          entries = ok.entries;
          saved = ok.saved;
          depth = ok.depth;
          count = ok.count;
          next = ok.next;
        })
  ]

  pub del_left-Stays : (s : Console) → Stays max buf s → Stays max buf (del_left s)
  unfolding del_left redraw_from
  del_left-Stays s ok = elim (Bool-cases (s.rd_pos == 0)) [
    | inl e ↦ rw e ok
    | inr e ↦ rw e (record {
      size = ok.size;
      cursor = omega (arith, ok.cursor);
      fits = omega (arith, ok.fits);
      outside = λ i le.
          let some_pos : 0 < s.rd_pos = ground (arith, e) in
          shift_down-outside (s.rd_pos - 1) (s.rd_n - s.rd_pos) s.rd_buf i
            (omega (arith, ok.fits, ok.cursor))
          ∙ ok.outside i le;
      entries = ok.entries;
      saved = ok.saved;
      depth = ok.depth;
      count = ok.count;
      next = ok.next;
    })
  ]

  pub del_at-Stays : (s : Console) → Stays max buf s → Stays max buf (del_at s)
  unfolding del_at redraw_from
  del_at-Stays s ok = elim (Bool-cases (leb s.rd_n s.rd_pos)) [
    | inl e ↦ rw e ok
    | inr e ↦
        let inside : s.rd_pos < s.rd_n = ground (arith, e) in
        rw e (record {
          size = ok.size;
          cursor = omega arith;
          fits = omega (arith, ok.fits);
          outside = λ i le.
              shift_down-outside s.rd_pos (s.rd_n - 1 - s.rd_pos) s.rd_buf i
                (omega (arith, ok.fits))
              ∙ ok.outside i le;
          entries = ok.entries;
          saved = ok.saved;
          depth = ok.depth;
          count = ok.count;
          next = ok.next;
        })
  ]

  -- Only the cursor and the length of the line change.
  pub moved :
      (s : Console) (n pos : ℕ) (out : List ℕ) (esc csi : ℕ)
      → Stays max buf s
      → pos ≤ n
      → n < max
      → Stays max buf (record s { rd_n = n; rd_pos = pos; out = out; esc = esc; csi_num = csi })
  moved s n pos out esc csi ok le lt = record {
    size = ok.size;
    cursor = le;
    fits = lt;
    outside = ok.outside;
    entries = ok.entries;
    saved = ok.saved;
    depth = ok.depth;
    count = ok.count;
    next = ok.next;
  }

  pub go_left-Stays : (s : Console) → Stays max buf s → Stays max buf (go_left s)
  unfolding go_left
  go_left-Stays s ok = elim (Bool-cases (s.rd_pos == 0)) [
    | inl e ↦ rw e ok
    | inr e ↦ rw e (moved s _ _ _ _ _ ok (omega (arith, ok.cursor)) ok.fits)
  ]

  pub go_right-Stays : (s : Console) → Stays max buf s → Stays max buf (go_right s)
  unfolding go_right
  go_right-Stays s ok = elim (Bool-cases (ltb s.rd_pos s.rd_n)) [
    | inr e ↦ rw e ok
    | inl e ↦
        let inside : s.rd_pos < s.rd_n = ground (arith, e) in
        rw e (moved s _ _ _ _ _ ok (omega arith) ok.fits)
  ]

  pub go_home-Stays : (s : Console) → Stays max buf s → Stays max buf (go_home s)
  unfolding go_home
  go_home-Stays s ok = moved s _ _ _ _ _ ok (omega arith) ok.fits

  pub go_end-Stays : (s : Console) → Stays max buf s → Stays max buf (go_end s)
  unfolding go_end
  go_end-Stays s ok = elim (Bool-cases (ltb s.rd_pos s.rd_n)) [
    | inr e ↦ rw e ok
    | inl e ↦ rw e (moved s _ _ _ _ _ ok (omega arith) ok.fits)
  ]
