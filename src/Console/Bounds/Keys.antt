-- ===== src/Console/Bounds/Keys.antt =====
-- The line editor stays inside the client's buffer, whatever is typed.
use mukern.Base.{
  ℕ, zero, suc, ◌+◌, ◌-◌, ◌%◌, ◌^◌, ◌<◌, ◌≤◌, ◌∙◌, Bool, true, false, ◌∷◌, Option, some, none, ltb,
  leb, ◌==◌, ◌&&◌, ◌||◌, Bool-cases, Option-cases, update, update_ne, update_all, arith, inl, inr,
  if◌then◌else◌,
}
use mukern.Console.{Console, ring_pop, hist_push, hmax, hlen, store_line, is_repeat, ring_size}
use mukern.Console.Editor.{
  set_line, show_entry, hist_nav, nav_to, finish_line, csi_tilde, csi_final, in_csi, after_esc,
  kill_line, cancel_line, plain_key, key, edit_loop, edit, go_end, park, cut, rub_line,
}
use mukern.Console.Bounds.{
  Stays, copy_from-outside, ins_char-Stays, del_left-Stays, del_at-Stays, go_left-Stays,
  go_right-Stays, go_home-Stays, go_end-Stays, moved,
}

ring_pop-Stays :
    (max : ℕ) (buf : ℕ → ℕ) (s : Console) → Stays max buf s → Stays max buf (ring_pop s).0
unfolding ring_pop
ring_pop-Stays max buf s ok = elim (Bool-cases (s.r_head == s.r_tail)) [
  | inl e ↦ rw e ok
  | inr e ↦ rw e (record {
    size = ok.size;
    cursor = ok.cursor;
    fits = ok.fits;
    outside = ok.outside;
    entries = ok.entries;
    saved = ok.saved;
    depth = ok.depth;
    count = ok.count;
    next = ok.next;
  })
]

module _ (max : ℕ) (buf : ℕ → ℕ) (room : max < 2 ^ 32) where
  set_line-Stays :
      (text : ℕ → ℕ) (n : ℕ) (s : Console) → Stays max buf s → Stays max buf (set_line text n s)
  unfolding set_line
  set_line-Stays text n s ok0 =
      let t : Console = rub_line (go_end s) in
      let ok : Stays max buf (go_end s) = go_end-Stays max buf room s ok0 in
      let k_lt : cut t.rd_max n < max = ground (arith, ok.size, ok.fits) in
      record {
        size = ok.size;
        cursor = omega arith;
        fits = k_lt;
        outside = λ i le.
            copy_from-outside text 0 (cut t.rd_max n) t.rd_buf i (omega arith) ∙ ok.outside i le;
        entries = ok.entries;
        saved = ok.saved;
        depth = ok.depth;
        count = ok.count;
        next = ok.next;
      }

  park-Stays : (s : Console) → Stays max buf s → Stays max buf (park s)
  park-Stays s ok = record {
    size = ok.size;
    cursor = ok.cursor;
    fits = ok.fits;
    outside = ok.outside;
    entries = ok.entries;
    saved = ground arith;
    depth = ok.depth;
    count = ok.count;
    next = ok.next;
  }

  nav-Stays :
      (s : Console) (nav : ℕ)
      → Stays max buf s
      → nav ≤ s.h_count
      → Stays max buf (record s { h_nav = nav })
  nav-Stays s nav ok le = record {
    size = ok.size;
    cursor = ok.cursor;
    fits = ok.fits;
    outside = ok.outside;
    entries = ok.entries;
    saved = ok.saved;
    depth = le;
    count = ok.count;
    next = ok.next;
  }

  show_entry-Stays :
      (to : Option ℕ) (s : Console) → Stays max buf s → Stays max buf (show_entry to s)
  unfolding show_entry
  show_entry-Stays none s ok = ok
  show_entry-Stays (some nav) s ok = elim (Bool-cases (ltb s.h_count nav)) [
    | inl e ↦ rw e ok
    | inr e ↦
        let le : nav ≤ s.h_count = ground (arith, e) in
        let p : Console = if (s.h_nav == 0) && ltb 0 nav then park s else s in
        let p_ok : Stays max buf p = elim (Bool-cases ((s.h_nav == 0) && ltb 0 nav)) [
          | inl h ↦ rw h (park-Stays s ok)
          | inr h ↦ rw h ok
        ] in
        let p_le : nav ≤ p.h_count = elim (Bool-cases ((s.h_nav == 0) && ltb 0 nav)) [
          | inl h ↦ rw h le
          | inr h ↦ rw h le
        ] in
        let t : Console = record p { h_nav = nav } in
        let t_ok : Stays max buf t = nav-Stays p nav p_ok p_le in
        elim (Bool-cases (nav == 0)) [
          | inl h ↦ rw (e, h) (set_line-Stays t.h_saved t.h_saved_n t t_ok)
          | inr h ↦
              rw (e, h)
                (set_line-Stays (t.hist ((t.h_next + hmax - nav) % hmax))
                  (t.hist_len ((t.h_next + hmax - nav) % hmax)) t t_ok)
        ]
  ]

  store_line-Stays :
      (text : ℕ → ℕ) (n : ℕ) (s : Console)
      → n < hlen
      → Stays max buf s
      → Stays max buf (store_line text n s)
  store_line-Stays text n s lt ok = record {
    size = ok.size;
    cursor = ok.cursor;
    fits = ok.fits;
    outside = ok.outside;
    entries = λ i. update_all (λ j m. m < hlen) s.hist_len s.h_next n lt i (λ ne. ok.entries i);
    saved = ok.saved;
    depth = ground (arith, ok.depth);
    count = ground (arith, ok.count);
    next = omega arith;
  }

  hist_push-Stays :
      (text : ℕ → ℕ) (n : ℕ) (s : Console) → Stays max buf s → Stays max buf (hist_push text n s)
  unfolding hist_push
  hist_push-Stays text n s ok = elim (Bool-cases (n == 0)) [
    | inl e ↦ rw e ok
    | inr e ↦ elim (Bool-cases (is_repeat text n s)) [
      | inl h ↦ rw (e, h) ok
      | inr h ↦ rw (e, h) (store_line-Stays text _ s (ground arith) ok)
    ]
  ]

  finish_line-Stays : (s : Console) → Stays max buf s → Stays max buf (finish_line s)
  unfolding finish_line
  finish_line-Stays s ok =
      let t : Console = record s { out = 10 ∷ s.out; rd_buf = update s.rd_buf s.rd_n 0 } in
      let t_ok : Stays max buf t = record {
        size = ok.size;
        cursor = ok.cursor;
        fits = ok.fits;
        outside = λ i le. update_ne s.rd_buf s.rd_n i 0 (omega (arith, ok.fits)) ∙ ok.outside i le;
        entries = ok.entries;
        saved = ok.saved;
        depth = ok.depth;
        count = ok.count;
        next = ok.next;
      } in
      let u : Stays max buf (hist_push t.rd_buf t.rd_n t) =
        hist_push-Stays t.rd_buf t.rd_n t t_ok in
      record {
        size = u.size;
        cursor = u.cursor;
        fits = u.fits;
        outside = u.outside;
        entries = u.entries;
        saved = u.saved;
        depth = u.depth;
        count = u.count;
        next = u.next;
      }

  if-Stays :
      (b : Bool) {x y : Console}
      → Stays max buf x
      → Stays max buf y
      → Stays max buf (if b then x else y)
  if-Stays true h k = h
  if-Stays false h k = k

  csi_tilde-Stays : (s : Console) → Stays max buf s → Stays max buf (csi_tilde s)
  unfolding csi_tilde
  csi_tilde-Stays s ok = if-Stays (s.csi_num == 3) (del_at-Stays max buf room s ok) (
      if-Stays ((s.csi_num == 1) || (s.csi_num == 7)) (go_home-Stays max buf room s ok)
        (if-Stays ((s.csi_num == 4) || (s.csi_num == 8)) (go_end-Stays max buf room s ok) ok))

  csi_final-Stays : (c : ℕ) (s : Console) → Stays max buf s → Stays max buf (csi_final c s)
  unfolding csi_final hist_nav
  csi_final-Stays c s ok = if-Stays (c == 65) (show_entry-Stays (nav_to true s.h_nav) s ok) (
      if-Stays (c == 66) (show_entry-Stays (nav_to false s.h_nav) s ok) (
        if-Stays (c == 67) (go_right-Stays max buf room s ok) (
          if-Stays (c == 68) (go_left-Stays max buf room s ok) (
            if-Stays (c == 72) (go_home-Stays max buf room s ok) (
              if-Stays (c == 70) (go_end-Stays max buf room s ok)
                (if-Stays (c == 126) (csi_tilde-Stays s ok) ok))))))

  in_csi-Stays : (c : ℕ) (s : Console) → Stays max buf s → Stays max buf (in_csi c s)
  unfolding in_csi
  in_csi-Stays c s ok =
      let t : Stays max buf (csi_final c s) = csi_final-Stays c s ok in
      if-Stays (leb 48 c && leb c 57) (moved max buf room s _ _ _ _ _ ok ok.cursor ok.fits)
        (moved max buf room (csi_final c s) _ _ _ _ _ t t.cursor t.fits)

  after_esc-Stays : (c : ℕ) (s : Console) → Stays max buf s → Stays max buf (after_esc c s)
  unfolding after_esc
  after_esc-Stays c s ok = moved max buf room s _ _ _ _ _ ok ok.cursor ok.fits

  kill_line-Stays : (s : Console) → Stays max buf s → Stays max buf (kill_line s)
  unfolding kill_line
  kill_line-Stays s ok0 =
      let ok : Stays max buf (go_end s) = go_end-Stays max buf room s ok0 in
      moved max buf room (go_end s) _ _ _ _ _ ok (omega arith) (omega (arith, ok.fits))

  cancel_line-Stays : (s : Console) → Stays max buf s → Stays max buf (cancel_line s)
  unfolding cancel_line
  cancel_line-Stays s ok =
      finish_line-Stays _ (moved max buf room s _ _ _ _ _ ok (omega arith) (omega (arith, ok.fits)))

  plain_key-Stays : (c : ℕ) (s : Console) → Stays max buf s → Stays max buf (plain_key c s)
  unfolding plain_key
  plain_key-Stays c s ok =
      if-Stays (c == 27) (moved max buf room s _ _ _ _ _ ok ok.cursor ok.fits) (
        if-Stays ((c == 13) || (c == 10)) (finish_line-Stays s ok) (
          if-Stays ((c == 127) || (c == 8)) (del_left-Stays max buf room s ok) (
            if-Stays (c == 1) (go_home-Stays max buf room s ok) (
              if-Stays (c == 5) (go_end-Stays max buf room s ok) (
                if-Stays (c == 2) (go_left-Stays max buf room s ok) (
                  if-Stays (c == 6) (go_right-Stays max buf room s ok) (
                    if-Stays (c == 21) (kill_line-Stays s ok) (
                      if-Stays (c == 3) (cancel_line-Stays s ok) (
                        if-Stays (leb 32 c && ltb c 127) (ins_char-Stays max buf room c s ok)
                          ok)))))))))

  key-Stays : (c : ℕ) (s : Console) → Stays max buf s → Stays max buf (key c s)
  unfolding key
  key-Stays c s ok =
      if-Stays (s.esc == 1) (after_esc-Stays c s ok)
        (if-Stays (s.esc == 2) (in_csi-Stays c s ok) (plain_key-Stays c s ok))

  edit_loop-Stays : (fuel : ℕ) (s : Console) → Stays max buf s → Stays max buf (edit_loop fuel s)
  unfolding edit_loop
  edit_loop-Stays zero s ok = ok
  edit_loop-Stays (suc fuel) s ok =
      let t : Console = (ring_pop s).0 in
      let t_ok : Stays max buf t = ring_pop-Stays max buf s ok in
      elim (Option-cases (ring_pop s).1) [
        | inl e ↦ rw (e, edit_loop) t_ok
        | inr (c, e) ↦
            let u_ok : Stays max buf (key c t) = key-Stays c t t_ok in
            rw (e, edit_loop)
              (if-Stays (key c t).rd_active (edit_loop-Stays fuel (key c t) u_ok) u_ok)
      ]

  -- For a request with room, the length of the line below `rd_max`, so that `rd_max` is not 0, no input
  -- takes the line editor out of the client's buffer: it leaves every byte from
  -- `rd_max` on as it was, and keeps the cursor in the line, room for the final 0 behind the line,
  -- and the history in its table.
  pub edit-Stays : (s : Console) → Stays max buf s → Stays max buf (edit s)
  unfolding edit
  edit-Stays s ok = if-Stays s.rd_active (edit_loop-Stays ring_size s ok) ok
