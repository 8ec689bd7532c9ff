-- ===== src/Console/Drain.antt =====
-- The loop of `edit` takes the whole ring, unless it ends the line first.
use mukern.Base.{
  ℕ, zero, suc, ◌+◌, ◌%◌, ◌^◌, ◌≡◌, ◌<◌, ◌⊎◌, inl, inr, refl, ◌∙◌, Bool, true, false, Option, some,
  none, ◌==◌, ltb, leb, ◌&&◌, ◌||◌, Bool-cases, Option-cases, ==_iff, arith, if◌then◌else◌,
}
use mukern.Console.{Console, ring_pop, ring_size, hist_push, is_repeat}
use mukern.Console.Editor.{
  set_line, show_entry, hist_nav, finish_line, csi_tilde, csi_final, in_csi, after_esc, park,
  kill_line, cancel_line, plain_key, key, edit_loop, edit, ins_char, del_left, del_at, go_left,
  go_right, go_home, go_end, redraw_from, nav_to,
}
use mukern.Console.Ring.{InRing, waiting}

-- The ring has not changed.
pub record SameRing (s t : Console) : Type 0 where
  pub head_as : t.r_head ≡ s.r_head
  pub tail_as : t.r_tail ≡ s.r_tail

if-SameRing :
    (s : Console) (b : Bool) {x y : Console}
    → SameRing s x
    → SameRing s y
    → SameRing s (if b then x else y)
if-SameRing s true h k = h
if-SameRing s false h k = k

abbrev here : (s : Console) → SameRing s s
here s = record { head_as = refl; tail_as = refl }

ins_char-SameRing : (c : ℕ) (s : Console) → SameRing s (ins_char c s)
unfolding ins_char
ins_char-SameRing c s =
    if-SameRing s (leb s.rd_max ((s.rd_n + 1) % 2 ^ 32)) (here s)
      (record { head_as = refl; tail_as = refl })

del_left-SameRing : (s : Console) → SameRing s (del_left s)
unfolding del_left redraw_from
del_left-SameRing s =
    if-SameRing s (s.rd_pos == 0) (here s) (record { head_as = refl; tail_as = refl })

del_at-SameRing : (s : Console) → SameRing s (del_at s)
unfolding del_at redraw_from
del_at-SameRing s =
    if-SameRing s (leb s.rd_n s.rd_pos) (here s) (record { head_as = refl; tail_as = refl })

go_left-SameRing : (s : Console) → SameRing s (go_left s)
unfolding go_left
go_left-SameRing s =
    if-SameRing s (s.rd_pos == 0) (here s) (record { head_as = refl; tail_as = refl })

go_right-SameRing : (s : Console) → SameRing s (go_right s)
unfolding go_right
go_right-SameRing s =
    if-SameRing s (ltb s.rd_pos s.rd_n) (record { head_as = refl; tail_as = refl }) (here s)

go_home-SameRing : (s : Console) → SameRing s (go_home s)
unfolding go_home
go_home-SameRing s = record { head_as = refl; tail_as = refl }

go_end-SameRing : (s : Console) → SameRing s (go_end s)
unfolding go_end
go_end-SameRing s =
    if-SameRing s (ltb s.rd_pos s.rd_n) (record { head_as = refl; tail_as = refl }) (here s)

set_line-SameRing : (text : ℕ → ℕ) (n : ℕ) (s : Console) → SameRing s (set_line text n s)
unfolding set_line
set_line-SameRing text n s =
    let e : SameRing s (go_end s) = go_end-SameRing s in
    record { head_as = e.head_as; tail_as = e.tail_as }

after_set_line :
    (s t : Console) (text : ℕ → ℕ) (n : ℕ) → SameRing s t → SameRing s (set_line text n t)
after_set_line s t text n h =
    let e : SameRing t (set_line text n t) = set_line-SameRing text n t in
    record { head_as = e.head_as ∙ h.head_as; tail_as = e.tail_as ∙ h.tail_as }

show_entry-SameRing : (to : Option ℕ) (s : Console) → SameRing s (show_entry to s)
unfolding show_entry
show_entry-SameRing none s = here s
show_entry-SameRing (some nav) s =
    let p : Console = if (s.h_nav == 0) && ltb 0 nav then park s else s in
    let p_as : SameRing s p =
      if-SameRing s ((s.h_nav == 0) && ltb 0 nav) (record { head_as = refl; tail_as = refl })
        (here s) in
    let t : Console = record p { h_nav = nav } in
    let t_as : SameRing s t = record { head_as = p_as.head_as; tail_as = p_as.tail_as } in
    if-SameRing s (ltb s.h_count nav) (here s)
      (if-SameRing s (nav == 0) (after_set_line s t _ _ t_as) (after_set_line s t _ _ t_as))

hist_push-SameRing : (text : ℕ → ℕ) (n : ℕ) (s : Console) → SameRing s (hist_push text n s)
unfolding hist_push
hist_push-SameRing text n s =
    if-SameRing s (n == 0) (here s)
      (if-SameRing s (is_repeat text n s) (here s) (record { head_as = refl; tail_as = refl }))

finish_line-SameRing : (s : Console) → SameRing s (finish_line s)
unfolding finish_line
finish_line-SameRing s =
    let e = hist_push-SameRing _ s.rd_n _ in record { head_as = e.head_as; tail_as = e.tail_as }

csi_tilde-SameRing : (s : Console) → SameRing s (csi_tilde s)
unfolding csi_tilde
csi_tilde-SameRing s = if-SameRing s (s.csi_num == 3) (del_at-SameRing s) (
    if-SameRing s ((s.csi_num == 1) || (s.csi_num == 7)) (go_home-SameRing s)
      (if-SameRing s ((s.csi_num == 4) || (s.csi_num == 8)) (go_end-SameRing s) (here s)))

csi_final-SameRing : (c : ℕ) (s : Console) → SameRing s (csi_final c s)
unfolding csi_final hist_nav
csi_final-SameRing c s = if-SameRing s (c == 65) (show_entry-SameRing (nav_to true s.h_nav) s) (
    if-SameRing s (c == 66) (show_entry-SameRing (nav_to false s.h_nav) s) (
      if-SameRing s (c == 67) (go_right-SameRing s) (
        if-SameRing s (c == 68) (go_left-SameRing s) (
          if-SameRing s (c == 72) (go_home-SameRing s) (
            if-SameRing s (c == 70) (go_end-SameRing s)
              (if-SameRing s (c == 126) (csi_tilde-SameRing s) (here s)))))))

in_csi-SameRing : (c : ℕ) (s : Console) → SameRing s (in_csi c s)
unfolding in_csi
in_csi-SameRing c s =
    let e : SameRing s (csi_final c s) = csi_final-SameRing c s in
    if-SameRing s (leb 48 c && leb c 57) (record { head_as = refl; tail_as = refl })
      (record { head_as = e.head_as; tail_as = e.tail_as })

plain_key-SameRing : (c : ℕ) (s : Console) → SameRing s (plain_key c s)
unfolding plain_key kill_line cancel_line
plain_key-SameRing c s =
    let e : SameRing s (go_end s) = go_end-SameRing s in
    let x = finish_line-SameRing _ in
    if-SameRing s (c == 27) (record { head_as = refl; tail_as = refl })
      (if-SameRing s ((c == 13) || (c == 10)) (finish_line-SameRing s) (
        if-SameRing s ((c == 127) || (c == 8)) (del_left-SameRing s) (
          if-SameRing s (c == 1) (go_home-SameRing s) (
            if-SameRing s (c == 5) (go_end-SameRing s) (
              if-SameRing s (c == 2) (go_left-SameRing s) (
                if-SameRing s (c == 6) (go_right-SameRing s) (
                  if-SameRing s (c == 21) (record { head_as = e.head_as; tail_as = e.tail_as })
                    (if-SameRing s (c == 3) (record { head_as = x.head_as; tail_as = x.tail_as })
                      (if-SameRing s (leb 32 c && ltb c 127) (ins_char-SameRing c s)
                        (here s))))))))))

pub key-SameRing : (c : ℕ) (s : Console) → SameRing s (key c s)
unfolding key after_esc
key-SameRing c s =
    if-SameRing s (s.esc == 1) (record { head_as = refl; tail_as = refl })
      (if-SameRing s (s.esc == 2) (in_csi-SameRing c s) (plain_key-SameRing c s))

pub ring_pop-empty : (s : Console) → s.r_head ≡ s.r_tail → ring_pop s ≡ (s, none)
unfolding ring_pop
ring_pop-empty s e = rw ((==_iff s.r_head s.r_tail).1 e) refl

-- A byte of the ring leaves one byte less to take.
popped_one :
    (s : Console) {c : ℕ}
    → InRing s
    → (ring_pop s).1 ≡ some c
    → InRing (ring_pop s).0 × (suc (waiting (ring_pop s).0) ≡ waiting s)
unfolding ring_pop
popped_one s ok h = elim (Bool-cases (s.r_head == s.r_tail)) [
  | inl e ↦ cc (rw e at h)
  | inr e ↦ rw e (
    record { head_in = ok.head_in; tail_in = omega arith },
    ground (arith, ok.head_in, ok.tail_in, e),
  )
]

popped_none : (s : Console) → (ring_pop s).1 ≡ none → (ring_pop (ring_pop s).0).1 ≡ none
unfolding ring_pop
popped_none s h = elim (Bool-cases (s.r_head == s.r_tail)) [
  | inl e ↦ rw e (rw e refl)
  | inr e ↦ cc (rw e at h)
]

-- The loop is over: the line is finished, or the ring is empty.
abbrev pub IsOver : Console → Type 0
IsOver s = (s.rd_active ≡ false) ⊎ ((ring_pop s).1 ≡ none)

if-IsOver :
    (b : Bool) (x y : Console)
    → (b ≡ true → IsOver x)
    → (b ≡ false → IsOver y)
    → IsOver (if b then x else y)
if-IsOver true x y h k = h refl
if-IsOver false x y h k = k refl

edit_loop-IsOver :
    (fuel : ℕ) (s : Console) → InRing s → waiting s < fuel → IsOver (edit_loop fuel s)
unfolding edit_loop
edit_loop-IsOver zero s ok lt = absurd (omega arith)
edit_loop-IsOver (suc fuel) s ok lt =
    let t : Console = (ring_pop s).0 in
    elim (Option-cases (ring_pop s).1) [
      | inl e ↦ rw (e, edit_loop) (inr (popped_none s e))
      | inr (c, e) ↦
          let u : Console = key c t in
          let (t_ok, one_less) = popped_one s ok e in
          let same : SameRing t u = key-SameRing c t in
          let u_ok : InRing u = record {
            head_in = omega (arith, same.head_as, t_ok.head_in);
            tail_in = omega (arith, same.tail_as, t_ok.tail_in);
          } in
          let fewer : waiting u < fuel = omega (arith, same.head_as, same.tail_as, one_less, lt) in
          rw (e, edit_loop)
            (if-IsOver u.rd_active (edit_loop fuel u) u (λ on. edit_loop-IsOver fuel u u_ok fewer)
              (λ off. inl off))
    ]

-- A call of `edit` is over within its 256 rounds: the line is finished and answered, or every byte
-- that waited in the ring has been taken.
pub edit-IsOver : (s : Console) → InRing s → IsOver (edit s)
unfolding edit
edit-IsOver s ok =
    if-IsOver s.rd_active (edit_loop ring_size s) s
      (λ on. edit_loop-IsOver ring_size s ok (omega arith)) (λ off. inl off)
