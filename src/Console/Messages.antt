-- ===== src/Console/Messages.antt =====
-- drivers/console/main.c: the messages of the driver.
use mukern.Base.{
  ℕ, ℤ, zero, suc, ◌+◌, ◌%◌, ◌^◌, ◌≡◌, inl, inr, ap, Bool, true, false, Option, none, List, [], ◌∷◌,
  ◌==◌, ==_iff, Bool-cases, Option-cases, arith, if◌then◌else◌,
}
use mukern.Abi.{Msg, msg_irq, msg_write, msg_readline}
use mukern.Console.{Console, ring_push, ring_pop, ring_size}
use mukern.Console.Editor.{edit, edit_loop, key, print_out, start_line}
use mukern.Console.Ring.{InRing, ring_push_lem, ring_pop_lem}
use mukern.Console.Drain.{SameRing, key-SameRing, IsOver, edit-IsOver, ring_pop-empty}

-- `drain_rx`, with the bytes that wait on the line
unfoldable pub drain_rx : List ℕ → Console → Console
drain_rx [] s = s
drain_rx (c ∷ rx) s = drain_rx rx (ring_push c s)

-- MSG_WRITE: the bytes of the client, and the reply
abbrev pub write_text : ℤ → Msg → (ℕ → ℕ) → Console → Console
write_text from m mem s = record s {
  out = print_out (λ i. mem (m.data0 + i)) 0 (m.data1 % 2 ^ 32) s.out;
  replies = (from, 0) ∷ s.replies;
}

-- One round of `main`, with the message, its sender, the bytes of memory and those that wait on the
-- line. Any other message is dropped, without a reply.
unfoldable pub con_handle : ℤ → Msg → (ℕ → ℕ) → List ℕ → Console → Console
con_handle from m mem rx s =
    if m.label == msg_irq
    then edit (drain_rx rx s)
    else (if m.label == msg_write
        then write_text from m mem s
        else (if m.label == msg_readline
            then edit (start_line from (λ i. mem (m.data0 + i)) m.data1 s)
            else s))

-- Between two messages: the ring is in range, and there is no line to read or no byte to take.
pub record Rests (s : Console) : Type 0 where
  pub in_ring : InRing s
  pub over : IsOver s

drain_rx-InRing : (rx : List ℕ) (s : Console) → InRing s → InRing (drain_rx rx s)
unfolding drain_rx
drain_rx-InRing [] s ok = ok
drain_rx-InRing (c ∷ rx) s ok = drain_rx-InRing rx (ring_push c s) (ring_push_lem c s ok).0

if-InRing : (b : Bool) (x y : Console) → InRing x → InRing y → InRing (if b then x else y)
if-InRing true x y h k = h
if-InRing false x y h k = k

edit_loop-InRing : (fuel : ℕ) (s : Console) → InRing s → InRing (edit_loop fuel s)
unfolding edit_loop
edit_loop-InRing zero s ok = ok
edit_loop-InRing (suc fuel) s ok =
    let t : Console = (ring_pop s).0 in
    let t_ok : InRing t = (ring_pop_lem s ok).0 in
    elim (Option-cases (ring_pop s).1) [
      | inl e ↦ rw (e, edit_loop) t_ok
      | inr (c, e) ↦
          let u : Console = key c t in
          let same : SameRing t u = key-SameRing c t in
          let u_ok : InRing u = record {
            head_in = omega (arith, same.head_as, t_ok.head_in);
            tail_in = omega (arith, same.tail_as, t_ok.tail_in);
          } in
          rw (e, edit_loop)
            (if-InRing u.rd_active (edit_loop fuel u) u (edit_loop-InRing fuel u u_ok) u_ok)
    ]

edit-Rests : (s : Console) → InRing s → Rests (edit s)
unfolding edit
edit-Rests s ok = record {
  in_ring = if-InRing s.rd_active (edit_loop ring_size s) s (edit_loop-InRing ring_size s ok) ok;
  over = edit-IsOver s ok;
}

start_line-InRing :
    (from : ℤ) (buf : ℕ → ℕ) (max : ℕ) (s : Console) → InRing s → InRing (start_line from buf max s)
unfolding start_line
start_line-InRing from buf max s ok = record { head_in = ok.head_in; tail_in = ok.tail_in }

no_byte : (s : Console) → (ring_pop s).1 ≡ none → s.r_head ≡ s.r_tail
unfolding ring_pop
no_byte s h = elim (Bool-cases (s.r_head == s.r_tail)) [
  | inl e ↦ (==_iff s.r_head s.r_tail).0 e
  | inr e ↦ cc (rw e at h)
]

write_text-Rests :
    (from : ℤ) (m : Msg) (mem : ℕ → ℕ) (s : Console) → Rests s → Rests (write_text from m mem s)
write_text-Rests from m mem s ok = record {
  in_ring = record { head_in = ok.in_ring.head_in; tail_in = ok.in_ring.tail_in };
  over = elim ok.over [
    | inl off ↦ inl off
    | inr empty ↦ inr (
        ap (λ (r : Console × Option ℕ). r.1)
          (ring_pop-empty (write_text from m mem s) (no_byte s empty)))
  ];
}

-- Whatever messages and bytes come, if before a message the ring is in range, and there is no line
-- to read or no byte to take, then so it is after it: between messages nobody waits for a byte
-- that has arrived.
pub con_handle-Rests :
    (from : ℤ) (m : Msg) (mem : ℕ → ℕ) (rx : List ℕ) (s : Console)
    → Rests s
    → Rests (con_handle from m mem rx s)
unfolding con_handle
con_handle-Rests from m mem rx s ok = elim (Bool-cases (m.label == msg_irq)) [
  | inl e ↦ rw (e, con_handle) (edit-Rests (drain_rx rx s) (drain_rx-InRing rx s ok.in_ring))
  | inr ne ↦ elim (Bool-cases (m.label == msg_write)) [
    | inl e ↦ rw (ne, e, con_handle) (write_text-Rests from m mem s ok)
    | inr nw ↦ elim (Bool-cases (m.label == msg_readline)) [
      | inl e ↦
          rw (ne, nw, e, con_handle)
            (edit-Rests (start_line from (λ i. mem (m.data0 + i)) m.data1 s)
              (start_line-InRing from (λ i. mem (m.data0 + i)) m.data1 s ok.in_ring))
      | inr nr ↦ rw (ne, nw, nr, con_handle) ok
    ]
  ]
]
