-- ===== src/Ipc/Delivery.antt =====
-- A message arrives as it was sent, whichever side comes first.
use mukern.Base.{
  ℕ, ℤ, pos, ◌≡◌, ◌≢◌, ◌⊎◌, ◌<◌, ◌≤◌, true, false, some, Option, Bool, inl, inr, refl, sym, ◌∙◌,
  arith, Option-cases, ◌==ℤ◌, ==ℤ_iff, ==ℤ_refl, ◌||◌, IsFirst, first_from-IsFirst, first_from-none,
  update_ne, ==_refl, ==_iff, false≢true, dec_le, ||-cases,
}
use mukern.Abi.{Msg, ipc_any}
use mukern.Thread.{
  Kernel, Thread, Caller, blocked, runnable, sending, receiving, idle_ipc, self, put, is_receiving,
  is_vacant, max_threads, thread_by_id,
}
use mukern.Ipc.{
  done, waits_to_send, find_waiting_sender, receiver_ready, delivered, ipc_send_locked,
  ipc_recv_locked, finish_recv, released,
}
use mukern.Ipc.Cases.{send-ready, recv-sender}

-- `t` waits in `ipc_recv_locked` for anybody, or for `from`.
pub record Awaits (t : Thread) (from : ℤ) : Type 0 where
  pub stopped : t.state ≡ blocked
  pub wants : t.ipc_state ≡ receiving
  pub peer : (t.ipc_peer ≡ ipc_any) ⊎ (t.ipc_peer ≡ from)

Awaits-ready : (t : Thread) (from : ℤ) → Awaits t from → receiver_ready t from ≡ true
Awaits-ready t from a = elim a.peer [
  | inl e ↦ rw (a.stopped, a.wants, e) (ground arith)
  | inr e ↦ rw (a.stopped, a.wants, e, ==ℤ_refl from) (ground arith)
]

-- What the receiver takes at the end of its call, once it runs again: `u` is any later state in
-- which it is the current thread and its message state is still that of `t`.
pub record Carries (u : Kernel) (t : Thread) : Type 0 where
  pub ipc_as : (self u).ipc_state ≡ t.ipc_state
  pub from_as : (self u).ipc_from ≡ t.ipc_from
  pub buf_as : (self u).ipc_buf ≡ t.ipc_buf

finish-Carries :
    (out : Msg) (u : Kernel) (t : Thread)
    → Carries u t
    → t.ipc_state ≡ idle_ipc
    → ((finish_recv out u).1 ≡ t.ipc_from) × ((finish_recv out u).2 ≡ t.ipc_buf)
unfolding finish_recv
finish-Carries out u t c e =
    let free : is_receiving (self u).ipc_state ≡ false = rw (c.ipc_as ∙ e) refl in
    (rw (free, finish_recv) c.from_as, rw (free, finish_recv) c.buf_as)

-- The receiver came first. A send to a thread that waits for it returns 0 at once, wakes the
-- receiver and touches no other thread; and when the receiver runs again with its message state as
-- the send left it, its call returns the sender and the message, word for word.
pub receiver_first :
    (who : Caller) (msg out : Msg) (s u : Kernel) (dest : ℤ) (d : ℕ)
    → thread_by_id dest ≡ some d
    → Awaits (s.threads d) (self s).id
    → Carries u ((ipc_send_locked who dest msg s).0.threads d)
    → let (s', r) = ipc_send_locked who dest msg s in
      (r ≡ done (pos 0))
      × ((s'.threads d).state ≡ runnable)
      × ((j : ℕ) → d ≢ j → s'.threads j ≡ s.threads j)
      × ((finish_recv out u).1 ≡ (self s).id)
      × ((finish_recv out u).2 ≡ msg)
receiver_first who msg out s u dest d e a c =
    let lives : is_vacant (s.threads d).state ≡ false = rw a.stopped refl in
    let sent : ipc_send_locked who dest msg s
        ≡ (put s d (delivered msg (self s).id (s.threads d)), done (pos 0)) =
      send-ready who dest msg s d e lives (Awaits-ready (s.threads d) (self s).id a) in
    let end : (finish_recv out u).1 ≡ (delivered msg (self s).id (s.threads d)).ipc_from
        × (finish_recv out u).2 ≡ (delivered msg (self s).id (s.threads d)).ipc_buf =
      finish-Carries out u (delivered msg (self s).id (s.threads d)) (rw (sent, ==_refl d) at c)
        (ground arith) in
    (
      rw sent,
      rw sent (rw (==_refl d) (ground (arith, a.stopped))),
      λ j ne. rw sent (update_ne s.threads d j _ ne),
      ground (arith, end.0),
      ground (arith, end.1),
    )

-- `t` waits in `ipc_send_locked` for the thread `me` to receive.
pub record Offers (t : Thread) (me : ℤ) : Type 0 where
  pub stopped : t.state ≡ blocked
  pub wants : t.ipc_state ≡ sending
  pub peer : t.ipc_peer ≡ me

-- The receiver takes from `t`, if it wants that thread or anybody.
abbrev pub Wanted : ℤ → Thread → Type 0
Wanted src t = (src ≡ ipc_any) ⊎ (src ≡ t.id)

of-Offers : (t : Thread) (me src : ℤ) → Offers t me → Wanted src t → waits_to_send t me src ≡ true
of-Offers t me src o (inl e) = rw (o.stopped, o.wants, o.peer, ==ℤ_refl me, e) refl
of-Offers t me src o (inr e) =
    rw (o.stopped, o.wants, o.peer, ==ℤ_refl me, e, ==ℤ_refl t.id) (ground arith)

Offers-of : (t : Thread) (me src : ℤ) → waits_to_send t me src ≡ true → Offers t me × Wanted src t
Offers-of t me src h =
    let both : ((t.ipc_peer ==ℤ me) ≡ true) × (((src ==ℤ ipc_any) || (src ==ℤ t.id)) ≡ true) =
      ground arith in
    (
      record { stopped = ground arith; wants = ground arith; peer = (==ℤ_iff _ _).0 both.0 },
      elim (||-cases _ _ both.1) [
        | inl any ↦ inl ((==ℤ_iff _ _).0 any)
        | inr that ↦ inr ((==ℤ_iff _ _).0 that)
      ],
    )

-- The sender came first. If some thread offers a message to the current one, which wants it and
-- has no interrupt pending, a receive does not block: it takes the message of the first such
-- thread in slot order, word for word, wakes that thread and touches no other.
pub sender_first :
    (who : Caller) (src : ℤ) (out : Msg) (s : Kernel) (q : ℕ)
    → (self s).irq_pending ≡ 0
    → q < max_threads
    → Offers (s.threads q) (self s).id
    → Wanted src (s.threads q)
    → let (s', r) = ipc_recv_locked who src out s in
      (p : ℕ) × (p ≤ q)
      × Offers (s.threads p) (self s).id
      × Wanted src (s.threads p)
      × (r ≡ done ((s.threads p).id, (s.threads p).ipc_buf))
      × ((s'.threads p).state ≡ runnable)
      × ((s'.threads p).ipc_state ≡ idle_ipc)
      × ((j : ℕ) → p ≢ j → s'.threads j ≡ s.threads j)
sender_first who src out s q quiet lt o w = elim (Option-cases found_p) [
  | inl none_found ↦ absurd (
      false≢true (
        sym (
          first_from-none offers 0 max_threads (unfold find_waiting_sender in none_found) q
            (omega arith) (omega arith))
        ∙ q_offers))
  | inr (p, e) ↦
      let first : IsFirst offers 0 max_threads p =
        first_from-IsFirst offers 0 max_threads (unfold find_waiting_sender in e) in
      let taken : ipc_recv_locked who src out s
          ≡ (put s p (released (s.threads p)), done ((s.threads p).id, (s.threads p).ipc_buf)) =
        recv-sender who src out s ((==_iff _ 0).1 quiet) p e in
      let (po, pw) = Offers-of (s.threads p) (self s).id src first.passes in
      (
        p,
        elim (dec_le p q) [
          | yes le ↦ le
          | no gt ↦
              absurd (false≢true (sym (first.earlier q (omega arith) (omega arith)) ∙ q_offers))
        ],
        po,
        pw,
        rw taken,
        rw taken (rw (==_refl p) (ground (arith, po.stopped))),
        rw taken (rw (==_refl p) (ground (arith, po.stopped))),
        λ j ne. rw taken (update_ne s.threads p j _ ne),
      )
]
  where
    offers : ℕ → Bool
    offers i = waits_to_send (s.threads i) (self s).id src

    found_p : Option ℕ
    found_p = find_waiting_sender (self s).id src s

    q_offers : offers q ≡ true
    q_offers = of-Offers (s.threads q) (self s).id src o w
