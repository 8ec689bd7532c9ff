-- ===== src/Inv/Ipc.antt =====
-- Sending and receiving keep the invariant of the thread table.
use mukern.Base.{
  ℕ, ℤ, ◌≡◌, ◌≢◌, ◌<◌, true, some, inl, inr, arith, refl, ◌∙◌, Option-cases, Bool-cases, ◌==◌,
  IsFirst, first_from-IsFirst,
}
use mukern.Abi.{Msg}
use mukern.Thread.{
  Kernel, Thread, Kont, Caller, torn_down, to_user, idle_loop, bootstrap, after_send, after_recv,
  TState, runnable, running, blocked, idle, self, put, put_self, max_threads, IpcState, idle_ipc,
  sending, receiving, thread_by_id, is_vacant, is_receiving, unused, dead,
}
use mukern.Sched.{demoted}
use mukern.Ipc.{
  waits_to_send, find_waiting_sender, receiver_ready, delivered, staged, ipc_send_locked,
  finish_send, released, awaiting, ipc_recv_locked, finish_recv,
}
use mukern.Ipc.Cases.{
  send-nobody, send-vacant, send-ready, send-busy, recv-irq, recv-sender, recv-waits,
}
use mukern.Inv.{Inv, IsGood, Fits, put-Inv}
use mukern.Inv.Schedule.{schedule-Inv}

-- A message wakes a receiver, a receiver wakes a sender, and an interrupt wakes a receiver.
pub Fits-delivered : (k : Kont) (n : ℕ) → Fits k blocked receiving n → Fits k runnable idle_ipc n
Fits-delivered (after_send w) n h = cc
Fits-delivered (after_recv o w) n h = inl refl
Fits-delivered torn_down n h = cc
Fits-delivered idle_loop n h = refl
Fits-delivered (bootstrap p) n h = refl
Fits-delivered to_user n h = refl

pub Fits-released : (k : Kont) (n : ℕ) → Fits k blocked sending n → Fits k runnable idle_ipc n
Fits-released (after_send w) n h = refl
Fits-released (after_recv o w) n h = cc
Fits-released torn_down n h = cc
Fits-released idle_loop n h = refl
Fits-released (bootstrap p) n h = refl
Fits-released to_user n h = refl

pub thread_by_id-lt : (id : ℤ) {d : ℕ} → thread_by_id id ≡ some d → d < idle
thread_by_id-lt (ℤ.pos n) h = ground arith
thread_by_id-lt (ℤ.negsuc n) h = cc

delivered-IsGood :
    (stacks d : ℕ) (msg : Msg) (from : ℤ) (t : Thread)
    → IsGood stacks d t
    → receiver_ready t from ≡ true
    → IsGood stacks d (delivered msg from t)
delivered-IsGood stacks d msg from t g r = ground (arith, g, Fits-delivered t.kont t.irq_pending)

staged-IsGood :
    (stacks i : ℕ) (who : Caller) (msg : Msg) (dest : ℤ) (t : Thread)
    → IsGood stacks i t
    → t.state ≡ running
    → i ≢ idle
    → IsGood stacks i (demoted i (record (staged msg dest t) { kont = after_send who }))
staged-IsGood stacks i who msg dest t g e ne = ground (arith, g)

deliver-Inv :
    (s : Kernel) (d : ℕ) (msg : Msg)
    → Inv s
    → d < idle
    → receiver_ready (s.threads d) (self s).id ≡ true
    → Inv (put s d (delivered msg (self s).id (s.threads d)))
deliver-Inv s d msg v lt ready =
    put-Inv s d (delivered msg (self s).id (s.threads d)) v (omega arith)
      (delivered-IsGood s.stacks d msg (self s).id (s.threads d) (v.good d (omega arith)) ready)
      (ground (arith, v.runs)) (ground arith)

-- A send keeps the invariant, whether it fails, delivers or blocks.
pub ipc_send_locked-Inv :
    (who : Caller) (dest : ℤ) (msg : Msg) (s : Kernel)
    → Inv s
    → s.current ≢ idle
    → Inv (ipc_send_locked who dest msg s).0
ipc_send_locked-Inv who dest msg s v ne = elim (Option-cases (thread_by_id dest)) [
  | inl e ↦ rw (send-nobody who dest msg s e) v
  | inr (d, e) ↦ elim (Bool-cases (is_vacant (s.threads d).state)) [
    | inl vacant ↦ rw (send-vacant who dest msg s d e vacant) v
    | inr lives ↦ elim (Bool-cases (receiver_ready (s.threads d) (self s).id)) [
      | inl ready ↦
          rw (send-ready who dest msg s d e lives ready)
            (deliver-Inv s d msg v (thread_by_id-lt dest e) ready)
      | inr busy ↦ rw (send-busy who dest msg s d e lives busy) (
          schedule-Inv (after_send who) s (staged msg dest (self s)) v
            (staged-IsGood s.stacks s.current who msg dest (self s) (v.good s.current v.current_in)
              v.runs ne)
            (λ b. cc))
    ]
  ]
]

-- A thread that runs may be out of its wait, whatever it waited for.
Fits-cleared :
    (k : Kont) (st : TState) (ipc : IpcState) (n m : ℕ)
    → st ≡ running
    → Fits k st ipc n
    → Fits k st idle_ipc m
Fits-cleared k unused ipc n m e h = tt
Fits-cleared (after_send w) runnable ipc n m e h = refl
Fits-cleared (after_send w) running ipc n m e h = refl
Fits-cleared (after_recv o w) runnable ipc n m e h = inl refl
Fits-cleared (after_recv o w) running ipc n m e h = inl refl
Fits-cleared torn_down runnable ipc n m e h = cc
Fits-cleared torn_down running ipc n m e h = cc
Fits-cleared k blocked ipc n m e h = cc
Fits-cleared k dead ipc n m e h = cc
Fits-cleared k runnable ipc n m e h = refl
Fits-cleared k running ipc n m e h = refl

-- The current thread clears its wait and changes its buffers or its interrupts.
cleared-Inv :
    (s : Kernel) (t : Thread)
    → Inv s
    → t.id ≡ (self s).id
    → t.kont ≡ (self s).kont
    → t.state ≡ (self s).state
    → t.kstack_top ≡ (self s).kstack_top
    → t.ipc_state ≡ idle_ipc
    → Inv (put_self s t)
cleared-Inv s t v i k st ks ipc =
    let g : IsGood s.stacks s.current (self s) = v.good s.current v.current_in in
    put-Inv s s.current t v v.current_in
      (record {
        id_is = i ∙ g.id_is;
        fits =
            rw (k, st, ipc)
              (Fits-cleared (self s).kont (self s).state (self s).ipc_state (self s).irq_pending
                t.irq_pending v.runs g.fits);
        stack = λ lt u. ks ∙ g.stack lt (λ e. u (st ∙ e));
        idle_runs = λ ii. (st ∙ (g.idle_runs ii).0, k ∙ (g.idle_runs ii).1);
      })
      (inl st) (λ _. ks)

-- A sender that has been received from has no state left to clear.
pub finish_send-Inv : (s : Kernel) → Inv s → Inv (finish_send s).0
unfolding finish_send
finish_send-Inv s v =
    cleared-Inv s (record (self s) { ipc_state = idle_ipc }) v refl refl refl refl refl

released-IsGood :
    (stacks d : ℕ) (t : Thread) (me want : ℤ)
    → IsGood stacks d t
    → waits_to_send t me want ≡ true
    → IsGood stacks d (released t)
released-IsGood stacks d t me want g r = ground (arith, g, Fits-released t.kont t.irq_pending)

awaiting-IsGood :
    (stacks i : ℕ) (who : Caller) (out : Msg) (src : ℤ) (t : Thread)
    → IsGood stacks i t
    → t.state ≡ running
    → i ≢ idle
    → IsGood stacks i (demoted i (record (awaiting src t) { kont = after_recv out who }))
awaiting-IsGood stacks i who out src t g e ne = ground (arith, g)

find-IsFirst :
    (s : Kernel) (want : ℤ) {p : ℕ}
    → find_waiting_sender (self s).id want s ≡ some p
    → IsFirst (λ i. waits_to_send (s.threads i) (self s).id want) 0 max_threads p
unfolding find_waiting_sender
find-IsFirst s want e = first_from-IsFirst _ 0 max_threads e

release-Inv :
    (s : Kernel) (p : ℕ) (want : ℤ)
    → Inv s
    → IsFirst (λ i. waits_to_send (s.threads i) (self s).id want) 0 max_threads p
    → Inv (put s p (released (s.threads p)))
release-Inv s p want v first =
    let waits : waits_to_send (s.threads p) (self s).id want ≡ true = first.passes in
    put-Inv s p (released (s.threads p)) v (omega (arith, first.below))
      (released-IsGood s.stacks p (s.threads p) (self s).id want
        (v.good p (omega (arith, first.below))) waits)
      (ground (arith, v.runs)) (ground arith)

-- A receive keeps the invariant, whether it takes an interrupt or a message or blocks.
pub ipc_recv_locked-Inv :
    (who : Caller) (src : ℤ) (out : Msg) (s : Kernel)
    → Inv s
    → s.current ≢ idle
    → (self s).ipc_state ≡ idle_ipc
    → Inv (ipc_recv_locked who src out s).0
ipc_recv_locked-Inv who src out s v ne free = elim (Bool-cases ((self s).irq_pending == 0)) [
  | inr pending ↦ rw (recv-irq who src out s pending) (cleared-Inv s _ v refl refl refl refl free)
  | inl quiet ↦ elim (Option-cases (find_waiting_sender (self s).id src s)) [
    | inr (p, e) ↦
        rw (recv-sender who src out s quiet p e) (release-Inv s p src v (find-IsFirst s src e))
    | inl e ↦ rw (recv-waits who src out s quiet e) (
        schedule-Inv (after_recv out who) s (awaiting src (self s)) v
          (awaiting-IsGood s.stacks s.current who out src (self s) (v.good s.current v.current_in)
            v.runs ne)
          (λ b. cc))
  ]
]

-- The end of a receive keeps the invariant.
pub finish_recv-Inv : (out : Msg) (s : Kernel) → Inv s → Inv (finish_recv out s).0
unfolding finish_recv
finish_recv-Inv out s v = elim (Bool-cases (is_receiving (self s).ipc_state)) [
  | inl e ↦ rw (e, finish_recv) (cleared-Inv s _ v refl refl refl refl refl)
  | inr e ↦ rw (e, finish_recv) (cleared-Inv s _ v refl refl refl refl refl)
]
