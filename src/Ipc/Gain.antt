-- ===== src/Ipc/Gain.antt =====
-- A message moves no capability.
use mukern.Base.{ℤ, refl, arith, inl, inr, Option-cases, Bool-cases, ◌==◌}
use mukern.Abi.{Msg}
use mukern.Thread.{Kernel, Caller, after_send, after_recv, self, put_self, is_vacant, thread_by_id}
use mukern.Sched.{schedule}
use mukern.Sched.Gain.{schedule-NoGain}
use mukern.Cap.Gain.{NoGain, NoGain-refl, NoGain-trans, store-NoGain}
use mukern.Ipc.{
  ipc_send_locked, ipc_recv_locked, receiver_ready, delivered, staged, released, awaiting,
  find_waiting_sender,
}
use mukern.Ipc.Cases.{
  send-nobody, send-vacant, send-ready, send-busy, recv-irq, recv-sender, recv-waits,
}

pub send-NoGain :
    (who : Caller) (dest : ℤ) (msg : Msg) (s : Kernel) → NoGain s (ipc_send_locked who dest msg s).0
send-NoGain who dest msg s = elim (Option-cases (thread_by_id dest)) [
  | inl e ↦ rw (send-nobody who dest msg s e) (NoGain-refl s)
  | inr (d, e) ↦ elim (Bool-cases (is_vacant (s.threads d).state)) [
    | inl vacant ↦ rw (send-vacant who dest msg s d e vacant) (NoGain-refl s)
    | inr lives ↦ elim (Bool-cases (receiver_ready (s.threads d) (self s).id)) [
      | inl ready ↦
          rw (send-ready who dest msg s d e lives ready)
            (store-NoGain s d (delivered msg (self s).id (s.threads d)) (ground arith))
      | inr busy ↦
          let s' : Kernel = put_self s (staged msg dest (self s)) in
          rw (send-busy who dest msg s d e lives busy) (
            NoGain-trans s s' (schedule (after_send who) s')
              (store-NoGain s s.current (staged msg dest (self s)) refl)
              (schedule-NoGain (after_send who) s'))
    ]
  ]
]

pub recv-NoGain :
    (who : Caller) (src : ℤ) (out : Msg) (s : Kernel) → NoGain s (ipc_recv_locked who src out s).0
recv-NoGain who src out s = elim (Bool-cases ((self s).irq_pending == 0)) [
  | inr pending ↦ rw (recv-irq who src out s pending) (store-NoGain s s.current _ refl)
  | inl quiet ↦ elim (Option-cases (find_waiting_sender (self s).id src s)) [
    | inr (p, e) ↦
        rw (recv-sender who src out s quiet p e)
          (store-NoGain s p (released (s.threads p)) (ground arith))
    | inl e ↦
        let s' : Kernel = put_self s (awaiting src (self s)) in
        rw (recv-waits who src out s quiet e) (
          NoGain-trans s s' (schedule (after_recv out who) s')
            (store-NoGain s s.current (awaiting src (self s)) refl)
            (schedule-NoGain (after_recv out who) s'))
  ]
]
