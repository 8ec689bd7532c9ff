-- ===== src/Inv/Returns.antt =====
-- What messages leave of a thread's way back.
use mukern.Base.{ℤ, ◌≡◌, inl, inr, arith, refl, Option-cases, Bool-cases, ◌==◌}
use mukern.Abi.{Msg}
use mukern.Thread.{Kernel, Caller, self, idle_ipc, thread_by_id, is_vacant, is_receiving}
use mukern.Ipc.{
  done, find_waiting_sender, receiver_ready, ipc_send_locked, finish_send, ipc_recv_locked,
  finish_recv,
}
use mukern.Ipc.Cases.{
  send-nobody, send-vacant, send-ready, send-busy, recv-irq, recv-sender, recv-waits,
}

-- The current thread is still the current one, and has no wait to finish.
pub record Stays (s s' : Kernel) : Type 0 where
  pub same : s'.current ≡ s.current
  pub free : (self s').ipc_state ≡ idle_ipc

-- A send that comes back at once.
pub send-Stays :
    (who : Caller) (dest : ℤ) (msg : Msg) (s : Kernel)
    → (self s).ipc_state ≡ idle_ipc
    → (v : ℤ) → (ipc_send_locked who dest msg s).1 ≡ done v
    → Stays s (ipc_send_locked who dest msg s).0
send-Stays who dest msg s free v h = elim (Option-cases (thread_by_id dest)) [
  | inl e ↦ rw (send-nobody who dest msg s e) (record { same = refl; free = free })
  | inr (d, e) ↦ elim (Bool-cases (is_vacant (s.threads d).state)) [
    | inl vacant ↦ rw (send-vacant who dest msg s d e vacant) (record { same = refl; free = free })
    | inr lives ↦ elim (Bool-cases (receiver_ready (s.threads d) (self s).id)) [
      | inl ready ↦
          rw (send-ready who dest msg s d e lives ready)
            (record { same = refl; free = ground (arith, free) })
      | inr busy ↦ cc (rw (send-busy who dest msg s d e lives busy) at h)
    ]
  ]
]

-- A receive that comes back at once.
pub recv-Stays :
    (who : Caller) (src : ℤ) (out : Msg) (s : Kernel)
    → (self s).ipc_state ≡ idle_ipc
    → (v : ℤ × Msg) → (ipc_recv_locked who src out s).1 ≡ done v
    → Stays s (ipc_recv_locked who src out s).0
recv-Stays who src out s free v h = elim (Bool-cases ((self s).irq_pending == 0)) [
  | inr pending ↦
      rw (recv-irq who src out s pending) (record { same = refl; free = ground (arith, free) })
  | inl quiet ↦ elim (Option-cases (find_waiting_sender (self s).id src s)) [
    | inr (p, e) ↦
        rw (recv-sender who src out s quiet p e)
          (record { same = refl; free = ground (arith, free) })
    | inl e ↦ cc (rw (recv-waits who src out s quiet e) at h)
  ]
]

pub finish_send-Stays : (s : Kernel) → Stays s (finish_send s).0
unfolding finish_send
finish_send-Stays s = record { same = refl; free = ground arith }

pub finish_recv-Stays : (out : Msg) (s : Kernel) → Stays s (finish_recv out s).0
unfolding finish_recv
finish_recv-Stays out s = elim (Bool-cases (is_receiving (self s).ipc_state)) [
  | inl e ↦ rw (e, finish_recv) (record { same = refl; free = ground arith })
  | inr e ↦ rw (e, finish_recv) (record { same = refl; free = ground arith })
]
