-- ===== src/Ipc/Cases.antt =====
-- The branches of `ipc_send_locked`, `ipc_recv_locked` and `finish_recv`, each as an equation.
use mukern.Base.{ℕ, ℤ, pos, minus_one, ◌-◌, ◌≡◌, true, false, some, none, ◌==◌}
use mukern.Abi.{Msg, ipc_irq_sender}
use mukern.Thread.{
  Kernel, Caller, after_send, after_recv, is_vacant, put, put_self, self, thread_by_id,
}
use mukern.Sched.{schedule}
use mukern.Ipc.{
  done, switched, receiver_ready, delivered, staged, ipc_send_locked, released, awaiting,
  irq_message, find_waiting_sender, ipc_recv_locked,
}

module _ (who : Caller) (dest : ℤ) (msg : Msg) (s : Kernel) where
  pub send-nobody : thread_by_id dest ≡ none → ipc_send_locked who dest msg s ≡ (s, done minus_one)
  unfolding ipc_send_locked
  send-nobody e = rw (e, ipc_send_locked)

  module _ (d : ℕ) (e : thread_by_id dest ≡ some d) where
    pub send-vacant :
        is_vacant (s.threads d).state ≡ true → ipc_send_locked who dest msg s ≡ (s, done minus_one)
    unfolding ipc_send_locked
    send-vacant vacant = rw (e, ipc_send_locked, vacant)

    pub send-ready :
        is_vacant (s.threads d).state ≡ false
        → receiver_ready (s.threads d) (self s).id ≡ true
        → ipc_send_locked who dest msg s
          ≡ (put s d (delivered msg (self s).id (s.threads d)), done (pos 0))
    unfolding ipc_send_locked
    send-ready lives ready = rw (e, ipc_send_locked, lives, ready)

    pub send-busy :
        is_vacant (s.threads d).state ≡ false
        → receiver_ready (s.threads d) (self s).id ≡ false
        → ipc_send_locked who dest msg s
          ≡ (schedule (after_send who) (put_self s (staged msg dest (self s))), switched)
    unfolding ipc_send_locked
    send-busy lives busy = rw (e, ipc_send_locked, lives, busy)

module _ (who : Caller) (src : ℤ) (out : Msg) (s : Kernel) where
  pub recv-irq :
      ((self s).irq_pending == 0) ≡ false
      → ipc_recv_locked who src out s ≡ (
        put_self s (record (self s) { irq_pending = (self s).irq_pending - 1 }),
        done (ipc_irq_sender, irq_message out),
      )
  unfolding ipc_recv_locked
  recv-irq e = rw (e, ipc_recv_locked)

  module _ (quiet : ((self s).irq_pending == 0) ≡ true) where
    pub recv-sender :
        (p : ℕ)
        → find_waiting_sender (self s).id src s ≡ some p
        → ipc_recv_locked who src out s
          ≡ (put s p (released (s.threads p)), done ((s.threads p).id, (s.threads p).ipc_buf))
    unfolding ipc_recv_locked
    recv-sender p e = rw (quiet, ipc_recv_locked, e)

    pub recv-waits :
        find_waiting_sender (self s).id src s ≡ none
        → ipc_recv_locked who src out s
          ≡ (schedule (after_recv out who) (put_self s (awaiting src (self s))), switched)
    unfolding ipc_recv_locked
    recv-waits e = rw (quiet, ipc_recv_locked, e)
