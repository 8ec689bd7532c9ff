-- ===== src/Ipc.antt =====
-- kernel/ipc.c: rendezvous messages. The code behind `schedule()` runs when the thread is resumed:
-- it is `finish_send` and `finish_recv`.
pub mod Cases
pub mod Delivery
pub mod Capability
pub mod Gain
use mukern.Base.{
  ℕ, ℤ, pos, minus_one, suc, ◌-◌, Bool, true, false, Option, none, some, first_from, ◌==◌, ◌==ℤ◌,
  ◌&&◌, ◌||◌, if◌then◌else◌,
}
use mukern.Abi.{Msg, ipc_any, ipc_irq_sender, msg_irq}
use mukern.Thread.{
  Kernel, Thread, Caller, after_send, after_recv, idle_ipc, sending, receiving, is_blocked,
  is_sending, is_receiving, is_vacant, max_threads, put, put_self, self, thread_by_id, thread_block,
  thread_wake,
}
use mukern.Sched.{schedule}

-- How a call that may block comes back: with its result, or not before the thread is resumed.
pub data Progress (A : Type 0) : Type 0 where
  done : A → Progress A
  switched : Progress A

-- The test of one thread in `find_waiting_sender`.
abbrev pub waits_to_send : Thread → ℤ → ℤ → Bool
waits_to_send t me want =
    is_blocked t.state
    && is_sending t.ipc_state
    && (t.ipc_peer ==ℤ me)
    && ((want ==ℤ ipc_any) || (want ==ℤ t.id))

unfoldable pub find_waiting_sender : ℤ → ℤ → Kernel → Option ℕ
find_waiting_sender me want s = first_from (λ i. waits_to_send (s.threads i) me want) 0 max_threads

abbrev pub receiver_ready : Thread → ℤ → Bool
receiver_ready dst from =
    is_blocked dst.state
    && is_receiving dst.ipc_state
    && ((dst.ipc_peer ==ℤ ipc_any) || (dst.ipc_peer ==ℤ from))

-- A message copied into the buffer of a waiting receiver, which wakes.
abbrev pub delivered : Msg → ℤ → Thread → Thread
delivered msg from dst =
    thread_wake (record dst { ipc_buf = msg; ipc_from = from; ipc_state = idle_ipc })

-- A sender that stages its message and blocks.
abbrev pub staged : Msg → ℤ → Thread → Thread
staged msg dest t = thread_block (record t { ipc_buf = msg; ipc_state = sending; ipc_peer = dest })

unfoldable pub ipc_send_locked : Caller → ℤ → Msg → Kernel → Kernel × Progress ℤ
ipc_send_locked who dest msg s = elim (thread_by_id dest) [
  | none ↦ (s, done minus_one)
  | some d ↦
      if is_vacant (s.threads d).state
      then (s, done minus_one)
      else if receiver_ready (s.threads d) (self s).id
      then (put s d (delivered msg (self s).id (s.threads d)), done (pos 0))
      else (schedule (after_send who) (put_self s (staged msg dest (self s))), switched)
]

unfoldable pub finish_send : Kernel → Kernel × ℤ
finish_send s = (put_self s (record (self s) { ipc_state = idle_ipc }), pos 0)

-- The synthetic message of an interrupt: only the label is written.
abbrev pub irq_message : Msg → Msg
irq_message out = record out { label = msg_irq }

abbrev pub released : Thread → Thread
released t = thread_wake (record t { ipc_state = idle_ipc })

-- A receiver that found no sender.
abbrev pub awaiting : ℤ → Thread → Thread
awaiting src t = thread_block (record t { ipc_state = receiving; ipc_peer = src })

-- `out` is what `*out` holds before the call.
unfoldable pub ipc_recv_locked : Caller → ℤ → Msg → Kernel → Kernel × Progress (ℤ × Msg)
ipc_recv_locked who src out s =
    if (self s).irq_pending == 0
    then elim (find_waiting_sender (self s).id src s) [
      | some p ↦ (put s p (released (s.threads p)), done ((s.threads p).id, (s.threads p).ipc_buf))
      | none ↦ (schedule (after_recv out who) (put_self s (awaiting src (self s))), switched)
    ]
    else (
      put_self s (record (self s) { irq_pending = (self s).irq_pending - 1 }),
      done (ipc_irq_sender, irq_message out),
    )

unfoldable pub finish_recv : Msg → Kernel → Kernel × ℤ × Msg
finish_recv out s =
    let t = self s in
    if is_receiving t.ipc_state
    then (
      put_self s (record t {
        ipc_state = idle_ipc;
        irq_pending = if t.irq_pending == 0 then 0 else t.irq_pending - 1;
      }),
      ipc_irq_sender,
      irq_message out,
    )
    else (put_self s (record t { ipc_state = idle_ipc }), t.ipc_from, t.ipc_buf)
