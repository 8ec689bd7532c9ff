-- ===== src/Inv/Trap.antt =====
-- Interrupts, page faults and resumed calls keep the invariant of the thread table.
use mukern.Base.{
  ℕ, ℤ, ◌+◌, ◌≡◌, ◌≢◌, ◌<◌, false, Bool, some, none, inl, inr, arith, refl, sym, subst, ◌∙◌,
  Bool-cases, ◌==◌, Option, ◌==ℤ◌, ◌&&◌, leb, not,
}
use mukern.Abi.{Msg}
use mukern.Thread.{
  Kernel, Thread, Kont, by_syscall, by_fault, torn_down, to_user, idle_loop, bootstrap, after_send,
  after_recv, TState, runnable, running, blocked, dead, unused, idle, self, IpcState, idle_ipc,
  receiving, thread_by_id, is_vacant,
}
use mukern.Ipc.{
  Progress, done, switched, ipc_recv_locked, ipc_send_locked, finish_send, finish_recv,
}
use mukern.Syscall.{Env}
use mukern.Trap.{
  back_to_user, timer_tick, fault_verdict, fault_recv_result, fault_wait, fault_send_result,
  page_fault, notified, notify, device_irq, resume, resume_as, fault_msg, is_tid,
}
use mukern.Inv.{Inv, IsGood, Fits, put-Inv}
use mukern.Inv.Schedule.{schedule_tick-Inv, dies-Inv}
use mukern.Inv.Ipc.{
  ipc_send_locked-Inv, ipc_recv_locked-Inv, finish_send-Inv, finish_recv-Inv, thread_by_id-lt,
}
use mukern.Inv.Returns.{Stays, send-Stays, recv-Stays, finish_send-Stays, finish_recv-Stays}
use mukern.Inv.Parts.{set_result-Inv, recv_return-Inv}

pub timer_tick-Inv : (s : Kernel) → Inv s → Inv (timer_tick s)
unfolding timer_tick
timer_tick-Inv s v = schedule_tick-Inv _ v

-- A receiver that an interrupt wakes has it pending.
Fits-notified :
    (k : Kont) (st : TState) (ipc : IpcState) (n : ℕ)
    → Fits k st ipc n
    → is_vacant st ≡ false
    → Fits k st ipc (n + 1)
Fits-notified (after_recv o w) runnable ipc n (inl e) a = inl e
Fits-notified (after_recv o w) runnable ipc n (inr e) a = inr (e.0, omega arith)
Fits-notified (after_recv o w) running ipc n (inl e) a = inl e
Fits-notified (after_recv o w) running ipc n (inr e) a = inr (e.0, omega arith)
Fits-notified k unused ipc n h a = tt
Fits-notified (after_recv o w) blocked ipc n h a = h
Fits-notified (after_recv o w) dead ipc n h a = h
Fits-notified (after_send w) blocked ipc n h a = h
Fits-notified k blocked ipc n h a = h
Fits-notified (after_send w) dead ipc n h a = h
Fits-notified k dead ipc n h a = h
Fits-notified (after_send w) runnable ipc n h a = h
Fits-notified k runnable ipc n h a = h
Fits-notified (after_send w) running ipc n h a = h
Fits-notified k running ipc n h a = h

Fits-interrupted :
    (k : Kont) (n : ℕ) → Fits k blocked receiving n → Fits k runnable receiving (n + 1)
Fits-interrupted (after_send w) n h = cc
Fits-interrupted (after_recv o w) n h = inr (refl, omega arith)
Fits-interrupted torn_down n h = cc
Fits-interrupted idle_loop n h = absurd h
Fits-interrupted (bootstrap p) n h = absurd h
Fits-interrupted to_user n h = absurd h

notified-IsGood :
    (stacks d : ℕ) (t : Thread)
    → IsGood stacks d t
    → is_vacant t.state ≡ false
    → IsGood stacks d (notified t)
notified-IsGood stacks d t g a = ground (
  arith,
  g,
  Fits-notified t.kont t.state t.ipc_state t.irq_pending g.fits a,
  Fits-interrupted t.kont t.irq_pending,
)

notify-Inv :
    (d : Option ℕ) (s : Kernel) → ((i : ℕ) → d ≡ some i → i < idle) → Inv s → Inv (notify d s)
notify-Inv none s lt v = v
notify-Inv (some d) s lt v = elim (Bool-cases (is_vacant (s.threads d).state)) [
  | inl e ↦ rw e v
  | inr e ↦ rw e (
      put-Inv s d (notified (s.threads d)) v (omega (arith, lt d refl))
        (notified-IsGood s.stacks d (s.threads d) (v.good d (omega (arith, lt d refl))) e)
        (ground (arith, v.runs)) (ground arith))
]

-- A device interrupt keeps the invariant.
pub device_irq-Inv : (n : ℕ) (s : Kernel) → Inv s → Inv (device_irq n s)
unfolding device_irq
device_irq-Inv n s v = elim (Bool-cases (leb 8 n)) [ inl e ↦ rw e told | inr e ↦ rw e told ]
  where
    told : Inv (notify (thread_by_id (s.irq_tid n)) s)
    told = notify-Inv (thread_by_id (s.irq_tid n)) s (λ i e. thread_by_id-lt (s.irq_tid n) e) v

-- A change of what the current thread goes on with.
goes_on-Inv :
    (s : Kernel) → Inv s → s.current ≢ idle → (self s).ipc_state ≡ idle_ipc → Inv (back_to_user s)
goes_on-Inv s v ne free =
    let g : IsGood s.stacks s.current (self s) = v.good s.current v.current_in in
    put-Inv s s.current (record (self s) { kont = to_user }) v v.current_in
      (record {
        id_is = g.id_is;
        fits = rw v.runs free;
        stack = g.stack;
        idle_runs = λ e. absurd (ne e);
      })
      (inl refl) (λ _. refl)

fault_verdict-Inv :
    (reply : Msg) (s : Kernel)
    → Inv s
    → s.current ≢ idle
    → (self s).ipc_state ≡ idle_ipc
    → Inv (fault_verdict reply s)
unfolding fault_verdict
fault_verdict-Inv reply s v ne free = elim (Bool-cases (reply.data0 == 0)) [
  | inl e ↦ rw e (goes_on-Inv s v ne free)
  | inr e ↦ rw e (dies-Inv s v ne)
]

fault_recv_result-Inv :
    (r : Kernel × Progress (ℤ × Msg))
    → Inv r.0
    → ((v : ℤ × Msg) → r.1 ≡ done v → (r.0.current ≢ idle) × ((self r.0).ipc_state ≡ idle_ipc))
    → Inv (fault_recv_result r)
fault_recv_result-Inv (s, done (from, m)) v h =
    let (ne, free) = h (from, m) refl in fault_verdict-Inv m s v ne free
fault_recv_result-Inv (s, switched) v h = v

fault_wait-Inv :
    (env : Env) (s : Kernel)
    → Inv s
    → s.current ≢ idle
    → (self s).ipc_state ≡ idle_ipc
    → Inv (fault_wait env s)
unfolding fault_wait
fault_wait-Inv env s v ne free =
    fault_recv_result-Inv (ipc_recv_locked by_fault s.pager_tid env.junk s)
      (ipc_recv_locked-Inv by_fault s.pager_tid env.junk s v ne free)
      (λ r e.
        let k : Stays s (ipc_recv_locked by_fault s.pager_tid env.junk s).0 =
          recv-Stays by_fault s.pager_tid env.junk s free r e in
        ((λ i. ne (sym k.same ∙ i)), k.free))

fault_send_result-Inv :
    (env : Env) (r : Kernel × Progress ℤ)
    → Inv r.0
    → ((v : ℤ) → r.1 ≡ done v → (r.0.current ≢ idle) × ((self r.0).ipc_state ≡ idle_ipc))
    → Inv (fault_send_result env r)
fault_send_result-Inv env (s, done v) inv h =
    let (ne, free) = h v refl in fault_wait-Inv env s inv ne free
fault_send_result-Inv env (s, switched) inv h = inv

-- A page fault that does not panic keeps the invariant.
pub page_fault-Inv :
    (env : Env) (from_user : Bool) (addr : ℕ) (s : Kernel) {t : Kernel}
    → Inv s
    → s.current ≢ idle
    → (self s).ipc_state ≡ idle_ipc
    → page_fault env from_user addr s ≡ some t
    → Inv t
unfolding page_fault
page_fault-Inv env from_user addr s {t} v ne free h =
    elim (Bool-cases (from_user && is_tid s.pager_tid && not ((self s).id ==ℤ s.pager_tid))) [
      | inr e ↦ cc (rw e at h)
      | inl e ↦
          let q : fault_send_result env sent ≡ t = cc (rw e at h) in
          subst (λ (k : Kernel). Inv k) q forwarded
    ]
  where
    sent : Kernel × Progress ℤ
    sent = ipc_send_locked by_fault s.pager_tid (fault_msg (self s).id addr) s

    forwarded : Inv (fault_send_result env sent)
    forwarded =
        fault_send_result-Inv env sent
          (ipc_send_locked-Inv by_fault s.pager_tid (fault_msg (self s).id addr) s v ne)
          (λ r e.
            let k : Stays s sent.0 =
              send-Stays by_fault s.pager_tid (fault_msg (self s).id addr) s free r e in
            ((λ i. ne (sym k.same ∙ i)), k.free))

bootstrap-idle_ipc :
    (prog : ℕ) (s : Kernel) → Inv s → (self s).kont ≡ bootstrap prog → (self s).ipc_state ≡ idle_ipc
bootstrap-idle_ipc prog s v e =
    subst (λ st. Fits (bootstrap prog) st (self s).ipc_state (self s).irq_pending) v.runs
      (subst (λ c. Fits c (self s).state (self s).ipc_state (self s).irq_pending) e
        (v.good s.current v.current_in).fits)

-- `arch_enter_user` points the TSS at the kernel stack of the thread.
enters-Inv :
    (s : Kernel)
    → Inv (back_to_user s)
    → Inv (record (back_to_user s) { rsp0 = (self s).kstack_top })
enters-Inv s v = record {
  current_in = v.current_in;
  good = v.good;
  runs = v.runs;
  alone = v.alone;
  lands = λ ne. ground arith;
}

-- The rest of a kernel call keeps the invariant, whatever it is.
resume_as-Inv :
    (k : Kont) (env : Env) (s : Kernel)
    → (self s).kont ≡ k
    → Inv s
    → s.current ≢ idle
    → Inv (resume_as k env s)
unfolding resume_as
resume_as-Inv (after_send by_syscall) env s e v ne =
    let s' : Kernel = (finish_send s).0 in
    let k : Stays s s' = finish_send-Stays s in
    set_result-Inv (back_to_user s', (finish_send s).1)
      (goes_on-Inv s' (finish_send-Inv s v) (λ i. ne (sym k.same ∙ i)) k.free)
resume_as-Inv (after_send by_fault) env s e v ne =
    let k : Stays s (finish_send s).0 = finish_send-Stays s in
    fault_wait-Inv env (finish_send s).0 (finish_send-Inv s v) (λ i. ne (sym k.same ∙ i)) k.free
resume_as-Inv (after_recv out by_syscall) env s e v ne =
    let s' : Kernel = (finish_recv out s).0 in
    let k : Stays s s' = finish_recv-Stays out s in
    recv_return-Inv (finish_recv out s).1 (finish_recv out s).2 (back_to_user s')
      (goes_on-Inv s' (finish_recv-Inv out s v) (λ i. ne (sym k.same ∙ i)) k.free)
resume_as-Inv (after_recv out by_fault) env s e v ne =
    let k : Stays s (finish_recv out s).0 = finish_recv-Stays out s in
    fault_verdict-Inv (finish_recv out s).2 (finish_recv out s).0 (finish_recv-Inv out s v)
      (λ i. ne (sym k.same ∙ i)) k.free
resume_as-Inv (bootstrap prog) env s e v ne =
    enters-Inv s (goes_on-Inv s v ne (bootstrap-idle_ipc prog s v e))
resume_as-Inv idle_loop env s e v ne = v
resume_as-Inv to_user env s e v ne = v
resume_as-Inv torn_down env s e v ne = v

pub resume-Inv : (env : Env) (s : Kernel) → Inv s → s.current ≢ idle → Inv (resume env s)
unfolding resume
resume-Inv env s v ne = resume_as-Inv (self s).kont env s refl v ne
