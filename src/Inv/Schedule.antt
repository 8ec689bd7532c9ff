-- ===== src/Inv/Schedule.antt =====
-- `schedule` keeps the invariant of the thread table.
use mukern.Base.{
  ℕ, ◌≡◌, ◌≢◌, ◌<◌, ◌≤◌, some, inl, inr, arith, Option-cases, ℕ_discrete, subst, sym, ==_refl,
  ==_ne, ap, ◌∙◌, refl, update_ne, update_all,
}
use mukern.Thread.{
  Kernel, Kont, torn_down, to_user, idle_loop, bootstrap, after_send, after_recv, runnable, running,
  dead, idle, self, put_self, IpcState, Thread,
}
use mukern.Sched.{pick_next, schedule, reschedule, switch_to, switch_if, demoted, demote, promoted}
use mukern.Sched.Pick.{IsChoice, pick-IsChoice, pick-none}
use mukern.Inv.{Inv, IsGood, Fits}

-- What must hold when the current thread calls `schedule`: as the invariant, but the current
-- thread may have blocked or died, and is good once it is off the processor.
pub record Leaving (s : Kernel) : Type 0 where
  pub current_in : s.current ≤ idle
  pub good : (i : ℕ) → i ≤ idle → i ≢ s.current → IsGood s.stacks i (s.threads i)
  pub off : IsGood s.stacks s.current (demoted s.current (self s))
  pub alone : (i : ℕ) → i < idle → (s.threads i).state ≡ running → i ≡ s.current
  pub not_waiting : (self s).state ≢ runnable

Fits-running : (k : Kont) (ipc : IpcState) (n : ℕ) → Fits k runnable ipc n → Fits k running ipc n
Fits-running (after_send w) ipc n h = h
Fits-running (after_recv o w) ipc n h = h
Fits-running torn_down ipc n h = cc
Fits-running idle_loop ipc n h = h
Fits-running (bootstrap p) ipc n h = h
Fits-running to_user ipc n h = h

Fits-runnable : (k : Kont) (ipc : IpcState) (n : ℕ) → Fits k running ipc n → Fits k runnable ipc n
Fits-runnable (after_send w) ipc n h = h
Fits-runnable (after_recv o w) ipc n h = h
Fits-runnable torn_down ipc n h = cc
Fits-runnable idle_loop ipc n h = h
Fits-runnable (bootstrap p) ipc n h = h
Fits-runnable to_user ipc n h = h

-- A running thread that is taken off the processor.
off-IsGood :
    (stacks i : ℕ) (t : Thread)
    → IsGood stacks i t
    → t.state ≡ running
    → IsGood stacks i (demoted i t)
off-IsGood stacks i t g e =
    let here : Fits t.kont running t.ipc_state t.irq_pending =
      subst (λ st. Fits t.kont st t.ipc_state t.irq_pending) e g.fits in
    ground (arith, g, Fits-runnable t.kont t.ipc_state t.irq_pending here)

running-IsGood :
    (stacks i : ℕ) (t : Thread)
    → IsGood stacks i t
    → t.state ≡ runnable
    → IsGood stacks i (record t { state = running })
running-IsGood stacks i t g e =
    let here : Fits t.kont runnable t.ipc_state t.irq_pending =
      subst (λ st. Fits t.kont st t.ipc_state t.irq_pending) e g.fits in
    record {
      id_is = g.id_is;
      fits = Fits-running t.kont t.ipc_state t.irq_pending here;
      stack = λ lt ne. g.stack lt (λ u. cc);
      idle_runs = λ ii. (refl, (g.idle_runs ii).1);
    }

promoted-IsGood :
    (stacks i : ℕ) (t : Thread)
    → IsGood stacks i t
    → (i ≢ idle → t.state ≡ runnable)
    → IsGood stacks i (promoted i t)
promoted-IsGood stacks i t g ready = elim (ℕ_discrete i idle) [
  | yes e ↦ ground (arith, g)
  | no d ↦ ground (arith, running-IsGood stacks i t g (ready d))
]

module _ (s : Kernel) (n : ℕ) (l : Leaving s) (c : IsChoice s n) (ne : n ≢ s.current) where
  demote-IsGood : (i : ℕ) → i ≤ idle → IsGood s.stacks i ((demote s).threads i)
  demote-IsGood i le =
      update_all (IsGood s.stacks) s.threads s.current (demoted s.current (self s)) l.off i
        (λ d. l.good i le (λ e. d (sym e)))

  chosen : (demote s).threads n ≡ s.threads n
  chosen = update_ne s.threads s.current n (demoted s.current (self s)) (λ e. ne (sym e))

  switch_to-IsGood : (i : ℕ) → i ≤ idle → IsGood s.stacks i ((switch_to n s).threads i)
  switch_to-IsGood i le =
      update_all (IsGood s.stacks) (demote s).threads n (promoted n ((demote s).threads n))
        (promoted-IsGood s.stacks n ((demote s).threads n) (demote-IsGood n c.bound)
          (λ d. ap (λ (t : Thread). t.state) chosen ∙ c.ready d))
        i (λ _. demote-IsGood i le)

  switch_to-alone : (i : ℕ) → i < idle → ((switch_to n s).threads i).state ≡ running → i ≡ n
  switch_to-alone i lt e = ground (arith, l.alone i)

  -- the thread that comes in
  switch_to-runs : ((switch_to n s).threads n).state ≡ running
  switch_to-runs = elim (ℕ_discrete n idle) [
    | yes e ↦ ground (arith, (l.good n c.bound ne).idle_runs e)
    | no d ↦ ground arith
  ]

  switch_to-Inv : Inv (switch_to n s)
  switch_to-Inv = record {
    current_in = c.bound;
    good = switch_to-IsGood;
    runs = switch_to-runs;
    alone = switch_to-alone;
    lands = λ _. refl;
  }

-- The idle thread goes on if nobody is runnable.
stay-Inv : (s : Kernel) → Leaving s → s.current ≡ idle → Inv s
stay-Inv s l e =
    let here : IsGood s.stacks s.current (self s) = ground (arith, l.off) in
    record {
      current_in = l.current_in;
      good = λ i le. elim (ℕ_discrete i s.current) [
        | yes d ↦ subst (λ k. IsGood s.stacks k (s.threads k)) (sym d) here
        | no ne ↦ l.good i le ne
      ];
      runs = (here.idle_runs e).0;
      alone = l.alone;
      lands = λ ne. absurd (ne e);
    }

-- A current thread that is chosen again is the idle thread.
chosen_again-idle : (s : Kernel) → Leaving s → IsChoice s s.current → s.current ≡ idle
chosen_again-idle s l c = elim (ℕ_discrete s.current idle) [
  | yes i ↦ i
  | no k ↦ absurd (l.not_waiting (c.ready k))
]

switch_if-same : (s : Kernel) (n : ℕ) → n ≡ s.current → switch_if (some n) s ≡ s
switch_if-same s n e = rw (e, ==_refl s.current)

switch_if-other : (s : Kernel) (n : ℕ) → n ≢ s.current → switch_if (some n) s ≡ switch_to n s
switch_if-other s n ne = rw (==_ne n s.current ne)

-- `schedule` establishes the invariant, whichever thread it chooses.
pub reschedule-Inv : (s : Kernel) → Leaving s → Inv (reschedule s)
unfolding reschedule
reschedule-Inv s l = elim (Option-cases (pick_next s)) [
  | inl e ↦ rw e (stay-Inv s l (pick-none s e))
  | inr (n, e) ↦
      let c : IsChoice s n = pick-IsChoice s e in
      elim (ℕ_discrete n s.current) [
        | yes d ↦
            rw (e, switch_if-same s n d)
              (stay-Inv s l (chosen_again-idle s l (subst (IsChoice s) d c)))
        | no ne ↦ rw (e, switch_if-other s n ne) (switch_to-Inv s n l c ne)
      ]
]

-- The current thread leaves in a state `s'` that differs from a valid one in that thread alone.
leaving :
    (s s' : Kernel)
    → Inv s
    → s'.current ≡ s.current
    → s'.stacks ≡ s.stacks
    → ((j : ℕ) → s.current ≢ j → s'.threads j ≡ s.threads j)
    → IsGood s.stacks s.current (demoted s.current (s'.threads s.current))
    → (s'.threads s.current).state ≢ runnable
    → Leaving s'
leaving s s' v ec es rest off nr = record {
  current_in = rw ec v.current_in;
  good = λ i le ne. rw (es, rest i (λ e. ne (sym e ∙ sym ec))) (v.good i le);
  off = rw (ec, es) off;
  alone = λ i lt e. elim (ℕ_discrete s.current i) [
    | yes d ↦ sym d ∙ sym ec
    | no d ↦ v.alone i lt (ap (λ (t : Thread). t.state) (sym (rest i d)) ∙ e) ∙ sym ec
  ];
  not_waiting = rw ec nr;
}

-- A current thread that has blocked or died, as `t`, leaves and goes on with `k`.
pub schedule-Inv :
    (k : Kont) (s : Kernel) (t : Thread)
    → Inv s
    → IsGood s.stacks s.current (demoted s.current (record t { kont = k }))
    → t.state ≢ runnable
    → Inv (schedule k (put_self s t))
unfolding schedule
schedule-Inv k s t v g nr = reschedule-Inv _ (
    leaving s _ v refl refl (λ j ne. ground arith) (rw (==_refl s.current) g)
      (rw (==_refl s.current) nr))

-- A tick of the timer: the current thread leaves and goes on with what it was doing.
pub schedule_tick-Inv : (s : Kernel) → Inv s → Inv (schedule (self s).kont s)
unfolding schedule
schedule_tick-Inv s v = reschedule-Inv _ (
    leaving s _ v refl refl (λ j ne. ground arith)
      (rw (==_refl s.current)
        (off-IsGood s.stacks s.current (self s) (v.good s.current v.current_in) v.runs))
      (rw (==_refl s.current) (λ e. cc (v.runs, e))))

-- The current thread dies.
pub dies-Inv :
    (s : Kernel)
    → Inv s
    → s.current ≢ idle
    → Inv (schedule torn_down (put_self s (record (self s) { state = dead })))
dies-Inv s v ne =
    let g : IsGood s.stacks s.current (self s) = v.good s.current v.current_in in
    schedule-Inv torn_down s (record (self s) { state = dead }) v
      (record {
        id_is = g.id_is;
        fits = refl;
        stack = λ lt _. g.stack lt (λ e. cc (v.runs, e));
        idle_runs = λ e. absurd (ne e);
      })
      (λ e. cc)
