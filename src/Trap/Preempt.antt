-- ===== src/Trap/Preempt.antt =====
-- Preemption: the timer brings every runnable thread to the processor.
use mukern.Base.{ℕ, zero, suc, ◌+◌, ◌≡◌, ◌<◌, ◌≤◌, ◌⊎◌, inl, inr, arith, ◌%◌, ◌^◌}
use mukern.Thread.{Kernel, runnable, idle, max_threads, self, put_self}
use mukern.Sched.{schedule}
use mukern.Sched.Fair.{turn, reschedule-turn}
use mukern.Trap.{timer_tick, pic_send_eoi}

-- `n` ticks of the timer, with nothing else between them
pub ticks : ℕ → Kernel → Kernel
ticks zero s = s
ticks (suc n) s = ticks n (timer_tick s)

-- One tick brings a runnable thread to the processor or nearer to its turn.
timer_tick-turn :
    (s : Kernel) (i : ℕ)
    → s.current ≤ idle
    → i < idle
    → (s.threads i).state ≡ runnable
    → let s' = timer_tick s in
      (s'.current ≡ i)
      ⊎ ((turn s'.current i < turn s.current i)
          × ((s'.threads i).state ≡ runnable)
          × (s'.current ≤ idle))
unfolding timer_tick schedule
timer_tick-turn s i lc li e =
    reschedule-turn
      (put_self (pic_send_eoi 0 (record s { ticks = (s.ticks + 1) % 2 ^ 64 }))
        (record (self s) { kont = (self s).kont }))
      i lc li (ground (arith, e))

runs_by :
    (m : ℕ) (s : Kernel) (i : ℕ)
    → s.current ≤ idle
    → i < idle
    → (s.threads i).state ≡ runnable
    → turn s.current i < m
    → (n : ℕ) × (n ≤ m) × ((ticks n s).current ≡ i)
unfolding ticks
runs_by zero s i lc li e lt = absurd (omega arith)
runs_by (suc m) s i lc li e lt = elim (timer_tick-turn s i lc li e) [
  | inl now ↦ (1, omega arith, now)
  | inr (nearer, still, lc') ↦
      let (n, le, there) = runs_by m (timer_tick s) i lc' li still (omega arith) in
      (suc n, omega arith, there)
]

-- No runnable thread waits long: if ticks of the timer follow one another with no other trap
-- between them, a thread that is runnable is the running one after at most sixteen.
pub runs_within :
    (s : Kernel) (i : ℕ)
    → s.current ≤ idle
    → i < idle
    → (s.threads i).state ≡ runnable
    → (n : ℕ) × (n ≤ max_threads) × ((ticks n s).current ≡ i)
runs_within s i lc li e = runs_by max_threads s i lc li e (omega arith)
