-- ===== src/Riscv/Preempt.antt =====
-- Preemption on riscv64, whatever other traps come between the ticks.
use mukern.Base.{
  ℕ, ◌+◌, ◌%◌, ◌^◌, ◌≡◌, ◌<◌, ◌≤◌, ◌⊎◌, inl, inr, refl, sym, ap, subst, Bool, true, List, [], ◌∷◌,
  ◌++◌, Bool-cases, if◌then◌else◌, arith,
}
use mukern.Thread.{Kernel, runnable, idle, max_threads, self, put_self}
use mukern.Sched.{schedule}
use mukern.Sched.Fair.{turn, reschedule-turn}
use mukern.Riscv.{Hart, is_timer, trap_handler}

-- traps one after another, each with its cause and its time
unfoldable pub traps : List (ℕ × ℕ) → Hart → Hart
traps [] h = h
traps ((scause, now) ∷ rest) h = traps rest (trap_handler scause now h)

-- how many of them are ticks of the timer
abbrev pub ticks_in : List (ℕ × ℕ) → ℕ
ticks_in [] = 0
ticks_in ((scause, now) ∷ rest) = (if is_timer scause then 1 else 0) + ticks_in rest

-- Thread `i` waits for its turn.
pub record Waits (i : ℕ) (h : Hart) : Type 0 where
  pub on : h.hooked ≡ true
  pub here : h.kernel.current ≤ idle
  pub ready : (h.kernel.threads i).state ≡ runnable

schedule-turn :
    (s : Kernel) (i : ℕ)
    → s.current ≤ idle
    → i < idle
    → (s.threads i).state ≡ runnable
    → let s' = schedule (self s).kont s in
      (s'.current ≡ i)
      ⊎ ((turn s'.current i < turn s.current i)
          × ((s'.threads i).state ≡ runnable)
          × (s'.current ≤ idle))
unfolding schedule
schedule-turn s i lc li e =
    reschedule-turn (put_self s (record (self s) { kont = (self s).kont })) i lc li
      (ground (arith, e))

-- A tick, once the hook is set.
abbrev ticked : ℕ → Hart → Hart
ticked now h = record h {
  deadline = (now + h.interval) % 2 ^ 64;
  kernel = schedule (self h.kernel).kont h.kernel;
}

trap_handler-tick :
    (scause now : ℕ) (h : Hart)
    → is_timer scause ≡ true
    → h.hooked ≡ true
    → trap_handler scause now h ≡ ticked now h
unfolding trap_handler
trap_handler-tick scause now h timer on = rw timer (
    ap
      (λ (b : Bool). record h {
        deadline = (now + h.interval) % 2 ^ 64;
        kernel = if b then schedule (self h.kernel).kont h.kernel else h.kernel;
      })
      on)

-- A tick brings the thread to the processor or nearer to its turn.
tick-turn :
    (scause now i : ℕ) (h : Hart)
    → i < idle
    → is_timer scause ≡ true
    → Waits i h
    → let h' = trap_handler scause now h in
      (h'.kernel.current ≡ i) ⊎ ((turn h'.kernel.current i < turn h.kernel.current i) × Waits i h')
tick-turn scause now i h lt timer w =
    subst
      (λ (h' : Hart).
        (h'.kernel.current ≡ i)
        ⊎ ((turn h'.kernel.current i < turn h.kernel.current i) × Waits i h'))
      (sym (trap_handler-tick scause now h timer w.on))
      (elim (schedule-turn h.kernel i w.here lt w.ready) [
        | inl now_on ↦ inl now_on
        | inr (nearer, still, here) ↦ inr (nearer, record { on = w.on; here = here; ready = still })
      ])

-- The traps reach a point at which thread `i` is the running one.
abbrev pub ComesOn : ℕ → List (ℕ × ℕ) → Hart → Type 0
ComesOn i list h =
    (before : List (ℕ × ℕ)) × (after : List (ℕ × ℕ)) × (list ≡ before ++ after)
    × ((traps before h).kernel.current ≡ i)

after_one :
    (i scause now : ℕ) (rest : List (ℕ × ℕ)) (h : Hart)
    → ComesOn i rest (trap_handler scause now h)
    → ComesOn i ((scause, now) ∷ rest) h
unfolding traps
after_one i scause now rest h (before, after, e, on) =
    ((scause, now) ∷ before, after, ap (λ l. (scause, now) ∷ l) e, on)

comes_by :
    (list : List (ℕ × ℕ)) (i : ℕ) (h : Hart)
    → i < idle
    → Waits i h
    → turn h.kernel.current i < ticks_in list
    → ComesOn i list h
unfolding traps
comes_by [] i h lt w enough = absurd (omega arith)
comes_by ((scause, now) ∷ rest) i h lt w enough = elim (Bool-cases (is_timer scause)) [
  | inr other ↦
      let same : trap_handler scause now h ≡ h = unfold trap_handler in rw other refl in
      let fewer : turn h.kernel.current i < ticks_in rest = ground (arith, enough, other) in
      after_one i scause now rest h
        (subst (ComesOn i rest) (sym same) (comes_by rest i h lt w fewer))
  | inl timer ↦ elim (tick-turn scause now i h lt timer w) [
    | inl on ↦ ((scause, now) ∷ [], rest, refl, on)
    | inr (nearer, w') ↦
        after_one i scause now rest h (
          comes_by rest i (trap_handler scause now h) lt w' (ground (arith, enough, timer, nearer)))
  ]
]

-- On riscv64 a runnable thread is the running one at some point of any sequence of traps that has
-- sixteen ticks of the timer in it, whatever the other traps are, once the hook is set.
pub traps_run :
    (list : List (ℕ × ℕ)) (i : ℕ) (h : Hart)
    → i < idle
    → Waits i h
    → max_threads ≤ ticks_in list
    → ComesOn i list h
traps_run list i h lt w enough = comes_by list i h lt w (omega (arith, enough))
