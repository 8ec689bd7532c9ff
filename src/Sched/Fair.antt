-- ===== src/Sched/Fair.antt =====
-- Round robin: a runnable thread gets the processor after at most sixteen choices.
use mukern.Base.{
  ℕ, ◌+◌, ◌-◌, ◌%◌, ◌≡◌, ◌≢◌, ◌<◌, ◌≤◌, ◌⊎◌, true, some, inl, inr, refl, sym, ap, ◌∙◌, arith,
  ℕ_discrete, dec_lt, dec_le, false≢true,
}
use mukern.Thread.{Kernel, runnable, idle, max_threads}
use mukern.Sched.{candidate, runnable_at, reschedule, switch_if, scan_from}
use mukern.Sched.Pick.{pick-cases}

-- The round of the search at which thread `i` is looked at, if `c` is the current thread.
abbrev pub turn : ℕ → ℕ → ℕ
turn c i = (i + max_threads - scan_from c) % max_threads

scan_from-le : (c : ℕ) → c ≤ idle → scan_from c ≤ max_threads
scan_from-le c h = ground arith

scan_from-lt : (c : ℕ) → c < idle → scan_from c ≡ c + 1
scan_from-lt c h = ground arith

turn_back : (f i : ℕ) → f ≤ 16 → i < 16 → (f + (i + 16 - f) % 16) % 16 ≡ i
turn_back f i lf li = omega arith

turn_left :
    (f i k : ℕ)
    → f ≤ 16
    → i < 16
    → k < (i + 16 - f) % 16
    → (i + 16 - ((f + k) % 16 + 1)) % 16 < (i + 16 - f) % 16
turn_left f i k lf li lt = omega arith

candidate-turn :
    (s : Kernel) (i : ℕ) → s.current ≤ idle → i < idle → candidate s (turn s.current i) ≡ i
candidate-turn s i lc li = turn_back (scan_from s.current) i (scan_from-le s.current lc) li

-- After a choice at round `k`, a thread whose turn is later is nearer.
turn-falls :
    (s : Kernel) (i k : ℕ)
    → s.current ≤ idle
    → i < idle
    → k < turn s.current i
    → turn (candidate s k) i < turn s.current i
turn-falls s i k lc li lt =
    rw (scan_from-lt (candidate s k) (omega arith))
      (turn_left (scan_from s.current) i k (scan_from-le s.current lc) li lt)

not_lt-eq : (a b : ℕ) → a ≤ b → ¬ (a < b) → a ≡ b
not_lt-eq a b h k = omega arith

-- A choice of the scheduler while thread `i` is runnable: it is `i`, or a thread whose turn came
-- before that of `i`, which stays runnable and is nearer to its turn.
pub reschedule-turn :
    (s : Kernel) (i : ℕ)
    → s.current ≤ idle
    → i < idle
    → (s.threads i).state ≡ runnable
    → let s' = reschedule s in
      (s'.current ≡ i)
      ⊎ ((turn s'.current i < turn s.current i)
          × ((s'.threads i).state ≡ runnable)
          × (s'.current ≤ idle))
unfolding reschedule
reschedule-turn s i lc li e = elim (pick-cases s) [
  | inr (nobody, _) ↦ absurd (false≢true (sym (nobody (turn s.current i) (omega arith)) ∙ mine))
  | inl (k, first, chosen) ↦
      let le : k ≤ turn s.current i = elim (dec_le k (turn s.current i)) [
        | yes h ↦ h
        | no h ↦
            absurd (
              false≢true
                (sym (first.earlier (turn s.current i) (omega arith) (omega arith)) ∙ mine))
      ] in
      elim (ℕ_discrete (candidate s k) i) [
        | yes same ↦ inl (rw chosen (current-switch (candidate s k) ∙ same))
        | no other ↦ inr (
          rw chosen
              (rw (current-switch (candidate s k)) (turn-falls s i k lc li (strict k le other))),
          rw chosen (stays (candidate s k) other),
          rw chosen (rw (current-switch (candidate s k)) (omega arith)),
        )
      ]
]
  where
    mine : runnable_at s (turn s.current i) ≡ true
    mine = rw (candidate-turn s i lc li, e) refl

    strict : (k : ℕ) → k ≤ turn s.current i → candidate s k ≢ i → k < turn s.current i
    strict k le other = elim (dec_lt k (turn s.current i)) [
      | yes h ↦ h
      | no h ↦ absurd (
          other (ap (candidate s) (not_lt-eq k (turn s.current i) le h) ∙ candidate-turn s i lc li))
    ]

    current-switch : (n : ℕ) → (switch_if (some n) s).current ≡ n
    current-switch n = ground arith

    stays : (n : ℕ) → n ≢ i → ((switch_if (some n) s).threads i).state ≡ runnable
    stays n other = ground (arith, e)
