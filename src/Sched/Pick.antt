-- ===== src/Sched/Pick.antt =====
-- What `schedule` chooses: the first runnable thread in round-robin order.
use mukern.Base.{
  ℕ, ◌≡◌, ◌≢◌, ◌<◌, ◌≤◌, ◌⊎◌, true, false, some, none, inl, inr, arith, IsFirst, first_from-IsFirst,
  Option-cases, first_from-none, first_from, ◌==◌, if◌then◌else◌,
}
use mukern.Thread.{Kernel, runnable, idle, max_threads, is_runnable, TState}
use mukern.Sched.{pick_next, candidate, runnable_at}

is_runnable→ : (st : TState) → is_runnable st ≡ true → st ≡ runnable
is_runnable→ st h = ground arith

-- A runnable thread is chosen, the first in order after the current one; the idle thread only if
-- there is none, and then only if it is not running already.
pub pick-cases :
    (s : Kernel)
    → ((k : ℕ) × IsFirst (runnable_at s) 0 max_threads k × (pick_next s ≡ some (candidate s k)))
      ⊎ (((k : ℕ) → k < max_threads → runnable_at s k ≡ false)
          × (pick_next s ≡ (if s.current == idle then none else some idle)))
unfolding pick_next
pick-cases s = elim (Option-cases (first_from (runnable_at s) 0 max_threads)) [
  | inl e ↦ inr (
    λ k lt. first_from-none (runnable_at s) 0 max_threads e k (omega arith) (omega arith),
    rw (e, pick_next),
  )
  | inr (k, e) ↦ inl (k, first_from-IsFirst (runnable_at s) 0 max_threads e, rw (e, pick_next))
]

-- What is chosen is the idle thread, or a runnable thread of the table.
pub record IsChoice (s : Kernel) (n : ℕ) : Type 0 where
  pub bound : n ≤ idle
  pub ready : n ≢ idle → (s.threads n).state ≡ runnable

pub pick-IsChoice : (s : Kernel) {n : ℕ} → pick_next s ≡ some n → IsChoice s n
pick-IsChoice s {n} h = elim (pick-cases s) [
  | inl (k, first, e) ↦ record {
    bound = ground arith;
    ready = λ ne. ground (arith, is_runnable→ (s.threads (candidate s k)).state first.passes);
  }
  | inr (nobody, e) ↦ ground arith
]

-- Nothing is chosen only while the idle thread runs.
pub pick-none : (s : Kernel) → pick_next s ≡ none → s.current ≡ idle
pick-none s h = elim (pick-cases s) [
  | inl (k, first, e) ↦ ground arith
  | inr (nobody, e) ↦ ground arith
]
