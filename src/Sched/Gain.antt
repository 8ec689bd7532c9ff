-- ===== src/Sched/Gain.antt =====
-- The scheduler and the messages move no capability.
use mukern.Base.{ℕ, ◌≡◌, refl, arith, inl, inr, Option-cases, Bool-cases, ◌==◌, first_from}
use mukern.Thread.{Kernel, Thread, Kont, self, put_self, is_vacant, max_threads}
use mukern.Sched.{
  schedule, reschedule, switch_to, pick_next, demoted, promoted, demote, thread_create,
  fresh_thread,
}
use mukern.Cap.Gain.{NoGain, NoGain-refl, NoGain-trans, store-NoGain, put-NoGain, clear-NoMore}

ctable-demoted : (i : ℕ) (t : Thread) → (demoted i t).ctable ≡ t.ctable
ctable-demoted i t = ground arith

ctable-promoted : (i : ℕ) (t : Thread) → (promoted i t).ctable ≡ t.ctable
ctable-promoted i t = ground arith

switch_to-NoGain : (n : ℕ) (s : Kernel) → NoGain s (switch_to n s)
switch_to-NoGain n s =
    NoGain-trans s (demote s) (switch_to n s)
      (store-NoGain s s.current (demoted s.current (self s)) (ctable-demoted s.current (self s)))
      (store-NoGain (demote s) n (promoted n ((demote s).threads n))
        (ctable-promoted n ((demote s).threads n)))

reschedule-NoGain : (s : Kernel) → NoGain s (reschedule s)
unfolding reschedule
reschedule-NoGain s = elim (Option-cases (pick_next s)) [
  | inl e ↦ rw e (NoGain-refl s)
  | inr (n, e) ↦ elim (Bool-cases (n == s.current)) [
    | inl same ↦ rw (e, same) (NoGain-refl s)
    | inr other ↦ rw (e, other) (switch_to-NoGain n s)
  ]
]

pub schedule-NoGain : (k : Kont) (s : Kernel) → NoGain s (schedule k s)
unfolding schedule
schedule-NoGain k s =
    let s' : Kernel = put_self s (record (self s) { kont = k }) in
    NoGain-trans s s' (reschedule s') (store-NoGain s s.current (record (self s) { kont = k }) refl)
      (reschedule-NoGain s')

-- A new thread begins with an empty table.
pub thread_create-NoGain : (prog : ℕ) (s : Kernel) → NoGain s (thread_create prog s).0
unfolding thread_create
thread_create-NoGain prog s =
    elim (Option-cases (first_from (λ i. is_vacant (s.threads i).state) 0 max_threads)) [
      | inl e ↦ rw (e, thread_create) (NoGain-refl s)
      | inr (i, e) ↦
          rw (e, thread_create)
            (put-NoGain s i (fresh_thread s.stacks prog i (s.threads i))
              (clear-NoMore (s.threads i) _))
    ]
