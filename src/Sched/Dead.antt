-- ===== src/Sched/Dead.antt =====
-- A thread that is dead is never switched to.
use mukern.Base.{
  ℕ, ◌≡◌, ◌≢◌, ◌<◌, sym, ap, ◌∙◌, subst, ◌==◌, ==_iff, update_ne, update_self, ℕ_discrete,
  Option-cases, Bool-cases, inl, inr, arith,
}
use mukern.Thread.{Kernel, Thread, Kont, dead, runnable, idle, put_self, self}
use mukern.Sched.{schedule, reschedule, pick_next, switch_to, demote}
use mukern.Sched.Pick.{IsChoice, pick-IsChoice, pick-none}

-- Thread `i` is dead, and another one is the current thread.
pub record IsGone (i : ℕ) (s : Kernel) : Type 0 where
  pub is_dead : (s.threads i).state ≡ dead
  pub left : i ≢ s.current

not_chosen : (s : Kernel) (i n : ℕ) → i < idle → (s.threads i).state ≡ dead → IsChoice s n → i ≢ n
not_chosen s i n lt d choice e =
    let ready : (s.threads n).state ≡ runnable = choice.ready (omega (arith, e, lt)) in
    let both : dead ≡ runnable = sym d ∙ ap (λ j. (s.threads j).state) e ∙ ready in cc both

demoted-dead :
    (i : ℕ) (s : Kernel) → (s.threads i).state ≡ dead → ((demote s).threads i).state ≡ dead
demoted-dead i s d = elim (ℕ_discrete s.current i) [
  | no ne ↦ ap (λ (t : Thread). t.state) (update_ne s.threads s.current i _ ne) ∙ d
  | yes e ↦
      let at : (self s).state ≡ dead = ap (λ j. (s.threads j).state) e ∙ d in
      subst (λ j. ((demote s).threads j).state ≡ dead) e
        (ap (λ (t : Thread). t.state) (update_self s.threads s.current _) ∙ rw at at)
]

switch_to-IsGone :
    (s : Kernel) (i n : ℕ) → i ≢ n → (s.threads i).state ≡ dead → IsGone i (switch_to n s)
switch_to-IsGone s i n ne d = record {
  is_dead =
      ap (λ (t : Thread). t.state) (update_ne (demote s).threads n i _ (λ e. ne (sym e)))
      ∙ demoted-dead i s d;
  left = ne;
}

pub reschedule-IsGone :
    (s : Kernel) (i : ℕ) → i < idle → (s.threads i).state ≡ dead → IsGone i (reschedule s)
unfolding reschedule
reschedule-IsGone s i lt d = elim (Option-cases (pick_next s)) [
  | inl e ↦
      let at : s.current ≡ idle = pick-none s e in
      rw (e, reschedule) (record { is_dead = d; left = λ q. omega (arith, q, at, lt) })
  | inr (n, e) ↦
      let ne : i ≢ n = not_chosen s i n lt d (pick-IsChoice s e) in
      elim (Bool-cases (n == s.current)) [
        | inl same ↦
            let at : n ≡ s.current = (==_iff n s.current).0 same in
            rw (e, same, reschedule) (record { is_dead = d; left = λ q. ne (q ∙ sym at) })
        | inr other ↦ rw (e, other, reschedule) (switch_to-IsGone s i n ne d)
      ]
]

-- A thread that marks itself dead and calls `schedule` is switched away from.
pub schedule-IsGone :
    (k : Kont) (s : Kernel)
    → s.current < idle
    → (self s).state ≡ dead
    → IsGone s.current (schedule k s)
unfolding schedule
schedule-IsGone k s lt d =
    reschedule-IsGone (put_self s (record (self s) { kont = k })) s.current lt
      (ap (λ (t : Thread). t.state) (update_self s.threads s.current _) ∙ d)

-- `thread_exit`, up to its loop, which waits for the timer
unfoldable pub thread_exit : Kernel → Kernel
thread_exit s = put_self s (record (self s) { state = dead })

-- The next call of the scheduler switches away from a thread that has exited.
pub reschedule-thread_exit :
    (s : Kernel) → s.current < idle → IsGone s.current (reschedule (thread_exit s))
unfolding thread_exit
reschedule-thread_exit s lt =
    reschedule-IsGone (put_self s (record (self s) { state = dead })) s.current lt
      (ap (λ (t : Thread). t.state) (update_self s.threads s.current _))
