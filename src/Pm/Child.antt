-- ===== src/Pm/Child.antt =====
-- What a child of the process manager holds.
use mukern.Base.{
  ℕ, ℤ, pos, to_int, ◌≡◌, ◌≢◌, ◌<◌, inl, inr, refl, sym, ap, subst, ◌∙◌, Bool, true, false,
  false≢true, some, ◌==ℤ◌, ◌||◌, ltb, update_self, update_ne, first_from, IsFirst,
  first_from-IsFirst, first_from-some, Bool-cases, Option-cases, arith,
}
use mukern.Abi.{Msg}
use mukern.Thread.{Kernel, Thread, bootstrap, runnable, running, max_threads, put, self, is_vacant}
use mukern.Cap.{cap_has_endpoint, cap_has_port, cap_grant_endpoint, free_slot}
use mukern.Cap.Grant.{cap_grant_endpoint_lem}
use mukern.Sched.{thread_create, fresh_thread}
use mukern.Syscall.{proc_spawn, adopt}
use mukern.Init.{con_tid}
use mukern.Init.Gained.{HasRoom, grant_cap-Gained}
use mukern.Init.Grants.{empty-sends, empty-uses}
use mukern.Pm.{release, grant_console, pm_handle, msg_spawn}

grant_current :
    (p : ℕ) (e : ℤ) (s : Kernel) → (cap_grant_endpoint (some p) e s).0.current ≡ s.current
unfolding cap_grant_endpoint
grant_current p e s = elim (Bool-cases (cap_has_endpoint (s.threads p) e)) [
  | inl has ↦ rw has refl
  | inr lacks ↦ elim (Option-cases (free_slot (s.threads p))) [
    | inl full ↦ rw (lacks, full) refl
    | inr (i, free) ↦ rw (lacks, free) refl
  ]
]

-- A grant to one thread leaves the others.
grant_other :
    (p j : ℕ) (e : ℤ) (s : Kernel)
    → p ≢ j
    → (cap_grant_endpoint (some p) e s).0.threads j ≡ s.threads j
grant_other p j e s ne = elim (cap_grant_endpoint_lem p e s) [
  | inl (r, exactly, rest, held) ↦ rest j ne
  | inr (r, same, full) ↦ ap (λ (t : Kernel). t.threads j) same
]

-- Nor does it take anything from that thread.
grant_kept :
    (p : ℕ) (e x : ℤ) (s : Kernel)
    → cap_has_endpoint (s.threads p) x ≡ true
    → cap_has_endpoint ((cap_grant_endpoint (some p) e s).0.threads p) x ≡ true
grant_kept p e x s has = elim (cap_grant_endpoint_lem p e s) [
  | inl (r, exactly, rest, held) ↦ exactly x ∙ (rw has refl)
  | inr (r, same, full) ↦ ap (λ (t : Kernel). cap_has_endpoint (t.threads p) x) same ∙ has
]

fresh-HasRoom : (stacks prog i : ℕ) (t : Thread) → HasRoom (fresh_thread stacks prog i t) 0
fresh-HasRoom stacks prog i t k ge lt = ground (arith, lt)

-- The state when the process manager releases its child: the child in slot `i` begins at the program
-- `prog`, may send to the console driver and to nobody else by its capabilities, and may use no port; the
-- other threads but the process manager are as before.
pub record Born (prog i : ℕ) (s s' : Kernel) : Type 0 where
  pub slot : i < max_threads
  pub was_vacant : is_vacant (s.threads i).state ≡ true
  pub can_run : (s'.threads i).state ≡ runnable
  pub begins : (s'.threads i).kont ≡ bootstrap prog
  pub sends : (e : ℤ) → cap_has_endpoint (s'.threads i) e ≡ (pos con_tid ==ℤ e)
  pub uses : (port : ℕ) → cap_has_port (s'.threads i) port ≡ false
  pub others : (j : ℕ) → i ≢ j → s.current ≢ j → s'.threads j ≡ s.threads j

grant_fields :
    (p j : ℕ) (e : ℤ) (s : Kernel)
    → (((cap_grant_endpoint (some p) e s).0.threads j).state ≡ (s.threads j).state)
      × (((cap_grant_endpoint (some p) e s).0.threads j).kont ≡ (s.threads j).kont)
unfolding cap_grant_endpoint
grant_fields p j e s = elim (Bool-cases (cap_has_endpoint (s.threads p) e)) [
  | inl has ↦ rw has (refl, refl)
  | inr lacks ↦ elim (Option-cases (free_slot (s.threads p))) [
    | inl full ↦ rw (lacks, full) (refl, refl)
    | inr (i, free) ↦ rw (lacks, free) (ground arith, ground arith)
  ]
]

or_true : (a : Bool) {b : Bool} → b ≡ true → (a || b) ≡ true
or_true a e = rw e (ground arith)

-- The grant to the child, where the process manager itself may send to the console driver.
grant_console-Born :
    (prog i : ℕ) (s s2 : Kernel)
    → i < max_threads
    → is_vacant (s.threads i).state ≡ true
    → cap_has_endpoint (self s2) (pos con_tid) ≡ true
    → s2.threads i ≡ fresh_thread s.stacks prog i (s.threads i)
    → ((j : ℕ) → i ≢ j → s.current ≢ j → s2.threads j ≡ s.threads j)
    → Born prog i s (grant_console i s2)
unfolding grant_console
grant_console-Born prog i s s2 lt vacant has fresh rest =
    let here : ltb i max_threads ≡ true = ground (arith, lt) in
    let room : HasRoom (s2.threads i) 0 =
      subst (λ (t : Thread). HasRoom t 0) (sym fresh)
        (fresh-HasRoom s.stacks prog i (s.threads i)) in
    let g = grant_cap-Gained i 0 (pos con_tid) s2 (omega arith) room in
    let same = grant_fields i i (pos con_tid) s2 in
    rw (or_true ((self s2).id ==ℤ pos 0) has, here)
      (record {
        slot = lt;
        was_vacant = vacant;
        can_run = same.0 ∙ ap (λ (t : Thread). t.state) fresh;
        begins = same.1 ∙ ap (λ (t : Thread). t.kont) fresh;
        sends = λ e. g.sends e ∙ rw (empty-sends (s2.threads i) e room) refl;
        uses = λ port. g.uses port ∙ rw (empty-uses (s2.threads i) port room) refl;
        others = λ j ne other. grant_other i j (pos con_tid) s2 ne ∙ rest j ne other;
      })

-- The new thread, and the endpoint for it that the process manager gets.
adopted :
    (prog i : ℕ) (s : Kernel)
    → first_from (λ k. is_vacant (s.threads k).state) 0 max_threads ≡ some i
    → prog < 12
    → let s1 = put s i (fresh_thread s.stacks prog i (s.threads i)) in
      adopt (proc_spawn (pos prog) s) ≡ ((cap_grant_endpoint (some s.current) (pos i) s1).0, pos i)
unfolding proc_spawn thread_create
adopted prog i s e lt =
    let known : ltb prog 12 ≡ true = ground (arith, lt) in rw (known, thread_create, e) refl

adopted-Born :
    (prog i : ℕ) (s : Kernel)
    → i < max_threads
    → is_vacant (s.threads i).state ≡ true
    → (self s).state ≡ running
    → cap_has_endpoint (self s) (pos con_tid) ≡ true
    → let s1 = put s i (fresh_thread s.stacks prog i (s.threads i)) in
      Born prog i s (grant_console i (cap_grant_endpoint (some s.current) (pos i) s1).0)
adopted-Born prog i s lt vacant runs has =
    let p : ℕ = s.current in
    let s1 : Kernel = put s i (fresh_thread s.stacks prog i (s.threads i)) in
    let s2 : Kernel = (cap_grant_endpoint (some p) (pos i) s1).0 in
    let apart : i ≢ p =
      λ e. false≢true (sym (ap is_vacant (ap (λ k. (s.threads k).state) e ∙ runs)) ∙ vacant) in
    let same : s1.threads p ≡ s.threads p = update_ne s.threads i p _ apart in
    let has1 : cap_has_endpoint (s1.threads p) (pos con_tid) ≡ true =
      ap (λ (t : Thread). cap_has_endpoint t (pos con_tid)) same ∙ has in
    let has2 : cap_has_endpoint (self s2) (pos con_tid) ≡ true =
      subst (λ c. cap_has_endpoint (s2.threads c) (pos con_tid) ≡ true)
        (sym (grant_current p (pos i) s1)) (grant_kept p (pos i) (pos con_tid) s1 has1) in
    grant_console-Born prog i s s2 lt vacant has2
      (grant_other p i (pos i) s1 (λ e. apart (sym e)) ∙ update_self s.threads i _)
      (λ j ne other. grant_other p j (pos i) s1 other ∙ update_ne s.threads i j _ ne)

-- A request to spawn a program that there is, to the process manager as the running thread, which may send
-- to the console driver, while a slot of the table is vacant, with no other thread running in between: it
-- comes to the send that releases a thread. This thread begins at the program, may send to the console
-- driver and to nobody else by its capabilities, and may use no port; no thread but this one and the
-- process manager has changed.
pub pm_handle-Born :
    (m : Msg) (prog v : ℕ) (s : Kernel)
    → m.label ≡ msg_spawn
    → to_int m.data0 ≡ pos prog
    → prog < 12
    → v < max_threads
    → is_vacant (s.threads v).state ≡ true
    → (self s).state ≡ running
    → cap_has_endpoint (self s) (pos con_tid) ≡ true
    → (i : ℕ) × (s' : Kernel) × (pm_handle m s ≡ (s', release i)) × Born prog i s s'
unfolding pm_handle
pm_handle-Born m prog v s label arg known below vacant runs has =
    let (i, e) =
      first_from-some (λ k. is_vacant (s.threads k).state) 0 max_threads v (omega arith)
        (omega (arith, below)) vacant in
    let first : IsFirst (λ k. is_vacant (s.threads k).state) 0 max_threads i =
      first_from-IsFirst _ 0 max_threads e in
    let lt : i < max_threads = omega (arith, first.below) in
    (
      i,
      _,
      rw (label, arg, adopted prog i s e known) refl,
      adopted-Born prog i s lt first.passes runs has,
    )
