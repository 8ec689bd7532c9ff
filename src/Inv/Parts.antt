-- ===== src/Inv/Parts.antt =====
-- The parts that system calls share, and the invariant of the thread table: results, grants, spawning and
-- receiving.
use mukern.Base.{
  ℕ, ℤ, pos, negsuc, minus_one, ◌≡◌, ◌<◌, ◌≤◌, true, some, none, inl, inr, arith, refl, sym, subst,
  ◌∙◌, Option-cases, Bool-cases, ◌==ℤ◌, if◌then◌else◌, IsFirst, first_from-IsFirst, Option,
  first_from, to_u64,
}
use mukern.Abi.{Msg}
use mukern.Thread.{Kernel, Thread, idle, self, put, put_self, max_threads, thread_by_id, is_vacant}
use mukern.Cap.{cap_grant_io, cap_grant_endpoint, cap_has_endpoint, free_slot}
use mukern.Sched.{thread_create, fresh_thread}
use mukern.Ipc.{Progress, done, switched}
use mukern.Paging.{vmm_map}
use mukern.Paging.Frame.{vmm_map-SameBut}
use mukern.Syscall.{
  set_rax, write_msg, set_result, recv_return, adopt, proc_spawn, send_result, recv_result,
}
use mukern.Inv.{Inv, IsGood, put-Inv}
use mukern.Inv.Ipc.{thread_by_id-lt}

-- A thread that differs in its registers, its capabilities, its open call or its staged message.
pub record Alike (t u : Thread) : Type 0 where
  pub id_as : u.id ≡ t.id
  pub kont_as : u.kont ≡ t.kont
  pub state_as : u.state ≡ t.state
  pub stack_as : u.kstack_top ≡ t.kstack_top
  pub ipc_as : u.ipc_state ≡ t.ipc_state
  pub irq_as : u.irq_pending ≡ t.irq_pending

pub Alike-Inv :
    (s : Kernel) (i : ℕ) (u : Thread) → Inv s → i ≤ idle → Alike (s.threads i) u → Inv (put s i u)
Alike-Inv s i u v le a =
    let g : IsGood s.stacks i (s.threads i) = v.good i le in
    put-Inv s i u v le
      (record {
        id_is = a.id_as ∙ g.id_is;
        fits = rw (a.kont_as, a.state_as, a.ipc_as, a.irq_as) g.fits;
        stack = λ lt ne. a.stack_as ∙ g.stack lt (λ e. ne (a.state_as ∙ e));
        idle_runs = λ e. (a.state_as ∙ (g.idle_runs e).0, a.kont_as ∙ (g.idle_runs e).1);
      })
      (inl a.state_as) (λ _. a.stack_as)

pub set_rax-Inv : (v : ℕ) (s : Kernel) → Inv s → Inv (set_rax v s)
set_rax-Inv v s h = Alike-Inv s s.current _ h h.current_in (record {
  id_as = refl;
  kont_as = refl;
  state_as = refl;
  stack_as = refl;
  ipc_as = refl;
  irq_as = refl;
})

pub set_result-Inv : (r : Kernel × ℤ) → Inv r.0 → Inv (set_result r)
set_result-Inv (s, r) h = set_rax-Inv (to_u64 r) s h

pub grant_io-Inv :
    (p : Option ℕ) (base len : ℕ) (s : Kernel)
    → ((i : ℕ) → p ≡ some i → i ≤ idle)
    → Inv s
    → Inv (cap_grant_io p base len s).0
unfolding cap_grant_io
grant_io-Inv none base len s le h = h
grant_io-Inv (some p) base len s le h = elim (Option-cases (free_slot (s.threads p))) [
  | inl e ↦ rw (e, cap_grant_io) h
  | inr (i, e) ↦
      rw (e, cap_grant_io)
        (Alike-Inv s p _ h (le p refl) (record {
          id_as = refl;
          kont_as = refl;
          state_as = refl;
          stack_as = refl;
          ipc_as = refl;
          irq_as = refl;
        }))
]

pub grant_endpoint-Inv :
    (p : Option ℕ) (target : ℤ) (s : Kernel)
    → ((i : ℕ) → p ≡ some i → i ≤ idle)
    → Inv s
    → Inv (cap_grant_endpoint p target s).0
unfolding cap_grant_endpoint
grant_endpoint-Inv none target s le h = h
grant_endpoint-Inv (some p) target s le h =
    elim (Bool-cases (cap_has_endpoint (s.threads p) target)) [
      | inl has ↦ rw (has, cap_grant_endpoint) h
      | inr lacks ↦ elim (Option-cases (free_slot (s.threads p))) [
        | inl e ↦ rw (lacks, cap_grant_endpoint, e) h
        | inr (i, e) ↦
            rw (lacks, cap_grant_endpoint, e)
              (Alike-Inv s p _ h (le p refl) (record {
                id_as = refl;
                kont_as = refl;
                state_as = refl;
                stack_as = refl;
                ipc_as = refl;
                irq_as = refl;
              }))
      ]
    ]

-- A new thread takes a slot that holds none, so never that of the caller.
thread_create-Inv : (prog : ℕ) (s : Kernel) → Inv s → Inv (thread_create prog s).0
unfolding thread_create
thread_create-Inv prog s h =
    elim (Option-cases (first_from (λ i. is_vacant (s.threads i).state) 0 max_threads)) [
      | inl e ↦ rw (e, thread_create) h
      | inr (i, e) ↦
          let first : IsFirst (λ j. is_vacant (s.threads j).state) 0 max_threads i =
            first_from-IsFirst _ 0 max_threads e in
          let empty : is_vacant (s.threads i).state ≡ true = first.passes in
          let lt : i < idle = omega (arith, first.below) in
          rw (e, thread_create)
            (put-Inv s i (fresh_thread s.stacks prog i (s.threads i)) h (omega arith)
              (record {
                id_is = (h.good i (omega arith)).id_is;
                fits = refl;
                stack = λ _ _. refl;
                idle_runs = λ ii. absurd (omega arith);
              })
              (ground (arith, h.runs)) (ground (arith, h.runs)))
    ]

pub proc_spawn-Inv : (p : ℤ) (s : Kernel) → Inv s → Inv (proc_spawn p s).0
unfolding proc_spawn
proc_spawn-Inv (pos p) s h = ground (arith, thread_create-Inv p s h)
proc_spawn-Inv (negsuc p) s h = h

pub vmm_map-Inv : (va pa flags : ℕ) (s : Kernel) → Inv s → Inv (vmm_map va pa flags s).0
vmm_map-Inv va pa flags s h = subst Inv (sym (vmm_map-SameBut va pa flags s)) h

pub adopt-Inv : (r : Kernel × ℤ) → Inv r.0 → Inv (adopt r).0
adopt-Inv (s, pos child) h =
    grant_endpoint-Inv (some s.current) (pos child) s (λ i e. ground (arith, h.current_in)) h
adopt-Inv (s, negsuc e) h = h

pub send_result-Inv : (r : Kernel × Progress ℤ) → Inv r.0 → Inv (send_result r)
send_result-Inv (s, done v) h = set_result-Inv (s, v) h
send_result-Inv (s, switched) h = h

pub recv_return-Inv : (from : ℤ) (m : Msg) (s : Kernel) → Inv s → Inv (recv_return from m s)
unfolding recv_return
recv_return-Inv from m s h =
    set_rax-Inv (to_u64 from) (put_self (record s { mem = write_msg s.mem (self s).regs.rsi m }) t)
      (Alike-Inv s s.current t h h.current_in (record {
        id_as = refl;
        kont_as = refl;
        state_as = refl;
        stack_as = refl;
        ipc_as = refl;
        irq_as = refl;
      }))
  where
    t : Thread
    t = record (self s) {
      ipc_call_to = if from ==ℤ (self s).ipc_call_to then minus_one else (self s).ipc_call_to;
    }

pub recv_result-Inv : (r : Kernel × Progress (ℤ × Msg)) → Inv r.0 → Inv (recv_result r)
recv_result-Inv (s, done (from, m)) h = recv_return-Inv from m s h
recv_result-Inv (s, switched) h = h

pub by_id-le : (id : ℤ) (i : ℕ) → thread_by_id id ≡ some i → i ≤ idle
by_id-le id i e = omega (arith, thread_by_id-lt id e)
