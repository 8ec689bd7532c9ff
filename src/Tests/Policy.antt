-- ===== src/Tests/Policy.antt =====
-- The theorems on the capabilities that `init` gives out, at concrete states.
use mukern.Base.{ℕ, pos, ◌≡◌, refl, true, ◌==◌, if◌then◌else◌, first_from, arith}
use mukern.Abi.{Msg}
use mukern.Thread.{Kernel, Pmm, Cap, endpoint, running, self}
use mukern.Cap.{cap_has_port, cap_has_endpoint, cleared_cap, right_send}
use mukern.System.{statics}
use mukern.Init.{init_script, perform_all, fs_tid, con_tid}
use mukern.Pm.{release, pm_handle}
use mukern.Pm.Child.{Born, pm_handle-Born}
use mukern.Init.Policy.{may_send, may_use, perform_all-init_script}

abbrev no_frames : Pmm
no_frames = record { bitmap = λ _. 255; total_frames = 8; free_frames = 0; alloc_hint = 0 }

abbrev empty : Kernel
empty = statics 0 (λ _. 0) no_frames (λ _. 0) 0

-- The shells are threads 7 and 8.
perform_all-init_script_example :
    let v = (perform_all (init_script 7 8) empty).threads fs_tid in
    ((e : ℕ) → cap_has_endpoint v (pos e) ≡ may_send 7 8 fs_tid e)
    × ((port : ℕ) → cap_has_port v port ≡ may_use fs_tid port)
perform_all-init_script_example =
    perform_all-init_script 7 8 (omega arith) (omega arith) (λ e. absurd (omega (arith, e))) empty
      (λ t lt i le below. refl) fs_tid (omega arith)

-- The process manager is thread 4, with an endpoint of the console driver and all other slots vacant.
abbrev to_console : Cap
to_console = record cleared_cap { type_of = endpoint; target = pos 1; rights = right_send }

abbrev manager : Kernel
manager = record empty {
  current = 4;
  threads = λ i.
      if i == 4
      then record (empty.threads 4) {
        state = running;
        ctable = λ k. if k == 0 then to_console else cleared_cap;
      }
      else empty.threads i;
}

-- a request for PROG_HELLO
abbrev hello_request : Msg
hello_request = record { label = 2; data0 = 2; data1 = 0; cap_word = 0 }

manager-console : cap_has_endpoint (self manager) (pos con_tid) ≡ true
unfolding cap_has_endpoint first_from
manager-console = refl

pm_handle-Born_example :
    (i : ℕ) × (s : Kernel) × (pm_handle hello_request manager ≡ (s, release i)) × Born 2 i manager s
pm_handle-Born_example =
    pm_handle-Born hello_request 2 0 manager refl refl (omega arith) (omega arith) refl refl
      manager-console
