-- ===== src/Init/Policy.antt =====
-- servers/init/main.c: who may send to whom, and who may use which ports, once `init` is done.
use mukern.Base.{
  ℕ, pos, ◌≡◌, ◌≢◌, ◌<◌, ◌≤◌, ap, ◌∙◌, Bool, List, [], ◌∷◌, leb, ◌==◌, ==_ne, false, subst,
  ℕ_discrete, ◌&&◌, ◌||◌, if◌then◌else◌, arith,
}
use mukern.Thread.{Kernel, max_threads, cap_max}
use mukern.Cap.{cap_has_port, cap_has_endpoint}
use mukern.Cap.Grant.{in_range}
use mukern.Init.{
  Action, grant_cap, init_script, perform_all, con_tid, blk_tid, vm_tid, pm_tid, fs_tid, vga_tid,
}
use mukern.Init.Gained.{HasRoom}
use mukern.Init.Grants.{given, opened, taken, AreShort, perform_all-Gained, empty-sends, empty-uses}

abbrev is_server : ℕ → Bool
is_server e = leb con_tid e && leb e vga_tid

-- The clients of each server among the other threads.
abbrev is_client : ℕ → ℕ → ℕ → ℕ → Bool
is_client sh1 sh2 t e =
    if e == con_tid
    then (t == blk_tid) || (t == vm_tid) || (t == pm_tid) || (t == fs_tid) || (t == sh1)
    else (if e == blk_tid
        then t == fs_tid
        else (if (e == fs_tid) || (e == pm_tid)
            then (t == sh1) || (t == sh2)
            else (e == vga_tid) && (t == sh2)))

-- Whether thread `t` may send to `e`: `init` to all that it has spawned.
abbrev pub may_send : ℕ → ℕ → ℕ → ℕ → Bool
may_send sh1 sh2 t e =
    if 0 == t then is_server e || (e == sh1) || (e == sh2) else is_client sh1 sh2 t e

-- The driver of each device: whether thread `t` may use the port.
abbrev pub may_use : ℕ → ℕ → Bool
may_use t port =
    ((t == con_tid) && in_range 0x3F8 8 port)
    || ((t == blk_tid) && in_range 0x1F0 8 port)
    || ((t == vga_tid) && in_range 0x60 8 port)

module _ (sh1 sh2 : ℕ) (first : vga_tid < sh1) (second : vga_tid < sh2) (apart : sh1 ≢ sh2) where
  of_init : (e : ℕ) → given (init_script sh1 sh2) 0 (pos e) ≡ may_send sh1 sh2 0 e
  unfolding init_script
  of_init e =
      let no_shell1 : (sh1 == 0) ≡ false = ground (arith, first) in
      let no_shell2 : (sh2 == 0) ≡ false = ground (arith, second) in
      rw (no_shell1, no_shell2) (ground arith)

  -- the grants of endpoints in the script
  abbrev grants : List Action
  grants =
      grant_cap blk_tid con_tid
      ∷ grant_cap vm_tid con_tid
      ∷ grant_cap pm_tid con_tid
      ∷ grant_cap fs_tid con_tid
      ∷ grant_cap fs_tid blk_tid
      ∷ grant_cap sh1 con_tid
      ∷ grant_cap sh1 fs_tid
      ∷ grant_cap sh1 pm_tid
      ∷ grant_cap sh2 vga_tid
      ∷ grant_cap sh2 fs_tid
      ∷ grant_cap sh2 pm_tid
      ∷ []

  of_clients : (t e : ℕ) → given grants t (pos e) ≡ is_client sh1 sh2 t e
  of_clients t e = ground (arith, first, second, apart)

  script-sends : (t e : ℕ) → given (init_script sh1 sh2) t (pos e) ≡ may_send sh1 sh2 t e
  unfolding init_script
  script-sends t e = elim (ℕ_discrete 0 t) [
    | yes at ↦
        subst (λ k. given (init_script sh1 sh2) k (pos e) ≡ may_send sh1 sh2 k e) at (of_init e)
    | no ne ↦ rw (==_ne 0 t ne) (of_clients t e)
  ]

  script-uses : (t port : ℕ) → opened (init_script sh1 sh2) t port ≡ may_use t port
  unfolding init_script
  script-uses t port = ground (arith, first, second, apart)

  script-takes : (t : ℕ) → taken (init_script sh1 sh2) t ≤ cap_max
  unfolding init_script
  script-takes t = ground (arith, first, second, apart)

  script-AreShort : AreShort (init_script sh1 sh2)
  unfolding init_script
  script-AreShort = ground arith

  -- If every thread begins with an empty table, and the shells are two threads apart from the
  -- servers, then after the calls of `init` each other thread may send by its capabilities to the
  -- servers that it is a client of, and `init` to every thread that it has spawned; each thread may
  -- use the ports of the device that it drives, and nothing else.
  pub perform_all-init_script :
      (s : Kernel)
      → ((t : ℕ) → t < max_threads → HasRoom (s.threads t) 0)
      → (t : ℕ) → t < max_threads
      → let v = (perform_all (init_script sh1 sh2) s).threads t in
        ((e : ℕ) → cap_has_endpoint v (pos e) ≡ may_send sh1 sh2 t e)
        × ((port : ℕ) → cap_has_port v port ≡ may_use t port)
  perform_all-init_script s empty t lt =
      let g =
        perform_all-Gained (init_script sh1 sh2) s t 0 script-AreShort lt (empty t lt)
          (omega (arith, script-takes t)) in
      (
        λ e.
            g.sends (pos e)
            ∙ ap (λ b. b || given (init_script sh1 sh2) t (pos e))
                (empty-sends (s.threads t) (pos e) (empty t lt))
            ∙ script-sends t e,
        λ port.
            g.uses port
            ∙ ap (λ b. b || opened (init_script sh1 sh2) t port)
                (empty-uses (s.threads t) port (empty t lt))
            ∙ script-uses t port,
      )
