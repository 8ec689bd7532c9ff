-- ===== src/Init.antt =====
-- servers/init/main.c: the system calls by which `init` brings up the servers, line by line. What
-- `init` prints, and the one access to the paged heap, are left out.

pub mod Gained
pub mod Grants
pub mod Policy
use mukern.Base.{ℕ, pos, List, [], ◌∷◌}
use mukern.Thread.{Kernel, thread_by_id}
use mukern.Cap.{cap_grant_io, cap_grant_endpoint}

-- the identifiers of the servers
abbrev pub con_tid : ℕ
con_tid = 1

abbrev pub blk_tid : ℕ
blk_tid = 2

abbrev pub vm_tid : ℕ
vm_tid = 3

abbrev pub pm_tid : ℕ
pm_tid = 4

abbrev pub fs_tid : ℕ
fs_tid = 5

abbrev pub vga_tid : ℕ
vga_tid = 6

-- PROG_CONSOLE and the others
pub data Program : Type 0 where
  console block vm pm fs vga shell shell2 : Program

-- A system call of `init`: the threads and endpoints are named by their identifiers, in `spawn` that of
-- the child.
pub data Action : Type 0 where
  spawn : Program → ℕ → Action
  wait : Action
  grant_io : ℕ → ℕ → ℕ → Action
  grant_cap : ℕ → ℕ → Action
  map_phys : ℕ → ℕ → Action
  go : ℕ → Action

-- `main`, where `sh1` and `sh2` are what `u_spawn` returned for the two shells
unfoldable pub init_script : ℕ → ℕ → List Action
init_script sh1 sh2 =
    spawn console con_tid
    ∷ wait
    ∷ grant_io con_tid 0x3F8 8
    ∷ go con_tid
    ∷ spawn block blk_tid
    ∷ wait
    ∷ grant_io blk_tid 0x1F0 8
    ∷ grant_cap blk_tid con_tid
    ∷ go blk_tid
    ∷ spawn vm vm_tid
    ∷ wait
    ∷ grant_cap vm_tid con_tid
    ∷ go vm_tid
    ∷ spawn pm pm_tid
    ∷ wait
    ∷ grant_cap pm_tid con_tid
    ∷ go pm_tid
    ∷ spawn fs fs_tid
    ∷ wait
    ∷ grant_cap fs_tid con_tid
    ∷ grant_cap fs_tid blk_tid
    ∷ go fs_tid
    ∷ map_phys 0x400000b00000 0xB8000
    ∷ spawn vga vga_tid
    ∷ wait
    ∷ grant_io vga_tid 0x60 8
    ∷ go vga_tid
    ∷ spawn shell sh1
    ∷ wait
    ∷ grant_cap sh1 con_tid
    ∷ grant_cap sh1 fs_tid
    ∷ grant_cap sh1 pm_tid
    ∷ go sh1
    ∷ spawn shell2 sh2
    ∷ wait
    ∷ grant_cap sh2 vga_tid
    ∷ grant_cap sh2 fs_tid
    ∷ grant_cap sh2 pm_tid
    ∷ go sh2
    ∷ wait
    ∷ []

-- What a call does to the tables of capabilities: `init` is the root, so that each of its grants
-- goes through, and SYS_SPAWN gives it an endpoint for the child. The other calls leave the tables.
unfoldable pub perform : Action → Kernel → Kernel
perform (spawn prog child) s = (cap_grant_endpoint (thread_by_id (pos 0)) (pos child) s).0
perform (grant_io p base len) s = (cap_grant_io (thread_by_id (pos p)) base len s).0
perform (grant_cap p ep) s = (cap_grant_endpoint (thread_by_id (pos p)) (pos ep) s).0
perform _ s = s

unfoldable pub perform_all : List Action → Kernel → Kernel
perform_all [] s = s
perform_all (a ∷ script) s = perform_all script (perform a s)
