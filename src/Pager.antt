-- ===== src/Pager.antt =====
-- servers/vm_server/main.c: the pager, which decides on page faults.
use mukern.Base.{ℕ, Bool, Option, some, none, leb, ltb, ◌==◌, ◌&&◌, if◌then◌else◌}
use mukern.Abi.{Msg, msg_fault}

abbrev pub heap_lo : ℕ
heap_lo = 0x400000400000

abbrev pub heap_hi : ℕ
heap_hi = 0x400000410000

abbrev pub in_heap : ℕ → Bool
in_heap addr = leb heap_lo addr && ltb addr heap_hi

-- What the pager does about a message: the address that it maps by SYS_MAP, if any, and then its
-- reply to the sender.
pub record Answer : Type 0 where
  pub to_map : Option ℕ
  pub reply : Msg

abbrev pub verdict : ℕ → Msg
verdict data0 = record { label = 3; data0 = data0; data1 = 0; cap_word = 0 }

-- One round of `main` without what it prints. Any other message is dropped, without a reply.
unfoldable pub pager_handle : Msg → Option Answer
pager_handle m =
    if m.label == msg_fault
    then (if in_heap m.data1
        then some (record { to_map = some m.data1; reply = verdict 0 })
        else some (record { to_map = none; reply = verdict 1 }))
    else none
