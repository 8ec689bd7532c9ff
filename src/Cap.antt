-- ===== src/Cap.antt =====
-- kernel/cap.c: the capability table of a thread. A pointer to a thread is an index of the
-- thread table, and `none` is the null pointer.
pub mod Grant
pub mod Gain
pub mod Apart
use mukern.Base.{
  ℕ, ℤ, pos, minus_one, ◌+◌, ◌%◌, ◌^◌, Bool, true, false, Option, none, some, update, first_from,
  found, ◌==ℤ◌, ltb, leb, ◌&&◌, if◌then◌else◌,
}
use mukern.Thread.{Kernel, Thread, Cap, CapType, null, endpoint, ioport, cap_max, put}

abbrev pub is_null : CapType → Bool
is_null null = true
is_null _ = false

abbrev pub is_ioport : CapType → Bool
is_ioport ioport = true
is_ioport _ = false

abbrev pub is_endpoint : CapType → Bool
is_endpoint endpoint = true
is_endpoint _ = false

-- CAP_RIGHT_SEND
abbrev pub right_send : ℕ
right_send = 1

abbrev pub cleared_cap : Cap
cleared_cap = record { type_of = null; target = minus_one; rights = 0; io_base = 0; io_len = 0 }

abbrev pub cap_clear : Thread → Thread
cap_clear t = record t { ctable = λ i. if ltb i cap_max then cleared_cap else t.ctable i }

-- the first slot of type CAP_NULL
abbrev pub free_slot : Thread → Option ℕ
free_slot t = first_from (λ i. is_null (t.ctable i).type_of) 0 cap_max

abbrev pub set_cap : Thread → ℕ → Cap → Thread
set_cap t i c = record t { ctable = update t.ctable i c }

unfoldable pub cap_grant_io : Option ℕ → ℕ → ℕ → Kernel → Kernel × ℤ
cap_grant_io none base len s = (s, minus_one)
cap_grant_io (some p) base len s =
    let t = s.threads p in
    elim (free_slot t) [
      | some i ↦ (
        put s p
            (set_cap t i (record (t.ctable i) { type_of = ioport; io_base = base; io_len = len })),
        pos 0,
      )
      | none ↦ (s, minus_one)
    ]

-- The test of one slot in `cap_has_port`; the end of the range wraps at 16 bits.
abbrev pub covers_port : Cap → ℕ → Bool
covers_port c port =
    is_ioport c.type_of && leb c.io_base port && ltb port ((c.io_base + c.io_len) % 2 ^ 16)

-- Does the thread hold a capability for `port`? (`t` is not null.)
unfoldable pub cap_has_port : Thread → ℕ → Bool
cap_has_port t port = found (first_from (λ i. covers_port (t.ctable i) port) 0 cap_max)

abbrev pub names_endpoint : Cap → ℤ → Bool
names_endpoint c target = is_endpoint c.type_of && (c.target ==ℤ target)

unfoldable pub cap_has_endpoint : Thread → ℤ → Bool
cap_has_endpoint t target = found (first_from (λ i. names_endpoint (t.ctable i) target) 0 cap_max)

unfoldable pub cap_grant_endpoint : Option ℕ → ℤ → Kernel → Kernel × ℤ
cap_grant_endpoint none target s = (s, minus_one)
cap_grant_endpoint (some p) target s =
    let t = s.threads p in
    if cap_has_endpoint t target then (s, pos 0) else elim (free_slot t) [
      | some i ↦ (
        put s p (
            set_cap t i
              (record (t.ctable i) { type_of = endpoint; target = target; rights = right_send })),
        pos 0,
      )
      | none ↦ (s, minus_one)
    ]

unfoldable pub cap_install : Option ℕ → ℤ → ℤ → ℕ → Kernel → Kernel × ℤ
cap_install (some p) (pos slot) target rights s =
    let t = s.threads p in
    if ltb slot cap_max
    then (
      put s p (
          set_cap t slot
            (record (t.ctable slot) { type_of = endpoint; target = target; rights = rights })),
      pos 0,
    )
    else (s, minus_one)
cap_install _ _ target rights s = (s, minus_one)
