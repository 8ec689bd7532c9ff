-- ===== src/Segments/User.antt =====
-- What the processor makes of the descriptors and of the frame, by its manual, and what user code may
-- then do.
use mukern.Base.{
  ℕ, suc, ◌+◌, ◌-◌, ◌*◌, ◌/◌, ◌%◌, ◌^◌, ◌≡◌, ◌<◌, refl, ap, ◌∙◌, Bool, true, false, ◌==◌, leb, ltb,
  ◌&&◌, ◌||◌, not, update, update_self, update_ne, arith,
}
use mukern.Segments.{
  Segments, IretFrame, set_tss_desc, tss_low, gdt_init, flat_gdt, arch_enter_user, tss_size, ucode,
  udata,
}

-- the fields of a descriptor
abbrev pub base_of : ℕ → ℕ → ℕ
base_of lo hi = lo / 2 ^ 16 % 2 ^ 24 + lo / 2 ^ 56 % 2 ^ 8 * 2 ^ 24 + hi % 2 ^ 32 * 2 ^ 32

abbrev pub limit_of : ℕ → ℕ
limit_of lo = lo % 2 ^ 16 + lo / 2 ^ 48 % 16 * 2 ^ 16

abbrev pub is_there : ℕ → Bool
is_there lo = lo / 2 ^ 47 % 2 == 1

abbrev pub dpl_of : ℕ → ℕ
dpl_of lo = lo / 2 ^ 45 % 4

-- a present code segment of 64 bits, and a present data segment that can be written
abbrev pub is_code64 : ℕ → Bool
is_code64 lo = is_there lo && (lo / 2 ^ 43 % 4 == 3) && (lo / 2 ^ 53 % 4 == 1)

abbrev pub is_data : ℕ → Bool
is_data lo = is_there lo && (lo / 2 ^ 43 % 4 == 2) && (lo / 2 ^ 41 % 2 == 1)

-- a present 64-bit task state segment that is not in use
abbrev pub is_tss : ℕ → Bool
is_tss lo = is_there lo && (lo / 2 ^ 40 % 32 == 9)

-- The descriptor that a selector names.
abbrev pub selected : Segments → ℕ → ℕ
selected s sel = s.gdt (sel / 8)

-- The task state segment is described as it was given.
pub record IsDescribed (gdt : ℕ → ℕ) (idx base limit : ℕ) : Type 0 where
  pub base_as : base_of (gdt idx) (gdt (suc idx)) ≡ base
  pub limit_as : limit_of (gdt idx) ≡ limit
  pub kind : is_tss (gdt idx) ≡ true
  pub privileged : dpl_of (gdt idx) ≡ 0

tss_kind : (base limit : ℕ) → limit < 2 ^ 20 → is_tss (tss_low base limit) ≡ true
tss_kind base limit short =
    let present : tss_low base limit / 2 ^ 47 % 2 ≡ 1 = omega (arith, short) in
    let kind : tss_low base limit / 2 ^ 40 % 32 ≡ 9 = omega (arith, short) in
    rw (present, kind) refl

set_tss_desc-IsDescribed :
    (idx base limit : ℕ) (gdt : ℕ → ℕ)
    → base < 2 ^ 64
    → limit < 2 ^ 20
    → IsDescribed (set_tss_desc idx base limit gdt) idx base limit
unfolding set_tss_desc
set_tss_desc-IsDescribed idx base limit gdt wide short =
    let g : ℕ → ℕ = set_tss_desc idx base limit gdt in
    let lo : ℕ = tss_low base limit in
    let low : g idx ≡ lo =
      update_ne (update gdt idx lo) (suc idx) idx (base / 2 ^ 32 % 2 ^ 32)
        (λ e. absurd (omega (arith, e)))
      ∙ update_self gdt idx lo in
    let high : g (suc idx) ≡ base / 2 ^ 32 % 2 ^ 32 =
      update_self (update gdt idx lo) (suc idx) (base / 2 ^ 32 % 2 ^ 32) in
    record {
      base_as =
          ap (λ x. base_of x (g (suc idx))) low
          ∙ ap (λ y. base_of lo y) high
          ∙ omega (arith, wide, short);
      limit_as = ap limit_of low ∙ omega (arith, short);
      kind = ap is_tss low ∙ tss_kind base limit short;
      privileged = ap dpl_of low ∙ omega (arith, short);
    }

-- Whether an access to the port is let through: by the I/O privilege level, or by the map in the
-- task state segment, as far as that lies in the segment's limit.
abbrev pub port_allowed : IretFrame → Segments → (ℕ → Bool) → ℕ → Bool
port_allowed f s map port =
    leb (f.cs % 4) (f.rflags / 2 ^ 12 % 4)
    || (ltb (s.tss.iomap_base + port / 8) (limit_of (selected s s.tr)) && not (map port))

-- The frame takes the processor to ring 3 and no further: code and stack are segments of ring 3,
-- interrupts are on, and no port is open.
pub record IsUser (s : Segments) (f : IretFrame) : Type 0 where
  pub ring : f.cs % 4 ≡ 3
  pub code : is_code64 (selected s f.cs) ≡ true
  pub code_ring : dpl_of (selected s f.cs) ≡ 3
  pub stack : is_data (selected s f.ss) ≡ true
  pub stack_ring : dpl_of (selected s f.ss) ≡ 3
  pub interruptible : f.rflags / 2 ^ 9 % 2 ≡ 1
  pub shut : (map : ℕ → Bool) (port : ℕ) → port_allowed f s map port ≡ false

-- the words of the table below the task state segment
gdt_word :
    (gdt_at tss_at k : ℕ) (s : Segments)
    → k < 5
    → (gdt_init gdt_at tss_at s).gdt k ≡ flat_gdt s.gdt k
unfolding gdt_init set_tss_desc
gdt_word gdt_at tss_at k s lt =
    update_ne (update (flat_gdt s.gdt) 5 (tss_low tss_at (tss_size - 1))) 6 k
      (tss_at / 2 ^ 32 % 2 ^ 32) (λ e. absurd (omega (arith, e, lt)))
    ∙ update_ne (flat_gdt s.gdt) 5 k (tss_low tss_at (tss_size - 1))
        (λ e. absurd (omega (arith, e, lt)))

task_state :
    (gdt_at tss_at : ℕ) (s : Segments)
    → tss_at < 2 ^ 64
    → IsDescribed (gdt_init gdt_at tss_at s).gdt 5 tss_at (tss_size - 1)
unfolding gdt_init
task_state gdt_at tss_at s wide =
    set_tss_desc-IsDescribed 5 tss_at (tss_size - 1) (flat_gdt s.gdt) wide (omega arith)

-- The map of ports begins behind the end of the segment.
beyond : (port : ℕ) (b : Bool) → (ltb (tss_size + port / 8) (tss_size - 1) && not b) ≡ false
beyond port b = ground arith

-- After `gdt_init`, with the task state segment at an address of 64 bits, the register TR selects
-- that segment, and `arch_enter_user` takes a thread to ring 3 at its entry and stack: with code and
-- stack segments of ring 3, interrupts on and every port shut, and with the thread's kernel stack as
-- the one that a trap lands on.
pub arch_enter_user-gdt_init :
    (gdt_at tss_at kstack_top entry user_stack_top : ℕ) (s : Segments)
    → tss_at < 2 ^ 64
    → let (t, f) = arch_enter_user kstack_top entry user_stack_top (gdt_init gdt_at tss_at s) in
      IsDescribed t.gdt (t.tr / 8) tss_at (tss_size - 1)
      × IsUser t f
      × (t.tss.rsp0 ≡ kstack_top)
      × (f.rip ≡ entry)
      × (f.rsp ≡ user_stack_top)
unfolding arch_enter_user gdt_init
arch_enter_user-gdt_init gdt_at tss_at kstack_top entry user_stack_top s wide =
    let u : Segments = gdt_init gdt_at tss_at s in
    let tss = task_state gdt_at tss_at s wide in
    let code : u.gdt 3 ≡ ucode = gdt_word gdt_at tss_at 3 s (omega arith) in
    let stack : u.gdt 4 ≡ udata = gdt_word gdt_at tss_at 4 s (omega arith) in
    (
      tss,
      record {
        ring = refl;
        code = ap is_code64 code;
        code_ring = ap dpl_of code;
        stack = ap is_data stack;
        stack_ring = ap dpl_of stack;
        interruptible = refl;
        shut = λ map port.
            ap (λ x. ltb (tss_size + port / 8) x && not (map port)) tss.limit_as
            ∙ beyond port (map port);
      },
      refl,
      refl,
      refl,
    )
