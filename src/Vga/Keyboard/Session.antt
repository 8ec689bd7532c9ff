-- ===== src/Vga/Keyboard/Session.antt =====
-- The line that is read from the keyboard stays in its buffer, and reading it comes to an end.
use mukern.Base.{
  ℕ, zero, suc, ◌+◌, ◌-◌, ◌%◌, ◌^◌, ◌≡◌, ◌<◌, ◌≤◌, ◌⊎◌, inl, inr, refl, sym, ◌∙◌, subst, Bool, true,
  false, some, none, update_ne, ltb, leb, ◌==◌, ==_iff, ◌&&◌, Bool-cases, Option-cases, arith,
  if◌then◌else◌,
}
use mukern.Vga.Keyboard.{Terminal, kring, kr_pop, enter, type_char, serve_loop, serve}

-- A session on a buffer of `max` bytes, of which the bytes from `max` on are those of `buf`: the
-- line leaves room for its final 0, and the indices of the ring are in range.
pub record InBuffer (max : ℕ) (buf : ℕ → ℕ) (s : Terminal) : Type 0 where
  pub size : s.rd_max ≡ max
  pub fits : s.rd_n < max
  pub outside : (i : ℕ) → max ≤ i → s.rd_buf i ≡ buf i
  pub head_in : s.kr_head < kring
  pub tail_in : s.kr_tail < kring

abbrev pub pending : Terminal → ℕ
pending s = (s.kr_head + kring - s.kr_tail) % kring

-- Reading is over: the line has been answered, or no key is left.
abbrev pub IsServed : Terminal → Type 0
IsServed s = (s.rd_active ≡ false) ⊎ (s.kr_head ≡ s.kr_tail)

popped_key :
    (max : ℕ) (buf : ℕ → ℕ) (s : Terminal) {c : ℕ}
    → InBuffer max buf s
    → (kr_pop s).1 ≡ some c
    → InBuffer max buf (kr_pop s).0 × (suc (pending (kr_pop s).0) ≡ pending s)
unfolding kr_pop
popped_key max buf s ok h = elim (Bool-cases (s.kr_head == s.kr_tail)) [
  | inl e ↦ cc (rw e at h)
  | inr e ↦ rw e (
    record {
      size = ok.size;
      fits = ok.fits;
      outside = ok.outside;
      head_in = ok.head_in;
      tail_in = omega arith;
    },
    ground (arith, ok.head_in, ok.tail_in, e),
  )
]

popped_no_key : (s : Terminal) → (kr_pop s).1 ≡ none → ((kr_pop s).0 ≡ s) × (s.kr_head ≡ s.kr_tail)
unfolding kr_pop
popped_no_key s h = elim (Bool-cases (s.kr_head == s.kr_tail)) [
  | inl e ↦ rw e (refl, (==_iff s.kr_head s.kr_tail).0 e)
  | inr e ↦ cc (rw e at h)
]

-- What a key may not change: the session, and the keys that wait.
pub record Typed (max : ℕ) (buf : ℕ → ℕ) (s t : Terminal) : Type 0 where
  pub kept : InBuffer max buf t
  pub same : pending t ≡ pending s

type_char-Typed :
    (max : ℕ) (buf : ℕ → ℕ) (c : ℕ) (s : Terminal)
    → max < 2 ^ 32
    → InBuffer max buf s
    → Typed max buf s (type_char c s)
unfolding type_char
type_char-Typed max buf c s room ok = elim (Bool-cases (c == 8)) [
  | inl e ↦ elim (Bool-cases (s.rd_n == 0)) [
    | inl z ↦ rw (e, z) (record { kept = ok; same = refl })
    | inr nz ↦
        rw (e, nz)
          (record {
            kept = record {
              size = ok.size;
              fits = omega (arith, ok.fits);
              outside = ok.outside;
              head_in = ok.head_in;
              tail_in = ok.tail_in;
            };
            same = refl;
          })
  ]
  | inr e ↦ elim (Bool-cases (leb 32 c && ltb c 127 && ltb ((s.rd_n + 1) % 2 ^ 32) s.rd_max)) [
    | inr full ↦ rw (e, full) (record { kept = ok; same = refl })
    | inl fit ↦
        let more : s.rd_n + 1 < max = ground (arith, ok.size, ok.fits, fit, room) in
        rw (e, fit)
          (record {
            kept = record {
              size = ok.size;
              fits = more;
              outside =
                  λ i le. update_ne s.rd_buf s.rd_n i c (omega (arith, more, le)) ∙ ok.outside i le;
              head_in = ok.head_in;
              tail_in = ok.tail_in;
            };
            same = refl;
          })
  ]
]

enter-InBuffer :
    (max : ℕ) (buf : ℕ → ℕ) (s : Terminal) → InBuffer max buf s → InBuffer max buf (enter s)
enter-InBuffer max buf s ok = record {
  size = ok.size;
  fits = ok.fits;
  outside = λ i le. update_ne s.rd_buf s.rd_n i 0 (omega (arith, ok.fits, le)) ∙ ok.outside i le;
  head_in = ok.head_in;
  tail_in = ok.tail_in;
}

abbrev pub Served : ℕ → (ℕ → ℕ) → Terminal → Type 0
Served max buf s = InBuffer max buf s × IsServed s

if-Served :
    (max : ℕ) (buf : ℕ → ℕ) (b : Bool) (x y : Terminal)
    → (b ≡ true → Served max buf x)
    → (b ≡ false → Served max buf y)
    → Served max buf (if b then x else y)
if-Served max buf true x y h k = h refl
if-Served max buf false x y h k = k refl

serve_loop-Served :
    (max : ℕ) (buf : ℕ → ℕ)
    → max < 2 ^ 32
    → (fuel : ℕ) (s : Terminal) → InBuffer max buf s
    → pending s < fuel
    → Served max buf (serve_loop fuel s)
unfolding serve_loop
serve_loop-Served max buf room zero s ok lt = absurd (omega arith)
serve_loop-Served max buf room (suc fuel) s ok lt =
    let t : Terminal = (kr_pop s).0 in
    elim (Option-cases (kr_pop s).1) [
      | inl e ↦
          let (same, empty) = popped_no_key s e in
          rw (e, serve_loop) (subst (Served max buf) (sym same) (ok, inr empty))
      | inr (c, e) ↦
          let (t_ok, one_less) = popped_key max buf s ok e in
          let typed = type_char-Typed max buf c t room t_ok in
          rw (e, serve_loop)
            (if-Served max buf (c == 10) (enter t) (serve_loop fuel (type_char c t))
              (λ nl. (enter-InBuffer max buf t t_ok, inl refl))
              (λ other.
                serve_loop-Served max buf room fuel (type_char c t) typed.kept
                  (omega (arith, typed.same, one_less, lt))))
    ]

-- In a session whose line is shorter than `rd_max`, so that `rd_max` is not 0, with the indices of the ring in range: a call of `edit`
-- is over within its 128 rounds, with the line answered or no key left, and whatever was typed,
-- every byte from `rd_max` on is as it was, the line leaves room for its final 0 and the indices
-- stay in range.
pub serve-Served :
    (max : ℕ) (buf : ℕ → ℕ) (s : Terminal)
    → max < 2 ^ 32
    → InBuffer max buf s
    → InBuffer max buf (serve s) × IsServed (serve s)
unfolding serve
serve-Served max buf s room ok =
    if-Served max buf s.rd_active (serve_loop kring s) s
      (λ on. serve_loop-Served max buf room kring s ok (omega arith)) (λ off. (ok, inl off))
