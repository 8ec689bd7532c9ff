-- ===== src/Console/Ring.antt =====
-- The ring of received bytes: what it holds, in order of arrival.
use mukern.Base.{
  ℕ, zero, suc, ◌+◌, ◌-◌, ◌%◌, ◌≡◌, ◌≢◌, ◌<◌, ◌⊎◌, inl, inr, refl, sym, ap, ◌∙◌, some, none, List,
  [], false≢true, subst, ◌∷◌, ◌++◌, ◌==◌, Bool-cases, ==_iff, update, update_ne, update_self, arith,
}
use mukern.Console.{Console, ring_push, ring_pop, ring_size}

-- The indices of the ring are in range.
pub record InRing (s : Console) : Type 0 where
  pub head_in : s.r_head < ring_size
  pub tail_in : s.r_tail < ring_size

-- The number of bytes that wait in the ring.
abbrev pub waiting : Console → ℕ
waiting s = (s.r_head + ring_size - s.r_tail) % ring_size

-- the bytes of a ring from index `i` on
unfoldable pub slice : (ℕ → ℕ) → ℕ → ℕ → List ℕ
slice ring i zero = []
slice ring i (suc k) = ring (i % ring_size) ∷ slice ring (suc i) k

-- The bytes that wait, the oldest first.
unfoldable pub queue : Console → List ℕ
queue s = slice s.ring s.r_tail (waiting s)

slice_same :
    (f g : ℕ → ℕ) (i k : ℕ)
    → ((j : ℕ) → j < k → f ((i + j) % ring_size) ≡ g ((i + j) % ring_size))
    → slice f i k ≡ slice g i k
unfolding slice
slice_same f g i zero h = refl
slice_same f g i (suc k) h =
    let head : f (i % ring_size) ≡ g (i % ring_size) =
      subst (λ (n : ℕ). f (n % ring_size) ≡ g (n % ring_size)) (omega arith) (h 0 (omega arith)) in
    let tail : slice f (suc i) k ≡ slice g (suc i) k = slice_same f g (suc i) k (λ j lt.
      let at : i + suc j ≡ suc i + j = omega arith in
      subst (λ (n : ℕ). f (n % ring_size) ≡ g (n % ring_size)) at (h (suc j) (omega arith))) in
    cc (head, tail)

slice_end :
    (f : ℕ → ℕ) (i k : ℕ) → slice f i (suc k) ≡ slice f i k ++ (f ((i + k) % ring_size) ∷ [])
unfolding slice
slice_end f i zero = let at : i ≡ i + 0 = omega arith in ap (λ n. f (n % ring_size) ∷ []) at
slice_end f i (suc k) =
    let at : suc i + k ≡ i + suc k = omega arith in
    ap (λ l. f (i % ring_size) ∷ l)
      (slice_end f (suc i) k ∙ ap (λ n. slice f (suc i) k ++ (f (n % ring_size) ∷ [])) at)

slice_mod : (f : ℕ → ℕ) (i j k : ℕ) → i % ring_size ≡ j % ring_size → slice f i k ≡ slice f j k
unfolding slice
slice_mod f i j zero e = refl
slice_mod f i j (suc k) e =
    let head : f (i % ring_size) ≡ f (j % ring_size) = ap f e in
    let tail : slice f (suc i) k ≡ slice f (suc j) k =
      slice_mod f (suc i) (suc j) k (omega arith) in
    cc (head, tail)

no_slice : (f : ℕ → ℕ) (i : ℕ) {k : ℕ} → k ≡ 0 → slice f i k ≡ []
unfolding slice
no_slice f i {k} e = ap (λ n. slice f i n) e

slice_split :
    (f : ℕ → ℕ) (i m n : ℕ)
    → n ≡ suc m
    → i < ring_size
    → slice f i n ≡ f i ∷ slice f ((i + 1) % ring_size) m
unfolding slice
slice_split f i m n e lt =
    let at : i % ring_size ≡ i = omega arith in
    let tail : slice f (suc i) m ≡ slice f ((i + 1) % ring_size) m =
      slice_mod f (suc i) ((i + 1) % ring_size) m (omega arith) in
    ap (λ k. slice f i k) e ∙ ap (λ k. f k ∷ slice f (suc i) m) at ∙ ap (λ l. f i ∷ l) tail

-- With the indices of the ring in range, `ring_pop` takes the oldest byte; it returns -1, and
-- changes nothing, just if the ring is empty. The indices stay in range.
pub ring_pop_lem :
    (s : Console)
    → InRing s
    → let (t, popped) = ring_pop s in
      InRing t
      × (((queue s ≡ []) × (popped ≡ none) × (t ≡ s))
          ⊎ ((c : ℕ) × (popped ≡ some c) × (queue s ≡ c ∷ queue t)))
unfolding ring_pop queue
ring_pop_lem s ok = elim (Bool-cases (s.r_head == s.r_tail)) [
  | inl e ↦
      let none_wait : waiting s ≡ 0 = ground (arith, ok.head_in, ok.tail_in, e) in
      rw e (ok, inl (no_slice s.ring s.r_tail none_wait, refl, refl))
  | inr e ↦
      let ne : s.r_head ≢ s.r_tail = λ q. absurd (false≢true (sym e ∙ (==_iff _ _).1 q)) in
      let some_wait : waiting s
          ≡ suc ((s.r_head + ring_size - (s.r_tail + 1) % ring_size) % ring_size) =
        ground (arith, ok.head_in, ok.tail_in, ne) in
      rw e (
        record { head_in = ok.head_in; tail_in = omega arith },
        inr (s.ring s.r_tail, refl, slice_split s.ring s.r_tail _ _ some_wait ok.tail_in),
      )
]

-- With its indices in range, the ring takes a byte behind those that wait, by `ring_push`; a ring
-- of 255 bytes is full, and drops it. The indices stay in range.
pub ring_push_lem :
    (c : ℕ) (s : Console)
    → InRing s
    → let t = ring_push c s in
      InRing t
      × (((waiting s < 255) × (queue t ≡ queue s ++ (c ∷ []))) ⊎ ((waiting s ≡ 255) × (t ≡ s)))
unfolding ring_push queue
ring_push_lem c s ok = elim (Bool-cases ((s.r_head + 1) % ring_size == s.r_tail)) [
  | inl e ↦
      let all_wait : waiting s ≡ 255 = ground (arith, ok.head_in, ok.tail_in, e) in
      rw e (ok, inr (all_wait, refl))
  | inr e ↦
      let ne : (s.r_head + 1) % ring_size ≢ s.r_tail =
        λ q. absurd (false≢true (sym e ∙ (==_iff _ _).1 q)) in
      let room : waiting s < 255 = ground (arith, ok.head_in, ok.tail_in, ne) in
      let one_more : ((s.r_head + 1) % ring_size + ring_size - s.r_tail) % ring_size
          ≡ suc (waiting s) =
        ground (arith, ok.head_in, ok.tail_in, ne) in
      let at : (s.r_tail + waiting s) % ring_size ≡ s.r_head =
        omega (arith, ok.head_in, ok.tail_in) in
      let old : slice (update s.ring s.r_head c) s.r_tail (waiting s)
          ≡ slice s.ring s.r_tail (waiting s) =
        slice_same _ _ s.r_tail (waiting s) (λ j lt.
          update_ne s.ring s.r_head ((s.r_tail + j) % ring_size) c
            (λ q. absurd (omega (arith, ok.head_in, ok.tail_in, q, lt)))) in
      rw e (
        record { head_in = omega arith; tail_in = ok.tail_in },
        inl (
          room,
          ap (λ k. slice (update s.ring s.r_head c) s.r_tail k) one_more
              ∙ slice_end (update s.ring s.r_head c) s.r_tail (waiting s)
              ∙ ap (λ l. l ++ (update s.ring s.r_head c ((s.r_tail + waiting s) % ring_size) ∷ []))
                  old
              ∙ ap (λ b. slice s.ring s.r_tail (waiting s) ++ (b ∷ []))
                  (ap (update s.ring s.r_head c) at ∙ update_self s.ring s.r_head c),
        ),
      )
]
