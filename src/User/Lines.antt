-- ===== src/User/Lines.antt =====
-- The line that user code composes for the console driver.
use mukern.Base.{
  ℕ, zero, suc, ◌+◌, ◌^◌, ◌≡◌, ◌≢◌, ◌<◌, ◌≤◌, ◌⊎◌, inl, inr, refl, sym, ap, ◌∙◌, List, [], ◌∷◌,
  ◌++◌, update, update_ne, false, ◌==◌, Bool-cases, arith,
}
use mukern.Text.{dec_digits, put_dec, read_dec, count, put_dec_lem}
use mukern.User.{store_text, cl_cpy, con_write, buf_size, line_of, line_digits, con_linef}

-- `text` stands at `s`, with its NUL behind it and none in it.
abbrev pub Holds : (ℕ → ℕ) → ℕ → List ℕ → Type 0
Holds mem s [] = mem s ≡ 0
Holds mem s (c ∷ cs) = (mem s ≡ c) × (c ≢ 0) × Holds mem (s + 1) cs

-- The text at `s` and its NUL lie outside the buffer.
abbrev pub Clear : ℕ → ℕ → List ℕ → Type 0
Clear buf s text = (s + count text < buf) ⊎ (buf + buf_size ≤ s)

Holds-update :
    (mem : ℕ → ℕ) (i v s : ℕ) (text : List ℕ)
    → (s + count text < i) ⊎ (i < s)
    → Holds mem s text
    → Holds (update mem i v) s text
Holds-update mem i v s [] apart h = ground (arith, apart, h)
Holds-update mem i v s (c ∷ cs) apart (here, text, rest) = (
  ground (arith, apart, here),
  text,
  Holds-update mem i v (s + 1) cs (ground (arith, apart)) rest,
)

Holds-store_text :
    (xs : List ℕ) (mem : ℕ → ℕ) (buf k s : ℕ) (text : List ℕ)
    → k + count xs ≤ buf_size
    → Clear buf s text
    → Holds mem s text
    → Holds (store_text buf k xs mem) s text
unfolding store_text
Holds-store_text [] mem buf k s text fits clear h = h
Holds-store_text (x ∷ xs) mem buf k s text fits clear h =
    Holds-store_text xs (update mem (buf + k) x) buf (k + 1) s text (omega (arith, fits)) clear
      (Holds-update mem (buf + k) x s text (ground (arith, clear, fits)) h)

store_text-++ :
    (xs ys : List ℕ) (buf k : ℕ) (mem : ℕ → ℕ)
    → store_text buf k (xs ++ ys) mem ≡ store_text buf (k + count xs) ys (store_text buf k xs mem)
unfolding store_text
store_text-++ [] ys buf k mem = ap (λ j. store_text buf j ys mem) (omega arith)
store_text-++ (x ∷ xs) ys buf k mem =
    let next = update mem (buf + k) x in
    store_text-++ xs ys buf (k + 1) next
    ∙ ap (λ j. store_text buf j ys (store_text buf (k + 1) xs next)) (omega arith)

-- What is written stays in the range of the text.
store_text_ne :
    (xs : List ℕ) (buf k i : ℕ) (mem : ℕ → ℕ)
    → (i < buf + k) ⊎ (buf + (k + count xs) ≤ i)
    → store_text buf k xs mem i ≡ mem i
unfolding store_text
store_text_ne [] buf k i mem out = refl
store_text_ne (x ∷ xs) buf k i mem out =
    store_text_ne xs buf (k + 1) i (update mem (buf + k) x) (ground (arith, out))
    ∙ update_ne mem (buf + k) i x (ground (arith, out))

cl_cpy_lem :
    (text : List ℕ) (fuel buf k s : ℕ) (mem : ℕ → ℕ)
    → count text < fuel
    → k + count text ≤ buf_size
    → Clear buf s text
    → Holds mem s text
    → cl_cpy fuel buf k s mem ≡ (store_text buf k text mem, k + count text)
unfolding cl_cpy store_text
cl_cpy_lem text zero buf k s mem lt fits clear h = absurd (omega (arith, lt))
cl_cpy_lem [] (suc fuel) buf k s mem lt fits clear h = rw h (ap (λ j. (mem, j)) (omega arith))
cl_cpy_lem (c ∷ cs) (suc fuel) buf k s mem lt fits clear (here, nonzero, rest) =
    let next = update mem (buf + k) c in
    let more : (c == 0) ≡ false = ground (arith, nonzero) in
    rw (here, more)
      (cl_cpy_lem cs fuel buf (k + 1) (s + 1) next (omega (arith, lt)) (omega (arith, fits))
          (ground (arith, clear))
          (Holds-update mem (buf + k) c (s + 1) cs (ground (arith, clear, fits)) rest)
        ∙ ap (λ j. (store_text buf (k + 1) cs next, j)) (omega arith))

count-++ : (xs ys : List ℕ) → count (xs ++ ys) ≡ count xs + count ys
count-++ [] ys = omega arith
count-++ (x ∷ xs) ys = ap suc (count-++ xs ys) ∙ omega arith

count-pieces :
    (first middle last : List ℕ)
    → count first + count middle + count last ≡ count (first ++ (middle ++ last))
count-pieces first middle last =
    omega (arith, count-++ first (middle ++ last), count-++ middle last)

store_text-pieces :
    (first middle last : List ℕ) (buf : ℕ) (mem : ℕ → ℕ)
    → store_text buf
        (count first + count middle)
        last
        (store_text buf (count first) middle (store_text buf 0 first mem))
      ≡ store_text buf 0 (first ++ (middle ++ last)) mem
store_text-pieces first middle last buf mem =
    let mem1 = store_text buf 0 first mem in
    sym (
      store_text-++ first (middle ++ last) buf 0 mem
      ∙ ap (λ j. store_text buf j (middle ++ last) mem1) (omega arith)
      ∙ store_text-++ middle last buf (count first) mem1)

-- A composed line: one message for the whole text, which stands in the buffer, and nothing else changes.
line_of_lem :
    (buf a b : ℕ) (mem : ℕ → ℕ) (first middle last : List ℕ)
    → Holds mem a first
    → Holds mem b last
    → Clear buf a first
    → Clear buf b last
    → count first + (count middle + count last) < buf_size
    → let text = first ++ (middle ++ last) in
      line_of buf a middle b mem ≡ (con_write buf (count text), store_text buf 0 text mem)
unfolding line_of
line_of_lem buf a b mem first middle last at_a at_b clear_a clear_b fits =
    let mem1 = store_text buf 0 first mem in
    let mem2 = store_text buf (count first) middle mem1 in
    let copied_a : cl_cpy buf_size buf 0 a mem ≡ (mem1, count first) =
      cl_cpy_lem first buf_size buf 0 a mem (omega (arith, fits)) (omega (arith, fits)) clear_a at_a
      ∙ ap (λ j. (mem1, j)) (omega arith) in
    let at_b1 : Holds mem1 b last =
      Holds-store_text first mem buf 0 b last (omega (arith, fits)) clear_b at_b in
    let at_b2 : Holds mem2 b last =
      Holds-store_text middle mem1 buf (count first) b last (omega (arith, fits)) clear_b at_b1 in
    let copied_b : cl_cpy buf_size buf (count first + count middle) b mem2 ≡ (
      store_text buf (count first + count middle) last mem2,
      count first + count middle + count last,
    ) =
      cl_cpy_lem last buf_size buf (count first + count middle) b mem2 (omega (arith, fits))
        (omega (arith, fits)) clear_b at_b2 in
    rw copied_a (
      rw copied_b (
        ap (λ n. (con_write buf n, store_text buf (count first + count middle) last mem2))
          (count-pieces first middle last)
        ∙ ap (λ m. (con_write buf (count (first ++ (middle ++ last))), m))
            (store_text-pieces first middle last buf mem)))

line_digits_lem : (n : ℕ) → line_digits n ≡ put_dec n
unfolding dec_digits put_dec
line_digits_lem n = elim (Bool-cases (n == 0)) [ inl e ↦ rw e refl | inr e ↦ rw e refl ]

-- The text that `con_linef` composes.
abbrev pub dec_line : List ℕ → ℕ → List ℕ → List ℕ
dec_line first n last = first ++ (put_dec n ++ last)

-- Two texts that lie outside the buffer of `con_linef` and have less than 140 characters together, and
-- any number of 64 bits: one message with the whole line goes to the console, the line has digits in its
-- middle that read back as the number, the buffer holds it, and memory outside the buffer is as before.
pub con_linef_lem :
    (buf a n b : ℕ) (mem : ℕ → ℕ) (first last : List ℕ)
    → n < 2 ^ 64
    → Holds mem a first
    → Holds mem b last
    → Clear buf a first
    → Clear buf b last
    → count first + count last < 140
    → let text = dec_line first n last in
      (con_linef buf a n b mem ≡ (con_write buf (count text), store_text buf 0 text mem))
      × (read_dec 0 (put_dec n) ≡ n)
      × ((i : ℕ) → (i < buf) ⊎ (buf + buf_size ≤ i) → store_text buf 0 text mem i ≡ mem i)
con_linef_lem buf a n b mem first last lt at_a at_b clear_a clear_b short =
    let (reads, digits) = put_dec_lem n lt in
    (
      ap (λ middle. line_of buf a middle b mem) (line_digits_lem n)
          ∙ line_of_lem buf a b mem first (put_dec n) last at_a at_b clear_a clear_b
              (omega (arith, digits, short)),
      reads,
      λ i out.
          store_text_ne (dec_line first n last) buf 0 i mem
            (ground (arith, out, count-pieces first (put_dec n) last, digits, short)),
    )
