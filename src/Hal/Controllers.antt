-- ===== src/Hal/Controllers.antt =====
-- What the interrupt controllers and the timer make of the writes, by their data sheets.
use mukern.Base.{
  ℕ, ◌+◌, ◌*◌, ◌/◌, ◌%◌, ◌^◌, ◌≡◌, ◌<◌, ◌≤◌, refl, sym, subst, List, [], ◌∷◌, ◌==◌, if◌then◌else◌,
  arith,
}
use native.Mathlib.Nat.{mul-div-le, lt-div-mul-add}
use mukern.Hal.{Write, pic1_cmd, pic1_data, pic2_cmd, pic2_data, pic_remap, pit_init, pit_hz}

-- An 8259A: the initialisation word that it takes next on its data port, where 0 is none, so that the
-- port is its mask; the first vector, the wiring and the mode that it was given, and the mask.
pub record Pic : Type 0 where
  pub next_word : ℕ
  pub offset : ℕ
  pub wiring : ℕ
  pub mode : ℕ
  pub mask : ℕ

abbrev pub icw1 : ℕ → Pic → Pic
icw1 v c = if v / 16 % 2 == 1 then record c { next_word = 2; mask = 0 } else c

abbrev pub data_word : ℕ → Pic → Pic
data_word v c =
    if c.next_word == 0
    then record c { mask = v }
    else (if c.next_word == 2
        then record c { next_word = 3; offset = v }
        else (if c.next_word == 3
            then record c { next_word = 4; wiring = v }
            else record c { next_word = 0; mode = v }))

-- the two controllers
abbrev pub write_pics : Write → Pic × Pic → Pic × Pic
write_pics (p, v) (a, b) =
    if p == pic1_cmd
    then (icw1 v a, b)
    else (if p == pic1_data
        then (data_word v a, b)
        else (if p == pic2_cmd
            then (a, icw1 v b)
            else (if p == pic2_data then (a, data_word v b) else (a, b))))

unfoldable pub writes_pics : List Write → Pic × Pic → Pic × Pic
writes_pics [] c = c
writes_pics (w ∷ ws) c = writes_pics ws (write_pics w c)

-- Whatever state the controllers are in, after `pic_remap` they raise their lines at the vectors given,
-- the second one on line 2 of the first, both in 8086 mode, with the masks that were read before.
pub writes_pics-pic_remap :
    (off1 off2 m1 m2 : ℕ) (c : Pic × Pic)
    → writes_pics (pic_remap off1 off2 m1 m2) c ≡ (
      record { next_word = 0; offset = off1; wiring = 4; mode = 1; mask = m1 },
      record { next_word = 0; offset = off2; wiring = 2; mode = 1; mask = m2 },
    )
unfolding writes_pics
writes_pics-pic_remap off1 off2 m1 m2 (a, b) = refl

-- The divisor that channel 0 of the timer has taken, low byte first.
abbrev pub divisor_of : List Write → ℕ
divisor_of (c ∷ (lo ∷ (hi ∷ ws))) = lo.1 + hi.1 * 2 ^ 8
divisor_of ws = 0

-- For 19 ticks a second or more the divisor fits its 16 bits, and it is the largest at which the timer
-- ticks at the rate asked for or faster.
pub divisor_of-pit_init :
    (hz : ℕ)
    → 19 ≤ hz
    → let d = divisor_of (pit_init hz) in (hz * d ≤ pit_hz) × (pit_hz < hz * (d + 1))
divisor_of-pit_init hz le =
    let q = pit_hz / hz in
    let low : hz * q ≤ pit_hz = mul-div-le pit_hz hz in
    let high : pit_hz < q * hz + hz = lt-div-mul-add {a = pit_hz} {b = hz} (omega (arith, le)) in
    let short : q < 2 ^ 16 = grind (arith, low, le) in
    let whole : q % 256 + q / 2 ^ 8 % 256 * 2 ^ 8 ≡ q = omega (arith, short) in
    subst (λ d. (hz * d ≤ pit_hz) × (pit_hz < hz * (d + 1))) (sym whole) (low, grind (arith, high))
