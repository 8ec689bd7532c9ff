-- ===== src/Console.antt =====
-- drivers/console/main.c: the state of the driver, its ring of received bytes and its history.
-- `char` and `unsigned char` are bytes, `unsigned` is 32 bits wide, and a client's buffer is a
-- function of the offset from `rd_buf`. What goes out on the line is kept newest first.

pub mod Editor
pub mod Ring
pub mod Bounds
pub mod Drain
pub mod Lines
pub mod Messages
use mukern.Base.{
  ℕ, ℤ, zero, suc, ◌+◌, ◌-◌, ◌%◌, Bool, true, false, List, ◌∷◌, Option, some, none, update, ltb,
  ◌==◌, ◌&&◌, not, found, first_from, if◌then◌else◌,
}

pub record Console : Type 0 where
  pub ring : ℕ → ℕ
  pub r_head : ℕ
  pub r_tail : ℕ
  pub hist : ℕ → ℕ → ℕ
  pub hist_len : ℕ → ℕ
  pub h_count : ℕ
  pub h_next : ℕ
  pub h_nav : ℕ
  pub h_saved : ℕ → ℕ
  pub h_saved_n : ℕ
  pub rd_active : Bool
  pub rd_from : ℤ
  pub rd_buf : ℕ → ℕ
  pub rd_max : ℕ
  pub rd_n : ℕ
  pub rd_pos : ℕ
  pub esc : ℕ
  pub csi_num : ℕ
  pub out : List ℕ
  pub replies : List (ℤ × ℕ)

abbrev pub ring_size : ℕ
ring_size = 256

abbrev pub hmax : ℕ
hmax = 16

abbrev pub hlen : ℕ
hlen = 128

-- A byte that finds the ring full is dropped.
unfoldable pub ring_push : ℕ → Console → Console
ring_push c s =
    let n = (s.r_head + 1) % ring_size in
    if n == s.r_tail then s else record s { ring = update s.ring s.r_head c; r_head = n }

-- `none` stands for -1.
unfoldable pub ring_pop : Console → Console × Option ℕ
ring_pop s =
    if s.r_head == s.r_tail
    then (s, none)
    else (record s { r_tail = (s.r_tail + 1) % ring_size }, some (s.ring s.r_tail))

-- `for (i = i0; i < i0 + rounds; i++) dst[i] = src[i];`
unfoldable pub copy_from : (ℕ → ℕ) → ℕ → ℕ → (ℕ → ℕ) → ℕ → ℕ
copy_from src i zero dst = dst
copy_from src i (suc rounds) dst = copy_from src (suc i) rounds (update dst i (src i))

-- Is the newest entry of the history this text of `n` bytes?
abbrev pub is_repeat : (ℕ → ℕ) → ℕ → Console → Bool
is_repeat text n s =
    let newest = (s.h_next + (hmax - 1)) % hmax in
    not (s.h_count == 0)
    && (s.hist_len newest == n)
    && not (found (first_from (λ i. not (s.hist newest i == text i)) 0 n))

abbrev pub store_line : (ℕ → ℕ) → ℕ → Console → Console
store_line text n s = record s {
  hist = update s.hist s.h_next (copy_from text 0 n (s.hist s.h_next));
  hist_len = update s.hist_len s.h_next n;
  h_next = (s.h_next + 1) % hmax;
  h_count = if ltb s.h_count hmax then s.h_count + 1 else s.h_count;
}

unfoldable pub hist_push : (ℕ → ℕ) → ℕ → Console → Console
hist_push text n s =
    if n == 0
    then s
    else (if is_repeat text n s then s else store_line text (if ltb n hlen then n else hlen - 1) s)
