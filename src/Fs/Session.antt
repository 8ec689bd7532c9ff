-- ===== src/Fs/Session.antt =====
-- servers/fs_server/main.c: a client that opens a file, reads it and closes it.
use mukern.Base.{
  ℕ, suc, pos, ◌+◌, ◌-◌, ◌%◌, ◌^◌, ◌≡◌, ◌<◌, ◌≤◌, refl, sym, ap, ◌∙◌, subst, Bool, true, false,
  some, ltb, leb, ◌==◌, not, arith, inl, inr, first_from, IsFirst, first_from-IsFirst, update,
  update_self, update_ne, ℕ_discrete, first_from-some,
}
use mukern.Abi.{Msg}
use mukern.Fs.{
  BlkRead, Files, Fent, entry_size, take_handle, fs_open_from, fs_read, fs_close, read_size,
  is_handle,
}
use mukern.Fs.Read.{OnDisk, file_byte, fs_read_lem}
use mukern.Fs.Walk.{entry_size-lt}
use mukern.Fs.Find.{
  Archive, Walked, Found, hit, skip, Missing, end_of_disk, end_of_archive, skip_missing,
  fs_open_from-Opened,
}
use mukern.Fs.Messages.{
  msg_open, msg_fread, msg_close, to_long, reply, buffer_at, with_buffer, fs_handle,
}

module _ {disk : ℕ → ℕ → ℕ} {last : ℕ} {path : ℕ → ℕ} where
  Found-unique : {lba a b : ℕ} → Found disk last path lba a → Found disk last path lba b → a ≡ b
  Found-unique (hit h t) (hit h' t') = refl
  Found-unique (hit h t) (skip h' nt g) = absurd (nt t)
  Found-unique (skip h nt f) (hit h' t) = absurd (nt t)
  Found-unique (skip h nt f) (skip h' nt' g) = Found-unique f g

  pub Found-Missing : {lba a : ℕ} → Found disk last path lba a → Missing disk last path lba → ⊥
  Found-Missing (hit h t) (end_of_disk le) = absurd (omega (arith, h.on_disk, le))
  Found-Missing (hit h t) (end_of_archive z) = h.begins z
  Found-Missing (hit h t) (skip_missing h' nt m) = nt t
  Found-Missing (skip h nt f) (end_of_disk le) = absurd (omega (arith, h.on_disk, le))
  Found-Missing (skip h nt f) (end_of_archive z) = h.begins z
  Found-Missing (skip h nt f) (skip_missing h' nt' m) = Found-Missing f m

abbrev pub opening : ℕ → Msg
opening path_at = record { label = msg_open; data0 = path_at; data1 = 0; cap_word = 0 }

abbrev pub reading : ℕ → ℕ → ℕ → Msg
reading h buf max = record { label = msg_fread; data0 = h; data1 = buf; cap_word = max }

abbrev pub closing : ℕ → Msg
closing h = record { label = msg_close; data0 = h; data1 = 0; cap_word = 0 }

take_handle_lem :
    (lba size : ℕ) (f : Files) {i : ℕ}
    → first_from (λ j. not (f.ftab j).used) 0 8 ≡ some i
    → take_handle lba size f ≡ (
      record f {
        ftab = update f.ftab i (record { data_lba = (lba + 1) % 2 ^ 64; size = size; used = true });
      },
      pos i,
    )
unfolding take_handle
take_handle_lem lba size f e = rw (e, take_handle) refl

not-used : {b : Bool} → not b ≡ true → b ≡ false
not-used {b = true} h = cc
not-used {b = false} h = refl

-- What a client sees that opens a file, reads it into the `max` bytes from `buf` on, and closes it.
pub record Cat (disk : ℕ → ℕ → ℕ) (read : BlkRead) (fuel at path_at buf max : ℕ) (mem : ℕ → ℕ)
    (f : Files) : Type 0 where
  pub handle : ℕ
  pub small : handle < 8
  pub opened : Files
  pub done_reading : Files
  pub closed : Files
  pub filled : ℕ → ℕ
  pub open_ok :
      fs_handle fuel read (opening path_at) mem f
      ≡ some (opened, mem, some (reply handle (entry_size (disk at))))
  pub read_ok :
      fs_handle fuel read (reading handle buf max) mem opened
      ≡ some (done_reading, filled, some (reply (read_size (entry_size (disk at)) max) 0))
  pub close_ok :
      fs_handle fuel read (closing handle) filled done_reading
      ≡ some (closed, filled, some (reply 0 0))
  pub contents :
      (j : ℕ)
      → j < read_size (entry_size (disk at)) max
      → filled (buf + j) ≡ file_byte disk ((at + 1) % 2 ^ 64) j
  pub before : (x : ℕ) → x < buf → filled x ≡ mem x
  pub behind : (x : ℕ) → buf + read_size (entry_size (disk at)) max ≤ x → filled x ≡ mem x
  pub released : (i : ℕ) → (closed.ftab i).used ≡ (f.ftab i).used

module _ (disk : ℕ → ℕ → ℕ) (last : ℕ) (read : BlkRead) (archive : Archive disk last read) where
  open_handle :
      (at path_at : ℕ) (mem : ℕ → ℕ) (f : Files) {i : ℕ}
      → Found disk last (buffer_at mem path_at) 0 at
      → first_from (λ j. not (f.ftab j).used) 0 8 ≡ some i
      → (h : ℕ → ℕ) × (fs_open_from (suc last) read (buffer_at mem path_at) 0 f
          ≡ some (
            record f {
              hdr = h;
              ftab = update f.ftab i (record {
                data_lba = (at + 1) % 2 ^ 64;
                size = entry_size (disk at);
                used = true;
              });
            },
            pos i,
          ))
  open_handle at path_at mem f {i} found free =
      elim (fs_open_from-Opened disk last read archive (buffer_at mem path_at) last 0 f Walked.first
        (omega arith)) [
          | inr (h, missing, e) ↦ absurd (Found-Missing found missing)
          | inl (at', h, found', e) ↦ (
            h,
            e
                ∙ ap some (
                    ap (λ n. take_handle n (entry_size (disk n)) (record f { hdr = h }))
                      (Found-unique found' found)
                    ∙ take_handle_lem at (entry_size (disk at)) (record f { hdr = h }) free),
          )
        ]

  abbrev pub entry : ℕ → Fent
  entry at = record { data_lba = (at + 1) % 2 ^ 64; size = entry_size (disk at); used = true }

  -- the table with the entry in `at` under handle `i`
  abbrev pub with_entry : ℕ → ℕ → (ℕ → ℕ) → Files → Files
  with_entry i at h f = record f { hdr = h; ftab = update f.ftab i (entry at) }

  cat_read :
      (i at buf max : ℕ) (h mem : ℕ → ℕ) (f : Files)
      → i < 8
      → OnDisk last ((at + 1) % 2 ^ 64) (read_size (entry_size (disk at)) max)
      → let (g, out, n) = fs_read read (pos i) (buffer_at mem buf) max (with_entry i at h f) in
        let size = read_size (entry_size (disk at)) max in
        (n ≡ pos size)
        × ((j : ℕ) → j < size → out j ≡ file_byte disk ((at + 1) % 2 ^ 64) j)
        × ((j : ℕ) → size ≤ j → out j ≡ mem (buf + j))
        × ((j : ℕ) → g.ftab j ≡ update f.ftab i (entry at) j)
  cat_read i at buf max h mem f lt there =
      let same : update f.ftab i (entry at) i ≡ entry at = update_self f.ftab i (entry at) in
      let valid : is_handle (pos i) (with_entry i at h f) ≡ true =
        let below : ltb i 8 ≡ true = ground arith in
        rw (below, ap (λ (t : Fent). t.used) same) refl in
      let r =
        fs_read_lem disk last read archive.reads i (buffer_at mem buf) max (with_entry i at h f)
          valid
          (subst (λ (t : Fent). OnDisk last t.data_lba (read_size t.size max)) (sym same) there) in
      subst
        (λ (t : Fent).
          let (g, out, n) = fs_read read (pos i) (buffer_at mem buf) max (with_entry i at h f) in
          (n ≡ pos (read_size t.size max))
          × ((j : ℕ) → j < read_size t.size max → out j ≡ file_byte disk t.data_lba j)
          × ((j : ℕ) → read_size t.size max ≤ j → out j ≡ mem (buf + j))
          × ((j : ℕ) → g.ftab j ≡ update f.ftab i (entry at) j))
        same r

  close_used :
      (i at : ℕ) (f g : Files) (j : ℕ)
      → i < 8
      → (f.ftab i).used ≡ false
      → ((k : ℕ) → g.ftab k ≡ update f.ftab i (entry at) k)
      → ((fs_close (pos i) g).ftab j).used ≡ (f.ftab j).used
  unfolding fs_close
  close_used i at f g j lt free table =
      let below : ltb i 8 ≡ true = ground arith in
      rw below (elim (ℕ_discrete i j) [
        | yes e ↦
            ap (λ (t : Fent). t.used)
              (subst
                (λ k.
                  update g.ftab i (record (g.ftab i) { used = false }) k
                  ≡ record (g.ftab i) { used = false })
                e (update_self g.ftab i (record (g.ftab i) { used = false })))
            ∙ sym free
            ∙ ap (λ k. (f.ftab k).used) e
        | no ne ↦
            ap (λ (t : Fent). t.used)
              (update_ne g.ftab i j (record (g.ftab i) { used = false }) ne
                ∙ table j
                ∙ update_ne f.ftab i j (entry at) ne)
      ])

  small_size :
      (at max : ℕ)
      → read_size (entry_size (disk at)) max % 2 ^ 64 ≡ read_size (entry_size (disk at)) max
  small_size at max = let lt = entry_size-lt (disk at) in ground (arith, lt)

  session_at :
      (i at path_at buf max : ℕ) (h mem : ℕ → ℕ) (f : Files)
      → i < 8
      → (f.ftab i).used ≡ false
      → 0 < max
      → OnDisk last ((at + 1) % 2 ^ 64) (read_size (entry_size (disk at)) max)
      → fs_open_from (suc last) read (buffer_at mem path_at) 0 f ≡ some (with_entry i at h f, pos i)
      → Cat disk read (suc last) at path_at buf max mem f
  unfolding fs_handle
  session_at i at path_at buf max h mem f lt free pos_max there opens =
      let r = fs_read read (pos i) (buffer_at mem buf) max (with_entry i at h f) in
      let (n_as, body, rest, table) = cat_read i at buf max h mem f lt there in
      let word : i % 2 ^ 64 ≡ i = omega arith in
      let long : to_long i ≡ pos i = ground arith in
      let limit : (max == 0) ≡ false = ground arith in
      record {
        handle = i;
        small = lt;
        opened = with_entry i at h f;
        done_reading = r.0;
        closed = fs_close (pos i) r.0;
        filled = with_buffer mem buf r.1;
        open_ok =
            rw (opens, word)
              (ap (λ (t : Fent). some (with_entry i at h f, mem, some (reply i t.size)))
                (update_self f.ftab i (entry at)));
        read_ok = rw (limit, long, n_as, small_size at max) refl;
        close_ok = rw long refl;
        contents = λ j l.
            let t : leb buf (buf + j) ≡ true = ground arith in
            let back : buf + j - buf ≡ j = omega arith in rw t (ap r.1 back ∙ body j l);
        before = λ x l. let t : leb buf x ≡ false = ground arith in rw t refl;
        behind = λ x le.
            let t : leb buf x ≡ true = ground arith in
            let back : buf + (x - buf) ≡ x = omega arith in
            rw t (rest (x - buf) (omega arith) ∙ ap mem back);
        released = λ j. close_used i at f r.0 j lt free table;
      }

  -- A client that opens a file of the archive by its name while a handle is free, reads it with a
  -- limit of `max` bytes, not 0, which lie on the disk, and closes it: the replies are the handle and
  -- the size, the number of bytes read, and 0; the buffer then holds so many bytes of the file, no other
  -- byte of memory has changed, and the same handles are free as before.
  pub cat_lem :
      (at path_at buf max : ℕ) (mem : ℕ → ℕ) (f : Files)
      → Found disk last (buffer_at mem path_at) 0 at
      → (i : ℕ) → i < 8
      → (f.ftab i).used ≡ false
      → 0 < max
      → OnDisk last ((at + 1) % 2 ^ 64) (read_size (entry_size (disk at)) max)
      → Cat disk read (suc last) at path_at buf max mem f
  cat_lem at path_at buf max mem f found k lt free pos_max there =
      let (i, e) =
        first_from-some (λ j. not (f.ftab j).used) 0 8 k (omega arith) (omega arith)
          (ap not free) in
      let first : IsFirst (λ j. not (f.ftab j).used) 0 8 i = first_from-IsFirst _ 0 8 e in
      let (h, opens) = open_handle at path_at mem f found e in
      session_at i at path_at buf max h mem f (omega (arith, first.below)) (not-used first.passes)
        pos_max there opens
