-- ===== src/Stdio/Seek.antt =====
-- `common_fseek` (src/stdio/fseek.c) and `ftell` (src/stdio/ftell.c). The offset is an `ssize_t`, which
-- is added to the position modulo 2 ^ 64.
use windows_libc.Common.{
  ℕ, zero, ◌+◌, ◌-◌, ◌*◌, sym, length, length-append, drop, length-take, length-drop, ◌^◌, ◌<◌, ◌≡◌,
  refl, ap, ◌∙◌, inl, inr, Bool, true, false, ◌&&◌, not, Option, none, some, List, [], arith, leb,
  ◌==◌, if◌then◌else◌, Bool-cases, u64,
}
use windows_libc.Common.Int.{ℤ, pos, negsuc}
use windows_libc.Stdio.{
  Device, Stream, StreamError, clear, io_eof, io_error, Operation, op_read, Whence, seek_set,
  seek_cur, was_read, was_write, fflush,
}
use windows_libc.Stdio.Read.{fread}
use windows_libc.Stdio.Read.Ahead.{HasWindow, ready, ahead}
use windows_libc.Stdio.Read.Loops.{Reads}
use windows_libc.Stdio.Read.Refine.{IsReadable, fread-Got}
use windows_libc.Stdio.Write.Loops.{Writes, output}
use windows_libc.Stdio.Flush.{fflush-Written}

-- An `ssize_t` as a `size_t`.
abbrev pub offset_bits : ℤ → ℕ
offset_bits (pos n) = u64 n
offset_bits (negsuc n) = 2 ^ 64 - 1 - u64 n

abbrev pub is_cur : Whence → Bool
is_cur seek_cur = true
is_cur other = false

-- The error after a seek: a seek to the start clears it, any other the end of file.
unfoldable pub seek_error : ℤ → Whence → StreamError → StreamError
seek_error (pos zero) seek_set e = clear
seek_error offset whence io_eof = clear
seek_error offset whence e = e

module _ {S : Type 0} where
  unfoldable pub seek_done : ℤ → Whence → Option ℕ × S → Stream S → Bool × Stream S
  seek_done offset whence (none, d) s = (false, record s { device = d })
  seek_done offset whence (some n, d) s = (
    true,
    record s { pos = n; start = n; end = n; device = d; error = seek_error offset whence s.error },
  )

  -- The seek stays in the window of a stream that was read last.
  abbrev pub in_window : ℤ → Whence → Stream S → Bool
  in_window offset whence s =
      let new_pos = u64 (s.pos + offset_bits offset) in
      (is_cur whence && was_read s.prev_op)
      && ((leb s.start new_pos && leb new_pos s.end) && not (s.start == s.end))

  abbrev pub seek_on : Device S → ℤ → Whence → Stream S → Bool × Stream S
  seek_on dev offset whence s =
      let result = seek_done offset whence (dev.lseek s.device offset whence) s in
      if in_window offset whence s
      then (true, record s { pos = u64 (s.pos + offset_bits offset) })
      else result

  -- `false` is the -1.
  unfoldable pub fseek : Device S → ℤ → Whence → Stream S → Bool × Stream S
  unfolding seek_done
  fseek dev offset whence s =
      seek_on dev offset whence (if was_write s.prev_op then (fflush dev s).1 else s)

  unfoldable pub ftell : Stream S → ℕ
  ftell s = s.pos

-- What `lseek` promises of a descriptor at the offset `at` of a file: it goes to an offset from the
-- start, or from where it is.
pub record Seeks {S : Type 0} (dev : Device S) (at : S → ℕ) : Type 0 where
  pub to :
      (d : S) (n : ℕ)
      → (dev.lseek d (pos n) seek_set).0 ≡ some n × at (dev.lseek d (pos n) seek_set).1 ≡ n
  pub by :
      (d : S) (n : ℕ)
      → (dev.lseek d (pos n) seek_cur).0 ≡ some (at d + n)
        × at (dev.lseek d (pos n) seek_cur).1 ≡ at d + n

cur_not_set : (e : StreamError) → seek_error (pos 0) seek_set e ≡ clear
unfolding seek_error
cur_not_set clear = refl
cur_not_set io_eof = refl
cur_not_set io_error = refl

read_not_written : (o : Operation) → was_read o ≡ true → was_write o ≡ false
read_not_written op_read e = refl
read_not_written other e = absurd (cc)

some_read :
    {S : Type 0} {xs ys : List ℕ} {k n : ℕ} {s t : Stream S}
    → ◌≡◌ {A = Option (List ℕ × ℕ × Stream S)} (some (xs, k, s)) (some (ys, n, t))
    → (xs ≡ ys) × (s ≡ t)
some_read {S = S} {xs = xs} {s = s} e = (
  ap (λ (o : Option (List ℕ × ℕ × Stream S)). elim o [ none ↦ xs | some r ↦ r.0 ]) e,
  ap (λ (o : Option (List ℕ × ℕ × Stream S)). elim o [ none ↦ s | some r ↦ r.2 ]) e,
)

module _ {S : Type 0} (dev : Device S) where
  -- A stream at the end of its file gives nothing.
  eof_read :
      (heap : Option (List ℕ)) (size count : ℕ) (s : Stream S)
      → s.error ≡ io_eof
      → fread dev heap size count s ≡ some ([], 0, s)
  unfolding fread
  eof_read heap size count s flag = simp (fread, flag) refl

  fseek_read :
      (offset : ℤ) (whence : Whence) (s : Stream S)
      → was_write s.prev_op ≡ false
      → fseek dev offset whence s ≡ seek_on dev offset whence s
  unfolding fseek
  fseek_read offset whence s first = rw first refl

  -- `rewind`, a `common_fseek` to the start of the file, on a buffered stream that was written to last and
  -- is not for reading only, over a descriptor that writes without errors and can seek: it succeeds, all the
  -- output is written before it seeks, the position is 0, nothing is buffered, and no error is set.
  pub rewind-Flushed :
      (written : S → List ℕ) (law : Writes dev written) (at : S → ℕ) (seeks : Seeks dev at)
      (s : Stream S)
      → HasWindow s
      → was_write s.prev_op ≡ true
      → s.buf_mode.rdonly ≡ false
      → s.buf_mode.unbuffered ≡ false
      → (s' : Stream S) × (fseek dev (pos 0) seek_set s ≡ (true, s'))
        × (written s'.device ≡ output written s)
        × (at s'.device ≡ 0)
        × (ftell s' ≡ 0)
        × (s'.start ≡ s'.end)
        × (s'.error ≡ clear)
  unfolding fseek seek_done ftell
  rewind-Flushed written law at seeks s w on writable kind =
      let (d, flushed, put) = fflush-Written dev written law s w on writable kind in
      let s1 = record s { start = s.pos; device = d } in
      let (answer, there) = seeks.to d 0 in
      let d' = (dev.lseek d (pos 0) seek_set).1 in
      (
        record s1 {
          pos = 0;
          start = 0;
          end = 0;
          device = d';
          error = seek_error (pos 0) seek_set s.error;
        },
        simp (on, flushed) (ap (λ o. seek_done (pos 0) seek_set (o, d') s1) answer),
        law.seeks d (pos 0) seek_set ∙ put,
        there,
        refl,
        refl,
        cur_not_set s.error,
      )

  -- A `common_fread` of some items of one byte or more, fewer than 2 ^ 64 bytes in all, on a buffered
  -- stream that can be read, was not written to last, met no error and has its buffer, over a descriptor
  -- that reads without errors, which gave fewer bytes than asked for; then a `common_fseek` back by
  -- `m` + 1 bytes, which are in the window that the read left, the position being below 2 ^ 64: the seek
  -- succeeds and the bytes ahead are as many as it went back, but the end-of-file flag stays, so that any
  -- further read gives nothing.
  pub fseek_keeps_eof :
      (left : S → List ℕ) (law : Reads dev left) (heap : Option (List ℕ))
      (size count m again items k : ℕ) (xs : List ℕ) (s s1 : Stream S)
      → IsReadable s
      → 0 < size
      → size * count < 2 ^ 64
      → fread dev heap size count s ≡ some (xs, k, s1)
      → length xs < size * count
      → s1.start + m < s1.pos
      → s1.pos < 2 ^ 64
      → (s2 : Stream S) × (fseek dev (negsuc m) seek_cur s1 ≡ (true, s2))
        × (ftell s2 + (m + 1) ≡ ftell s1)
        × (length (ahead left s2) ≡ m + 1)
        × (fread dev heap again items s2 ≡ some ([], 0, s2))
  unfolding ftell
  fseek_keeps_eof left law heap size count m again items k xs s s1 r positive small gave few back
        low =
      let (ys, t, returned, got) = fread-Got dev left law heap size count s r positive small in
      let (same_bytes, same_stream) = some_read (sym gave ∙ returned) in
      let met : (ahead left t ≡ []) × (t.error ≡ io_eof) = elim got.complete [
        | inl all ↦ absurd (omega (arith, all.0, ap length same_bytes))
        | inr end ↦ (end.1, end.2)
      ] in
      let order : was_read s1.prev_op ≡ true = rw (same_stream, got.order) refl in
      let w : HasWindow s1 = rw same_stream got.window in
      let flag : s1.error ≡ io_eof = ap (λ (u : Stream S). u.error) same_stream ∙ met.1 in
      let over : ahead left s1 ≡ [] = ap (ahead left) same_stream ∙ met.0 in
      let new_pos : u64 (s1.pos + offset_bits (negsuc m)) ≡ s1.pos - (m + 1) =
        omega (arith, back, low) in
      let ended = ap length over in
      let exact : s1.end ≡ s1.pos = omega (
        arith,
        ended,
        length-append (ready s1) (left s1.device),
        length-take (s1.end - s1.pos) (drop (s1.pos - s1.start) s1.buffer),
        length-drop (s1.pos - s1.start) s1.buffer,
        w.whole,
        w.held,
        w.from_start,
        w.to_end,
      ) in
      let from : leb s1.start (s1.pos - (m + 1)) ≡ true = ground (arith, back) in
      let to : leb (s1.pos - (m + 1)) s1.end ≡ true = ground (arith, exact) in
      let some_window : (s1.start == s1.end) ≡ false = ground (arith, exact, back) in
      let inside : in_window (negsuc m) seek_cur s1 ≡ true =
        rw (order, new_pos, from, to, some_window) refl in
      let s2 = record s1 { pos = s1.pos - (m + 1) } in
      (
        s2,
        fseek_read (negsuc m) seek_cur s1 (read_not_written s1.prev_op order)
            ∙ rw (inside, new_pos) refl,
        omega (arith, back),
        omega (
          arith,
          ended,
          exact,
          back,
          length-append (ready s1) (left s1.device),
          length-append (ready s2) (left s1.device),
          length-take (s1.end - (s1.pos - (m + 1))) (drop (s1.pos - (m + 1) - s1.start) s1.buffer),
          length-drop (s1.pos - (m + 1) - s1.start) s1.buffer,
          w.whole,
          w.held,
        ),
        eof_read heap again items s2 flag,
      )

  -- `common_fseek` forward from the current position to a place behind the window and below 2 ^ 64,
  -- on a stream that was read last and whose descriptor stands at the end of the window, as a read
  -- leaves it, over a descriptor that can seek: it goes on from the end of the window in place of
  -- the position.
  pub fseek_from_end :
      (at : S → ℕ) (seeks : Seeks dev at) (n : ℕ) (s : Stream S)
      → was_read s.prev_op ≡ true
      → at s.device ≡ s.end
      → s.end < s.pos + n
      → s.pos + n < 2 ^ 64
      → (s' : Stream S) × (fseek dev (pos n) seek_cur s ≡ (true, s')) × (ftell s' ≡ s.end + n)
  unfolding ftell seek_done
  fseek_from_end at seeks n s order place far small =
      let (answer, there) = seeks.by s.device n in
      let d' = (dev.lseek s.device (pos n) seek_cur).1 in
      let new_pos : u64 (s.pos + u64 n) ≡ s.pos + n = ground (arith, u64) in
      let outside : leb (s.pos + n) s.end ≡ false = ground arith in
      let stay : in_window (pos n) seek_cur s ≡ false =
        elim (Bool-cases (leb s.start (s.pos + n))) [
          | inl after ↦ simp (order, new_pos, outside, after) refl
          | inr before ↦ simp (order, new_pos, outside, before) refl
        ] in
      let p = at s.device + n in
      (
        record s {
          pos = p;
          start = p;
          end = p;
          device = d';
          error = seek_error (pos n) seek_cur s.error;
        },
        fseek_read (pos n) seek_cur s (read_not_written s.prev_op order)
            ∙ rw stay (ap (λ o. seek_done (pos n) seek_cur (o, d') s) answer),
        ap (λ e. e + n) place,
      )
