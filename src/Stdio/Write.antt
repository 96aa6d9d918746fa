-- ===== src/Stdio/Write.antt =====
-- `common_fwrite` (src/stdio/fwrite.c). The caller's bytes are a list. `none` is a loop that ran out of
-- fuel: a round of the loop that writes a byte or more brings it nearer to its end, so the number of
-- bytes is enough for a descriptor that writes some. A position is a `size_t`, and a failed seek to the end
-- leaves 2 ^ 64 - 1 in it, so a sum of positions wraps around.
pub mod Loops
pub mod Window
pub mod Begin
pub mod Refine
use windows_libc.Common.{
  ℕ, zero, suc, ◌+◌, ◌-◌, ◌*◌, ◌/◌, ◌%◌, ◌^◌, ◌≤◌, ◌<◌, min, max, bit_and, bit_or, bit_xor, ◌≡◌,
  refl, sym, ap, ◌∙◌, ◌≢◌, ◌↔◌, ◌⊎◌, inl, inr, Bool, true, false, ◌&&◌, ◌||◌, not, Option, none,
  some, List, [], ◌∷◌, ◌++◌, map, append-nil, append_assoc, reverse, reverse_snoc, length-reverse,
  arith, ltb, leb, ◌==◌, if◌then◌else◌, Bool-cases, Option-cases, List-cases, length, get_elem?,
  set, get_or, take, drop, replicate, length-append, length-set, length-take, length-drop,
  length-replicate, take-append, drop-append, take-take-append, take-set, drop-cons, drop-nil,
  get_elem?-set_self, get_elem?-set_ne, ==_iff, &&_true, ltb→lt, lt→ltb, leb→le, u8, u16, u32, u64,
}
use windows_libc.Common.Errno.{Errno}
use windows_libc.Common.Int.{ℤ, pos, negsuc}
use windows_libc.Stdio.{
  Device, Stream, StreamError, clear, io_eof, io_error, Operation, op_read, op_write, Whence,
  seek_set, seek_end, minus, overwrite, bytes_at, was_read, was_write, allocate,
}

-- An `off_t` that is stored in a `size_t`; `none` is -1.
abbrev pub to_size : Option ℕ → ℕ
to_size none = 2 ^ 64 - 1
to_size (some n) = n

-- A `size_t` that is passed as an `off_t`.
unfoldable pub to_off_t : ℕ → ℤ
to_off_t n = if ltb n (2 ^ 63) then pos n else negsuc (2 ^ 64 - 1 - n)

module _ {S : Type 0} where
  unfoldable pub unbuffered_done : Option ℕ × S → ℕ → Stream S → ℕ × Stream S
  unbuffered_done (none, d) size s =
      ((2 ^ 64 - 1) / size, record s { prev_op = op_write; device = d; error = io_error })
  unbuffered_done (some n, d) size s =
      let pos = u64 (s.pos + n) in
      (n / size, record s { prev_op = op_write; device = d; pos = pos; start = pos; end = pos })

  -- The seek of a write that follows a read, or starts to append; `appends` is the flag `O_APPEND` of
  -- the descriptor.
  unfoldable pub start_writing : Device S → Bool → Stream S → Stream S
  start_writing dev appends s =
      let (there, d) = dev.lseek s.device (pos 0) seek_end in
      let (_, d') = dev.lseek s.device (to_off_t s.pos) seek_set in
      if was_write s.prev_op
      then s
      else if appends
      then record s { pos = to_size there; start = to_size there; end = to_size there; device = d }
      else if was_read s.prev_op
      then record s { start = s.pos; end = s.pos; device = d' }
      else record s { start = s.pos; end = s.pos }

  -- An empty window becomes the whole buffer.
  unfoldable pub open_window : Stream S → Stream S
  open_window s =
      if (s.start == s.end) && (s.buf_mode.allocated || s.buf_mode.external)
      then record s { start = s.pos; end = u64 (s.pos + s.buf_size) }
      else s

  unfoldable pub after : ℕ → Option (ℕ × Bool × S) → Option (ℕ × Bool × S)
  after count none = none
  after count (some (more, well, d)) = some (count + more, well, d)

  -- The loop that writes whole buffers out of the caller's bytes: the number of bytes written, and
  -- whether the last write gave more than 0.
  unfoldable pub write_direct : Device S → ℕ → List ℕ → ℕ → Bool → S → Option (ℕ × Bool × S)
  write_direct dev zero bytes buf_size well d = none
  write_direct dev (suc fuel) bytes buf_size well d = elim (ltb buf_size (length bytes)) [
    | false ↦ some (0, well, d)
    | true ↦
        let (n, d') = dev.write d (take buf_size bytes) in
        elim n [
          | none ↦ some (0, false, d')
          | some count ↦
              after count (write_direct dev fuel (drop count bytes) buf_size (ltb 0 count) d')
        ]
  ]

  -- The bytes that are left go into the buffer.
  unfoldable pub keep_rest : List ℕ → ℕ → Option (ℕ × Bool × S) → Stream S → Option (ℕ × Stream S)
  keep_rest bytes written none s = none
  keep_rest bytes written (some (more, well, d)) s =
      let done = written + more in
      let pos = u64 (s.pos + done) in
      let rest = drop done bytes in
      if well
      then some (
        done + length rest,
        record s {
          buffer = overwrite s.buffer 0 rest;
          start = pos;
          end = u64 (pos + s.buf_size);
          pos = u64 (pos + length rest);
          device = d;
        },
      )
      else some (done, record s { pos = pos; start = pos; end = pos; device = d })

  abbrev pub write_rest : Device S → List ℕ → ℕ → Stream S → Option (ℕ × Stream S)
  write_rest dev bytes written s =
      let rest = drop written bytes in
      keep_rest bytes written (write_direct dev (suc (length rest)) rest s.buf_size true s.device) s

  -- The buffer, filled up to its end and written.
  unfoldable pub filled : Device S → List ℕ → ℕ → Option ℕ × S → Stream S → Option (ℕ × Stream S)
  filled dev bytes room (none, d) s = some (0, record s { error = io_error; device = d })
  filled dev bytes room (some n, d) s = write_rest dev bytes room (record s { device = d })

  -- The number of bytes that the stream took.
  unfoldable pub buffered : Device S → List ℕ → Stream S → Option (ℕ × Stream S)
  buffered dev bytes s =
      let room = minus s.end s.pos in
      let at = overwrite s.buffer (minus s.pos s.start) bytes in
      let s' = record s { buffer = overwrite s.buffer (minus s.pos s.start) (take room bytes) } in
      let full = filled dev bytes room (dev.write s.device (bytes_at s'.buffer 0 s.buf_size)) s' in
      let direct = write_rest dev bytes 0 s in
      if leb (length bytes) room
      then some (length bytes, record s { buffer = at; pos = u64 (s.pos + length bytes) })
      else if room == s.buf_size
      then direct
      else full

  -- The number of whole items.
  unfoldable pub items : ℕ → Option (ℕ × Stream S) → Option (ℕ × Stream S)
  items size none = none
  items size (some (n, s)) = some (n / size, s)

  -- The write after the buffer was allocated, or could not be.
  unfoldable pub buffered_write : Device S → List ℕ → ℕ → Bool × Stream S → Option (ℕ × Stream S)
  buffered_write dev bytes size (false, s) = some (0, s)
  buffered_write dev bytes size (true, s) = items size (buffered dev bytes (open_window s))

  -- The result, and the stream. `bytes` are the `size * count` bytes of the caller, `size` is above 0.
  unfoldable pub fwrite :
      Device S → Option (List ℕ) → Bool → List ℕ → ℕ → Stream S → Option (ℕ × Stream S)
  fwrite dev heap appends bytes size s =
      let ready = allocate heap (record (start_writing dev appends s) { prev_op = op_write }) in
      elim s.error [
        | io_error ↦ some (0, s)
        | other ↦
            if s.buf_mode.rdonly
            then some (0, record s { errno = Errno.eacces; error = io_error })
            else if s.buf_mode.unbuffered
            then some (unbuffered_done (dev.write s.device bytes) size s)
            else buffered_write dev bytes size ready
      ]
