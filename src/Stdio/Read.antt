-- ===== src/Stdio/Read.antt =====
-- `common_fread` (src/stdio/fread.c). The bytes that it puts into the caller's buffer are a list beside
-- the result. `none` is a loop that ran out of fuel: each round of the loops reads a byte, so the number
-- of bytes that are asked for, and the size of the buffer, are enough.
pub mod Loops
pub mod Fill
pub mod Ahead
pub mod Blocks
pub mod Refine
use windows_libc.Common.{
  ℕ, zero, suc, ◌+◌, ◌-◌, ◌*◌, ◌/◌, ◌%◌, ◌^◌, ◌≤◌, ◌<◌, min, max, bit_and, bit_or, bit_xor, ◌≡◌,
  refl, sym, ap, ◌∙◌, ◌≢◌, ◌↔◌, ◌⊎◌, inl, inr, Bool, true, false, ◌&&◌, ◌||◌, not, Option, none,
  some, List, [], ◌∷◌, ◌++◌, map, append-nil, append_assoc, reverse, reverse_snoc, length-reverse,
  arith, ltb, leb, ◌==◌, if◌then◌else◌, Bool-cases, Option-cases, List-cases, length, get_elem?,
  set, get_or, take, drop, replicate, length-append, length-set, length-take, length-drop,
  length-replicate, take-append, drop-append, take-take-append, take-set, drop-cons, drop-nil,
  get_elem?-set_self, get_elem?-set_ne, ==_iff, &&_true, ltb→lt, lt→ltb, leb→le, u8, u16, u32, u64,
}
use windows_libc.Common.Errno.{Errno}
use windows_libc.Stdio.{
  Device, Stream, StreamError, clear, io_eof, io_error, Operation, op_read, op_write, minus,
  overwrite, bytes_at, was_write, fflush, allocate,
}

module _ {S : Type 0} where
  unfoldable pub read_done : Option (List ℕ) × S → Stream S → List ℕ × Stream S
  read_done (none, d) s = ([], record s { error = io_error; device = d })
  read_done (some [], d) s = ([], record s { error = io_eof; device = d })
  read_done (some (x ∷ xs), d) s = (x ∷ xs, record s { device = d })

  unfoldable pub read_wrapper : Device S → ℕ → Stream S → List ℕ × Stream S
  unfolding read_done
  read_wrapper dev n s = read_done (dev.read s.device n) s

  -- The loop that reads whole buffers into the target; `false` is a last read of nothing.
  unfoldable pub direct : Device S → ℕ → ℕ → List ℕ → Stream S → Option (List ℕ × Bool × Stream S)
  direct dev zero size got s = none
  direct dev (suc fuel) size got s = elim (ltb (length got + s.buf_size) size) [
    | false ↦ some (got, true, s)
    | true ↦
        let (xs, s') = read_wrapper dev s.buf_size s in
        elim xs [ [] ↦ some (got, false, s') | x ∷ ys ↦ direct dev fuel size (got ++ (x ∷ ys)) s' ]
  ]

  -- The loop that reads into the stream's buffer until it is full or holds `need` bytes.
  unfoldable pub fill : Device S → ℕ → ℕ → List ℕ → Stream S → Option (List ℕ × Stream S)
  fill dev zero need got s = none
  fill dev (suc fuel) need got s = elim (ltb (length got) s.buf_size && ltb (length got) need) [
    | false ↦ some (got, s)
    | true ↦
        let (xs, s') = read_wrapper dev (minus s.buf_size (length got)) s in
        elim xs [ [] ↦ some (got, s') | x ∷ ys ↦ fill dev fuel need (got ++ (x ∷ ys)) s' ]
  ]

  -- The stream after `got` went to the target: nothing is buffered.
  unfoldable pub unbuffer : List ℕ → Stream S → Stream S
  unbuffer got s = let pos = s.pos + length got in record s { pos = pos; start = pos; end = pos }

  -- The last block, of which the target gets what is still needed.
  unfoldable pub keep_block : ℕ → List ℕ → List ℕ → Stream S → List ℕ × Stream S
  keep_block need got block s =
      if ltb 0 (length block)
      then (
        got ++ take (min need (length block)) block,
        record s {
          buffer = overwrite s.buffer 0 block;
          end = s.pos + length block;
          start = s.pos;
          pos = s.pos + min need (length block);
        },
      )
      else (got, s)

  unfoldable pub after_fill : ℕ → List ℕ → Option (List ℕ × Stream S) → Option (List ℕ × Stream S)
  unfolding keep_block
  after_fill need got none = none
  after_fill need got (some (block, s)) = some (keep_block need got block s)

  unfoldable pub last_block :
      Device S → ℕ → Option (List ℕ × Bool × Stream S) → Option (List ℕ × Stream S)
  last_block dev size none = none
  last_block dev size (some (got, false, s)) = some (got, unbuffer got s)
  last_block dev size (some (got, true, s)) =
      let need = minus size (length got) in
      after_fill need got (fill dev (suc s.buf_size) need [] (unbuffer got s))

  -- A read of `size` bytes from a stream whose buffer is allocated.
  unfoldable pub buffered : Device S → ℕ → Stream S → Option (List ℕ × Stream S)
  buffered dev size s =
      let held = minus s.end s.pos in
      let offset = minus s.pos s.start in
      let ready = if ltb s.pos s.end then bytes_at s.buffer offset held else [] in
      let rest = last_block dev size (direct dev (suc size) size ready s) in
      if leb size held
      then some (bytes_at s.buffer offset size, record s { pos = s.pos + size })
      else rest

  -- The flush that a read after a write makes, and the new `prev_op`.
  unfoldable pub start_reading : Device S → Stream S → Stream S
  start_reading dev s =
      let s' = (fflush dev s).1 in
      if was_write s.prev_op
      then record s' { end = s'.start; prev_op = op_read }
      else record s { prev_op = op_read }

  unfoldable pub advance_all : List ℕ × Stream S → List ℕ × Stream S
  advance_all ([], s) = ([], s)
  advance_all (x ∷ xs, s) =
      let pos = s.pos + length (x ∷ xs) in (x ∷ xs, record s { pos = pos; start = pos; end = pos })

  unfoldable pub unbuffered_read : Device S → ℕ → Stream S → List ℕ × Stream S
  unfolding advance_all read_wrapper
  unbuffered_read dev size s =
      let (xs, s') = read_wrapper dev size s in advance_all (xs, record s' { prev_op = op_read })

  -- `count` where the buffer held all the bytes, else the whole items among those that were read.
  abbrev pub counted : Bool → ℕ → ℕ → Option (List ℕ × Stream S) → Option (List ℕ × ℕ × Stream S)
  counted held size count none = none
  counted true size count (some (xs, s)) = some (xs, count, s)
  counted false size count (some (xs, s)) = some (xs, length xs / size, s)

  -- The read after the buffer was allocated, or could not be.
  unfoldable pub buffered_read : Device S → ℕ → ℕ → Bool × Stream S → Option (List ℕ × ℕ × Stream S)
  buffered_read dev size count (false, s) = some ([], 0, s)
  buffered_read dev size count (true, s) =
      let total = u64 (size * count) in
      counted (leb total (minus s.end s.pos)) size count (buffered dev total s)

  -- The bytes put into the target, the result, and the stream. `size` is above 0.
  unfoldable pub fread :
      Device S → Option (List ℕ) → ℕ → ℕ → Stream S → Option (List ℕ × ℕ × Stream S)
  fread dev heap size count s =
      let got = buffered_read dev size count (allocate heap (start_reading dev s)) in
      elim s.error [
        | io_eof ↦ some ([], 0, s)
        | io_error ↦ some ([], 0, s)
        | clear ↦
            if s.buf_mode.wronly
            then some ([], 0, record s { errno = Errno.eacces; error = io_error })
            else if s.buf_mode.unbuffered
            then counted false size count (some (unbuffered_read dev (u64 (size * count)) s))
            else got
      ]
