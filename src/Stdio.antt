-- ===== src/Stdio.antt =====
-- Streams of stdio (`FILE` of include/internal/stdio.h) and `common_fflush` of src/stdio/fflush.c. The
-- flag word `buf_mode` is a record of its bits, the three values of `error` and of `prev_op` are data
-- types, and `errno` stands beside the fields. The functions of unistd on the descriptor of a stream are
-- a record of functions on a state of their own; `none` is their -1. A function runs under the lock of
-- its stream, so it is one step.
pub mod Read
pub mod Write
pub mod Flush
pub mod Chars
pub mod Seek
use windows_libc.Common.{
  ℕ, zero, suc, ◌+◌, ◌-◌, ◌*◌, ◌/◌, ◌%◌, ◌^◌, ◌≤◌, ◌<◌, min, max, bit_and, bit_or, bit_xor, ◌≡◌,
  refl, sym, ap, ◌∙◌, ◌≢◌, ◌↔◌, ◌⊎◌, inl, inr, Bool, true, false, ◌&&◌, ◌||◌, not, Option, none,
  some, List, [], ◌∷◌, ◌++◌, map, append-nil, append_assoc, reverse, reverse_snoc, length-reverse,
  arith, ltb, leb, ◌==◌, if◌then◌else◌, Bool-cases, Option-cases, List-cases, length, get_elem?,
  set, get_or, take, drop, replicate, length-append, length-set, length-take, length-drop,
  length-replicate, take-append, drop-append, take-take-append, take-set, drop-cons, drop-nil,
  get_elem?-set_self, get_elem?-set_ne, ==_iff, &&_true, ltb→lt, lt→ltb, leb→le, u8, u16, u32, u64,
}
use windows_libc.Common.Errno.{Errno}
use windows_libc.Common.Int.{ℤ}

-- `SEEK_SET`, `SEEK_CUR` and `SEEK_END`.
pub data Whence : Type 0 where
  seek_set seek_cur seek_end : Whence

-- What a stream calls with its descriptor: `read` with the size of the target, `write` with the bytes,
-- and `lseek`.
pub record Device (S : Type 0) : Type 0 where
  pub read : S → ℕ → Option (List ℕ) × S
  pub write : S → List ℕ → Option ℕ × S
  pub lseek : S → ℤ → Whence → Option ℕ × S

-- The bits `_IOBUFFER_INTERNAL` to `_IOBUFFER_WRONLY` and `_IOFBF`, `_IOLBF`, `_IONBF`.
pub record BufMode : Type 0 where
  pub internal : Bool
  pub external : Bool
  pub allocated : Bool
  pub rdonly : Bool
  pub wronly : Bool
  pub rdwr : Bool
  pub full : Bool
  pub line : Bool
  pub unbuffered : Bool

pub data StreamError : Type 0 where
  clear io_eof io_error : StreamError

pub data Operation : Type 0 where
  nothing op_read op_write : Operation

pub record Stream (S : Type 0) : Type 0 where
  pub buf_mode : BufMode
  pub error : StreamError
  pub buffer : List ℕ
  pub buf_size : ℕ
  pub start : ℕ
  pub end : ℕ
  pub pos : ℕ
  pub prev_op : Operation
  pub device : S
  pub errno : Errno

-- A difference of `size_t`, which wraps around.
unfoldable pub minus : ℕ → ℕ → ℕ
minus a b = if ltb a b then 2 ^ 64 - (b - a) else a - b

pub minus_of_le : (a b : ℕ) → b ≤ a → minus a b ≡ a - b
unfolding minus
minus_of_le a b h = ground arith

-- `memcpy(buffer + offset, xs, length)`.
abbrev pub overwrite : List ℕ → ℕ → List ℕ → List ℕ
overwrite buffer offset xs = take offset buffer ++ (xs ++ drop (offset + length xs) buffer)

-- `memcpy` of `n` bytes out of `buffer + offset`.
abbrev pub bytes_at : List ℕ → ℕ → ℕ → List ℕ
bytes_at buffer offset n = take n (drop offset buffer)

abbrev pub was_read : Operation → Bool
was_read op_read = true
was_read other = false

abbrev pub was_write : Operation → Bool
was_write op_write = true
was_write other = false

module _ {S : Type 0} where
  -- The end of the `write` of a flush.
  unfoldable pub flushed : Option ℕ × S → Stream S → Bool × Stream S
  flushed (none, d) s = (false, record s { error = io_error; device = d })
  flushed (some n, d) s = (true, record s { start = s.pos; device = d })

  -- `false` is the -1.
  unfoldable pub fflush : Device S → Stream S → Bool × Stream S
  unfolding flushed minus
  fflush dev s =
      if s.buf_mode.unbuffered || (s.buf_mode.rdonly || was_read s.prev_op)
      then (true, s)
      else if s.start == s.pos
      then (true, s)
      else flushed (dev.write s.device (bytes_at s.buffer 0 (minus s.pos s.start))) s

  -- The buffer of a stream is allocated by the first operation that needs it; `heap` says what memory
  -- there is, `none` for a failure.
  unfoldable pub allocate : Option (List ℕ) → Stream S → Bool × Stream S
  allocate heap s =
      if s.buf_mode.internal && not s.buf_mode.allocated
      then (elim heap [
        | none ↦ (false, record s { errno = Errno.enomem })
        | some block ↦
            (true, record s { buffer = block; buf_mode = record s.buf_mode { allocated = true } })
      ])
      else (true, s)
