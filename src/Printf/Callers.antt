-- ===== src/Printf/Callers.antt =====
-- The functions that print to a growing buffer and hand it on (src/stdio/printf.c): `wlibc_vfprintf`,
-- `wlibc_vdprintf`, `wlibc_vasprintf` and `wlibc_vasnprintf`, with a format, a stream and a place for the
-- result that are not NULL. `buffer.bytes` is `[]` for a buffer whose `data` is NULL.
pub mod Output
use windows_libc.Common.{
  ℕ, zero, suc, ◌+◌, ◌-◌, ◌*◌, ◌/◌, ◌%◌, ◌^◌, ◌≤◌, ◌<◌, min, max, bit_and, bit_or, bit_xor, ◌≡◌,
  refl, sym, ap, ◌∙◌, ◌≢◌, ◌↔◌, ◌⊎◌, inl, inr, Bool, true, false, ◌&&◌, ◌||◌, not, Option, none,
  some, List, [], ◌∷◌, ◌++◌, map, append-nil, append_assoc, reverse, reverse_snoc, length-reverse,
  arith, ltb, leb, ◌==◌, if◌then◌else◌, Bool-cases, Option-cases, List-cases, length, get_elem?,
  set, get_or, take, drop, replicate, length-append, length-set, length-take, length-drop,
  length-replicate, take-append, drop-append, take-take-append, take-set, drop-cons, drop-nil,
  get_elem?-set_self, get_elem?-set_ne, ==_iff, &&_true, ltb→lt, lt→ltb, leb→le, u8, u16, u32, u64,
}
use windows_libc.Common.Int.{ℤ}
use windows_libc.Common.Errno.{Errno}
use windows_libc.Buffer.{Buffer, memory_buffer_write}
use windows_libc.FdTable.{FdState, fd_entry}
use windows_libc.Stdio.{Device, Stream}
use windows_libc.Stdio.Write.{fwrite}
use windows_libc.Printf.Format.{
  PrintState, Answer, answered, undefined, unfinished, printf_internal,
}

-- `(buffer_t){.write = memory_buffer_write}`.
abbrev pub empty_buffer : Buffer
empty_buffer = record { bytes = []; pos = 0; size = 0; error = false }

-- `wlibc_fwrite` of single bytes, of a buffer that may be NULL.
unfoldable pub fwrite_bytes :
    {S : Type 0} → Device S → Option (List ℕ) → Bool → List ℕ → ℕ → Stream S → Option (ℕ × Stream S)
fwrite_bytes dev heap appends [] count s = some (0, record s { errno = Errno.einval })
fwrite_bytes dev heap appends (b ∷ bs) count s =
    if count == 0 then some (0, s) else fwrite dev heap appends (take count (b ∷ bs)) 1 s

abbrev pub reported : {S : Type 0} → Option ℕ → Option (ℕ × Stream S) → Option (Option ℕ × Stream S)
reported r none = none
reported r (some (n, s)) = some (if n == 0 then none else r, s)

abbrev pub to_stream :
    {S : Type 0}
    → Device S
    → Option (List ℕ)
    → Bool
    → Stream S
    → Answer
    → Option (Option ℕ × Stream S)
to_stream dev heap appends s (answered r t) =
    reported r (fwrite_bytes dev heap appends t.buffer.bytes t.buffer.pos s)
to_stream dev heap appends s undefined = none
to_stream dev heap appends s unfinished = none

-- The answer of `write`, where `none` is its -1.
abbrev pub to_device : {S : Type 0} → Device S → S → Answer → Option (Option ℕ × S)
to_device dev d (answered r t) =
    let (n, d') = dev.write d (take t.buffer.pos t.buffer.bytes) in
    some (elim n [ none ↦ none | some k ↦ r ], d')
to_device dev d undefined = none
to_device dev d unfinished = none

-- An `int` as a `size_t`.
abbrev pub to_size_t : Option ℕ → ℕ
to_size_t none = 2 ^ 64 - 1
to_size_t (some n) = if ltb n (2 ^ 31) then n else 2 ^ 64 - 2 ^ 32 + n

-- The end of `wlibc_vasnprintf`: the bytes behind the pointer that it returns, and `*size`. The buffer of the
-- caller is zeroed and filled if the size of the new one is at most the count; `none` is a
-- write behind it.
abbrev pub to_array : List ℕ → Answer → Option (List ℕ × ℕ)
to_array bytes (answered r t) =
    let n = to_size_t r in
    let size = t.buffer.size in
    if leb size n
    then (if ltb (length bytes) n
        then none
        else some (take size t.buffer.bytes ++ (replicate (n - size) 0 ++ drop n bytes), size))
    else some (t.buffer.bytes, size)
to_array bytes undefined = none
to_array bytes unfinished = none

abbrev pub to_pointer : Answer → Option (Option ℕ × List ℕ)
to_pointer (answered r t) = some (r, t.buffer.bytes)
to_pointer undefined = none
to_pointer unfinished = none

module _ (alloc : ℕ → Bool) (float_hex : Bool → ℕ → List ℕ) (text_at : ℕ → ℕ → List ℕ)
    (source : ℕ → ℕ) where
  -- `wlibc_printf_internal(&out, format, args)`.
  unfoldable pub print_out : List ℕ → Answer
  unfolding printf_internal
  print_out format =
      printf_internal (some (memory_buffer_write alloc)) float_hex text_at alloc source format
        empty_buffer

  unfoldable pub vfprintf :
      {S : Type 0}
      → Device S
      → Option (List ℕ)
      → Bool
      → Stream S
      → List ℕ
      → Option (Option ℕ × Stream S)
  vfprintf dev heap appends s format = to_stream dev heap appends s (print_out format)

  -- With the errno that the function sets itself.
  unfoldable pub vdprintf :
      {S : Type 0} → Device S → FdState → ℤ → S → Errno → List ℕ → Option (Option ℕ × S) × Errno
  vdprintf dev table fd d e format = elim (fd_entry table fd) [
    | none ↦ (some (none, d), Errno.ebadf)
    | some info ↦ (to_device dev d (print_out format), e)
  ]

  unfoldable pub vasprintf : List ℕ → Option (Option ℕ × List ℕ)
  vasprintf format = to_pointer (print_out format)

  unfoldable pub vasnprintf : List ℕ → List ℕ → Option (List ℕ × ℕ)
  vasnprintf bytes format = to_array bytes (print_out format)
