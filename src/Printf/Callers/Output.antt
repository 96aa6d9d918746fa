-- ===== src/Printf/Callers/Output.antt =====
-- What `wlibc_vfprintf` (src/stdio/printf.c) puts on a stream (src/stdio/fwrite.c).
use windows_libc.Common.{
  ℕ, ◌+◌, ◌^◌, ◌<◌, ◌≡◌, refl, ◌≢◌, Bool, true, false, Option, none, some, List, [], ◌∷◌, ◌++◌,
  arith, ◌==◌, length, take, length-take, u32,
}
use windows_libc.Common.Errno.{Errno}
use windows_libc.Buffer.Write.{content}
use windows_libc.Stdio.{Device, Stream, io_error, was_write}
use windows_libc.Stdio.Read.Ahead.{HasWindow}
use windows_libc.Stdio.Write.{fwrite, start_writing}
use windows_libc.Stdio.Write.Loops.{Writes, Fresh, output}
use windows_libc.Stdio.Write.Refine.{fwrite-Took}
use windows_libc.Printf.Format.{PrintState, answered}
use windows_libc.Printf.Format.Counts.{printf_internal_counted}
use windows_libc.Printf.Callers.{fwrite_bytes, print_out, vfprintf}

-- The guards of `wlibc_fwrite`.
fwrite_no_bytes :
    {S : Type 0} (dev : Device S) (heap : Option (List ℕ)) (appends : Bool) (bytes : List ℕ)
    (count : ℕ) (s : Stream S)
    → count ≡ 0
    → (s' : Stream S) × (fwrite_bytes dev heap appends bytes count s ≡ some (0, s'))
      × (s'.device ≡ s.device)
      × (s'.buffer ≡ s.buffer)
unfolding fwrite_bytes
fwrite_no_bytes dev heap appends [] count s z =
    (record s { errno = Errno.einval }, refl, refl, refl)
fwrite_no_bytes dev heap appends (b ∷ bs) count s z =
    let e : (count == 0) ≡ true = ground (arith, z) in (s, rw e refl, refl, refl)

fwrite_some_bytes :
    {S : Type 0} (dev : Device S) (heap : Option (List ℕ)) (appends : Bool) (bytes : List ℕ)
    (count : ℕ) (s : Stream S)
    → 0 < count
    → 0 < length bytes
    → fwrite_bytes dev heap appends bytes count s ≡ fwrite dev heap appends (take count bytes) 1 s
unfolding fwrite_bytes
fwrite_some_bytes dev heap appends [] count s h l = absurd (omega arith)
fwrite_some_bytes dev heap appends (b ∷ bs) count s h l =
    let e : (count == 0) ≡ false = ground arith in rw e refl

module _ (alloc : ℕ → Bool) (float_hex : Bool → ℕ → List ℕ) (text_at : ℕ → ℕ → List ℕ)
    (source : ℕ → ℕ) {S : Type 0} (dev : Device S) (heap : Option (List ℕ)) (appends : Bool)
    (format : List ℕ) (s : Stream S) where
  -- Where the format puts nothing in the buffer, `wlibc_vfprintf` answers -1, and the device and the buffer of the stream are
  -- as before.
  pub vfprintf_nothing :
      (r : Option ℕ) (t : PrintState)
      → print_out alloc float_hex text_at source format ≡ answered r t
      → t.buffer.pos ≡ 0
      → (s' : Stream S) × (vfprintf alloc float_hex text_at source dev heap appends s format
          ≡ some (none, s'))
        × (s'.device ≡ s.device)
        × (s'.buffer ≡ s.buffer)
  unfolding vfprintf
  vfprintf_nothing r t printed nothing_there =
      let (s', wrote, same_device, same_buffer) =
        fwrite_no_bytes dev heap appends t.buffer.bytes t.buffer.pos s nothing_there in
      (s', rw (printed, wrote) refl, same_device, same_buffer)

  -- Where `wlibc_printf_internal` answers `n` and has put at least one byte and fewer than 2 ^ 62 in a buffer without
  -- error, `realloc` to no bytes giving NULL, and the stream is buffered, can be written, met no error and
  -- has its buffer, over a descriptor that writes without errors, and it was not written to last, or its
  -- window is empty or the whole buffer, or the bytes fit into the window, and the position at which the write
  -- starts, the bytes and a buffer together stay below 2 ^ 64: `wlibc_vfprintf` answers `n`, these bytes
  -- and no others follow all those that the descriptor got or will get, `n` is their number cut to 32 bits, and the
  -- stream keeps a proper window.
  pub vfprintf-Took :
      (frees : alloc 0 ≡ false) (written : S → List ℕ) (law : Writes dev written) (n : ℕ)
      (t : PrintState)
      → print_out alloc float_hex text_at source format ≡ answered (some n) t
      → t.buffer.error ≡ false
      → 0 < t.buffer.pos
      → t.buffer.pos < 2 ^ 62
      → HasWindow s
      → s.error ≢ io_error
      → s.buf_mode.rdonly ≡ false
      → s.buf_mode.unbuffered ≡ false
      → s.buf_mode.allocated ≡ true
      → (was_write s.prev_op ≡ true → Fresh (content t.buffer) s)
      → (start_writing dev appends s).pos + length (content t.buffer) + s.buf_size < 2 ^ 64
      → (s' : Stream S) × (vfprintf alloc float_hex text_at source dev heap appends s format
          ≡ some (some n, s'))
        × HasWindow s'
        × (output written s' ≡ output written s ++ content t.buffer)
        × (n ≡ u32 (length (content t.buffer)))
  unfolding vfprintf
  vfprintf-Took frees written law n t printed fine some_bytes few w e writable kind block fresh
        low =
      let (v, count) =
        printf_internal_counted alloc frees float_hex text_at source format n t
          (unfold print_out in printed) fine few in
      let taken : length (content t.buffer) ≡ t.buffer.pos =
        omega (arith, length-take t.buffer.pos t.buffer.bytes, v.whole, v.within) in
      let (s', wrote, window, put_out, moved) =
        fwrite-Took dev written law heap appends (content t.buffer) 1 t.buffer.pos s w e writable
          kind block fresh low (omega arith) (omega (arith, taken)) in
      let some_count : (t.buffer.pos == 0) ≡ false = ground arith in
      let whole =
        fwrite_some_bytes dev heap appends t.buffer.bytes t.buffer.pos s some_bytes
          (omega (arith, v.whole, v.within)) in
      (
        s',
        rw (printed, whole, wrote, some_count) refl,
        window,
        put_out,
        omega (arith, count, taken),
      )
