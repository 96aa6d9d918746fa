-- ===== src/Stdio/Write/Refine.antt =====
-- `common_fwrite` on a buffered stream as an append to the bytes that go to the descriptor.
use windows_libc.Common.{
  ℕ, ◌+◌, ◌*◌, ◌/◌, ◌<◌, ◌^◌, arith, ◌≡◌, refl, ap, ◌∙◌, ◌≢◌, Bool, true, false, Option, some, List,
  ◌++◌, length,
}
use native.Mathlib.Nat.{mul-div_cancel_left}
use windows_libc.Stdio.{BufMode, Device, Stream, StreamError, io_error, op_write, was_write}
use windows_libc.Stdio.Write.{start_writing, open_window, buffered, items, buffered_write, fwrite}
use windows_libc.Stdio.Read.Ahead.{HasWindow}
use windows_libc.Stdio.Read.Refine.{allocate_kept}
use windows_libc.Stdio.Write.Loops.{Writes, Fresh, output}
use windows_libc.Stdio.Write.Window.{buffered-Took}
use windows_libc.Stdio.Write.Begin.{
  start_writing-Begun, start_writing_mode, open_window_size, start_writing_size,
}

pub fwrite_of_buffer :
    {S : Type 0} (dev : Device S) (heap : Option (List ℕ)) (appends : Bool) (bytes : List ℕ)
    (size : ℕ) (s : Stream S) (e : StreamError)
    → s.error ≡ e
    → e ≢ io_error
    → s.buf_mode.rdonly ≡ false
    → s.buf_mode.unbuffered ≡ false
    → s.buf_mode.allocated ≡ true
    → let v = record (start_writing dev appends s) { prev_op = op_write } in
      fwrite dev heap appends bytes size s ≡ items size (buffered dev bytes (open_window v))
unfolding fwrite
fwrite_of_buffer dev heap appends bytes size s io_error e fine writable kind block =
    absurd (fine refl)
fwrite_of_buffer dev heap appends bytes size s other e fine writable kind block =
    simp (fwrite, e, writable, kind)
      (ap (buffered_write dev bytes size) (
          allocate_kept heap _
            (ap (λ (m : BufMode). m.allocated) (start_writing_mode dev appends s) ∙ block))
        ∙ unfold buffered_write in refl)

-- `common_fwrite` of `count` items of one byte or more on a buffered stream that can be written,
-- met no error and has its buffer, over a descriptor that writes without errors, where the stream
-- was not written to last, or its window is empty or the whole buffer, or the bytes fit into its
-- window, and the position at which the write starts, the bytes and a buffer together stay below
-- 2 ^ 64, which excludes an append whose seek fails: it returns `count`, the bytes follow all those
-- that the descriptor got or will get, the window is proper, and the position is moved by the bytes
-- from where the write starts, the end of the file if it starts to append.
pub fwrite-Took :
    {S : Type 0} (dev : Device S) (written : S → List ℕ) (law : Writes dev written)
    (heap : Option (List ℕ)) (appends : Bool) (bytes : List ℕ) (size count : ℕ) (s : Stream S)
    → HasWindow s
    → s.error ≢ io_error
    → s.buf_mode.rdonly ≡ false
    → s.buf_mode.unbuffered ≡ false
    → s.buf_mode.allocated ≡ true
    → (was_write s.prev_op ≡ true → Fresh bytes s)
    → (start_writing dev appends s).pos + length bytes + s.buf_size < 2 ^ 64
    → 0 < size
    → length bytes ≡ size * count
    → (s' : Stream S) × (fwrite dev heap appends bytes size s ≡ some (count, s'))
      × HasWindow s'
      × (output written s' ≡ output written s ++ bytes)
      × (s'.pos ≡ (start_writing dev appends s).pos + length bytes)
fwrite-Took dev written law heap appends bytes size count s w fine writable kind block fresh low
      positive whole =
    let (begun, place) =
      start_writing-Begun dev written law bytes appends s w block fresh (omega (arith, low)) in
    let v = record (start_writing dev appends s) { prev_op = op_write } in
    let (s', returned, took) =
      buffered-Took dev written law bytes (open_window v) begun.window begun.writing begun.fresh
        (omega (arith, low, place, open_window_size v, start_writing_size dev appends s)) in
    let all : length bytes / size ≡ count =
      ap (λ n. n / size) whole ∙ mul-div_cancel_left count positive in
    (
      s',
      fwrite_of_buffer dev heap appends bytes size s s.error refl fine writable kind block
          ∙ rw returned (unfold items in ap (λ n. some (n, s')) all),
      took.window,
      took.put ∙ ap (λ ys. ys ++ bytes) begun.kept,
      took.moved ∙ ap (λ p. p + length bytes) place,
    )
