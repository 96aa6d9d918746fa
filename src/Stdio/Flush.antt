-- ===== src/Stdio/Flush.antt =====
-- `common_fflush` of a stream that was written to last, and `common_fwrite` behind it.
use windows_libc.Common.{
  ℕ, ◌+◌, ◌-◌, ◌*◌, ◌/◌, ◌<◌, ◌^◌, ◌≡◌, refl, sym, ap, ◌∙◌, ◌≢◌, inl, inr, Bool, true, false,
  Option, some, List, ◌++◌, append-nil, arith, ◌==◌, Bool-cases, length, take, drop,
}
use native.Mathlib.Nat.{mul-div_cancel_left}
use windows_libc.Stdio.{
  Device, Stream, io_error, Operation, op_write, minus, minus_of_le, bytes_at, was_read, was_write,
  flushed, fflush,
}
use windows_libc.Stdio.Write.{items, buffered, open_window, fwrite}
use windows_libc.Stdio.Write.Loops.{Writes, output}
use windows_libc.Stdio.Write.Window.{full-Took}
use windows_libc.Stdio.Write.Begin.{start_writing_on, open_window_kept}
use windows_libc.Stdio.Write.Refine.{fwrite_of_buffer}
use windows_libc.Stdio.Read.Ahead.{HasWindow}

written_not_read : (o : Operation) → was_write o ≡ true → was_read o ≡ false
written_not_read op_write e = refl
written_not_read other e = absurd (cc)

-- `common_fflush` of a buffered stream that was written to last, over a descriptor that writes without
-- errors: it succeeds, the descriptor has got all the output, and only `start` moved, to the position.
pub fflush-Written :
    {S : Type 0} (dev : Device S) (written : S → List ℕ) (law : Writes dev written) (s : Stream S)
    → HasWindow s
    → was_write s.prev_op ≡ true
    → s.buf_mode.rdonly ≡ false
    → s.buf_mode.unbuffered ≡ false
    → (d : S) × (fflush dev s ≡ (true, record s { start = s.pos; device = d }))
      × (written d ≡ output written s)
unfolding fflush flushed
fflush-Written dev written law s w on writable kind =
    let other = written_not_read s.prev_op on in
    elim (Bool-cases (s.start == s.pos)) [
      | inl nothing ↦
          let none_pending : s.pos - s.start ≡ 0 = ground arith in
          let same : s.start ≡ s.pos = ground arith in
          (
            s.device,
            simp (kind, writable, other, nothing) (ap (λ p. (true, record s { start = p })) same),
            rw (on, none_pending) (sym (append-nil (written s.device))),
          )
      | inr some_pending ↦
          let count : minus s.pos s.start ≡ s.pos - s.start = minus_of_le _ _ w.from_start in
          let block = bytes_at s.buffer 0 (s.pos - s.start) in
          let d = (dev.write s.device block).1 in
          (
            d,
            simp (kind, writable, other, some_pending, count)
                (ap (λ o. flushed (o, d) s) (law.takes_all s.device block)),
            rw on (law.puts s.device block),
          )
    ]

-- `common_fwrite` on a buffered stream that can be written, met no error, has its buffer and was
-- written to last, over a descriptor that writes without errors, of items of one byte or more,
-- whose bytes are more than are left of a window that is not empty and is shorter than the buffer,
-- which is what a flush leaves, the position, the bytes and a buffer together staying below 2 ^ 64: it returns `count`, but the end of the buffer, which holds no bytes
-- of the output, is written to the descriptor between the bytes that filled the window and those
-- behind them.
pub fwrite_stale :
    {S : Type 0} (dev : Device S) (written : S → List ℕ) (law : Writes dev written)
    (heap : Option (List ℕ)) (appends : Bool) (bytes : List ℕ) (size count : ℕ) (s : Stream S)
    → HasWindow s
    → s.error ≢ io_error
    → s.buf_mode.rdonly ≡ false
    → s.buf_mode.unbuffered ≡ false
    → s.buf_mode.allocated ≡ true
    → was_write s.prev_op ≡ true
    → s.start < s.end
    → s.end < s.start + s.buf_size
    → s.end - s.pos < length bytes
    → s.pos + length bytes + s.buf_size < 2 ^ 64
    → 0 < size
    → length bytes ≡ size * count
    → (s' : Stream S) × (fwrite dev heap appends bytes size s ≡ some (count, s'))
      × (output written s'
          ≡ output written s
            ++ (take (s.end - s.pos) bytes
                ++ (drop (s.end - s.start) s.buffer ++ drop (s.end - s.pos) bytes)))
fwrite_stale {S = S} dev written law heap appends bytes size count s w fine writable kind block on
      some_window short more low positive whole =
    let v = record s { prev_op = op_write } in
    let w' : HasWindow v = record {
      room = w.room;
      whole = w.whole;
      from_start = w.from_start;
      to_end = w.to_end;
      held = w.held;
    } in
    let (s', returned, took) =
      full-Took dev written law bytes v w' refl more (omega (arith, w.from_start)) low in
    let all : length bytes / size ≡ count =
      ap (λ n. n / size) whole ∙ mul-div_cancel_left count positive in
    let same =
      ap (λ (u : Stream S). record u { prev_op = op_write })
        (start_writing_on dev written law appends s on) in
    (
      s',
      fwrite_of_buffer dev heap appends bytes size s s.error refl fine writable kind block
          ∙ ap (λ u. items size (buffered dev bytes u))
              (ap open_window same ∙ open_window_kept dev written law v (ground arith))
          ∙ rw returned (unfold items in ap (λ n. some (n, s')) all),
      took.put ∙ rw on refl,
    )
