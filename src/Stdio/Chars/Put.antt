-- ===== src/Stdio/Chars/Put.antt =====
-- `common_fputc` as an append of one byte to the output of a stream.
use windows_libc.Common.{
  ℕ, suc, ◌+◌, ◌-◌, ◌<◌, ◌^◌, u64, u64_of_lt, ◌≡◌, refl, sym, ap, ◌∙◌, ◌≢◌, inl, inr, Bool, true,
  false, ◌&&◌, not, Option, some, List, [], ◌∷◌, ◌++◌, append_assoc, arith, ◌==◌, Bool-cases, set,
  length-set, take-set, &&_true,
}
use windows_libc.Common.Int.{ℤ}
use windows_libc.Stdio.{Device, Stream, io_error, minus, minus_of_le, was_write}
use windows_libc.Stdio.Write.{fwrite, start_writing}
use windows_libc.Stdio.Write.Loops.{Writes, Fresh, output}
use windows_libc.Stdio.Write.Begin.{start_writing_on}
use windows_libc.Stdio.Write.Refine.{fwrite-Took}
use windows_libc.Stdio.Read.Ahead.{HasWindow}
use windows_libc.Stdio.Chars.{to_byte, put_char, fputc}

module _ {S : Type 0} (dev : Device S) (heap : Option (List ℕ)) (appends : Bool) (ch : ℤ) where
  -- The test of `fputc` for room in the buffer.
  abbrev has_room : Stream S → Bool
  has_room s =
      not s.buf_mode.unbuffered
      && (was_write s.prev_op && (not (s.start == s.end) && not (s.pos == s.end)))

  fputc_held :
      (s : Stream S)
      → has_room s ≡ true
      → fputc dev heap appends ch s
        ≡ some (
          ch,
          record s {
            pos = u64 (s.pos + 1);
            buffer = set s.buffer (minus s.pos s.start) (to_byte ch);
          },
        )
  unfolding fputc
  fputc_held s held = rw held refl

  fputc_through :
      (s : Stream S)
      → has_room s ≡ false
      → fputc dev heap appends ch s ≡ put_char ch (fwrite dev heap appends (to_byte ch ∷ []) 1 s)
  unfolding fputc
  fputc_through s held = rw held refl

-- `common_fputc` on a buffered stream that can be written, met no error and has its buffer, over a
-- descriptor that writes without errors, where the stream was not written to last, or its window is
-- empty or the whole buffer, or has room for the byte, and the position at which the write starts, one
-- byte and a buffer together stay below 2 ^ 64: it gives the character back, and the output grows
-- by its byte.
pub fputc-Put :
    {S : Type 0} (dev : Device S) (written : S → List ℕ) (law : Writes dev written)
    (heap : Option (List ℕ)) (appends : Bool) (ch : ℤ) (s : Stream S)
    → HasWindow s
    → s.error ≢ io_error
    → s.buf_mode.rdonly ≡ false
    → s.buf_mode.unbuffered ≡ false
    → s.buf_mode.allocated ≡ true
    → (was_write s.prev_op ≡ true → Fresh (to_byte ch ∷ []) s)
    → (start_writing dev appends s).pos + 1 + s.buf_size < 2 ^ 64
    → (s' : Stream S) × (fputc dev heap appends ch s ≡ some (ch, s'))
      × HasWindow s'
      × (output written s' ≡ output written s ++ (to_byte ch ∷ []))
fputc-Put dev written law heap appends ch s w fine writable kind block fresh low =
    elim (Bool-cases (has_room dev heap appends ch s)) [
      | inr full ↦
          let (s', returned, w', put, moved) =
            fwrite-Took dev written law heap appends (to_byte ch ∷ []) 1 1 s w fine writable kind
              block fresh low (omega arith) (omega arith) in
          (s', fputc_through dev heap appends ch s full ∙ ap (put_char ch) returned, w', put)
      | inl held ↦
          let on : was_write s.prev_op ≡ true = (&&_true _ _ ((&&_true _ _ held).1)).0 in
          let below : s.pos < s.end = ground (arith, w.to_end) in
          let within : s.pos + 1 < 2 ^ 64 =
            omega (arith, rw (start_writing_on dev written law appends s on) at low) in
          let i = s.pos - s.start in
          let place : minus s.pos s.start ≡ i = minus_of_le s.pos s.start w.from_start in
          let count : s.pos + 1 - s.start ≡ suc i = omega (arith, w.from_start) in
          (
            record s { pos = s.pos + 1; buffer = set s.buffer i (to_byte ch) },
            fputc_held dev heap appends ch s held ∙ rw (place, u64_of_lt (s.pos + 1) within) refl,
            record {
              room = w.room;
              whole = length-set s.buffer i (to_byte ch) ∙ w.whole;
              from_start = omega (arith, w.from_start);
              to_end = omega (arith, below);
              held = w.held;
            },
            rw (on, count)
                (ap (λ ys. written s.device ++ ys)
                    (take-set s.buffer i (to_byte ch)
                      (omega (arith, w.whole, w.held, w.from_start, below)))
                  ∙ sym (append_assoc (written s.device) _ (to_byte ch ∷ []))),
          )
    ]
