-- ===== src/Stdio/Chars/Pushed.antt =====
-- `common_ungetc` on the bytes ahead of a stream.
use windows_libc.Common.{
  ℕ, zero, suc, ◌-◌, ◌<◌, ◌≡◌, refl, ◌∙◌, true, false, Option, some, List, [], ◌∷◌, arith, ltb,
  if◌then◌else◌, length, set, drop, length-set, lt→ltb,
}
use windows_libc.Common.Int.{ℤ}
use windows_libc.Stdio.{
  Device, Stream, StreamError, clear, io_eof, io_error, minus, minus_of_le, was_read,
}
use windows_libc.Stdio.Read.Loops.{Reads}
use windows_libc.Stdio.Read.Ahead.{ahead}
use windows_libc.Stdio.Read.Refine.{IsReadable}
use windows_libc.Stdio.Chars.{char_of, to_byte, at_eof, failed, clearerr, fgetc, ungetc}
use windows_libc.Stdio.Chars.Refine.{fgetc-Next}

drop-set : (xs : List ℕ) (i b : ℕ) → i < length xs → drop i (set xs i b) ≡ b ∷ drop (suc i) xs
drop-set [] i b h = absurd (omega arith)
drop-set (x ∷ xs) zero b h = refl
drop-set (x ∷ xs) (suc i) b h = drop-set xs i b (omega arith)

cleared : (e : StreamError) → failed e ≡ false → (if at_eof e then clear else e) ≡ clear
cleared clear ok = refl
cleared io_eof ok = refl
cleared io_error ok = absurd (cc)

module _ {S : Type 0} (left : S → List ℕ) where
  -- `common_ungetc` on a stream that was read last, with a byte of its window behind the position and at
  -- most the end-of-file flag set: it succeeds, clears the flag, and the byte stands before those that were
  -- ahead, in a stream that can be read.
  pub ungetc-Pushed :
      (ch : ℤ) (s : Stream S)
      → IsReadable (clearerr s)
      → failed s.error ≡ false
      → was_read s.prev_op ≡ true
      → s.start < s.pos
      → (s' : Stream S) × (ungetc ch s ≡ some (ch, s'))
        × (ahead left s' ≡ to_byte ch ∷ ahead left s)
        × IsReadable s'
  unfolding ungetc clearerr
  ungetc-Pushed ch s r ok order behind =
      let w = r.window in
      let test : ltb s.start s.pos ≡ true = lt→ltb _ _ behind in
      let i = s.pos - 1 - s.start in
      let place : minus (s.pos - 1) s.start ≡ i = minus_of_le (s.pos - 1) s.start (omega arith) in
      let count : s.end - (s.pos - 1) ≡ suc (s.end - s.pos) = omega (arith, w.to_end) in
      let next : suc i ≡ s.pos - s.start = omega arith in
      let fine : (if at_eof s.error then clear else s.error) ≡ clear = cleared s.error ok in
      let inside : i < length s.buffer = omega (arith, w.whole, w.held, w.to_end) in
      (
        record s { pos = s.pos - 1; buffer = set s.buffer i (to_byte ch); error = clear },
        simp (order, test, place, fine) refl,
        rw (count, drop-set s.buffer i (to_byte ch) inside, next) refl,
        record {
          window = record {
            room = w.room;
            whole = length-set s.buffer i (to_byte ch) ∙ w.whole;
            from_start = omega arith;
            to_end = omega (arith, w.to_end);
            held = w.held;
          };
          fine = refl;
          readable = r.readable;
          kind = r.kind;
          block = r.block;
          order = r.order;
        },
      )

-- `common_ungetc` and then `common_fgetc` on a buffered stream that can be read, was read last, has
-- its buffer with a byte of the window behind the position, and has at most the end-of-file flag
-- set, over a descriptor that reads without errors: both succeed, the second gives the byte of the
-- character back as a `char`, and the bytes ahead are those from before.
pub ungetc-fgetc :
    {S : Type 0} (dev : Device S) (left : S → List ℕ) (law : Reads dev left)
    (heap : Option (List ℕ)) (junk : ℕ) (ch : ℤ) (s : Stream S)
    → IsReadable (clearerr s)
    → failed s.error ≡ false
    → was_read s.prev_op ≡ true
    → s.start < s.pos
    → (s1 s2 : Stream S) × (ungetc ch s ≡ some (ch, s1))
      × (fgetc dev heap junk s1 ≡ some (char_of (to_byte ch), s2))
      × (ahead left s2 ≡ ahead left s)
ungetc-fgetc dev left law heap junk ch s r ok order behind =
    let (s1, pushed, next, r1) = ungetc-Pushed left ch s r ok order behind in
    let (s2, got, rest, r2) =
      fgetc-Next dev left law heap junk (to_byte ch) (ahead left s) s1 r1 next in
    (s1, s2, pushed, got, rest)
