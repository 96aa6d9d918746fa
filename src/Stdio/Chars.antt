-- ===== src/Stdio/Chars.antt =====
-- The operations on single characters, lines and the flags of a stream: `common_fgetc`, `common_ungetc`,
-- `common_fputc`, `common_fputs`, `common_fgets`, `common_feof`, `common_ferror` and
-- `common_clearerr` of src/stdio. A `char` is signed, so a byte above 127 is a negative number.
pub mod Refine
pub mod Lines
pub mod Pushed
pub mod Put
use windows_libc.Common.{
  ℕ, zero, suc, ◌+◌, ◌-◌, ◌*◌, ◌/◌, ◌%◌, ◌^◌, ◌≤◌, ◌<◌, min, max, bit_and, bit_or, bit_xor, ◌≡◌,
  refl, sym, ap, ◌∙◌, ◌≢◌, ◌↔◌, ◌⊎◌, inl, inr, Bool, true, false, ◌&&◌, ◌||◌, not, Option, none,
  some, List, [], ◌∷◌, ◌++◌, map, append-nil, append_assoc, reverse, reverse_snoc, length-reverse,
  arith, ltb, leb, ◌==◌, if◌then◌else◌, Bool-cases, Option-cases, List-cases, length, get_elem?,
  set, get_or, take, drop, replicate, length-append, length-set, length-take, length-drop,
  length-replicate, take-append, drop-append, take-take-append, take-set, drop-cons, drop-nil,
  get_elem?-set_self, get_elem?-set_ne, ==_iff, &&_true, ltb→lt, lt→ltb, leb→le, u8, u16, u32, u64,
}
use windows_libc.Common.Int.{ℤ, pos, negsuc}
use windows_libc.Stdio.{
  Device, Stream, StreamError, clear, io_eof, io_error, Operation, op_read, op_write, minus,
  overwrite, was_read, was_write,
}
use windows_libc.Stdio.Read.{fread}
use windows_libc.Stdio.Write.{fwrite}

-- The value of a byte as a `char`.
unfoldable pub char_of : ℕ → ℤ
char_of b = if ltb b 128 then pos b else negsuc (255 - b)

abbrev pub eof : ℤ
eof = negsuc 0

-- An `int` that is cut to a `char`.
unfoldable pub to_byte : ℤ → ℕ
to_byte (pos n) = u8 n
to_byte (negsuc n) = 255 - u8 n

unfoldable pub is_eof : ℤ → Bool
is_eof (negsuc zero) = true
is_eof other = false

abbrev pub at_eof : StreamError → Bool
at_eof io_eof = true
at_eof other = false

abbrev pub failed : StreamError → Bool
failed io_error = true
failed other = false

module _ {S : Type 0} where
  -- `_IOEOF` or 0, `_IOERROR` or 0.
  unfoldable pub feof : Stream S → ℕ
  feof s = if at_eof s.error then 1 else 0

  unfoldable pub ferror : Stream S → ℕ
  ferror s = if failed s.error then 2 else 0

  unfoldable pub clearerr : Stream S → Stream S
  clearerr s = record s { error = clear }

  unfoldable pub got_char : ℕ → Option (List ℕ × ℕ × Stream S) → Option (ℤ × Stream S)
  got_char junk none = none
  got_char junk (some (xs, n, s)) =
      some (if at_eof s.error then eof else char_of (get_or xs 0 junk), s)

  -- `junk` is the uninitialised `ch`.
  unfoldable pub fgetc : Device S → Option (List ℕ) → ℕ → Stream S → Option (ℤ × Stream S)
  unfolding got_char
  fgetc dev heap junk s =
      let held =
        not s.buf_mode.unbuffered
        && (was_read s.prev_op && (not (s.start == s.end) && not (s.pos == s.end))) in
      let rest = got_char junk (fread dev heap 1 1 s) in
      if held
      then some (char_of (get_or s.buffer (minus s.pos s.start) junk), record s { pos = s.pos + 1 })
      else rest

  -- `none` is EOF.
  unfoldable pub ungetc : ℤ → Stream S → Option (ℤ × Stream S)
  ungetc ch s =
      if was_read s.prev_op && ltb s.start s.pos
      then some (
        ch,
        record s {
          pos = s.pos - 1;
          buffer = set s.buffer (minus (s.pos - 1) s.start) (to_byte ch);
          error = if at_eof s.error then clear else s.error;
        },
      )
      else none

  abbrev pub put_char : ℤ → Option (ℕ × Stream S) → Option (ℤ × Stream S)
  put_char ch none = none
  put_char ch (some (n, s)) = some (if n == 1 then ch else eof, s)

  unfoldable pub fputc : Device S → Option (List ℕ) → Bool → ℤ → Stream S → Option (ℤ × Stream S)
  fputc dev heap appends ch s =
      let held =
        not s.buf_mode.unbuffered
        && (was_write s.prev_op && (not (s.start == s.end) && not (s.pos == s.end))) in
      let rest = put_char ch (fwrite dev heap appends (to_byte ch ∷ []) 1 s) in
      if held
      then some (
        ch,
        record s {
          pos = u64 (s.pos + 1);
          buffer = set s.buffer (minus s.pos s.start) (to_byte ch);
        },
      )
      else rest

  -- The string is the list of its bytes, without the 0.
  unfoldable pub fputs :
      Device S → Option (List ℕ) → Bool → List ℕ → Stream S → Option (ℕ × Stream S)
  fputs dev heap appends bytes s = fwrite dev heap appends bytes 1 s

  abbrev pub put_before : ℕ → Option (List ℕ × Stream S) → Option (List ℕ × Stream S)
  put_before b none = none
  put_before b (some (bs, s)) = some (b ∷ bs, s)

  -- The loop of `fgets` with `n` bytes of room, and one for the 0 that ends the string.
  unfoldable pub gets : Device S → Option (List ℕ) → ℕ → ℕ → Stream S → Option (List ℕ × Stream S)
  gets dev heap junk zero s = some ([], s)
  gets dev heap junk (suc n) s = elim (fgetc dev heap junk s) [
    | none ↦ none
    | some (ch, s') ↦ elim (is_eof (char_of (to_byte ch))) [
      | true ↦ some ([], s')
      | false ↦ elim (to_byte ch == 10) [
        | true ↦ some (to_byte ch ∷ [], s')
        | false ↦ put_before (to_byte ch) (gets dev heap junk n s')
      ]
    ]
  ]

  -- The string that is put into the caller's buffer.
  unfoldable pub fgets : Device S → Option (List ℕ) → ℕ → ℕ → Stream S → Option (List ℕ × Stream S)
  fgets dev heap junk count s = gets dev heap junk (minus count 1) s
