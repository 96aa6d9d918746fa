-- ===== src/Convert/Decimal/Signed.antt =====
-- Signed decimal numbers (`int_to_dec_common`, `int_from_dec_common`).
use windows_libc.Common.{
  ℕ, suc, ◌+◌, ◌-◌, ◌/◌, ◌%◌, ◌^◌, ◌≤◌, ◌<◌, bit_and, ◌≡◌, refl, inl, inr, Bool, true, false,
  Option, some, List, ◌∷◌, arith, leb, ◌==◌, Bool-cases, length, leb→le, u64,
}
use mathlib.Core.Path.{subst}
use windows_libc.Buffer.{Buffer, peekbyte, readbyte}
use windows_libc.Buffer.View.{peekbyte-get_or, readbyte-Reads}
use windows_libc.Convert.Radix.{read_rounds}
use windows_libc.Convert.Decimal.{
  groups, is_digit, add_digit, subtract_digit, behind, int64_min_text, from_dec_loop, initial,
  uint_to_dec, int_to_dec, int_from_dec,
}
use windows_libc.Convert.Decimal.Scan.{scan}
use windows_libc.Convert.Decimal.RoundTrip.{
  Stops, DigitsRead, ReadsBack, to_dec_loop-DigitsRead, add_digit_law, peek_first, loop_scan,
  scan_stop,
}

-- The pattern of `-y`.
abbrev negate : ℕ → ℕ
negate y = u64 (2 ^ 64 - y)

subtract_digit_law : (y : ℕ) → y < 2 ^ 64 → subtract_digit (negate (y / 10)) (y % 10) ≡ negate y
unfolding subtract_digit
subtract_digit_law y h = omega arith

-- A sign before digits that the loop `next` reads.
sign_read :
    {next : ℕ → ℕ → ℕ} {value flags most : ℕ} {o : Option (List ℕ)} (sign : ℕ)
    → DigitsRead next value flags most o
    → ((b : Buffer)
        → peekbyte b 0 ≡ sign
        → int_from_dec b flags
          ≡ from_dec_loop next (read_rounds (readbyte b).1) (initial flags) (readbyte b).1 0 1)
    → ReadsBack (λ b. int_from_dec b flags) value (suc most) (behind sign o)
sign_read {flags} sign d starts = record {
  out = sign ∷ d.out;
  written = rw d.written;
  bounded = omega (arith, d.bounded);
  read = λ b rest r stops.
      let all : length d.out + 1 ≡ suc (length d.out) = omega arith in
      rw (starts b (peekbyte-get_or 0 r))
        (rw all at (d.read rest (readbyte b).1 1 (omega arith) (readbyte-Reads r).1 stops));
}

minus_starts :
    (b : Buffer) (flags : ℕ)
    → peekbyte b 0 ≡ b'-'
    → int_from_dec b flags
      ≡ from_dec_loop subtract_digit (read_rounds (readbyte b).1) (initial flags) (readbyte b).1 0 1
unfolding int_from_dec
minus_starts b flags e = simp e

plus_starts :
    (b : Buffer) (flags : ℕ)
    → peekbyte b 0 ≡ b'+'
    → int_from_dec b flags
      ≡ from_dec_loop add_digit (read_rounds (readbyte b).1) (initial flags) (readbyte b).1 0 1
unfolding int_from_dec
plus_starts b flags e = simp e

digit_starts :
    (b : Buffer) (flags : ℕ)
    → is_digit (peekbyte b 0) ≡ true
    → int_from_dec b flags ≡ from_dec_loop add_digit (read_rounds b) (initial flags) b 0 0
unfolding int_from_dec
digit_starts b flags e = ground arith

-- No sign before the digits.
plain_read :
    {value flags most : ℕ} {o : Option (List ℕ)}
    → DigitsRead add_digit value flags most o
    → ReadsBack (λ b. int_from_dec b flags) value (suc most) o
plain_read {flags} d = record {
  out = d.out;
  written = d.written;
  bounded = omega (arith, d.bounded);
  read = λ b rest r stops.
      let all : length d.out + 0 ≡ length d.out = omega arith in
      let starts : is_digit (peekbyte b 0) ≡ true = rw (peek_first rest d r) d.is_first in
      rw (digit_starts b flags starts) (rw all at (d.read rest b 0 (omega arith) r stops));
}

-- The text that the writer has ready for the least number.
min_scan :
    (on : Bool) (rest : List ℕ)
    → Stops rest
    → scan subtract_digit on
        (b'9' ∷ b'2' ∷ b'2' ∷ b'3' ∷ b'3' ∷ b'7' ∷ b'2' ∷ b'0' ∷ b'3' ∷ b'6' ∷ b'8' ∷ b'5' ∷ b'4'
          ∷ b'7' ∷ b'7' ∷ b'5' ∷ b'8' ∷ b'0' ∷ b'8' ∷ rest)
        false
        0
        0
        1
      ≡ record { count = 20; value = 2 ^ 63; rest = rest }
min_scan on rest stops =
    unfold scan subtract_digit in scan_stop subtract_digit on rest false 19 (2 ^ 63) 20 stops

min_read :
    (flags : ℕ)
    → flags < 2 ^ 8
    → ReadsBack (λ b. int_from_dec b flags) (2 ^ 63) 27 (some int64_min_text)
min_read flags f = record {
  out = int64_min_text;
  written = refl;
  bounded = omega arith;
  read = λ b rest r stops.
      let after = (readbyte-Reads r).1 in
      rw (minus_starts b flags (peekbyte-get_or 0 r)) (
        rw (min_scan (groups flags) rest stops) at
          (loop_scan subtract_digit flags _ (readbyte b).1 1 f after));
}

negative_read :
    (x flags : ℕ)
    → x < 2 ^ 64
    → 2 ^ 63 ≤ x
    → flags < 2 ^ 8
    → ReadsBack (λ b. int_from_dec b flags) x 27 (behind b'-' (uint_to_dec (negate x) flags))
unfolding uint_to_dec
negative_read x flags h n f =
    let y = negate x in
    let back : negate y ≡ x = omega arith in
    let d =
      to_dec_loop-DigitsRead subtract_digit negate y flags subtract_digit_law refl (omega arith)
        f in
    subst (λ v. ReadsBack (λ b. int_from_dec b flags) v 27 (behind b'-' (uint_to_dec y flags))) back
      (sign_read b'-' d (λ b e. minus_starts b flags e))

plus_read :
    (x flags : ℕ)
    → x < 2 ^ 64
    → flags < 2 ^ 8
    → ReadsBack (λ b. int_from_dec b flags) x 27 (behind b'+' (uint_to_dec x flags))
unfolding uint_to_dec
plus_read x flags h f =
    sign_read b'+' (to_dec_loop-DigitsRead add_digit (λ y. y) x flags add_digit_law refl h f)
      (λ b e. plus_starts b flags e)

unsigned_read :
    (x flags : ℕ)
    → x < 2 ^ 64
    → flags < 2 ^ 8
    → ReadsBack (λ b. int_from_dec b flags) x 27 (uint_to_dec x flags)
unfolding uint_to_dec
unsigned_read x flags h f =
    plain_read (to_dec_loop-DigitsRead add_digit (λ y. y) x flags add_digit_law refl h f)

-- The decimal form of every `intmax_t`, given by its bit pattern, has at most 27 bytes, the sign and
-- the commas included, and `int_from_dec_common` with the same flags (of 8 bits) reads the number
-- and the count of its bytes back from it, before any text that does not go on with a digit or a
-- comma, and stops behind it. The least number, negative numbers and a forced sign are included.
pub int_to_dec-ReadsBack :
    (x flags : ℕ)
    → x < 2 ^ 64
    → flags < 2 ^ 8
    → ReadsBack (λ b. int_from_dec b flags) x 27 (int_to_dec x flags)
unfolding int_to_dec
int_to_dec-ReadsBack x flags h f = elim (Bool-cases (x == 2 ^ 63)) [
  | inl least ↦ let e : x ≡ 2 ^ 63 = ground arith in rw e (min_read flags f)
  | inr more ↦ elim (Bool-cases (leb (2 ^ 63) x)) [
    | inl negative ↦ simp (more, negative) (negative_read x flags h (leb→le _ _ negative) f)
    | inr positive ↦ elim (Bool-cases (bit_and flags 0x10 == 0)) [
      | inl plain ↦ simp (more, positive, plain) (unsigned_read x flags h f)
      | inr forced ↦ simp (more, positive, forced) (plus_read x flags h f)
    ]
  ]
]
