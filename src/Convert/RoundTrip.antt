-- ===== src/Convert/RoundTrip.antt =====
-- The printers and the readers of integers together (src/internal/convert.c).
use windows_libc.Common.{
  ℕ, ◌^◌, ◌≤◌, ◌<◌, ◌≡◌, refl, false, Bool, Option, some, List, ◌++◌, length, drop-append,
}
use windows_libc.Buffer.{Buffer}
use windows_libc.Buffer.View.{Reads}
use windows_libc.Convert.Decimal.{uint_to_dec, uint_from_dec, int_to_dec, int_from_dec}
use windows_libc.Convert.Decimal.RoundTrip as Decimal
use windows_libc.Convert.Decimal.RoundTrip.{uint_to_dec-ReadsBack}
use windows_libc.Convert.Decimal.Signed.{int_to_dec-ReadsBack}
use windows_libc.Convert.Radix.{
  Parsed, hex_nibble, oct_value, bin_value, uint_to_hex, uint_from_hex, uint_to_oct, uint_from_oct,
  uint_to_bin, uint_from_bin,
}
use windows_libc.Convert.Radix.Bases.{
  uint_to_hex-ReadsBack, uint_to_oct-ReadsBack, uint_to_bin-ReadsBack,
}
use windows_libc.Convert.Radix.RoundTrip.{Stops, ReadsBack}
use windows_libc.Convert.Radix.Scan.{Returns}

-- A buffer that stands behind `before` and has `xs` to be read.
abbrev pub standing : List ℕ → List ℕ → Buffer
standing before xs = record {
  bytes = before ++ xs;
  pos = length before;
  size = length (before ++ xs);
  error = false;
}

standing-Reads : (before xs : List ℕ) → Reads (standing before xs) xs
standing-Reads before xs = record {
  no_error = refl;
  whole = refl;
  left = drop-append before xs (length before) refl;
}

-- The printer's outcome `o` is at most `most` bytes, and the reader that meets them between `before`
-- and `rest` returns `x` and their number, and stands at `rest`.
pub record IsReadBack (reader : Buffer → Option Parsed) (x most : ℕ) (before rest : List ℕ)
    (o : Option (List ℕ)) : Type 0 where
  pub out : List ℕ
  pub written : o ≡ some out
  pub bounded : length out ≤ most
  pub read :
      Returns
        (record { count = length out; value = x; rest = rest })
        (reader (standing before (out ++ rest)))

module _ (reader : Buffer → Option Parsed) (x most : ℕ) (before rest : List ℕ)
    (o : Option (List ℕ)) where
  from_radix :
      (digit : ℕ → Option ℕ)
      → ReadsBack digit reader x most o
      → Stops digit rest
      → IsReadBack reader x most before rest o
  from_radix digit r stops = record {
    out = r.out;
    written = r.written;
    bounded = r.bounded;
    read = r.read (standing before (r.out ++ rest)) rest (standing-Reads before _) stops;
  }

  from_decimal :
      Decimal.ReadsBack reader x most o
      → Decimal.Stops rest
      → IsReadBack reader x most before rest o
  from_decimal r stops =
      let q = r.read (standing before (r.out ++ rest)) rest (standing-Reads before _) stops in
      record {
        out = r.out;
        written = r.written;
        bounded = r.bounded;
        read = record { behind = q.behind; returns = q.returns; reads = q.reads };
      }

-- The hexadecimal form of a number of 64 bits, in either case, has at most 16 digits, and
-- `uint_from_hex_common` reads the number and the count of its digits back from it, at any place of a
-- buffer and before any text that does not go on with a hexadecimal digit, and stops behind it.
pub uint_to_hex-IsReadBack :
    (upper : Bool) (x : ℕ) (before rest : List ℕ)
    → x < 2 ^ 64
    → Stops hex_nibble rest
    → IsReadBack uint_from_hex x 16 before rest (uint_to_hex upper x)
uint_to_hex-IsReadBack upper x before rest h stops =
    from_radix uint_from_hex x 16 before rest _ hex_nibble (uint_to_hex-ReadsBack upper x h) stops

-- The octal form of a number of 64 bits has at most 22 digits, and `uint_from_oct_common` reads the
-- number and the count of its digits back from it, at any place of a buffer and before any text that
-- does not go on with an octal digit, and stops behind it.
pub uint_to_oct-IsReadBack :
    (x : ℕ) (before rest : List ℕ)
    → x < 2 ^ 64
    → Stops oct_value rest
    → IsReadBack uint_from_oct x 22 before rest (uint_to_oct x)
uint_to_oct-IsReadBack x before rest h stops =
    from_radix uint_from_oct x 22 before rest _ oct_value (uint_to_oct-ReadsBack x h) stops

-- The binary form of a number of 32 bits has at most 32 digits, and `uint_from_bin_common` reads the
-- number and the count of its digits back from it, at any place of a buffer and before any text that
-- does not go on with a binary digit, and stops behind it.
pub uint_to_bin-IsReadBack :
    (x : ℕ) (before rest : List ℕ)
    → x < 2 ^ 32
    → Stops bin_value rest
    → IsReadBack uint_from_bin x 32 before rest (uint_to_bin x)
uint_to_bin-IsReadBack x before rest h stops =
    from_radix uint_from_bin x 32 before rest _ bin_value (uint_to_bin-ReadsBack x h) stops

-- The decimal form of a number of 64 bits has at most 26 bytes, commas included where the flags ask
-- for groups, and `uint_from_dec_common` with the same flags (of 8 bits) reads the number and the
-- count of its bytes back from it, at any place of a buffer and before any text that does not go on
-- with a digit or a comma, and stops behind it.
pub uint_to_dec-IsReadBack :
    (x flags : ℕ) (before rest : List ℕ)
    → x < 2 ^ 64
    → flags < 2 ^ 8
    → Decimal.Stops rest
    → IsReadBack (λ b. uint_from_dec b flags) x 26 before rest (uint_to_dec x flags)
uint_to_dec-IsReadBack x flags before rest h f stops =
    from_decimal (λ b. uint_from_dec b flags) x 26 before rest _ (uint_to_dec-ReadsBack x flags h f)
      stops

-- The decimal form of an `intmax_t`, given by its bit pattern, has at most 27 bytes, the sign and the
-- commas included, and `int_from_dec_common` with the same flags (of 8 bits) reads the number and the
-- count of its bytes back from it, at any place of a buffer and before any text that does not go on
-- with a digit or a comma, and stops behind it. The least number, negative numbers and a forced sign
-- are included.
pub int_to_dec-IsReadBack :
    (x flags : ℕ) (before rest : List ℕ)
    → x < 2 ^ 64
    → flags < 2 ^ 8
    → Decimal.Stops rest
    → IsReadBack (λ b. int_from_dec b flags) x 27 before rest (int_to_dec x flags)
int_to_dec-IsReadBack x flags before rest h f stops =
    from_decimal (λ b. int_from_dec b flags) x 27 before rest _ (int_to_dec-ReadsBack x flags h f)
      stops
