-- ===== src/Convert/Radix/Bases.antt =====
-- The hexadecimal, octal and binary forms of `uintmax_t`.
use windows_libc.Common.{
  ℕ, zero, suc, ◌^◌, ◌≤◌, ◌<◌, ◌≡◌, refl, ap, ◌≢◌, Bool, true, false, ◌&&◌, not, Option, none, some,
  List, [], arith, ◌==◌,
}
use windows_libc.Buffer.{Buffer}
use windows_libc.Buffer.View.{Reads}
use windows_libc.Convert.Radix.{
  copy_back, hex_digit, hex_nibble, plain_digit, oct_value, bin_value, uint_to_hex, uint_from_hex,
  uint_to_oct, uint_from_oct, uint_to_bin, uint_from_bin,
}
use windows_libc.Convert.Radix.Scan.{Returns, scan, reader-Returns}
use windows_libc.Convert.Radix.RoundTrip.{IsRadix, ReadsBack, writer-ReadsBack, to_loop_fault}

-- Over a small range every value is checked by evaluation.
abbrev for_digits : (ℕ → Bool) → ℕ → Bool
for_digits test zero = true
for_digits test (suc n) = for_digits test n && test n

for_digits_each : (test : ℕ → Bool) (n d : ℕ) → d < n → for_digits test n ≡ true → test d ≡ true
for_digits_each test zero d below all = absurd (omega arith)
for_digits_each test (suc n) d below all = ground (arith, for_digits_each test n d)

abbrev found : Option ℕ → ℕ → Bool
found none d = false
found (some e) d = e == d

abbrev fits_at : (ℕ → ℕ) → (ℕ → Option ℕ) → ℕ → Bool
fits_at table digit d = not (table d == 0) && found (digit (table d)) d

fits_sound :
    (table : ℕ → ℕ) (digit : ℕ → Option ℕ) (d : ℕ)
    → fits_at table digit d ≡ true
    → (table d ≢ 0) × (digit (table d) ≡ some d)
fits_sound table digit d h = ground arith

IsRadix-by_table :
    (table : ℕ → ℕ) (digit : ℕ → Option ℕ) (shift : ℕ)
    → for_digits (fits_at table digit) (2 ^ shift) ≡ true
    → IsRadix table digit shift
IsRadix-by_table table digit shift h = record {
  nonzero = λ d below. (fits_sound table digit d (for_digits_each _ (2 ^ shift) d below h)).0;
  inverse = λ d below. (fits_sound table digit d (for_digits_each _ (2 ^ shift) d below h)).1;
}

hex-IsRadix : (upper : Bool) → IsRadix (hex_digit upper) hex_nibble 4
unfolding hex_digit hex_nibble
hex-IsRadix true = IsRadix-by_table (hex_digit true) hex_nibble 4 refl
hex-IsRadix false = IsRadix-by_table (hex_digit false) hex_nibble 4 refl

oct-IsRadix : IsRadix plain_digit oct_value 3
unfolding plain_digit oct_value
oct-IsRadix = IsRadix-by_table plain_digit oct_value 3 refl

bin-IsRadix : IsRadix plain_digit bin_value 1
unfolding plain_digit bin_value
bin-IsRadix = IsRadix-by_table plain_digit bin_value 1 refl

-- The hexadecimal form of every number of 64 bits, in either case, has 1 to 16 digits, and
-- `uint_from_hex_common` reads the number and the count of its digits back from it, before any text
-- that does not go on with a hexadecimal digit, and stops behind it.
pub uint_to_hex-ReadsBack :
    (upper : Bool) (x : ℕ)
    → x < 2 ^ 64
    → ReadsBack hex_nibble uint_from_hex x 16 (uint_to_hex upper x)
unfolding uint_to_hex uint_from_hex
uint_to_hex-ReadsBack upper x h =
    writer-ReadsBack (hex_digit upper) hex_nibble 4 (hex-IsRadix upper) 15 x (omega arith) h h

-- The octal form of every number of 64 bits has 1 to 22 digits, and `uint_from_oct_common` reads the
-- number and the count of its digits back from it, before any text that does not go on with an octal
-- digit, and stops behind it.
pub uint_to_oct-ReadsBack :
    (x : ℕ) → x < 2 ^ 64 → ReadsBack oct_value uint_from_oct x 22 (uint_to_oct x)
unfolding uint_to_oct uint_from_oct
uint_to_oct-ReadsBack x h =
    writer-ReadsBack plain_digit oct_value 3 oct-IsRadix 21 x (omega arith) (omega arith) h

-- The binary form of a number of 32 bits has 1 to 32 digits and is read back by
-- `uint_from_bin_common`.
pub uint_to_bin-ReadsBack :
    (x : ℕ) → x < 2 ^ 32 → ReadsBack bin_value uint_from_bin x 32 (uint_to_bin x)
unfolding uint_to_bin uint_from_bin
uint_to_bin-ReadsBack x small =
    writer-ReadsBack plain_digit bin_value 1 bin-IsRadix 31 x (omega arith) small (omega arith)

-- For every number of 64 bits that needs more than 32 binary digits, `uint_to_bin_common` writes behind
-- the 32 bytes of its array `temp`, although the buffer of its caller has 64 bytes.
pub uint_to_bin_overrun : (x : ℕ) → 2 ^ 32 ≤ x → x < 2 ^ 64 → uint_to_bin x ≡ none
unfolding uint_to_bin
uint_to_bin_overrun x big h =
    ap copy_back (to_loop_fault plain_digit bin_value 1 bin-IsRadix 32 64 x [] refl big)

-- The three readers return from every buffer that can be read: with the value, the count and the
-- unread bytes that the scan of its bytes gives.
pub readers-Returns :
    {b : Buffer} {xs : List ℕ}
    → Reads b xs
    → Returns (scan hex_nibble 4 xs 0 0) (uint_from_hex b)
      × Returns (scan oct_value 3 xs 0 0) (uint_from_oct b)
      × Returns (scan bin_value 1 xs 0 0) (uint_from_bin b)
unfolding uint_from_hex uint_from_oct uint_from_bin
readers-Returns r =
    (reader-Returns hex_nibble 4 r, reader-Returns oct_value 3 r, reader-Returns bin_value 1 r)
