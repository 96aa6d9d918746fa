-- ===== src/Convert/Radix.antt =====
-- Binary, octal and hexadecimal digits of `uintmax_t` (src/internal/convert.c). The three writers
-- and the three readers are one loop each, over the number of bits in a digit, the table of digits
-- and the test of a byte. `temp[32]` on the C stack is a list with that capacity: a write behind it
-- is undefined behaviour, `none`. `none` also stands for a loop that has not ended within its fuel.
pub mod Scan
pub mod RoundTrip
pub mod Bases
use windows_libc.Common.{
  ℕ, zero, suc, ◌+◌, ◌-◌, ◌*◌, ◌/◌, ◌%◌, ◌^◌, ◌≤◌, ◌<◌, min, max, bit_and, bit_or, bit_xor, ◌≡◌,
  refl, sym, ap, ◌∙◌, ◌≢◌, ◌↔◌, ◌⊎◌, inl, inr, Bool, true, false, ◌&&◌, ◌||◌, not, Option, none,
  some, List, [], ◌∷◌, ◌++◌, map, append-nil, append_assoc, arith, ltb, leb, ◌==◌, if◌then◌else◌,
  Bool-cases, Option-cases, length, get_elem?, set, get_or, take, drop, replicate, length-append,
  length-set, length-take, length-drop, length-replicate, take-append, drop-append,
  take-take-append, take-set, drop-cons, drop-nil, get_elem?-set_self, get_elem?-set_ne, ==_iff,
  ltb→lt, lt→ltb, leb→le, u8, u16, u32, u64,
}
use mathlib.Core.List.{reverse}
use windows_libc.Buffer.{Buffer, readbyte, peekbyte, pending}

-- `temp[pos++] = c`, where `pos` is the length.
abbrev pub push : ℕ → List ℕ → ℕ → Option (List ℕ)
push cap temp c = if ltb (length temp) cap then some (temp ++ c ∷ []) else none

-- `do { temp[pos++] = table[x & mask]; x >>= shift; } while (x != 0);`
pub to_loop : (ℕ → ℕ) → ℕ → ℕ → ℕ → List ℕ → Option (List ℕ)
to_loop table shift zero x temp = none
to_loop table shift (suc fuel) x temp = elim (push 32 temp (table (bit_and x (2 ^ shift - 1)))) [
  | none ↦ none
  | some temp' ↦
      let rest = to_loop table shift fuel (x / 2 ^ shift) temp' in
      if x / 2 ^ shift == 0 then some temp' else rest
]

-- Then `buffer[i] = temp[pos - i - 1]` for every `i < pos`: the digits in the order of reading.
abbrev pub copy_back : Option (List ℕ) → Option (List ℕ)
copy_back none = none
copy_back (some temp) = some (reverse temp)

-- What a reader returns: the count, the value and the buffer behind what was read.
pub record Parsed : Type 0 where
  pub count : ℕ
  pub value : ℕ
  pub buffer : Buffer

-- `while ((byte = peekbyte(buffer, 0)) != '\0')`: a byte that is no digit ends the loop.
pub from_loop : (ℕ → Option ℕ) → ℕ → ℕ → Buffer → ℕ → ℕ → Option Parsed
from_loop digit shift zero b value count = none
from_loop digit shift (suc fuel) b value count = elim (peekbyte b 0 == 0) [
  | true ↦ some (record { count = count; value = value; buffer = b })
  | false ↦ elim (digit (peekbyte b 0)) [
    | none ↦ some (record { count = count; value = value; buffer = b })
    | some d ↦
        from_loop digit shift fuel (readbyte b).1 (u64 (value * 2 ^ shift + d)) (u32 (count + 1))
  ]
]

pub hex_lower_table : List ℕ
hex_lower_table =
    b'0' ∷ b'1' ∷ b'2' ∷ b'3' ∷ b'4' ∷ b'5' ∷ b'6' ∷ b'7' ∷ b'8' ∷ b'9' ∷ b'a' ∷ b'b' ∷ b'c' ∷ b'd'
    ∷ b'e' ∷ b'f' ∷ []

pub hex_upper_table : List ℕ
hex_upper_table =
    b'0' ∷ b'1' ∷ b'2' ∷ b'3' ∷ b'4' ∷ b'5' ∷ b'6' ∷ b'7' ∷ b'8' ∷ b'9' ∷ b'A' ∷ b'B' ∷ b'C' ∷ b'D'
    ∷ b'E' ∷ b'F' ∷ []

abbrev no_digits : ℕ → List ℕ
no_digits n = replicate n 255

unfoldable pub hex_to_nibble_table : List ℕ
hex_to_nibble_table =
    no_digits 48
    ++ (0 ∷ 1 ∷ 2 ∷ 3 ∷ 4 ∷ 5 ∷ 6 ∷ 7 ∷ 8 ∷ 9 ∷ no_digits 6)
    ++ (255 ∷ 10 ∷ 11 ∷ 12 ∷ 13 ∷ 14 ∷ 15 ∷ no_digits 9)
    ++ no_digits 16
    ++ (255 ∷ 10 ∷ 11 ∷ 12 ∷ 13 ∷ 14 ∷ 15 ∷ no_digits 9)
    ++ no_digits 144

pub hex_digit : Bool → ℕ → ℕ
unfolding hex_lower_table hex_upper_table
hex_digit upper d = get_or (if upper then hex_upper_table else hex_lower_table) d 0

unfoldable pub hex_nibble : ℕ → Option ℕ
unfolding hex_to_nibble_table
hex_nibble byte =
    let nibble = get_or hex_to_nibble_table byte 255 in if nibble == 255 then none else some nibble

-- The octal and binary digits.
pub plain_digit : ℕ → ℕ
plain_digit d = u8 (d + b'0')

unfoldable pub oct_value : ℕ → Option ℕ
oct_value byte = if leb b'0' byte && leb byte b'7' then some (byte - b'0') else none

unfoldable pub bin_value : ℕ → Option ℕ
bin_value byte = if byte == b'0' || byte == b'1' then some (byte - b'0') else none

-- A number of 64 bits has at most 64 digits.
abbrev pub digit_rounds : ℕ
digit_rounds = 64

-- Each round of a reader takes a byte.
unfoldable pub read_rounds : Buffer → ℕ
unfolding pending
read_rounds b = pending b + 1

unfoldable pub uint_to_hex : Bool → ℕ → Option (List ℕ)
unfolding to_loop hex_digit
uint_to_hex upper x = copy_back (to_loop (hex_digit upper) 4 digit_rounds x [])

unfoldable pub uint_from_hex : Buffer → Option Parsed
unfolding from_loop hex_nibble read_rounds
uint_from_hex b = from_loop hex_nibble 4 (read_rounds b) b 0 0

unfoldable pub uint_to_oct : ℕ → Option (List ℕ)
unfolding to_loop plain_digit
uint_to_oct x = copy_back (to_loop plain_digit 3 digit_rounds x [])

unfoldable pub uint_from_oct : Buffer → Option Parsed
unfolding from_loop oct_value read_rounds
uint_from_oct b = from_loop oct_value 3 (read_rounds b) b 0 0

unfoldable pub uint_to_bin : ℕ → Option (List ℕ)
unfolding to_loop plain_digit
uint_to_bin x = copy_back (to_loop plain_digit 1 digit_rounds x [])

unfoldable pub uint_from_bin : Buffer → Option Parsed
unfolding from_loop bin_value read_rounds
uint_from_bin b = from_loop bin_value 1 (read_rounds b) b 0 0
