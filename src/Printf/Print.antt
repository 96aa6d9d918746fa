-- ===== src/Printf/Print.antt =====
-- The conversions of src/stdio/printf.c (`print_arg`) and the loop over the format
-- (`wlibc_printf_internal`). `text_at size address` is the text in memory at an address: its units of
-- `size` bytes in front of the 0 that ends it. `float_hex` is `float64_to_hex` of src/internal/convert.c,
-- which works on floating point and is not modelled: the bytes that it writes for a double. `none` is undefined behaviour: a write behind
-- an array on the stack, or the reading of an indeterminate argument.
-- `print_conversion` is the part of `print_arg` for the type that is given.
pub mod Count
use windows_libc.Common.{
  ℕ, zero, suc, ◌+◌, ◌-◌, ◌*◌, ◌/◌, ◌%◌, ◌^◌, min, max, Bool, true, false, not, ◌&&◌, ◌||◌, Option,
  none, some, List, [], ◌∷◌, ◌++◌, ltb, leb, ◌==◌, if◌then◌else◌, length, take, drop, replicate, u8,
  u16, u32, u64,
}
use windows_libc.Buffer.{Buffer, Writer}
use windows_libc.Convert.Decimal.{uint_to_dec, int_to_dec, force_sign, group_digits}
use windows_libc.Convert.Radix.{uint_to_hex, uint_to_oct, uint_to_bin, hex_digit}
use windows_libc.Convert.Utf8.{utf8_encode}
use windows_libc.Convert.Utf16.{utf16_decode}
use windows_libc.Printf.{
  PrintFlags, PrintModifier, mod_none, mod_short_short, mod_short, mod_long, mod_long_long, mod_max,
  mod_size, mod_ptrdiff, mod_long_double, PrintType, int_number, uint_number, uint_binary,
  uint_octal, uint_hex, double_normal, double_hex, double_scientific, double_scientific_short,
  print_char, print_string, print_pointer, print_result, print_unknown, PrintConfig, Effect,
  write_byte, write_n, store, Printed, perform,
}
use windows_libc.Printf.Pad.{print_int_formatted, print_uint_formatted}
use windows_libc.Printf.Spec.{peek, skip, is_unknown, parse_print_specifier}
use windows_libc.Varargs.{VariadicArgs, variadic_args_init}

-- The bits of the type that a modifier names.
unfoldable pub bits_of : PrintModifier → ℕ
bits_of mod_none = 32
bits_of mod_short = 16
bits_of mod_short_short = 8
bits_of mod_long_double = 32
bits_of _ = 64

-- `VIEW_AS(config->data, …)` at an unsigned type, and at a signed one as a pattern of 64 bits.
unfoldable pub unsigned_view : PrintConfig → ℕ
unfolding bits_of
unsigned_view config = config.datum % 2 ^ bits_of config.modifier

unfoldable pub signed_view : PrintConfig → ℕ
unfolding unsigned_view bits_of
signed_view config =
    let v = unsigned_view config in
    if ltb v (2 ^ (bits_of config.modifier - 1))
    then v
    else u64 (2 ^ 64 + v - 2 ^ bits_of config.modifier)

unfoldable pub decimal_flags : PrintFlags → ℕ
decimal_flags f =
    (if f.force_sign || f.empty_space then force_sign else 0)
    + (if f.group then group_digits else 0)

unfoldable pub group_flag : PrintFlags → ℕ
group_flag f = if f.group then group_digits else 0

abbrev pub digits_by : (List ℕ → Printed) → Option (List ℕ) → Option Printed
digits_by printer none = none
digits_by printer (some temp) = some (printer temp)

abbrev pub nothing : Printed
nothing = record { effects = []; count = 0 }

-- PRINT_DOUBLE_HEX.
abbrev pub block : List ℕ → Printed
block xs = record { effects = write_n xs ∷ []; count = u32 (length xs) }

-- The bytes of a character, before they are padded: `utf16_decode(&config->data, 8, …)` reads the words.
abbrev pub words_of : ℕ → List ℕ
words_of v = u16 v ∷ u16 (v / 2 ^ 16) ∷ u16 (v / 2 ^ 32) ∷ u16 (v / 2 ^ 48) ∷ []

abbrev pub encoded : Option (ℕ × ℕ) → List ℕ
encoded none = []
encoded (some (size, cp)) = utf8_encode cp

unfoldable pub char_bytes : PrintModifier → ℕ → List ℕ
char_bytes mod_long v = encoded (utf16_decode (words_of v) 8)
char_bytes mod_long_long v = utf8_encode (u32 v)
char_bytes _ v = u8 v ∷ []

-- PRINT_CHAR: the padded character is put together in `temp[128]`.
unfoldable pub print_character : PrintConfig → Option Printed
unfolding char_bytes
print_character config =
    let bytes = char_bytes config.modifier config.datum in
    let blanks = replicate (config.width - 1) b' ' in
    if ltb 1 config.width
    then (if ltb 128 (length bytes + (config.width - 1))
        then none
        else some (block (if config.flags.left_justify then bytes ++ blanks else blanks ++ bytes)))
    else some (block bytes)

-- `while (*ch++ != 0 && count < config->precision) ++count;`
pub count_units : List ℕ → ℕ → ℕ → ℕ
count_units [] precision count = count
count_units (u ∷ us) precision count =
    let rest = count_units us precision (count + 1) in if ltb count precision then rest else count

-- The loop of the strings of 16-bit units, with `i` and the units behind `pos`. Where the decoder
-- fails the code point is 0.
abbrev pub decoded : Option (ℕ × ℕ) → ℕ × ℕ
decoded none = (0, 0)
decoded (some (size, cp)) = (size, cp)

abbrev pub behind_block : List ℕ → Printed → Printed
behind_block xs p = record { effects = write_n xs ∷ p.effects; count = u32 (length xs + p.count) }

pub wide_loop : ℕ → ℕ → ℕ → List ℕ → Printed
wide_loop zero count i units = nothing
wide_loop (suc fuel) count i units =
    let (size, cp) = decoded (utf16_decode units 4) in
    let rest = wide_loop fuel count (if size == 4 then i + 2 else i + 1) (drop (size / 2) units) in
    let more = behind_block (utf8_encode cp) rest in
    if ltb i count then (if cp == 0 then nothing else more) else nothing

-- The loop of the strings of 32-bit units.
pub long_loop : List ℕ → Printed
long_loop [] = nothing
long_loop (u ∷ us) = behind_block (utf8_encode u) (long_loop us)

abbrev pub unit_size : PrintModifier → ℕ
unit_size mod_long = 2
unit_size mod_long_long = 4
unit_size _ = 1

unfoldable pub string_units : PrintModifier → List ℕ → ℕ → Printed
unfolding wide_loop long_loop
string_units mod_long units count = wide_loop count count 0 units
string_units mod_long_long units count = long_loop (take count units)
string_units _ units count = block (take count units)

abbrev pub spaces : ℕ → List Effect
spaces zero = []
spaces (suc n) = write_byte b' ' ∷ spaces n

-- PRINT_STRING. The missing bytes are counted by the units, not by the bytes that they become.
unfoldable pub print_text : (ℕ → ℕ → List ℕ) → PrintConfig → Printed
unfolding count_units string_units
print_text text_at config =
    let precision = if config.flags.precise then config.precision else 2 ^ 32 - 1 in
    let units =
      if config.datum == 0 then [] else text_at (unit_size config.modifier) config.datum in
    let count = count_units units precision 0 in
    let missing = config.width - count in
    let shown = string_units config.modifier units count in
    let blanks = spaces missing in
    record {
      effects =
          if config.flags.left_justify then shown.effects ++ blanks else blanks ++ shown.effects;
      count = u32 (missing + shown.count);
    }

-- `pointer_encode`: the bytes from the highest to the lowest.
unfoldable pub pointer_bytes : ℕ → ℕ → List ℕ
pointer_bytes zero v = []
pointer_bytes (suc n) v =
    let byte = u8 (v / 2 ^ (8 * n)) in
    hex_digit false (byte / 16) ∷ hex_digit false (byte % 16) ∷ pointer_bytes n v

unfoldable pub pointer_encode : ℕ → List ℕ
unfolding pointer_bytes
pointer_encode v = b'0' ∷ b'x' ∷ pointer_bytes 8 v

-- PRINT_POINTER.
unfoldable pub print_address : PrintConfig → Printed
unfolding pointer_encode
print_address config =
    let temp = pointer_encode config.datum in
    let missing = config.width - length temp in
    record {
      effects =
          if config.flags.left_justify
          then write_n temp ∷ spaces missing
          else spaces missing ++ write_n temp ∷ [];
      count = u32 (length temp + missing);
    }

-- PRINT_RESULT: `%n` stores the count so far.
unfoldable pub print_count : PrintConfig → Printed
unfolding bits_of
print_count config =
    let bits = bits_of config.modifier in
    record { effects = store config.datum bits (config.result % 2 ^ bits) ∷ []; count = 0 }

module _ (float_hex : Bool → ℕ → List ℕ) (text_at : ℕ → ℕ → List ℕ) where
  unfoldable pub print_conversion : PrintType → PrintConfig → Option Printed
  unfolding signed_view unsigned_view decimal_flags group_flag print_character print_text
      print_address print_count
  print_conversion int_number c =
      digits_by (print_int_formatted c) (int_to_dec (signed_view c) (decimal_flags c.flags))
  print_conversion uint_number c =
      digits_by (print_int_formatted c) (uint_to_dec (unsigned_view c) (group_flag c.flags))
  print_conversion uint_binary c =
      digits_by (print_uint_formatted c) (uint_to_bin (unsigned_view c))
  print_conversion uint_octal c = digits_by (print_uint_formatted c) (uint_to_oct (unsigned_view c))
  print_conversion uint_hex c =
      digits_by (print_uint_formatted c) (uint_to_hex c.flags.upper_case (unsigned_view c))
  print_conversion double_hex c = some (block (float_hex c.flags.upper_case c.datum))
  print_conversion print_char c = print_character c
  print_conversion print_string c = some (print_text text_at c)
  print_conversion print_pointer c = some (print_address c)
  print_conversion print_result c = some (print_count c)
  print_conversion _ c = some nothing

  unfoldable pub print_arg : PrintConfig → Option Printed
  unfolding print_conversion
  print_arg config = print_conversion config.type config
