-- ===== src/Printf/Pad.antt =====
-- Padding of numbers (src/stdio/printf.c): `print_int_formatted` and `print_uint_formatted`. Both have
-- the same branches, the one with a sign in front of the digits, the other with the prefix of the
-- alternate form; `print_marked` has these branches over the mark.
-- A loop `while (pos + offset < limit) { writebyte(buffer, byte); pos += 1; }` has `limit` rounds as
-- fuel: `pos` grows by one in a round and stays below `limit`.
pub mod Count
pub mod Layout
pub mod Numbers
use windows_libc.Common.{
  ℕ, zero, suc, ◌+◌, ◌-◌, ◌/◌, ◌^◌, max, Bool, true, false, ◌||◌, List, [], ◌∷◌, ◌++◌, ltb, ◌==◌,
  if◌then◌else◌, length, u32,
}
use windows_libc.Printf.{
  PrintFlags, PrintType, int_number, uint_number, uint_binary, uint_octal, uint_hex, double_normal,
  double_hex, double_scientific, double_scientific_short, print_char, print_string, print_pointer,
  print_result, print_unknown, PrintConfig, Effect, write_byte, write_n, Printed,
}

-- The byte in front of the effects and the final `pos`.
abbrev one_more : ℕ → List Effect × ℕ → List Effect × ℕ
one_more byte (es, pos) = (write_byte byte ∷ es, pos)

pub pad_loop : ℕ → ℕ → ℕ → ℕ → ℕ → List Effect × ℕ
pad_loop byte offset limit zero pos = ([], pos)
pad_loop byte offset limit (suc fuel) pos =
    let rest = one_more byte (pad_loop byte offset limit fuel (u32 (pos + 1))) in
    if ltb (u32 (pos + offset)) limit then rest else ([], pos)

-- What stands in front of the digits: nothing, the sign, or the prefix of the alternate form.
unfoldable pub put_bytes : List ℕ → List Effect
put_bytes [] = []
put_bytes (c ∷ cs) = write_byte c ∷ put_bytes cs

-- The branch of PRINT_LEFT_JUSTIFY: `size` goes on counting up to the width.
unfoldable pub print_left : PrintConfig → List ℕ → List ℕ → ℕ → Printed
unfolding pad_loop put_bytes
print_left config mark digits period =
    let size = length digits in
    let (zeros, pos) =
      pad_loop b'0' (u32 (size + 2 ^ 32 - period)) config.precision config.precision 0 in
    let reached = u32 (size + pos + length mark) in
    let (blanks, total) = pad_loop b' ' 0 config.width config.width reached in
    record { effects = put_bytes mark ++ (zeros ++ (write_n digits ∷ blanks)); count = total }

-- The branch of PRINT_ZERO_PADDED: zeros between the mark and the digits, up to the width.
unfoldable pub print_zeros : PrintConfig → List ℕ → List ℕ → Printed
unfolding pad_loop put_bytes
print_zeros config mark digits =
    let size = length digits in
    let (zeros, pos) = pad_loop b'0' size config.width config.width (length mark) in
    record {
      effects = put_bytes mark ++ (zeros ++ (write_n digits ∷ []));
      count = u32 (pos + size);
    }

-- The branch that fills up with spaces in front.
unfoldable pub print_blanks : PrintConfig → List ℕ → List ℕ → ℕ → Printed
unfolding pad_loop put_bytes
print_blanks config mark digits period =
    let size = length digits in
    let shown = u32 (size + 2 ^ 32 - period) in
    let count = u32 (max config.precision shown + length mark + period) in
    let (blanks, pos) = pad_loop b' ' count config.width config.width 0 in
    let (zeros, more) = pad_loop b'0' shown config.precision config.precision 0 in
    record {
      effects = blanks ++ (put_bytes mark ++ (zeros ++ (write_n digits ∷ [])));
      count = u32 (size + (pos + length mark) + more);
    }

-- The last branch: the width asks for nothing.
unfoldable pub print_plain : PrintConfig → List ℕ → List ℕ → ℕ → Printed
unfolding pad_loop put_bytes
print_plain config mark digits period =
    let size = length digits in
    let (zeros, pos) =
      pad_loop b'0' (u32 (size + 2 ^ 32 - period)) config.precision config.precision 0 in
    record {
      effects = put_bytes mark ++ (zeros ++ (write_n digits ∷ []));
      count = u32 (pos + size + length mark);
    }

unfoldable pub print_marked : PrintConfig → List ℕ → List ℕ → ℕ → Printed
unfolding print_left print_zeros print_blanks print_plain
print_marked config mark digits period =
    if config.flags.left_justify
    then print_left config mark digits period
    else if ltb (max config.precision (length digits)) config.width
    then (if config.flags.zero_padded
        then print_zeros config mark digits
        else print_blanks config mark digits period)
    else print_plain config mark digits period

-- The sign, and the digits behind it.
unfoldable pub take_sign : Bool → List ℕ → List ℕ × List ℕ
take_sign space [] = ([], [])
take_sign space (c ∷ cs) =
    if c == b'-' || c == b'+'
    then ((if space then (if c == b'+' then b' ' else b'-') else c) ∷ [], cs)
    else ([], c ∷ cs)

-- The number of commas, as the code computes it from the digits together with the commas.
unfoldable pub group_period : Bool → ℕ → ℕ
group_period grouped size = if grouped then u32 (size + 2 ^ 32 - 1) / 3 else 0

unfoldable pub print_int_formatted : PrintConfig → List ℕ → Printed
unfolding print_marked take_sign group_period
print_int_formatted config temp =
    let (sign, digits) = take_sign config.flags.empty_space temp in
    print_marked config sign digits (group_period config.flags.group (length digits))

unfoldable pub alternate_form_char : PrintConfig → ℕ
alternate_form_char config = elim config.type [
  | uint_binary ↦ if config.flags.upper_case then b'B' else b'b'
  | uint_octal ↦ if config.flags.upper_case then b'O' else b'o'
  | uint_hex ↦ if config.flags.upper_case then b'X' else b'x'
  | _ ↦ 0
]

unfoldable pub print_uint_formatted : PrintConfig → List ℕ → Printed
unfolding print_marked alternate_form_char
print_uint_formatted config temp =
    print_marked config
      (if config.flags.alternate then b'0' ∷ alternate_form_char config ∷ [] else []) temp 0
