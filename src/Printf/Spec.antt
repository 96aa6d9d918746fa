-- ===== src/Printf/Spec.antt =====
-- Conversion specifications (src/stdio/printf.c): `parse_number` and `parse_print_specifier`. The
-- `buffer_t *format` is the list of its unread bytes, without the NUL at the end: `peekbyte` gives the
-- first of them, or 0 behind the last, `readbyte` drops it, and setting `pos` back is going on with
-- an earlier list. Numbers are `uint32_t`.
pub mod Rest
pub mod Sound
use windows_libc.Common.{
  ℕ, zero, suc, ◌+◌, ◌-◌, ◌*◌, ◌/◌, ◌%◌, ◌^◌, Bool, true, false, not, ◌&&◌, ◌||◌, Option, none,
  some, List, [], ◌∷◌, ◌++◌, ltb, leb, ◌==◌, if◌then◌else◌, get_or, drop, u32,
}
use windows_libc.Convert.Decimal.{is_digit}
use windows_libc.Printf.{
  PrintFlags, PrintModifier, mod_none, mod_short_short, mod_short, mod_long, mod_long_long, mod_max,
  mod_size, mod_ptrdiff, mod_long_double, PrintType, int_number, uint_number, uint_binary,
  uint_octal, uint_hex, double_normal, double_hex, double_scientific, double_scientific_short,
  print_char, print_string, print_pointer, print_result, print_unknown, PrintConfig,
}
use windows_libc.Varargs.{VariadicArgs, Fetched, variadic_args_get}

abbrev pub peek : List ℕ → ℕ
peek text = get_or text 0 0

abbrev pub skip : List ℕ → List ℕ
skip text = drop 1 text

-- The loop of `parse_number`, with the number so far.
pub number_loop : ℕ → List ℕ → ℕ × List ℕ
number_loop index [] = (index, [])
number_loop index (c ∷ cs) =
    let rest = number_loop (u32 (u32 (index * 10) + (c - b'0'))) cs in
    if is_digit c then rest else (index, c ∷ cs)

unfoldable pub parse_number : List ℕ → ℕ × List ℕ
unfolding number_loop
parse_number text = number_loop 0 text

-- `n$` in front: the number of the argument, 0 without it.
unfoldable pub parse_index : List ℕ → ℕ × List ℕ
unfolding parse_number
parse_index text =
    let (index, rest) = parse_number text in
    if not (index == 0) && peek rest == b'$' then (index, skip rest) else (0, text)

abbrev pub no_flags : PrintFlags
no_flags = record {
  alternate = false;
  zero_padded = false;
  empty_space = false;
  left_justify = false;
  force_sign = false;
  upper_case = false;
  group = false;
  precise = false;
}

unfoldable pub add_flag : ℕ → PrintFlags → Option PrintFlags
add_flag c f =
    if c == b'#'
    then some (record f { alternate = true })
    else if c == b'0'
    then some (record f { zero_padded = true })
    else if c == b' '
    then some (record f { empty_space = true })
    else if c == b'-'
    then some (record f { left_justify = true })
    else if c == b'+'
    then some (record f { force_sign = true })
    else if c == b'\''
    then some (record f { group = true })
    else none

pub parse_flags : PrintFlags → List ℕ → PrintFlags × List ℕ
parse_flags f [] = (f, [])
parse_flags f (c ∷ cs) = elim (add_flag c f) [ none ↦ (f, c ∷ cs) | some f' ↦ parse_flags f' cs ]

-- UINT32_MAX: the number stands in the text and not among the arguments.
abbrev pub no_index : ℕ
no_index = 2 ^ 32 - 1

-- Behind `*`: the number of an argument, or 0 for the next one.
unfoldable pub parse_star : List ℕ → ℕ × List ℕ
unfolding parse_number
parse_star text =
    let (index, rest) = parse_number text in
    if peek rest == b'$' then (index, skip rest) else (0, rest)

-- A width or a precision: its value, the index of the argument that has it, and the text behind.
abbrev pub Field : Type 0
Field = ℕ × ℕ × List ℕ

unfoldable pub parse_field : List ℕ → Field
unfolding parse_number parse_star
parse_field text =
    let (index, behind) = parse_star (skip text) in
    let (value, rest) = parse_number text in
    if peek text == b'*' then (0, index, behind) else (value, no_index, rest)

unfoldable pub parse_precision : PrintFlags → List ℕ → PrintFlags × ℕ × ℕ × List ℕ
unfolding parse_field
parse_precision f text =
    let (value, index, rest) = parse_field (skip text) in
    if peek text == b'.'
    then (record f { precise = true }, value, index, rest)
    else (f, 0, no_index, text)

unfoldable pub parse_modifier : List ℕ → PrintModifier × List ℕ
parse_modifier text =
    let rest = skip text in
    let c = peek text in
    if c == b'h'
    then (if peek rest == b'h' then (mod_short_short, skip rest) else (mod_short, rest))
    else if c == b'l'
    then (if peek rest == b'l' then (mod_long_long, skip rest) else (mod_long, rest))
    else if c == b'L'
    then (mod_long_double, rest)
    else if c == b'j'
    then (mod_max, rest)
    else if c == b'z'
    then (mod_size, rest)
    else if c == b't'
    then (mod_ptrdiff, rest)
    else (mod_none, text)

-- The conversion of a letter, and whether it sets PRINT_UPPER_CASE.
unfoldable pub conversion : ℕ → PrintType × Bool
conversion c =
    if c == b'i' || c == b'd'
    then (int_number, false)
    else if c == b'u'
    then (uint_number, false)
    else if c == b'B' || c == b'b'
    then (uint_binary, c == b'B')
    else if c == b'O' || c == b'o'
    then (uint_octal, c == b'O')
    else if c == b'X' || c == b'x'
    then (uint_hex, c == b'X')
    else if c == b'A' || c == b'a'
    then (double_hex, c == b'A')
    else if c == b'F' || c == b'f'
    then (double_normal, c == b'F')
    else if c == b'E' || c == b'e'
    then (double_scientific, c == b'E')
    else if c == b'G' || c == b'g'
    then (double_scientific_short, c == b'G')
    else if c == b'c'
    then (print_char, false)
    else if c == b's'
    then (print_string, false)
    else if c == b'p'
    then (print_pointer, false)
    else if c == b'n'
    then (print_result, false)
    else (print_unknown, false)

-- The three tests at the end.
unfoldable pub settle : PrintFlags → PrintFlags
settle f = record f {
  zero_padded = f.zero_padded && not f.left_justify && not f.precise;
  empty_space = f.empty_space && not f.force_sign;
}

-- What stands in the text.
pub record Specifier : Type 0 where
  pub config : PrintConfig
  pub arg_index : ℕ
  pub width_index : ℕ
  pub precision_index : ℕ
  pub rest : List ℕ

unfoldable pub read_specifier : List ℕ → Specifier
unfolding parse_index parse_flags parse_field parse_precision parse_modifier conversion add_flag
read_specifier text =
    let (arg_index, text1) = parse_index text in
    let (flags, text2) = parse_flags no_flags text1 in
    let (width, width_index, text3) = parse_field text2 in
    let (flags', precision, precision_index, text4) = parse_precision flags text3 in
    let (modifier, text5) = parse_modifier text4 in
    let (type, upper) = conversion (peek text5) in
    record {
      config = record {
        type = type;
        modifier = modifier;
        flags = record flags' { upper_case = upper };
        width = width;
        precision = precision;
        result = 0;
        datum = 0;
      };
      arg_index = arg_index;
      width_index = width_index;
      precision_index = precision_index;
      rest = text5;
    }

-- A field that stands among the arguments is its value cut to 32 bits.
pub fetch_field : (VariadicArgs → ℕ → Fetched) → ℕ → ℕ → VariadicArgs → Fetched
fetch_field get index value a = if index == no_index then some (value, a) else get a index

abbrev pub bind_fetched :
    Fetched
    → (ℕ → VariadicArgs → Option (PrintConfig × List ℕ × VariadicArgs))
    → Option (PrintConfig × List ℕ × VariadicArgs)
bind_fetched none go = none
bind_fetched (some (v, a)) go = go v a

abbrev pub is_unknown : PrintType → Bool
is_unknown print_unknown = true
is_unknown _ = false

-- The arguments that the specification asks for: the width, the precision, and the one to print.
pub fetch_all :
    (VariadicArgs → ℕ → Fetched)
    → Specifier
    → VariadicArgs
    → Option (PrintConfig × List ℕ × VariadicArgs)
unfolding fetch_field
fetch_all get s a = bind_fetched (fetch_field get s.width_index s.config.width a) (λ w a'.
    bind_fetched (fetch_field get s.precision_index s.config.precision a') (λ p a''.
      bind_fetched (get a'' s.arg_index) (λ v b. some (
        record s.config {
          flags = settle s.config.flags;
          width = u32 w;
          precision = u32 p;
          datum = v;
        },
        skip s.rest,
        b,
      ))))

-- `none`: an indeterminate place of the arguments is read.
unfoldable pub parse_print_specifier :
    (ℕ → Bool) → (ℕ → ℕ) → List ℕ → VariadicArgs → Option (PrintConfig × List ℕ × VariadicArgs)
unfolding read_specifier fetch_all settle
parse_print_specifier alloc source text a =
    let s = read_specifier text in
    if is_unknown s.config.type
    then some (record s.config { flags = settle s.config.flags }, s.rest, a)
    else fetch_all (variadic_args_get alloc source) s a
