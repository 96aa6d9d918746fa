-- ===== src/Printf/Pad/Numbers.antt =====
-- What the printers of numbers (`print_int_formatted` and `print_uint_formatted` of src/stdio/printf.c)
-- hand to the buffer.
use windows_libc.Common.{
  ℕ, suc, ◌+◌, ◌-◌, ◌*◌, ◌/◌, ◌^◌, ◌≤◌, ◌<◌, ◌≡◌, ◌∙◌, ◌≢◌, Bool, true, false, List, [], ◌∷◌, ◌++◌,
  arith, if◌then◌else◌, length, replicate,
}
use windows_libc.Printf.{PrintConfig, bytes_of}
use windows_libc.Printf.Pad.{
  take_sign, group_period, print_int_formatted, alternate_form_char, print_uint_formatted,
}
use windows_libc.Printf.Pad.Layout.{layout, Prints, print_marked-Prints}

-- A width and a precision below 2 ^ 31, and no filling with zeros where there is a precision.
pub record IsPlain (config : PrintConfig) : Type 0 where
  pub width_small : config.width < 2 ^ 31
  pub precision_small : config.precision < 2 ^ 31
  pub zeros : config.flags.zero_padded ≡ true → config.precision ≡ 0

take_sign_short :
    (space : Bool) (temp : List ℕ)
    → (length (take_sign space temp).0 ≤ 1) × (length (take_sign space temp).1 ≤ length temp)
unfolding take_sign
take_sign_short space [] = (omega arith, omega arith)
take_sign_short space (c ∷ cs) = ground arith

group_period-le : (grouped : Bool) (n : ℕ) → 0 < n → n < 2 ^ 8 → group_period grouped n ≤ n
unfolding group_period
group_period-le true n h k = omega arith
group_period-le false n h k = omega arith

-- A signed number, or an unsigned one in decimal, of less than 256 bytes with at least one digit,
-- printed under a width and a precision below 2 ^ 31, with no precision where zeros fill the width: the
-- buffer gets the sign, the zeros that the precision asks for and the digits, on the left, on the
-- right, or with zeros between sign and digits, filled up to the width; the function returns the number
-- of these bytes. What the code takes for the number of commas does not count for the precision.
pub print_int_formatted-Prints :
    (config : PrintConfig) (temp : List ℕ)
    → IsPlain config
    → length temp < 2 ^ 8
    → 0 < length (take_sign config.flags.empty_space temp).1
    → Prints (print_int_formatted config temp) (
        layout config.flags.left_justify config.flags.zero_padded config.width config.precision
          (take_sign config.flags.empty_space temp).0
          (take_sign config.flags.empty_space temp).1
          (group_period config.flags.group (length (take_sign config.flags.empty_space temp).1)))
unfolding print_int_formatted
print_int_formatted-Prints config temp s short some_digit =
    let (sign, digits) = take_sign config.flags.empty_space temp in
    let (one_sign, rest) = take_sign_short config.flags.empty_space temp in
    print_marked-Prints config sign digits (group_period config.flags.group (length digits))
      s.width_small s.precision_small (omega (arith, one_sign)) (omega (arith, rest))
      (group_period-le config.flags.group (length digits) some_digit (omega (arith, rest))) s.zeros

marks : (alternate : Bool) (c : ℕ) → length (if alternate then b'0' ∷ c ∷ [] else []) < 2 ^ 8
marks true c = omega arith
marks false c = omega arith

-- A number in binary, octal or hexadecimal of less than 256 digits under the same conditions: its prefix
-- stands where the sign of a signed number stands and counts for the width alone.
pub print_uint_formatted-Prints :
    (config : PrintConfig) (temp : List ℕ)
    → IsPlain config
    → length temp < 2 ^ 8
    → Prints (print_uint_formatted config temp) (
        layout config.flags.left_justify config.flags.zero_padded config.width config.precision
          (if config.flags.alternate then b'0' ∷ alternate_form_char config ∷ [] else [])
          temp
          0)
unfolding print_uint_formatted
print_uint_formatted-Prints config temp s short =
    print_marked-Prints config _ temp 0 s.width_small s.precision_small
      (marks config.flags.alternate _) short (omega arith) s.zeros

-- Of `k + 1` whole groups of three digits, `k` from 1 to 63, without a sign and with the `k` commas between them, under
-- the flag for groups, a precision of just as many digits and no width or filling: the code counts
-- `(4 * k + 2) / 3` commas, and puts the zeros of the surplus, at least one, in front of the number.
pub whole_groups :
    (config : PrintConfig) (c : ℕ) (cs : List ℕ) (k : ℕ)
    → 0 < k
    → k < 64
    → suc (length cs) ≡ 4 * k + 3
    → config.flags.group ≡ true
    → config.flags.left_justify ≡ false
    → config.flags.zero_padded ≡ false
    → config.width ≡ 0
    → config.precision ≡ 3 * k + 3
    → c ≢ b'-'
    → c ≢ b'+'
    → (bytes_of (print_int_formatted config (c ∷ cs)).effects
        ≡ replicate ((4 * k + 2) / 3 - k) b'0' ++ c ∷ cs)
      × (0 < (4 * k + 2) / 3 - k)
unfolding layout
whole_groups config c cs k more less n g l z w p minus plus =
    let plain : IsPlain config = record {
      width_small = omega arith;
      precision_small = omega arith;
      zeros = λ t. ground arith;
    } in
    let unsigned : take_sign config.flags.empty_space (c ∷ cs) ≡ ([], c ∷ cs) =
      unfold take_sign in ground arith in
    let some_digit : 0 < length (take_sign config.flags.empty_space (c ∷ cs)).1 =
      rw unsigned (omega arith) in
    let printed = print_int_formatted-Prints config (c ∷ cs) plain (omega arith) some_digit in
    let commas : group_period true (suc (length cs)) ≡ (4 * k + 2) / 3 =
      unfold group_period in omega arith in
    let zeros : 3 * k + 3 - (suc (length cs) - (4 * k + 2) / 3) ≡ (4 * k + 2) / 3 - k =
      omega arith in
    let filled : 0 - length (replicate ((4 * k + 2) / 3 - k) b'0' ++ c ∷ cs) ≡ 0 = omega arith in
    let bytes = printed.bytes in
    (bytes ∙ simp (unsigned, g, l, z, w, p, commas, zeros, filled), omega arith)
