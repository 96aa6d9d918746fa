-- ===== src/Printf/Print/Count.antt =====
-- What each printer of src/stdio/printf.c returns, against the bytes that it hands to the buffer.
use windows_libc.Common.{
  ℕ, zero, suc, ◌+◌, ◌-◌, ◌/◌, ◌≡◌, refl, ◌∙◌, inl, inr, Bool, true, false, Option, none, some,
  List, [], ◌∷◌, ◌++◌, append-nil, arith, ltb, ◌==◌, if◌then◌else◌, Bool-cases, length, take, drop,
  length-append, u32,
}
use windows_libc.Convert.Utf16.{utf16_decode}
use windows_libc.Convert.Utf8.{utf8_encode}
use windows_libc.Printf.{
  PrintModifier, mod_long, mod_long_long, PrintType, int_number, uint_number, uint_binary,
  uint_octal, uint_hex, double_hex, print_char, print_string, print_pointer, print_result,
  PrintConfig, Printed, bytes_of,
}
use windows_libc.Printf.Pad.Count.{
  amount, Counts, amount-append, print_int_formatted-Counts, print_uint_formatted-Counts,
}
use windows_libc.Printf.Print.{
  digits_by, nothing, block, behind_block, decoded, print_character, char_bytes, wide_loop,
  long_loop, string_units, spaces, print_text, print_address, pointer_encode, print_count,
  print_conversion, print_arg,
}

amount-spaces : (n : ℕ) → amount (spaces n) ≡ n
unfolding bytes_of
amount-spaces zero = refl
amount-spaces (suc n) = omega (arith, amount-spaces n)

block-Counts : (xs : List ℕ) → Counts (block xs)
unfolding bytes_of
block-Counts xs = rw (append-nil xs)

nothing-Counts : Counts nothing
unfolding bytes_of
nothing-Counts = omega arith

behind_block-Counts : (xs : List ℕ) (p : Printed) → Counts p → Counts (behind_block xs p)
unfolding bytes_of
behind_block-Counts xs p h = omega (arith, h, length-append xs (bytes_of p.effects))

wide_loop-Counts : (fuel count i : ℕ) (units : List ℕ) → Counts (wide_loop fuel count i units)
unfolding wide_loop
wide_loop-Counts zero count i units = nothing-Counts
wide_loop-Counts (suc fuel) count i units =
    let next = decoded (utf16_decode units 4) in
    elim (Bool-cases (ltb i count)) [
      | inl more ↦ elim (Bool-cases (next.1 == 0)) [
        | inl end ↦ simp (more, end) nothing-Counts
        | inr char ↦
            simp (more, char)
              (behind_block-Counts (utf8_encode next.1) _ (
                wide_loop-Counts fuel count (if next.0 == 4 then i + 2 else i + 1)
                  (drop (next.0 / 2) units)))
      ]
      | inr done ↦ rw done nothing-Counts
    ]

long_loop-Counts : (units : List ℕ) → Counts (long_loop units)
unfolding long_loop
long_loop-Counts [] = nothing-Counts
long_loop-Counts (u ∷ us) = behind_block-Counts (utf8_encode u) _ (long_loop-Counts us)

string_units-Counts :
    (m : PrintModifier) (units : List ℕ) (count : ℕ) → Counts (string_units m units count)
unfolding string_units
string_units-Counts mod_long units count = wide_loop-Counts count count 0 units
string_units-Counts mod_long_long units count = long_loop-Counts (take count units)
string_units-Counts _ units count = block-Counts (take count units)

-- Blanks before or behind what a printer writes.
with_blanks-Counts :
    (left : Bool) (p : Printed) (n : ℕ)
    → Counts p
    → u32 (n + p.count)
      ≡ u32 (amount (if left then p.effects ++ spaces n else spaces n ++ p.effects))
with_blanks-Counts true p n h =
    omega (arith, h, amount-append p.effects (spaces n), amount-spaces n)
with_blanks-Counts false p n h =
    omega (arith, h, amount-append (spaces n) p.effects, amount-spaces n)

print_text-Counts :
    (text_at : ℕ → ℕ → List ℕ) (config : PrintConfig) → Counts (print_text text_at config)
unfolding print_text
print_text-Counts text_at config =
    with_blanks-Counts config.flags.left_justify _ _ (string_units-Counts config.modifier _ _)

print_address-Counts : (config : PrintConfig) → Counts (print_address config)
unfolding print_address
print_address-Counts config =
    let temp = pointer_encode config.datum in
    let missing = config.width - length temp in
    let e : u32 (length temp + missing) ≡ u32 (missing + u32 (length temp)) = omega arith in
    e ∙ with_blanks-Counts config.flags.left_justify (block temp) missing (block-Counts temp)

-- Every printer counts what it prints.
abbrev pub CountsAll : Option Printed → Type 0
CountsAll none = Unit
CountsAll (some p) = Counts p

print_character-Counts : (config : PrintConfig) → CountsAll (print_character config)
unfolding print_character
print_character-Counts config = elim (Bool-cases (ltb 1 config.width)) [
  | inl wide ↦
      elim (Bool-cases
        (ltb 128 (length (char_bytes config.modifier config.datum) + (config.width - 1)))) [
          | inl over ↦ simp (wide, over) tt
          | inr fits ↦ simp (wide, fits) (block-Counts _)
        ]
  | inr narrow ↦ rw narrow (block-Counts _)
]

digits_by-Counts :
    (printer : List ℕ → Printed) (o : Option (List ℕ))
    → ((temp : List ℕ) → Counts (printer temp))
    → CountsAll (digits_by printer o)
digits_by-Counts printer none h = tt
digits_by-Counts printer (some temp) h = h temp

print_conversion-Counts :
    (float_hex : Bool → ℕ → List ℕ) (text_at : ℕ → ℕ → List ℕ) (t : PrintType)
    (config : PrintConfig)
    → CountsAll (print_conversion float_hex text_at t config)
unfolding print_conversion print_count bytes_of
print_conversion-Counts float_hex text_at int_number c =
    digits_by-Counts _ _ (print_int_formatted-Counts c)
print_conversion-Counts float_hex text_at uint_number c =
    digits_by-Counts _ _ (print_int_formatted-Counts c)
print_conversion-Counts float_hex text_at uint_binary c =
    digits_by-Counts _ _ (print_uint_formatted-Counts c)
print_conversion-Counts float_hex text_at uint_octal c =
    digits_by-Counts _ _ (print_uint_formatted-Counts c)
print_conversion-Counts float_hex text_at uint_hex c =
    digits_by-Counts _ _ (print_uint_formatted-Counts c)
print_conversion-Counts float_hex text_at double_hex c =
    block-Counts (float_hex c.flags.upper_case c.datum)
print_conversion-Counts float_hex text_at print_char c = print_character-Counts c
print_conversion-Counts float_hex text_at print_string c = print_text-Counts text_at c
print_conversion-Counts float_hex text_at print_pointer c = print_address-Counts c
print_conversion-Counts float_hex text_at print_result c = omega arith
print_conversion-Counts float_hex text_at _ c = nothing-Counts

-- Whatever `print_arg` is to print, where it returns at all: its result is the number of bytes that it hands to
-- the buffer, cut to 32 bits.
pub print_arg-Counts :
    (float_hex : Bool → ℕ → List ℕ) (text_at : ℕ → ℕ → List ℕ) (config : PrintConfig)
    → CountsAll (print_arg float_hex text_at config)
unfolding print_arg
print_arg-Counts float_hex text_at config =
    print_conversion-Counts float_hex text_at config.type config
