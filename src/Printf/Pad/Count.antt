-- ===== src/Printf/Pad/Count.antt =====
-- What the printers of numbers (src/stdio/printf.c) return, against the bytes that they hand to the buffer.
use windows_libc.Common.{
  ℕ, zero, suc, ◌+◌, ◌-◌, ◌^◌, ◌<◌, max, ◌≡◌, inl, inr, Bool, true, false, List, [], ◌∷◌, ◌++◌,
  arith, ltb, if◌then◌else◌, Bool-cases, length, length-append, u32,
}
use windows_libc.Printf.{PrintConfig, Effect, write_n, Printed, bytes_of}
use windows_libc.Printf.Pad.{
  pad_loop, put_bytes, print_left, print_zeros, print_blanks, print_plain, print_marked, take_sign,
  print_int_formatted, alternate_form_char, print_uint_formatted,
}
use windows_libc.Printf.Pad.Layout.{bytes_of-append, bytes_of_parts}

-- How many bytes the effects hand over.
abbrev pub amount : List Effect → ℕ
amount es = length (bytes_of es)

-- The count of a printer is that number as a `uint32_t`.
abbrev pub Counts : Printed → Type 0
Counts p = p.count ≡ u32 (amount p.effects)

pub amount-append : (es fs : List Effect) → amount (es ++ fs) ≡ amount es + amount fs
amount-append es fs = rw (bytes_of-append es fs) (length-append (bytes_of es) (bytes_of fs))

pad_loop_count :
    (byte offset limit fuel pos : ℕ)
    → pos < 2 ^ 32
    → (u32 (pos + amount (pad_loop byte offset limit fuel pos).0)
        ≡ (pad_loop byte offset limit fuel pos).1)
unfolding pad_loop bytes_of
pad_loop_count byte offset limit zero pos h = omega arith
pad_loop_count byte offset limit (suc fuel) pos h =
    elim (Bool-cases (ltb (u32 (pos + offset)) limit)) [
      | inl more ↦
          rw more
            (omega (arith, pad_loop_count byte offset limit fuel (u32 (pos + 1)) (omega arith)))
      | inr done ↦ rw done (omega arith)
    ]

amount_parts :
    (mark : List ℕ) (zeros : List Effect) (digits : List ℕ) (behind : List Effect)
    → amount (put_bytes mark ++ (zeros ++ (write_n digits ∷ behind)))
      ≡ length mark + amount zeros + length digits + amount behind
amount_parts mark zeros digits behind = rw (bytes_of_parts mark zeros digits behind) (
    omega (
      arith,
      length-append (mark ++ (bytes_of zeros ++ digits)) (bytes_of behind),
      length-append mark (bytes_of zeros ++ digits),
      length-append (bytes_of zeros) digits,
    ))

module _ (config : PrintConfig) (mark digits : List ℕ) (period : ℕ) where
  print_left-Counts : Counts (print_left config mark digits period)
  unfolding print_left
  print_left-Counts =
      let shown = u32 (length digits + 2 ^ 32 - period) in
      let zeros = pad_loop b'0' shown config.precision config.precision 0 in
      let reached = u32 (length digits + zeros.1 + length mark) in
      let blanks = pad_loop b' ' 0 config.width config.width reached in
      omega (
        arith,
        amount_parts mark zeros.0 digits blanks.0,
        pad_loop_count b'0' shown config.precision config.precision 0 (omega arith),
        pad_loop_count b' ' 0 config.width config.width reached (omega arith),
      )

  print_zeros-Counts : length mark < 2 ^ 32 → Counts (print_zeros config mark digits)
  unfolding print_zeros bytes_of
  print_zeros-Counts h = omega (
    arith,
    amount_parts mark (pad_loop b'0' (length digits) config.width config.width (length mark)).0
        digits [],
    pad_loop_count b'0' (length digits) config.width config.width (length mark) h,
  )

  print_blanks-Counts : Counts (print_blanks config mark digits period)
  unfolding print_blanks bytes_of
  print_blanks-Counts =
      let shown = u32 (length digits + 2 ^ 32 - period) in
      let zeros = pad_loop b'0' shown config.precision config.precision 0 in
      let offset = u32 (max config.precision shown + length mark + period) in
      let blanks = pad_loop b' ' offset config.width config.width 0 in
      omega (
        arith,
        amount-append blanks.0 (put_bytes mark ++ (zeros.0 ++ write_n digits ∷ [])),
        amount_parts mark zeros.0 digits [],
        pad_loop_count b'0' shown config.precision config.precision 0 (omega arith),
        pad_loop_count b' ' offset config.width config.width 0 (omega arith),
      )

  print_plain-Counts : Counts (print_plain config mark digits period)
  unfolding print_plain bytes_of
  print_plain-Counts =
      let shown = u32 (length digits + 2 ^ 32 - period) in
      let zeros = pad_loop b'0' shown config.precision config.precision 0 in
      omega (
        arith,
        amount_parts mark zeros.0 digits [],
        pad_loop_count b'0' shown config.precision config.precision 0 (omega arith),
      )

  pub print_marked-Counts : length mark < 2 ^ 32 → Counts (print_marked config mark digits period)
  unfolding print_marked
  print_marked-Counts h = elim (Bool-cases config.flags.left_justify) [
    | inl left ↦ rw left print_left-Counts
    | inr right ↦ elim (Bool-cases (ltb (max config.precision (length digits)) config.width)) [
      | inl wide ↦ elim (Bool-cases config.flags.zero_padded) [
        | inl padded ↦ simp (right, wide, padded) (print_zeros-Counts h)
        | inr spaced ↦ simp (right, wide, spaced) print_blanks-Counts
      ]
      | inr narrow ↦ simp (right, narrow) print_plain-Counts
    ]
  ]

take_sign_one : (space : Bool) (temp : List ℕ) → length (take_sign space temp).0 < 2 ^ 32
unfolding take_sign
take_sign_one space [] = omega arith
take_sign_one space (c ∷ cs) = ground arith

pub print_int_formatted-Counts :
    (config : PrintConfig) (temp : List ℕ) → Counts (print_int_formatted config temp)
unfolding print_int_formatted
print_int_formatted-Counts config temp =
    print_marked-Counts config _ _ _ (take_sign_one config.flags.empty_space temp)

prefix_short :
    (alternate : Bool) (c : ℕ) → length (if alternate then b'0' ∷ c ∷ [] else []) < 2 ^ 32
prefix_short true c = omega arith
prefix_short false c = omega arith

pub print_uint_formatted-Counts :
    (config : PrintConfig) (temp : List ℕ) → Counts (print_uint_formatted config temp)
unfolding print_uint_formatted
print_uint_formatted-Counts config temp =
    print_marked-Counts config _ _ _
      (prefix_short config.flags.alternate (alternate_form_char config))
