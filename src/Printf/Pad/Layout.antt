-- ===== src/Printf/Pad/Layout.antt =====
use windows_libc.Common.{
  ℕ, zero, suc, ◌+◌, ◌-◌, ◌^◌, ◌≤◌, ◌<◌, max, ◌≡◌, refl, sym, ap, ◌∙◌, inl, inr, Bool, true, List,
  [], ◌∷◌, ◌++◌, append-nil, append_assoc, arith, ltb, if◌then◌else◌, Bool-cases, length, replicate,
  length-append, length-replicate, ltb→lt, leb→le, u32,
}
use windows_libc.Printf.{PrintConfig, Effect, write_byte, write_n, store, Printed, bytes_of}
use windows_libc.Printf.Pad.{
  pad_loop, put_bytes, print_left, print_zeros, print_blanks, print_plain, print_marked,
}

pub bytes_of-append : (es fs : List Effect) → bytes_of (es ++ fs) ≡ bytes_of es ++ bytes_of fs
unfolding bytes_of
bytes_of-append [] fs = refl
bytes_of-append (write_byte c ∷ es) fs = ap (λ xs. c ∷ xs) (bytes_of-append es fs)
bytes_of-append (write_n cs ∷ es) fs =
    rw (bytes_of-append es fs) (sym (append_assoc cs (bytes_of es) (bytes_of fs)))
bytes_of-append (store a bits v ∷ es) fs = bytes_of-append es fs

pub bytes_of-put_bytes : (cs : List ℕ) → bytes_of (put_bytes cs) ≡ cs
unfolding bytes_of put_bytes
bytes_of-put_bytes [] = refl
bytes_of-put_bytes (c ∷ cs) = ap (λ xs. c ∷ xs) (bytes_of-put_bytes cs)

-- The loop with enough fuel writes as many bytes as are missing.
pad_loop_bytes :
    (byte offset limit fuel pos : ℕ)
    → limit < 2 ^ 32
    → pos + offset < 2 ^ 32
    → limit ≤ fuel + (pos + offset)
    → (bytes_of (pad_loop byte offset limit fuel pos).0 ≡ replicate (limit - (pos + offset)) byte)
      × ((pad_loop byte offset limit fuel pos).1 ≡ pos + (limit - (pos + offset)))
unfolding pad_loop bytes_of
pad_loop_bytes byte offset limit zero pos h k f =
    let e : limit - (pos + offset) ≡ 0 = omega arith in rw e (refl, omega arith)
pad_loop_bytes byte offset limit (suc fuel) pos h k f =
    let here : u32 (pos + offset) ≡ pos + offset = omega arith in
    elim (Bool-cases (ltb (u32 (pos + offset)) limit)) [
      | inl more ↦
          let below : pos + offset < limit = rw here at (ltb→lt _ _ more) in
          let next : u32 (pos + 1) ≡ pos + 1 = omega arith in
          let left : limit - (pos + offset) ≡ suc (limit - (pos + 1 + offset)) = omega arith in
          let (written, reached) =
            pad_loop_bytes byte offset limit fuel (pos + 1) h (omega arith) (omega arith) in
          rw (more, next, left) (ap (λ xs. byte ∷ xs) written, omega (arith, reached))
      | inr done ↦
          let none_left : limit - (pos + offset) ≡ 0 = ground arith in
          rw (done, none_left) (refl, omega arith)
    ]

-- How the C standard lays a number out: the mark, zeros up to the precision, the digits, and blanks
-- or zeros up to the width. The commas among the digits (`commas` of them) do not count for the precision.
unfoldable pub layout : Bool → Bool → ℕ → ℕ → List ℕ → List ℕ → ℕ → List ℕ
layout left padded width precision mark digits commas =
    let body = mark ++ (replicate (precision - (length digits - commas)) b'0' ++ digits) in
    let missing = width - length body in
    if left
    then body ++ replicate missing b' '
    else if padded
    then mark ++ (replicate missing b'0' ++ digits)
    else replicate missing b' ' ++ body

-- A printed number piece by piece.
pub bytes_of_parts :
    (mark : List ℕ) (zeros : List Effect) (digits : List ℕ) (behind : List Effect)
    → bytes_of (put_bytes mark ++ (zeros ++ (write_n digits ∷ behind)))
      ≡ (mark ++ (bytes_of zeros ++ digits)) ++ bytes_of behind
unfolding bytes_of
bytes_of_parts mark zeros digits behind = simp (bytes_of-append, bytes_of-put_bytes, append_assoc)

-- The bytes of a printer, and that it returns how many they are.
pub record Prints (p : Printed) (xs : List ℕ) : Type 0 where
  pub bytes : bytes_of p.effects ≡ xs
  pub counted : p.count ≡ length xs

-- The loop that starts at 0, and the loop without an offset.
pad_loop_zeros :
    (byte offset limit : ℕ)
    → limit < 2 ^ 32
    → offset < 2 ^ 32
    → (bytes_of (pad_loop byte offset limit limit 0).0 ≡ replicate (limit - offset) byte)
      × ((pad_loop byte offset limit limit 0).1 ≡ limit - offset)
pad_loop_zeros byte offset limit h k =
    let e : 0 + offset ≡ offset = omega arith in
    let (written, reached) =
      pad_loop_bytes byte offset limit limit 0 h (omega arith) (omega arith) in
    (rw e at written, omega (arith, reached))

pad_loop_from :
    (byte limit pos : ℕ)
    → limit < 2 ^ 32
    → pos < 2 ^ 32
    → (bytes_of (pad_loop byte 0 limit limit pos).0 ≡ replicate (limit - pos) byte)
      × ((pad_loop byte 0 limit limit pos).1 ≡ pos + (limit - pos))
pad_loop_from byte limit pos h k =
    let e : pos + 0 ≡ pos = omega arith in
    let (written, reached) = pad_loop_bytes byte 0 limit limit pos h (omega arith) (omega arith) in
    (rw e at written, omega (arith, reached))

module _ (config : PrintConfig) (mark digits : List ℕ) (period : ℕ)
    (width_small : config.width < 2 ^ 31) (precision_small : config.precision < 2 ^ 31)
    (mark_small : length mark < 2 ^ 8) (digits_small : length digits < 2 ^ 8)
    (commas : period ≤ length digits) where
  shown : u32 (length digits + 2 ^ 32 - period) ≡ length digits - period
  shown = omega arith

  abbrev body : List ℕ
  body = mark ++ (replicate (config.precision - (length digits - period)) b'0' ++ digits)

  length-body :
      length body ≡ length mark + (config.precision - (length digits - period) + length digits)
  length-body = omega (
    arith,
    length-append mark (replicate (config.precision - (length digits - period)) b'0' ++ digits),
    length-append (replicate (config.precision - (length digits - period)) b'0') digits,
    length-replicate {A = ℕ} (config.precision - (length digits - period)) b'0',
  )

  print_left-Prints :
      Prints
        (print_left config mark digits period)
        (body ++ replicate (config.width - length body) b' ')
  unfolding print_left
  print_left-Prints =
      let (zeros, pos) =
        pad_loop_zeros b'0' (length digits - period) config.precision (omega arith) (omega arith) in
      let reached : u32
            (length digits + (config.precision - (length digits - period)) + length mark)
          ≡ length body =
        omega (arith, length-body) in
      let (blanks, total) =
        pad_loop_from b' ' config.width (length body) (omega arith) (omega (arith, length-body)) in
      rw (shown, pos, reached)
        (record {
          bytes = bytes_of_parts mark _ digits _ ∙ rw (zeros, blanks);
          counted = omega (
            arith,
            total,
            length-append body (replicate (config.width - length body) b' '),
            length-replicate {A = ℕ} (config.width - length body) b' ',
          );
        })

  print_plain-Prints : Prints (print_plain config mark digits period) body
  unfolding print_plain bytes_of
  print_plain-Prints =
      let (zeros, pos) =
        pad_loop_zeros b'0' (length digits - period) config.precision (omega arith) (omega arith) in
      rw (shown, pos)
        (record {
          bytes = bytes_of_parts mark _ digits _ ∙ rw (zeros, append-nil);
          counted = omega (arith, length-body);
        })

  print_blanks-Prints :
      Prints
        (print_blanks config mark digits period)
        (replicate (config.width - length body) b' ' ++ body)
  unfolding print_blanks bytes_of
  print_blanks-Prints =
      let count : u32 (max config.precision (length digits - period) + length mark + period)
          ≡ length body =
        omega (arith, length-body) in
      let (zeros, more) =
        pad_loop_zeros b'0' (length digits - period) config.precision (omega arith) (omega arith) in
      let (blanks, pos) =
        pad_loop_zeros b' ' (length body) config.width (omega arith) (omega (arith, length-body)) in
      rw (shown, count, pos, more)
        (record {
          bytes = rw (bytes_of-append, blanks, bytes_of_parts, zeros, append-nil);
          counted = omega (
            arith,
            length-body,
            length-append (replicate (config.width - length body) b' ') body,
            length-replicate {A = ℕ} (config.width - length body) b' ',
          );
        })

  print_zeros-Prints :
      Prints
        (print_zeros config mark digits)
        (mark ++ (replicate (config.width - (length mark + length digits)) b'0' ++ digits))
  unfolding print_zeros bytes_of
  print_zeros-Prints =
      let (zeros, pos) =
        pad_loop_bytes b'0' (length digits) config.width config.width (length mark) (omega arith)
          (omega arith) (omega arith) in
      rw (pos) (record {
        bytes = bytes_of_parts mark _ digits _ ∙ rw (zeros, append-nil);
        counted = omega (
          arith,
          length-append mark
              (replicate (config.width - (length mark + length digits)) b'0' ++ digits),
          length-append (replicate (config.width - (length mark + length digits)) b'0') digits,
          length-replicate {A = ℕ} (config.width - (length mark + length digits)) b'0',
        );
      })

  -- With the width and the precision below 2 ^ 31, and a precision of 0 wherever zeros fill the width, the
  -- branches together print the layout and return how many bytes they print.
  pub print_marked-Prints :
      (config.flags.zero_padded ≡ true → config.precision ≡ 0)
      → Prints (print_marked config mark digits period) (
          layout config.flags.left_justify config.flags.zero_padded config.width config.precision
            mark digits period)
  unfolding print_marked layout
  print_marked-Prints z = elim (Bool-cases config.flags.left_justify) [
    | inl left ↦ rw left print_left-Prints
    | inr right ↦ elim (Bool-cases (ltb (max config.precision (length digits)) config.width)) [
      | inl wide ↦ elim (Bool-cases config.flags.zero_padded) [
        | inl padded ↦
            let exact : config.precision - (length digits - period) ≡ 0 = omega (arith, z padded) in
            let missing : config.width - length body
                ≡ config.width - (length mark + length digits) =
              omega (arith, length-body, z padded) in
            simp (right, wide, padded, missing) print_zeros-Prints
        | inr spaced ↦ simp (right, wide, spaced) print_blanks-Prints
      ]
      | inr narrow ↦
          let gone : config.width - length body ≡ 0 =
            ground
              (arith, length-body, leb→le (max config.precision (length digits)) config.width) in
          elim (Bool-cases config.flags.zero_padded) [
            | inl padded ↦
                let exact : config.precision - (length digits - period) ≡ 0 =
                  omega (arith, z padded) in
                simp (right, narrow, padded, gone) (rw exact at print_plain-Prints)
            | inr spaced ↦ simp (right, narrow, spaced, gone) print_plain-Prints
          ]
    ]
  ]
