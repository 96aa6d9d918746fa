-- ===== src/Convert/Decimal/Bridge.antt =====
-- The decimal readers over a buffer and the scan of its unread bytes.
use windows_libc.Common.{
  ℕ, zero, suc, ◌+◌, ◌-◌, ◌≤◌, ◌<◌, ◌≡◌, refl, inl, inr, Bool, true, false, ◌&&◌, ◌||◌, not, Option,
  some, List, [], ◌∷◌, arith, ◌==◌, Bool-cases, length, get_or, u8, u32,
}
use windows_libc.Buffer.{Buffer, readbyte, peekbyte}
use windows_libc.Buffer.View.{Reads, peekbyte-get_or, readbyte-Reads}
use windows_libc.Convert.Radix.{Parsed, read_rounds}
use windows_libc.Convert.Radix.Scan.{length-rest}
use windows_libc.Convert.Decimal.{
  DigitParseState, groups, is_digit, comma, parse_digits, use_digit, from_dec_loop,
}
use windows_libc.Convert.Decimal.Scan.{Scanned, closes, three_digits, scan}

-- A reader returned what the scan says, and the buffer is behind what was read.
pub record Returns (s : Scanned) (o : Option Parsed) : Type 0 where
  pub behind : Buffer
  pub returns : o ≡ some (record { count = s.count; value = s.value; buffer = behind })
  pub reads : Reads behind s.rest

abbrev state : Bool → ℕ → ℕ → DigitParseState
state g p flags = record { period = p; grouping = g; fraction = false; flags = flags }

module _ (next : ℕ → ℕ → ℕ) (flags : ℕ) where
  abbrev Loop : ℕ → List ℕ → Type 0
  Loop fuel xs =
      (b : Buffer) (g : Bool) (p value count : ℕ)
      → Reads b xs
      → Returns (scan next (groups flags) xs g p value count)
          (from_dec_loop next fuel (state g p flags) b value count)

  -- One call of `parse_digits`, with the loop of the caller behind it.
  module _ (fuel outer : ℕ) (b : Buffer) (x : ℕ) (xs : List ℕ) (g : Bool) (p value count : ℕ)
      (r : Reads b (x ∷ xs)) (loop : Loop outer xs)
      (goto : (c : Buffer)
        → Reads c xs
        → Returns (scan next (groups flags) xs true 0 value (u32 (count + 1))) (
            use_digit next
              (from_dec_loop next outer)
              value
              (parse_digits fuel (state true 0 flags) c (u32 (count + 1))))) where
    abbrev Goal : Type 0
    Goal = Returns (scan next (groups flags) (x ∷ xs) g p value count) (
        use_digit next (from_dec_loop next outer) value
          (parse_digits (suc fuel) (state g p flags) b count))

    e0 : peekbyte b 0 ≡ x
    e0 = peekbyte-get_or 0 r

    e1 : peekbyte b 1 ≡ get_or xs 0 0
    e1 = peekbyte-get_or 1 r

    e2 : peekbyte b 2 ≡ get_or xs 1 0
    e2 = peekbyte-get_or 2 r

    e3 : peekbyte b 3 ≡ get_or xs 2 0
    e3 = peekbyte-get_or 3 r

    at_digit : (x == 0) ≡ false → is_digit x ≡ true → Goal
    unfolding parse_digits use_digit scan
    at_digit n d = elim (Bool-cases (g && p == 3)) [
      | inl full ↦ simp (e0, n, d, full) (record { behind = b; returns = refl; reads = r })
      | inr room ↦
          simp (e0, n, d, room)
            (loop (readbyte b).1 g (u8 (p + 1)) (next value (x - b'0')) (u32 (count + 1))
              (readbyte-Reads r).1)
    ]

    at_comma :
        (x == 0) ≡ false
        → is_digit x ≡ false
        → (not (x == comma) || not (groups flags)) ≡ false
        → Goal
    unfolding parse_digits use_digit scan
    at_comma n d c = elim (Bool-cases (get_or xs 0 0 == 0)) [
      | inl last ↦
          simp (e0, e1, n, d, c, last)
            (record { behind = (readbyte b).1; returns = refl; reads = (readbyte-Reads r).1 })
      | inr more ↦ elim (Bool-cases (closes g p)) [
        | inr bad ↦
            simp (e0, e1, n, d, c, more, bad) (record { behind = b; returns = refl; reads = r })
        | inl ok ↦ elim (Bool-cases (three_digits xs)) [
          | inl three ↦
              simp (e0, e1, e2, e3, n, d, c, more, ok, three)
                (goto (readbyte b).1 (readbyte-Reads r).1)
          | inr short ↦
              simp (e0, e1, e2, e3, n, d, c, more, ok, short)
                (record { behind = b; returns = refl; reads = r })
        ]
      ]
    ]

    parse_digits-Returns : Goal
    parse_digits-Returns = elim (Bool-cases (x == 0)) [
      | inl z ↦
          unfold parse_digits use_digit scan in
          simp (e0, z) (record { behind = b; returns = refl; reads = r })
      | inr n ↦ elim (Bool-cases (is_digit x)) [
        | inl d ↦ at_digit n d
        | inr d ↦ elim (Bool-cases (not (x == comma) || not (groups flags))) [
          | inl other ↦
              unfold parse_digits use_digit scan in
              simp (e0, n, d, other) (record { behind = b; returns = refl; reads = r })
          | inr c ↦ at_comma n d c
        ]
      ]
    ]

  loop_step :
      {s : Scanned} (outer : ℕ) (st : DigitParseState) (b : Buffer) (value count : ℕ)
      → Returns s (
          use_digit next (from_dec_loop next outer) value (parse_digits (read_rounds b) st b count))
      → Returns s (from_dec_loop next (suc outer) st b value count)
  unfolding from_dec_loop
  loop_step outer st b value count r = r

  call-Returns :
      (xs : List ℕ) (fuel outer : ℕ) (b : Buffer) (g : Bool) (p value count : ℕ)
      → length xs < fuel
      → length xs ≤ outer
      → Reads b xs
      → Returns (scan next (groups flags) xs g p value count) (
          use_digit next
            (from_dec_loop next outer)
            value
            (parse_digits fuel (state g p flags) b count))
  call-Returns xs zero outer b g p value count f o r = absurd (omega arith)
  call-Returns [] (suc fuel) outer b g p value count f o r =
      unfold parse_digits use_digit scan in
      simp (peekbyte-get_or 0 r) (record { behind = b; returns = refl; reads = r })
  call-Returns (x ∷ xs) (suc fuel) zero b g p value count f o r = absurd (omega arith)
  call-Returns (x ∷ xs) (suc fuel) (suc outer) b g p value count f o r =
      parse_digits-Returns fuel (suc outer) b x xs g p value count r
        (λ c g' p' value' count' r'. loop_step outer (state g' p' flags) c value' count' (
          call-Returns xs (read_rounds c) outer c g' p' value' count' (length-rest r') (omega arith)
            r'))
        (λ c r'.
          call-Returns xs fuel (suc outer) c true 0 value (u32 (count + 1)) (omega arith)
            (omega arith) r')

  -- From every buffer that can be read the reader returns, with the scan of the unread bytes.
  pub from_dec_loop-Returns :
      (xs : List ℕ) (fuel : ℕ) (b : Buffer) (value count : ℕ)
      → length xs < fuel
      → Reads b xs
      → Returns
          (scan next (groups flags) xs false 0 value count)
          (from_dec_loop next fuel (state false 0 flags) b value count)
  from_dec_loop-Returns xs zero b value count f r = absurd (omega arith)
  from_dec_loop-Returns xs (suc fuel) b value count f r =
      loop_step fuel (state false 0 flags) b value count
        (call-Returns xs (read_rounds b) fuel b false 0 value count (length-rest r) (omega arith) r)
