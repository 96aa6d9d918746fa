-- ===== src/Convert/Decimal/Scan.antt =====
-- The decimal reader, over the list of unread bytes: `parse_digits` and the loop of its caller as
-- one pass, for a number without a fraction.
use windows_libc.Common.{
  ℕ, ◌+◌, ◌-◌, ◌≡◌, Bool, true, false, ◌&&◌, ◌||◌, not, List, [], ◌∷◌, arith, leb, ◌==◌,
  if◌then◌else◌, get_or, u8, u32,
}
use windows_libc.Convert.Decimal.{is_digit, comma}

pub record Scanned : Type 0 where
  pub count : ℕ
  pub value : ℕ
  pub rest : List ℕ

-- `g`: a comma has been met; `p`: the digits since then.
abbrev pub closes : Bool → ℕ → Bool
closes g p = if g then p == 3 else leb p 3

abbrev pub three_digits : List ℕ → Bool
three_digits xs = is_digit (get_or xs 0 0) && (is_digit (get_or xs 1 0) && is_digit (get_or xs 2 0))

module _ (next : ℕ → ℕ → ℕ) (grouped : Bool) where
  unfoldable pub scan : List ℕ → Bool → ℕ → ℕ → ℕ → Scanned
  scan [] g p value count = record { count = count; value = value; rest = [] }
  scan (x ∷ xs) g p value count =
      let stop : Scanned = record { count = count; value = value; rest = x ∷ xs } in
      let after_digit = scan xs g (u8 (p + 1)) (next value (x - b'0')) (u32 (count + 1)) in
      let after_comma = scan xs true 0 value (u32 (count + 1)) in
      if x == 0
      then stop
      else if is_digit x
      then (if g && p == 3 then stop else after_digit)
      else if not (x == comma) || not grouped
      then stop
      else if get_or xs 0 0 == 0
      then record { count = u32 (count + 1); value = value; rest = xs }
      else if closes g p && three_digits xs
      then after_comma
      else stop

  -- A digit that the group has room for is taken.
  pub scan_digit :
      (x : ℕ) (xs : List ℕ) (g : Bool) (p value count : ℕ)
      → is_digit x ≡ true
      → (g && p == 3) ≡ false
      → scan (x ∷ xs) g p value count
        ≡ scan xs g (u8 (p + 1)) (next value (x - b'0')) (u32 (count + 1))
  unfolding scan
  scan_digit x xs g p value count d below = ground arith

  -- A comma that closes a group and begins one is taken.
  pub scan-comma :
      (xs : List ℕ) (g : Bool) (p value count : ℕ)
      → grouped ≡ true
      → closes g p ≡ true
      → three_digits xs ≡ true
      → scan (comma ∷ xs) g p value count ≡ scan xs true 0 value (u32 (count + 1))
  unfolding scan
  scan-comma xs g p value count on c t = ground arith
