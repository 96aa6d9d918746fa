-- ===== src/Convert/Radix/RoundTrip.antt =====
-- The loops that write and read digits of a power of two, one after the other.
use windows_libc.Common.{
  ℕ, zero, suc, ◌+◌, ◌*◌, ◌/◌, ◌%◌, ◌^◌, ◌≤◌, ◌<◌, ◌≡◌, refl, ◌∙◌, ◌≢◌, Option, none, some, List,
  [], ◌∷◌, ◌++◌, reverse, reverse_snoc, length-reverse, arith, length, length-append, u32, u64,
}
use native.Mathlib.Decide.{ℕ_discrete}
use native.Mathlib.Nat.{le-div_iff_mul-le, div-add-mod', mod-lt, one-le-pow, pow-suc, pow-zero}
use windows_libc.Common.Bits.{bit_and_mask}
use windows_libc.Buffer.{Buffer}
use windows_libc.Buffer.View.{Reads}
use windows_libc.Convert.Radix.{to_loop, copy_back, Parsed, from_loop, read_rounds}
use windows_libc.Convert.Radix.Scan.{Ends, Returns, scan, scan_end, scan_digit, reader-Returns}

-- The table of a base and the test of its reader belong together.
pub record IsRadix (table : ℕ → ℕ) (digit : ℕ → Option ℕ) (shift : ℕ) : Type 0 where
  pub nonzero : (d : ℕ) → d < 2 ^ shift → table d ≢ 0
  pub inverse : (d : ℕ) → d < 2 ^ shift → digit (table d) ≡ some d

div-lt : (x base f : ℕ) → 0 < base → x < base ^ suc f → x / base < base ^ f
div-lt x base f p h = grind (arith, pow-suc base f)

-- The text that a reader leaves does not begin with a digit.
abbrev pub Stops : (ℕ → Option ℕ) → List ℕ → Type 0
Stops digit [] = Unit
Stops digit (x ∷ xs) = Ends digit x

-- `o` holds at most `most` digits, and a reader that meets them before a text that does not go on
-- with a digit returns `x` and their number, and stands behind them.
pub record ReadsBack (digit : ℕ → Option ℕ) (reader : Buffer → Option Parsed) (x most : ℕ)
    (o : Option (List ℕ)) : Type 0 where
  pub out : List ℕ
  pub written : o ≡ some out
  pub positive : 0 < length out
  pub bounded : length out ≤ most
  pub read :
      (b : Buffer) (rest : List ℕ)
      → Reads b (out ++ rest)
      → Stops digit rest
      → Returns (record { count = length out; value = x; rest = rest }) (reader b)

module _ (table : ℕ → ℕ) (digit : ℕ → Option ℕ) (shift : ℕ) (law : IsRadix table digit shift) where
  -- The digits that the loop puts behind `temp`; reading them backwards gives `x` first, and goes
  -- on with `temp`.
  record Emits (x fuel : ℕ) (temp : List ℕ) (o : Option (List ℕ)) : Type 0 where
    out : List ℕ
    returns : o ≡ some out
    count : ℕ
    positive : 0 < count
    bounded : count ≤ fuel
    same_length : length out ≡ length temp + count
    scans :
        (rest : List ℕ)
        → scan digit shift (reverse out ++ rest) 0 0
          ≡ scan digit shift (reverse temp ++ rest) x count

  -- One round of the writer.
  to_loop_last :
      (fuel x : ℕ) (temp : List ℕ)
      → length temp < 32
      → x / 2 ^ shift ≡ 0
      → to_loop table shift (suc fuel) x temp ≡ some (temp ++ table (x % 2 ^ shift) ∷ [])
  unfolding to_loop
  to_loop_last fuel x temp c z = ground (arith, bit_and_mask shift x)

  to_loop_more :
      (fuel x : ℕ) (temp : List ℕ)
      → length temp < 32
      → x / 2 ^ shift ≢ 0
      → to_loop table shift (suc fuel) x temp
        ≡ to_loop table shift fuel (x / 2 ^ shift) (temp ++ table (x % 2 ^ shift) ∷ [])
  unfolding to_loop
  to_loop_more fuel x temp c z = ground (arith, bit_and_mask shift x)

  -- Reading the last digit of `x` after the others gives `x`.
  scan_last :
      (x count : ℕ) (temp rest : List ℕ)
      → x < 2 ^ 64
      → count < 32
      → scan digit shift
          (reverse (temp ++ table (x % 2 ^ shift) ∷ []) ++ rest)
          (x / 2 ^ shift)
          count
        ≡ scan digit shift (reverse temp ++ rest) x (count + 1)
  scan_last x count temp rest w c =
      let below : x % 2 ^ shift < 2 ^ shift = mod-lt x (one-le-pow shift 2 (omega arith)) in
      let e : u64 (x / 2 ^ shift * 2 ^ shift + x % 2 ^ shift) ≡ x =
        omega (arith, div-add-mod' x (2 ^ shift)) in
      let e' : u32 (count + 1) ≡ count + 1 = omega arith in
      rw (
        reverse_snoc temp,
        scan_digit digit shift _ _ _ _ (law.nonzero _ below) (law.inverse _ below),
        e,
        e',
      )

  Emits-last :
      (n fuel x : ℕ) (temp : List ℕ)
      → x < 2 ^ 64
      → length temp < 32
      → x / 2 ^ shift ≡ 0
      → Emits x (suc n) temp (to_loop table shift (suc fuel) x temp)
  Emits-last n fuel x temp w c last = record {
    out = temp ++ table (x % 2 ^ shift) ∷ [];
    returns = to_loop_last fuel x temp c last;
    count = 1;
    positive = omega arith;
    bounded = omega arith;
    same_length = length-append temp (table (x % 2 ^ shift) ∷ []);
    scans = λ rest. rw last at (scan_last x 0 temp rest w (omega arith));
  }

  Emits-more :
      (n fuel x : ℕ) (temp : List ℕ)
      → x < 2 ^ 64
      → length temp < 32
      → n < 32
      → x / 2 ^ shift ≢ 0
      → Emits
          (x / 2 ^ shift)
          n
          (temp ++ table (x % 2 ^ shift) ∷ [])
          (to_loop table shift fuel (x / 2 ^ shift) (temp ++ table (x % 2 ^ shift) ∷ []))
      → Emits x (suc n) temp (to_loop table shift (suc fuel) x temp)
  Emits-more n fuel x temp w c l more e = record {
    out = e.out;
    returns = to_loop_more fuel x temp c more ∙ e.returns;
    count = e.count + 1;
    positive = omega arith;
    bounded = omega (arith, e.bounded);
    same_length = omega (arith, e.same_length, length-append temp (table (x % 2 ^ shift) ∷ []));
    scans = λ rest. e.scans rest ∙ scan_last x e.count temp rest w (omega (arith, e.bounded));
  }

  to_loop-Emits :
      (n fuel x : ℕ) (temp : List ℕ)
      → n ≤ fuel
      → x < (2 ^ shift) ^ suc n
      → x < 2 ^ 64
      → length temp + suc n ≤ 32
      → Emits x (suc n) temp (to_loop table shift (suc fuel) x temp)
  to_loop-Emits zero fuel x temp f h w c =
      let below : x / 2 ^ shift < 1 = omega (
        arith,
        div-lt x (2 ^ shift) 0 (one-le-pow shift 2 (omega arith)) h,
        pow-zero (2 ^ shift),
      ) in
      Emits-last zero fuel x temp w (omega arith) (omega arith)
  to_loop-Emits (suc n) zero x temp f h w c = absurd (omega arith)
  to_loop-Emits (suc n) (suc fuel) x temp f h w c = elim (ℕ_discrete (x / 2 ^ shift) 0) [
    | yes last ↦ Emits-last (suc n) (suc fuel) x temp w (omega arith) last
    | no more ↦ Emits-more (suc n) (suc fuel) x temp w (omega arith) (omega arith) more (
        to_loop-Emits n fuel (x / 2 ^ shift) (temp ++ table (x % 2 ^ shift) ∷ []) (omega arith)
          (div-lt x (2 ^ shift) (suc n) (one-le-pow shift 2 (omega arith)) h)
          (omega (arith, div-add-mod' x (2 ^ shift)))
          (omega (arith, length-append temp (table (x % 2 ^ shift) ∷ []))))
  ]

  -- With too few places for the digits, the loop writes behind `temp`.
  pub to_loop_fault :
      (n fuel x : ℕ) (temp : List ℕ)
      → length temp + n ≡ 32
      → (2 ^ shift) ^ n ≤ x
      → to_loop table shift fuel x temp ≡ none
  to_loop_fault n zero x temp c h = unfold to_loop in refl
  to_loop_fault zero (suc fuel) x temp c h = unfold to_loop in ground arith
  to_loop_fault (suc n) (suc fuel) x temp c h =
      let big : (2 ^ shift) ^ n ≤ x / 2 ^ shift =
        (le-div_iff_mul-le (one-le-pow shift 2 (omega arith))).1 (rw (← pow-suc (2 ^ shift) n) h) in
      let pos : 0 < (2 ^ shift) ^ n = one-le-pow n (2 ^ shift) (one-le-pow shift 2 (omega arith)) in
      to_loop_more fuel x temp (omega arith) (omega arith)
      ∙ to_loop_fault n fuel (x / 2 ^ shift) (temp ++ table (x % 2 ^ shift) ∷ [])
          (omega (arith, length-append temp (table (x % 2 ^ shift) ∷ []))) big

  scan_stop :
      (rest : List ℕ) (value count : ℕ)
      → Stops digit rest
      → scan digit shift rest value count ≡ record { count = count; value = value; rest = rest }
  scan_stop [] value count h = unfold scan in refl
  scan_stop (x ∷ xs) value count h = scan_end digit shift x xs value count h

  pub writer-ReadsBack :
      (n x : ℕ)
      → n < 32
      → x < (2 ^ shift) ^ suc n
      → x < 2 ^ 64
      → ReadsBack digit
          (λ b. from_loop digit shift (read_rounds b) b 0 0)
          x
          (suc n)
          (copy_back (to_loop table shift 64 x []))
  writer-ReadsBack n x f h w =
      let e = to_loop-Emits n 63 x [] (omega arith) h w (omega arith) in
      let len : length (reverse e.out) ≡ e.count =
        omega (arith, length-reverse e.out, e.same_length) in
      record {
        out = reverse e.out;
        written = rw e.returns;
        positive = omega (arith, len, e.positive);
        bounded = omega (arith, len, e.bounded);
        read = λ b rest r stops.
            rw len (
              rw (e.scans rest ∙ scan_stop rest x e.count stops) at (reader-Returns digit shift r));
      }
