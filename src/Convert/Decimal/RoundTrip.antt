-- ===== src/Convert/Decimal/RoundTrip.antt =====
-- Unsigned decimal numbers, with and without commas (`uint_to_dec_common`, `uint_from_dec_common`).
use windows_libc.Common.{
  ℕ, ◌+◌, ◌/◌, ◌%◌, ◌^◌, ◌≤◌, ◌<◌, ◌≡◌, refl, ap, ◌∙◌, ◌≢◌, Bool, true, false, Option, some, List,
  [], ◌∷◌, ◌++◌, reverse, length-reverse, arith, ◌==◌, length, get_or, u8,
}
use mathlib.Core.Path.{subst}
use windows_libc.Buffer.{Buffer, peekbyte}
use windows_libc.Buffer.View.{Reads, peekbyte-get_or}
use windows_libc.Convert.Radix.{Parsed, copy_back, read_rounds}
use windows_libc.Convert.Radix.Scan.{length-rest}
use windows_libc.Convert.Decimal.{
  groups, is_digit, comma, add_digit, to_dec_loop, from_dec_loop, initial, uint_to_dec,
  uint_from_dec,
}
use windows_libc.Convert.Decimal.Scan.{scan}
use windows_libc.Convert.Decimal.Bridge.{Returns, from_dec_loop-Returns}
use windows_libc.Convert.Decimal.Write.{to_dec_loop-Emits}

-- A text that no decimal number goes on with: it does not begin with a digit or a comma.
abbrev pub Stops : List ℕ → Type 0
Stops [] = Unit
Stops (x ∷ xs) = (is_digit x ≡ false) × (x ≢ comma)

pub scan_stop :
    (next : ℕ → ℕ → ℕ) (on : Bool) (rest : List ℕ) (g : Bool) (p value count : ℕ)
    → Stops rest
    → scan next on rest g p value count ≡ record { count = count; value = value; rest = rest }
scan_stop next on [] g p value count s = unfold scan in refl
scan_stop next on (x ∷ xs) g p value count s = unfold scan in ground arith

-- `o` holds at most `most` bytes of which the first is a digit, and the reading loop that meets them
-- before a text that a number does not go on with returns `value` and their number, and stands
-- behind them.
pub record DigitsRead (next : ℕ → ℕ → ℕ) (value flags most : ℕ) (o : Option (List ℕ)) : Type 0 where
  pub out : List ℕ
  pub written : o ≡ some out
  pub first : ℕ
  pub tail : List ℕ
  pub begins : out ≡ first ∷ tail
  pub is_first : is_digit first ≡ true
  pub bounded : length out ≤ most
  pub read :
      (rest : List ℕ) (b : Buffer) (count : ℕ)
      → count ≤ 1
      → Reads b (out ++ rest)
      → Stops rest
      → Returns
          (record { count = length out + count; value = value; rest = rest })
          (from_dec_loop next (read_rounds b) (initial flags) b 0 count)

pub loop_scan :
    (next : ℕ → ℕ → ℕ) (flags : ℕ) (xs : List ℕ) (b : Buffer) (count : ℕ)
    → flags < 2 ^ 8
    → Reads b xs
    → Returns
        (scan next (groups flags) xs false 0 0 count)
        (from_dec_loop next (read_rounds b) (initial flags) b 0 count)
unfolding initial
loop_scan next flags xs b count f r =
    let same : u8 flags ≡ flags = omega arith in
    rw same (from_dec_loop-Returns next flags xs (read_rounds b) b 0 count (length-rest r) r)

-- The writer's loop and a reader's loop, for every way to add up the digits that yields `at x` on
-- the digits of `x`.
pub to_dec_loop-DigitsRead :
    (next : ℕ → ℕ → ℕ) (at : ℕ → ℕ) (x flags : ℕ)
    → ((y : ℕ) → y < 2 ^ 64 → next (at (y / 10)) (y % 10) ≡ at y)
    → at 0 ≡ 0
    → x < 2 ^ 64
    → flags < 2 ^ 8
    → DigitsRead next (at x) flags 26 (copy_back (to_dec_loop flags 20 x [] 0))
to_dec_loop-DigitsRead next at x flags law z h f =
    let e =
      to_dec_loop-Emits next flags at law 19 19 x 0 [] (omega arith) (omega arith) h (omega arith)
        (omega arith) tt in
    let len : length (reverse e.out) ≡ e.count =
      omega (arith, length-reverse e.out, e.same_length) in
    record {
      out = reverse e.out;
      written = rw e.returns;
      first = e.first;
      tail = e.tail;
      begins = e.begins;
      is_first = e.is_first;
      bounded = omega (arith, len, e.bounded, e.same_length);
      read = λ rest b count c r stops.
          let all =
            rw z at (e.scans rest count c)
            ∙ scan_stop next (groups flags) rest e.seen e.period (at x) (count + e.count) stops in
          let swap : length (reverse e.out) + count ≡ count + e.count = omega (arith, len) in
          rw swap (
            subst (λ s. Returns s (from_dec_loop next (read_rounds b) (initial flags) b 0 count))
              all (loop_scan next flags (reverse e.out ++ rest) b count f r));
    }

-- `o` holds at most `most` bytes, and a reader that meets them before a text that a number does not
-- go on with returns `value` and their number, and stands behind them.
pub record ReadsBack (reader : Buffer → Option Parsed) (value most : ℕ) (o : Option (List ℕ))
    : Type 0 where
  pub out : List ℕ
  pub written : o ≡ some out
  pub bounded : length out ≤ most
  pub read :
      (b : Buffer) (rest : List ℕ)
      → Reads b (out ++ rest)
      → Stops rest
      → Returns (record { count = length out; value = value; rest = rest }) (reader b)

pub add_digit_law : (y : ℕ) → y < 2 ^ 64 → add_digit (y / 10) (y % 10) ≡ y
unfolding add_digit
add_digit_law y h = omega arith

-- The first byte of the digits, as the reader peeks at it.
pub peek_first :
    {next : ℕ → ℕ → ℕ} {value flags most : ℕ} {o : Option (List ℕ)} {b : Buffer} (rest : List ℕ)
    (d : DigitsRead next value flags most o)
    → Reads b (d.out ++ rest)
    → peekbyte b 0 ≡ d.first
peek_first rest d r = peekbyte-get_or 0 r ∙ ap (λ xs. get_or (xs ++ rest) 0 0) d.begins

-- The decimal form of every number of 64 bits has at most 26 bytes, commas included where the flags
-- ask for groups, and `uint_from_dec_common` with the same flags (of 8 bits) reads the number and
-- the count of its bytes back from it, before any text that does not go on with a digit or a comma,
-- and stops behind it.
pub uint_to_dec-ReadsBack :
    (x flags : ℕ)
    → x < 2 ^ 64
    → flags < 2 ^ 8
    → ReadsBack (λ b. uint_from_dec b flags) x 26 (uint_to_dec x flags)
unfolding uint_to_dec uint_from_dec
uint_to_dec-ReadsBack x flags h f =
    let d = to_dec_loop-DigitsRead add_digit (λ y. y) x flags add_digit_law refl h f in
    record {
      out = d.out;
      written = d.written;
      bounded = d.bounded;
      read = λ b rest r stops.
          let plain : (peekbyte b 0 == b'+') ≡ false =
            ground (arith, peek_first rest d r, d.is_first) in
          let all : length d.out + 0 ≡ length d.out = omega arith in
          simp plain (rw all at (d.read rest b 0 (omega arith) r stops));
    }
