-- ===== src/Convert/Decimal.antt =====
-- Decimal numbers (src/internal/convert.c): `parse_digits`, `uint_to_dec_common`,
-- `uint_from_dec_common`, `int_to_dec_common` and `int_from_dec_common`. An `intmax_t` is its bit
-- pattern of 64 bits; the products and sums that the signed reader makes wrap as patterns do.
pub mod Scan
pub mod Bridge
pub mod Write
pub mod RoundTrip
pub mod Signed
use windows_libc.Common.{
  ℕ, zero, suc, ◌+◌, ◌-◌, ◌*◌, ◌/◌, ◌%◌, ◌^◌, ◌≤◌, ◌<◌, min, max, bit_and, bit_or, bit_xor, ◌≡◌,
  refl, sym, ap, ◌∙◌, ◌≢◌, ◌↔◌, ◌⊎◌, inl, inr, Bool, true, false, ◌&&◌, ◌||◌, not, Option, none,
  some, List, [], ◌∷◌, ◌++◌, map, append-nil, append_assoc, reverse, reverse_snoc, length-reverse,
  arith, ltb, leb, ◌==◌, if◌then◌else◌, Bool-cases, Option-cases, length, get_elem?, set, get_or,
  take, drop, replicate, length-append, length-set, length-take, length-drop, length-replicate,
  take-append, drop-append, take-take-append, take-set, drop-cons, drop-nil, get_elem?-set_self,
  get_elem?-set_ne, ==_iff, ltb→lt, lt→ltb, leb→le, u8, u16, u32, u64,
}
use windows_libc.Buffer.{Buffer, readbyte, peekbyte}
use windows_libc.Convert.Radix.{push, copy_back, Parsed, read_rounds}

abbrev pub force_sign : ℕ
force_sign = 0x10

abbrev pub group_digits : ℕ
group_digits = 0x40

abbrev pub is_digit : ℕ → Bool
is_digit c = leb b'0' c && leb c b'9'

abbrev pub comma : ℕ
comma = b','

pub record DigitParseState : Type 0 where
  pub period : ℕ
  pub grouping : Bool
  pub fraction : Bool
  pub flags : ℕ

-- `state->flags & CONVERT_GROUP_DIGITS`.
abbrev pub groups : ℕ → Bool
groups flags = not (bit_and flags group_digits == 0)

-- What `parse_digits` returns, with what it writes through its pointers. Byte 0 ends the number.
pub record Digit : Type 0 where
  pub byte : ℕ
  pub state : DigitParseState
  pub buffer : Buffer
  pub count : ℕ

abbrev pub group_begun : DigitParseState → DigitParseState
group_begun st = record st { grouping = true; period = 0 }

-- Whether the digits before a comma make a group.
abbrev pub group_ends : DigitParseState → Bool
group_ends st = if st.fraction || st.grouping then st.period == 3 else leb st.period 3

-- The function from its label `begin`; each `goto begin` has taken a comma from the buffer.
pub parse_digits : ℕ → DigitParseState → Buffer → ℕ → Option Digit
parse_digits zero st b count = none
parse_digits (suc fuel) st b count =
    let stop : Option Digit = some (record { byte = 0; state = st; buffer = b; count = count }) in
    let begin = parse_digits fuel (group_begun st) (readbyte b).1 (u32 (count + 1)) in
    let byte = peekbyte b 0 in
    if byte == 0
    then stop
    else if is_digit byte
    then (if st.grouping && st.period == 3
        then stop
        else some (record {
          byte = byte;
          state = record st { period = u8 (st.period + 1) };
          buffer = (readbyte b).1;
          count = u32 (count + 1);
        }))
    else if not (byte == comma) || not (groups st.flags)
    then stop
    else if peekbyte b 1 == 0
    then some (record { byte = 0; state = st; buffer = (readbyte b).1; count = u32 (count + 1) })
    else if not (group_ends st)
    then stop
    else if st.fraction
        || (is_digit (peekbyte b 1) && (is_digit (peekbyte b 2) && is_digit (peekbyte b 3)))
    then begin
    else some (record { byte = 0; state = group_begun st; buffer = b; count = count })

-- What the caller's loop does with the result: `next` is its assignment to the value.
pub use_digit :
    (ℕ → ℕ → ℕ)
    → (DigitParseState → Buffer → ℕ → ℕ → Option Parsed)
    → ℕ
    → Option Digit
    → Option Parsed
use_digit next again value none = none
use_digit next again value (some d) =
    let rest = again d.state d.buffer (next value (d.byte - b'0')) d.count in
    if d.byte == 0
    then some (record { count = d.count; value = value; buffer = d.buffer })
    else rest

-- `while ((byte = parse_digits(&state, buffer, &count)) != '\0') *value = …;`
pub from_dec_loop : (ℕ → ℕ → ℕ) → ℕ → DigitParseState → Buffer → ℕ → ℕ → Option Parsed
unfolding use_digit
from_dec_loop next zero st b value count = none
from_dec_loop next (suc fuel) st b value count =
    use_digit next (from_dec_loop next fuel) value (parse_digits (read_rounds b) st b count)

-- The state `{.flags = (uint8_t)flags}`.
pub initial : ℕ → DigitParseState
initial flags = record { period = 0; grouping = false; fraction = false; flags = u8 flags }

pub add_digit : ℕ → ℕ → ℕ
add_digit value d = u64 (value * 10 + d)

pub subtract_digit : ℕ → ℕ → ℕ
subtract_digit value d = u64 (value * 10 + 2 ^ 64 - d)

abbrev unfolded_reader : (ℕ → ℕ → ℕ) → ℕ → Buffer → ℕ → Option Parsed
unfolded_reader next flags b count = from_dec_loop next (read_rounds b) (initial flags) b 0 count

unfoldable pub uint_from_dec : Buffer → ℕ → Option Parsed
unfolding from_dec_loop parse_digits use_digit read_rounds initial add_digit
uint_from_dec b flags =
    if peekbyte b 0 == b'+'
    then unfolded_reader add_digit flags (readbyte b).1 1
    else unfolded_reader add_digit flags b 0

unfoldable pub int_from_dec : Buffer → ℕ → Option Parsed
unfolding from_dec_loop parse_digits use_digit read_rounds initial add_digit subtract_digit
int_from_dec b flags =
    if peekbyte b 0 == b'-'
    then unfolded_reader subtract_digit flags (readbyte b).1 1
    else if peekbyte b 0 == b'+'
    then unfolded_reader add_digit flags (readbyte b).1 1
    else unfolded_reader add_digit flags b 0

-- One round of the writer: `if (sep == 3) { sep = 0; if (flags & …) temp[pos++] = ','; }`, and the
-- digit behind it.
pub separate : ℕ → ℕ → List ℕ → Option (List ℕ)
separate flags sep temp = if sep == 3 && groups flags then push 32 temp comma else some temp

abbrev pub restart : ℕ → ℕ
restart sep = if sep == 3 then 0 else sep

pub push_digit : ℕ → Option (List ℕ) → Option (List ℕ)
push_digit x none = none
push_digit x (some temp) = push 32 temp (u8 (x % 10 + b'0'))

pub to_dec_loop : ℕ → ℕ → ℕ → List ℕ → ℕ → Option (List ℕ)
to_dec_loop flags zero x temp sep = none
to_dec_loop flags (suc fuel) x temp sep = elim (push_digit x (separate flags sep temp)) [
  | none ↦ none
  | some temp' ↦
      let rest = to_dec_loop flags fuel (x / 10) temp' (restart sep + 1) in
      if x / 10 == 0 then some temp' else rest
]

-- A number of 64 bits has at most 20 decimal digits.
unfoldable pub uint_to_dec : ℕ → ℕ → Option (List ℕ)
unfolding to_dec_loop separate push_digit
uint_to_dec x flags = copy_back (to_dec_loop flags 20 x [] 0)

-- `*buffer++ = c` before the digits.
abbrev pub behind : ℕ → Option (List ℕ) → Option (List ℕ)
behind c none = none
behind c (some out) = some (c ∷ out)

abbrev int64_min : ℕ
int64_min = 2 ^ 63

abbrev pub int64_min_text : List ℕ
int64_min_text =
    b'-' ∷ b'9' ∷ b'2' ∷ b'2' ∷ b'3' ∷ b'3' ∷ b'7' ∷ b'2' ∷ b'0' ∷ b'3' ∷ b'6' ∷ b'8' ∷ b'5' ∷ b'4'
    ∷ b'7' ∷ b'7' ∷ b'5' ∷ b'8' ∷ b'0' ∷ b'8' ∷ []

-- `x < 0` is the highest bit of the pattern, and `~x + 1` its complement to 2 ^ 64.
unfoldable pub int_to_dec : ℕ → ℕ → Option (List ℕ)
unfolding uint_to_dec
int_to_dec x flags =
    if x == int64_min
    then some int64_min_text
    else if leb (2 ^ 63) x
    then behind b'-' (uint_to_dec (u64 (2 ^ 64 - x)) flags)
    else if not (bit_and flags force_sign == 0)
    then behind b'+' (uint_to_dec x flags)
    else uint_to_dec x flags
