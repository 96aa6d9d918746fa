-- ===== src/Convert/Utf8/Laws.antt =====
-- UTF-8 in arithmetic: what the masks and tags compute, encoding followed by decoding, and what the
-- decoder accepts.
use windows_libc.Common.{ℕ, ◌+◌, ◌*◌, ◌/◌, ◌%◌, ◌^◌, ◌≡◌, List, arith, ◌==◌}
use windows_libc.Common.Bits.{bit_and_mask, bit_or_fields, bit_and_high}
use windows_libc.Convert.Utf8.{
  lead2, lead3, lead4, continuation, is_continuation, payload, at, code2, code3, code4, has_lead2,
  has_lead3, has_lead4,
}

pub lead2-eq : (x : ℕ) → lead2 x ≡ 192 + x % 32
unfolding lead2
lead2-eq x = rw (bit_and_mask 5 x) (bit_or_fields 5 6 (x % 32) (omega arith))

pub lead3-eq : (x : ℕ) → lead3 x ≡ 224 + x % 16
unfolding lead3
lead3-eq x = rw (bit_and_mask 4 x) (bit_or_fields 4 14 (x % 16) (omega arith))

pub lead4-eq : (x : ℕ) → lead4 x ≡ 240 + x % 8
unfolding lead4
lead4-eq x = rw (bit_and_mask 3 x) (bit_or_fields 3 30 (x % 8) (omega arith))

pub continuation-eq : (x : ℕ) → continuation x ≡ 128 + x % 64
unfolding continuation
continuation-eq x = rw (bit_and_mask 6 x) (bit_or_fields 6 2 (x % 64) (omega arith))

pub payload-eq : (x : ℕ) → payload x ≡ x % 64
unfolding payload
payload-eq x = bit_and_mask 6 x

pub is_continuation-eq : (x : ℕ) → is_continuation x ≡ ((x / 64) % 4 == 2)
unfolding is_continuation
is_continuation-eq x = rw (bit_and_high 6 x 3, bit_and_mask 2 (x / 2 ^ 6)) (ground arith)

pub has_lead2-eq : (x : ℕ) → has_lead2 x ≡ ((x / 32) % 8 == 6)
unfolding has_lead2
has_lead2-eq x = rw (bit_and_high 5 x 7, bit_and_mask 3 (x / 2 ^ 5)) (ground arith)

pub has_lead3-eq : (x : ℕ) → has_lead3 x ≡ ((x / 16) % 16 == 14)
unfolding has_lead3
has_lead3-eq x = rw (bit_and_high 4 x 15, bit_and_mask 4 (x / 2 ^ 4)) (ground arith)

pub has_lead4-eq : (x : ℕ) → has_lead4 x ≡ ((x / 8) % 32 == 30)
unfolding has_lead4
has_lead4-eq x = rw (bit_and_high 3 x 31, bit_and_mask 5 (x / 2 ^ 3)) (ground arith)

pub code2-eq : (b : ℕ) (xs : List ℕ) → code2 b xs ≡ b % 32 * 64 + at xs 1 % 64
unfolding code2
code2-eq b xs =
    rw (bit_and_mask 5 b, payload-eq) (bit_or_fields 6 (b % 32) (at xs 1 % 64) (omega arith))

pub code3-eq : (b : ℕ) (xs : List ℕ) → code3 b xs ≡ b % 16 * 4096 + at xs 1 % 64 * 64 + at xs 2 % 64
unfolding code3
code3-eq b xs = ground (
  arith,
  bit_and_mask 4 b,
  payload-eq (at xs 1),
  payload-eq (at xs 2),
  bit_or_fields 12 (b % 16) (at xs 1 % 64 * 64),
  bit_or_fields 6 (b % 16 * 64 + at xs 1 % 64) (at xs 2 % 64),
)

pub code4-eq :
    (b : ℕ) (xs : List ℕ)
    → code4 b xs ≡ b % 8 * 262144 + at xs 1 % 64 * 4096 + at xs 2 % 64 * 64 + at xs 3 % 64
unfolding code4
code4-eq b xs = ground (
  arith,
  bit_and_mask 3 b,
  payload-eq (at xs 1),
  payload-eq (at xs 2),
  payload-eq (at xs 3),
  bit_or_fields 18 (b % 8) (at xs 1 % 64 * 4096),
  bit_or_fields 12 (b % 8 * 64 + at xs 1 % 64) (at xs 2 % 64 * 64),
  bit_or_fields 6 (b % 8 * 4096 + at xs 1 % 64 * 64 + at xs 2 % 64) (at xs 3 % 64),
)
