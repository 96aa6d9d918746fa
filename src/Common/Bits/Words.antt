-- ===== src/Common/Bits/Words.antt =====
-- Masks, fields and single digits of words.
use Prim.Native.Nat.{ℕ, zero, suc, ◌+◌, ◌-◌, ◌*◌, ◌/◌, ◌%◌, ◌^◌, ◌≤◌, ◌<◌, bit_and, bit_or, bit_xor}
use Prim.Native.Nat.{bit_and-bitwise, bit_or-bitwise, bit_xor-bitwise}
use mathlib.Core.Path.{◌≡◌, refl, ap}
use native.Mathlib.Nat.{pow-suc, pow-succ', one-le-pow, div-div-eq-div-mul}
use native.Mathlib.Omega.{arith}
use windows_libc.Common.Bits.Digits.{
  bit, bit_and_step, bit_or_step, bit_xor_step, bit-lt, differ-le-one,
}
use windows_libc.Common.Tests.{◌==◌, if◌then◌else◌}

-- Induction from `x / 2` to `x`; a bound on `x` carries it.
by_halves :
    (P : ℕ → Type 0) → P 0 → ((x : ℕ) → P (suc x / 2) → P (suc x)) → (bound x : ℕ) → x ≤ bound → P x
by_halves P base next bound zero h = base
by_halves P base next zero (suc x) h = absurd (omega arith)
by_halves P base next (suc bound) (suc x) h =
    next x (by_halves P base next bound (suc x / 2) (omega arith))

pub bit_or-zero : (a : ℕ) → bit_or a 0 ≡ a
bit_or-zero a =
    by_halves (λ x. bit_or x 0 ≡ x) refl (λ x e. omega (arith, bit_or_step (suc x) 0)) a a
      (omega arith)

bit_and-zero : (a : ℕ) → bit_and a 0 ≡ 0
bit_and-zero a =
    by_halves (λ x. bit_and x 0 ≡ 0) refl (λ x e. omega (arith, bit_and_step (suc x) 0)) a a
      (omega arith)

double_pow : (q k : ℕ) → q * 2 ^ suc k ≡ q * 2 ^ k * 2
double_pow q k = omega (arith, ap (λ (t : ℕ). q * t) (pow-suc 2 k))

-- A number cut at digit `k`: halving cuts it at digit `k - 1`.
half_cut : (q k r : ℕ) → r < 2 ^ suc k → (q * 2 ^ suc k + r) / 2 ≡ q * 2 ^ k + r / 2
half_cut q k r h = omega (arith, double_pow q k)

half-lt : (k r : ℕ) → r < 2 ^ suc k → r / 2 < 2 ^ k
half-lt k r h = omega (arith, pow-suc 2 k)

-- `(q << k) | r` is a sum where `r` has at most `k` digits.
pub bit_or_fields : (k q r : ℕ) → r < 2 ^ k → bit_or (q * 2 ^ k) r ≡ q * 2 ^ k + r
bit_or_fields zero q r h = let e : r ≡ 0 = omega arith in rw e (omega (arith, bit_or-zero (q * 1)))
bit_or_fields (suc k) q r h =
    let e : q * 2 ^ suc k / 2 ≡ q * 2 ^ k = omega (arith, double_pow q k) in
    rw (bit_or_step (q * 2 ^ suc k) r, e, bit_or_fields k q (r / 2) (half-lt k r h))
      (omega (arith, double_pow q k))

-- The lowest `k` digits of a number cut at digit `k`.
mask_cut : (k q r : ℕ) → r < 2 ^ k → bit_and (q * 2 ^ k + r) (2 ^ k - 1) ≡ r
mask_cut zero q r h = omega (arith, bit_and-zero (q * 1 + r))
mask_cut (suc k) q r h = rw (bit_and_step (q * 2 ^ suc k + r) (2 ^ suc k - 1)) (
    let e : (2 ^ suc k - 1) / 2 ≡ 2 ^ k - 1 = omega (arith, pow-suc 2 k) in
    rw (half_cut q k r h, e, mask_cut k q (r / 2) (half-lt k r h))
      (omega (arith, double_pow q k, pow-suc 2 k, one-le-pow k 2)))

-- `a & (2 ^ k - 1)` is the remainder by `2 ^ k`.
pub bit_and_mask : (k a : ℕ) → bit_and a (2 ^ k - 1) ≡ a % 2 ^ k
bit_and_mask k a = ground (arith, one-le-pow k 2, mask_cut k (a / 2 ^ k) (a % 2 ^ k))

-- `a & (m << k)` keeps the digits from `k` on, under the mask `m`.
pub bit_and_high : (k a m : ℕ) → bit_and a (m * 2 ^ k) ≡ bit_and (a / 2 ^ k) m * 2 ^ k
bit_and_high zero a m =
    let e : m * 1 ≡ m = omega arith in let e' : a / 1 ≡ a = omega arith in rw (e, e') (omega arith)
bit_and_high (suc k) a m =
    let e : m * 2 ^ suc k / 2 ≡ m * 2 ^ k = omega (arith, double_pow m k) in
    let e' : a / 2 / 2 ^ k ≡ a / 2 ^ suc k = rw (pow-succ' 2 k) (div-div-eq-div-mul a 2 (2 ^ k)) in
    rw (bit_and_step a (m * 2 ^ suc k), e, bit_and_high k (a / 2) m, e')
      (omega (arith, double_pow m k, double_pow (bit_and (a / 2 ^ suc k) m) k))

zero-bit_and : (b : ℕ) → bit_and 0 b ≡ 0
zero-bit_and b = bit_and-bitwise 0 b

zero-bit_or : (b : ℕ) → bit_or 0 b ≡ b
zero-bit_or b = bit_or-bitwise 0 b

zero-bit_xor : (b : ℕ) → bit_xor 0 b ≡ b
zero-bit_xor b = bit_xor-bitwise 0 b

pub bit_and-lt : (k a b : ℕ) → a < 2 ^ k → bit_and a b < 2 ^ k
bit_and-lt zero a b h = let e : a ≡ 0 = omega arith in rw e (omega (arith, zero-bit_and b))
bit_and-lt (suc k) a b h =
    omega (arith, bit_and_step a b, pow-suc 2 k, bit_and-lt k (a / 2) (b / 2) (half-lt k a h))

pub bit_or-lt : (k a b : ℕ) → a < 2 ^ k → b < 2 ^ k → bit_or a b < 2 ^ k
bit_or-lt zero a b h l =
    let e : a ≡ 0 = omega arith in let e' : b ≡ 0 = omega arith in rw (e, e') (omega arith)
bit_or-lt (suc k) a b h l = omega (
  arith,
  bit_or_step a b,
  pow-suc 2 k,
  bit_or-lt k (a / 2) (b / 2) (half-lt k a h) (half-lt k b l),
)

pub bit_xor-lt : (k a b : ℕ) → a < 2 ^ k → b < 2 ^ k → bit_xor a b < 2 ^ k
bit_xor-lt zero a b h l =
    let e : a ≡ 0 = omega arith in let e' : b ≡ 0 = omega arith in rw (e, e') (omega arith)
bit_xor-lt (suc k) a b h l = omega (
  arith,
  bit_xor_step a b,
  differ-le-one a b,
  pow-suc 2 k,
  bit_xor-lt k (a / 2) (b / 2) (half-lt k a h) (half-lt k b l),
)

-- The word `1 << k` has digit `k` alone.
pub bit-pow : (i k : ℕ) → bit i (2 ^ k) ≡ (if i == k then 1 else 0)
bit-pow zero zero = refl
bit-pow zero (suc k) = ground (arith, pow-suc 2 k)
bit-pow (suc i) zero = ground (arith, bit-lt 0 i 0)
bit-pow (suc i) (suc k) =
    let e : 2 ^ suc k / 2 ≡ 2 ^ k = omega (arith, pow-suc 2 k) in rw e (ground (arith, bit-pow i k))

-- `~a` on `k` digits.
pub bit-complement : (k i a : ℕ) → a < 2 ^ k → i < k → bit i (2 ^ k - 1 - a) ≡ 1 - bit i a
bit-complement zero i a h l = absurd (omega arith)
bit-complement (suc k) zero a h l = omega (arith, pow-suc 2 k)
bit-complement (suc k) (suc i) a h l =
    let e : (2 ^ suc k - 1 - a) / 2 ≡ 2 ^ k - 1 - a / 2 = omega (arith, pow-suc 2 k) in
    rw e (bit-complement k i (a / 2) (half-lt k a h) (omega arith))
